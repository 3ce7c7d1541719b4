-- ===== src/Environment.antt =====
-- sbuild/sbuild-environment.{h,cc}: a map of variables that a regular expression filters.
-- `search name pattern` stands for `regex_search (name, regex (pattern))`, of the C++ library.
pub mod Laws
pub mod Invariant
pub mod Strv
use schroot.Prelude.{
  ℕ, zero, suc, Bool, true, false, not, ◌||◌, Option, none, some, List, [], ◌∷◌, ◌++◌, Text,
  nat_beq, is_empty, take, if◌then◌else◌,
}
use schroot.Prelude.Map.{Map, find, insert, erase}

pub record Environment : Type 0 where
  pub vars : Map Text
  pub filter : Text

abbrev pub no_environment : Environment
no_environment = record { vars = []; filter = [] }

-- `'='`
abbrev pub equals : ℕ
equals = 61

abbrev after_key : ℕ → Option (Text × Text) → Option (Text × Text)
after_key c none = none
after_key c (some (k, v)) = some (c ∷ k, v)

-- `value.find ('=')`, with the texts before and after it for the two `substr`
unfoldable pub find_equals : Text → Option (Text × Text)
find_equals [] = none
find_equals (c ∷ s) =
    let rest = after_key c (find_equals s) in if nat_beq c equals then some ([], s) else rest

-- The key and the value of an item "key=value". A `'='` at the very start is part of the key.
unfoldable pub split_item : Text → Text × Text
unfolding find_equals
split_item value = elim (find_equals value) [
  | none ↦ (value, [])
  | some (k, v) ↦ if is_empty k then (value, []) else (k, v)
]

unfoldable pub remove_key : Text → Environment → Environment
remove_key k env = record env { vars = erase k env.vars }

-- `remove (std::string const&)`
unfoldable pub remove : Text → Environment → Environment
unfolding split_item remove_key
remove value env = remove_key (split_item value).0 env

-- `remove (char **)`
unfoldable pub remove_strv : List Text → Environment → Environment
unfolding remove
remove_strv [] env = env
remove_strv (s ∷ strv) env = remove_strv strv (remove s env)

-- `remove (environment const&)`, whose items are pairs
remove_all : Map Text → Environment → Environment
remove_all [] env = env
remove_all ((k, v) ∷ m) env = remove_all m (remove_key k env)

unfoldable pub subtract : Environment → Environment → Environment
unfolding remove_key remove_all
subtract env other = remove_all other.vars env

unfoldable pub get : Text → Environment → Option Text
unfolding find
get name env = find name env.vars

module _ (search : Text → Text → Bool) where
  -- The filter lets the name pass.
  abbrev pub allowed : Text → Text → Bool
  allowed filter k = is_empty filter || not (search k filter)

  -- `add (value_type const&)`
  unfoldable pub add : Text → Text → Environment → Environment
  unfolding remove_key
  add k v env =
      if is_empty k
      then env
      else let env' = remove_key k env in
        if allowed env'.filter k then record env' { vars = insert k v env'.vars } else env'

  -- `add (std::string const&)`
  unfoldable pub add_item : Text → Environment → Environment
  unfolding split_item add
  add_item value env = add (split_item value).0 (split_item value).1 env

  -- `add (char **)`
  unfoldable pub add_strv : List Text → Environment → Environment
  unfolding add_item
  add_strv [] env = env
  add_strv (s ∷ strv) env = add_strv strv (add_item s env)

  -- the loop of `add (environment const&)`
  unfoldable pub add_all : Map Text → Environment → Environment
  unfolding add
  add_all [] env = env
  add_all ((k, v) ∷ m) env = add_all m (add k v env)

  -- `add (environment const&)`, `operator +=`
  unfoldable pub add_environment : Environment → Environment → Environment
  unfolding add_all
  add_environment env other = add_all other.vars env

  -- `environment (char **)`
  unfoldable pub from_strv : List Text → Environment
  unfolding add_strv
  from_strv strv = add_strv strv no_environment

-- `strcpy` of the `c_str`: the text up to the first NUL
unfoldable pub until_nul : Text → Text
until_nul [] = []
until_nul (c ∷ s) = let rest = until_nul s in if nat_beq c 0 then [] else c ∷ rest

-- the loop of `get_strv`
unfoldable pub items : Map Text → List Text
unfolding until_nul
items [] = []
items ((k, v) ∷ m) = until_nul (k ++ (equals ∷ v)) ∷ items m

unfoldable pub get_strv : Environment → List Text
unfolding items
get_strv env = items env.vars
