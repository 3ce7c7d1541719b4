-- ===== src/Environment/Laws.antt =====
-- What a variable reads after each operation of sbuild/sbuild-environment.cc.
use schroot.Prelude.{
  ◌≡◌, refl, ◌∙◌, Bool, Option, none, some, [], ◌∷◌, Text, arith, text_beq, text_beq_iff, is_empty,
  if◌then◌else◌,
}
use schroot.Prelude.Map.{Map, find, erase, find-erase, find-erase_self, find-insert}
use schroot.Prelude.Map.Order.{IsSorted, find-Above}
use schroot.Environment.{Environment, get, remove_key, allowed, add, add_all, add_environment}

pub get-remove_key :
    (k j : Text) (env : Environment)
    → get j (remove_key k env) ≡ (if text_beq k j then none else get j env)
unfolding get remove_key
get-remove_key k j env = find-erase k j env.vars

module _ (search : Text → Text → Bool) where
  -- What a variable reads after `add`: only the named one changes, to the new value or, where the
  -- filter matches its name, to nothing. A nameless variable is not added.
  pub get-add :
      (k v j : Text) (env : Environment)
      → get j (add search k v env) ≡ (
          if is_empty k
          then get j env
          else if text_beq k j
          then (if allowed search env.filter k then some v else none)
          else get j env)
  unfolding get add
  get-add k v j env = ground (
    arith,
    find-erase k j env.vars,
    find-erase_self k env.vars,
    find-insert k j v (erase k env.vars),
  )

  pub filter-add : (k v : Text) (env : Environment) → (add search k v env).filter ≡ env.filter
  unfolding add
  filter-add k v env = ground arith

module _ (search : Text → Text → Bool) where
  -- What a variable reads where `m` holds a value of it, and where it does not.
  abbrev pub overlay : Text → Option Text → Environment → Option Text
  overlay j none env = get j env
  overlay j (some w) env =
      if is_empty j then get j env else if allowed search env.filter j then some w else none

  get-add_all :
      (j : Text) (m : Map Text) (env : Environment)
      → IsSorted m
      → get j (add_all search m env) ≡ overlay j (find j m) env
  unfolding add_all find
  get-add_all j [] env s = refl
  get-add_all j ((k, v) ∷ m) env s = ground (
    arith,
    get-add_all j m (add search k v env) s.1,
    get-add search k v j env,
    filter-add search k v env,
    find-Above k m s.0,
    text_beq_iff k j,
  )

  -- Adding an environment to another: each of its variables has the value it has there, or none
  -- where the filter of the receiver matches it; the other variables keep theirs.
  pub get-add_environment :
      (env other : Environment) (j : Text)
      → IsSorted other.vars
      → get j (add_environment search env other) ≡ overlay j (find j other.vars) env
  unfolding add_environment
  get-add_environment env other j s = get-add_all j other.vars env s

  filter-add_all : (m : Map Text) (env : Environment) → (add_all search m env).filter ≡ env.filter
  unfolding add_all
  filter-add_all [] env = refl
  filter-add_all ((k, v) ∷ m) env =
      filter-add_all m (add search k v env) ∙ filter-add search k v env

  pub filter-add_environment :
      (env other : Environment) → (add_environment search env other).filter ≡ env.filter
  unfolding add_environment
  filter-add_environment env other = filter-add_all other.vars env
