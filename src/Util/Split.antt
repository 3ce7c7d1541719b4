-- ===== src/Util/Split.antt =====
-- sbuild/sbuild-util.cc: `string_list_to_string`, `split_string` and `split_string_strict`.
-- A position in `value` is the text from there on, and `npos` is `none`.
pub mod Laws
pub mod Words
pub mod Lines
pub mod Fuel
use schroot.Prelude.{
  ℕ, zero, suc, Bool, not, Option, none, some, List, [], ◌∷◌, ◌++◌, Text, nat_eq, contains, length,
  if◌then◌else◌,
}

-- The text before a found position, and the text from it on.
pub record Found : Type 0 where
  pub before : Text
  pub at : Text

abbrev pub extend : ℕ → Option Found → Option Found
extend c none = none
extend c (some r) = some (record r { before = c ∷ r.before })

-- The first character that passes the test.
unfoldable pub find_first : (ℕ → Bool) → Text → Option Found
find_first p [] = none
find_first p (c ∷ s) =
    let rest = extend c (find_first p s) in
    if p c then some (record { before = []; at = c ∷ s }) else rest

-- `value.find_first_of (separator, pos)`; nothing is found from `npos` on
unfoldable pub find_first_of : Text → Option Text → Option Found
unfolding find_first
find_first_of separator none = none
find_first_of separator (some s) = find_first (contains separator) s

unfoldable pub find_first_not_of : Text → Option Text → Option Found
unfolding find_first
find_first_not_of separator none = none
find_first_not_of separator (some s) = find_first (λ c. not (contains separator c)) s

abbrev pub position : Option Found → Option Text
position none = none
position (some r) = some r.at

-- The loop of `split_string`. `value.substr (last_pos, pos - last_pos)` is the text that the
-- search for `pos` passed over; a `last_pos` of `npos` beside a found `pos` does not arise.
unfoldable pub split_loop : ℕ → Text → Option Text → List Text
unfolding find_first_of find_first_not_of
split_loop zero separator last = []
split_loop (suc fuel) separator none = []
split_loop (suc fuel) separator (some s) = elim (find_first_of separator (some s)) [
  | none ↦ s ∷ []
  | some r ↦
      r.before ∷ split_loop fuel separator (position (find_first_not_of separator (some r.at)))
]

unfoldable pub split_string : Text → Text → List Text
unfolding split_loop
split_string value separator =
    split_loop (suc (length value)) separator (position (find_first_not_of separator (some value)))

abbrev pub drop : ℕ → Text → Text
drop zero s = s
drop (suc n) [] = []
drop (suc n) (c ∷ s) = drop n s

-- The loop of `split_string_strict`, which goes on while a separator is found.
unfoldable pub split_strict_loop : ℕ → Text → Text → List Text
unfolding find_first_of
split_strict_loop zero separator s = []
split_strict_loop (suc fuel) separator s = elim (find_first_of separator (some s)) [
  | none ↦ []
  | some r ↦ r.before ∷ split_strict_loop fuel separator (drop (length separator) r.at)
]

unfoldable pub split_string_strict : Text → Text → List Text
unfolding split_strict_loop
split_string_strict value separator = split_strict_loop (suc (length value)) separator value

unfoldable pub string_list_to_string : List Text → Text → Text
string_list_to_string [] separator = []
string_list_to_string (s ∷ []) separator = s
string_list_to_string (s ∷ t ∷ list) separator =
    s ++ (separator ++ string_list_to_string (t ∷ list) separator)
