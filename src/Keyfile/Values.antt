-- ===== src/Keyfile/Values.antt =====
-- sbuild/sbuild-basic-keyfile.{h,tcc}: reading and writing values. Values of other types than text and
-- lists of text are parsed by sbuild/sbuild-parse-value.{h,cc}.
use schroot.Prelude.{
  ℕ, Bool, true, false, ◌||◌, Option, none, some, List, [], ◌∷◌, ◌++◌, Text, codes, text_eq, ◌==◌,
  if◌then◌else◌, nat_eq,
}
use schroot.Util.Split.{split_string, string_list_to_string, find_first}
use schroot.Keyfile.{Keyfile, Priority, Result, ok, error, find_item, set_value, check_priority}

abbrev pub separator : Text
separator = codes ","

-- `parse_value` of a Boolean
unfoldable pub parse_bool : Text → Option Bool
parse_bool value =
    if value == codes "true" || value == codes "yes" || value == codes "1"
    then some true
    else if value == codes "false" || value == codes "no" || value == codes "0"
    then some false
    else none

-- `get_value` of a text; `none` where it returns false
unfoldable pub get_value : Text → Text → Keyfile → Option Text
get_value group key kf = elim (find_item group key kf) [ none ↦ none | some i ↦ some i.value ]

-- `get_value` of a Boolean
unfoldable pub get_bool : Text → Text → Keyfile → Option Bool
get_bool group key kf = elim (get_value group key kf) [ none ↦ none | some v ↦ parse_bool v ]

-- `get_list_value` of texts
unfoldable pub get_list_value : Text → Text → Keyfile → Option (List Text)
get_list_value group key kf = elim (get_value group key kf) [
  | none ↦ none
  | some v ↦ some (split_string v separator)
]

-- `set_list_value`
unfoldable pub set_list_value : Text → Text → List Text → Text → ℕ → Keyfile → Keyfile
set_list_value group key list comment line kf =
    set_value group key (string_list_to_string list separator) comment line kf

abbrev is_found {ℓ} : {A : Type ℓ} → Option A → Bool
is_found none = false
is_found (some a) = true

abbrev checked {ℓ} : {A : Type ℓ} → Option A → Result (Unit {0}) → Result (Option A)
checked value (ok u) = ok value
checked value (error line code) = error line code

-- `get_value` with a priority
unfoldable pub get_value_priority : Text → Text → Priority → Keyfile → Result (Option Text)
get_value_priority group key priority kf =
    let value = get_value group key kf in
    checked value (check_priority group key priority (is_found value) kf)

-- `get_locale_string` with a locale
unfoldable pub get_localised : Text → Text → Text → Keyfile → Option Text
get_localised group key locale kf = get_value group (key ++ (b'[' ∷ (locale ++ b']' ∷ []))) kf

abbrev pub or_else {ℓ} : {A : Type ℓ} → Option A → Option A → Option A
or_else (some a) other = some a
or_else none other = other

-- The text before the first `c`, if there is one.
unfoldable pub before : ℕ → Text → Option Text
unfolding find_first
before c name = elim (find_first (λ d. d == c) name) [ none ↦ none | some f ↦ some f.before ]

abbrev stripped : Option Text → Text → Text
stripped none name = name
stripped (some short) name = short

-- `get_locale_string`; `localename` is the name of the user's locale. The charset is stripped, then
-- the territory, and the value without a locale is the last resort.
unfoldable pub get_locale_string : Text → Text → Text → Keyfile → Option Text
get_locale_string group key localename kf =
    let name = stripped (before b'.' localename) localename in
    or_else (get_localised group key name kf) (
      or_else
        (elim (before b'_' name) [ none ↦ none | some short ↦ get_localised group key short kf ])
        (get_value group key kf))
