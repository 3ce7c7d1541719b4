-- ===== src/Keyfile.antt =====
-- sbuild/sbuild-basic-keyfile.{h,tcc} and sbuild/sbuild-keyfile-base.h: the groups of keys of a
-- configuration file. The copies of a name and of a key in the tuples are those of the map's entries.
pub mod Values
pub mod Parser
pub mod Printer
pub mod Lines
pub mod Comments
pub mod Lookup
pub mod Content
pub mod Reading
pub mod RoundTrip
pub mod Merge
pub mod Errors
use schroot.Prelude.{
  ℕ, zero, suc, Bool, true, false, not, ◌&&◌, Option, none, some, List, [], ◌∷◌, ◌++◌, map, Text,
  nat_eq, ◌==◌, if◌then◌else◌,
}
use schroot.Prelude.Map.{Map, find, insert, erase, update}

pub record Item : Type 0 where
  pub value : Text
  pub comment : Text
  pub line : ℕ

abbrev pub Items : Type 0
Items = Map Item

pub record Group : Type 0 where
  pub items : Items
  pub comment : Text
  pub line : ℕ

abbrev pub Keyfile : Type 0
Keyfile = Map Group

-- `keyfile_base::error_code`, of the errors that are thrown, and `keyfile_base::priority`
pub data Code : Type 0 where
  duplicate_group duplicate_key invalid_group invalid_line no_group no_key : Code
  missing_key disallowed_key passthrough : Code

pub data Priority : Type 0 where
  optional required disallowed deprecated obsolete : Priority

-- An error carries a line number, which is 0 where there is none.
pub data Result {ℓ} (A : Type ℓ) : Type ℓ where
  ok : A → Result A
  error : ℕ → Code → Result A

abbrev pub find_group : Text → Keyfile → Option Group
find_group group kf = find group kf

unfoldable pub find_item : Text → Text → Keyfile → Option Item
find_item group key kf = elim (find group kf) [ none ↦ none | some g ↦ find key g.items ]

abbrev is_some {ℓ} : {A : Type ℓ} → Option A → Bool
is_some none = false
is_some (some a) = true

unfoldable pub has_group : Text → Keyfile → Bool
has_group group kf = is_some (find_group group kf)

unfoldable pub has_key : Text → Text → Keyfile → Bool
has_key group key kf = is_some (find_item group key kf)

-- The names of a map's entries, in order.
unfoldable pub names {ℓ} : {V : Type ℓ} → Map V → List Text
names [] = []
names ((k, v) ∷ m) = k ∷ names m

unfoldable pub get_groups : Keyfile → List Text
unfolding names
get_groups kf = names kf

unfoldable pub get_keys : Text → Keyfile → List Text
unfolding names
get_keys group kf = elim (find_group group kf) [ none ↦ [] | some g ↦ names g.items ]

unfoldable pub get_group_line : Text → Keyfile → ℕ
get_group_line group kf = elim (find_group group kf) [ none ↦ 0 | some g ↦ g.line ]

unfoldable pub get_line : Text → Text → Keyfile → ℕ
get_line group key kf = elim (find_item group key kf) [ none ↦ 0 | some i ↦ i.line ]

unfoldable pub get_group_comment : Text → Keyfile → Text
get_group_comment group kf = elim (find_group group kf) [ none ↦ [] | some g ↦ g.comment ]

unfoldable pub get_comment : Text → Text → Keyfile → Text
get_comment group key kf = elim (find_item group key kf) [ none ↦ [] | some i ↦ i.comment ]

unfoldable pub set_group : Text → Text → ℕ → Keyfile → Keyfile
set_group group comment line kf =
    if has_group group kf
    then kf
    else insert group (record { items = []; comment = comment; line = line }) kf

abbrev pub put_item : Text → Item → Group → Group
put_item key item g = record g { items = insert key item (erase key g.items) }

-- `set_value`, of a value that is printed already
unfoldable pub set_value : Text → Text → Text → Text → ℕ → Keyfile → Keyfile
set_value group key value comment line kf =
    update group (put_item key (record { value = value; comment = comment; line = line }))
      (set_group group [] 0 kf)

unfoldable pub remove_group : Text → Keyfile → Keyfile
remove_group group kf = erase group kf

unfoldable pub remove_key : Text → Text → Keyfile → Keyfile
remove_key group key kf = update group (λ g. record g { items = erase key g.items }) kf

-- The loops of `operator +=`.
unfoldable pub add_items : Text → Items → Keyfile → Keyfile
add_items group [] kf = kf
add_items group ((key, i) ∷ items) kf =
    add_items group items (set_value group key i.value i.comment i.line kf)

unfoldable pub add_keyfile : Keyfile → Keyfile → Keyfile
add_keyfile kf [] = kf
add_keyfile kf ((group, g) ∷ rhs) =
    add_keyfile (add_items group g.items (set_group group g.comment g.line kf)) rhs

-- `check_priority`, with the warnings left out
unfoldable pub check_priority : Text → Text → Priority → Bool → Keyfile → Result (Unit {0})
check_priority group key required false kf = error (get_group_line group kf) missing_key
check_priority group key disallowed true kf = error (get_line group key kf) disallowed_key
check_priority group key priority valid kf = ok tt
