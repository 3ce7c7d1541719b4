-- ===== src/Userdata.antt =====
-- sbuild/sbuild-chroot-facet-userdata.{h,cc}: the keys that the user of a chroot may set.
-- `search key pattern` stands for `regex_search (key, regex (pattern))`, of the C++ library.
pub mod Laws
pub mod Unique
use schroot.Prelude.{
  ℕ, ◌-◌, Bool, true, false, not, ◌&&◌, ◌||◌, Option, none, some, List, [], ◌∷◌, Text, codes, map,
  nat_eq, ◌==◌, leb, if◌then◌else◌,
}
use schroot.Prelude.Map.{Map, find, insert, erase}

-- `string_set`
abbrev pub Set : Type 0
Set = Map (Unit {0})

abbrev pub has : Text → Set → Bool
has k s = elim (find k s) [ none ↦ false | some u ↦ true ]

pub record Userdata : Type 0 where
  pub userdata : Map Text
  pub env : Set
  pub user_modifiable_keys : Set
  pub root_modifiable_keys : Set

-- `chroot_facet_userdata::error_code`, of those that these methods throw
pub data UserdataCode : Type 0 where
  env_ambiguous key_ambiguous key_disallowed keyname_invalid : UserdataCode

-- A method that throws leaves the object as it was at the throw.
abbrev pub Outcome : Type 0
Outcome = Option UserdataCode × Userdata

-- `toupper` of the classic locale
abbrev pub to_upper : ℕ → ℕ
to_upper c = if leb b'a' c && leb c b'z' then c - 32 else c

-- one round of the loop of `envname`
abbrev pub env_char : ℕ → ℕ
env_char c = let u = to_upper c in if u == b'-' || u == b'.' then b'_' else u

unfoldable pub envname : Text → Text
envname key = map env_char key

abbrev pub permitted : Text
permitted = codes "^([a-z][a-z0-9]*\\.)+[a-z][a-z0-9-]*$"

abbrev pub reserved : Text
reserved = codes "^(((auth|chroot|host|libexec|mount|session|status|sysconf)\\..*)|setup.data.dir)$"

-- `get_data (key, value)`
unfoldable pub get_data : Text → Userdata → Option Text
get_data key u = find key u.userdata

-- `set_system_data (key, value)`
unfoldable pub set_system_data : Text → Text → Userdata → Outcome
set_system_data key value u = elim (find key u.userdata) [
  | none ↦ if has (envname key) u.env then (some key_ambiguous, u) else (
    none,
    record u { userdata = insert key value u.userdata; env = insert (envname key) tt u.env },
  )
  | some old ↦ (none, record u { userdata = insert key value (erase key u.userdata) })
]

unfoldable pub remove_data : Text → Userdata → Userdata
remove_data key u = record u { userdata = erase key u.userdata }

-- The rest of a loop goes on only where nothing was thrown.
abbrev pub and_then : Outcome → (Userdata → Outcome) → Outcome
and_then (none, u) f = f u
and_then (some e, u) f = (some e, u)

-- `set_system_data (data)`
unfoldable pub set_all_system_data : Map Text → Userdata → Outcome
set_all_system_data [] u = (none, u)
set_all_system_data ((key, value) ∷ rest) u =
    and_then (set_system_data key value u) (λ u'. set_all_system_data rest u')

unfoldable pub set_union : Set → Set → Set
set_union [] b = b
set_union ((k, u) ∷ a) b = insert k u (set_union a b)

module _ (search : Text → Text → Bool) where
  unfoldable pub validate_keyname : Text → Bool
  validate_keyname key = search key permitted && not (search key reserved)

  -- `set_data (key, value)`
  unfoldable pub set_data : Text → Text → Userdata → Outcome
  set_data key value u =
      if validate_keyname key then set_system_data key value u else (some keyname_invalid, u)

  -- `set_data (data)`
  unfoldable pub set_all_data : Map Text → Userdata → Outcome
  set_all_data [] u = (none, u)
  set_all_data ((key, value) ∷ rest) u =
      and_then (set_data key value u) (λ u'. set_all_data rest u')

  -- `set_data (data, allowed_keys, root)`; `root` only words the message
  unfoldable pub set_allowed_data : Set → Map Text → Userdata → Outcome
  set_allowed_data allowed_keys [] u = (none, u)
  set_allowed_data allowed_keys ((key, value) ∷ rest) u =
      if has key allowed_keys
      then and_then (set_data key value u) (λ u'. set_allowed_data allowed_keys rest u')
      else (some key_disallowed, u)

  unfoldable pub set_user_data : Map Text → Userdata → Outcome
  set_user_data options u = set_allowed_data u.user_modifiable_keys options u

  unfoldable pub set_root_data : Map Text → Userdata → Outcome
  set_root_data options u =
      set_allowed_data (set_union u.user_modifiable_keys u.root_modifiable_keys) options u
