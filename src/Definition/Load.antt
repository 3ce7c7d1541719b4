-- ===== src/Definition/Load.antt =====
-- `set_keyfile` of sbuild/sbuild-chroot.cc, of the classes and of the facets. A call of
-- `get_object_value`, `get_object_list_value` or `get_object_set_value`, with the key that is then
-- counted as used, is a step. A call with a null method only warns and counts the key.
pub mod Steps
use schroot.Prelude.{
  ℕ, Bool, true, false, not, ◌&&◌, ◌||◌, Option, none, some, List, [], ◌∷◌, ◌++◌, Text, codes,
  text_eq, nat_eq, ◌==◌, is_empty, contains, if◌then◌else◌,
}
use schroot.Prelude.Map.{Map, insert}
use schroot.Util.Split.{Found, find_first, split_string}
use schroot.Keyfile.{
  Keyfile, Code, missing_key, passthrough, Priority, Result, ok, error, check_priority, get_keys,
  get_line, has_key,
}
use schroot.Keyfile.Values.{get_value}
use schroot.Userdata.{Userdata, set_data}
use schroot.Definition.{
  ChrootType, plain, directory, custom, file, block_device, loopback, lvm_snapshot, zfs_snapshot,
  btrfs_snapshot, Definition, is_session, with_userdata,
}
use schroot.Definition.Load.Steps.{
  Step, Parsed, unread, refused, set_to, base_steps, type_steps, facet_steps,
}

-- What a value that was read has set.
abbrev pub accept_value : ℕ → Parsed → Definition → Result Definition
accept_value line unread d = ok d
accept_value line refused d = error line passthrough
accept_value line (set_to d') d = ok d'

abbrev pub parse_found : Option Text → Step → Definition → Parsed
parse_found none step d = unread
parse_found (some value) step d = step.apply value d

abbrev pub is_read : Parsed → Bool
is_read unread = false
is_read _ = true

-- `get_object_value`: an error of the priority and one that the method throws are wrapped with the
-- line of the key; the code of the former is kept here.
unfoldable pub get_object_value : Step → Keyfile → Definition → Result Definition
get_object_value step kf d =
    let group = d.base.name in
    let parsed = parse_found (get_value group step.key kf) step d in
    elim (check_priority group step.key step.priority (is_read parsed) kf) [
      | error line code ↦ error (get_line group step.key kf) code
      | ok u ↦ accept_value (get_line group step.key kf) parsed d
    ]

abbrev pub and_then : Result Definition → (Definition → Result Definition) → Result Definition
and_then (error line code) f = error line code
and_then (ok d) f = f d

unfoldable pub run_steps : List Step → Keyfile → Definition → Result Definition
run_steps [] kf d = ok d
run_steps (step ∷ steps) kf d = and_then (get_object_value step kf d) (run_steps steps kf)

abbrev has_directory : ChrootType → Bool
has_directory plain = true
has_directory directory = true
has_directory _ = false

-- The check of `chroot_directory_base::set_keyfile` that one of two keys is there.
unfoldable pub check_directory : ChrootType → Keyfile → Definition → Result Definition
check_directory type kf d =
    if has_directory type
      && not
          (has_key d.base.name (codes "directory") kf || has_key d.base.name (codes "location") kf)
    then error 0 missing_key
    else ok d

abbrev pub both_keys : Keyfile → Definition → Bool
both_keys kf d =
    has_key d.base.name (codes "directory") kf && has_key d.base.name (codes "location") kf

-- The keys that `chroot::set_keyfile` counts as used, beside localised descriptions.
abbrev pub base_used : List Text
base_used =
    codes "type"
    ∷ codes "active"
    ∷ codes "run-setup-scripts"
    ∷ codes "run-session-scripts"
    ∷ codes "run-exec-scripts"
    ∷ codes "profile"
    ∷ codes "script-config"
    ∷ codes "priority"
    ∷ codes "aliases"
    ∷ codes "environment-filter"
    ∷ codes "description"
    ∷ codes "users"
    ∷ codes "groups"
    ∷ codes "root-users"
    ∷ codes "root-groups"
    ∷ codes "mount-location"
    ∷ codes "name"
    ∷ codes "command-prefix"
    ∷ codes "message-verbosity"
    ∷ codes "preserve-environment"
    ∷ codes "shell"
    ∷ []

-- Those of the classes.
unfoldable pub type_used : ChrootType → List Text
type_used plain = codes "directory" ∷ codes "location" ∷ []
type_used directory = codes "directory" ∷ codes "location" ∷ []
type_used custom =
    codes "custom-cloneable" ∷ codes "custom-purgeable" ∷ codes "custom-source-cloneable" ∷ []
type_used file = codes "file" ∷ codes "location" ∷ codes "file-repack" ∷ []
type_used block_device = codes "device" ∷ []
type_used loopback = codes "file" ∷ []
type_used lvm_snapshot =
    codes "device" ∷ codes "lvm-snapshot-device" ∷ codes "lvm-snapshot-options" ∷ []
type_used zfs_snapshot =
    codes "zfs-dataset"
    ∷ codes "zfs-snapshot-name"
    ∷ codes "zfs-clone-name"
    ∷ codes "zfs-snapshot-options"
    ∷ []
type_used btrfs_snapshot =
    codes "btrfs-source-subvolume"
    ∷ codes "btrfs-snapshot-directory"
    ∷ codes "btrfs-snapshot-name"
    ∷ []

abbrev pub used_with {ℓ} : {A : Type ℓ} → Option A → List Text → List Text
used_with none keys = []
used_with (some a) keys = keys

-- Those of the facets.
unfoldable pub facet_used : Definition → List Text
facet_used d =
    codes "personality"
    ∷ (used_with d.base.userdata (codes "user-modifiable-keys" ∷ codes "root-modifiable-keys" ∷ [])
        ++ (used_with d.source_clonable (
              codes "source-clone"
              ∷ codes "source-users"
              ∷ codes "source-groups"
              ∷ codes "source-root-users"
              ∷ codes "source-root-groups"
              ∷ [])
            ++ (used_with d.mountable
                  (codes "mount-device" ∷ codes "mount-options" ∷ codes "location" ∷ [])
                ++ used_with d.base.session (
                    codes "active"
                    ∷ codes "source-users"
                    ∷ codes "source-groups"
                    ∷ codes "source-root-users"
                    ∷ codes "source-root-groups"
                    ∷ codes "original-name"
                    ∷ codes "selected-name"
                    ∷ []))))

module _ (search : Text → Text → Bool) (is_regex : Text → Bool) where
  unfoldable pub is_used : ChrootType → Definition → Text → Bool
  is_used type d key =
      contains (base_used ++ (type_used type ++ facet_used d)) key
      || search key (codes "^description\\[.*]$")

  -- The keys that no one used are data of the user; what cannot be set is only warned about.
  unfoldable pub set_unused : (Text → Bool) → List Text → Keyfile → Text → Userdata → Userdata
  set_unused used [] kf group u = u
  set_unused used (key ∷ keys) kf group u = set_unused used keys kf group (
      if used key
      then u
      else elim (get_value group key kf) [ none ↦ u | some v ↦ (set_data search key v u).1 ])

  unfoldable pub finish : ChrootType → Keyfile → Definition → Definition
  finish type kf d = elim d.base.userdata [
    | none ↦ d
    | some u ↦
        with_userdata d (set_unused (is_used type d) (get_keys d.base.name kf) kf d.base.name u)
  ]

  -- `set_keyfile (keyfile const&)`: the chroot, its class, its facets and the rest of the keys
  unfoldable pub set_keyfile : Keyfile → Definition → Result Definition
  set_keyfile kf d0 =
      let session = is_session d0 in
      and_then (run_steps (base_steps search is_regex session) kf d0) (λ d1.
        and_then (check_directory d1.type kf d1) (λ d1.
          and_then (run_steps (type_steps d1.type session (both_keys kf d1)) kf d1)
            (λ d2. and_then (run_steps (facet_steps d2) kf d2) (λ d3. ok (finish d3.type kf d3)))))
