-- ===== src/Definition/Load/Steps.antt =====
-- The steps of `set_keyfile`, with their setters.
use schroot.Prelude.{
  Bool, false, Option, none, some, List, [], ◌∷◌, ◌++◌, Text, codes, text_eq, nat_eq, contains,
  if◌then◌else◌,
}
use schroot.Prelude.Map.{insert}
use schroot.Util.Split.{find_first, split_string}
use schroot.Keyfile.{Priority, optional, required, disallowed, deprecated, obsolete}
use schroot.Keyfile.Values.{separator, parse_bool}
use schroot.Keyfile.Printer.{is_newline}
use schroot.Config.{get_namespace}
use schroot.Userdata.{Set, Userdata}
use schroot.Session.Chroot.{Chroot, SessionFacet}
use schroot.Session.Clone.{set_name, set_mount_location, set_verbosity}
use schroot.Definition.{
  ChrootType, plain, directory, custom, file, block_device, loopback, lvm_snapshot, zfs_snapshot,
  btrfs_snapshot, Mountable, SourceClonable, Definition, is_session, with_base, with_userdata,
  set_profile, set_script_config, set_aliases, set_directory, set_file, set_location, set_device,
  set_snapshot_device, set_source_subvolume, set_snapshot_directory, set_btrfs_snapshot_name,
  set_clone_name, set_session_cloneable, set_source_cloneable, set_mount_path,
}

-- The value is not of the type, or the method throws, or it returns.
pub data Parsed : Type 0 where
  unread refused : Parsed
  set_to : Definition → Parsed

pub record Step : Type 0 where
  pub key : Text
  pub priority : Priority
  pub apply : Text → Definition → Parsed

abbrev pub returned : Option Definition → Parsed
returned none = refused
returned (some d) = set_to d

abbrev pub text_step : Text → Priority → (Text → Definition → Option Definition) → Step
text_step key priority method = record {
  key = key;
  priority = priority;
  apply = λ value d. returned (method value d);
}

abbrev pub list_step : Text → Priority → (List Text → Definition → Option Definition) → Step
list_step key priority method =
    text_step key priority (λ value d. method (split_string value separator) d)

abbrev pub bool_parsed : (Bool → Definition → Option Definition) → Option Bool → Definition → Parsed
bool_parsed method none d = unread
bool_parsed method (some b) d = returned (method b d)

abbrev pub bool_step : Text → Priority → (Bool → Definition → Option Definition) → Step
bool_step key priority method = record {
  key = key;
  priority = priority;
  apply = λ value d. bool_parsed method (parse_bool value) d;
}

-- A setter of a member of `chroot` that does not throw.
abbrev pub base_step : Text → (Text → Chroot → Chroot) → Step
base_step key set = text_step key optional (λ value d. some (record d { base = set value d.base }))

abbrev pub base_list_step : Text → (List Text → Chroot → Chroot) → Step
base_list_step key set =
    list_step key optional (λ list d. some (record d { base = set list d.base }))

-- `std::getline` of a value: nothing is read from an empty one.
unfoldable pub first_line : Text → Option Text
unfolding find_first
first_line [] = none
first_line (c ∷ value) = elim (find_first is_newline (c ∷ value)) [
  | none ↦ some (c ∷ value)
  | some f ↦ some f.before
]

abbrev line_parsed : (Text → Definition → Option Definition) → Option Text → Definition → Parsed
line_parsed method none d = unread
line_parsed method (some line) d = returned (method line d)

-- A value that is read from a stream.
abbrev pub line_step : Text → (Text → Definition → Option Definition) → Step
line_step key method = record {
  key = key;
  priority = optional;
  apply = λ value d. line_parsed method (first_line value) d;
}

abbrev pub if_session : Bool → Priority → Priority → Priority
if_session session yes' no' = if session then yes' else no'

-- The personalities of sbuild/sbuild-personality.cc, on Linux.
abbrev pub personalities : List Text
personalities =
    codes "undefined"
    ∷ codes "linux"
    ∷ codes "linux_32bit"
    ∷ codes "svr4"
    ∷ codes "scorvr3"
    ∷ codes "osr5"
    ∷ codes "wysev386"
    ∷ codes "iscr4"
    ∷ codes "bsd"
    ∷ codes "sunos"
    ∷ codes "xenix"
    ∷ codes "linux32"
    ∷ codes "irix32"
    ∷ codes "irixn32"
    ∷ codes "irix64"
    ∷ codes "riscos"
    ∷ codes "solaris"
    ∷ codes "uw7"
    ∷ codes "hpux"
    ∷ codes "osf4"
    ∷ []

unfoldable pub set_persona : Text → Definition → Option Definition
set_persona name d =
    if contains personalities name then some (record d { persona = name }) else none

-- `search` is `regex_search`, and `is_regex` is whether a text is a regular expression.
module _ (search : Text → Text → Bool) (is_regex : Text → Bool) where
  unfoldable pub set_environment_filter : Text → Definition → Option Definition
  set_environment_filter filter d =
      if is_regex filter
      then some (record d { base = record d.base { environment_filter = filter } })
      else none

  -- `chroot::set_keyfile (chroot&, keyfile const&, string_list&)`
  unfoldable pub base_steps : Bool → List Step
  base_steps session =
      text_step (codes "profile") optional set_profile
      ∷ text_step (codes "script-config") (if_session session optional deprecated) set_script_config
      ∷ list_step (codes "aliases") optional (set_aliases search)
      ∷ line_step (codes "environment-filter") set_environment_filter
      ∷ base_step (codes "description") (λ v c. record c { description = v })
      ∷ base_list_step (codes "users") (λ v c. record c { users = v })
      ∷ base_list_step (codes "groups") (λ v c. record c { groups = v })
      ∷ base_list_step (codes "root-users") (λ v c. record c { root_users = v })
      ∷ base_list_step (codes "root-groups") (λ v c. record c { root_groups = v })
      ∷ text_step (codes "mount-location") (if_session session required disallowed)
          (λ v d. with_base d (set_mount_location v d.base))
      ∷ text_step (codes "name") (if_session session optional disallowed)
          (λ v d. with_base d (set_name search v d.base))
      ∷ base_list_step (codes "command-prefix") (λ v c. record c { command_prefix = v })
      ∷ text_step (codes "message-verbosity") optional (λ v d. with_base d (set_verbosity v d.base))
      ∷ bool_step (codes "preserve-environment") optional
          (λ v d. some (record d { base = record d.base { preserve_environment = v } }))
      ∷ base_step (codes "shell") (λ v c. record c { default_shell = v })
      ∷ []

-- `chroot_directory_base::set_keyfile`, where one of the keys is there
unfoldable pub directory_steps : Bool → List Step
directory_steps both =
    text_step (codes "directory") optional set_directory
    ∷ text_step (codes "location") (if both then disallowed else obsolete) set_directory
    ∷ []

-- The other classes.
abbrev pub custom_steps : Bool → List Step
custom_steps session =
    bool_step (codes "custom-session-cloneable") (if_session session disallowed optional)
      set_session_cloneable
    ∷ bool_step (codes "custom-session-purgeable") optional
        (λ v d. some (record d { purgeable = v }))
    ∷ bool_step (codes "custom-source-cloneable") (if_session session disallowed optional)
        set_source_cloneable
    ∷ []

abbrev pub file_steps : Bool → List Step
file_steps session =
    text_step (codes "file") required set_file
    ∷ text_step (codes "location") optional set_location
    ∷ bool_step (codes "file-repack") (if_session session required disallowed)
        (λ v d. some (record d { repack = v }))
    ∷ []

abbrev pub device_steps : Bool → List Step
device_steps session = text_step (codes "device") required set_device ∷ []

abbrev pub loopback_steps : Bool → List Step
loopback_steps session = text_step (codes "file") required set_file ∷ []

abbrev pub lvm_steps : Bool → List Step
lvm_steps session =
    text_step (codes "device") required set_device
    ∷ text_step (codes "lvm-snapshot-device") (if_session session required disallowed)
        set_snapshot_device
    ∷ text_step (codes "lvm-snapshot-options") (if_session session deprecated required)
        (λ v d. some (record d { snapshot_options = v }))
    ∷ []

abbrev pub zfs_steps : Bool → List Step
zfs_steps session =
    text_step (codes "zfs-dataset") (if_session session disallowed required)
      (λ v d. some (record d { dataset = v }))
    ∷ text_step (codes "zfs-snapshot-name") (if_session session required disallowed)
        (λ v d. some (record d { snapshot_name = v }))
    ∷ text_step (codes "zfs-clone-name") (if_session session required disallowed)
        (λ v d. some (set_clone_name false v d))
    ∷ text_step (codes "zfs-snapshot-options") (if_session session disallowed optional)
        (λ v d. some (record d { snapshot_options = v }))
    ∷ []

abbrev pub btrfs_steps : Bool → List Step
btrfs_steps session =
    text_step (codes "btrfs-source-subvolume") (if_session session disallowed required)
      set_source_subvolume
    ∷ text_step (codes "btrfs-snapshot-directory") (if_session session disallowed required)
        set_snapshot_directory
    ∷ text_step (codes "btrfs-snapshot-name") (if_session session required disallowed)
        set_btrfs_snapshot_name
    ∷ []

-- `both` is whether the keys "directory" and "location" are there.
unfoldable pub type_steps : ChrootType → Bool → Bool → List Step
unfolding directory_steps
type_steps plain session both = directory_steps both
type_steps directory session both = directory_steps both
type_steps custom session both = custom_steps session
type_steps file session both = file_steps session
type_steps block_device session both = device_steps session
type_steps loopback session both = loopback_steps session
type_steps lvm_snapshot session both = lvm_steps session
type_steps zfs_snapshot session both = zfs_steps session
type_steps btrfs_snapshot session both = btrfs_steps session

abbrev pub on_userdata : (Userdata → Userdata) → Definition → Option Definition
on_userdata f d = elim d.base.userdata [ none ↦ some d | some u ↦ some (with_userdata d (f u)) ]

abbrev pub set_of : List Text → Set
set_of [] = []
set_of (k ∷ keys) = insert k tt (set_of keys)

unfoldable pub userdata_steps : List Step
userdata_steps =
    list_step (codes "user-modifiable-keys") optional
      (λ v d. on_userdata (λ u. record u { user_modifiable_keys = set_of v }) d)
    ∷ list_step (codes "root-modifiable-keys") optional
        (λ v d. on_userdata (λ u. record u { root_modifiable_keys = set_of v }) d)
    ∷ []

abbrev on_source : (SourceClonable → SourceClonable) → Definition → Option Definition
on_source f d = elim d.source_clonable [
  | none ↦ some d
  | some s ↦ some (record d { source_clonable = some (f s) })
]

unfoldable pub source_steps : List Step
source_steps =
    bool_step (codes "source-clone") optional
      (λ v d. on_source (λ s. record s { source_clone = v }) d)
    ∷ list_step (codes "source-users") optional
        (λ v d. on_source (λ s. record s { source_users = v }) d)
    ∷ list_step (codes "source-groups") optional
        (λ v d. on_source (λ s. record s { source_groups = v }) d)
    ∷ list_step (codes "source-root-users") optional
        (λ v d. on_source (λ s. record s { source_root_users = v }) d)
    ∷ list_step (codes "source-root-groups") optional
        (λ v d. on_source (λ s. record s { source_root_groups = v }) d)
    ∷ []

abbrev pub stored : Definition → Option Mountable → Option Definition
stored d none = none
stored d (some m) = some (record d { mountable = some m })

abbrev pub on_mountable : (Mountable → Option Mountable) → Definition → Option Definition
on_mountable f d = elim d.mountable [ none ↦ some d | some m ↦ stored d (f m) ]

unfoldable pub mountable_steps : Bool → List Step
mountable_steps session =
    text_step (codes "mount-device") (if_session session required disallowed)
      (λ v d. on_mountable (λ m. some (record m { mount_device = v })) d)
    ∷ text_step (codes "mount-options") optional
        (λ v d. on_mountable (λ m. some (record m { mount_options = v })) d)
    ∷ text_step (codes "location") optional (λ v d. on_mountable (set_mount_path v) d)
    ∷ []

abbrev pub on_session : (SessionFacet → SessionFacet) → Definition → Option Definition
on_session f d = elim d.base.session [
  | none ↦ some d
  | some s ↦ some (record d { base = record d.base { session = some (f s) } })
]

-- `chroot_facet_session`; the original name is the selected one until that is set.
unfoldable pub session_steps : List Step
unfolding get_namespace
session_steps =
    text_step (codes "original-name") optional
      (λ v d. on_session (λ s. record { original_name = v; selected_name = v }) d)
    ∷ text_step (codes "selected-name") optional
        (λ v d. on_session (λ s. record s { selected_name = (get_namespace v).1 }) d)
    ∷ []

abbrev pub only_with {ℓ} : {A : Type ℓ} → Option A → List Step → List Step
only_with none steps = []
only_with (some a) steps = steps

-- The facets that a chroot has.
unfoldable pub facet_steps : Definition → List Step
facet_steps d =
    line_step (codes "personality") set_persona
    ∷ (only_with d.base.userdata userdata_steps
        ++ (only_with d.source_clonable source_steps
            ++ (only_with d.mountable (mountable_steps (is_session d))
                ++ only_with d.base.session session_steps)))
