-- ===== src/Definition/Save.antt =====
-- `get_keyfile` of sbuild/sbuild-chroot.cc, of the classes and of the facets: the calls of
-- `set_object_value`, `set_object_list_value` and `set_object_set_value` in their order.
use schroot.Prelude.{
  Bool, not, Option, none, some, List, [], ◌∷◌, ◌++◌, Text, codes, text_eq, ◌==◌, is_empty,
  if◌then◌else◌,
}
use schroot.Util.Split.{string_list_to_string}
use schroot.Session.Chroot.{Verbosity, quiet, normal, verbose, SessionFacet}
use schroot.Userdata.{Userdata}
use schroot.Keyfile.{Keyfile, names, remove_group, set_value}
use schroot.Keyfile.Values.{separator}
use schroot.Definition.{
  ChrootType, plain, directory, custom, file, block_device, loopback, lvm_snapshot, zfs_snapshot,
  btrfs_snapshot, Mountable, SourceClonable, Definition, is_session, type_name,
}

-- Calls with a key and the printed value.
abbrev pub Entries : Type 0
Entries = List (Text × Text)

abbrev pub only_if : Bool → Entries → Entries
only_if b entries = if b then entries else []

-- `std::boolalpha`
abbrev pub print_bool : Bool → Text
print_bool b = if b then codes "true" else codes "false"

abbrev pub print_list : List Text → Text
print_list list = string_list_to_string list separator

-- `get_verbosity_string`
abbrev pub verbosity_string : Verbosity → Text
verbosity_string quiet = codes "quiet"
verbosity_string normal = codes "normal"
verbosity_string verbose = codes "verbose"

unfoldable pub base_entries : Definition → Entries
base_entries d =
    let c = d.base in
    only_if (is_session d) ((codes "name", c.name) ∷ [])
    ++ ((codes "type", type_name d.type)
        ∷ (codes "profile", d.profile)
        ∷ (only_if (not (is_empty d.script_config)) ((codes "script-config", d.script_config) ∷ [])
            ++ ((codes "aliases", print_list c.aliases)
                ∷ (codes "environment-filter", c.environment_filter)
                ∷ (codes "description", c.description)
                ∷ (codes "users", print_list c.users)
                ∷ (codes "groups", print_list c.groups)
                ∷ (codes "root-users", print_list c.root_users)
                ∷ (codes "root-groups", print_list c.root_groups)
                ∷ (only_if (is_session d) ((codes "mount-location", c.mount_location) ∷ [])
                    ++ ((codes "command-prefix", print_list c.command_prefix)
                        ∷ (codes "message-verbosity", verbosity_string c.message_verbosity)
                        ∷ (codes "preserve-environment", print_bool c.preserve_environment)
                        ∷ (codes "shell", c.default_shell)
                        ∷ [])))))

-- The classes; `session` is whether the chroot has that facet.
abbrev directory_entries : Definition → Entries
directory_entries d = (codes "directory", d.root_directory) ∷ []

abbrev custom_entries : Definition → Entries
custom_entries d = (codes "custom-session-purgeable", print_bool d.purgeable) ∷ []

abbrev file_entries : Bool → Definition → Entries
file_entries session d =
    (codes "file", d.file_name)
    ∷ (codes "location", d.location)
    ∷ only_if session ((codes "file-repack", print_bool d.repack) ∷ [])

abbrev device_entries : Definition → Entries
device_entries d = (codes "device", d.device) ∷ []

abbrev loopback_entries : Definition → Entries
loopback_entries d = (codes "file", d.file_name) ∷ []

abbrev lvm_entries : Bool → Definition → Entries
lvm_entries session d =
    (codes "device", d.device)
    ∷ (if session
        then (codes "lvm-snapshot-device", d.snapshot_device) ∷ []
        else (codes "lvm-snapshot-options", d.snapshot_options) ∷ [])

abbrev zfs_entries : Bool → Definition → Entries
zfs_entries session d =
    if session
    then (codes "zfs-snapshot-name", d.snapshot_name) ∷ (codes "zfs-clone-name", d.clone_name) ∷ []
    else (codes "zfs-dataset-name", d.dataset)
      ∷ (codes "zfs-snapshot-options", d.snapshot_options)
      ∷ []

abbrev btrfs_entries : Bool → Definition → Entries
btrfs_entries session d =
    if session
    then (codes "btrfs-snapshot-name", d.snapshot_name) ∷ []
    else (codes "btrfs-source-subvolume", d.source_subvolume)
      ∷ (codes "btrfs-snapshot-directory", d.snapshot_directory)
      ∷ []

unfoldable pub type_entries : ChrootType → Bool → Definition → Entries
type_entries plain session d = directory_entries d
type_entries directory session d = directory_entries d
type_entries custom session d = custom_entries d
type_entries file session d = file_entries session d
type_entries block_device session d = device_entries d
type_entries loopback session d = loopback_entries d
type_entries lvm_snapshot session d = lvm_entries session d
type_entries zfs_snapshot session d = zfs_entries session d
type_entries btrfs_snapshot session d = btrfs_entries session d

-- chroot_facet_personality
unfoldable pub persona_entries : Definition → Entries
persona_entries d =
    only_if (not (d.persona == codes "undefined")) ((codes "personality", d.persona) ∷ [])

-- chroot_facet_userdata
unfoldable pub userdata_entries : Option Userdata → Entries
userdata_entries none = []
userdata_entries (some u) =
    (codes "user-modifiable-keys", print_list (names u.user_modifiable_keys))
    ∷ (codes "root-modifiable-keys", print_list (names u.root_modifiable_keys))
    ∷ u.userdata

unfoldable pub source_entries : Option SourceClonable → Entries
source_entries none = []
source_entries (some s) =
    (codes "source-clone", print_bool s.source_clone)
    ∷ (codes "source-users", print_list s.source_users)
    ∷ (codes "source-groups", print_list s.source_groups)
    ∷ (codes "source-root-users", print_list s.source_root_users)
    ∷ (codes "source-root-groups", print_list s.source_root_groups)
    ∷ []

unfoldable pub mountable_entries : Bool → Option Mountable → Entries
mountable_entries session none = []
mountable_entries session (some m) =
    only_if session ((codes "mount-device", m.mount_device) ∷ [])
    ++ ((codes "mount-options", m.mount_options) ∷ (codes "location", m.mount_path) ∷ [])

unfoldable pub session_entries : Option SessionFacet → Entries
session_entries none = []
session_entries (some s) =
    (codes "original-name", s.original_name) ∷ (codes "selected-name", s.selected_name) ∷ []

-- The facets in the order in which a chroot has them.
unfoldable pub facet_entries : Definition → Entries
facet_entries d =
    persona_entries d
    ++ (userdata_entries d.base.userdata
        ++ (source_entries d.source_clonable
            ++ (mountable_entries (is_session d) d.mountable ++ session_entries d.base.session)))

unfoldable pub entries : Definition → Entries
entries d = base_entries d ++ (type_entries d.type (is_session d) d ++ facet_entries d)

-- `set_value` of each entry in a group
unfoldable pub put_all : Text → Entries → Keyfile → Keyfile
put_all group [] kf = kf
put_all group ((key, value) ∷ rest) kf = put_all group rest (set_value group key value [] 0 kf)

unfoldable pub get_keyfile : Definition → Keyfile → Keyfile
get_keyfile d kf = put_all d.base.name (entries d) (remove_group d.base.name kf)
