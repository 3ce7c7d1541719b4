-- ===== src/Definition.antt =====
-- The definition of a chroot: `sbuild::chroot` (sbuild/sbuild-chroot.{h,cc}) with its classes
-- (sbuild/sbuild-chroot-*.cc) and its facets, in a build without unions. A member of a class is empty
-- in a chroot of another class. A setter that throws returns `none`.
pub mod Save
pub mod Load
pub mod Saved
pub mod Facts
pub mod Base
pub mod Profile
pub mod Members
pub mod Class
pub mod Loaded
pub mod FacetSteps
pub mod Facets
pub mod Reload
pub mod SessionSaved
pub mod Kept
pub mod SavedData
pub mod Restored
pub mod Whole
pub mod Unloadable
pub mod Locking
pub mod Variables
use schroot.Prelude.{
  Bool, true, false, not, ◌&&◌, Option, none, some, List, [], ◌∷◌, ◌++◌, Text, codes, text_eq,
  nat_eq, ◌==◌, all, contains, is_empty, if◌then◌else◌,
}
use schroot.Exception.{Result, ok, throw}
use schroot.Prelude.Map.{Map}
use schroot.Userdata.{Userdata, Outcome, remove_data, set_all_system_data}
use schroot.Util.Names.{is_absname, is_valid_sessionname}
use schroot.Session.Chroot.{Chroot}
use schroot.Session.Clone.{set_name, set_mount_location, set_verbosity}

-- The classes that `chroot::create` knows.
pub data ChrootType : Type 0 where
  plain directory custom file block_device loopback lvm_snapshot zfs_snapshot btrfs_snapshot :
      ChrootType

-- chroot_facet_mountable
pub record Mountable : Type 0 where
  pub mount_device : Text
  pub mount_options : Text
  pub mount_path : Text

-- chroot_facet_source_clonable
pub record SourceClonable : Type 0 where
  pub source_clone : Bool
  pub source_users : List Text
  pub source_groups : List Text
  pub source_root_users : List Text
  pub source_root_groups : List Text

pub record Definition : Type 0 where
  pub base : Chroot
  pub profile : Text
  pub script_config : Text
  pub persona : Text
  pub type : ChrootType
  pub root_directory : Text
  pub file_name : Text
  pub location : Text
  pub repack : Bool
  pub device : Text
  pub snapshot_device : Text
  pub snapshot_options : Text
  pub source_subvolume : Text
  pub snapshot_directory : Text
  pub snapshot_name : Text
  pub dataset : Text
  pub clone_name : Text
  pub purgeable : Bool
  pub mountable : Option Mountable
  pub source_clonable : Option SourceClonable

abbrev pub is_session : Definition → Bool
is_session d = elim d.base.session [ none ↦ false | some s ↦ true ]

-- `get_chroot_type`
abbrev pub type_name : ChrootType → Text
type_name plain = codes "plain"
type_name directory = codes "directory"
type_name custom = codes "custom"
type_name file = codes "file"
type_name block_device = codes "block-device"
type_name loopback = codes "loopback"
type_name lvm_snapshot = codes "lvm-snapshot"
type_name zfs_snapshot = codes "zfs-snapshot"
type_name btrfs_snapshot = codes "btrfs-snapshot"

-- The class that `create` makes, where it throws for no other reason.
unfoldable pub create_type : Text → Option ChrootType
create_type name =
    if name == codes "directory"
    then some directory
    else if name == codes "plain"
    then some plain
    else if name == codes "custom"
    then some custom
    else if name == codes "file"
    then some file
    else if name == codes "block-device"
    then some block_device
    else if name == codes "loopback"
    then some loopback
    else if name == codes "lvm-snapshot"
    then some lvm_snapshot
    else if name == codes "zfs-snapshot"
    then some zfs_snapshot
    else if name == codes "btrfs-snapshot"
    then some btrfs_snapshot
    else none

abbrev pub with_base : Definition → Result Chroot → Option Definition
with_base d (throw e) = none
with_base d (ok chroot) = some (record d { base = chroot })

-- What `set_profile` sets in the user data, in the order of its calls.
abbrev pub profile_data : Text → Map Text
profile_data profile =
    (codes "setup.config", profile ++ codes "/config")
    ∷ (codes "setup.copyfiles", profile ++ codes "/copyfiles")
    ∷ (codes "setup.nssdatabases", profile ++ codes "/nssdatabases")
    ∷ (codes "setup.fstab", profile ++ codes "/fstab")
    ∷ []

abbrev pub with_userdata : Definition → Userdata → Definition
with_userdata d u = record d { base = record d.base { userdata = some u } }

abbrev pub if_set : Definition → Outcome → Option Definition
if_set d (none, u) = some (with_userdata d u)
if_set d (some e, u) = none

unfoldable pub set_profile : Text → Definition → Option Definition
set_profile profile d =
    let named = record d { profile = profile } in
    elim d.base.userdata [
      | none ↦ some named
      | some u ↦ if_set named (set_all_system_data (profile_data profile) u)
    ]

unfoldable pub remove_profile_data : Userdata → Userdata
remove_profile_data u = remove_data (codes "setup.fstab") (
    remove_data (codes "setup.nssdatabases")
      (remove_data (codes "setup.copyfiles") (remove_data (codes "setup.config") u)))

unfoldable pub set_script_config : Text → Definition → Option Definition
set_script_config script_config d =
    let bare = record d { script_config = script_config; profile = [] } in
    elim d.base.userdata [
      | none ↦ some bare
      | some u ↦ some (with_userdata bare (remove_profile_data u))
    ]

-- A name that may be an alias.
abbrev pub is_alias : (Text → Text → Bool) → Text → Bool
is_alias search name = not (contains name b':') && is_valid_sessionname search name

unfoldable pub set_aliases : (Text → Text → Bool) → List Text → Definition → Option Definition
set_aliases search aliases d =
    if all (is_alias search) aliases
    then some (record d { base = record d.base { aliases = aliases } })
    else none

-- Setters of the classes; a path must be absolute.
abbrev pub if_absolute : Text → Definition → Option Definition
if_absolute path d = if is_absname path then some d else none

unfoldable pub set_directory : Text → Definition → Option Definition
set_directory v d = if_absolute v (record d { root_directory = v })

unfoldable pub set_file : Text → Definition → Option Definition
set_file v d = if_absolute v (record d { file_name = v })

unfoldable pub set_location : Text → Definition → Option Definition
set_location v d =
    if not (is_empty v) && not (is_absname v) then none else some (record d { location = v })

unfoldable pub set_device : Text → Definition → Option Definition
set_device v d = if_absolute v (record d { device = v })

-- The device of the mountable facet, where there is one.
abbrev pub mount_at : Text → Definition → Definition
mount_at v d = elim d.mountable [
  | none ↦ d
  | some m ↦ record d { mountable = some (record m { mount_device = v }) }
]

unfoldable pub set_snapshot_device : Text → Definition → Option Definition
set_snapshot_device v d = if_absolute v (mount_at v (record d { snapshot_device = v }))

unfoldable pub set_source_subvolume : Text → Definition → Option Definition
set_source_subvolume v d = if_absolute v (record d { source_subvolume = v })

unfoldable pub set_snapshot_directory : Text → Definition → Option Definition
set_snapshot_directory v d = if_absolute v (record d { snapshot_directory = v })

-- `chroot_btrfs_snapshot::set_snapshot_name`
unfoldable pub set_btrfs_snapshot_name : Text → Definition → Option Definition
set_btrfs_snapshot_name v d = if_absolute v (record d { snapshot_name = v })

-- `is_source` is whether the chroot has the source facet.
unfoldable pub set_clone_name : Bool → Text → Definition → Definition
set_clone_name is_source v d =
    mount_at (if is_source then d.dataset else v) (record d { clone_name = v })

-- `add_facet` throws where the chroot has the facet.
unfoldable pub set_session_cloneable : Bool → Definition → Option Definition
set_session_cloneable cloneable d =
    if cloneable && d.base.session_clonable
    then none
    else some (record d { base = record d.base { session_clonable = cloneable } })

abbrev pub new_source_clonable : SourceClonable
new_source_clonable = record {
  source_clone = true;
  source_users = [];
  source_groups = [];
  source_root_users = [];
  source_root_groups = [];
}

unfoldable pub set_source_cloneable : Bool → Definition → Option Definition
set_source_cloneable false d = some (record d { source_clonable = none })
set_source_cloneable true d = elim d.source_clonable [
  | some s ↦ none
  | none ↦ some (record d { source_clonable = some new_source_clonable })
]

-- `chroot_facet_mountable::set_location`
unfoldable pub set_mount_path : Text → Mountable → Option Mountable
set_mount_path v m =
    if not (is_empty v) && not (is_absname v) then none else some (record m { mount_path = v })
