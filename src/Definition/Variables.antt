-- ===== src/Definition/Variables.antt =====
-- `setup_env`, the session flags and the path of `chroot`, of the classes and of the facets
-- (sbuild/sbuild-chroot.cc, sbuild/sbuild-chroot-*.cc): the environment of the setup scripts, in a
-- build without unions and for a chroot that is no source. `sysconf_dir` is SCHROOT_SYSCONF_DIR,
-- `unpack_dir` is SCHROOT_FILE_UNPACK_DIR, and `from_source` is whether the parent of a session is a
-- source chroot.
pub mod Laws
use schroot.Prelude.{
  Bool, true, false, not, ◌&&◌, Option, none, some, List, [], ◌∷◌, ◌++◌, Text, codes, is_empty,
  if◌then◌else◌,
}
use schroot.Prelude.Map.{Map}
use schroot.Util.Path.{basename, normalname}
use schroot.Environment.{Environment, get, add}
use schroot.Userdata.{Userdata, envname}
use schroot.Session.Chroot.{SessionFacet}
use schroot.Definition.{
  ChrootType, Definition, Mountable, is_session, type_name, plain, directory, custom, file,
  block_device, loopback, lvm_snapshot, zfs_snapshot, btrfs_snapshot,
}
use schroot.Definition.Save.{Entries, only_if, print_bool}

abbrev mount_location_of : Option Mountable → Text
mount_location_of none = []
mount_location_of (some m) = m.mount_path

-- `get_path` of the classes
unfoldable pub get_path : ChrootType → Definition → Text
get_path plain d = d.root_directory
get_path directory d = d.base.mount_location
get_path custom d = d.base.mount_location
get_path btrfs_snapshot d = d.base.mount_location
get_path file d = d.base.mount_location ++ d.location
get_path block_device d = d.base.mount_location ++ mount_location_of d.mountable
get_path loopback d = d.base.mount_location ++ mount_location_of d.mountable
get_path lvm_snapshot d = d.base.mount_location ++ mount_location_of d.mountable
get_path zfs_snapshot d = d.base.mount_location ++ mount_location_of d.mountable

-- The flag SESSION_PURGE of the classes
unfoldable pub purges : ChrootType → Definition → Bool
purges file d = is_session d
purges lvm_snapshot d = is_session d
purges zfs_snapshot d = is_session d
purges btrfs_snapshot d = is_session d
purges custom d = is_session d && d.purgeable
purges type d = false

abbrev is_some {ℓ} : {A : Type ℓ} → Option A → Bool
is_some none = false
is_some (some a) = true

-- The flag SESSION_CLONE of chroot_facet_source_clonable
abbrev pub clones : Definition → Bool
clones d = is_some d.source_clonable && not (is_session d)

-- `none` is for an empty name, where the source reads before its start; this is the device of an LVM
-- snapshot only.
abbrev text_of : Option Text → Text
text_of none = []
text_of (some text) = text

module _ (sysconf_dir unpack_dir : Text) (from_source : Bool) where
  abbrev normal : Text → Text
  normal name = text_of (normalname (sysconf_dir ++ (codes "/" ++ name)))

  unfoldable pub chroot_variables : Definition → Entries
  chroot_variables d =
      (codes "CHROOT_TYPE", type_name d.type)
      ∷ (codes "CHROOT_NAME", d.base.name)
      ∷ (codes "SESSION_ID", d.base.name)
      ∷ (codes "CHROOT_DESCRIPTION", d.base.description)
      ∷ (only_if (not (is_empty d.base.mount_location))
            ((codes "CHROOT_MOUNT_LOCATION", d.base.mount_location) ∷ [])
          ++ ((codes "CHROOT_PATH", get_path d.type d)
              ∷ (only_if (not (is_empty d.script_config))
                    ((codes "CHROOT_SCRIPT_CONFIG", normal d.script_config) ∷ [])
                  ++ (only_if (not (is_empty d.profile)) (
                        (codes "CHROOT_PROFILE", d.profile)
                        ∷ (codes "CHROOT_PROFILE_DIR", normal d.profile)
                        ∷ [])
                      ++ ((codes "CHROOT_SESSION_CREATE", print_bool d.base.session_clonable)
                          ∷ (codes "CHROOT_SESSION_CLONE", print_bool (clones d))
                          ∷ (codes "CHROOT_SESSION_PURGE", print_bool (purges d.type d))
                          ∷ (
                            codes "CHROOT_SESSION_SOURCE",
                            print_bool (is_session d && from_source),
                          )
                          ∷ [])))))

  -- What the classes add.
  unfoldable pub class_variables : ChrootType → Definition → Entries
  class_variables plain d = (codes "CHROOT_DIRECTORY", d.root_directory) ∷ []
  class_variables directory d = (codes "CHROOT_DIRECTORY", d.root_directory) ∷ []
  class_variables custom d = []
  class_variables file d =
      (codes "CHROOT_FILE", d.file_name)
      ∷ (codes "CHROOT_LOCATION", d.location)
      ∷ (codes "CHROOT_FILE_REPACK", print_bool d.repack)
      ∷ (codes "CHROOT_FILE_UNPACK_DIR", unpack_dir)
      ∷ []
  class_variables block_device d = (codes "CHROOT_DEVICE", d.device) ∷ []
  class_variables loopback d = (codes "CHROOT_FILE", d.file_name) ∷ []
  class_variables lvm_snapshot d =
      (codes "CHROOT_DEVICE", d.device)
      ∷ (codes "CHROOT_LVM_SNAPSHOT_NAME", text_of (basename d.snapshot_device))
      ∷ (codes "CHROOT_LVM_SNAPSHOT_DEVICE", d.snapshot_device)
      ∷ (codes "CHROOT_LVM_SNAPSHOT_OPTIONS", d.snapshot_options)
      ∷ []
  class_variables zfs_snapshot d =
      (codes "CHROOT_ZFS_DATASET", d.dataset)
      ∷ (codes "CHROOT_ZFS_SNAPSHOT_NAME", d.snapshot_name)
      ∷ (codes "CHROOT_ZFS_CLONE_NAME", d.clone_name)
      ∷ (codes "CHROOT_ZFS_SNAPSHOT_OPTIONS", d.snapshot_options)
      ∷ []
  class_variables btrfs_snapshot d =
      (codes "CHROOT_BTRFS_SOURCE_SUBVOLUME", d.source_subvolume)
      ∷ (codes "CHROOT_BTRFS_SNAPSHOT_DIRECTORY", d.snapshot_directory)
      ∷ (codes "CHROOT_BTRFS_SNAPSHOT_NAME", d.snapshot_name)
      ∷ []

unfoldable pub mountable_variables : Option Mountable → Entries
mountable_variables none = []
mountable_variables (some m) =
    only_if (not (is_empty m.mount_device)) ((codes "CHROOT_MOUNT_DEVICE", m.mount_device) ∷ [])
    ++ ((codes "CHROOT_MOUNT_OPTIONS", m.mount_options)
        ∷ (codes "CHROOT_LOCATION", m.mount_path)
        ∷ [])

unfoldable pub session_variables : Option SessionFacet → Entries
session_variables none = []
session_variables (some s) =
    only_if (not (is_empty s.original_name)) ((codes "CHROOT_NAME", s.original_name) ∷ [])
    ++ only_if (not (is_empty s.selected_name)) ((codes "CHROOT_ALIAS", s.selected_name) ∷ [])

module _ (search : Text → Text → Bool) where
  -- `add` of each variable, in this order
  unfoldable pub add_variables : Entries → Environment → Environment
  add_variables [] env = env
  add_variables ((name, value) ∷ rest) env = add_variables rest (add search name value env)

  -- chroot_facet_userdata; `none` where a variable is there already, which throws
  unfoldable pub add_userdata : Map Text → Environment → Option Environment
  add_userdata [] env = some env
  add_userdata ((key, value) ∷ rest) env = elim (get (envname key) env) [
    | some old ↦ none
    | none ↦ add_userdata rest (add search (envname key) value env)
  ]

  abbrev pub userdata_of : Option Userdata → Map Text
  userdata_of none = []
  userdata_of (some u) = u.userdata

  abbrev pub with_facets : Definition → Option Environment → Option Environment
  with_facets d none = none
  with_facets d (some env) = some (
      add_variables (session_variables d.base.session)
        (add_variables (mountable_variables d.mountable) env))

  module _ (sysconf_dir unpack_dir : Text) (from_source : Bool) where
    -- The chroot, its class and its facets in their order
    unfoldable pub setup_env : Definition → Environment → Option Environment
    setup_env d env = with_facets d (
        add_userdata (userdata_of d.base.userdata) (
          add_variables (class_variables sysconf_dir unpack_dir from_source d.type d)
            (add_variables (chroot_variables sysconf_dir unpack_dir from_source d) env)))
