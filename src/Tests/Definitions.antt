-- ===== src/Tests/Definitions.antt =====
-- The theorems of the chroot definitions at concrete inputs.
use schroot.Prelude.{
  ◌≡◌, ◌∙◌, refl, sym, subst, Bool, true, false, ◌||◌, ◌&&◌, Option, none, some, [], ◌∷◌, Text,
  codes, text_beq, text_beq_iff, text_eq, nat_eq, arith, inl, inr, contains,
}
use schroot.Prelude.Map.{find}
use schroot.Userdata.{Userdata, permitted, has, envname, validate_keyname}
use schroot.Userdata.Unique.{is_set}
use schroot.Util.Names.{is_absname, is_valid_sessionname, file_namespace}
use schroot.Util.Split.{find_first}
use schroot.Keyfile.{Keyfile, ok, error, missing_key, get_line, names, find_item}
use schroot.Keyfile.Values.{get_value}
use schroot.Config.{get_namespace}
use schroot.Session.Chroot.{Chroot, SessionFacet, verbose}
use schroot.Definition.{
  Definition, ChrootType, lvm_snapshot, zfs_snapshot, custom, Mountable, profile_data,
  with_userdata,
}
use schroot.Definition.Save.{get_keyfile}
use schroot.Definition.Base.{IsLoadable}
use schroot.Definition.Profile.{IsFresh}
use schroot.Definition.Loaded.{ArePaths}
use schroot.Definition.Facets.{IsFaceted}
use schroot.Definition.Load.Steps.{first_line, type_steps}
use schroot.Definition.Load.{run_steps, set_keyfile}
use schroot.Definition.Reload.{IsSession}
use schroot.Definition.Kept.{HasKeys, HasData}
use schroot.Definition.Restored.{IsRestorable}
use schroot.Definition.Whole.{IsTarget, reloaded, set_keyfile-get_keyfile}
use schroot.Definition.Unloadable.{type_steps-get_keyfile}
use schroot.Tests.Fixture.{chroot_for}

-- A definition of a class with empty members.
abbrev blank : ChrootType → Chroot → Option Mountable → Definition
blank type base mountable = record {
  base = base;
  profile = [];
  script_config = [];
  persona = codes "undefined";
  type = type;
  root_directory = [];
  file_name = [];
  location = [];
  repack = false;
  device = [];
  snapshot_device = [];
  snapshot_options = [];
  source_subvolume = [];
  snapshot_directory = [];
  snapshot_name = [];
  dataset = [];
  clone_name = [];
  purgeable = false;
  mountable = mountable;
  source_clonable = none;
}

abbrev pub debug : Userdata
debug = record {
  userdata = (codes "setup.debug", codes "on") ∷ [];
  env = (codes "SETUP_DEBUG", tt) ∷ [];
  user_modifiable_keys = (codes "setup.debug", tt) ∷ [];
  root_modifiable_keys = [];
}

abbrev pub facet : SessionFacet
facet = record { original_name = codes "sid"; selected_name = codes "unstable" }

abbrev mount : Mountable
mount = record { mount_device = codes "/dev/s1"; mount_options = codes "-o ro"; mount_path = [] }

-- A session of a logical volume, with a profile.
abbrev pub volume : Definition
volume =
    record (blank lvm_snapshot
      (record (chroot_for (codes "alice" ∷ []) []) {
        name = codes "s1";
        environment_filter = codes "^LD";
        mount_location = codes "/mnt/s1";
        message_verbosity = verbose;
        preserve_environment = true;
        session = some facet;
        userdata = some debug;
      })
      (some mount)) {
        profile = codes "desktop";
        persona = codes "linux32";
        device = codes "/dev/sid";
        snapshot_device = codes "/dev/s1";
      }

abbrev fresh_data : Userdata
fresh_data = record {
  userdata = profile_data [];
  env =
      (codes "SETUP_CONFIG", tt)
      ∷ (codes "SETUP_COPYFILES", tt)
      ∷ (codes "SETUP_FSTAB", tt)
      ∷ (codes "SETUP_NSSDATABASES", tt)
      ∷ [];
  user_modifiable_keys = [];
  root_modifiable_keys = [];
}

abbrev pub new_facet : SessionFacet
new_facet = record { original_name = []; selected_name = [] }

-- A new chroot of the same name and class.
abbrev pub target : Definition
target =
    blank lvm_snapshot
      (record (chroot_for [] []) {
        name = codes "s1";
        session = some new_facet;
        userdata = some fresh_data;
      })
      (some (record { mount_device = []; mount_options = []; mount_path = [] }))

abbrev pub of_file : Text → Text → Bool
of_file text pattern =
    text_beq pattern file_namespace || text_beq pattern permitted && contains text b'.'

abbrev pub anything : Text → Bool
anything text = true

pub volume-IsSession : IsSession volume debug facet
volume-IsSession = record { userdata = refl; dotted = (refl, tt); session = refl; no_source = refl }

target-IsFresh : IsFresh target
unfolding text_beq find
target-IsFresh = record {
  userdata = fresh_data;
  has = refl;
  known = (refl, (refl, (refl, (refl, tt))));
  bare = refl;
}

pub target-IsTarget : IsTarget volume target new_facet
target-IsTarget = record {
  name = refl;
  type = refl;
  session = refl;
  no_source = refl;
  persona = refl;
  mountable = tt;
  fresh = target-IsFresh;
}

pub volume-IsLoadable : IsLoadable of_file anything volume.base
unfolding is_absname is_valid_sessionname first_line find_first text_beq
volume-IsLoadable = record {
  aliases = tt;
  alias_names = refl;
  filter_line = refl;
  filter = refl;
  users = tt;
  groups = tt;
  root_users = ((refl, (refl, (refl, (refl, (refl, tt))))), tt);
  root_groups = tt;
  mount_location = refl;
  no_separator = refl;
  name = refl;
  command_prefix = tt;
}

pub volume-IsFaceted : IsFaceted volume debug facet
unfolding first_line find_first get_namespace names text_beq
volume-IsFaceted = record {
  persona_line = refl;
  persona = refl;
  user_keys = (
    (refl, (refl, (refl, (refl, (refl, (refl, (refl, (refl, (refl, (refl, (refl, tt))))))))))),
    tt,
  );
  root_keys = tt;
  mount = refl;
  selected = refl;
}

pub volume-ArePaths : ArePaths lvm_snapshot volume
unfolding is_absname
volume-ArePaths = (refl, refl)

debug_key : (k : Text) → is_set k debug ≡ true → codes "setup.debug" ≡ k
unfolding find
debug_key k h = ground (arith, h, text_beq_iff (codes "setup.debug") k)

of_file-dotted : (k : Text) → validate_keyname of_file k ≡ true → contains k b'.' ≡ true
unfolding validate_keyname text_beq
of_file-dotted k h = ground (arith, h)

pub volume-IsRestorable : IsRestorable of_file volume debug target-IsTarget.fresh.userdata
unfolding validate_keyname text_beq find envname target-IsTarget target-IsFresh
volume-IsRestorable = record {
  sorted = (tt, tt);
  valid = λ k h. subst (λ j. validate_keyname of_file j ≡ true) (debug_key k h) refl;
  dotted = of_file-dotted;
  undescribed = λ k h. refl;
  distinct = λ j k hj hk same. sym (debug_key j hj) ∙ debug_key k hk;
  open_key = λ k h. inr (subst (λ j. has (envname j) fresh_data.env ≡ false) (debug_key k h) refl);
}

set_keyfile-get_keyfile_example :
    (u1 : Userdata) × ((u2 : Userdata) × ((set_keyfile of_file anything
            (get_keyfile volume [])
            target
          ≡ ok (with_userdata (reloaded volume debug facet target u1) u2))
        × HasKeys debug u2
        × HasData debug u2))
set_keyfile-get_keyfile_example =
    set_keyfile-get_keyfile of_file anything volume target debug facet new_facet [] volume-IsSession
      (λ h. ground (arith, h)) target-IsTarget (inl refl) volume-IsLoadable volume-ArePaths
      volume-IsFaceted volume-IsRestorable

-- A ZFS snapshot that is no session.
abbrev zfs : Definition
zfs =
    record (blank zfs_snapshot (record (chroot_for [] []) { userdata = some debug }) (some mount)) {
      dataset = codes "tank/sid";
    }

type_steps-get_keyfile_example :
    run_steps (type_steps zfs_snapshot false false) (get_keyfile zfs []) zfs
    ≡ error (get_line (codes "sid") (codes "zfs-dataset") (get_keyfile zfs [])) missing_key
type_steps-get_keyfile_example =
    type_steps-get_keyfile zfs zfs debug false [] refl refl refl (refl, tt) refl

abbrev cloneable_file : Keyfile
cloneable_file =
    (
      codes "sid",
      record {
        items =
            (
              codes "custom-session-cloneable",
              record { value = codes "true"; comment = []; line = 2 },
            )
            ∷ [];
        comment = [];
        line = 1;
      },
    )
    ∷ []

abbrev new_custom : Definition
new_custom = blank custom (chroot_for [] []) none

true_read :
    get_value (codes "sid") (codes "custom-session-cloneable") cloneable_file ≡ some (codes "true")
unfolding get_value find_item find text_beq
true_read = refl
