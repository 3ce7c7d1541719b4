-- ===== src/Session/Clone.antt =====
-- The chroot of a session: `clone_session_setup` of
-- sbuild/sbuild-chroot-facet-session-clonable.cc, with the setters of sbuild/sbuild-chroot.cc that
-- may throw. What it sets for devices, snapshots and unions is not modelled.
use schroot.Prelude.{
  Bool, false, not, ◌&&◌, some, [], ◌∷◌, ◌++◌, Text, codes, nat_eq, text_eq, ◌==◌, contains,
  is_empty, if◌then◌else◌,
}
use schroot.Exception.{Result, ok, throw, chroot_error}
use schroot.Util.Names.{is_absname, is_valid_sessionname}
use schroot.Config.{get_namespace}
use schroot.Session.Chroot.{Chroot, quiet, normal, verbose}

module _ (search : Text → Text → Bool) where
  -- `set_name`: no namespace separator, and a valid name
  unfoldable pub set_name : Text → Chroot → Result Chroot
  set_name name chroot =
      if contains name b':'
      then throw chroot_error
      else if not (is_valid_sessionname search name)
      then throw chroot_error
      else ok (record chroot { name = name })

-- `set_mount_location`
unfoldable pub set_mount_location : Text → Chroot → Result Chroot
set_mount_location location chroot =
    if not (is_empty location) && not (is_absname location)
    then throw chroot_error
    else ok (record chroot { mount_location = location })

-- `set_verbosity (std::string const&)`
unfoldable pub set_verbosity : Text → Chroot → Result Chroot
set_verbosity v chroot =
    if v == codes "quiet"
    then ok (record chroot { message_verbosity = quiet })
    else if v == codes "normal"
    then ok (record chroot { message_verbosity = normal })
    else if v == codes "verbose"
    then ok (record chroot { message_verbosity = verbose })
    else throw chroot_error

-- The user is the only one who may use the session, as root if `root`.
unfoldable pub restrict : Text → Bool → Chroot → Chroot
restrict user root chroot =
    let allowed_users = if is_empty user then [] else user ∷ [] in
    record chroot {
      users = if root then [] else allowed_users;
      root_users = if root then allowed_users else [];
      groups = [];
      root_groups = [];
      aliases = [];
    }

-- `mount_dir` is SCHROOT_MOUNT_DIR, which the build sets.
unfoldable pub clone_session :
    (Text → Text → Bool) → Text → Text → Text → Text → Bool → Chroot → Result Chroot
clone_session search mount_dir session_id alias user root chroot =
    let facet = record chroot {
      session_clonable = false;
      session =
          some (record { original_name = chroot.name; selected_name = (get_namespace alias).1 });
    } in
    elim (set_name search session_id facet) [
      | throw e ↦ throw e
      | ok named ↦
          let clone =
            restrict user root
              (record named { description = named.description ++ codes " (session chroot)" }) in
          if is_empty clone.mount_location && not clone.is_plain
          then set_mount_location (mount_dir ++ (codes "/" ++ session_id)) clone
          else ok clone
    ]
