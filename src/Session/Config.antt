-- ===== src/Session/Config.antt =====
-- The members of `session` (sbuild/sbuild-session.h) that do not change while it runs.
use schroot.Prelude.{List, [], ◌∷◌, Text}
use schroot.Prelude.Map.{Map}
use schroot.Auth.{Auth}
use schroot.Session.Chroot.{Chroot}
use schroot.Session.Setup.{Operation}

pub record ChrootListEntry : Type 0 where
  pub alias : Text
  pub chroot : Chroot

pub record Session : Type 0 where
  pub authstat : Auth
  pub chroots : List ChrootListEntry
  pub session_operation : Operation
  pub session_id : Text
  pub verbosity : Text
  pub user_options : Map Text
  pub mount_dir : Text

abbrev pub chroots_of : List ChrootListEntry → List Chroot
chroots_of [] = []
chroots_of (entry ∷ entries) = entry.chroot ∷ chroots_of entries
