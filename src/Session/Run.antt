-- ===== src/Session/Run.antt =====
-- sbuild/sbuild-session.cc: `run`.
pub mod Refusal
pub mod Cleanup
use schroot.Prelude.{Bool, true, false, Option, none, some, List, [], ◌∷◌}
use schroot.Exception.{Exception, is_auth_error}
use schroot.Auth.{Status}
use schroot.Auth.Calls.{
  AuthCall, start, authenticate, setupenv, account, cred_establish, cred_delete, stop,
}
use schroot.Session.Access.{get_auth_status}
use schroot.Session.World.{World}
use schroot.Session.Exec.{State, M, ◌>>=◌, ◌>>◌, lift, raise, try_catch, swallow}
use schroot.Session.Config.{Session, chroots_of}
use schroot.Session.Impl.{auth_call, run_impl}

module _ (w : World) (session : Session) where
  -- What follows the authentication.
  unfoldable pub run_authorised : M (Unit {0})
  run_authorised = do
    try_catch is_auth_error (do auth_call w session cred_establish; run_impl w session)
        λ e. do swallow is_auth_error (auth_call w session cred_delete); raise e
    auth_call w session cred_delete

  -- The outer `try` block.
  unfoldable pub run_body : M (Unit {0})
  run_body = do
    auth_call w session start
    status ← lift (get_auth_status w.groups session.authstat (chroots_of session.chroots))
    auth_call w session (authenticate status)
    auth_call w session setupenv
    auth_call w session account
    run_authorised

  unfoldable pub run : M (Unit {0})
  run = do
    try_catch is_auth_error run_body
        λ e. do swallow is_auth_error (auth_call w session stop); raise e
    auth_call w session stop
