-- ===== src/Auth/Calls/Admission.antt =====
-- Whom the back ends sbuild/sbuild-auth-null.cc and sbuild/sbuild-auth-pam.cc admit.
use schroot.Prelude.{◌≡◌, ◌↔◌, ◌⊎◌, Bool, true, false, none, arith, nat_eq, is_empty}
use schroot.Environment.{Environment}
use schroot.Auth.{Auth, Status, status_none, status_user, status_fail}
use schroot.Auth.Calls.{
  authenticate, null_call, null_authenticate, pam_call, PamAnswers, pam_status, pam_authenticate,
}

-- The null back end admits the user exactly where it is initialised and no password is wanted, or
-- one is wanted of root.
pub null_call-authenticate :
    (auth : Auth) (initialised : Bool) (status : Status)
    → ((null_call auth initialised (authenticate status)).0 ≡ none) ↔ (
        (initialised ≡ true)
        × ((status ≡ status_none) ⊎ ((status ≡ status_user) × (auth.ruid ≡ 0))))
unfolding null_call null_authenticate
null_call-authenticate auth initialised status_none = ground arith
null_call-authenticate auth initialised status_user = ground arith
null_call-authenticate auth initialised status_fail = ground arith

-- The PAM back end admits a named user after `start` exactly where the remote user, the host name,
-- the remote host and, if there is a terminal, the terminal could be set, and either no password is
-- wanted and the user's name could be set, or one is wanted and PAM accepts it.
pub pam_call-authenticate :
    (answers : PamAnswers) (minimal : Environment) (auth : Auth) (initialised : Bool)
    (status : Status)
    → ((pam_call answers minimal auth initialised (authenticate status)).0 ≡ none) ↔ (
        (initialised ≡ true)
        × (is_empty auth.user_name ≡ false)
        × ((answers.set_ruser ≡ true) × (answers.gethostname ≡ true) × (answers.set_rhost ≡ true))
        × ((answers.tty ≡ false) ⊎ (answers.set_tty ≡ true))
        × (((status ≡ status_none) × (answers.set_user ≡ true))
            ⊎ ((status ≡ status_user) × (answers.pam_authenticate ≡ true))))
unfolding pam_call pam_authenticate pam_status
pam_call-authenticate answers minimal auth initialised status_none = ground arith
pam_call-authenticate answers minimal auth initialised status_user = ground arith
pam_call-authenticate answers minimal auth initialised status_fail = ground arith
