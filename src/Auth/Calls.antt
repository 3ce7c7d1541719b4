-- ===== src/Auth/Calls.antt =====
-- The virtual methods of `auth` that a session calls, as sbuild/sbuild-auth-null.cc and
-- sbuild/sbuild-auth-pam.cc implement them. The answers of libpam, gethostname(2) and ttyname(3)
-- are parameters. `initialised` is the state of an object: a PAM handle that is not null.
pub mod Admission
use schroot.Prelude.{
  Bool, true, false, not, Option, none, some, List, [], ◌∷◌, Text, nat_eq, ◌==◌, is_empty,
  if◌then◌else◌,
}
use schroot.Exception.{
  AuthCode, Exception, auth_error, assertion, hostname, authentication, authorisation,
  pam_double_init, pam, pam_end,
}
use schroot.Environment.{Environment, get_strv}
use schroot.Auth.{Auth, Status, status_none, status_user, status_fail}

pub data AuthCall : Type 0 where
  start : AuthCall
  authenticate : Status → AuthCall
  setupenv account cred_establish cred_delete open_session close_session stop : AuthCall

-- What a call throws, if it does, and whether the object is initialised after it.
abbrev pub Answer : Type 0
Answer = Option Exception × Bool

-- `assert (this->initialised)`
abbrev asserted : Bool → Answer → Answer
asserted initialised answer = if initialised then answer else (some assertion, initialised)

abbrev fails : Bool → AuthCode → Answer
fails initialised code = (some (auth_error code), initialised)

-- `pam_status != PAM_SUCCESS` throws `code`
abbrev checked : Bool → AuthCode → Answer → Answer
checked success code answer = if success then answer else fails true code

unfoldable pub null_authenticate : Auth → Status → Answer
null_authenticate auth status_none = (none, true)
null_authenticate auth status_user =
    if auth.ruid == 0 then (none, true) else fails true authentication
null_authenticate auth status_fail = fails true authorisation

-- class auth_null; what it does not override does nothing
unfoldable pub null_call : Auth → Bool → AuthCall → Answer
unfolding null_authenticate
null_call auth initialised start =
    asserted (not (is_empty auth.user_name))
      (if initialised then fails initialised pam_double_init else (none, true))
null_call auth initialised (authenticate status) =
    asserted initialised (null_authenticate auth status)
null_call auth initialised stop = (none, false)
null_call auth initialised _ = (none, initialised)

-- What the library calls that a method makes return.
pub record PamAnswers : Type 0 where
  pub pam_start : Bool
  pub handle_set : Bool
  pub pam_end : Bool
  pub set_ruser : Bool
  pub gethostname : Bool
  pub set_rhost : Bool
  pub tty : Bool
  pub set_tty : Bool
  pub set_user : Bool
  pub pam_authenticate : Bool
  pub pam_putenv : Text → Bool
  pub pam_acct_mgmt : Bool
  pub establish_cred : Bool
  pub delete_cred : Bool
  pub pam_open_session : Bool
  pub pam_close_session : Bool

unfoldable pub pam_status : PamAnswers → Status → Answer
pam_status answers status_none = checked answers.set_user pam (none, true)
pam_status answers status_user = checked answers.pam_authenticate authentication (none, true)
pam_status answers status_fail = fails true authorisation

unfoldable pub pam_authenticate : PamAnswers → Status → Answer
unfolding pam_status
pam_authenticate answers status = checked answers.set_ruser pam (
    checked answers.gethostname hostname (
      checked answers.set_rhost pam
        (checked (if answers.tty then answers.set_tty else true) pam (pam_status answers status))))

-- the loop of `setupenv`, over the items of the minimal environment
unfoldable pub put_all : PamAnswers → List Text → Answer
put_all answers [] = (none, true)
put_all answers (item ∷ items) = checked (answers.pam_putenv item) pam (put_all answers items)

-- class auth_pam. Where pam_start fails and leaves no handle, `pam_strerror` fails its assertion.
unfoldable pub pam_call : PamAnswers → Environment → Auth → Bool → AuthCall → Answer
unfolding pam_authenticate put_all get_strv
pam_call answers minimal auth initialised start = asserted (not (is_empty auth.user_name)) (
    if initialised
    then fails initialised pam_double_init
    else if answers.pam_start
    then (none, true)
    else if answers.handle_set
    then fails true pam
    else (some assertion, false))
pam_call answers minimal auth initialised (authenticate status) =
    asserted (not (is_empty auth.user_name))
      (asserted initialised (pam_authenticate answers status))
pam_call answers minimal auth initialised setupenv =
    asserted initialised (put_all answers (get_strv minimal))
pam_call answers minimal auth initialised account =
    asserted initialised (checked answers.pam_acct_mgmt pam (none, true))
pam_call answers minimal auth initialised cred_establish =
    asserted initialised (checked answers.establish_cred pam (none, true))
pam_call answers minimal auth initialised cred_delete =
    asserted initialised (checked answers.delete_cred pam (none, true))
pam_call answers minimal auth initialised open_session =
    asserted initialised (checked answers.pam_open_session pam (none, true))
pam_call answers minimal auth initialised close_session =
    asserted initialised (checked answers.pam_close_session pam (none, true))
pam_call answers minimal auth initialised stop =
    if initialised
    then (if answers.pam_end then (none, false) else fails true pam_end)
    else (none, initialised)
