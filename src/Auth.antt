-- ===== src/Auth.antt =====
-- sbuild/sbuild-auth.{h,cc}: who runs the program, as whom, and in what environment. What
-- getpwuid(3), getpwnam(3) and getgrgid(3) find is the parameter `Accounts`; `regex_search` is the
-- parameter of schroot.Environment.
pub mod Variables
pub mod Calls
use schroot.Prelude.{
  ℕ, Bool, true, false, not, Option, none, some, List, [], ◌∷◌, Text, codes, nat_eq, ◌==◌, ltb,
  is_empty, if◌then◌else◌,
}
use schroot.Exception.{Result, ok, throw, auth_error, user, group}
use schroot.Environment.{Environment, no_environment, add, add_environment, remove}

-- `auth::status`
pub data Status : Type 0 where
  status_none status_user status_fail : Status

-- The values of the enumeration.
abbrev pub level : Status → ℕ
level status_none = 0
level status_user = 1
level status_fail = 2

unfoldable pub change_auth : Status → Status → Status
change_auth oldauth newauth = if ltb (level oldauth) (level newauth) then newauth else oldauth

-- struct passwd
pub record Passwd : Type 0 where
  pub pw_name : Text
  pub pw_uid : ℕ
  pub pw_gid : ℕ
  pub pw_dir : Text
  pub pw_shell : Text

pub record Accounts : Type 0 where
  pub getpwuid : ℕ → Option Passwd
  pub getpwnam : Text → Option Passwd
  pub group_name : ℕ → Option Text

pub record Auth : Type 0 where
  pub service : Text
  pub uid : ℕ
  pub gid : ℕ
  pub user_name : Text
  pub command : List Text
  pub home : Text
  pub wd : Text
  pub shell : Text
  pub user_environment : Environment
  pub ruid : ℕ
  pub rgid : ℕ
  pub ruser : Text
  pub rgroup : Text

module _ (accounts : Accounts) where
  -- `set_ruser (passwd const&)`
  unfoldable pub set_ruser : Passwd → Auth → Result Auth
  set_ruser rpwent auth = elim (accounts.group_name rpwent.pw_gid) [
    | none ↦ throw (auth_error group)
    | some name ↦ ok (record auth {
      ruid = rpwent.pw_uid;
      rgid = rpwent.pw_gid;
      ruser = rpwent.pw_name;
      rgroup = name;
    })
  ]

  -- `set_ruser (uid_t)`
  unfoldable pub set_ruser_uid : ℕ → Auth → Result Auth
  unfolding set_ruser
  set_ruser_uid uid auth = elim (accounts.getpwuid uid) [
    | none ↦ throw (auth_error user)
    | some pwent ↦ set_ruser pwent auth
  ]

  -- `set_ruser (std::string const&)`
  unfoldable pub set_ruser_name : Text → Auth → Result Auth
  unfolding set_ruser
  set_ruser_name name auth = elim (accounts.getpwnam name) [
    | none ↦ throw (auth_error user)
    | some pwent ↦ set_ruser pwent auth
  ]

  -- `set_user (passwd const&)`
  unfoldable pub set_user : Passwd → Auth → Auth
  set_user pwent auth = record auth {
    uid = pwent.pw_uid;
    gid = pwent.pw_gid;
    user_name = pwent.pw_name;
    home = pwent.pw_dir;
    shell = pwent.pw_shell;
  }

  -- `set_user (uid_t)`
  unfoldable pub set_user_uid : ℕ → Auth → Result Auth
  unfolding set_user
  set_user_uid uid auth = elim (accounts.getpwuid uid) [
    | none ↦ throw (auth_error user)
    | some pwent ↦ ok (set_user pwent auth)
  ]

  -- `set_user (std::string const&)`
  unfoldable pub set_user_name : Text → Auth → Result Auth
  unfolding set_user
  set_user_name name auth = elim (accounts.getpwnam name) [
    | none ↦ throw (auth_error user)
    | some pwent ↦ ok (set_user pwent auth)
  ]

  -- The constructor: `process_uid`, `process_gid` and `environ` are those of the process.
  unfoldable pub new_auth : Text → ℕ → ℕ → Environment → Result Auth
  unfolding set_ruser_uid set_user_name
  new_auth service_name process_uid process_gid environ =
      elim (set_ruser_uid process_uid (record {
        service = service_name;
        uid = process_uid;
        gid = process_gid;
        user_name = [];
        command = [];
        home = codes "/";
        wd = [];
        shell = codes "/bin/false";
        user_environment = environ;
        ruid = process_uid;
        rgid = process_gid;
        ruser = [];
        rgroup = [];
      })) [ throw e ↦ throw e | ok auth ↦ set_user_name auth.ruser auth ]

abbrev pub path_name : Text
path_name = codes "PATH"

abbrev pub home_name : Text
home_name = codes "HOME"

abbrev pub logname_name : Text
logname_name = codes "LOGNAME"

abbrev pub user_var : Text
user_var = codes "USER"

abbrev pub term_name : Text
term_name = codes "TERM"

abbrev pub shell_name : Text
shell_name = codes "SHELL"

abbrev pub root_path : Text
root_path = codes "/usr/local/sbin:/usr/local/bin:/usr/sbin:/usr/bin:/sbin:/bin"

abbrev pub user_path : Text
user_path = codes "/usr/local/bin:/usr/bin:/bin"

module _ (search : Text → Text → Bool) where
  abbrev pub add_term : Option Text → Environment → Environment
  add_term none env = env
  add_term (some term) env = add search term_name term env

  -- `term` is `getenv ("TERM")`
  unfoldable pub get_minimal_environment : Option Text → Auth → Environment
  get_minimal_environment term auth =
      let env1 =
        add search path_name (if auth.uid == 0 then root_path else user_path) no_environment in
      let env2 = add search home_name (if is_empty auth.home then codes "/" else auth.home) env1 in
      let env3 =
        if is_empty auth.user_name
        then env2
        else add search user_var auth.user_name (add search logname_name auth.user_name env2) in
      let env4 = add_term term env3 in
      if is_empty auth.shell then env4 else add search shell_name auth.shell env4

  -- `auth_environment` is what `get_auth_environment`, which is virtual, returns.
  unfoldable pub get_complete_environment : Option Text → Environment → Auth → Environment
  get_complete_environment term auth_environment auth =
      let user = auth.user_environment in
      let user' = if auth.uid == 0 then remove path_name user else user in
      add_environment search
        (add_environment search
          (add_environment search no_environment (get_minimal_environment term auth))
          auth_environment)
        user'
