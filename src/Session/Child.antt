-- ===== src/Session/Child.antt =====
-- sbuild/sbuild-session.cc: `run_child`, which the child process runs after fork(2). Each call to
-- the system is recorded, the latest one first, and a `Kernel` answers it by the calls before it.
pub mod Command
pub mod Confinement
pub mod Shells
pub mod Completion
use schroot.Prelude.{
  ℕ, Bool, true, false, not, ◌&&◌, ◌||◌, Option, none, some, List, [], ◌∷◌, ◌++◌, Text, codes,
  nat_eq, text_eq, ◌==◌, contains, is_empty, if◌then◌else◌,
}
use schroot.Exception.{
  Exception, Result, ok, throw, session_error, other_error, assertion, group_set, group_set_sup,
  chdir, chroot, user_set, root_drop, exec,
}
use schroot.Environment.{Environment, no_environment, get, add, add_environment}
use schroot.Auth.{Auth}
use schroot.Session.Chroot.{Chroot, SessionFacet}
use schroot.Util.Split.{string_list_to_string}
use schroot.Session.Child.Command.{
  Settings, Program, get_login_directories, get_command_directories, is_login_command, get_command,
  prefix_file,
}

pub data Call : Type 0 where
  setgid : ℕ → Call
  initgroups : Text → ℕ → Call
  -- personality(2), where the chroot has the facet
  set_persona : Call
  chdir_to : Text → Call
  chroot_to : Text → Call
  setuid : ℕ → Call
  exec_file : Text → List Text → Environment → Call

abbrev pub Calls : Type 0
Calls = List Call

-- What the system answers, and what `run_child` takes from code that is not modelled here: the
-- `get_path` of the chroot's class and the environment of the authentication service.
pub record Kernel : Type 0 where
  -- whether a call succeeds
  pub succeeds : Calls → Call → Bool
  -- getcwd(3), `none` where it fails
  pub raw_cwd : Option Text
  pub exists : Text → Bool
  pub is_program : Text → Bool
  pub search : Text → Text → Bool
  -- a number as `operator<<` prints it
  pub print_number : ℕ → Text
  pub has_personality : Bool
  pub get_path : Chroot → Text
  pub is_initialised : Bool
  pub auth_environment : Environment

-- The result of `run_child`, which returns only as the program that it executes, and the calls.
abbrev pub Run {ℓ} : Type ℓ → Type ℓ
Run A = Calls → Result A × Calls

abbrev pub resume {ℓ κ} :
    {A : Type ℓ} {B : Type κ} → (A → Run B) → Result A × Calls → Result B × Calls
resume f (ok a, h) = f a h
resume f (throw e, h) = (throw e, h)

infixl 5 ◌>>=◌ ◌>>◌
unfoldable pub ◌>>=◌ {ℓ κ} : {A : Type ℓ} {B : Type κ} → Run A → (A → Run B) → Run B
◌>>=◌ m f h = resume f (m h)

unfoldable pub ◌>>◌ {ℓ κ} : {A : Type ℓ} {B : Type κ} → Run A → Run B → Run B
◌>>◌ m k h = resume (λ _. k) (m h)

abbrev pub pure {ℓ} : {A : Type ℓ} → A → Run A
pure a h = (ok a, h)

abbrev pub require {ℓ} : {A : Type ℓ} → Option A → Exception → Run A
require none e h = (throw e, h)
require (some a) e h = (ok a, h)

abbrev pub assert : Bool → Run (Unit {0})
assert b h = if b then (ok tt, h) else (throw assertion, h)

-- `psess->get_original_name ()` where it is there and not empty, else the name of the chroot
abbrev facet_name : (SessionFacet → Text) → Chroot → Text
facet_name name ch = elim ch.session [
  | none ↦ ch.name
  | some psess ↦ if is_empty (name psess) then ch.name else name psess
]

module _ (k : Kernel) (settings : Settings) (ch : Chroot) where
  abbrev auth : Auth
  auth = settings.authstat

  -- A call that throws where it fails.
  abbrev pub must : Exception → Call → Run (Unit {0})
  must e call h = if k.succeeds h call then (ok tt, call ∷ h) else (throw e, call ∷ h)

  abbrev pub initial_environment : Environment
  initial_environment =
      add_environment k.search (record { vars = []; filter = ch.environment_filter })
        (if settings.preserve_environment || ch.preserve_environment
          then settings.complete_environment
          else k.auth_environment)

  abbrev pub set_personality : Run (Unit {0})
  set_personality = if k.has_personality then must other_error set_persona else pure tt

  -- `setuid (0)` must fail, unless the user is root.
  unfoldable pub drop_root : Run (Unit {0})
  drop_root h =
      if k.succeeds h (setuid 0) && not (auth.uid == 0)
      then (throw (session_error root_drop), setuid 0 ∷ h)
      else (ok tt, setuid 0 ∷ h)

  -- From the groups to the user: what a session gives up before it runs a program.
  unfoldable pub enter_chroot : Text → Run (Unit {0})
  enter_chroot location = do
    must (session_error group_set) (setgid auth.gid)
    must (session_error group_set_sup) (initgroups auth.user_name auth.gid)
    set_personality
    must (session_error chdir) (chdir_to location)
    must (session_error chroot) (chroot_to location)
    must (session_error user_set) (setuid auth.uid)
    drop_root

  -- The loop over the directories; the last one must succeed.
  unfoldable pub change_directory : List Text → Run (Unit {0})
  change_directory [] h = (ok tt, h)
  change_directory (dir ∷ dirs) h =
      let rest = change_directory dirs (chdir_to dir ∷ h) in
      if k.succeeds h (chdir_to dir)
      then (ok tt, chdir_to dir ∷ h)
      else if is_empty dirs
      then (throw (session_error chdir), chdir_to dir ∷ h)
      else rest

  abbrev pub directories : Text → Environment → List Text
  directories cwd env =
      if is_login_command auth.command
      then get_login_directories auth cwd env
      else get_command_directories auth cwd

  -- The variables of the program.
  unfoldable pub add_variables : List Text → Environment → Environment
  add_variables command env0 =
      let env1 =
        add k.search (codes "SCHROOT_COMMAND") (string_list_to_string command (codes " ")) env0 in
      let env2 = add k.search (codes "SCHROOT_USER") auth.ruser env1 in
      let env3 = add k.search (codes "SCHROOT_GROUP") auth.rgroup env2 in
      let env4 = add k.search (codes "SCHROOT_UID") (k.print_number auth.ruid) env3 in
      let env5 = add k.search (codes "SCHROOT_GID") (k.print_number auth.rgid) env4 in
      let env6 =
        add k.search (codes "SCHROOT_CHROOT_NAME") (facet_name (λ s. s.original_name) ch) env5 in
      let env7 =
        add k.search (codes "SCHROOT_ALIAS_NAME") (facet_name (λ s. s.selected_name) ch) env6 in
      add k.search (codes "SCHROOT_SESSION_ID") ch.name env7

  -- The file: that of the command, or of its prefix.
  abbrev pub final_file : Program → Environment → List Text → Text
  final_file program env [] = program.file
  final_file program env (name ∷ arguments) = prefix_file k.is_program env name

  unfoldable pub execute : Program → Run (Unit {0})
  execute program =
      let env = add_variables program.command program.env in
      must (session_error exec) (
        exec_file (final_file program env ch.command_prefix) (ch.command_prefix ++ program.command)
          env)

  -- Where the shell's `basename` is not defined, which `get_shell` rules out, an assertion fails here.
  unfoldable pub run_program : Environment → Run (Unit {0})
  run_program env = do
    program ←
        require (get_command k.search k.exists k.is_program settings ch auth.command env) assertion
    execute program

  unfoldable pub run_inside : Text → Environment → Run (Unit {0})
  run_inside cwd env = do
    enter_chroot (k.get_path ch)
    change_directory (directories cwd env)
    run_program env

  abbrev pub assertions : Run (Unit {0})
  assertions = assert (not (is_empty ch.name) && not (is_empty auth.user_name) && k.is_initialised)

  -- `sbuild::getcwd`: the root directory where getcwd(3) fails
  unfoldable pub getcwd : Text
  getcwd = elim k.raw_cwd [ none ↦ codes "/" | some cwd ↦ cwd ]

  unfoldable pub run_child : Run (Unit {0})
  run_child = do assertions; run_inside getcwd initial_environment
