-- ===== src/Tests/Fixture.antt =====
-- Concrete accounts, chroots and a quiet world, for the examples.
use schroot.Prelude.{
  Bool, true, false, Option, none, some, List, [], ◌∷◌, Text, codes, text_beq, if◌then◌else◌,
}
use schroot.Exception.{Exception, auth_error, authorisation}
use schroot.Environment.{Environment}
use schroot.Auth.{Auth, status_fail}
use schroot.Auth.Calls.{AuthCall, authenticate}
use schroot.Userdata.{Userdata}
use schroot.Session.Access.{Groups}
use schroot.Session.Chroot.{Chroot, quiet}
use schroot.Session.World.{exited, Waits, World, Handlers, default_handler, other_handler}
use schroot.Session.Exec.{State}
use schroot.Session.Setup.{Operation}
use schroot.Session.Config.{Session}

-- A search that finds only the whole text.
abbrev pub whole : Text → Text → Bool
whole name pattern = text_beq name pattern

abbrev pub home_term : Environment
home_term = record {
  vars = (codes "HOME", codes "/home/alice") ∷ (codes "TERM", codes "vt100") ∷ [];
  filter = codes "PATH";
}

abbrev pub alice : Text
alice = codes "alice"

-- alice, who becomes root
abbrev pub alice_to_root : Auth
alice_to_root = record {
  service = codes "schroot";
  uid = 0;
  gid = 0;
  user_name = codes "root";
  command = [];
  home = codes "/root";
  wd = [];
  shell = codes "/bin/sh";
  user_environment = home_term;
  ruid = 1000;
  rgid = 1000;
  ruser = alice;
  rgroup = alice;
}

abbrev pub groups : Groups
groups = record {
  getgrnam = λ name. if text_beq name (codes "sbuild") then some 50 else none;
  getgid = 1000;
  group_count = some 2;
  supplementary = some (27 ∷ 50 ∷ []);
}

-- The user may set the variable `debug`.
abbrev pub debug_data : Userdata
debug_data = record {
  userdata = [];
  env = [];
  user_modifiable_keys = (codes "setup.debug", tt) ∷ [];
  root_modifiable_keys = [];
}

-- A chroot for the users and the groups given.
abbrev pub chroot_for : List Text → List Text → Chroot
chroot_for root_users root_groups = record {
  name = codes "sid";
  description = [];
  users = [];
  groups = [];
  root_users = root_users;
  root_groups = root_groups;
  aliases = [];
  preserve_environment = false;
  default_shell = [];
  environment_filter = [];
  mount_location = [];
  run_setup_scripts = true;
  command_prefix = [];
  message_verbosity = quiet;
  is_plain = false;
  session_clonable = true;
  session = none;
  userdata = none;
}

-- A process that a SIGTERM interrupts before it exits.
abbrev pub terminated_wait : Waits
terminated_wait = record {
  interrupts = record { hup = false; int = false; term = true } ∷ [];
  arrivals = record { hup = false; int = false; term = false };
  status = exited 0;
}

abbrev pub quiet_wait : Waits
quiet_wait = record {
  interrupts = [];
  arrivals = record { hup = false; int = false; term = false };
  status = exited 0;
}

abbrev pub answer : AuthCall → Option Exception
answer (authenticate status_fail) = some (auth_error authorisation)
answer call = none

-- Every call succeeds but the authentication of a status of failure.
abbrev pub world : World
world = record {
  groups = groups;
  search = λ name pattern. true;
  unique_identifier = λ h. codes "1";
  auth_answer = λ h c. answer c;
  lock_answer = λ h chroot stage. none;
  unlock_answer = λ h chroot stage status. none;
  setup_answer = λ h chroot. none;
  fork_fails = λ h. false;
  waits = λ h. quiet_wait;
  sigaction_fails = λ h signal. false;
  restore_fails = λ h signal. false;
  has_terminal = true;
  tcgetattr_fails = λ h. false;
}

abbrev pub no_handlers : Handlers
no_handlers = record {
  on_sighup = default_handler;
  on_sigint = default_handler;
  on_sigterm = default_handler;
}

abbrev pub initial : State
initial = record {
  chroot_status = true;
  lock_status = true;
  child_status = 0;
  termios_ok = false;
  sighup_called = false;
  sigint_called = false;
  sigterm_called = false;
  saved_handlers = no_handlers;
  handlers = record no_handlers { on_sighup = other_handler 1 };
  history = [];
}

-- An operation on that chroot.
abbrev pub session_of : Operation → Chroot → Session
session_of operation chroot = record {
  authstat = alice_to_root;
  chroots = record { alias = codes "unstable"; chroot = chroot } ∷ [];
  session_operation = operation;
  session_id = [];
  verbosity = [];
  user_options = [];
  mount_dir = codes "/var/run/schroot/mount";
}
