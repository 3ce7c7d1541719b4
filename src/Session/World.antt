-- ===== src/Session/World.antt =====
-- What a session (sbuild/sbuild-session.cc) asks of the system and of the objects that it drives.
-- Each call is an event of the history, and the world answers a call by the history before it:
-- whatever the system does, some `World` does the same.
use schroot.Prelude.{ℕ, Bool, Option, List, Text}
use schroot.Exception.{Exception}
use schroot.Auth.Calls.{AuthCall}
use schroot.Session.Access.{Groups}
use schroot.Session.Chroot.{Chroot, SetupType}

pub data Signal : Type 0 where
  sighup sigint sigterm : Signal

-- What `struct sigaction` names: SIG_DFL, which is also what a value of zeroes names; the handler of
-- `session` that sets the flag of a signal; or another one.
pub data Handler : Type 0 where
  default_handler : Handler
  session_handler : Signal → Handler
  other_handler : ℕ → Handler

-- A handler for each of the three signals.
pub record Handlers : Type 0 where
  pub on_sighup : Handler
  pub on_sigint : Handler
  pub on_sigterm : Handler

abbrev pub handler_of : Signal → Handlers → Handler
handler_of sighup hs = hs.on_sighup
handler_of sigint hs = hs.on_sigint
handler_of sigterm hs = hs.on_sigterm

abbrev pub with_handler : Signal → Handler → Handlers → Handlers
with_handler sighup h hs = record hs { on_sighup = h }
with_handler sigint h hs = record hs { on_sigint = h }
with_handler sigterm h hs = record hs { on_sigterm = h }

pub data Event : Type 0 where
  -- a method of `authstat`
  auth : AuthCall → Event
  -- `chroot::lock` and `chroot::unlock`, with the name of the chroot
  lock : Text → SetupType → Event
  unlock : Text → SetupType → ℕ → Event
  -- fork(2) of the setup scripts, with the stage and the status "ok" or "fail" that they are given
  setup_scripts : Text → SetupType → Bool → Event
  -- fork(2) of `run_child`
  run_command : Text → Event
  -- kill(2) of the child
  kill_child : Signal → Event
  -- sigaction(2), to set a handler and to restore the saved one
  set_handler clear_handler : Signal → Event
  -- tcgetattr(3) and tcsetattr(3)
  get_termios set_termios : Event
  -- `cout << chroot->get_name () << endl`
  print_name : Text → Event

-- The latest event is the first.
abbrev pub History : Type 0
History = List Event

-- The signals that have arrived when a waitpid(2) returns.
pub record Arrivals : Type 0 where
  pub hup : Bool
  pub int : Bool
  pub term : Bool

-- How the child ended: waitpid(2) failed by another error than EINTR, or what the macros
-- WIFEXITED, WIFSIGNALED and WCOREDUMP say of the status.
pub data WaitStatus : Type 0 where
  wait_failed : WaitStatus
  exited : ℕ → WaitStatus
  signalled dumped_core abnormal : WaitStatus

-- The waitpid(2) calls for one child: those that a signal interrupts, then the one that returns.
-- A child is interrupted finitely often, since it ends.
pub record Waits : Type 0 where
  pub interrupts : List Arrivals
  pub arrivals : Arrivals
  pub status : WaitStatus

pub record World : Type 0 where
  pub groups : Groups
  -- `regex_search` of the C++ library
  pub search : Text → Text → Bool
  pub unique_identifier : History → Text
  pub auth_answer : History → AuthCall → Option Exception
  -- `setup_lock` of the chroot's class
  pub lock_answer : History → Chroot → SetupType → Option Exception
  pub unlock_answer : History → Chroot → SetupType → ℕ → Option Exception
  -- `chroot::setup_env` and the constructor of `run_parts`, which reads a directory
  pub setup_answer : History → Chroot → Option Exception
  pub fork_fails : History → Bool
  pub waits : History → Waits
  -- sigaction(2), of a handler of the session and of a saved one
  pub sigaction_fails : History → Signal → Bool
  pub restore_fails : History → Signal → Bool
  -- `CTTY_FILENO >= 0`
  pub has_terminal : Bool
  pub tcgetattr_fails : History → Bool
