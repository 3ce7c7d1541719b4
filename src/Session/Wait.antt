-- ===== src/Session/Wait.antt =====
-- sbuild/sbuild-session.cc: `wait_for_child`.
pub mod Laws
pub mod Sends
use schroot.Prelude.{
  ℕ, Bool, true, false, not, ◌&&◌, ◌||◌, Option, none, some, List, [], ◌∷◌, if◌then◌else◌,
}
use schroot.Exception.{
  Exception, session_error, child_wait, signal_catch, child_signal, child_core, child_fail,
}
use schroot.Session.World.{
  Event, kill_child, Signal, sighup, sigterm, Arrivals, Waits, WaitStatus, wait_failed, exited,
  signalled, dumped_core, abnormal,
}
use schroot.Session.Exec.{State, log}

abbrev pub exit_failure : ℕ
exit_failure = 1

-- The handlers set their flags.
abbrev pub arrive : Arrivals → State → State
arrive a s = record s {
  sighup_called = s.sighup_called || a.hup;
  sigint_called = s.sigint_called || a.int;
  sigterm_called = s.sigterm_called || a.term;
}

-- A SIGHUP or SIGTERM is passed on to the child, once: the state, and `child_killed`.
unfoldable pub pass_signal : Bool → State → State × Bool
pass_signal child_killed s =
    if (s.sighup_called || s.sigterm_called) && not child_killed
    then (
      record (log (kill_child (if s.sighup_called then sighup else sigterm)) s) {
        chroot_status = false;
      },
      true,
    )
    else (s, child_killed)

-- After the loop: the exit status, or the exception.
unfoldable pub decode : WaitStatus → ℕ × Option Exception
decode wait_failed = (exit_failure, some (session_error child_wait))
decode (exited status) = (status, none)
decode signalled = (exit_failure, some (session_error child_signal))
decode dumped_core = (exit_failure, some (session_error child_core))
decode abnormal = (exit_failure, some (session_error child_fail))

-- What `wait_for_child` leaves in its argument `child_status`, what it throws, and the state.
pub record Waited : Type 0 where
  pub status : ℕ
  pub thrown : Option Exception
  pub state : State

-- The waitpid(2) that was not interrupted has returned.
unfoldable pub returned : WaitStatus → State → Waited
returned wait_failed s = record {
  status = exit_failure;
  thrown = some (session_error child_wait);
  state = s;
}
returned status s =
    if s.sighup_called
    then record {
      status = exit_failure;
      thrown = some (session_error signal_catch);
      state = record s { sighup_called = false };
    }
    else if s.sigterm_called
    then record {
      status = exit_failure;
      thrown = some (session_error signal_catch);
      state = record s { sigterm_called = false };
    }
    else record { status = (decode status).0; thrown = (decode status).1; state = s }

-- The loop. An EINTR with no flag set is an error.
unfoldable pub wait_loop : List Arrivals → Arrivals → WaitStatus → Bool → State → Waited
wait_loop [] arrivals status child_killed s =
    let (s', child_killed') = pass_signal child_killed s in returned status (arrive arrivals s')
wait_loop (a ∷ interrupts) arrivals status child_killed s =
    let passed = pass_signal child_killed s in
    let s' = arrive a passed.0 in
    let rest = wait_loop interrupts arrivals status passed.1 s' in
    if s'.sighup_called || s'.sigterm_called || s'.sigint_called
    then rest
    else record { status = exit_failure; thrown = some (session_error child_wait); state = s' }

unfoldable pub wait_for_child : Waits → State → Waited
wait_for_child waits s = wait_loop waits.interrupts waits.arrivals waits.status false s
