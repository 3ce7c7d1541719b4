-- ===== src/Session/Setup.antt =====
-- sbuild/sbuild-session.cc: `setup_chroot`.
pub mod Laws
use schroot.Prelude.{
  ℕ, zero, suc, Bool, true, false, not, ◌&&◌, ◌||◌, Option, none, some, List, [], ◌∷◌, is_empty,
  if◌then◌else◌,
}
use schroot.Exception.{
  Exception, Result, ok, throw, session_error, chroot_lock, chroot_unlock, chroot_setup, child_fork,
  is_chroot_error, assertion,
}
use schroot.Session.Chroot.{Chroot, SetupType, setup_start, setup_recover, setup_stop}
use schroot.Session.World.{Event, lock, unlock, setup_scripts, History, Waits, World}
use schroot.Session.Exec.{
  State, M, ◌>>=◌, ◌>>◌, done, raise, modify, try_catch, swallow, log, call, answer,
}
use schroot.Session.Wait.{Waited, wait_for_child}

-- `session::operation`
pub data Operation : Type 0 where
  automatic begin recover end_session run_session : Operation

-- The stages of each operation.
unfoldable pub applies : Operation → SetupType → Bool
applies begin setup_start = true
applies recover setup_recover = true
applies end_session setup_stop = true
applies automatic setup_start = true
applies automatic setup_stop = true
applies operation stage = false

abbrev pub is_start : SetupType → Bool
is_start setup_start = true
is_start setup_recover = false
is_start setup_stop = false

abbrev pub fail_chroot : State → State
fail_chroot s = record s { chroot_status = false }

abbrev pub fail_lock : State → State
fail_lock s = record s { chroot_status = false; lock_status = false }

abbrev pub finish_wait : Option Exception → ℕ → State → Result ℕ × State
finish_wait none status s = (ok status, s)
finish_wait (some e) status s = (throw e, s)

module _ (w : World) where
  abbrev pub lock_chroot : Chroot → SetupType → M (Unit {0})
  lock_chroot chroot stage = call (lock chroot.name stage) (λ h. w.lock_answer h chroot stage)

  abbrev pub unlock_chroot : Chroot → SetupType → ℕ → M (Unit {0})
  unlock_chroot chroot stage status =
      call (unlock chroot.name stage status) (λ h. w.unlock_answer h chroot stage status)

  -- A lock that fails is released, which also removes the session's file.
  unfoldable pub acquire : Chroot → SetupType → M (Unit {0})
  acquire chroot stage = try_catch is_chroot_error (lock_chroot chroot stage) λ e. do
    modify fail_lock
    swallow is_chroot_error (unlock_chroot chroot stage 0)
    raise (session_error chroot_lock)

  -- The environment of the scripts, and the list of the scripts.
  abbrev pub prepare : Chroot → M (Unit {0})
  prepare chroot s = answer (w.setup_answer s.history chroot) s

  -- fork(2) and `wait_for_child`, with the exit status of the scripts
  unfoldable pub run_scripts : Chroot → SetupType → M ℕ
  run_scripts chroot stage s =
      if w.fork_fails s.history
      then (throw (session_error child_fork), fail_chroot s)
      else let s' = log (setup_scripts chroot.name stage s.chroot_status) s in
        let waited = wait_for_child (w.waits s'.history) s' in
        finish_wait waited.thrown waited.status waited.state

  unfoldable pub release : Chroot → SetupType → ℕ → M (Unit {0})
  release chroot stage status =
      try_catch is_chroot_error (unlock_chroot chroot stage status)
        λ e. do modify fail_lock; raise (session_error chroot_unlock)

  -- A failed script fails the stage.
  unfoldable pub check_scripts : ℕ → M (Unit {0})
  check_scripts zero = done
  check_scripts (suc n) = do modify fail_chroot; raise (session_error chroot_setup)

  -- What follows the early returns.
  unfoldable pub perform : Chroot → SetupType → M (Unit {0})
  perform chroot stage = do
    modify (λ s. if is_start stage then record s { chroot_status = true } else s)
    acquire chroot stage
    prepare chroot
    status ← run_scripts chroot stage
    release chroot stage status
    check_scripts status

  -- The early returns: the stage is not one of the operation, a lock has failed before, or the
  -- chroot runs no setup scripts.
  unfoldable pub setup_chroot : Operation → Chroot → SetupType → M (Unit {0})
  setup_chroot operation chroot stage s =
      if is_empty chroot.name
      then (throw assertion, s)
      else if not (applies operation stage)
      then (ok tt, s)
      else if not s.lock_status
      then (ok tt, s)
      else if not chroot.run_setup_scripts
      then (ok tt, s)
      else perform chroot stage s
