-- ===== src/Tests/Locks.antt =====
-- The theorems of the file locks at concrete inputs.
use schroot.Prelude.{◌≡◌, refl, true, false, some, nat_eq, ◌==◌, arith}
use schroot.Lock.{
  FileLock, new_file_lock, System, default, other, lock_none, lock_exclusive, set_lock,
  timeout_handler,
}
use schroot.Lock.Laws.{IsHeld, set_lock-IsHeld, set_lock-unsaved}

-- A new lock of a process that handles SIGALRM.
abbrev unlocked : FileLock
unlocked = new_file_lock (other 1) false lock_none 0

-- A file that another process has locked.
abbrev contended : System
contended = record {
  sigaction_fails = λ n. false;
  setitimer_fails = λ n. false;
  fcntl_fails = λ n. true;
  interrupted = λ n. true;
}

-- The first call fails.
abbrev first_fails : System
first_fails = record contended { sigaction_fails = λ n. n == 0 }

set_lock-IsHeld_example : IsHeld lock_exclusive (set_lock contended lock_exclusive 15 unlocked)
unfolding new_file_lock
set_lock-IsHeld_example = set_lock-IsHeld contended lock_exclusive 15 unlocked refl

set_lock-unsaved_example :
    ((set_lock first_fails lock_exclusive 15 unlocked).0 ≡ some timeout_handler)
    × ((set_lock first_fails lock_exclusive 15 unlocked).1.handler ≡ default)
unfolding new_file_lock
set_lock-unsaved_example =
    set_lock-unsaved first_fails lock_exclusive 15 unlocked refl (λ n e. ground (arith, e))
      (λ n. refl)
