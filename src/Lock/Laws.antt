-- ===== src/Lock/Laws.antt =====
-- What `file_lock::set_lock` of sbuild/sbuild-lock.cc leaves behind.
use schroot.Prelude.{ℕ, ◌≡◌, ◌≢◌, suc, true, false, none, some, nat_eq, arith}
use schroot.Lock.{
  LockType, FileLock, System, Outcome, is_lock, set_alarm, clear_alarm, start_timer, set_timer,
  unset_timer, call_fcntl, lock_body, set_lock, timeout_handler,
}

-- The flag of the lock tells whether the file is locked, and a call that returns has the lock that was
-- asked for.
abbrev pub IsHeld : LockType → Outcome → Type 0
IsHeld lock_type (none, s) = (s.locked ≡ is_lock s.held) × (s.held ≡ lock_type)
IsHeld lock_type (some e, s) = s.locked ≡ is_lock s.held

module _ (sys : System) (lock_type : LockType) (timeout : ℕ) (s : FileLock) where
  -- Where sigaction(2) and setitimer(2) succeed, `set_lock` leaves the handler of SIGALRM as it was
  -- and the timer stopped, whether it returns or throws.
  pub set_lock-restored :
      ((n : ℕ) → sys.sigaction_fails n ≡ false)
      → ((n : ℕ) → sys.setitimer_fails n ≡ false)
      → ((set_lock sys lock_type timeout s).1.handler ≡ s.handler)
        × ((set_lock sys lock_type timeout s).1.timer ≡ false)
  unfolding set_lock lock_body set_timer set_alarm start_timer call_fcntl unset_timer clear_alarm
  set_lock-restored a t = ground (
    arith,
    a (s.calls),
    a (suc s.calls),
    a (suc (suc s.calls)),
    a (suc (suc (suc s.calls))),
    a (suc (suc (suc (suc s.calls)))),
    a (suc (suc (suc (suc (suc s.calls))))),
    t (s.calls),
    t (suc s.calls),
    t (suc (suc s.calls)),
    t (suc (suc (suc s.calls))),
    t (suc (suc (suc (suc s.calls)))),
    t (suc (suc (suc (suc (suc s.calls))))),
  )

  -- Whatever fails, `locked` tells whether the file is locked, if it did before, and where `set_lock`
  -- returns the file has the lock that was asked for.
  pub set_lock-IsHeld :
      s.locked ≡ is_lock s.held → IsHeld lock_type (set_lock sys lock_type timeout s)
  unfolding set_lock lock_body set_timer set_alarm start_timer call_fcntl unset_timer clear_alarm
  set_lock-IsHeld h = ground (arith, h)

  -- Where the first sigaction(2) fails and the others do not, and setitimer(2) does not, `set_lock`
  -- throws, and the handler is replaced by what an earlier call has saved.
  pub set_lock-unsaved :
      sys.sigaction_fails s.calls ≡ true
      → ((n : ℕ) → s.calls ≢ n → sys.sigaction_fails n ≡ false)
      → ((n : ℕ) → sys.setitimer_fails n ≡ false)
      → ((set_lock sys lock_type timeout s).0 ≡ some timeout_handler)
        × ((set_lock sys lock_type timeout s).1.handler ≡ s.saved_signals)
  unfolding set_lock lock_body set_timer set_alarm start_timer call_fcntl unset_timer clear_alarm
  set_lock-unsaved f a t = ground (arith, f, a (suc (suc s.calls)), t (suc s.calls), f)
