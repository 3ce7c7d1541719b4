-- ===== src/Lock.antt =====
-- sbuild/sbuild-lock.{h,cc}: `lock` and `file_lock`. The state is that of the lock and, of the
-- process, the handler of SIGALRM, the timer and the lock of the file.
pub mod Laws
use schroot.Prelude.{
  ℕ, suc, Bool, true, false, not, Option, none, some, nat_eq, ◌==◌, if◌then◌else◌,
}

-- `lock::type`
pub data LockType : Type 0 where
  lock_shared lock_exclusive lock_none : LockType

-- `lock::error_code`, of the errors of files
pub data LockCode : Type 0 where
  timeout_handler timeout_set timeout_cancel lock_error unlock_error lock_timeout unlock_timeout :
      LockCode

pub data Handler : Type 0 where
  -- SIG_DFL, which the constructor's empty `saved_signals` stands for
  default : Handler
  alarm_handler : Handler
  other : ℕ → Handler

pub record FileLock : Type 0 where
  pub saved_signals : Handler
  pub locked : Bool
  -- what the process has
  pub handler : Handler
  pub timer : Bool
  pub held : LockType
  -- how many calls were made
  pub calls : ℕ

-- The constructors, in a process with this handler, timer and lock.
unfoldable pub new_file_lock : Handler → Bool → LockType → ℕ → FileLock
new_file_lock handler timer held calls = record {
  saved_signals = default;
  locked = false;
  handler = handler;
  timer = timer;
  held = held;
  calls = calls;
}

-- Which calls fail, by their number, and whether fcntl(2) fails with EINTR.
pub record System : Type 0 where
  pub sigaction_fails : ℕ → Bool
  pub setitimer_fails : ℕ → Bool
  pub fcntl_fails : ℕ → Bool
  pub interrupted : ℕ → Bool

-- What was thrown, and the state.
abbrev pub Outcome : Type 0
Outcome = Option LockCode × FileLock

abbrev pub called : FileLock → FileLock
called s = record s { calls = suc s.calls }

abbrev pub is_lock : LockType → Bool
is_lock lock_shared = true
is_lock lock_exclusive = true
is_lock lock_none = false

abbrev pub and_then : (FileLock → Outcome) → Outcome → Outcome
and_then next (none, s) = next s
and_then next (some e, s) = (some e, s)

module _ (sys : System) where
  unfoldable pub set_alarm : FileLock → Outcome
  set_alarm s =
      if sys.sigaction_fails s.calls
      then (some timeout_handler, called s)
      else (none, record (called s) { saved_signals = s.handler; handler = alarm_handler })

  -- The result of sigaction(2) is ignored.
  unfoldable pub clear_alarm : FileLock → FileLock
  clear_alarm s =
      if sys.sigaction_fails s.calls
      then called s
      else record (called s) { handler = s.saved_signals }

  -- setitimer(2) with a time of 0 stops the timer.
  unfoldable pub start_timer : ℕ → FileLock → Outcome
  start_timer timeout s =
      if sys.setitimer_fails s.calls
      then (some timeout_set, clear_alarm (called s))
      else (none, record (called s) { timer = not (timeout == 0) })

  unfoldable pub set_timer : ℕ → FileLock → Outcome
  set_timer timeout s = and_then (start_timer timeout) (set_alarm s)

  unfoldable pub unset_timer : FileLock → Outcome
  unset_timer s =
      if sys.setitimer_fails s.calls
      then (some timeout_cancel, clear_alarm (called s))
      else (none, clear_alarm (record (called s) { timer = false }))

  -- The errors of fcntl(2).
  abbrev pub refusal : LockType → FileLock → LockCode
  refusal lock_type s =
      if sys.interrupted s.calls
      then (if is_lock lock_type then lock_timeout else unlock_timeout)
      else (if is_lock lock_type then lock_error else unlock_error)

  unfoldable pub call_fcntl : LockType → FileLock → Outcome
  call_fcntl lock_type s =
      if sys.fcntl_fails s.calls
      then (some (refusal lock_type s), called s)
      else (none, record (called s) { held = lock_type; locked = is_lock lock_type })

  -- The `try` block.
  unfoldable pub lock_body : LockType → ℕ → FileLock → Outcome
  lock_body lock_type timeout s =
      and_then unset_timer (and_then (call_fcntl lock_type) (set_timer timeout s))

  -- An error that is caught is thrown again, unless stopping the timer throws.
  abbrev pub rethrow : LockCode → Outcome → Outcome
  rethrow e (none, s) = (some e, s)
  rethrow e (some thrown, s) = (some thrown, s)

  abbrev pub on_error : Outcome → Outcome
  on_error (none, s) = (none, s)
  on_error (some e, s) = rethrow e (unset_timer s)

  unfoldable pub set_lock : LockType → ℕ → FileLock → Outcome
  set_lock lock_type timeout s = on_error (lock_body lock_type timeout s)

  unfoldable pub unset_lock : FileLock → Outcome
  unset_lock s = set_lock lock_none 0 s

  -- The destructor releases a lock that is held; the error is only logged.
  unfoldable pub release_lock : FileLock → FileLock
  release_lock s =
      if s.locked
      then (if sys.fcntl_fails s.calls then called s else record (called s) { held = lock_none })
      else s
