-- ===== src/Session/Impl.antt =====
-- sbuild/sbuild-session.cc: `run_impl`, with the methods that it calls for each chroot.
pub mod Signals
pub mod Keeps
pub mod Spares
pub mod Stages
use schroot.Prelude.{
  ℕ, Bool, true, false, not, ◌&&◌, ◌||◌, Option, none, some, List, [], ◌∷◌, ◌++◌, Text, codes,
  nat_eq, ◌==◌, is_empty, if◌then◌else◌,
}
use schroot.Exception.{
  Exception, Result, ok, throw, session_error, other_error, assertion, chroot_notfound, child_fork,
  signal_set, is_session_error, is_runtime_error,
}
use schroot.Userdata.{set_user_data, set_root_data, UserdataCode, Userdata}
use schroot.Auth.Calls.{AuthCall, open_session, close_session}
use schroot.Session.Chroot.{Chroot, setup_start, setup_recover, setup_stop}
use schroot.Session.Access.{Membership, get_chroot_membership}
use schroot.Session.World.{
  Event, auth, run_command, set_handler, clear_handler, get_termios, set_termios, print_name,
  Signal, sighup, sigint, sigterm, World, session_handler, handler_of, with_handler,
}
use schroot.Session.Exec.{
  State, M, ◌>>=◌, ◌>>◌, pure, done, raise, lift, modify, try_catch, swallow, log, call,
}
use schroot.Session.Wait.{exit_failure, wait_for_child}
use schroot.Session.Clone.{clone_session, set_verbosity}
use schroot.Session.Setup.{
  Operation, automatic, begin, recover, end_session, run_session, setup_chroot, finish_wait,
}
use schroot.Session.Config.{ChrootListEntry, Session}

-- Login shell: `command.empty () || command[0].empty ()`
unfoldable pub is_login : List Text → Bool
is_login [] = true
is_login (c ∷ command) = is_empty c

-- OPERATION_AUTOMATIC or OPERATION_BEGIN
abbrev pub creates : Operation → Bool
creates automatic = true
creates begin = true
creates operation = false

-- OPERATION_AUTOMATIC or OPERATION_RUN
abbrev pub runs : Operation → Bool
runs automatic = true
runs run_session = true
runs operation = false

abbrev pub begins : Operation → Bool
begins begin = true
begins operation = false

abbrev pub finish_command : Option Exception → State → Result (Unit {0}) × State
finish_command none s = (ok tt, s)
finish_command (some e) s = (throw e, s)

module _ (w : World) (session : Session) where
  -- A method of `authstat`.
  abbrev pub auth_call : AuthCall → M (Unit {0})
  auth_call c = call (auth c) (λ h. w.auth_answer h c)

  unfoldable pub save_termios : M (Unit {0})
  save_termios s =
      let s' = record s { termios_ok = false } in
      if w.has_terminal && is_login session.authstat.command
      then (ok tt, record (log get_termios s') { termios_ok = not (w.tcgetattr_fails s.history) })
      else (ok tt, s')

  -- A failure is only logged.
  unfoldable pub restore_termios : M (Unit {0})
  restore_termios s =
      if w.has_terminal && is_login session.authstat.command && s.termios_ok
      then (ok tt, log set_termios s)
      else (ok tt, s)

  unfoldable pub set_signal_handler : Signal → M (Unit {0})
  set_signal_handler signal s =
      let s' = log (set_handler signal) s in
      if w.sigaction_fails s.history signal then (throw (session_error signal_set), s') else (
        ok tt,
        record s' {
          saved_handlers = with_handler signal (handler_of signal s.handlers) s.saved_handlers;
          handlers = with_handler signal (session_handler signal) s.handlers;
        },
      )

  -- A failure is ignored.
  unfoldable pub clear_signal_handler : Signal → M (Unit {0})
  clear_signal_handler signal s =
      let s' = log (clear_handler signal) s in
      if w.restore_fails s.history signal then (ok tt, s') else (
        ok tt,
        record s' {
          handlers = with_handler signal (handler_of signal s.saved_handlers) s.handlers;
        },
      )

  -- fork(2), and the wait for `run_child`, whose status is that of the session
  unfoldable pub run_chroot : Chroot → M (Unit {0})
  run_chroot chroot s =
      if is_empty chroot.name
      then (throw assertion, s)
      else if w.fork_fails s.history
      then (throw (session_error child_fork), s)
      else let s' = log (run_command chroot.name) s in
        let waited = wait_for_child (w.waits s'.history) s' in
        finish_command waited.thrown (record waited.state { child_status = waited.status })

  -- The name of a new session.
  unfoldable pub new_session_id : Chroot → State → Text
  new_session_id ch s =
      if not (is_empty session.session_id)
      then session.session_id
      else ch.name ++ (codes "-" ++ w.unique_identifier s.history)

  -- The clone that the session uses: of the chroot, or of a new session of it.
  unfoldable pub session_chroot : ChrootListEntry → M Chroot
  session_chroot entry s =
      let ch = entry.chroot in
      if ch.session_clonable
      then elim (get_chroot_membership w.groups session.authstat ch) [
        | throw e ↦ (throw e, s)
        | ok m ↦ (
          clone_session w.search session.mount_dir (new_session_id ch s) entry.alias
              session.authstat.ruser (m.in_root_users || m.in_root_groups) ch,
          s,
        )
      ]
      else (ok ch, s)

  unfoldable pub override_verbosity : Chroot → M Chroot
  override_verbosity chroot =
      lift
        (if is_empty session.verbosity then ok chroot else set_verbosity session.verbosity chroot)

  abbrev pub store_userdata : Chroot → Option UserdataCode × Userdata → Result Chroot
  store_userdata chroot (none, u) = ok (record chroot { userdata = some u })
  store_userdata chroot (some e, u) = throw other_error

  -- The user's options; those of root if either user is root.
  unfoldable pub set_options : Chroot → M Chroot
  set_options chroot = lift (elim chroot.userdata [
    | none ↦ ok chroot
    | some u ↦ store_userdata chroot (
        if session.authstat.uid == 0 || session.authstat.ruid == 0
        then set_root_data w.search session.user_options u
        else set_user_data w.search session.user_options u)
  ])

  -- The command in the chroot, within a session of `authstat`.
  unfoldable pub run_in_session : Chroot → M (Unit {0})
  run_in_session chroot = do
    try_catch is_runtime_error (do auth_call open_session; save_termios; run_chroot chroot)
        λ e. do restore_termios; auth_call close_session; raise e
    restore_termios
    auth_call close_session

  -- The setup stages around the command.
  unfoldable pub stages : Operation → Chroot → M (Unit {0})
  stages operation chroot = do
    try_catch is_session_error
        (do
          setup_chroot w operation chroot setup_start
          (if begins operation then call (print_name chroot.name) (λ h. none) else done)
          setup_chroot w operation chroot setup_recover
          (if runs operation then run_in_session chroot else done))
        λ e. do swallow is_session_error (setup_chroot w operation chroot setup_stop); raise e
    setup_chroot w operation chroot setup_stop

  unfoldable pub run_stages : Chroot → M (Unit {0})
  run_stages chroot = stages session.session_operation chroot

  -- One round of the loop over the chroots.
  unfoldable pub run_entry : ChrootListEntry → M (Unit {0})
  run_entry entry =
      if entry.chroot.session_clonable && not (creates session.session_operation)
      then raise (session_error chroot_notfound)
      else do
        clone ← session_chroot entry
        verbose_clone ← override_verbosity clone
        chroot ← set_options verbose_clone
        modify (λ s. record s { child_status = 0 })
        run_stages chroot

  unfoldable pub run_entries : List ChrootListEntry → M (Unit {0})
  run_entries [] = done
  run_entries (entry ∷ entries) = do run_entry entry; run_entries entries

  unfoldable pub set_handlers : M (Unit {0})
  set_handlers = do
    modify (λ s. record s { sighup_called = false })
    set_signal_handler sighup
    modify (λ s. record s { sigint_called = false })
    set_signal_handler sigint
    modify (λ s. record s { sigterm_called = false })
    set_signal_handler sigterm

  unfoldable pub clear_handlers : M (Unit {0})
  clear_handlers = do
    clear_signal_handler sigterm
    clear_signal_handler sigint
    clear_signal_handler sighup

  unfoldable pub run_impl : M (Unit {0})
  run_impl = if is_empty session.chroots then raise assertion else do
    try_catch is_session_error (do set_handlers; run_entries session.chroots)
        λ e. do
          clear_handlers
          modify (λ s. if s.child_status == 0 then record s { child_status = exit_failure } else s)
          raise e
    clear_handlers
