-- ===== src/Session/Impl/Stages.antt =====
-- The order of the stages in `run_impl` of sbuild/sbuild-session.cc.
use schroot.Prelude.{
  ◌≡◌, refl, ap, sym, ◌∙◌, subst, inl, inr, true, false, none, some, arith, Bool-cases, is_empty,
}
use schroot.Exception.{Exception, Result, ok, throw, is_session_error, is_runtime_error}
use schroot.Auth.Calls.{open_session, close_session}
use schroot.Session.Chroot.{Chroot, SetupType, setup_start, setup_recover, setup_stop}
use schroot.Session.World.{World, History, auth}
use schroot.Session.Exec.{State, ◌>>◌, try_catch, log}
use schroot.Session.Exec.Laws.{>>-ok, try_catch-ok}
use schroot.Session.Setup.{automatic, applies, setup_chroot}
use schroot.Session.Setup.Laws.{Performed, given_status, setup_chroot-ok}
use schroot.Session.Config.{Session}
use schroot.Session.Impl.{restore_termios, run_in_session, stages, run_stages}
use schroot.Session.Impl.Keeps.{run_in_session-Keeps}

module _ (w : World) (session : Session) where
  -- A stage that applies and returns.
  stage-Performed :
      (chroot : Chroot) (stage : SetupType) (s s' : State)
      → applies automatic stage ≡ true
      → s.lock_status ≡ true
      → chroot.run_setup_scripts ≡ true
      → setup_chroot w automatic chroot stage s ≡ (ok tt, s')
      → Performed chroot stage (given_status w chroot stage s) s s'
  stage-Performed chroot stage s s' a l r h =
      ground (arith, a, l, r, setup_chroot-ok w chroot stage automatic s s' h)

  -- A stage that does not apply.
  stage-skipped :
      (chroot : Chroot) (stage : SetupType) (s s' : State)
      → applies automatic stage ≡ false
      → setup_chroot w automatic chroot stage s ≡ (ok tt, s')
      → s' ≡ s
  stage-skipped chroot stage s s' a h =
      ground (arith, a, setup_chroot-ok w chroot stage automatic s s' h)

  stages-ok :
      (chroot : Chroot) (s s' : State)
      → s.lock_status ≡ true
      → chroot.run_setup_scripts ≡ true
      → stages w session automatic chroot s ≡ (ok tt, s')
      → (s1 : State) × (s2 : State) × Performed chroot setup_start true s s1
        × (run_in_session w session chroot s1 ≡ (ok tt, s2))
        × Performed chroot setup_stop true s2 s'
  unfolding stages applies
  stages-ok chroot s s' l r h =
      let (_, mid, tried, stopped) = >>-ok _ _ s s' tt h in
      let block = try_catch-ok is_session_error _ _ s mid tt tried in
      let (_, s1, started, k1) = >>-ok _ _ s mid tt block in
      let (_, s2, printed, k2) = >>-ok _ _ s1 mid tt k1 in
      let (_, s3, recovered, ran) = >>-ok _ _ s2 mid tt k2 in
      let start = stage-Performed chroot setup_start s s1 refl l r started in
      let (_, start_status, start_lock) = start in
      let same2 : s2 ≡ s1 = sym (ap (λ (r : Result (Unit {0}) × State). r.1) printed) in
      let same3 : s3 ≡ s2 = stage-skipped chroot setup_recover s2 s3 refl recovered in
      let ran' =
        subst (λ t. run_in_session w session chroot t ≡ (ok tt, mid)) (same3 ∙ same2) ran in
      let (status, lock_status) = run_in_session-Keeps w session chroot s1 mid ran' in
      let stop =
        stage-Performed chroot setup_stop mid s' refl (lock_status ∙ start_lock ∙ l) r stopped in
      (
        s1,
        mid,
        start,
        ran',
        subst (λ b. Performed chroot setup_stop b mid s') (status ∙ start_status) stop,
      )

  -- An automatic session of a chroot that runs setup scripts, where no lock has failed: if its stages
  -- return, the scripts of the start ran between the lock and the unlock of the chroot; then the
  -- command ran; and last the scripts of the stop ran between a lock and an unlock, with the status
  -- that the start left, which is true.
  pub run_stages-ok :
      (chroot : Chroot) (s s' : State)
      → session.session_operation ≡ automatic
      → s.lock_status ≡ true
      → chroot.run_setup_scripts ≡ true
      → run_stages w session chroot s ≡ (ok tt, s')
      → (s1 : State) × (s2 : State) × Performed chroot setup_start true s s1
        × (run_in_session w session chroot s1 ≡ (ok tt, s2))
        × Performed chroot setup_stop true s2 s'
  unfolding run_stages
  run_stages-ok chroot s s' op l r h =
      stages-ok chroot s s' l r (ap (λ o. stages w session o chroot s) (sym op) ∙ h)

  restore_termios-returns : (s : State) → (restore_termios w session s).0 ≡ ok tt
  unfolding restore_termios
  restore_termios-returns s = ground arith

  -- The state after a refused `open_session` and its handler.
  abbrev pub refused_state : State → State
  refused_state s =
      log (auth close_session) (restore_termios w session (log (auth open_session) s)).1

  run_in_session-refused :
      (chroot : Chroot) (s : State) (e : Exception)
      → w.auth_answer s.history open_session ≡ some e
      → is_runtime_error e ≡ true
      → ((h : History) → w.auth_answer h close_session ≡ none)
      → run_in_session w session chroot s ≡ (throw e, refused_state s)
  unfolding run_in_session ◌>>◌ try_catch
  run_in_session-refused chroot s e refused runtime closes =
      rw (refused, runtime, restore_termios-returns (log (auth open_session) s), closes) refl

  recover-skipped :
      (chroot : Chroot) (s s1 : State)
      → setup_chroot w automatic chroot setup_start s ≡ (ok tt, s1)
      → setup_chroot w automatic chroot setup_recover s1 ≡ (ok tt, s1)
  unfolding setup_chroot applies
  recover-skipped chroot s s1 h = elim (Bool-cases (is_empty chroot.name)) [
    | inl nameless ↦ cc (rw nameless at h)
    | inr named ↦ rw named refl
  ]

  stages-refused :
      (chroot : Chroot) (s s1 : State) (e : Exception)
      → setup_chroot w automatic chroot setup_start s ≡ (ok tt, s1)
      → run_in_session w session chroot s1 ≡ (throw e, refused_state s1)
      → is_session_error e ≡ false
      → stages w session automatic chroot s ≡ (throw e, refused_state s1)
  unfolding stages ◌>>◌ try_catch
  stages-refused chroot s s1 e start refused other =
      rw (start, recover-skipped chroot s s1 start, refused, other) refl

  -- An automatic session whose start stage returned, but whose `open_session` is refused with a
  -- runtime error that is no `session::error`, as an `auth::error` is: if `close_session` returns,
  -- that error leaves the stages, and after the start nothing has been called but `open_session`, the
  -- reset of the terminal and `close_session`. The stop stage is not run.
  pub run_stages-refused :
      (chroot : Chroot) (s s1 : State) (e : Exception)
      → session.session_operation ≡ automatic
      → setup_chroot w automatic chroot setup_start s ≡ (ok tt, s1)
      → w.auth_answer s1.history open_session ≡ some e
      → is_runtime_error e ≡ true
      → is_session_error e ≡ false
      → ((h : History) → w.auth_answer h close_session ≡ none)
      → run_stages w session chroot s ≡ (throw e, refused_state s1)
  unfolding run_stages
  run_stages-refused chroot s s1 e op start refused runtime other closes =
      ap (λ o. stages w session o chroot s) op
      ∙ stages-refused chroot s s1 e start
          (run_in_session-refused chroot s1 e refused runtime closes) other
