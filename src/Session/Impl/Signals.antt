-- ===== src/Session/Impl/Signals.antt =====
-- What `run_impl` of sbuild/sbuild-session.cc leaves behind: signal handlers and exit status.
use schroot.Prelude.{
  ◌≡◌, ◌≢◌, refl, ◌∙◌, ◌⊎◌, inl, inr, Bool, true, false, ◌∷◌, arith, nat_eq, ◌==◌, is_empty,
  Bool-cases, if◌then◌else◌,
}
use schroot.Exception.{Exception, Result, ok, throw, is_session_error}
use schroot.Session.World.{
  clear_handler, set_handler, Signal, sighup, sigint, sigterm, Handlers, History, World,
}
use schroot.Session.Exec.{State, M, ◌>>◌, try_catch, handle, resume, raise, modify, log}
use schroot.Session.Exec.Spares.{resume-spared}
use schroot.Session.Impl.Spares.{run_entries-Spares}
use schroot.Session.Wait.{exit_failure}
use schroot.Session.Config.{Session}
use schroot.Session.Impl.{
  run_impl, set_handlers, set_signal_handler, clear_handlers, clear_signal_handler, run_entries,
}

-- The handlers of the three signals were restored, and nothing was done after that.
abbrev pub Cleared : History → Type 0
Cleared h =
    (rest : History) × (h
      ≡ clear_handler sighup ∷ clear_handler sigint ∷ clear_handler sigterm ∷ rest)

-- A return, or an error of the session.
abbrev pub handled : Result (Unit {0}) → Bool
handled (ok u) = true
handled (throw e) = is_session_error e

module _ (w : World) (session : Session) where
  -- sigaction(2) restores the handlers that it is given.
  abbrev pub Restores : Type 0
  Restores = (h : History) (signal : Signal) → w.restore_fails h signal ≡ false

  -- The handlers that a run which starts in `s` should leave: those that it found, for the signals
  -- whose handlers it could set before the first that it could not; and the values with which
  -- `session` was made for the others.
  abbrev pub left_handlers : State → Handlers
  left_handlers s =
      let h1 = set_handler sighup ∷ s.history in
      let h2 = set_handler sigint ∷ h1 in
      if w.sigaction_fails s.history sighup
      then s.saved_handlers
      else if w.sigaction_fails h1 sigint
      then record s.saved_handlers { on_sighup = s.handlers.on_sighup }
      else if w.sigaction_fails h2 sigterm
      then record s.handlers { on_sigterm = s.saved_handlers.on_sigterm }
      else s.handlers

  -- What all of this comes to, after a block that started in `s`.
  abbrev pub IsOrderly : State → Result (Unit {0}) × State → Type 0
  IsOrderly s r =
      Cleared r.1.history
      × (r.1.handlers ≡ left_handlers s)
      × ((r.0 ≡ ok tt) ⊎ (r.1.child_status ≢ 0))

  clear_handlers_lem :
      (s : State)
      → Restores
      → clear_handlers w session s ≡ (
        ok tt,
        record (log
            (clear_handler sighup)
            (log (clear_handler sigint) (log (clear_handler sigterm) s))) {
              handlers = s.saved_handlers;
            },
      )
  unfolding clear_handlers clear_signal_handler ◌>>◌
  clear_handlers_lem s works =
      rw
        (
          works s.history sigterm,
          works (clear_handler sigterm ∷ s.history) sigint,
          works (clear_handler sigint ∷ clear_handler sigterm ∷ s.history) sighup,
        )
        refl

  set_handlers-saved : (s : State) → (set_handlers w session s).1.saved_handlers ≡ left_handlers s
  unfolding set_handlers set_signal_handler ◌>>◌
  set_handlers-saved s = ground arith

  abbrev on_error : Exception → M (Unit {0})
  on_error e =
      clear_handlers w session
      >> (modify (λ s. if s.child_status == 0 then record s { child_status = exit_failure } else s)
          >> raise e)

  abbrev after_block : Result (Unit {0}) × State → Result (Unit {0}) × State
  after_block r = resume (λ _. clear_handlers w session) (handle is_session_error on_error r)

  after_block-IsOrderly :
      (s0 : State) (r : Result (Unit {0}) × State)
      → Restores
      → r.1.saved_handlers ≡ left_handlers s0
      → handled r.0 ≡ true
      → IsOrderly s0 (after_block r)
  unfolding ◌>>◌
  after_block-IsOrderly s0 (ok u, s) works saved h =
      rw (clear_handlers_lem s works) ((s.history, refl), saved, inl refl)
  after_block-IsOrderly s0 (throw e, s) works saved h =
      rw (h, clear_handlers_lem s works)
        ((s.history, ground arith), ground (arith, saved), inr (λ z. ground arith))

  after_block-unhandled : (r : Result (Unit {0}) × State) → handled r.0 ≡ false → after_block r ≡ r
  after_block-unhandled (ok u, s) h = cc
  after_block-unhandled (throw e, s) h = rw h

  IsOrderly-or_unhandled :
      (s0 : State) (r : Result (Unit {0}) × State)
      → Restores
      → r.1.saved_handlers ≡ left_handlers s0
      → handled (after_block r).0 ≡ true
      → IsOrderly s0 (after_block r)
  IsOrderly-or_unhandled s0 r works saved h = elim (Bool-cases (handled r.0)) [
    | inl known ↦ after_block-IsOrderly s0 r works saved known
    | inr unknown ↦ cc (unknown, rw (after_block-unhandled r unknown) at h)
  ]

  -- The chroots leave the saved handlers alone.
  block-saved :
      (s : State)
      → ((set_handlers w session >> run_entries w session session.chroots) s).1.saved_handlers
        ≡ left_handlers s
  unfolding ◌>>◌
  block-saved s =
      resume-spared (λ _. run_entries w session session.chroots) (set_handlers w session s)
        (λ _. run_entries-Spares w session session.chroots)
      ∙ set_handlers-saved s

  -- Where sigaction(2) restores what it is given, and `run_impl` returns or throws an error of the
  -- session, restoring the handlers of the three signals was the last thing done; an error leaves an
  -- exit status that is not 0; and the process has the handlers from before the call, if all three
  -- could be set. If one could not be set, it and those after it are what `session` had as saved
  -- ones before.
  pub run_impl-IsOrderly :
      (s : State)
      → Restores
      → handled (run_impl w session s).0 ≡ true
      → IsOrderly s (run_impl w session s)
  unfolding run_impl ◌>>◌ try_catch
  run_impl-IsOrderly s works h = elim (Bool-cases (is_empty session.chroots)) [
    | inl none_given ↦ cc (rw none_given at h)
    | inr given ↦ rw given (IsOrderly-or_unhandled s _ works (block-saved s) (rw given at h))
  ]
