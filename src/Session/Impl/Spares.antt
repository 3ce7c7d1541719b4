-- ===== src/Session/Impl/Spares.antt =====
-- The chroots of a session (the loop of `run_impl` of sbuild/sbuild-session.cc) leave the saved
-- signal handlers alone.
use schroot.Prelude.{
  ◌≡◌, refl, ◌∙◌, Bool, true, false, Option, none, some, List, [], ◌∷◌, zero, suc, ℕ, arith,
  if◌then◌else◌,
}
use schroot.Exception.{
  Exception, session_error, chroot_lock, chroot_unlock, chroot_setup, chroot_notfound,
  is_session_error, is_runtime_error, is_chroot_error,
}
use schroot.Session.Chroot.{Chroot, SetupType, setup_start, setup_recover, setup_stop}
use schroot.Session.World.{
  setup_scripts, run_command, print_name, Arrivals, Waits, WaitStatus, wait_failed, exited,
  signalled, dumped_core, abnormal, World,
}
use schroot.Session.Exec.{State, M, log, done, raise, modify}
use schroot.Session.Exec.Spares.{
  Spares, >>=-Spares, >>-Spares, try_catch-Spares, swallow-Spares, answer-Spares, call-Spares,
}
use schroot.Session.Wait.{arrive, pass_signal, returned, wait_loop, wait_for_child}
use schroot.Session.Setup.{
  Operation, is_start, fail_lock, fail_chroot, acquire, run_scripts, release, check_scripts,
  perform, setup_chroot, finish_wait,
}
use schroot.Session.Config.{ChrootListEntry, Session}
use schroot.Session.Impl.{
  begins, runs, finish_command, save_termios, restore_termios, run_chroot, session_chroot,
  override_verbosity, set_options, run_in_session, stages, run_stages, run_entry, run_entries,
}

pass_signal-spared :
    (killed : Bool) (s : State) → (pass_signal killed s).0.saved_handlers ≡ s.saved_handlers
unfolding pass_signal
pass_signal-spared killed s = ground arith

returned-spared :
    (status : WaitStatus) (s : State) → (returned status s).state.saved_handlers ≡ s.saved_handlers
unfolding returned
returned-spared wait_failed s = refl
returned-spared (exited n) s = ground arith
returned-spared signalled s = ground arith
returned-spared dumped_core s = ground arith
returned-spared abnormal s = ground arith

wait_loop-spared :
    (interrupts : List Arrivals) (a : Arrivals) (status : WaitStatus) (killed : Bool) (s : State)
    → (wait_loop interrupts a status killed s).state.saved_handlers ≡ s.saved_handlers
unfolding wait_loop
wait_loop-spared [] a status killed s =
    returned-spared status (arrive a (pass_signal killed s).0) ∙ pass_signal-spared killed s
wait_loop-spared (b ∷ interrupts) a status killed s =
    let passed = pass_signal killed s in
    let s' = arrive b passed.0 in
    ground (arith, wait_loop-spared interrupts a status passed.1 s', pass_signal-spared killed s)

wait_for_child-spared :
    (waits : Waits) (s : State) → (wait_for_child waits s).state.saved_handlers ≡ s.saved_handlers
unfolding wait_for_child
wait_for_child-spared waits s =
    wait_loop-spared waits.interrupts waits.arrivals waits.status false s

finish_wait-spared :
    (o : Option Exception) (n : ℕ) (s : State)
    → (finish_wait o n s).1.saved_handlers ≡ s.saved_handlers
finish_wait-spared none n s = refl
finish_wait-spared (some e) n s = refl

finish_command-spared :
    (o : Option Exception) (s : State) → (finish_command o s).1.saved_handlers ≡ s.saved_handlers
finish_command-spared none s = refl
finish_command-spared (some e) s = refl

-- What does nothing to the saved handlers at once.
at_once {ℓ} :
    {A : Type ℓ} (m : M A) → ((s : State) → (m s).1.saved_handlers ≡ s.saved_handlers) → Spares m
at_once m h = record { spared = h }

check_scripts-Spares : (w : World) (n : ℕ) → Spares (check_scripts w n)
unfolding check_scripts
check_scripts-Spares w zero = at_once done (λ s. refl)
check_scripts-Spares w (suc n) =
    >>-Spares _ _ (at_once (modify fail_chroot) (λ s. refl))
      (at_once (raise (session_error chroot_setup)) (λ s. refl))

module _ (w : World) where
  acquire-Spares : (chroot : Chroot) (stage : SetupType) → Spares (acquire w chroot stage)
  unfolding acquire
  acquire-Spares chroot stage = try_catch-Spares is_chroot_error _ _ (call-Spares _ _) λ e.
      >>-Spares _ _ (at_once (modify fail_lock) (λ s. refl)) (
        >>-Spares _ _ (swallow-Spares is_chroot_error _ (call-Spares _ _))
          (at_once (raise (session_error chroot_lock)) (λ s. refl)))

  run_scripts-Spares : (chroot : Chroot) (stage : SetupType) → Spares (run_scripts w chroot stage)
  unfolding run_scripts
  run_scripts-Spares chroot stage = record {
    spared = λ s.
        let s' = log (setup_scripts chroot.name stage s.chroot_status) s in
        let waited = wait_for_child (w.waits s'.history) s' in
        ground (
          arith,
          finish_wait-spared waited.thrown waited.status waited.state,
          wait_for_child-spared (w.waits s'.history) s',
        );
  }

  release-Spares : (chroot : Chroot) (stage : SetupType) (n : ℕ) → Spares (release w chroot stage n)
  unfolding release
  release-Spares chroot stage n = try_catch-Spares is_chroot_error _ _ (call-Spares _ _) (λ e.
      >>-Spares _ _ (at_once (modify fail_lock) (λ s. refl))
        (at_once (raise (session_error chroot_unlock)) (λ s. refl)))

  perform-Spares : (chroot : Chroot) (stage : SetupType) → Spares (perform w chroot stage)
  unfolding perform
  perform-Spares chroot stage =
      >>-Spares _ _
        (at_once (modify (λ s. if is_start stage then record s { chroot_status = true } else s))
          (λ s. ground arith))
        (>>-Spares _ _ (acquire-Spares chroot stage) (
          >>-Spares _ _ (answer-Spares (λ s. w.setup_answer s.history chroot)) (
            >>=-Spares _ _ (run_scripts-Spares chroot stage) (λ status.
              >>-Spares _ _ (release-Spares chroot stage status) (check_scripts-Spares w status)))))

  setup_chroot-Spares :
      (op : Operation) (chroot : Chroot) (stage : SetupType)
      → Spares (setup_chroot w op chroot stage)
  unfolding setup_chroot
  setup_chroot-Spares op chroot stage = record {
    spared = λ s. ground (arith, (perform-Spares chroot stage).spared s);
  }

if-Spares : (b : Bool) (m n : M (Unit {0})) → Spares m → Spares n → Spares (if b then m else n)
if-Spares true m n a c = a
if-Spares false m n a c = c

module _ (w : World) (session : Session) where
  run_chroot-Spares : (chroot : Chroot) → Spares (run_chroot w session chroot)
  unfolding run_chroot
  run_chroot-Spares chroot = record {
    spared = λ s.
        let s' = log (run_command chroot.name) s in
        let waited = wait_for_child (w.waits s'.history) s' in
        ground (
          arith,
          finish_command-spared waited.thrown
              (record waited.state { child_status = waited.status }),
          wait_for_child-spared (w.waits s'.history) s',
        );
  }

  save_termios-Spares : Spares (save_termios w session)
  unfolding save_termios
  save_termios-Spares = record { spared = λ s. ground arith }

  restore_termios-Spares : Spares (restore_termios w session)
  unfolding restore_termios
  restore_termios-Spares = record { spared = λ s. ground arith }

  run_in_session-Spares : (chroot : Chroot) → Spares (run_in_session w session chroot)
  unfolding run_in_session
  run_in_session-Spares chroot =
      >>-Spares _ _
        (try_catch-Spares is_runtime_error _ _
          (>>-Spares _ _ (call-Spares _ _)
            (>>-Spares _ _ save_termios-Spares (run_chroot-Spares chroot)))
          (λ e.
            >>-Spares _ _ restore_termios-Spares
              (>>-Spares _ _ (call-Spares _ _) (at_once (raise e) (λ s. refl)))))
        (>>-Spares _ _ restore_termios-Spares (call-Spares _ _))

  stages-Spares : (op : Operation) (chroot : Chroot) → Spares (stages w session op chroot)
  unfolding stages
  stages-Spares op chroot =
      >>-Spares _ _
        (try_catch-Spares is_session_error _ _
          (>>-Spares _ _ (setup_chroot-Spares w op chroot setup_start) (
            >>-Spares _ _
              (if-Spares (begins op) _ _ (call-Spares (print_name chroot.name) (λ h. none))
                (at_once done (λ s. refl)))
              (>>-Spares _ _ (setup_chroot-Spares w op chroot setup_recover) (
                if-Spares (runs op) _ _ (run_in_session-Spares chroot)
                  (at_once done (λ s. refl))))))
          (λ e.
            >>-Spares _ _
              (swallow-Spares is_session_error _ (setup_chroot-Spares w op chroot setup_stop))
              (at_once (raise e) (λ s. refl))))
        (setup_chroot-Spares w op chroot setup_stop)

  session_chroot-Spares : (entry : ChrootListEntry) → Spares (session_chroot w session entry)
  unfolding session_chroot
  session_chroot-Spares entry = record { spared = λ s. ground arith }

  override_verbosity-Spares : (chroot : Chroot) → Spares (override_verbosity w session chroot)
  unfolding override_verbosity
  override_verbosity-Spares chroot = at_once (override_verbosity w session chroot) (λ s. refl)

  set_options-Spares : (chroot : Chroot) → Spares (set_options w session chroot)
  unfolding set_options
  set_options-Spares chroot = at_once (set_options w session chroot) (λ s. refl)

  run_entry-Spares : (entry : ChrootListEntry) → Spares (run_entry w session entry)
  unfolding run_entry run_stages
  run_entry-Spares entry =
      if-Spares _ _ _ (at_once (raise (session_error chroot_notfound)) (λ s. refl)) (
        >>=-Spares _ _ (session_chroot-Spares entry) (λ clone.
          >>=-Spares _ _ (override_verbosity-Spares clone) (λ verbose_clone.
            >>=-Spares _ _ (set_options-Spares verbose_clone) (λ chroot.
              >>-Spares _ _ (at_once (modify (λ s. record s { child_status = 0 })) (λ s. refl))
                (stages-Spares session.session_operation chroot)))))

  pub run_entries-Spares : (entries : List ChrootListEntry) → Spares (run_entries w session entries)
  unfolding run_entries
  run_entries-Spares [] = at_once _ (λ s. refl)
  run_entries-Spares (entry ∷ entries) =
      >>-Spares _ _ (run_entry-Spares entry) (run_entries-Spares entries)
