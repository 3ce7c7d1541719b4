-- ===== src/Session/Impl/Keeps.antt =====
-- What the command of a session (`run_impl` of sbuild/sbuild-session.cc) leaves of its statuses.
use schroot.Prelude.{
  ◌≡◌, refl, ap, subst, inl, inr, Option, none, some, arith, Bool-cases, is_empty,
}
use schroot.Exception.{Exception, Result, ok, is_runtime_error}
use schroot.Auth.Calls.{AuthCall, close_session}
use schroot.Session.Chroot.{Chroot}
use schroot.Session.World.{World, run_command, auth}
use schroot.Session.Exec.{State, ◌>>◌, raise, log}
use schroot.Session.Exec.Laws.{raise-returns, >>-ok, call-ok, try_catch-returns}
use schroot.Session.Wait.{wait_for_child}
use schroot.Session.Wait.Laws.{wait_for_child-IsNormal}
use schroot.Session.Config.{Session}
use schroot.Session.Impl.{
  finish_command, auth_call, save_termios, restore_termios, run_chroot, run_in_session,
}

-- The statuses of a session that its scripts set.
abbrev pub Keeps : State → State → Type 0
Keeps s s' = (s'.chroot_status ≡ s.chroot_status) × (s'.lock_status ≡ s.lock_status)

module _ (w : World) (session : Session) where
  save_termios-Keeps : (s s' : State) → save_termios w session s ≡ (ok tt, s') → Keeps s s'
  unfolding save_termios
  save_termios-Keeps s s' h = ground arith

  restore_termios-Keeps : (s s' : State) → restore_termios w session s ≡ (ok tt, s') → Keeps s s'
  unfolding restore_termios
  restore_termios-Keeps s s' h = ground arith

  auth_call-Keeps :
      (c : AuthCall) (s s' : State) → auth_call w session c s ≡ (ok tt, s') → Keeps s s'
  auth_call-Keeps c s s' h = ground (arith, call-ok (auth c) (λ k. w.auth_answer k c) s s' h)

  pub finish_command-ok :
      (thrown : Option Exception) (t s' : State)
      → finish_command thrown t ≡ (ok tt, s')
      → (thrown ≡ none) × (t ≡ s')
  finish_command-ok none t s' h = (refl, ap (λ (r : Result (Unit {0}) × State). r.1) h)
  finish_command-ok (some e) t s' h = cc

  run_chroot-Keeps :
      (chroot : Chroot) (s s' : State) → run_chroot w session chroot s ≡ (ok tt, s') → Keeps s s'
  unfolding run_chroot
  run_chroot-Keeps chroot s s' h = elim (Bool-cases (is_empty chroot.name)) [
    | inl nameless ↦ cc (rw nameless at h)
    | inr named ↦ elim (Bool-cases (w.fork_fails s.history)) [
      | inl fails ↦ cc (rw (named, fails) at h)
      | inr forks ↦
          let t = log (run_command chroot.name) s in
          let waited = wait_for_child (w.waits t.history) t in
          let (quiet, same) = finish_command-ok waited.thrown _ s' (rw (named, forks) at h) in
          let (normal, _) = wait_for_child-IsNormal (w.waits t.history) t quiet in
          subst (Keeps s) same (normal.chroot_status, normal.lock_status)
    ]
  ]

  -- The handler of `run_in_session` throws again.
  cleanup-returns :
      (e : Exception) (s s' : State) (u : Unit {0})
      → (restore_termios w session >> (auth_call w session close_session >> raise e)) s ≡ (ok u, s')
      → ⊥
  cleanup-returns e s s' u h =
      let (_, mid, first, last) = >>-ok _ _ s s' u h in
      raise-returns (auth_call w session close_session) e mid s' u last

  pub run_in_session-Keeps :
      (chroot : Chroot) (s s' : State)
      → run_in_session w session chroot s ≡ (ok tt, s')
      → Keeps s s'
  unfolding run_in_session
  run_in_session-Keeps chroot s s' h =
      let (_, s1, tried, k1) = >>-ok _ _ s s' tt h in
      let (_, s2, restored, closed) = >>-ok _ _ s1 s' tt k1 in
      let block = try_catch-returns is_runtime_error _ cleanup-returns _ s s1 tt tried in
      let (_, t1, opened, k2) = >>-ok _ _ s s1 tt block in
      let (_, t2, saved, ran) = >>-ok _ _ t1 s1 tt k2 in
      ground (
        arith,
        auth_call-Keeps _ s t1 opened,
        save_termios-Keeps t1 t2 saved,
        run_chroot-Keeps chroot t2 s1 ran,
        restore_termios-Keeps s1 s2 restored,
        auth_call-Keeps _ s2 s' closed,
      )
