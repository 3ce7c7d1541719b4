-- ===== src/Session/Setup/Laws.antt =====
-- What `setup_chroot` of sbuild/sbuild-session.cc does where it returns, and where it does nothing.
use schroot.Prelude.{
  ℕ, zero, suc, ◌≡◌, refl, ap, sym, subst, ◌⊎◌, inl, inr, Bool, true, false, ◌&&◌, Option, none,
  some, ◌∷◌, arith, Bool-cases, if◌then◌else◌,
}
use schroot.Exception.{Exception, Result, ok}
use schroot.Session.Chroot.{Chroot, SetupType}
use schroot.Session.World.{lock, unlock, setup_scripts, World}
use schroot.Session.Exec.{State, ◌>>◌, try_catch, swallow, log}
use schroot.Session.Exec.Laws.{>>=-ok, >>-ok}
use schroot.Session.Wait.{wait_for_child}
use schroot.Session.Wait.Laws.{wait_for_child-IsNormal}
use schroot.Session.Setup.{
  Operation, applies, is_start, acquire, prepare, run_scripts, release, check_scripts, perform,
  setup_chroot, finish_wait,
}

-- The events of a stage that went well: the lock, the scripts with the status they are given, and
-- the unlock after they exited with 0.
abbrev pub Performed : Chroot → SetupType → Bool → State → State → Type 0
Performed chroot stage status s s' =
    (s'.history
      ≡ unlock chroot.name stage 0
        ∷ setup_scripts chroot.name stage status
        ∷ lock chroot.name stage
        ∷ s.history)
    × (s'.chroot_status ≡ status)
    × (s'.lock_status ≡ s.lock_status)

module _ (w : World) (chroot : Chroot) (stage : SetupType) where
  acquire-ok :
      (s s' : State) → acquire w chroot stage s ≡ (ok tt, s') → s' ≡ log (lock chroot.name stage) s
  unfolding acquire try_catch ◌>>◌ swallow
  acquire-ok s s' h = ground arith

  release-ok :
      (status : ℕ) (s s' : State)
      → release w chroot stage status s ≡ (ok tt, s')
      → s' ≡ log (unlock chroot.name stage status) s
  unfolding release try_catch ◌>>◌
  release-ok status s s' h = ground arith

  prepare-ok : (s s' : State) → prepare w chroot s ≡ (ok tt, s') → s' ≡ s
  prepare-ok s s' h = ground arith

  check_scripts-ok :
      (status : ℕ) (s s' : State) → check_scripts w status s ≡ (ok tt, s') → (status ≡ 0) × (s' ≡ s)
  unfolding check_scripts ◌>>◌
  check_scripts-ok zero s s' h = ground arith
  check_scripts-ok (suc n) s s' h = cc

  finish_wait-ok :
      (thrown : Option Exception) (code status : ℕ) (t s' : State)
      → finish_wait thrown code t ≡ (ok status, s')
      → (thrown ≡ none) × (t ≡ s')
  finish_wait-ok none code status t s' h = (refl, ap (λ (r : Result ℕ × State). r.1) h)
  finish_wait-ok (some e) code status t s' h = cc

  run_scripts-ok :
      (s s' : State) (status : ℕ)
      → run_scripts w chroot stage s ≡ (ok status, s')
      → (s'.history ≡ setup_scripts chroot.name stage s.chroot_status ∷ s.history)
        × (s'.chroot_status ≡ s.chroot_status)
        × (s'.lock_status ≡ s.lock_status)
  unfolding run_scripts
  run_scripts-ok s s' status h = elim (Bool-cases (w.fork_fails s.history)) [
    | inl fails ↦ cc (rw fails at h)
    | inr forks ↦
        let t = log (setup_scripts chroot.name stage s.chroot_status) s in
        let waited = wait_for_child (w.waits t.history) t in
        let (quiet, same) =
          finish_wait-ok waited.thrown waited.status status waited.state s' (rw forks at h) in
        let (normal, _) = wait_for_child-IsNormal (w.waits t.history) t quiet in
        subst
          (λ (r : State).
            (r.history ≡ setup_scripts chroot.name stage s.chroot_status ∷ s.history)
            × (r.chroot_status ≡ s.chroot_status)
            × (r.lock_status ≡ s.lock_status))
          same (normal.history, normal.chroot_status, normal.lock_status)
  ]

  -- The status that the scripts are given.
  abbrev pub given_status : State → Bool
  given_status s = if is_start stage then true else s.chroot_status

  stages-ok :
      (s s1 s2 s3 s4 s5 s' : State) (status : ℕ)
      → s1 ≡ (if is_start stage then record s { chroot_status = true } else s)
      → s2 ≡ log (lock chroot.name stage) s1
      → s3 ≡ s2
      → (s4.history ≡ setup_scripts chroot.name stage s3.chroot_status ∷ s3.history)
        × (s4.chroot_status ≡ s3.chroot_status)
        × (s4.lock_status ≡ s3.lock_status)
      → s5 ≡ log (unlock chroot.name stage status) s4
      → (status ≡ 0) × (s' ≡ s5)
      → Performed chroot stage (given_status s) s s'
  stages-ok s s1 s2 s3 s4 s5 s' status e1 e2 e3 e4 e5 e6 = ground arith

  perform-ok :
      (s s' : State)
      → perform w chroot stage s ≡ (ok tt, s')
      → Performed chroot stage (given_status s) s s'
  unfolding perform
  perform-ok s s' h =
      let (_, s1, h1, k1) = >>-ok _ _ s s' tt h in
      let (_, s2, h2, k2) = >>-ok _ _ s1 s' tt k1 in
      let (_, s3, h3, k3) = >>-ok _ _ s2 s' tt k2 in
      let (status, s4, h4, k4) = >>=-ok _ _ s3 s' tt k3 in
      let (_, s5, h5, k5) = >>-ok _ _ s4 s' tt k4 in
      let e2 = acquire-ok s1 s2 h2 in
      let e3 = prepare-ok s2 s3 h3 in
      let e4 = run_scripts-ok s3 s4 status h4 in
      let e5 = release-ok status s4 s5 h5 in
      let e6 = check_scripts-ok status s5 s' k5 in
      stages-ok s s1 s2 s3 s4 s5 s' status (sym (ap (λ (r : Result (Unit {0}) × State). r.1) h1)) e2
        e3 e4 e5 e6

  -- `setup_chroot` of a named chroot that returns has left the state as it was, and then the stage
  -- is not one of the operation, a lock has failed before or the chroot runs no setup scripts; or
  -- it took the lock, ran the scripts with the status of the session (which a start sets to true)
  -- and unlocked with the exit status 0, in this order and with no other call between, and the lock
  -- status is as it was.
  pub setup_chroot-ok :
      (operation : Operation) (s s' : State)
      → setup_chroot w operation chroot stage s ≡ (ok tt, s')
      → ((s' ≡ s)
          × ((applies operation stage && s.lock_status && chroot.run_setup_scripts) ≡ false))
        ⊎ (((applies operation stage && s.lock_status && chroot.run_setup_scripts) ≡ true)
            × Performed chroot stage (given_status s) s s')
  unfolding setup_chroot
  setup_chroot-ok operation s s' h = ground (arith, perform-ok s s')
