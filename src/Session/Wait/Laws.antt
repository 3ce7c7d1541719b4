-- ===== src/Session/Wait/Laws.antt =====
-- What `wait_for_child` of sbuild/sbuild-session.cc returns, throws and sends.
use schroot.Prelude.{
  ◌≡◌, sym, ap, subst, ◌∙◌, inl, inr, Bool, true, false, ◌||◌, none, List, [], ◌∷◌, arith,
  Bool-cases,
}
use schroot.Session.World.{
  Arrivals, Waits, WaitStatus, wait_failed, exited, signalled, dumped_core, abnormal,
}
use schroot.Session.Exec.{State}
use schroot.Session.Wait.{arrive, pass_signal, decode, Waited, returned, wait_loop, wait_for_child}

-- A signal that is to be passed on is pending.
abbrev pub is_pending : State → Bool
is_pending s = s.sighup_called || s.sigterm_called

-- What held when the wait returned normally.
pub record IsNormal (status : WaitStatus) (s : State) (w : Waited) : Type 0 where
  pub exits : status ≡ exited w.status
  pub quiet : is_pending w.state ≡ false
  pub history : w.state.history ≡ s.history
  pub chroot_status : w.state.chroot_status ≡ s.chroot_status
  pub lock_status : w.state.lock_status ≡ s.lock_status

returned-IsNormal :
    (status : WaitStatus) (s : State)
    → (returned status s).thrown ≡ none
    → (status ≡ exited (returned status s).status)
      × (is_pending s ≡ false)
      × ((returned status s).state ≡ s)
unfolding returned decode
returned-IsNormal wait_failed s h = ground arith
returned-IsNormal (exited n) s h = ground arith
returned-IsNormal signalled s h = ground arith
returned-IsNormal dumped_core s h = ground arith
returned-IsNormal abnormal s h = ground arith

is_pending-pass_signal :
    (killed : Bool) (s : State) → is_pending (pass_signal killed s).0 ≡ is_pending s
unfolding pass_signal
is_pending-pass_signal killed s = ground arith

is_pending-arrive :
    (a : Arrivals) (s : State) → is_pending s ≡ true → is_pending (arrive a s) ≡ true
is_pending-arrive a s p = ground arith

-- Where a signal is pending at the start of a round, the wait does not return normally.
wait_loop-pending :
    (interrupts : List Arrivals) (a : Arrivals) (status : WaitStatus) (killed : Bool) (s : State)
    → is_pending s ≡ true
    → (wait_loop interrupts a status killed s).thrown ≡ none
    → ⊥
unfolding wait_loop
wait_loop-pending [] a status killed s p h =
    let s' = (pass_signal killed s).0 in
    let p' = is_pending-arrive a s' (is_pending-pass_signal killed s ∙ p) in
    cc (p', (returned-IsNormal status (arrive a s') h).1)
wait_loop-pending (b ∷ interrupts) a status killed s p h =
    let passed = pass_signal killed s in
    let p' = is_pending-arrive b passed.0 (is_pending-pass_signal killed s ∙ p) in
    ground (arith, p', wait_loop-pending interrupts a status passed.1 (arrive b passed.0))

-- Where none is pending, the round passes nothing on.
pub pass_signal-quiet :
    (killed : Bool) (s : State) → is_pending s ≡ false → pass_signal killed s ≡ (s, killed)
unfolding pass_signal
pass_signal-quiet killed s q = ground arith

wait_loop-last :
    (a : Arrivals) (status : WaitStatus) (killed : Bool) (s : State)
    → is_pending s ≡ false
    → wait_loop [] a status killed s ≡ returned status (arrive a s)
unfolding wait_loop
wait_loop-last a status killed s q = rw (pass_signal-quiet killed s q)

wait_loop-next :
    (b : Arrivals) (interrupts : List Arrivals) (a : Arrivals) (status : WaitStatus) (killed : Bool)
    (s : State)
    → is_pending s ≡ false
    → (wait_loop (b ∷ interrupts) a status killed s).thrown ≡ none
    → wait_loop (b ∷ interrupts) a status killed s
      ≡ wait_loop interrupts a status killed (arrive b s)
unfolding wait_loop
wait_loop-next b interrupts a status killed s q h = ground (arith, pass_signal-quiet killed s q)

IsNormal-returned :
    (a : Arrivals) (status : WaitStatus) (s : State)
    → (returned status (arrive a s)).thrown ≡ none
    → IsNormal status s (returned status (arrive a s))
IsNormal-returned a status s h =
    let (exits, quiet, same) = returned-IsNormal status (arrive a s) h in
    record {
      exits = exits;
      quiet = ap is_pending same ∙ quiet;
      history = ap (λ (r : State). r.history) same;
      chroot_status = ap (λ (r : State). r.chroot_status) same;
      lock_status = ap (λ (r : State). r.lock_status) same;
    }

wait_loop-IsNormal :
    (interrupts : List Arrivals) (a : Arrivals) (status : WaitStatus) (killed : Bool) (s : State)
    → is_pending s ≡ false
    → (wait_loop interrupts a status killed s).thrown ≡ none
    → IsNormal status s (wait_loop interrupts a status killed s)
wait_loop-IsNormal [] a status killed s q h =
    let e = wait_loop-last a status killed s q in
    subst (IsNormal status s) (sym e) (IsNormal-returned a status s (rw e at h))
wait_loop-IsNormal (b ∷ interrupts) a status killed s q h =
    let e = wait_loop-next b interrupts a status killed s q h in
    let h' : (wait_loop interrupts a status killed (arrive b s)).thrown ≡ none = rw e at h in
    elim (Bool-cases (is_pending (arrive b s))) [
      | inl p ↦ absurd (wait_loop-pending interrupts a status killed (arrive b s) p h')
      | inr q' ↦
          let ih = wait_loop-IsNormal interrupts a status killed (arrive b s) q' h' in
          subst (IsNormal status s) (sym e) (record {
            exits = ih.exits;
            quiet = ih.quiet;
            history = ih.history;
            chroot_status = ih.chroot_status;
            lock_status = ih.lock_status;
          })
    ]

-- A wait that returns normally reports the exit status of the child. Then no SIGHUP or SIGTERM
-- was or is pending, nothing was sent to the child and the status of the chroot is as before.
pub wait_for_child-IsNormal :
    (waits : Waits) (s : State)
    → (wait_for_child waits s).thrown ≡ none
    → IsNormal waits.status s (wait_for_child waits s) × (is_pending s ≡ false)
unfolding wait_for_child
wait_for_child-IsNormal waits s h = elim (Bool-cases (is_pending s)) [
  | inl p ↦ absurd (wait_loop-pending waits.interrupts waits.arrivals waits.status false s p h)
  | inr q ↦ (wait_loop-IsNormal waits.interrupts waits.arrivals waits.status false s q h, q)
]
