-- ===== src/Session/Wait/Sends.antt =====
-- What `wait_for_child` of sbuild/sbuild-session.cc sends to the child, and its status on a throw.
use schroot.Prelude.{
  ◌≡◌, refl, ◌⊎◌, inl, inr, Bool, true, false, ◌||◌, none, List, [], ◌∷◌, arith, Bool-cases,
  if◌then◌else◌,
}
use schroot.Session.World.{
  kill_child, Signal, sighup, sigterm, Arrivals, Waits, WaitStatus, wait_failed, exited, signalled,
  dumped_core, abnormal,
}
use schroot.Session.Exec.{State, log}
use schroot.Session.Wait.{
  exit_failure, arrive, pass_signal, decode, Waited, returned, wait_loop, wait_for_child,
}
use schroot.Session.Wait.Laws.{is_pending, pass_signal-quiet}

-- What a wait sends: nothing, or one signal, and then the chroot counts as failed.
abbrev pub Sends : State → State → Type 0
Sends s s' =
    ((s'.history ≡ s.history) × (s'.chroot_status ≡ s.chroot_status))
    ⊎ ((signal : Signal) × (s'.history ≡ kill_child signal ∷ s.history)
        × (s'.chroot_status ≡ false))

returned-state :
    (status : WaitStatus) (s : State)
    → ((returned status s).state.history ≡ s.history)
      × ((returned status s).state.chroot_status ≡ s.chroot_status)
      × ((returned status s).thrown ≡ none ⊎ ((returned status s).status ≡ exit_failure))
unfolding returned decode
returned-state wait_failed s = (refl, refl, inr refl)
returned-state (exited n) s = (ground arith, ground arith, ground arith)
returned-state signalled s = (ground arith, ground arith, ground arith)
returned-state dumped_core s = (ground arith, ground arith, ground arith)
returned-state abnormal s = (ground arith, ground arith, ground arith)

abbrev flagged : State → Bool
flagged s = s.sighup_called || s.sigterm_called || s.sigint_called

-- Nothing more is sent, and a throw comes with the status of a failure.
abbrev Quiet : State → Waited → Type 0
Quiet s w =
    (w.state.history ≡ s.history)
    × (w.state.chroot_status ≡ s.chroot_status)
    × (w.thrown ≡ none ⊎ (w.status ≡ exit_failure))

pass_signal-killed : (s : State) → pass_signal true s ≡ (s, true)
unfolding pass_signal
pass_signal-killed s = ground arith

wait_loop-killed :
    (interrupts : List Arrivals) (a : Arrivals) (status : WaitStatus) (s : State)
    → Quiet s (wait_loop interrupts a status true s)
unfolding wait_loop
wait_loop-killed [] a status s = rw (pass_signal-killed s) (returned-state status (arrive a s))
wait_loop-killed (b ∷ interrupts) a status s =
    rw (pass_signal-killed s) (elim (Bool-cases (flagged (arrive b s))) [
      | inl f ↦ rw f (wait_loop-killed interrupts a status (arrive b s))
      | inr f ↦ rw f (refl, refl, inr refl)
    ])

-- A round in which a signal is pending sends it.
pass_signal-pending :
    (s : State)
    → is_pending s ≡ true
    → (signal : Signal) × (pass_signal false s
        ≡ (record (log (kill_child signal) s) { chroot_status = false }, true))
unfolding pass_signal
pass_signal-pending s p = ((if s.sighup_called then sighup else sigterm), ground arith)

abbrev Sent : State → Waited → Type 0
Sent s w = Sends s w.state × (w.thrown ≡ none ⊎ (w.status ≡ exit_failure))

Quiet-Sent : (s : State) (w : Waited) → Quiet s w → Sent s w
Quiet-Sent s w q = (inl (q.0, q.1), q.2)

-- The wait goes on after a signal was sent.
Quiet-Sent_after :
    (s : State) (signal : Signal) (w : Waited)
    → Quiet (record (log (kill_child signal) s) { chroot_status = false }) w
    → Sent s w
Quiet-Sent_after s signal w q = (inr (signal, q.0, q.1), q.2)

wait_loop-pass :
    (interrupts : List Arrivals) (a : Arrivals) (status : WaitStatus) (s s' : State)
    → pass_signal false s ≡ (s', true)
    → wait_loop interrupts a status false s ≡ wait_loop interrupts a status true s'
unfolding wait_loop
wait_loop-pass [] a status s s' e = rw (e, pass_signal-killed s')
wait_loop-pass (b ∷ interrupts) a status s s' e = rw (e, pass_signal-killed s')

wait_loop-sends_pending :
    (interrupts : List Arrivals) (a : Arrivals) (status : WaitStatus) (s : State)
    → is_pending s ≡ true
    → Sent s (wait_loop interrupts a status false s)
wait_loop-sends_pending interrupts a status s p =
    let (signal, e) = pass_signal-pending s p in
    let s' = record (log (kill_child signal) s) { chroot_status = false } in
    rw (wait_loop-pass interrupts a status s s' e) (
      Quiet-Sent_after s signal (wait_loop interrupts a status true s')
        (wait_loop-killed interrupts a status s'))

wait_loop-sends :
    (interrupts : List Arrivals) (a : Arrivals) (status : WaitStatus) (s : State)
    → Sent s (wait_loop interrupts a status false s)
unfolding wait_loop
wait_loop-sends [] a status s = elim (Bool-cases (is_pending s)) [
  | inl p ↦ wait_loop-sends_pending [] a status s p
  | inr q ↦
      rw (pass_signal-quiet false s q)
        (Quiet-Sent s (returned status (arrive a s)) (returned-state status (arrive a s)))
]
wait_loop-sends (b ∷ interrupts) a status s = elim (Bool-cases (is_pending s)) [
  | inl p ↦ wait_loop-sends_pending (b ∷ interrupts) a status s p
  | inr q ↦ rw (pass_signal-quiet false s q) (elim (Bool-cases (flagged (arrive b s))) [
    | inl f ↦ rw f (wait_loop-sends interrupts a status (arrive b s))
    | inr f ↦ rw f (inl (refl, refl), inr refl)
  ])
]

-- However often it is interrupted, a wait sends the child at most one signal, and then the chroot
-- counts as failed; where it throws, it leaves the status of a failure.
pub wait_for_child-Sends :
    (waits : Waits) (s : State)
    → Sends s (wait_for_child waits s).state
      × ((wait_for_child waits s).thrown ≡ none ⊎ ((wait_for_child waits s).status ≡ exit_failure))
unfolding wait_for_child
wait_for_child-Sends waits s = wait_loop-sends waits.interrupts waits.arrivals waits.status s
