-- ===== src/RunParts/Laws.antt =====
-- Which programs `run` of sbuild/sbuild-run-parts.cc runs.
use schroot.Prelude.{
  ℕ, ◌≡◌, ◌≢◌, refl, ap, sym, ◌∙◌, ◌⊎◌, inl, inr, Bool, true, not, ◌&&◌, List, [], ◌∷◌, ◌++◌, Text,
  arith, nat_eq, ◌==◌, if◌then◌else◌, Bool-cases,
}
use schroot.RunParts.{
  Actions, start, line, Stream, stdout, stderr, Poll, poll_failed, polled, Input, Outcome, ok,
  throw, ProgramSet, RunParts, World, log_lines, log_output, flush_rest, take_input, flush_buffer,
  then_wait, wait_for_child, Ending, run_child, run_programs, run, backwards,
}

-- The programs that were started, the latest one first.
unfoldable pub started : Actions → List Text
started [] = []
started (start file command ∷ a) = file ∷ started a
started (line stream file text ∷ a) = started a

started_start :
    (file : Text) (command : List Text) (a : Actions)
    → started (start file command ∷ a) ≡ file ∷ started a
unfolding started
started_start file command a = refl

-- The names of `ran`, the last one first, before those that were started earlier.
abbrev pub reverse_onto : List Text → List Text → List Text
reverse_onto [] earlier = earlier
reverse_onto (file ∷ ran) earlier = reverse_onto ran (file ∷ earlier)

started-log_lines :
    (stream : Stream) (file : Text) (lines : List Text) (a : Actions)
    → started (log_lines stream file lines a) ≡ started a
unfolding started
started-log_lines stream file [] a = refl
started-log_lines stream file (l ∷ lines) a =
    started-log_lines stream file lines (line stream file l ∷ a)

started-flush_rest :
    (stream : Stream) (file text : Text) (a : Actions)
    → started (flush_rest stream file text a) ≡ started a
unfolding started
started-flush_rest stream file [] a = refl
started-flush_rest stream file (c ∷ s) a = refl

started-logged :
    (file : Text) (out err : List Text) (a : Actions)
    → started (log_lines stdout file out (log_lines stderr file err a)) ≡ started a
started-logged file out err a =
    started-log_lines stdout file out (log_lines stderr file err a)
    ∙ started-log_lines stderr file err a

started-flushed :
    (file out err : Text) (a : Actions)
    → started (flush_rest stdout file out (flush_rest stderr file err a)) ≡ started a
started-flushed file out err a =
    started-flush_rest stdout file out (flush_rest stderr file err a)
    ∙ started-flush_rest stderr file err a

abbrev Quiet : Text → List Poll → Type 0
Quiet file polls =
    (out_buf err_buf : Text) (a : Actions)
    → started (log_output file polls out_buf err_buf a).1 ≡ started a

log_output_step :
    (file : Text) (out err : Input) (polls : List Poll) (out_buf err_buf : Text) (a : Actions)
    (e o : Outcome (Text × Bool))
    → take_input err err_buf ≡ e
    → take_input out out_buf ≡ o
    → Quiet file polls
    → started (log_output file (polled out err ∷ polls) out_buf err_buf a).1 ≡ started a
unfolding log_output
log_output_step file out err polls out_buf err_buf a (throw e) o he ho ih = rw (log_output, he) refl
log_output_step file out err polls out_buf err_buf a (ok e) (throw f) he ho ih =
    rw (log_output, he, ho) refl
log_output_step file out err polls out_buf err_buf a (ok e) (ok o) he ho ih =
    let fe = flush_buffer e.0 in
    let fo = flush_buffer o.0 in
    let a' = log_lines stdout file fo.0 (log_lines stderr file fe.0 a) in
    let same = started-logged file fo.0 fe.0 a in
    elim (Bool-cases (not e.1 && not o.1)) [
      | inl closed ↦ rw (log_output, he, ho, closed) (started-flushed file fo.1 fe.1 a' ∙ same)
      | inr more ↦ rw (log_output, he, ho, more) (ih fo.1 fe.1 a' ∙ same)
    ]

started-log_output : (file : Text) (polls : List Poll) → Quiet file polls
unfolding log_output
started-log_output file [] out_buf err_buf a = started-flushed file out_buf err_buf a
started-log_output file (poll_failed ∷ polls) out_buf err_buf a = refl
started-log_output file (polled out err ∷ polls) out_buf err_buf a =
    log_output_step file out err polls out_buf err_buf a _ _ refl refl
      (started-log_output file polls)

-- The programs of a set, in its order.
abbrev pub names : ProgramSet → List Text
names [] = []
names ((file, u) ∷ programs) = file ∷ names programs

-- What a run started, in `order`: the programs `ran`, one after another, and not `rest`, which is
-- nothing unless an error, then the exit status, aborts the run.
pub record IsRun (abort_on_error : Bool) (order : List Text) (status : ℕ) (a a' : Actions)
    : Type 0 where
  pub ran : List Text
  pub rest : List Text
  pub whole : order ≡ ran ++ rest
  pub starts : started a' ≡ reverse_onto ran (started a)
  pub stopped : (rest ≡ []) ⊎ ((abort_on_error ≡ true) × (status ≢ 0))

module _ (w : World) where
  started-then_wait :
      (logged : Outcome (Unit {0}) × Actions) (ending : Ending) (status : ℕ) (a' : Actions)
      → then_wait logged ending ≡ (ok status, a')
      → a' ≡ logged.1
  unfolding wait_for_child
  started-then_wait (throw e, a) ending status a' h = cc
  started-then_wait (ok u, a) ending status a' h = sym (ap (λ (r : Outcome ℕ × Actions). r.1) h)

  started-run_child :
      (file : Text) (command : List Text) (a a' : Actions) (status : ℕ)
      → run_child w file command a ≡ (ok status, a')
      → started a' ≡ file ∷ started a
  unfolding run_child
  started-run_child file command a a' status h =
      let s = start file command ∷ a in
      let logged = log_output file (w.polls s) [] [] s in
      elim (Bool-cases (w.pipe_fails a)) [
        | inl fails ↦ cc (rw (run_child, fails) at h)
        | inr piped ↦ elim (Bool-cases (w.fork_fails a)) [
          | inl fails ↦ cc (rw (run_child, piped, fails) at h)
          | inr forked ↦
              ap started (
                started-then_wait logged (w.ending logged.1) status a'
                  (rw (run_child, piped, forked) at h))
              ∙ started-log_output file (w.polls s) [] [] s
              ∙ started_start file command a
        ]
      ]

  stop-IsRun :
      (abort_on_error : Bool) (file : Text) (u : Unit {0}) (programs : ProgramSet) (n status : ℕ)
      (a a1 a' : Actions)
      → started a1 ≡ file ∷ started a
      → (not (n == 0) && abort_on_error) ≡ true
      → ◌≡◌ {A = Outcome ℕ × Actions} (ok n, a1) (ok status, a')
      → IsRun abort_on_error (file ∷ names programs) status a a'
  stop-IsRun abort_on_error file u programs n status a a1 a' begun aborts h = record {
    ran = file ∷ [];
    rest = names programs;
    whole = refl;
    starts = ap started (sym (ap (λ (r : Outcome ℕ × Actions). r.1) h)) ∙ begun;
    stopped = inr (ground arith);
  }

  go_on_IsRun :
      (abort_on_error : Bool) (file : Text) (u : Unit {0}) (programs : ProgramSet) (status : ℕ)
      (a a1 a' : Actions)
      → started a1 ≡ file ∷ started a
      → IsRun abort_on_error (names programs) status a1 a'
      → IsRun abort_on_error (file ∷ names programs) status a a'
  go_on_IsRun abort_on_error file u programs status a a1 a' begun r = record {
    ran = file ∷ r.ran;
    rest = r.rest;
    whole = ap (λ l. file ∷ l) r.whole;
    starts = r.starts ∙ ap (λ l. reverse_onto r.ran l) begun;
    stopped = r.stopped;
  }

  abbrev Later : Bool → ProgramSet → List Text → Type 0
  Later abort_on_error programs command =
      (first status : ℕ) (a a' : Actions)
      → run_programs w abort_on_error programs command first a ≡ (ok status, a')
      → IsRun abort_on_error (names programs) status a a'

  IsRun-one :
      (abort_on_error : Bool) (file : Text) (u : Unit {0}) (programs : ProgramSet)
      (command : List Text) (first status : ℕ) (a a' : Actions) (x : Outcome ℕ)
      → (run_child w file (file ∷ command) a).0 ≡ x
      → run_programs w abort_on_error ((file, u) ∷ programs) command first a ≡ (ok status, a')
      → Later abort_on_error programs command
      → IsRun abort_on_error (file ∷ names programs) status a a'
  unfolding run_programs
  IsRun-one abort_on_error file u programs command first status a a' (throw e) e1 h ih =
      cc (rw (e1, run_programs) at h)
  IsRun-one abort_on_error file u programs command first status a a' (ok n) e1 h ih =
      let a1 = (run_child w file (file ∷ command) a).1 in
      let begun = started-run_child file (file ∷ command) a a1 n (ap (λ x. (x, a1)) e1) in
      elim (Bool-cases (not (n == 0) && abort_on_error)) [
        | inl aborts ↦
            stop-IsRun abort_on_error file u programs n status a a1 a' begun aborts
              (rw (e1, aborts, run_programs) at h)
        | inr goes ↦
            go_on_IsRun abort_on_error file u programs status a a1 a' begun
              (ih n status a1 a' (rw (e1, goes, run_programs) at h))
      ]

  run_programs-ok :
      (abort_on_error : Bool) (programs : ProgramSet) (command : List Text)
      → Later abort_on_error programs command
  unfolding run_programs
  run_programs-ok abort_on_error [] command first status a a' h = record {
    ran = [];
    rest = [];
    whole = refl;
    starts = ap started (sym (ap (λ (r : Outcome ℕ × Actions). r.1) h));
    stopped = inl refl;
  }
  run_programs-ok abort_on_error ((file, u) ∷ programs) command first status a a' h =
      IsRun-one abort_on_error file u programs command first status a a' _ refl h
        (run_programs-ok abort_on_error programs command)

  -- The programs in the order of the run.
  abbrev pub in_order : RunParts → List Text
  in_order r = if r.reverse then names (backwards r.programs []) else names r.programs

  -- A run that returns has started the programs one after another, in the order of the set or
  -- in its reverse, and no other: all of them, or the first ones where the run aborts on errors, and
  -- then the exit status is not 0.
  pub run-order :
      (r : RunParts) (command : List Text) (status : ℕ) (a a' : Actions)
      → run w r command a ≡ (ok status, a')
      → IsRun r.abort_on_error (in_order r) status a a'
  unfolding run
  run-order r command status a a' h = elim (Bool-cases r.reverse) [
    | inl backward ↦ rw backward (
        run_programs-ok r.abort_on_error (backwards r.programs []) command 0 status a a'
          (rw backward at h))
    | inr forward ↦
        rw forward
          (run_programs-ok r.abort_on_error r.programs command 0 status a a' (rw forward at h))
  ]
