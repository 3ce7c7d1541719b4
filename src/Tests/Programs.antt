-- ===== src/Tests/Programs.antt =====
-- The theorem on the order of sbuild/sbuild-run-parts.cc at a concrete directory.
use schroot.Prelude.{◌≡◌, refl, true, false, List, [], ◌∷◌, Text, codes}
use schroot.RunParts.{
  RunParts, World, Actions, ok, polled, quiet, data_read, exited, run, run_programs, run_child,
  backwards, log_output, take_input, wait_for_child,
}
use schroot.RunParts.Laws.{IsRun, in_order, run-order}

-- Each program writes a line, and exits with 3.
abbrev failing : World
failing = record {
  pipe_fails = λ a. false;
  fork_fails = λ a. false;
  polls = λ a. polled (data_read (codes "hi\n")) quiet ∷ [];
  ending = λ a. exited 3;
}

abbrev two_programs : RunParts
two_programs = record {
  lsb_mode = true;
  abort_on_error = true;
  umask = 18;
  verbose = false;
  reverse = true;
  directory = codes "/etc/schroot/setup.d";
  programs = (codes "05file", tt) ∷ (codes "10mount", tt) ∷ [];
}

abbrev command : List Text
command = codes "setup-stop" ∷ codes "ok" ∷ []

abbrev after : Actions
after = (run failing two_programs command []).1

aborted : run failing two_programs command [] ≡ (ok 3, after)
unfolding run run_programs run_child backwards log_output take_input wait_for_child
aborted = refl

run-order_example : IsRun true (in_order failing two_programs) 3 [] after
run-order_example = run-order failing two_programs command 3 [] after aborted
