-- ===== src/RunParts.antt =====
-- sbuild/sbuild-run-parts.cc: the programs of a directory are run in order, and what they write
-- is logged in lines. poll(2), read(2), fork(2) and waitpid(2) are a `World`.
pub mod Laws
pub mod Programs
use schroot.Prelude.{
  ℕ, zero, suc, Bool, true, false, not, ◌&&◌, ◌||◌, Option, none, some, List, [], ◌∷◌, ◌++◌, Text,
  text_beq, codes, is_empty, nat_eq, ◌==◌, if◌then◌else◌,
}
use schroot.Prelude.Map.{Map, insert}
use schroot.Util.Split.{split_string_strict}
use schroot.Util.Names.{is_valid_filename}

-- `run_parts::error_code`
pub data Code : Type 0 where
  child_fork child_wait exec pipe dup poll read : Code

-- `run_parts::error`, and the `std::length_error` of a string of -1 characters
pub data Failure : Type 0 where
  failed : Code → Failure
  length_error : Failure

-- `std::set<std::string>`
abbrev pub ProgramSet : Type 0
ProgramSet = Map (Unit {0})

pub record RunParts : Type 0 where
  pub lsb_mode : Bool
  pub abort_on_error : Bool
  pub umask : ℕ
  pub verbose : Bool
  pub reverse : Bool
  pub directory : Text
  pub programs : ProgramSet

pub data Stream : Type 0 where
  stdout stderr : Stream

-- What a run does, as others see it: a process is started, and a line is logged.
pub data Action : Type 0 where
  start : Text → List Text → Action
  line : Stream → Text → Text → Action

-- The actions so far, the latest one first.
abbrev pub Actions : Type 0
Actions = List Action

-- What a descriptor gives after a poll: nothing to read, an error, EINTR, or characters, none of
-- them at its end.
pub data Input : Type 0 where
  quiet broken interrupted : Input
  data_read : Text → Input

-- What poll(2) returns: an error, or what standard output and standard error then give.
pub data Poll : Type 0 where
  poll_failed : Poll
  polled : Input → Input → Poll

-- What waitpid(2) returns, after any number of EINTR: an error, a normal exit, or another end.
pub data Ending : Type 0 where
  wait_failed : Ending
  exited : ℕ → Ending
  killed : Ending

pub data Outcome {ℓ} (A : Type ℓ) : Type ℓ where
  ok : A → Outcome A
  throw : Failure → Outcome A

-- The rest of the machine, each answer depending on the actions before it: pipe(2) and fork(2)
-- fail or not, then the polls until both pipes are closed, then the child's end.
pub record World : Type 0 where
  pub pipe_fails : Actions → Bool
  pub fork_fails : Actions → Bool
  pub polls : Actions → List Poll
  pub ending : Actions → Ending

abbrev pub newline : Text
newline = codes "\n"

abbrev pub ends_line : Text → Bool
ends_line [] = false
ends_line (c ∷ []) = c == b'\n'
ends_line (c ∷ d ∷ s) = ends_line (d ∷ s)

-- The loop over `lines`: those that are logged, and the buffer.
unfoldable pub flush_lines : Bool → List Text → Text → List Text × Text
flush_lines flush [] buf = ([], buf)
flush_lines flush (l ∷ []) buf = if flush then (l ∷ [], buf) else ([], l)
flush_lines flush (l ∷ m ∷ lines) buf =
    let rest = flush_lines flush (m ∷ lines) buf in (l ∷ rest.0, rest.1)

-- What is logged of a buffer, and what stays in it.
unfoldable pub flush_buffer : Text → List Text × Text
flush_buffer buf =
    if is_empty buf
    then ([], buf)
    else let r = flush_lines (ends_line buf) (split_string_strict buf newline) buf in
      if ends_line buf then (r.0, []) else r

abbrev pub log_lines : Stream → Text → List Text → Actions → Actions
log_lines stream file [] a = a
log_lines stream file (l ∷ lines) a = log_lines stream file lines (line stream file l ∷ a)

-- `read` of a ready descriptor and `buf += ...`: the new buffer, and whether the count is not 0
unfoldable pub take_input : Input → Text → Outcome (Text × Bool)
take_input quiet buf = ok (buf, false)
take_input broken buf = throw (failed read)
take_input interrupted buf = throw length_error
take_input (data_read []) buf = ok (buf, false)
take_input (data_read (c ∷ s)) buf = ok (buf ++ c ∷ s, true)

-- What is left in a buffer when the pipes are closed is a line.
abbrev pub flush_rest : Stream → Text → Text → Actions → Actions
flush_rest stream file [] a = a
flush_rest stream file (c ∷ s) a = line stream file (c ∷ s) ∷ a

-- The loop: standard error and standard output are read and logged until both give nothing.
unfoldable pub log_output : Text → List Poll → Text → Text → Actions → Outcome (Unit {0}) × Actions
log_output file [] out_buf err_buf a =
    (ok tt, flush_rest stdout file out_buf (flush_rest stderr file err_buf a))
log_output file (poll_failed ∷ polls) out_buf err_buf a = (throw (failed poll), a)
log_output file (polled out err ∷ polls) out_buf err_buf a = elim (take_input err err_buf) [
  | throw e ↦ (throw e, a)
  | ok e ↦ elim (take_input out out_buf) [
    | throw f ↦ (throw f, a)
    | ok o ↦
        let fe = flush_buffer e.0 in
        let fo = flush_buffer o.0 in
        let a' = log_lines stdout file fo.0 (log_lines stderr file fe.0 a) in
        let rest = log_output file polls fo.1 fe.1 a' in
        if not e.1 && not o.1
        then (ok tt, flush_rest stdout file fo.1 (flush_rest stderr file fe.1 a'))
        else rest
  ]
]

-- `wait_for_child`
unfoldable pub wait_for_child : Ending → Outcome ℕ
wait_for_child wait_failed = throw (failed child_wait)
wait_for_child (exited status) = ok status
wait_for_child killed = ok 1

abbrev pub then_wait : Outcome (Unit {0}) × Actions → Ending → Outcome ℕ × Actions
then_wait (throw e, a) ending = (throw e, a)
then_wait (ok u, a) ending = (wait_for_child ending, a)

-- The order of `rbegin ()`
unfoldable pub backwards : ProgramSet → ProgramSet → ProgramSet
backwards [] acc = acc
backwards (p ∷ programs) acc = backwards programs (p ∷ acc)

module _ (w : World) where
  unfoldable pub run_child : Text → List Text → Actions → Outcome ℕ × Actions
  run_child file command a =
      if w.pipe_fails a
      then (throw (failed pipe), a)
      else if w.fork_fails a
      then (throw (failed child_fork), a)
      else let started = start file command ∷ a in
        let logged = log_output file (w.polls started) [] [] started in
        then_wait logged (w.ending logged.1)

  -- The loop of `run` over the programs, with the exit status of the last one.
  unfoldable pub run_programs : Bool → ProgramSet → List Text → ℕ → Actions → Outcome ℕ × Actions
  run_programs abort_on_error [] command exit_status a = (ok exit_status, a)
  run_programs abort_on_error ((file, u) ∷ programs) command exit_status a =
      let (result, a') = run_child file (file ∷ command) a in
      elim result [
        | throw e ↦ (throw e, a')
        | ok status ↦
            let rest = run_programs abort_on_error programs command status a' in
            if not (status == 0) && abort_on_error then (ok status, a') else rest
      ]

  unfoldable pub run : RunParts → List Text → Actions → Outcome ℕ × Actions
  run r command a =
      if not r.reverse
      then run_programs r.abort_on_error r.programs command 0 a
      else run_programs r.abort_on_error (backwards r.programs []) command 0 a

-- `search name pattern` is `regex_search`.
module _ (search : Text → Text → Bool) where
  -- The loop of the constructor over the entries of the directory.
  unfoldable pub add_programs : Bool → List Text → ProgramSet → ProgramSet
  add_programs lsb_mode [] programs = programs
  add_programs lsb_mode (name ∷ names) programs =
      if text_beq name (codes ".") || text_beq name (codes "..")
      then add_programs lsb_mode names programs
      else if is_valid_filename search name lsb_mode
      then add_programs lsb_mode names (insert name tt programs)
      else add_programs lsb_mode names programs

  -- The constructor, which sets `lsb_mode` whatever its argument is; `names` are the directory's
  -- entries.
  unfoldable pub new_run_parts : Text → List Text → Bool → Bool → ℕ → RunParts
  new_run_parts directory names lsb_mode abort_on_error umask = record {
    lsb_mode = true;
    abort_on_error = abort_on_error;
    umask = umask;
    verbose = false;
    reverse = false;
    directory = directory;
    programs = add_programs true names [];
  }
