-- ===== src/Keyfile/Errors.antt =====
-- The line numbers of the errors that `operator >>` of sbuild/sbuild-basic-keyfile.h throws.
use schroot.Prelude.{
  ℕ, ◌+◌, ◌≡◌, ◌∙◌, refl, ap, Bool, true, false, List, [], ◌∷◌, ◌++◌, Text, arith, length, nat_eq,
  if◌then◌else◌,
}
use schroot.Keyfile.{Keyfile, Code, duplicate_group, duplicate_key, Result, ok, error}
use schroot.Keyfile.Parser.{
  State, clear, parse_group, parse_item, parse_comment, parse_line, insert_group, insert_item,
  read_lines,
}

abbrev pub is_duplicate : Code → Bool
is_duplicate duplicate_group = true
is_duplicate duplicate_key = true
is_duplicate _ = false

-- The outcome of a line: the number is counted, or an error has the number before it.
abbrev Counted : ℕ → Result State → Type 0
Counted n (ok s) = s.line_number ≡ n + 1
Counted n (error m code) = (m ≡ n) × (is_duplicate code ≡ false)

parse_line-Counted : (line : Text) (s : State) → Counted s.line_number (parse_line line s)
unfolding parse_line parse_group parse_item parse_comment clear
parse_line-Counted line s = ground arith

-- An error of an insertion has the number of the line.
abbrev Duplicates : ℕ → Result Keyfile → Type 0
Duplicates n (ok kf) = Unit
Duplicates n (error m code) = (m ≡ n) × (is_duplicate code ≡ true)

insert_group-Duplicates :
    (s : State) (tmp : Keyfile) → Duplicates s.line_number (insert_group s tmp)
unfolding insert_group
insert_group-Duplicates s tmp = ground arith

insert_item-Duplicates : (s : State) (tmp : Keyfile) → Duplicates s.line_number (insert_item s tmp)
unfolding insert_item
insert_item-Duplicates s tmp = ground arith

-- The line at which reading fails, and its number, of lines counted from the number of `s` + 1: the
-- lines before it are read without an error, those up to it are not, and what follows is not read.
-- The number of a duplicate is its own, that of any other error is one less.
pub record IsErrorAt (s : State) (tmp : Keyfile) (lines : List Text) (n : ℕ) (code : Code)
    : Type 0 where
  pub before : List Text
  pub line : Text
  pub after : List Text
  pub whole : lines ≡ before ++ line ∷ after
  pub read : Keyfile
  pub reads : read_lines before s tmp ≡ ok read
  pub fails : read_lines (before ++ line ∷ []) s tmp ≡ error n code
  pub number : n + (if is_duplicate code then 0 else 1) ≡ s.line_number + length before + 1

-- Reading goes on after a line.
abbrev GoesOn : Text → State → Keyfile → State → Keyfile → Type 0
GoesOn line s tmp s' done =
    (lines : List Text) → read_lines (line ∷ lines) s tmp ≡ read_lines lines s' done

-- Reading stops at a line.
abbrev Stops : Text → State → Keyfile → ℕ → Code → Type 0
Stops line s tmp n code = (lines : List Text) → read_lines (line ∷ lines) s tmp ≡ error n code

at_head :
    (line : Text) (lines : List Text) (s : State) (tmp : Keyfile) (n : ℕ) (code : Code)
    → Stops line s tmp n code
    → n + (if is_duplicate code then 0 else 1) ≡ s.line_number + 1
    → IsErrorAt s tmp (line ∷ lines) n code
unfolding read_lines
at_head line lines s tmp n code stops h = record {
  before = [];
  line = line;
  after = lines;
  whole = refl;
  read = tmp;
  reads = refl;
  fails = stops [];
  number = omega (arith, h);
}

in_tail :
    (line : Text) (lines : List Text) (s s' : State) (tmp done : Keyfile) (n : ℕ) (code : Code)
    → GoesOn line s tmp s' done
    → s'.line_number ≡ s.line_number + 1
    → IsErrorAt s' done lines n code
    → IsErrorAt s tmp (line ∷ lines) n code
in_tail line lines s s' tmp done n code on h e = record {
  before = line ∷ e.before;
  line = e.line;
  after = e.after;
  whole = ap (λ l. line ∷ l) e.whole;
  read = e.read;
  reads = on e.before ∙ e.reads;
  fails = on (e.before ++ e.line ∷ []) ∙ e.fails;
  number = omega (arith, h, e.number);
}

-- The error of a loop whose next lines are `lines`.
abbrev Later : List Text → ℕ → Code → Type 0
Later lines n code =
    (s : State) (tmp : Keyfile)
    → read_lines lines s tmp ≡ error n code
    → IsErrorAt s tmp lines n code

module _ (line : Text) (lines : List Text) (s s' : State) (tmp : Keyfile) (n : ℕ)
    (code : Code) where
  insert_item_error :
      (grouped : Keyfile) (r : Result Keyfile)
      → parse_line line s ≡ ok s'
      → s'.line_number ≡ s.line_number + 1
      → insert_group s' tmp ≡ ok grouped
      → insert_item s' grouped ≡ r
      → Duplicates s'.line_number r
      → Later lines n code
      → read_lines (line ∷ lines) s tmp ≡ error n code
      → IsErrorAt s tmp (line ∷ lines) n code
  unfolding read_lines
  insert_item_error grouped (ok done) e c eg ei d ih h =
      in_tail line lines s s' tmp done n code (λ more. rw (e, eg, ei, read_lines) refl) c
        (ih s' done (rw (e, eg, ei, read_lines) at h))
  insert_item_error grouped (error m k) e c eg ei d ih h =
      let h' = rw (e, eg, ei, read_lines) at h in
      at_head line lines s tmp n code (λ more. rw (e, eg, ei, read_lines) h') (ground arith)

  insert_group_error :
      (r : Result Keyfile)
      → parse_line line s ≡ ok s'
      → s'.line_number ≡ s.line_number + 1
      → insert_group s' tmp ≡ r
      → Duplicates s'.line_number r
      → Later lines n code
      → read_lines (line ∷ lines) s tmp ≡ error n code
      → IsErrorAt s tmp (line ∷ lines) n code
  unfolding read_lines
  insert_group_error (ok grouped) e c eg d ih h =
      insert_item_error grouped (insert_item s' grouped) e c eg refl
        (insert_item-Duplicates s' grouped) ih h
  insert_group_error (error m k) e c eg d ih h =
      let h' = rw (e, eg, read_lines) at h in
      at_head line lines s tmp n code (λ more. rw (e, eg, read_lines) h') (ground arith)

read_line_error :
    (line : Text) (lines : List Text) (s : State) (tmp : Keyfile) (n : ℕ) (code : Code)
    (r : Result State)
    → parse_line line s ≡ r
    → Counted s.line_number r
    → Later lines n code
    → read_lines (line ∷ lines) s tmp ≡ error n code
    → IsErrorAt s tmp (line ∷ lines) n code
unfolding read_lines
read_line_error line lines s tmp n code (error m c) e counted ih h =
    let h' = rw (e, read_lines) at h in
    at_head line lines s tmp n code (λ more. rw (e, read_lines) h') (ground arith)
read_line_error line lines s tmp n code (ok s') e counted ih h =
    insert_group_error line lines s s' tmp n code (insert_group s' tmp) e counted refl
      (insert_group-Duplicates s' tmp) ih h

-- Where reading lines fails, there is a line at which it does: the lines before it are read without
-- an error, and those up to it, without the lines after it, give the same error. The number of the
-- error, where lines are counted from 1 after those that were read before, is that of this line for
-- a duplicate group or key, and one less for any other error.
pub read_lines-error :
    (lines : List Text) (s : State) (tmp : Keyfile) (n : ℕ) (code : Code)
    → read_lines lines s tmp ≡ error n code
    → IsErrorAt s tmp lines n code
unfolding read_lines
read_lines-error [] s tmp n code h = cc
read_lines-error (line ∷ lines) s tmp n code h =
    read_line_error line lines s tmp n code (parse_line line s) refl (parse_line-Counted line s)
      (λ s' kf. read_lines-error lines s' kf n code) h
