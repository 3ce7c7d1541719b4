-- ===== src/Keyfile/Comments.antt =====
-- The comments that `print_comment` of sbuild/sbuild-basic-keyfile.tcc prints are read as comments.
use schroot.Prelude.{
  ℕ, zero, suc, ◌<◌, ◌≡◌, refl, ap, ◌∙◌, Bool, true, false, Option, none, some, [], ◌∷◌, ◌++◌, Text,
  arith, is_empty, length, length-append, if◌then◌else◌, append_assoc,
}
use schroot.Util.Split.{Found, find_first, drop}
use schroot.Util.Split.Laws.{Free, IsCut, FindSpec, find_first_lem}
use schroot.Keyfile.{Keyfile, Result}
use schroot.Keyfile.Printer.{is_newline, print_comment_loop, print_comment}
use schroot.Keyfile.Parser.{State, clear, parse_comment, get_lines, read_lines}
use schroot.Keyfile.Lines.{get_lines-append, read_lines-comment, after_comment}

-- Reading a text.
abbrev pub reading : Text → State → Keyfile → Result Keyfile
reading text s tmp = read_lines (get_lines text) s tmp

pub reading-line :
    (line tail rest : Text) (s : State) (tmp : Keyfile)
    → Free is_newline line
    → reading ((line ++ (b'\n' ∷ tail)) ++ rest) s tmp
      ≡ read_lines (line ∷ get_lines (tail ++ rest)) s tmp
reading-line line tail rest s tmp f =
    ap (λ t. reading t s tmp) (append_assoc line (b'\n' ∷ tail) rest)
    ∙ ap (λ l. read_lines l s tmp) (get_lines-append line (tail ++ rest) f)

-- A text that leaves the group and the file as they are.
pub record IsSkipped (text rest : Text) (s : State) (tmp : Keyfile) : Type 0 where
  pub state : State
  pub group : state.group ≡ s.group
  pub reads : reading (text ++ rest) s tmp ≡ reading rest state tmp

group-after_comment : (text : Text) (s : State) → (after_comment text s).group ≡ s.group
unfolding clear parse_comment
group-after_comment text s = refl

comment_line :
    (text tail rest : Text) (s : State) (tmp : Keyfile)
    → Free is_newline text
    → IsSkipped tail rest (after_comment text s) tmp
    → IsSkipped (b'#' ∷ (text ++ (b'\n' ∷ tail))) rest s tmp
comment_line text tail rest s tmp f later = record {
  state = later.state;
  group = later.group ∙ group-after_comment text s;
  reads =
      reading-line (b'#' ∷ text) tail rest s tmp (refl, f)
      ∙ read_lines-comment text (get_lines (tail ++ rest)) s tmp
      ∙ later.reads;
}

skip_nothing : (rest : Text) (s : State) (tmp : Keyfile) → IsSkipped [] rest s tmp
skip_nothing rest s tmp = record { state = s; group = refl; reads = refl }

if_more :
    (b : Bool) (more rest : Text) (s : State) (tmp : Keyfile)
    → IsSkipped more rest s tmp
    → IsSkipped (if b then [] else more) rest s tmp
if_more true more rest s tmp h = skip_nothing rest s tmp
if_more false more rest s tmp h = h

-- What follows the newline that was found is shorter.
shorter :
    (fuel : ℕ) (comment : Text) (r : Found)
    → IsCut is_newline comment r
    → length comment < suc fuel
    → length (drop 1 r.at) < fuel
shorter fuel comment r h enough = rw h.starts (
    omega (
      arith,
      enough,
      ap length (h.whole ∙ ap (λ t. r.before ++ t) h.starts),
      length-append r.before (h.char ∷ h.rest),
    ))

comment_step :
    (fuel : ℕ) (comment rest : Text) (s : State) (tmp : Keyfile) (o : Option Found)
    → find_first is_newline comment ≡ o
    → FindSpec is_newline comment o
    → length comment < suc fuel
    → ((text : Text) (t : State)
        → length text < fuel
        → IsSkipped (print_comment_loop fuel text) rest t tmp)
    → IsSkipped (print_comment_loop (suc fuel) comment) rest s tmp
unfolding print_comment_loop
comment_step fuel comment rest s tmp none e h enough ih =
    rw (e, print_comment_loop)
      (comment_line comment [] rest s tmp h (skip_nothing rest (after_comment comment s) tmp))
comment_step fuel comment rest s tmp (some r) e h enough ih =
    rw (e, print_comment_loop)
      (comment_line r.before _ rest s tmp h.clean (
        if_more (is_empty (drop 1 r.at)) (print_comment_loop fuel (drop 1 r.at)) rest
          (after_comment r.before s) tmp
          (ih (drop 1 r.at) (after_comment r.before s) (shorter fuel comment r h enough))))

comment_loop_reads :
    (fuel : ℕ) (comment rest : Text) (s : State) (tmp : Keyfile)
    → length comment < fuel
    → IsSkipped (print_comment_loop fuel comment) rest s tmp
comment_loop_reads zero comment rest s tmp enough = absurd (omega arith)
comment_loop_reads (suc fuel) comment rest s tmp enough =
    comment_step fuel comment rest s tmp (find_first is_newline comment) refl
      (find_first_lem is_newline comment) enough
      (λ text t h. comment_loop_reads fuel text rest t tmp h)

-- Whatever its text, a comment is skipped.
pub print_comment-IsSkipped :
    (comment rest : Text) (s : State) (tmp : Keyfile) → IsSkipped (print_comment comment) rest s tmp
unfolding print_comment
print_comment-IsSkipped [] rest s tmp = skip_nothing rest s tmp
print_comment-IsSkipped (c ∷ comment) rest s tmp =
    comment_loop_reads (suc (length (c ∷ comment))) (c ∷ comment) rest s tmp (omega arith)
