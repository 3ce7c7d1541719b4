-- ===== src/Keyfile/Lines.antt =====
-- What each line of a file does when `operator >>` of sbuild/sbuild-basic-keyfile.h reads it.
use schroot.Prelude.{
  ℕ, ◌+◌, ◌≡◌, refl, ap, true, false, List, [], ◌∷◌, ◌++◌, Text, nat_eq, ◌==◌, is_empty,
}
use schroot.Util.Split.Laws.{Free, find_first-append}
use schroot.Keyfile.{Keyfile, ok, has_group, has_key, set_group, set_value}
use schroot.Keyfile.Printer.{is_newline}
use schroot.Keyfile.Parser.{
  State, clear, parse_group, parse_item, parse_comment, parse_line, insert_group, insert_item,
  get_lines, read_lines, count_line, is_close, is_equals,
}

pub get_lines-append :
    (line text : Text)
    → Free is_newline line
    → get_lines (line ++ (b'\n' ∷ text)) ≡ line ∷ get_lines text
unfolding get_lines
get_lines-append [] text h = refl
get_lines-append (c ∷ line) text h = rw (h.0, get_lines-append line text h.1) refl

abbrev next : State → State
next s = record s { line_number = s.line_number + 1 }

abbrev pub after_comment : Text → State → State
after_comment text s = next (parse_comment text (clear s))

abbrev pub after_blank : State → State
after_blank s = next (clear s)

abbrev pub after_group : Text → State → State
after_group group s =
    next (record (clear s) { group = group; comment_set = true; group_set = true })

abbrev pub after_item : Text → Text → State → State
after_item key value s = next (record (clear s) {
  key = key;
  value = value;
  comment_set = true;
  key_set = true;
  value_set = true;
})

read_lines-step :
    (line : Text) (lines : List Text) (s s' : State) (tmp grouped done : Keyfile)
    → parse_line line s ≡ ok s'
    → insert_group s' tmp ≡ ok grouped
    → insert_item s' grouped ≡ ok done
    → read_lines (line ∷ lines) s tmp ≡ read_lines lines s' done
unfolding read_lines
read_lines-step line lines s s' tmp grouped done e1 e2 e3 = rw (e1, e2, e3, read_lines) refl

pub read_lines-blank :
    (lines : List Text) (s : State) (tmp : Keyfile)
    → read_lines ([] ∷ lines) s tmp ≡ read_lines lines (after_blank s) tmp
unfolding read_lines parse_line insert_group insert_item clear
read_lines-blank lines s tmp = refl

pub read_lines-comment :
    (text : Text) (lines : List Text) (s : State) (tmp : Keyfile)
    → read_lines ((b'#' ∷ text) ∷ lines) s tmp ≡ read_lines lines (after_comment text s) tmp
unfolding read_lines parse_line insert_group insert_item clear parse_comment
read_lines-comment text lines s tmp = refl

-- The name of a group that can be printed and read.
pub record IsGroupName (group : Text) : Type 0 where
  pub ne_nil : is_empty group ≡ false
  pub one_line : Free is_newline group
  pub no_bracket : Free is_close group

parse_group-name :
    (group : Text) (s : State)
    → IsGroupName group
    → parse_group (b'[' ∷ (group ++ b']' ∷ [])) s
      ≡ ok (record s { group = group; comment_set = true; group_set = true })
unfolding parse_group
parse_group-name group s n =
    rw (find_first-append is_close (b'[' ∷ group) b']' [] (refl, n.no_bracket) refl, parse_group)
      (rw n.ne_nil refl)

pub read_lines-group :
    (group : Text) (lines : List Text) (s : State) (tmp : Keyfile)
    → IsGroupName group
    → has_group group tmp ≡ false
    → read_lines ((b'[' ∷ (group ++ b']' ∷ [])) ∷ lines) s tmp
      ≡ read_lines lines
          (after_group group s)
          (set_group group (after_group group s).comment (s.line_number + 1) tmp)
unfolding parse_line clear
read_lines-group group lines s tmp n h =
    let s' = after_group group s in
    let done = set_group group s'.comment (s.line_number + 1) tmp in
    read_lines-step (b'[' ∷ (group ++ b']' ∷ [])) lines s s' tmp done done
      (ap count_line (parse_group-name group (clear s) n)) (unfold insert_group clear in rw h refl)
      (unfold insert_item clear in refl)

-- A key that can be printed and read.
pub record IsKey (key : Text) : Type 0 where
  pub ne_nil : is_empty key ≡ false
  pub one_line : Free is_newline key
  pub no_equals : Free is_equals key
  pub plain : (c : ℕ) (rest : Text) → key ≡ c ∷ rest → ((c == b'#') ≡ false) × ((c == b'[') ≡ false)

parse_item-key :
    (key value : Text) (s : State)
    → IsKey key
    → is_empty s.group ≡ false
    → parse_item (key ++ b'=' ∷ value) s
      ≡ ok (record s {
        key = key;
        value = value;
        comment_set = true;
        key_set = true;
        value_set = true;
      })
unfolding parse_item
parse_item-key key value s n g =
    rw (find_first-append is_equals key b'=' value n.no_equals refl, parse_item)
      (rw (n.ne_nil, g) refl)

pub read_lines-item :
    (key value : Text) (lines : List Text) (s : State) (tmp : Keyfile)
    → IsKey key
    → is_empty s.group ≡ false
    → has_key s.group key tmp ≡ false
    → read_lines ((key ++ b'=' ∷ value) ∷ lines) s tmp
      ≡ read_lines lines
          (after_item key value s)
          (set_value s.group key value (after_item key value s).comment (s.line_number + 1) tmp)
unfolding parse_line clear
read_lines-item [] value lines s tmp n g h = cc n.ne_nil
read_lines-item (c ∷ key) value lines s tmp n g h =
    let s' = after_item (c ∷ key) value s in
    let done = set_value s.group (c ∷ key) value s'.comment (s.line_number + 1) tmp in
    let (hash, bracket) = n.plain c key refl in
    read_lines-step (c ∷ (key ++ b'=' ∷ value)) lines s s' tmp tmp done
      (rw (hash, bracket) (ap count_line (parse_item-key (c ∷ key) value (clear s) n g)))
      (unfold insert_group clear in refl) (unfold insert_item clear in rw h refl)
