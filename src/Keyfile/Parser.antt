-- ===== src/Keyfile/Parser.antt =====
-- sbuild/sbuild-keyfile.h: `keyfile_parser`, and `operator >>` of sbuild/sbuild-basic-keyfile.h.
use schroot.Prelude.{
  ℕ, ◌+◌, Bool, true, false, ◌&&◌, none, some, List, [], ◌∷◌, ◌++◌, Text, any, nat_eq, ◌==◌,
  is_empty, if◌then◌else◌,
}
use schroot.Util.Split.{find_first, drop}
use schroot.Keyfile.{
  Keyfile, duplicate_group, duplicate_key, invalid_group, invalid_line, no_group, no_key, Result,
  ok, error, has_group, has_key, set_group, set_value, add_keyfile,
}

pub record State : Type 0 where
  pub group : Text
  pub group_set : Bool
  pub key : Text
  pub key_set : Bool
  pub value : Text
  pub value_set : Bool
  pub comment : Text
  pub comment_set : Bool
  pub line_number : ℕ

abbrev pub initial : State
initial = record {
  group = [];
  group_set = false;
  key = [];
  key_set = false;
  value = [];
  value_set = false;
  comment = [];
  comment_set = false;
  line_number = 0;
}

-- What the last line set is cleared, but for the group.
unfoldable pub clear : State → State
clear s = record s {
  comment = if s.comment_set then [] else s.comment;
  comment_set = false;
  group_set = false;
  key = if s.key_set then [] else s.key;
  key_set = false;
  value = if s.value_set then [] else s.value;
  value_set = false;
}

abbrev pub is_close : ℕ → Bool
is_close c = c == b']'

-- A line that starts with an opening bracket; it is cut at the first closing one.
unfoldable pub parse_group : Text → State → Result State
unfolding find_first
parse_group line s = elim (find_first is_close line) [
  | none ↦ error s.line_number invalid_group
  | some f ↦
      if any is_close (drop 1 f.at)
      then error s.line_number invalid_group
      else if is_empty (drop 1 f.before)
      then error s.line_number invalid_group
      else ok (record s { group = drop 1 f.before; comment_set = true; group_set = true })
]

abbrev pub is_equals : ℕ → Bool
is_equals c = c == b'='

unfoldable pub parse_item : Text → State → Result State
unfolding find_first
parse_item line s = elim (find_first is_equals line) [
  | none ↦ error s.line_number invalid_line
  | some f ↦
      if is_empty f.before
      then error s.line_number no_key
      else if is_empty s.group
      then error s.line_number no_group
      else ok (record s {
        key = f.before;
        value = drop 1 f.at;
        comment_set = true;
        key_set = true;
        value_set = true;
      })
]

unfoldable pub parse_comment : Text → State → State
parse_comment text s = record s {
  comment = (if is_empty s.comment then [] else s.comment ++ b'\n' ∷ []) ++ text;
}

abbrev pub count_line : Result State → Result State
count_line (ok s) = ok (record s { line_number = s.line_number + 1 })
count_line (error line code) = error line code

abbrev pub parse_content : Text → State → Result State
parse_content [] s = ok s
parse_content (c ∷ line) s =
    if c == b'#'
    then ok (parse_comment line s)
    else if c == b'['
    then parse_group (c ∷ line) s
    else parse_item (c ∷ line) s

unfoldable pub parse_line : Text → State → Result State
parse_line line s = count_line (parse_content line (clear s))

-- What a line has set goes into the file that is read.
unfoldable pub insert_group : State → Keyfile → Result Keyfile
insert_group s tmp =
    if s.group_set
    then (if has_group s.group tmp
        then error s.line_number duplicate_group
        else ok (set_group s.group s.comment s.line_number tmp))
    else ok tmp

unfoldable pub insert_item : State → Keyfile → Result Keyfile
insert_item s tmp =
    if s.key_set && s.value_set
    then (if has_key s.group s.key tmp
        then error s.line_number duplicate_key
        else ok (set_value s.group s.key s.value s.comment s.line_number tmp))
    else ok tmp

-- The lines that `std::getline` reads.
abbrev pub onto_line : ℕ → List Text → List Text
onto_line c [] = (c ∷ []) ∷ []
onto_line c (l ∷ lines) = (c ∷ l) ∷ lines

unfoldable pub get_lines : Text → List Text
get_lines [] = []
get_lines (c ∷ text) =
    let rest = get_lines text in if c == b'\n' then [] ∷ rest else onto_line c rest

-- The loop of `operator >>`.
unfoldable pub read_lines : List Text → State → Keyfile → Result Keyfile
read_lines [] s tmp = ok tmp
read_lines (line ∷ lines) s tmp = elim (parse_line line s) [
  | error n code ↦ error n code
  | ok s' ↦ elim (insert_group s' tmp) [
    | error n code ↦ error n code
    | ok grouped ↦ elim (insert_item s' grouped) [
      | error n code ↦ error n code
      | ok done ↦ read_lines lines s' done
    ]
  ]
]

-- `operator >>` into a file
unfoldable pub read : Text → Keyfile → Result Keyfile
read text kf = elim (read_lines (get_lines text) initial []) [
  | error n code ↦ error n code
  | ok tmp ↦ ok (add_keyfile kf tmp)
]
