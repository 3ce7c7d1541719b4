-- ===== src/Tests/Keyfiles.antt =====
-- The theorems of the key files at concrete inputs.
use schroot.Prelude.{◌≡◌, refl, [], ◌∷◌, Text, codes, text_ltb, text_eq, nat_eq, arith}
use schroot.Prelude.Map.Order.{IsSorted}
use schroot.Util.Split.{find_first}
use schroot.Keyfile.{Group, add_keyfile, Keyfile, ok, invalid_line}
use schroot.Keyfile.Values.{or_else, get_value}
use schroot.Keyfile.Parser.{
  initial, read, read_lines, parse_line, parse_item, parse_comment, insert_group, insert_item,
  clear,
}
use schroot.Keyfile.Lines.{IsGroupName, IsKey}
use schroot.Keyfile.Printer.{print}
use schroot.Keyfile.Content.{IsPrintable, content}
use schroot.Keyfile.RoundTrip.{read-print}
use schroot.Keyfile.Merge.{get_value-add_keyfile}
use schroot.Keyfile.Errors.{IsErrorAt, read_lines-error}

abbrev sid : Text
sid = codes "sid"

abbrev sid_file : Keyfile
sid_file =
    (
      sid,
      record {
        items =
            (codes "type", record { value = codes "file"; comment = codes "a#b"; line = 3 })
            ∷ (codes "users", record { value = codes "al,bo"; comment = []; line = 4 })
            ∷ [];
        comment = [];
        line = 1;
      },
    )
    ∷ (codes "x", record { items = []; comment = []; line = 9 })
    ∷ []

sid_file-IsSorted : IsSorted sid_file
unfolding text_ltb
sid_file-IsSorted = ((refl, tt), (tt, tt))

sid-IsGroupName : IsGroupName sid
sid-IsGroupName = record {
  ne_nil = refl;
  one_line = (refl, (refl, (refl, tt)));
  no_bracket = (refl, (refl, (refl, tt)));
}

type-IsKey : IsKey (codes "type")
type-IsKey = record {
  ne_nil = refl;
  one_line = (refl, (refl, (refl, (refl, tt))));
  no_equals = (refl, (refl, (refl, (refl, tt))));
  plain = λ c rest e. ground (arith, e);
}

users-IsKey : IsKey (codes "users")
users-IsKey = record {
  ne_nil = refl;
  one_line = (refl, (refl, (refl, (refl, (refl, tt)))));
  no_equals = (refl, (refl, (refl, (refl, (refl, tt)))));
  plain = λ c rest e. ground (arith, e);
}

x-IsGroupName : IsGroupName (codes "x")
x-IsGroupName = record { ne_nil = refl; one_line = (refl, tt); no_bracket = (refl, tt) }

sid_file-IsPrintable : IsPrintable sid_file
unfolding text_ltb
sid_file-IsPrintable = (
  sid-IsGroupName,
  ((refl, tt), (tt, tt)),
  (
    type-IsKey,
    (refl, (refl, (refl, (refl, tt)))),
    (users-IsKey, (refl, (refl, (refl, (refl, (refl, tt))))), tt),
  ),
  (x-IsGroupName, tt, tt, tt),
)

read-print_example :
    (kf' : Keyfile) × (read (print sid_file) [] ≡ ok kf') × (content kf' ≡ content sid_file)
read-print_example = read-print sid_file sid_file-IsSorted sid_file-IsPrintable

abbrev none_set : Group
none_set = record { items = []; comment = []; line = 1 }

-- The second line is refused, as if it were the first.
read_lines-error_example : IsErrorAt initial [] (codes "#" ∷ codes "?" ∷ []) 1 invalid_line
unfolding read_lines parse_line parse_item parse_comment insert_group insert_item clear find_first
read_lines-error_example =
    read_lines-error (codes "#" ∷ codes "?" ∷ []) initial [] 1 invalid_line refl

get_value-add_keyfile_example :
    get_value sid (codes "type") (add_keyfile ((sid, none_set) ∷ []) sid_file)
    ≡ or_else
        (get_value sid (codes "type") sid_file)
        (get_value sid (codes "type") ((sid, none_set) ∷ []))
unfolding text_ltb
get_value-add_keyfile_example =
    get_value-add_keyfile sid (codes "type") ((sid, none_set) ∷ []) sid_file sid_file-IsSorted
      (((refl, tt), (tt, tt)), (tt, tt))
