-- ===== src/Keyfile/Printer.antt =====
-- `operator <<` and `print_comment` of sbuild/sbuild-basic-keyfile.{h,tcc}.
use schroot.Prelude.{
  ℕ, zero, suc, Bool, true, false, none, some, [], ◌∷◌, ◌++◌, Text, nat_eq, ◌==◌, is_empty, length,
  if◌then◌else◌,
}
use schroot.Util.Split.{find_first, drop}
use schroot.Keyfile.{Keyfile, Items}

abbrev pub is_newline : ℕ → Bool
is_newline c = c == b'\n'

-- The loop of `print_comment`, from `last_pos` on. It goes on after a newline that is not the last
-- character.
unfoldable pub print_comment_loop : ℕ → Text → Text
unfolding find_first
print_comment_loop zero comment = []
print_comment_loop (suc fuel) comment = elim (find_first is_newline comment) [
  | none ↦ b'#' ∷ (comment ++ b'\n' ∷ [])
  | some f ↦
      let rest = print_comment_loop fuel (drop 1 f.at) in
      b'#' ∷ (f.before ++ b'\n' ∷ (if is_empty (drop 1 f.at) then [] else rest))
]

-- A comment is printed where it is not empty.
unfoldable pub print_comment : Text → Text
unfolding print_comment_loop
print_comment comment =
    if is_empty comment then [] else print_comment_loop (suc (length comment)) comment

unfoldable pub print_items : Items → Text
print_items [] = []
print_items ((key, i) ∷ items) =
    print_comment i.comment ++ (key ++ b'=' ∷ (i.value ++ b'\n' ∷ print_items items))

-- The flag is set for a group that is not the first.
unfoldable pub print_groups : Bool → Keyfile → Text
print_groups later [] = []
print_groups later ((group, g) ∷ kf) =
    (if later then b'\n' ∷ [] else [])
    ++ (print_comment g.comment
        ++ (b'[' ∷ (group ++ b']' ∷ b'\n' ∷ (print_items g.items ++ print_groups true kf))))

unfoldable pub print : Keyfile → Text
print kf = print_groups false kf
