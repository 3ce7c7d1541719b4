-- ===== src/Util/Path.antt =====
-- sbuild/sbuild-util.cc: `basename`, `dirname`, `normalname` and `remove_duplicates`. Each of the
-- first three reads the character before an empty name, whose value is not defined: `none`.
use schroot.Prelude.{
  ℕ, Bool, true, false, ◌&&◌, Option, none, some, [], ◌∷◌, reverse, Text, nat_eq, ◌==◌,
  if◌then◌else◌,
}
use schroot.Util.Split.{find_first}

abbrev pub is_separator : ℕ → Bool
is_separator c = c == b'/'

-- The loops of `remove_duplicates`; the flag is set where the last character kept was `dup`.
unfoldable pub remove_duplicates_from : Bool → ℕ → Text → Text
remove_duplicates_from after dup [] = []
remove_duplicates_from after dup (c ∷ str) =
    if after && c == dup
    then remove_duplicates_from true dup str
    else c ∷ remove_duplicates_from (c == dup) dup str

unfoldable pub remove_duplicates : Text → ℕ → Text
remove_duplicates str dup = remove_duplicates_from false dup str

-- The loop that removes trailing separators from the end of a name, which is here its head. It
-- keeps one character.
unfoldable pub trim : Text → Text
trim [] = []
trim (c ∷ []) = c ∷ []
trim (c ∷ d ∷ s) = if is_separator c then trim (d ∷ s) else c ∷ d ∷ s

-- A name of one separator.
abbrev is_root : Text → Bool
is_root [] = false
is_root (c ∷ []) = is_separator c
is_root (c ∷ d ∷ s) = false

-- The three functions on the reversed name, where `rfind` finds the first separator.
unfoldable pub base_part : Text → Text
unfolding find_first
base_part r = elim (find_first is_separator r) [
  | none ↦ reverse r
  | some f ↦ if is_root r then b'/' ∷ [] else reverse f.before
]

-- The separator that was found and what stands before it, reversed.
abbrev dir_before : Text → Text
dir_before [] = []
dir_before (c ∷ []) = b'/' ∷ []
dir_before (c ∷ d ∷ s) = reverse (d ∷ s)

unfoldable pub dir_part : Text → Text
unfolding find_first
dir_part r = elim (find_first is_separator r) [ none ↦ b'.' ∷ [] | some f ↦ dir_before f.at ]

abbrev on_name : (Text → Text) → Text → Option Text
on_name part [] = none
on_name part (c ∷ name) = some (remove_duplicates (part (trim (reverse (c ∷ name)))) b'/')

unfoldable pub basename : Text → Option Text
basename name = on_name base_part name

unfoldable pub dirname : Text → Option Text
dirname name = on_name dir_part name

unfoldable pub normalname : Text → Option Text
normalname name = on_name reverse name
