-- ===== src/Util/Split/Words.antt =====
-- `split_string` of sbuild/sbuild-util.cc inverts `string_list_to_string`.
use schroot.Prelude.{
  ℕ, zero, suc, ◌≤◌, ◌<◌, ◌≡◌, refl, true, false, some, List, [], ◌∷◌, Text, nat_eq, nat_beq_iff,
  contains, length, length-append, All, arith,
}
use schroot.Util.Split.{
  find_first, find_first_of, find_first_not_of, position, split_loop, split_string,
  string_list_to_string,
}
use schroot.Util.Split.Laws.{Free, find_first-Free, find_first-append}

-- Not empty, and without the character `c`.
abbrev pub IsWord : ℕ → Text → Type 0
IsWord c [] = ⊥
IsWord c (d ∷ s) = (contains (c ∷ []) d ≡ false) × Free (contains (c ∷ [])) s

IsWord-Free : (c : ℕ) (s : Text) → IsWord c s → Free (contains (c ∷ [])) s
IsWord-Free c [] w = absurd w
IsWord-Free c (d ∷ s) w = w

contains_self : (c : ℕ) → contains (c ∷ []) c ≡ true
contains_self c = ground (arith, nat_beq_iff c c)

-- After a separator the next word is found at once.
skip_one :
    (c d : ℕ) (t : Text)
    → contains (c ∷ []) d ≡ false
    → position (find_first_not_of (c ∷ []) (some (c ∷ d ∷ t))) ≡ some (d ∷ t)
unfolding find_first_not_of find_first
skip_one c d t e = ground (arith, nat_beq_iff c c)

skip_to_join :
    (c : ℕ) (s : Text) (list : List Text)
    → IsWord c s
    → position (find_first_not_of (c ∷ []) (some (c ∷ string_list_to_string (s ∷ list) (c ∷ []))))
      ≡ some (string_list_to_string (s ∷ list) (c ∷ []))
unfolding string_list_to_string
skip_to_join c [] list w = absurd w
skip_to_join c (d ∷ s) [] w = skip_one c d s w.0
skip_to_join c (d ∷ s) (u ∷ list) w = skip_one c d _ w.0

start_at_join :
    (c : ℕ) (s : Text) (list : List Text)
    → IsWord c s
    → position (find_first_not_of (c ∷ []) (some (string_list_to_string (s ∷ list) (c ∷ []))))
      ≡ some (string_list_to_string (s ∷ list) (c ∷ []))
unfolding string_list_to_string find_first_not_of find_first
start_at_join c [] list w = absurd w
start_at_join c (d ∷ s) [] w = rw (w.0)
start_at_join c (d ∷ s) (u ∷ list) w = rw (w.0)

split_loop-join :
    (fuel c : ℕ) (s : Text) (list : List Text)
    → length list < fuel
    → All (IsWord c) (s ∷ list)
    → split_loop fuel (c ∷ []) (some (string_list_to_string (s ∷ list) (c ∷ []))) ≡ s ∷ list
unfolding split_loop string_list_to_string find_first_of
split_loop-join zero c s list h w = elim h [ ]
split_loop-join (suc fuel) c s [] h w =
    rw (find_first-Free (contains (c ∷ [])) s (IsWord-Free c s w.0), split_loop)
split_loop-join (suc fuel) c s (u ∷ list) h w = rw (
  find_first-append (contains (c ∷ [])) s c (string_list_to_string (u ∷ list) (c ∷ []))
      (IsWord-Free c s w.0) (contains_self c),
  split_loop,
  skip_to_join c u list w.1.0,
  split_loop-join fuel c u list (omega arith) w.1,
)

length-join :
    (c : ℕ) (s : Text) (list : List Text)
    → length list ≤ length (string_list_to_string (s ∷ list) (c ∷ []))
unfolding string_list_to_string
length-join c s [] = omega arith
length-join c s (u ∷ list) =
    omega
      (arith, length-append s (c ∷ string_list_to_string (u ∷ list) (c ∷ [])), length-join c u list)

-- Words that are not empty, joined by one character that none of them contains, are split into the
-- same words.
pub split_string-string_list_to_string :
    (c : ℕ) (list : List Text)
    → All (IsWord c) list
    → split_string (string_list_to_string list (c ∷ [])) (c ∷ []) ≡ list
unfolding split_string
split_string-string_list_to_string c [] w =
    unfold string_list_to_string split_loop find_first_not_of find_first in refl
split_string-string_list_to_string c (s ∷ list) w = rw (start_at_join c s list w.0) (
    split_loop-join (suc (length (string_list_to_string (s ∷ list) (c ∷ [])))) c s list
      (omega (arith, length-join c s list)) w)
