-- ===== src/Util/Split/Lines.antt =====
-- `split_string_strict` of sbuild/sbuild-util.cc returns the lines that a separator ends.
use schroot.Prelude.{
  ℕ, zero, suc, ◌<◌, ◌≡◌, refl, ap, sym, ◌∙◌, true, Option, none, some, List, [], ◌∷◌, ◌++◌, Text,
  nat_eq, nat_beq_iff, contains, length, length-append, All, arith, append_assoc,
}
use schroot.Util.Split.{Found, find_first, find_first_of, split_strict_loop, split_string_strict}
use schroot.Util.Split.Laws.{Free, FindSpec, find_first_lem}

-- Lines, each followed by the character that ends it.
abbrev pub terminated : ℕ → List Text → Text
terminated c [] = []
terminated c (s ∷ list) = s ++ (c ∷ terminated c list)

-- The lines of a text that `c` ends, and what is left after the last of them.
pub record IsSplit (c : ℕ) (value : Text) (lines : List Text) : Type 0 where
  pub tail : Text
  pub whole : value ≡ terminated c lines ++ tail
  pub clean : All (Free (contains (c ∷ []))) lines
  pub open_end : Free (contains (c ∷ [])) tail

contains-one : (c d : ℕ) → contains (c ∷ []) d ≡ true → d ≡ c
contains-one c d h = ground (arith, nat_beq_iff c d)

length-cut : (a s : Text) (c : ℕ) (value : Text) → value ≡ a ++ c ∷ s → length s < length value
length-cut a s c value e = omega (arith, ap length e, length-append a (c ∷ s))

abbrev Splits : ℕ → ℕ → Type 0
Splits fuel c =
    (value : Text) → length value < fuel → IsSplit c value (split_strict_loop fuel (c ∷ []) value)

IsSplit-strict_step :
    (fuel c : ℕ) (value : Text) (o : Option Found)
    → Splits fuel c
    → FindSpec (contains (c ∷ [])) value o
    → find_first (contains (c ∷ [])) value ≡ o
    → length value < suc fuel
    → IsSplit c value (split_strict_loop (suc fuel) (c ∷ []) value)
unfolding split_strict_loop find_first_of
IsSplit-strict_step fuel c value none ih h e enough =
    rw (e, split_strict_loop, find_first_of)
      (record { tail = value; whole = refl; clean = tt; open_end = h })
IsSplit-strict_step fuel c value (some r) ih h e enough =
    let is_c = contains-one c h.char h.passes in
    let cut = h.whole ∙ ap (λ t. r.before ++ t) (h.starts ∙ ap (λ d. d ∷ h.rest) is_c) in
    let later = ih h.rest (omega (arith, length-cut r.before h.rest c value cut)) in
    rw (e, split_strict_loop, find_first_of, h.starts)
      (record {
        tail = later.tail;
        whole =
            cut
            ∙ ap (λ t. r.before ++ c ∷ t) later.whole
            ∙ sym (append_assoc r.before (c ∷ terminated c _) later.tail);
        clean = (h.clean, later.clean);
        open_end = later.open_end;
      })

split_strict_loop_lem : (fuel c : ℕ) → Splits fuel c
split_strict_loop_lem zero c value h = elim h [ ]
split_strict_loop_lem (suc fuel) c value h =
    IsSplit-strict_step fuel c value (find_first (contains (c ∷ [])) value)
      (split_strict_loop_lem fuel c) (find_first_lem (contains (c ∷ [])) value) refl h

-- For a separator of one character the pieces are the lines that it ends, in order and with
-- nothing lost between them; what follows the last separator is in no piece.
pub split_string_strict_lem :
    (value : Text) (c : ℕ) → IsSplit c value (split_string_strict value (c ∷ []))
unfolding split_string_strict
split_string_strict_lem value c = split_strict_loop_lem (suc (length value)) c value (omega arith)
