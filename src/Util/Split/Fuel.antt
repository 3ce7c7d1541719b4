-- ===== src/Util/Split/Fuel.antt =====
-- The rounds of the loop of `split_string` (sbuild/sbuild-util.cc).
use schroot.Prelude.{
  ℕ, zero, suc, ◌≤◌, ◌<◌, ◌≡◌, refl, ap, sym, subst, Bool, true, not, Option, none, some, List, [],
  ◌∷◌, ◌++◌, Text, nat_eq, contains, length, arith,
}
use schroot.Util.Split.{
  extend, Found, find_first, find_first_of, find_first_not_of, position, split_loop, split_string,
}
use schroot.Util.Split.Laws.{IsCut, FindSpec, find_first_lem}

-- More rounds than the text that is left has characters.
abbrev IsEnough : ℕ → Option Text → Type 0
IsEnough fuel none = 0 < fuel
IsEnough fuel (some s) = length s < fuel

length-append_le : (a b : Text) → length b ≤ length (a ++ b)
length-append_le [] b = omega arith
length-append_le (c ∷ a) b = let le = length-append_le a b in omega arith

IsCut-le : (p : ℕ → Bool) (s : Text) (r : Found) → IsCut p s r → length r.at ≤ length s
IsCut-le p s r h =
    subst (λ (t : Text). length r.at ≤ length t) (sym h.whole) (length-append_le r.before r.at)

position-IsEnough :
    (p : ℕ → Bool) (s : Text) (o : Option Found) (fuel : ℕ)
    → FindSpec p s o
    → length s < fuel
    → IsEnough fuel (position o)
position-IsEnough p s none fuel h l = omega arith
position-IsEnough p s (some r) fuel h l = let le = IsCut-le p s r h in omega arith

position-extend : (c : ℕ) (o : Option Found) → position (extend c o) ≡ position o
position-extend c none = refl
position-extend c (some r) = refl

-- What follows a separator is shorter than the text with it.
skip-IsEnough :
    (separator : Text) (c : ℕ) (rest : Text) (fuel : ℕ)
    → contains separator c ≡ true
    → length (c ∷ rest) < suc fuel
    → IsEnough fuel (position (find_first_not_of separator (some (c ∷ rest))))
unfolding find_first_not_of find_first
skip-IsEnough separator c rest fuel h l =
    let other : ℕ → Bool = λ d. not (contains separator d) in
    rw h (
      subst (IsEnough fuel) (sym (position-extend c (find_first other rest))) (
        position-IsEnough other rest (find_first other rest) fuel (find_first_lem other rest)
          (omega (arith, l))))

next-IsEnough :
    (separator s : Text) (r : Found) (fuel : ℕ)
    → IsCut (contains separator) s r
    → length s < suc fuel
    → IsEnough fuel (position (find_first_not_of separator (some r.at)))
next-IsEnough separator s r fuel h l =
    let le = IsCut-le (contains separator) s r h in
    subst (λ at. IsEnough fuel (position (find_first_not_of separator (some at)))) (sym h.starts)
      (skip-IsEnough separator h.char h.rest fuel h.passes
        (subst (λ (at : Text). length at < suc fuel) h.starts (omega (arith, le, l))))

abbrev words_after : ℕ → Text → Text → Option Found → List Text
words_after fuel separator s none = s ∷ []
words_after fuel separator s (some r) =
    r.before ∷ split_loop fuel separator (position (find_first_not_of separator (some r.at)))

words_after-enough :
    (f g : ℕ) (separator s : Text) (o : Option Found)
    → FindSpec (contains separator) s o
    → length s < suc f
    → length s < suc g
    → ((left : Option Text)
        → IsEnough f left
        → IsEnough g left
        → split_loop f separator left ≡ split_loop g separator left)
    → words_after f separator s o ≡ words_after g separator s o
words_after-enough f g separator s none spec e h same = refl
words_after-enough f g separator s (some r) spec e h same =
    ap (λ words. r.before ∷ words)
      (same _ (next-IsEnough separator s r f spec e) (next-IsEnough separator s r g spec h))

-- Any two numbers of rounds that are enough give the same words.
split_loop-enough :
    (f g : ℕ) (separator : Text) (o : Option Text)
    → IsEnough f o
    → IsEnough g o
    → split_loop f separator o ≡ split_loop g separator o
unfolding split_loop find_first_of
split_loop-enough zero g separator none e h = absurd (omega (arith, e))
split_loop-enough zero g separator (some s) e h = absurd (omega (arith, e))
split_loop-enough (suc f) zero separator none e h = absurd (omega (arith, h))
split_loop-enough (suc f) zero separator (some s) e h = absurd (omega (arith, h))
split_loop-enough (suc f) (suc g) separator none e h = refl
split_loop-enough (suc f) (suc g) separator (some s) e h =
    words_after-enough f g separator s (find_first (contains separator) s)
      (find_first_lem (contains separator) s) e h (split_loop-enough f g separator)

-- The loop of `split_string` ends: with any number of rounds that is larger than the length of the
-- value it returns the words of `split_string`, so that no more rounds are needed.
pub split_loop-split_string :
    (fuel : ℕ) (value separator : Text)
    → length value < fuel
    → split_loop fuel separator (position (find_first_not_of separator (some value)))
      ≡ split_string value separator
unfolding split_string find_first_not_of
split_loop-split_string fuel value separator h =
    let other : ℕ → Bool = λ d. not (contains separator d) in
    let spec = find_first_lem other value in
    split_loop-enough fuel (suc (length value)) separator _
      (position-IsEnough other value (find_first other value) fuel spec h)
      (position-IsEnough other value (find_first other value) (suc (length value)) spec
        (omega arith))
