-- ===== src/Util/Split/Laws.antt =====
-- What the splitting functions of sbuild/sbuild-util.cc return.
use schroot.Prelude.{
  ℕ, ◌≡◌, refl, ap, Bool, true, false, Option, none, some, [], ◌∷◌, ◌++◌, Text, nat_eq, All,
  Bool-cases, inl, inr,
}
use schroot.Util.Split.{Found, find_first}

-- No character passes the test.
abbrev pub Free : (ℕ → Bool) → Text → Type 0
Free p = All (λ c. p c ≡ false)

-- The text is cut at its first character that passes.
pub record IsCut (p : ℕ → Bool) (s : Text) (r : Found) : Type 0 where
  pub whole : s ≡ r.before ++ r.at
  pub clean : Free p r.before
  pub char : ℕ
  pub rest : Text
  pub starts : r.at ≡ char ∷ rest
  pub passes : p char ≡ true

abbrev pub FindSpec : (ℕ → Bool) → Text → Option Found → Type 0
FindSpec p s none = Free p s
FindSpec p s (some r) = IsCut p s r

FindSpec-cons :
    (p : ℕ → Bool) (c : ℕ) (s : Text) (o : Option Found)
    → find_first p s ≡ o
    → p c ≡ false
    → FindSpec p s o
    → FindSpec p (c ∷ s) (find_first p (c ∷ s))
unfolding find_first
FindSpec-cons p c s none e f h = rw (f, e) (f, h)
FindSpec-cons p c s (some r) e f h =
    rw (f, e)
      (record {
        whole = ap (λ t. c ∷ t) h.whole;
        clean = (f, h.clean);
        char = h.char;
        rest = h.rest;
        starts = h.starts;
        passes = h.passes;
      })

pub find_first_lem : (p : ℕ → Bool) (s : Text) → FindSpec p s (find_first p s)
unfolding find_first
find_first_lem p [] = tt
find_first_lem p (c ∷ s) = elim (Bool-cases (p c)) [
  | inl yes' ↦
      rw yes'
        (record { whole = refl; clean = tt; char = c; rest = s; starts = refl; passes = yes' })
  | inr no' ↦ FindSpec-cons p c s (find_first p s) refl no' (find_first_lem p s)
]

pub find_first-Free : (p : ℕ → Bool) (s : Text) → Free p s → find_first p s ≡ none
unfolding find_first
find_first-Free p [] h = refl
find_first-Free p (c ∷ s) h = rw (h.0, find_first-Free p s h.1)

pub find_first-append :
    (p : ℕ → Bool) (a : Text) (c : ℕ) (s : Text)
    → Free p a
    → p c ≡ true
    → find_first p (a ++ c ∷ s) ≡ some (record { before = a; at = c ∷ s })
unfolding find_first
find_first-append p [] c s h k = rw k
find_first-append p (d ∷ a) c s h k = rw (h.0, find_first-append p a c s h.1 k)
