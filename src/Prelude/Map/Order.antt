-- ===== src/Prelude/Map/Order.antt =====
-- The order of a map's entries: what iteration over a `std::map` relies on.
use mathlib.Core.Path.{◌≡◌, refl}
use mathlib.Core.Logic.{inl, inr}
use mathlib.Core.Bool.{true}
use mathlib.Core.Option.{none, some}
use mathlib.Core.List.{[], ◌∷◌, ◌++◌}
use native.Mathlib.Omega.{arith}
use schroot.Prelude.Tests.{Bool-cases}
use schroot.Prelude.Strings.{
  Text, text_beq, text_beq_iff, text_ltb, text_ltb_trans, text_ltb_irrefl, text_ltb_total,
}
use schroot.Prelude.Map.{Map, find, insert, erase}

module _ {ℓ} {V : Type ℓ} where
  -- Every key comes after `k`.
  abbrev pub Above : Text → Map V → Type 0
  Above k [] = Unit
  Above k ((j, v) ∷ m) = (text_ltb k j ≡ true) × Above k m

  -- The keys stand in strictly increasing order.
  abbrev pub IsSorted : Map V → Type 0
  IsSorted [] = Unit
  IsSorted ((k, v) ∷ m) = Above k m × IsSorted m

  Above-trans : (i k : Text) (m : Map V) → text_ltb i k ≡ true → Above k m → Above i m
  Above-trans i k [] h a = tt
  Above-trans i k ((j, v) ∷ m) h a = (text_ltb_trans i k j h a.0, Above-trans i k m h a.1)

  Above-insert :
      (i k : Text) (v : V) (m : Map V) → text_ltb i k ≡ true → Above i m → Above i (insert k v m)
  unfolding insert
  Above-insert i k v [] h a = (h, tt)
  Above-insert i k v ((j, w) ∷ m) h a = ground (arith, Above-insert i k v m)

  pub insert-IsSorted : (k : Text) (v : V) (m : Map V) → IsSorted m → IsSorted (insert k v m)
  unfolding insert
  insert-IsSorted k v [] s = (tt, tt)
  insert-IsSorted k v ((j, w) ∷ m) s = elim (Bool-cases (text_beq j k)) [
    | inl same ↦ rw same s
    | inr other ↦ elim (Bool-cases (text_ltb k j)) [
      | inl before ↦ rw (other, before) ((before, Above-trans k j m before s.0), s)
      | inr after ↦
          rw (other, after)
            (
              Above-insert j k v m
                  (text_ltb_total k j after (ground (arith, text_beq_iff j k, text_beq_iff k j)))
                  s.0,
              insert-IsSorted k v m s.1,
            )
    ]
  ]

  Above-erase : (i k : Text) (m : Map V) → Above i m → Above i (erase k m)
  unfolding erase
  Above-erase i k [] a = tt
  Above-erase i k ((j, w) ∷ m) a = ground (arith, Above-erase i k m)

  pub erase-IsSorted : (k : Text) (m : Map V) → IsSorted m → IsSorted (erase k m)
  unfolding erase
  erase-IsSorted k [] s = tt
  erase-IsSorted k ((j, w) ∷ m) s = ground (arith, Above-erase j k m, erase-IsSorted k m)

  -- A key that comes before all of a map's keys is not in it.
  pub find-Above : (k : Text) (m : Map V) → Above k m → find k m ≡ none
  unfolding find
  find-Above k [] a = refl
  find-Above k ((j, v) ∷ m) a = ground (arith, find-Above k m, text_beq_iff j k, text_ltb_irrefl k)

  -- Every key comes before `k`.
  abbrev pub Below : Text → Map V → Type 0
  Below k [] = Unit
  Below k ((j, v) ∷ m) = (text_ltb j k ≡ true) × Below k m

  -- `insert` keeps an entry that is there.
  pub insert-bound :
      (k : Text) (v w : V) (m : Map V) → IsSorted m → find k m ≡ some w → insert k v m ≡ m
  unfolding find insert
  insert-bound k v w [] s h = cc
  insert-bound k v w ((j, u) ∷ m) s h =
      ground (arith, insert-bound k v w m, Above-trans k j m, find-Above k m)

  pub insert-last : (k : Text) (v : V) (m : Map V) → Below k m → insert k v m ≡ m ++ (k, v) ∷ []
  unfolding insert
  insert-last k v [] b = refl
  insert-last k v ((j, w) ∷ m) b = ground (
    arith,
    insert-last k v m,
    text_beq_iff j k,
    text_ltb_irrefl j,
    text_ltb_irrefl k,
    text_ltb_trans j k j,
  )

  pub erase-absent : (k : Text) (m : Map V) → find k m ≡ none → erase k m ≡ m
  unfolding find erase
  erase-absent k [] h = refl
  erase-absent k ((j, v) ∷ m) h = ground (arith, erase-absent k m)
