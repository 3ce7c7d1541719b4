-- ===== src/Prelude/Map.antt =====
-- `std::map<std::string, V>` as the list of its entries, in the order of iteration.
pub mod Order
pub mod Last
use mathlib.Core.Path.{◌≡◌, refl}
use mathlib.Core.Bool.{true}
use mathlib.Core.Option.{Option, none, some}
use mathlib.Core.List.{List, [], ◌∷◌}
use native.Mathlib.Omega.{arith}
use schroot.Prelude.Tests.{if◌then◌else◌}
use schroot.Prelude.Lists.{All}
use schroot.Prelude.Strings.{Text, text_beq, text_beq_iff, text_ltb}

abbrev pub Map {ℓ} : Type ℓ → Type ℓ
Map V = List (Text × V)

module _ {ℓ} {V : Type ℓ} where
  -- `find`, with the value at the iterator
  unfoldable pub find : Text → Map V → Option V
  find k [] = none
  find k ((j, v) ∷ m) = if text_beq j k then some v else find k m

  -- `insert`, which keeps an entry that is there
  unfoldable pub insert : Text → V → Map V → Map V
  insert k v [] = (k, v) ∷ []
  insert k v ((j, w) ∷ m) =
      if text_beq j k
      then (j, w) ∷ m
      else if text_ltb k j
      then (k, v) ∷ (j, w) ∷ m
      else (j, w) ∷ insert k v m

  unfoldable pub erase : Text → Map V → Map V
  erase k [] = []
  erase k ((j, w) ∷ m) = let rest = erase k m in if text_beq j k then rest else (j, w) ∷ rest

  pub find-erase :
      (k j : Text) (m : Map V) → find j (erase k m) ≡ (if text_beq k j then none else find j m)
  unfolding find erase
  find-erase k j [] = ground arith
  find-erase k j ((i, w) ∷ m) =
      ground (arith, find-erase k j m, text_beq_iff k j, text_beq_iff i k, text_beq_iff i j)

  pub find-erase_self : (k : Text) (m : Map V) → find k (erase k m) ≡ none
  find-erase_self k m = ground (arith, find-erase k k m, text_beq_iff k k)

  -- A key that was not there is bound to its value, and no other key changes.
  pub find-insert :
      (k j : Text) (v : V) (m : Map V)
      → find k m ≡ none
      → find j (insert k v m) ≡ (if text_beq k j then some v else find j m)
  unfolding find insert
  find-insert k j v [] h = refl
  find-insert k j v ((i, w) ∷ m) h =
      ground (arith, find-insert k j v m, text_beq_iff k j, text_beq_iff i k, text_beq_iff i j)

  -- An assignment through the iterator that `find` returns, where it is not the end.
  unfoldable pub update : Text → (V → V) → Map V → Map V
  update k f [] = []
  update k f ((j, w) ∷ m) =
      let rest = update k f m in if text_beq j k then (j, f w) ∷ m else (j, w) ∷ rest

  -- An update changes only the value at its key, where there is one.
  pub find-update :
      (k j : Text) (f : V → V) (m : Map V)
      → find j (update k f m)
        ≡ (if text_beq k j then elim (find j m) [ none ↦ none | some v ↦ some (f v) ] else find j m)
  unfolding find update
  find-update k j f [] = ground arith
  find-update k j f ((i, w) ∷ m) =
      ground (arith, find-update k j f m, text_beq_iff k j, text_beq_iff i k, text_beq_iff i j)
