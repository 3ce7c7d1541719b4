-- ===== src/Prelude/Map/Last.antt =====
-- Maps that are built in the order of their keys: each new entry is the last one.
use mathlib.Core.Path.{◌≡◌, refl}
use mathlib.Core.Bool.{true}
use mathlib.Core.Option.{some, none}
use mathlib.Core.List.{[], ◌∷◌, ◌++◌}
use native.Mathlib.Omega.{arith}
use schroot.Prelude.Strings.{Text, text_beq_iff, text_ltb, text_ltb_trans, text_ltb_irrefl}
use schroot.Prelude.Map.{Map, find, update}
use schroot.Prelude.Map.Order.{Above, Below}

module _ {ℓ} {V : Type ℓ} where
  pub Below-find : (k : Text) (m : Map V) → Below k m → find k m ≡ none
  unfolding find
  Below-find k [] b = refl
  Below-find k ((j, v) ∷ m) b = ground (arith, Below-find k m, text_beq_iff j k, text_ltb_irrefl k)

  -- A later key comes after one more entry too.
  pub Below-snoc :
      (k j : Text) (v : V) (m : Map V)
      → Below k m
      → text_ltb k j ≡ true
      → Below j (m ++ (k, v) ∷ [])
  Below-snoc k j v [] b h = (h, tt)
  Below-snoc k j v ((i, w) ∷ m) b h = (text_ltb_trans i k j b.0 h, Below-snoc k j v m b.1 h)

  abbrev pub Follows : Map V → Map V → Type 0
  Follows m [] = Unit
  Follows m ((k, v) ∷ rest) = Below k m

  pub Follows-empty : (m : Map V) → Follows [] m
  Follows-empty [] = tt
  Follows-empty ((k, v) ∷ m) = tt

  pub Follows-snoc :
      (k : Text) (v : V) (m rest : Map V)
      → Below k m
      → Above k rest
      → Follows (m ++ (k, v) ∷ []) rest
  Follows-snoc k v m [] b a = tt
  Follows-snoc k v m ((j, w) ∷ rest) b a = Below-snoc k j v m b a.0

  pub find-last : (k : Text) (v : V) (m : Map V) → Below k m → find k (m ++ (k, v) ∷ []) ≡ some v
  unfolding find
  find-last k v [] b = ground (arith, text_beq_iff k k)
  find-last k v ((j, w) ∷ m) b =
      ground (arith, find-last k v m, text_beq_iff j k, text_ltb_irrefl k)

  pub update-last :
      (k : Text) (f : V → V) (v : V) (m : Map V)
      → Below k m
      → update k f (m ++ (k, v) ∷ []) ≡ m ++ (k, f v) ∷ []
  unfolding update
  update-last k f v [] b = ground (arith, text_beq_iff k k)
  update-last k f v ((j, w) ∷ m) b =
      ground (arith, update-last k f v m, text_beq_iff j k, text_ltb_irrefl k)
