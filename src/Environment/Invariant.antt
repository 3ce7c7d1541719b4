-- ===== src/Environment/Invariant.antt =====
-- The invariant of sbuild/sbuild-environment.cc: keys in order, none empty, none that is filtered.
use schroot.Prelude.{
  ◌≡◌, Bool, true, false, List, [], ◌∷◌, Text, arith, Bool-cases, inl, inr, is_empty,
}
use schroot.Prelude.Map.{Map, insert, erase}
use schroot.Prelude.Map.Order.{IsSorted, insert-IsSorted, erase-IsSorted}
use schroot.Environment.{
  Environment, remove_key, remove, split_item, allowed, add, add_item, add_strv, add_all,
  add_environment, no_environment,
}

module _ (search : Text → Text → Bool) where
  -- Every key has a name, and the filter lets it pass.
  abbrev pub Passes : Text → Map Text → Type 0
  Passes filter [] = Unit
  Passes filter ((k, v) ∷ m) =
      (is_empty k ≡ false) × (allowed search filter k ≡ true) × Passes filter m

  pub record IsValid (env : Environment) : Type 0 where
    pub sorted : IsSorted env.vars
    pub passes : Passes env.filter env.vars

  Passes-insert :
      (filter k v : Text) (m : Map Text)
      → is_empty k ≡ false
      → allowed search filter k ≡ true
      → Passes filter m
      → Passes filter (insert k v m)
  unfolding insert
  Passes-insert filter k v [] h a p = (h, a, tt)
  Passes-insert filter k v ((j, w) ∷ m) h a p = ground (arith, Passes-insert filter k v m)

  Passes-erase : (filter k : Text) (m : Map Text) → Passes filter m → Passes filter (erase k m)
  unfolding erase
  Passes-erase filter k [] p = tt
  Passes-erase filter k ((j, w) ∷ m) p = ground (arith, Passes-erase filter k m)

  pub remove_key-IsValid : (k : Text) (env : Environment) → IsValid env → IsValid (remove_key k env)
  unfolding remove_key
  remove_key-IsValid k env h = record {
    sorted = erase-IsSorted k env.vars h.sorted;
    passes = Passes-erase env.filter k env.vars h.passes;
  }

  pub add-IsValid : (k v : Text) (env : Environment) → IsValid env → IsValid (add search k v env)
  unfolding add
  add-IsValid k v env h = elim (Bool-cases (is_empty k)) [
    | inl nameless ↦ rw nameless h
    | inr named ↦ elim (Bool-cases (allowed search env.filter k)) [
      | inl passed ↦
          rw (named, passed)
            (record {
              sorted = insert-IsSorted k v (erase k env.vars) (erase-IsSorted k env.vars h.sorted);
              passes =
                  Passes-insert env.filter k v (erase k env.vars) named passed
                    (Passes-erase env.filter k env.vars h.passes);
            })
      | inr filtered ↦ rw (named, filtered) (remove_key-IsValid k env h)
    ]
  ]

  add_strv-IsValid :
      (strv : List Text) (env : Environment) → IsValid env → IsValid (add_strv search strv env)
  unfolding add_strv
  add_strv-IsValid [] env h = h
  add_strv-IsValid (s ∷ strv) env h =
      add_strv-IsValid strv (add_item search s env)
        (unfold add_item in add-IsValid (split_item s).0 (split_item s).1 env h)

  add_all-IsValid :
      (m : Map Text) (env : Environment) → IsValid env → IsValid (add_all search m env)
  unfolding add_all
  add_all-IsValid [] env h = h
  add_all-IsValid ((k, v) ∷ m) env h =
      add_all-IsValid m (add search k v env) (add-IsValid k v env h)

  -- Whatever is added, by items or from another environment, and whatever is removed, the keys
  -- stay in order, none is empty and none matches the filter.
  pub environment-IsValid :
      (strv : List Text) (other env : Environment) (value : Text)
      → IsValid env
      → IsValid (add_strv search strv env)
        × IsValid (add_environment search env other)
        × IsValid (remove value env)
  unfolding remove add_environment
  environment-IsValid strv other env value h =
      (add_strv-IsValid strv env h, add_all-IsValid other.vars env h, remove_key-IsValid _ env h)

  pub IsValid-empty : IsValid no_environment
  IsValid-empty = record { sorted = tt; passes = tt }
