-- ===== src/Environment/Strv.antt =====
-- Printing an environment and reading it back: `get_strv` and `environment (char **)`.
use schroot.Prelude.{
  ◌≡◌, refl, ap, ◌∙◌, Bool, true, false, some, [], ◌∷◌, ◌++◌, Text, nat_beq, is_empty, All,
  append-nil, append_assoc,
}
use schroot.Prelude.Map.{Map}
use schroot.Prelude.Map.Order.{IsSorted, Below, insert-last, erase-absent}
use schroot.Prelude.Map.Last.{Below-find, Follows, Follows-empty, Follows-snoc}
use schroot.Environment.{
  Environment, equals, find_equals, until_nul, split_item, remove_key, add, add_item, add_strv,
  from_strv, items, get_strv, no_environment,
}

abbrev pub NulFree : Text → Type 0
NulFree = All (λ c. nat_beq c 0 ≡ false)

-- A name that an item can carry: not empty, and without `'='` and NUL.
abbrev pub IsName : Text → Type 0
IsName k = (is_empty k ≡ false) × All (λ c. nat_beq c equals ≡ false) k × NulFree k

abbrev pub NamedBy : Map Text → Type 0
NamedBy [] = Unit
NamedBy ((k, v) ∷ m) = (IsName k × NulFree v) × NamedBy m

until_nul-free : (s : Text) → NulFree s → until_nul s ≡ s
unfolding until_nul
until_nul-free [] h = refl
until_nul-free (c ∷ s) h = rw (h.0, until_nul-free s h.1) refl

until_nul-item :
    (k v : Text) → NulFree k → NulFree v → until_nul (k ++ (equals ∷ v)) ≡ k ++ (equals ∷ v)
unfolding until_nul
until_nul-item [] v h g = rw (until_nul-free v g) refl
until_nul-item (c ∷ k) v h g = rw (h.0, until_nul-item k v h.1 g) refl

find_equals-item :
    (k v : Text)
    → All (λ c. nat_beq c equals ≡ false) k
    → find_equals (k ++ (equals ∷ v)) ≡ some (k, v)
unfolding find_equals
find_equals-item [] v h = refl
find_equals-item (c ∷ k) v h = rw (h.0, find_equals-item k v h.1)

split_item-item : (k v : Text) → IsName k → split_item (k ++ (equals ∷ v)) ≡ (k, v)
unfolding split_item
split_item-item k v h = rw (find_equals-item k v h.1, split_item) (rw h.0)

module _ (search : Text → Text → Bool) where
  add_item-last :
      (k v : Text) (env : Environment)
      → IsName k
      → is_empty env.filter ≡ true
      → Below k env.vars
      → add_item search (k ++ (equals ∷ v)) env ≡ record env { vars = env.vars ++ (k, v) ∷ [] }
  unfolding add_item add remove_key
  add_item-last k v env n f b = rw (
    split_item-item k v n,
    n.0,
    f,
    erase-absent k env.vars (Below-find k env.vars b),
    insert-last k v env.vars b,
  )

  add_strv-items :
      (m : Map Text) (env : Environment)
      → IsSorted m
      → NamedBy m
      → Follows env.vars m
      → is_empty env.filter ≡ true
      → add_strv search (items m) env ≡ record env { vars = env.vars ++ m }
  unfolding add_strv items
  add_strv-items [] env s n b f = rw append-nil
  add_strv-items ((k, v) ∷ m) env s n b f =
      ap (λ item. add_strv search (items m) (add_item search item env))
        (until_nul-item k v n.0.0.2 n.0.1)
      ∙ ap (add_strv search (items m)) (add_item-last k v env n.0.0 f b)
      ∙ add_strv-items m (record env { vars = env.vars ++ (k, v) ∷ [] }) s.1 n.1
          (Follows-snoc k v env.vars m b s.0) f
      ∙ ap (λ (l : Map Text). record env { vars = l }) (append_assoc env.vars ((k, v) ∷ []) m)

  -- The items that an environment prints make the same variables when they are read back, if its
  -- keys are in order, none is empty or contains `'='`, and neither keys nor values contain NUL.
  pub from_strv-get_strv :
      (env : Environment)
      → IsSorted env.vars
      → NamedBy env.vars
      → (from_strv search (get_strv env)).vars ≡ env.vars
  unfolding from_strv get_strv
  from_strv-get_strv env s n =
      ap (λ (e : Environment). e.vars)
        (add_strv-items env.vars no_environment s n (Follows-empty env.vars) refl)
