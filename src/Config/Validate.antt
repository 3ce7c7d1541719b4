-- ===== src/Config/Validate.antt =====
-- What `validate_chroots` of sbuild/sbuild-chroot-config.cc returns.
use schroot.Prelude.{
  ◌≡◌, refl, sym, ap, ◌∙◌, inl, inr, true, Option, none, some, List, [], ◌∷◌, ◌++◌, Text,
  text_beq_iff, text_eq, ◌==◌, arith, contains, ◌≢◌, subst, Bool-cases,
}
use schroot.Prelude.Map.{Map, find, insert, find-insert}
use schroot.Prelude.Map.Order.{IsSorted, insert-bound, insert-IsSorted}
use schroot.Session.Chroot.{Chroot}
use schroot.Config.{
  ChrootConfig, Result, ok, error, is_some, find_alias, accept, validate_loop, validate_chroots,
}
use schroot.Config.Aliases.{Option-cases}

module _ (hint : Text) (config : ChrootConfig) where
  -- Every entry is the chroot that its name finds.
  abbrev IsSound : Map Chroot → Type 0
  IsSound m =
      IsSorted m
      × ((name : Text) (c : Chroot)
          → find name m ≡ some c
          → find_alias hint name config ≡ ok (some c))

  abbrev Extends : Map Chroot → Map Chroot → Type 0
  Extends m m' = (name : Text) → is_some (find name m) ≡ true → is_some (find name m') ≡ true

  insert-IsSound :
      (name : Text) (c : Chroot) (m : Map Chroot)
      → find_alias hint name config ≡ ok (some c)
      → IsSound m
      → IsSound (insert name c m)
  insert-IsSound name c m e (o, s) = (
    insert-IsSorted name c m o,
    λ j d h. elim (Option-cases (find name m)) [
      | inl free ↦ ground (arith, find-insert name j c m free, text_beq_iff name j, s j d, h, e)
      | inr (w, bound) ↦ s j d (ap (find j) (sym (insert-bound name c w m o bound)) ∙ h)
    ],
  )

  insert-Extends :
      (name : Text) (c : Chroot) (m : Map Chroot) → IsSorted m → Extends m (insert name c m)
  insert-Extends name c m o j h = elim (Option-cases (find name m)) [
    | inl free ↦ ground (arith, find-insert name j c m free, h)
    | inr (w, bound) ↦ ap (λ m. is_some (find j m)) (insert-bound name c w m o bound) ∙ h
  ]

  insert-some :
      (name : Text) (c : Chroot) (m : Map Chroot)
      → IsSorted m
      → is_some (find name (insert name c m)) ≡ true
  insert-some name c m o = elim (Option-cases (find name m)) [
    | inl free ↦ ground (arith, find-insert name name c m free, text_beq_iff name name)
    | inr (w, bound) ↦ ground (arith, insert-bound name c w m o bound, bound)
  ]

  -- What the rest of the loop has done where no name is bad in the end.
  Validated : List Text → List Text → Map Chroot → Map Chroot → Type 0
  Validated names bad m validated =
      (bad ≡ [])
      × IsSound validated
      × Extends m validated
      × ((name : Text) → contains names name ≡ true → is_some (find name validated) ≡ true)

  append_cons-ne_nil : (a : List Text) (x : Text) (b : List Text) → a ++ x ∷ b ≢ []
  append_cons-ne_nil [] x b e = cc
  append_cons-ne_nil (y ∷ a) x b e = cc

  accepted :
      (r : Result (List Text × Map Chroot)) (validated : Map Chroot)
      → accept r ≡ ok validated
      → r ≡ ok ([], validated)
  accepted (error code) validated h = cc
  accepted (ok ([], m)) validated h = ground (arith, h)
  accepted (ok (name ∷ [], m)) validated h = cc
  accepted (ok (name ∷ second ∷ names, m)) validated h = cc

  -- The loop from the next name on.
  abbrev Later : List Text → Map Chroot → Type 0
  Later names validated =
      (bad : List Text) (m : Map Chroot)
      → IsSound m
      → validate_loop hint names bad m config ≡ ok ([], validated)
      → Validated names bad m validated

  validate_name :
      (name : Text) (names bad : List Text) (m validated : Map Chroot) (r : Result (Option Chroot))
      → find_alias hint name config ≡ r
      → Later names validated
      → IsSound m
      → validate_loop hint (name ∷ names) bad m config ≡ ok ([], validated)
      → Validated (name ∷ names) bad m validated
  unfolding validate_loop Validated
  validate_name name names bad m validated (error code) e later s h = absurd (ground (arith, e, h))
  validate_name name names bad m validated (ok none) e later s h =
      let v = later (bad ++ name ∷ []) m s (rw (e, validate_loop) at h) in
      absurd (append_cons-ne_nil bad name [] v.0)
  validate_name name names bad m validated (ok (some c)) e later s h =
      let v =
        later bad (insert name c m) (insert-IsSound name c m e s) (rw (e, validate_loop) at h) in
      (
        v.0,
        v.1,
        (λ j there. v.2 j (insert-Extends name c m s.0 j there)),
        λ j among. elim (Bool-cases (name == j)) [
          | inl same ↦
              subst (λ k. is_some (find k validated) ≡ true)
                (ground (arith, text_beq_iff name j, same)) (v.2 name (insert-some name c m s.0))
          | inr other ↦ v.3 j (ground (arith, other, among))
        ],
      )

  validate_loop-Validated : (names : List Text) (validated : Map Chroot) → Later names validated
  unfolding validate_loop Validated
  validate_loop-Validated [] validated bad m s h =
      let same : m ≡ validated = ground (arith, h) in
      (
        ground (arith, h),
        subst IsSound same s,
        (λ j there. ap (λ m. is_some (find j m)) (sym same) ∙ there),
        λ j among. absurd (ground (arith, among)),
      )
  validate_loop-Validated (name ∷ names) validated bad m s h =
      validate_name name names bad m validated (find_alias hint name config) refl
        (validate_loop-Validated names validated) s h

  empty-IsSound : IsSound []
  unfolding find
  empty-IsSound = (tt, λ j c e. cc)

  is_some-found : (o : Option Chroot) → is_some o ≡ true → (c : Chroot) × (o ≡ some c)
  is_some-found none h = cc
  is_some-found (some c) h = (c, refl)

  -- Where `validate_chroots` returns, every name that was given finds a chroot, and the map that is
  -- returned has that chroot at the name.
  pub validate_chroots-found :
      (names : List Text) (validated : Map Chroot) (name : Text)
      → validate_chroots hint names config ≡ ok validated
      → contains names name ≡ true
      → (c : Chroot) × (find_alias hint name config ≡ ok (some c)) × (find name validated ≡ some c)
  unfolding validate_chroots Validated
  validate_chroots-found names validated name h among =
      let v =
        validate_loop-Validated names validated [] [] empty-IsSound
          (accepted (validate_loop hint names [] [] config) validated h) in
      let (c, there) = is_some-found (find name validated) (v.3 name among) in
      (c, v.1.1 name c there, there)
