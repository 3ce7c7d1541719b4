-- ===== src/Session/Exec/Laws.antt =====
-- How the actions of a session are taken apart.
use schroot.Prelude.{◌≡◌, refl, Bool, Option, none, arith, Bool-cases, inl, inr}
use schroot.Exception.{Exception, Result, ok, throw}
use schroot.Session.World.{Event, History}
use schroot.Session.Exec.{State, M, resume, ◌>>=◌, ◌>>◌, call, log, handle, try_catch, raise}

module _ {ℓ κ} {A : Type ℓ} {B : Type κ} where
  resume-ok :
      (f : A → M B) (r : Result A × State) (s' : State) (b : B)
      → resume f r ≡ (ok b, s')
      → (a : A) × (mid : State) × (r ≡ (ok a, mid)) × (f a mid ≡ (ok b, s'))
  resume-ok f (ok a, mid) s' b h = (a, mid, refl, h)
  resume-ok f (throw e, mid) s' b h = cc

  -- A sequence that returns: its first part returned, and then the second.
  pub >>=-ok :
      (m : M A) (f : A → M B) (s s' : State) (b : B)
      → (m >>= f) s ≡ (ok b, s')
      → (a : A) × (mid : State) × (m s ≡ (ok a, mid)) × (f a mid ≡ (ok b, s'))
  unfolding ◌>>=◌
  >>=-ok m f s s' b h = resume-ok f (m s) s' b h

  pub >>-ok :
      (m : M A) (k : M B) (s s' : State) (b : B)
      → (m >> k) s ≡ (ok b, s')
      → (a : A) × (mid : State) × (m s ≡ (ok a, mid)) × (k mid ≡ (ok b, s'))
  unfolding ◌>>◌
  >>-ok m k s s' b h = resume-ok (λ _. k) (m s) s' b h

-- A call that returns was answered by no exception.
pub call-ok :
    (event : Event) (reply : History → Option Exception) (s s' : State)
    → call event reply s ≡ (ok tt, s')
    → (reply s.history ≡ none) × (s' ≡ log event s)
call-ok event reply s s' h = ground arith

-- A block that ends by throwing does not return.
pub raise-returns :
    {A : Type 0} (before : M (Unit {0})) (e : Exception) (s s' : State) (a : A)
    → (before >> raise e) s ≡ (ok a, s')
    → ⊥
raise-returns before e s s' a h =
    let (_, mid, first, last) = >>-ok before (raise e) s s' a h in cc last

module _ {A : Type 0} (caught : Exception → Bool) (handler : Exception → M A) where
  handle-returns :
      ((e : Exception) (s s' : State) (a : A) → handler e s ≡ (ok a, s') → ⊥)
      → (r : Result A × State) (s' : State) (a : A) → handle caught handler r ≡ (ok a, s')
      → r ≡ (ok a, s')
  handle-returns never (ok b, mid) s' a h = h
  handle-returns never (throw e, mid) s' a h = elim (Bool-cases (caught e)) [
    | inl c ↦ absurd (never e mid s' a (rw c at h))
    | inr c ↦ cc (rw c at h)
  ]

  -- A `try` whose handler never returns: it returns only where its block does.
  pub try_catch-returns :
      ((e : Exception) (s s' : State) (a : A) → handler e s ≡ (ok a, s') → ⊥)
      → (m : M A) (s s' : State) (a : A) → try_catch caught m handler s ≡ (ok a, s')
      → m s ≡ (ok a, s')
  unfolding try_catch
  try_catch-returns never m s s' a h = handle-returns never (m s) s' a h

-- A `try` whose handler throws again.
pub try_catch-ok :
    {A : Type 0} (caught : Exception → Bool) (before : M (Unit {0})) (m : M A) (s s' : State)
    (a : A)
    → try_catch caught m (λ e. before >> raise e) s ≡ (ok a, s')
    → m s ≡ (ok a, s')
try_catch-ok caught before m s s' a h =
    try_catch-returns caught (λ e. before >> raise e) (λ e t t' b. raise-returns before e t t' b) m
      s s' a h
