-- ===== src/Session/Exec/Spares.antt =====
-- Actions of a session that leave the saved signal handlers alone.
use schroot.Prelude.{◌≡◌, refl, ◌∙◌, Bool, Option, none, some, Bool-cases, inl, inr}
use schroot.Exception.{Exception, Result, ok, throw}
use schroot.Session.World.{Event, History}
use schroot.Session.Exec.{
  State, M, resume, ◌>>=◌, ◌>>◌, handle, try_catch, done, swallow, log, answer, call,
}

-- Whatever the outcome is, the saved handlers are those from before.
pub record Spares {ℓ} {A : Type ℓ} (m : M A) : Type 0 where
  pub spared : (s : State) → (m s).1.saved_handlers ≡ s.saved_handlers

pub resume-spared {ℓ κ} :
    {A : Type ℓ} {B : Type κ} (f : A → M B) (r : Result A × State)
    → ((a : A) → Spares (f a))
    → (resume f r).1.saved_handlers ≡ r.1.saved_handlers
resume-spared f (ok a, s) h = (h a).spared s
resume-spared f (throw e, s) h = refl

pub >>=-Spares {ℓ κ} :
    {A : Type ℓ} {B : Type κ} (m : M A) (f : A → M B)
    → Spares m
    → ((a : A) → Spares (f a))
    → Spares (m >>= f)
unfolding ◌>>=◌
>>=-Spares m f a b = record { spared = λ s. resume-spared f (m s) b ∙ a.spared s }

pub >>-Spares {ℓ κ} :
    {A : Type ℓ} {B : Type κ} (m : M A) (k : M B) → Spares m → Spares k → Spares (m >> k)
unfolding ◌>>◌
>>-Spares m k a b = record { spared = λ s. resume-spared (λ _. k) (m s) (λ _. b) ∙ a.spared s }

handle-spared {ℓ} :
    {A : Type ℓ} (caught : Exception → Bool) (f : Exception → M A) (r : Result A × State)
    → ((e : Exception) → Spares (f e))
    → (handle caught f r).1.saved_handlers ≡ r.1.saved_handlers
handle-spared caught f (ok a, s) h = refl
handle-spared caught f (throw e, s) h = elim (Bool-cases (caught e)) [
  | inl c ↦ rw c ((h e).spared s)
  | inr c ↦ rw c refl
]

pub try_catch-Spares {ℓ} :
    {A : Type ℓ} (caught : Exception → Bool) (m : M A) (f : Exception → M A)
    → Spares m
    → ((e : Exception) → Spares (f e))
    → Spares (try_catch caught m f)
unfolding try_catch
try_catch-Spares caught m f a b = record {
  spared = λ s. handle-spared caught f (m s) b ∙ a.spared s;
}

pub swallow-Spares :
    (caught : Exception → Bool) (m : M (Unit {0})) → Spares m → Spares (swallow caught m)
unfolding swallow
swallow-Spares caught m a =
    try_catch-Spares caught m (λ e. done) a (λ e. record { spared = λ s. refl })

answer-spared :
    (o : Option Exception) (s : State) → (answer o s).1.saved_handlers ≡ s.saved_handlers
answer-spared none s = refl
answer-spared (some e) s = refl

pub answer-Spares : (o : State → Option Exception) → Spares (λ s. answer (o s) s)
answer-Spares o = record { spared = λ s. answer-spared (o s) s }

pub call-Spares : (event : Event) (reply : History → Option Exception) → Spares (call event reply)
call-Spares event reply = record { spared = λ s. answer-spared (reply s.history) (log event s) }
