-- ===== src/Session/Exec.antt =====
-- Methods of `session` as actions on its state: what is written before a throw stays written.
pub mod Laws
pub mod Spares
use schroot.Prelude.{ℕ, Bool, true, false, Option, none, some, List, ◌∷◌, if◌then◌else◌}
use schroot.Exception.{Exception, Result, ok, throw}
use schroot.Session.World.{Event, Handlers, History}

-- The members of `session` that change while it runs, the flags that the signal handlers set, the
-- handlers of the process, and the calls made so far.
pub record State : Type 0 where
  pub chroot_status : Bool
  pub lock_status : Bool
  pub child_status : ℕ
  pub termios_ok : Bool
  pub sighup_called : Bool
  pub sigint_called : Bool
  pub sigterm_called : Bool
  -- `saved_sighup_signal`, `saved_sigint_signal` and `saved_sigterm_signal`
  pub saved_handlers : Handlers
  -- those that the process has
  pub handlers : Handlers
  pub history : History

abbrev pub M {ℓ} : Type ℓ → Type ℓ
M A = State → Result A × State

abbrev pub resume {ℓ κ} :
    {A : Type ℓ} {B : Type κ} → (A → M B) → Result A × State → Result B × State
resume f (ok a, s) = f a s
resume f (throw e, s) = (throw e, s)

infixl 5 ◌>>=◌ ◌>>◌
unfoldable pub ◌>>=◌ {ℓ κ} : {A : Type ℓ} {B : Type κ} → M A → (A → M B) → M B
◌>>=◌ m f s = resume f (m s)

unfoldable pub ◌>>◌ {ℓ κ} : {A : Type ℓ} {B : Type κ} → M A → M B → M B
◌>>◌ m k s = resume (λ _. k) (m s)

module _ {ℓ} {A : Type ℓ} where
  abbrev pub pure : A → M A
  pure a s = (ok a, s)

  abbrev pub raise : Exception → M A
  raise e s = (throw e, s)

  abbrev pub lift : Result A → M A
  lift r s = (r, s)

  abbrev pub handle : (Exception → Bool) → (Exception → M A) → Result A × State → Result A × State
  handle caught handler (ok a, s) = (ok a, s)
  handle caught handler (throw e, s) = if caught e then handler e s else (throw e, s)

  -- `try { m } catch (E const& e) { handler }`, for the exceptions of the type E
  unfoldable pub try_catch : (Exception → Bool) → M A → (Exception → M A) → M A
  try_catch caught m handler s = handle caught handler (m s)

abbrev pub modify : (State → State) → M (Unit {0})
modify f s = (ok tt, f s)

abbrev pub done : M (Unit {0})
done = pure tt

-- `try { m } catch (E const& discard) { }`
unfoldable pub swallow : (Exception → Bool) → M (Unit {0}) → M (Unit {0})
swallow caught m = try_catch caught m (λ e. done)

abbrev pub log : Event → State → State
log event s = record s { history = event ∷ s.history }

abbrev pub answer : Option Exception → State → Result (Unit {0}) × State
answer none s = (ok tt, s)
answer (some e) s = (throw e, s)

-- A call: the world answers by the history before it.
abbrev pub call : Event → (History → Option Exception) → M (Unit {0})
call event reply s = answer (reply s.history) (log event s)
