-- ===== src/Session/Run/Refusal.antt =====
-- A session of sbuild/sbuild-session.cc that is refused runs nothing.
use schroot.Prelude.{◌≡◌, refl, ap, ◌∙◌, ◌⊎◌, inl, inr, true, Option, none, some, ◌∷◌, Bool-cases}
use schroot.Exception.{Exception, ok, throw, AuthCode, auth_error, is_auth_error}
use schroot.Auth.{status_fail}
use schroot.Auth.Calls.{start, authenticate, stop}
use schroot.Session.Access.{get_auth_status}
use schroot.Session.World.{auth, History, World}
use schroot.Session.Exec.{State, ◌>>=◌, ◌>>◌, log}
use schroot.Session.Config.{Session, chroots_of}
use schroot.Session.Run.{run, run_body}
use schroot.Session.Run.Cleanup.{run-body_auth, run-body_other}

-- Authentication throws an `auth::error` where the status is that of a failure.
abbrev pub Refuses : World → Type 0
Refuses w =
    (h : History)
    → (c : AuthCode) × (w.auth_answer h (authenticate status_fail) ≡ some (auth_error c))

-- Only these calls were made.
abbrev pub OnlyRefused : History → History → Type 0
OnlyRefused before after =
    (after ≡ auth stop ∷ auth (authenticate status_fail) ∷ auth start ∷ before)
    ⊎ (after ≡ auth stop ∷ auth start ∷ before)
    ⊎ (after ≡ auth start ∷ before)

module _ (w : World) (session : Session) (s : State) where
  -- The `try` block ends where `start` or the authentication throws.
  run_body-refused :
      (o : Option Exception)
      → w.auth_answer s.history start ≡ o
      → Refuses w
      → get_auth_status w.groups session.authstat (chroots_of session.chroots) ≡ ok status_fail
      → (e : Exception) × (mid : State) × (run_body w session s ≡ (throw e, mid))
        × ((mid.history ≡ auth start ∷ s.history)
            ⊎ ((is_auth_error e ≡ true)
                × (mid.history ≡ auth (authenticate status_fail) ∷ auth start ∷ s.history)))
  unfolding run_body ◌>>=◌ ◌>>◌
  run_body-refused (some e) a r h = (e, log (auth start) s, rw a, inl refl)
  run_body-refused none a r h =
      let (c, refused) = r (auth start ∷ s.history) in
      (
        auth_error c,
        log (auth (authenticate status_fail)) (log (auth start) s),
        rw (a, h, refused),
        inr (refl, refl),
      )

  -- A session whose status is that of a failure throws, and the only calls it makes are `start`,
  -- `authenticate` and `stop`, whatever they answer.
  pub run-refused :
      Refuses w
      → get_auth_status w.groups session.authstat (chroots_of session.chroots) ≡ ok status_fail
      → ((e : Exception) × ((run w session s).0 ≡ throw e))
        × OnlyRefused s.history (run w session s).1.history
  run-refused r h =
      let (e, mid, body, calls) = run_body-refused (w.auth_answer s.history start) refl r h in
      elim (Bool-cases (is_auth_error e)) [
        | inl a ↦
            let (x, (thrown, after)) = run-body_auth w session e s mid body a in
            (
              (x, thrown),
              elim calls [
                | inl c ↦ inr (inl (after ∙ ap (λ (t : History). auth stop ∷ t) c))
                | inr c ↦ inl (after ∙ ap (λ (t : History). auth stop ∷ t) c.1)
              ],
            )
        | inr a ↦
            let left_at_once = run-body_other w session e s mid body a in
            (
              rw left_at_once (e, refl),
              rw left_at_once (elim calls [ inl c ↦ inr (inr c) | inr c ↦ cc (c.0, a) ]),
            )
      ]
