-- ===== src/Session/Run/Cleanup.antt =====
-- What `run` of sbuild/sbuild-session.cc does after its `try` block, and where it cleans up.
use schroot.Prelude.{
  ◌≡◌, ◌↔◌, refl, ap, sym, ◌∙◌, true, false, Option, none, some, ◌∷◌, arith, if◌then◌else◌,
}
use schroot.Exception.{Exception, Result, ok, throw, is_auth_error, SessionCode, session_error}
use schroot.Auth.{Status}
use schroot.Auth.Calls.{
  AuthCall, start, authenticate, setupenv, account, cred_establish, cred_delete, stop,
}
use schroot.Session.Access.{get_auth_status}
use schroot.Session.World.{auth, History, World}
use schroot.Session.Exec.{State, M, ◌>>=◌, ◌>>◌, try_catch, swallow, handle, resume, raise, log}
use schroot.Session.Exec.Laws.{>>=-ok, >>-ok, call-ok, try_catch-ok}
use schroot.Session.Config.{Session, chroots_of}
use schroot.Session.Impl.{auth_call, run_impl}
use schroot.Session.Run.{run, run_body, run_authorised}

-- The exception that leaves a handler which swallows its own `auth::error`s.
abbrev left : Exception → Option Exception → Exception
left e none = e
left e (some x) = if is_auth_error x then e else x

-- A throw, and what the history is.
abbrev pub Throws : Result (Unit {0}) × State → Exception → History → Type 0
Throws r e h = (r.0 ≡ throw e) × (r.1.history ≡ h)

module _ (w : World) (session : Session) where
  -- `run`, from the outcome of its `try` block.
  abbrev pub after_body : Result (Unit {0}) × State → Result (Unit {0}) × State
  after_body r =
      resume (λ _. auth_call w session stop)
        (handle is_auth_error (λ e. swallow is_auth_error (auth_call w session stop) >> raise e) r)

  run-after_body : (s : State) → run w session s ≡ after_body (run_body w session s)
  unfolding run ◌>>◌ try_catch
  run-after_body s = refl

  after_body-auth :
      (e : Exception) (s : State)
      → is_auth_error e ≡ true
      → Throws
          (after_body (throw e, s))
          (left e (w.auth_answer s.history stop))
          (auth stop ∷ s.history)
  unfolding ◌>>◌ swallow try_catch
  after_body-auth e s a = ground arith

  -- Where the `try` block throws an `auth::error`, `stop` is called and an exception leaves `run`.
  pub run-body_auth :
      (e : Exception) (s mid : State)
      → run_body w session s ≡ (throw e, mid)
      → is_auth_error e ≡ true
      → (x : Exception) × Throws (run w session s) x (auth stop ∷ mid.history)
  run-body_auth e s mid h a =
      (left e (w.auth_answer mid.history stop), rw (run-after_body, h) (after_body-auth e mid a))

  -- Any other exception leaves `run` at once.
  pub run-body_other :
      (e : Exception) (s mid : State)
      → run_body w session s ≡ (throw e, mid)
      → is_auth_error e ≡ false
      → run w session s ≡ (throw e, mid)
  run-body_other e s mid h a = rw (run-after_body, h) (rw a)

  -- The state when `run_impl` is called, and the calls that must have returned before.
  abbrev pub opened : Status → State → State
  opened status s = log (auth cred_establish) (
      log (auth account)
        (log (auth setupenv) (log (auth (authenticate status)) (log (auth start) s))))

  pub record Opens (status : Status) (s : State) : Type 0 where
    pub decided : get_auth_status w.groups session.authstat (chroots_of session.chroots) ≡ ok status
    pub started : w.auth_answer s.history start ≡ none
    pub authenticated : w.auth_answer (auth start ∷ s.history) (authenticate status) ≡ none
    pub environment :
        w.auth_answer (auth (authenticate status) ∷ auth start ∷ s.history) setupenv ≡ none
    pub accounted :
        w.auth_answer (auth setupenv ∷ auth (authenticate status) ∷ auth start ∷ s.history) account
        ≡ none
    pub established :
        w.auth_answer
          (auth account ∷ auth setupenv ∷ auth (authenticate status) ∷ auth start ∷ s.history)
          cred_establish
        ≡ none

  abbrev after_impl : Result (Unit {0}) × State → Result (Unit {0}) × State
  after_impl r =
      resume (λ _. auth_call w session cred_delete)
        (handle is_auth_error
          (λ e. swallow is_auth_error (auth_call w session cred_delete) >> raise e) r)

  run_body-Opens :
      (status : Status) (s : State)
      → Opens status s
      → run_body w session s ≡ after_impl (run_impl w session (opened status s))
  unfolding run_body run_authorised ◌>>=◌ ◌>>◌ try_catch
  run_body-Opens status s o =
      rw (o.started, o.decided, o.authenticated, o.environment, o.accounted, o.established)

  -- An error of the session itself, as when its command is killed or a setup script fails, leaves
  -- `run` with neither `cred_delete` nor `stop` called.
  pub run-session_error :
      (status : Status) (s s' : State) (c : SessionCode)
      → Opens status s
      → run_impl w session (opened status s) ≡ (throw (session_error c), s')
      → run w session s ≡ (throw (session_error c), s')
  run-session_error status s s' c o h =
      run-body_other (session_error c) s s' (run_body-Opens status s o ∙ ap after_impl h) refl

  -- The calls of a session that succeeds.
  pub record Completes (s s' : State) : Type 0 where
    pub status : Status
    pub opens : Opens status s
    pub finished : State
    pub implemented : run_impl w session (opened status s) ≡ (ok tt, finished)
    pub deletes : w.auth_answer finished.history cred_delete ≡ none
    pub stops : w.auth_answer (auth cred_delete ∷ finished.history) stop ≡ none
    pub closes : s' ≡ log (auth stop) (log (auth cred_delete) finished)

  auth_call-ok :
      (c : AuthCall) (s s' : State)
      → auth_call w session c s ≡ (ok tt, s')
      → (w.auth_answer s.history c ≡ none) × (s' ≡ log (auth c) s)
  auth_call-ok c s s' h = call-ok (auth c) (λ k. w.auth_answer k c) s s' h

  run_authorised-ok :
      (s s' : State)
      → run_authorised w session s ≡ (ok tt, s')
      → (finished : State) × (w.auth_answer s.history cred_establish ≡ none)
        × (run_impl w session (log (auth cred_establish) s) ≡ (ok tt, finished))
        × (w.auth_answer finished.history cred_delete ≡ none)
        × (s' ≡ log (auth cred_delete) finished)
  unfolding run_authorised
  run_authorised-ok s s' h =
      let (_, finished, tried, last) = >>-ok _ _ s s' tt h in
      let block = try_catch-ok is_auth_error _ _ s finished tt tried in
      let (_, mid, first, impl) = >>-ok _ _ s finished tt block in
      let (established, opened_at) = auth_call-ok cred_establish s mid first in
      let (deleted, closed_at) = auth_call-ok cred_delete finished s' last in
      (finished, established, rw opened_at at impl, deleted, closed_at)

  -- One more call that returned, at the head of a block.
  call-next :
      (c : AuthCall) (k : M (Unit {0})) (s s' : State)
      → (auth_call w session c >> k) s ≡ (ok tt, s')
      → (w.auth_answer s.history c ≡ none) × (k (log (auth c) s) ≡ (ok tt, s'))
  call-next c k s s' h =
      let (_, mid, first, more) = >>-ok _ k s s' tt h in
      let (answered, at) = auth_call-ok c s mid first in (answered, rw at at more)

  run_body-ok :
      (s s' : State)
      → run_body w session s ≡ (ok tt, s')
      → (status : Status) × (finished : State) × Opens status s
        × (run_impl w session (opened status s) ≡ (ok tt, finished))
        × (w.auth_answer finished.history cred_delete ≡ none)
        × (s' ≡ log (auth cred_delete) finished)
  unfolding run_body
  run_body-ok s s' h =
      let (started, k1) = call-next start _ s s' h in
      let (status, mid, lifted, k2) = >>=-ok _ _ (log (auth start) s) s' tt k1 in
      let decided = ap (λ (r : Result Status × State). r.0) lifted in
      let same : mid ≡ log (auth start) s = sym (ap (λ (r : Result Status × State). r.1) lifted) in
      let (authenticated, k3) =
        call-next (authenticate status) _ (log (auth start) s) s' (rw same at k2) in
      let (environment, k4) = call-next setupenv _ _ s' k3 in
      let (accounted, k5) = call-next account _ _ s' k4 in
      let (finished, established, implemented, deleted, closed) = run_authorised-ok _ s' k5 in
      (
        status,
        finished,
        record {
          decided = decided;
          started = started;
          authenticated = authenticated;
          environment = environment;
          accounted = accounted;
          established = established;
        },
        implemented,
        deleted,
        closed,
      )

  run-Completes : (s s' : State) → run w session s ≡ (ok tt, s') → Completes s s'
  unfolding run
  run-Completes s s' h =
      let (_, mid, tried, last) = >>-ok _ _ s s' tt h in
      let block = try_catch-ok is_auth_error _ _ s mid tt tried in
      let (status, finished, opens, implemented, deleted, closed) = run_body-ok s mid block in
      let (stopped, at) = auth_call-ok stop mid s' last in
      record {
        status = status;
        opens = opens;
        finished = finished;
        implemented = implemented;
        deletes = deleted;
        stops = rw closed at stopped;
        closes = at ∙ ap (log (auth stop)) closed;
      }

  Completes-run : (s s' : State) → Completes s s' → run w session s ≡ (ok tt, s')
  Completes-run s s' c =
      rw (run-after_body, run_body-Opens c.status s c.opens, c.implemented, c.deletes, c.stops)
        (ap (λ (t : State). let r : Result (Unit {0}) × State = (ok tt, t) in r) (sym c.closes))

  -- A session succeeds exactly where these calls return, in this order: `start`, `authenticate` with
  -- the status of the access rules, `setupenv`, `account`, `cred_establish`, all of `run_impl`,
  -- `cred_delete`, `stop`; and it makes no other call of `authstat` around `run_impl`.
  pub run-ok : (s s' : State) → (run w session s ≡ (ok tt, s')) ↔ Completes s s'
  run-ok s s' = (run-Completes s s', Completes-run s s')
