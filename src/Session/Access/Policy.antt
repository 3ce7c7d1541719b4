-- ===== src/Session/Access/Policy.antt =====
-- What the access rules of sbuild/sbuild-session.cc grant, over all the chroots of a session.
use schroot.Prelude.{
  ◌≡◌, ◌≢◌, subst, refl, ◌↔◌, ◌⊎◌, inl, inr, true, false, List, [], ◌∷◌, All, arith, nat_eq,
}
use schroot.Exception.{Result, ok, throw}
use schroot.Auth.{Auth, Status, status_none, status_user, status_fail, change_auth}
use schroot.Session.Chroot.{Chroot}
use schroot.Session.Access.{
  Groups, Membership, get_chroot_membership, membership_status, get_chroot_auth_status, escalate,
  get_auth_status,
}

-- Listed by name or by group, in either pair of lists.
abbrev pub IsUser : Membership → Type 0
IsUser m = (m.in_users ≡ true) ⊎ (m.in_groups ≡ true)

abbrev pub IsRootUser : Membership → Type 0
IsRootUser m = (m.in_root_users ≡ true) ⊎ (m.in_root_groups ≡ true)

-- No password is asked of a listed user who keeps the uid, nor of a root user who becomes root.
abbrev pub IsTrusted : Auth → Membership → Type 0
IsTrusted auth m =
    ((IsUser m ⊎ IsRootUser m) × (auth.ruid ≡ auth.uid)) ⊎ (IsRootUser m × (auth.uid ≡ 0))

-- Not listed as a user, not root, and no root user who would be trusted.
abbrev pub IsDenied : Auth → Membership → Type 0
IsDenied auth m =
    (m.in_users ≡ false)
    × (m.in_groups ≡ false)
    × (auth.ruid ≢ 0)
    × (((m.in_root_users ≡ false) × (m.in_root_groups ≡ false))
        ⊎ ((auth.ruid ≢ auth.uid) × (auth.uid ≢ 0)))

abbrev pub Some {ℓ} : {A : Type ℓ} → (A → Type 0) → List A → Type 0
Some P [] = ⊥
Some P (x ∷ xs) = P x ⊎ Some P xs

module _ (auth : Auth) where
  status_none_iff :
      (status : Status) (m : Membership)
      → (membership_status auth status m ≡ status_none)
        ↔ ((status ≡ status_none) × IsTrusted auth m)
  unfolding membership_status change_auth
  status_none_iff status_none m = (λ h. ground arith, λ h. ground arith)
  status_none_iff status_user m = (λ h. ground arith, λ h. ground arith)
  status_none_iff status_fail m = (λ h. ground arith, λ h. ground arith)

  status_fail_iff :
      (status : Status) (m : Membership)
      → (membership_status auth status m ≡ status_fail) ↔ ((status ≡ status_fail) ⊎ IsDenied auth m)
  unfolding membership_status change_auth
  status_fail_iff status_none m = (λ h. ground arith, λ h. ground arith)
  status_fail_iff status_user m = (λ h. ground arith, λ h. ground arith)
  status_fail_iff status_fail m = (λ h. ground arith, λ h. ground arith)

  -- The status never goes down.
  membership_status_escalates :
      (status : Status) (m : Membership)
      → change_auth status (membership_status auth status m) ≡ membership_status auth status m
  unfolding membership_status change_auth
  membership_status_escalates status_none m = ground arith
  membership_status_escalates status_user m = ground arith
  membership_status_escalates status_fail m = ground arith

module _ (db : Groups) (auth : Auth) where
  -- The chroot lets the user in with no password.
  abbrev pub Trusts : Chroot → Type 0
  Trusts chroot =
      (m : Membership) × (get_chroot_membership db auth chroot ≡ ok m) × IsTrusted auth m

  abbrev pub Denies : Chroot → Type 0
  Denies chroot = (m : Membership) × (get_chroot_membership db auth chroot ≡ ok m) × IsDenied auth m

  -- One round of the loop: what the membership was, and the status with which the loop goes on.
  abbrev Rounds : Status → Status → Chroot → List Chroot → Result Membership → Type 0
  Rounds status r chroot chroots o =
      (m : Membership) × (o ≡ ok m)
      × (escalate db auth (membership_status auth status m) chroots ≡ ok r)

  escalate-round :
      (status r : Status) (chroot : Chroot) (chroots : List Chroot) (o : Result Membership)
      → get_chroot_membership db auth chroot ≡ o
      → escalate db auth status (chroot ∷ chroots) ≡ ok r
      → Rounds status r chroot chroots o
  unfolding escalate get_chroot_auth_status
  escalate-round status r chroot chroots (throw x) e h =
      cc (rw (e, escalate, get_chroot_auth_status) at h)
  escalate-round status r chroot chroots (ok m) e h =
      (m, refl, rw membership_status_escalates at (rw (e, escalate, get_chroot_auth_status) at h))

  escalate-cons :
      (status r : Status) (chroot : Chroot) (chroots : List Chroot)
      → escalate db auth status (chroot ∷ chroots) ≡ ok r
      → Rounds status r chroot chroots (get_chroot_membership db auth chroot)
  escalate-cons status r chroot chroots h =
      escalate-round status r chroot chroots (get_chroot_membership db auth chroot) refl h

  -- There is one membership.
  IsTrusted-here :
      (chroot : Chroot) (m : Membership)
      → get_chroot_membership db auth chroot ≡ ok m
      → Trusts chroot
      → IsTrusted auth m
  IsTrusted-here chroot m known (m', known', trusted) =
      let same : m' ≡ m = cc in subst (IsTrusted auth) same trusted

  escalate_none :
      (status r : Status) (chroots : List Chroot)
      → escalate db auth status chroots ≡ ok r
      → (r ≡ status_none) ↔ ((status ≡ status_none) × All Trusts chroots)
  unfolding escalate
  escalate_none status r [] h = ((λ e. (cc, tt)), λ e. cc)
  escalate_none status r (chroot ∷ chroots) h =
      let (m, known, rest) = escalate-cons status r chroot chroots h in
      let later = escalate_none (membership_status auth status m) r chroots rest in
      let here = status_none_iff auth status m in
      (
        (λ e.
            let (n, trusts) = later.0 e in
            let (same, trusted) = here.0 n in (same, ((m, known, trusted), trusts))),
        λ e. later.1 (here.1 (e.0, IsTrusted-here chroot m known e.1.0), e.1.1),
      )

  IsDenied-here :
      (chroot : Chroot) (m : Membership)
      → get_chroot_membership db auth chroot ≡ ok m
      → Denies chroot
      → IsDenied auth m
  IsDenied-here chroot m known (m', known', denied) =
      let same : m' ≡ m = cc in subst (IsDenied auth) same denied

  escalate_fail :
      (status r : Status) (chroots : List Chroot)
      → escalate db auth status chroots ≡ ok r
      → (r ≡ status_fail) ↔ ((status ≡ status_fail) ⊎ Some Denies chroots)
  unfolding escalate
  escalate_fail status r [] h = ((λ e. inl cc), λ e. ground arith)
  escalate_fail status r (chroot ∷ chroots) h =
      let (m, known, rest) = escalate-cons status r chroot chroots h in
      let later = escalate_fail (membership_status auth status m) r chroots rest in
      let here = status_fail_iff auth status m in
      (
        (λ e. elim (later.0 e) [
          | inl n ↦ elim (here.0 n) [ inl s ↦ inl s | inr d ↦ inr (inl (m, known, d)) ]
          | inr some_later ↦ inr (inr some_later)
        ]),
        λ e. elim e [
          | inl s ↦ later.1 (inl (here.1 (inl s)))
          | inr (inl d) ↦ later.1 (inl (here.1 (inr (IsDenied-here chroot m known d))))
          | inr (inr some_later) ↦ later.1 (inr some_later)
        ],
      )

  get_auth_status-none :
      (chroots : List Chroot) (r : Status)
      → get_auth_status db auth chroots ≡ ok r
      → (r ≡ status_none) ↔ All Trusts chroots
  unfolding get_auth_status
  get_auth_status-none [] r h = cc
  get_auth_status-none (chroot ∷ chroots) r h =
      let e = escalate_none status_none r (chroot ∷ chroots) h in
      ((λ n. (e.0 n).1), λ t. e.1 (refl, t))

  get_auth_status-fail :
      (chroots : List Chroot) (r : Status)
      → get_auth_status db auth chroots ≡ ok r
      → (r ≡ status_fail) ↔ Some Denies chroots
  unfolding get_auth_status
  get_auth_status-fail [] r h = cc
  get_auth_status-fail (chroot ∷ chroots) r h =
      let e = escalate_fail status_none r (chroot ∷ chroots) h in
      ((λ n. elim (e.0 n) [ inl s ↦ cc | inr d ↦ d ]), λ d. e.1 (inr d))

  -- Every group of the chroot can be looked up, so that its membership is known.
  abbrev pub Known : Chroot → Type 0
  Known chroot = (m : Membership) × (get_chroot_membership db auth chroot ≡ ok m)

  escalate_total :
      (status : Status) (chroots : List Chroot)
      → All Known chroots
      → (r : Status) × (escalate db auth status chroots ≡ ok r)
  unfolding escalate get_chroot_auth_status
  escalate_total status [] k = (status, refl)
  escalate_total status (chroot ∷ chroots) k =
      let (m, known) = k.0 in
      rw (known, escalate, get_chroot_auth_status)
        (escalate_total (change_auth status (membership_status auth status m)) chroots k.1)

  -- Where the membership of every chroot is known, a session of at least one chroot has a status.
  -- No password is asked exactly where every chroot trusts the user, and access is refused exactly
  -- where some chroot denies it.
  pub get_auth_status_lem :
      (chroot : Chroot) (chroots : List Chroot)
      → All Known (chroot ∷ chroots)
      → (r : Status) × (get_auth_status db auth (chroot ∷ chroots) ≡ ok r)
        × ((r ≡ status_none) ↔ All Trusts (chroot ∷ chroots))
        × ((r ≡ status_fail) ↔ Some Denies (chroot ∷ chroots))
  get_auth_status_lem chroot chroots k =
      let all = chroot ∷ chroots in
      let (r, e) = escalate_total status_none all k in
      let h : get_auth_status db auth all ≡ ok r = unfold get_auth_status in e in
      (r, h, get_auth_status-none all r h, get_auth_status-fail all r h)
