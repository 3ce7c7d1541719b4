-- ===== src/Session/Access.antt =====
-- sbuild/sbuild-session.cc: `is_group_member`, `get_chroot_membership`, `get_chroot_auth_status`
-- and `get_auth_status`. The answers of getgrnam(3), getgid(2) and getgroups(2) are `Groups`.
pub mod Policy
use schroot.Prelude.{
  ℕ, Bool, true, false, ◌&&◌, ◌||◌, Option, none, some, List, [], ◌∷◌, Text, nat_eq, text_eq, ◌==◌,
  ltb, any, contains, take, length, if◌then◌else◌,
}
use schroot.Exception.{Result, ok, throw, session_error, group_get_sup, group_get_supc, assertion}
use schroot.Auth.{Auth, Status, status_none, status_user, status_fail, change_auth}
use schroot.Session.Chroot.{Chroot}

pub record Groups : Type 0 where
  pub getgrnam : Text → Option ℕ
  pub getgid : ℕ
  -- `getgroups (0, 0)`, and the list that the second call fills
  pub group_count : Option ℕ
  pub supplementary : Option (List ℕ)

-- The second call fails, or returns less than 1.
unfoldable pub in_supplementary : ℕ → ℕ → Option (List ℕ) → Result Bool
in_supplementary gr_gid count none = throw (session_error group_get_sup)
in_supplementary gr_gid count (some []) = throw (session_error group_get_sup)
in_supplementary gr_gid count (some (g ∷ gs)) = ok (any (λ s. gr_gid == s) (take count (g ∷ gs)))

module _ (db : Groups) where
  unfoldable pub is_group_member : Text → Result Bool
  is_group_member groupname = elim (db.getgrnam groupname) [
    | none ↦ ok false
    | some gr_gid ↦ if gr_gid == db.getgid then ok true else elim db.group_count [
      | none ↦ throw (session_error group_get_supc)
      | some count ↦
          if ltb 0 count then in_supplementary gr_gid count db.supplementary else ok false
    ]
  ]

  -- the loops over `groups` and `root_groups`, which ask about every group
  unfoldable pub in_any_group : Bool → List Text → Result Bool
  in_any_group found [] = ok found
  in_any_group found (name ∷ names) = elim (is_group_member name) [
    | throw e ↦ throw e
    | ok member ↦ in_any_group (found || member) names
  ]

pub record Membership : Type 0 where
  pub in_users : Bool
  pub in_root_users : Bool
  pub in_groups : Bool
  pub in_root_groups : Bool

-- the decision of `get_chroot_auth_status`
module _ (auth : Auth) where
  unfoldable pub membership_status : Status → Membership → Status
  membership_status status m =
      if (m.in_users || m.in_groups || m.in_root_users || m.in_root_groups) && auth.ruid == auth.uid
      then change_auth status status_none
      else if (m.in_root_users || m.in_root_groups) && auth.uid == 0
      then change_auth status status_none
      else if m.in_users || m.in_groups
      then change_auth status status_user
      else if auth.ruid == 0
      then change_auth status status_user
      else change_auth status status_fail

module _ (db : Groups) (auth : Auth) where
  unfoldable pub get_chroot_membership : Chroot → Result Membership
  get_chroot_membership chroot = elim (in_any_group db false chroot.groups) [
    | throw e ↦ throw e
    | ok in_groups ↦ elim (in_any_group db false chroot.root_groups) [
      | throw e ↦ throw e
      | ok in_root_groups ↦ ok (record {
        in_users = contains chroot.users auth.ruser;
        in_root_users = contains chroot.root_users auth.ruser;
        in_groups = in_groups;
        in_root_groups = in_root_groups;
      })
    ]
  ]

  unfoldable pub get_chroot_auth_status : Status → Chroot → Result Status
  get_chroot_auth_status status chroot = elim (get_chroot_membership chroot) [
    | throw e ↦ throw e
    | ok m ↦ ok (membership_status auth status m)
  ]

  -- the loop of `get_auth_status`
  unfoldable pub escalate : Status → List Chroot → Result Status
  escalate status [] = ok status
  escalate status (chroot ∷ chroots) = elim (get_chroot_auth_status status chroot) [
    | throw e ↦ throw e
    | ok newauth ↦ escalate (change_auth status newauth) chroots
  ]

  unfoldable pub get_auth_status : List Chroot → Result Status
  get_auth_status [] = throw assertion
  get_auth_status (chroot ∷ chroots) = escalate status_none (chroot ∷ chroots)
