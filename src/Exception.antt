-- ===== src/Exception.antt =====
-- The exceptions that sbuild/ throws, by the type that a `catch` names: `auth::error`
-- (sbuild/sbuild-auth.h), `session::error` (sbuild/sbuild-session.h), `chroot::error`, and the
-- other classes derived from `std::runtime_error`. A failed assertion ends the process, and no
-- handler catches it.
use schroot.Prelude.{Bool, true, false}

-- `auth::error_code`
pub data AuthCode : Type 0 where
  hostname user group authentication authorisation pam_double_init pam pam_end : AuthCode

-- `session::error_code`
pub data SessionCode : Type 0 where
  chdir chdir_fb child_core child_fail child_fork child_signal child_wait chroot chroot_alias :
      SessionCode
  chroot_lock chroot_notfound chroot_setup chroot_unlock command_abs exec group_get_sup :
      SessionCode
  group_get_supc group_set group_set_sup group_unknown pam root_drop set_session_id shell :
      SessionCode
  shell_fb signal_catch signal_set user_set user_switch : SessionCode

pub data Exception : Type 0 where
  auth_error : AuthCode → Exception
  session_error : SessionCode → Exception
  chroot_error : Exception
  other_error : Exception
  assertion : Exception

-- `catch (auth::error const& e)`
abbrev pub is_auth_error : Exception → Bool
is_auth_error (auth_error c) = true
is_auth_error _ = false

-- `catch (error const& e)` in the scope of `session`
abbrev pub is_session_error : Exception → Bool
is_session_error (session_error c) = true
is_session_error _ = false

-- `catch (chroot::error const& e)`
abbrev pub is_chroot_error : Exception → Bool
is_chroot_error chroot_error = true
is_chroot_error _ = false

-- `catch (std::runtime_error const& e)`
abbrev pub is_runtime_error : Exception → Bool
is_runtime_error assertion = false
is_runtime_error _ = true

-- What a function that may throw returns.
pub data Result {ℓ} (A : Type ℓ) : Type ℓ where
  ok : A → Result A
  throw : Exception → Result A
