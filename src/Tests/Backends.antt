-- ===== src/Tests/Backends.antt =====
-- The theorems on the authentication back ends at concrete answers.
use schroot.Prelude.{◌≡◌, ◌↔◌, ◌⊎◌, true, false, none, is_empty}
use schroot.Auth.{status_none, status_user}
use schroot.Auth.Calls.{authenticate, pam_call, PamAnswers}
use schroot.Auth.Calls.Admission.{pam_call-authenticate}
use schroot.Tests.Fixture.{alice_to_root, home_term}

-- A wrong password, without a terminal.
abbrev rejecting : PamAnswers
rejecting = record {
  pam_start = true;
  handle_set = true;
  pam_end = true;
  set_ruser = true;
  gethostname = true;
  set_rhost = true;
  tty = false;
  set_tty = false;
  set_user = true;
  pam_authenticate = false;
  pam_putenv = λ item. true;
  pam_acct_mgmt = true;
  establish_cred = true;
  delete_cred = true;
  pam_open_session = true;
  pam_close_session = true;
}

pam_call-authenticate_example :
    ((pam_call rejecting home_term alice_to_root true (authenticate status_user)).0 ≡ none) ↔ (
      (true ≡ true)
      × (is_empty alice_to_root.user_name ≡ false)
      × ((rejecting.set_ruser ≡ true)
          × (rejecting.gethostname ≡ true)
          × (rejecting.set_rhost ≡ true))
      × ((rejecting.tty ≡ false) ⊎ (rejecting.set_tty ≡ true))
      × (((status_user ≡ status_none) × (rejecting.set_user ≡ true))
          ⊎ ((status_user ≡ status_user) × (rejecting.pam_authenticate ≡ true))))
pam_call-authenticate_example =
    pam_call-authenticate rejecting home_term alice_to_root true status_user
