-- ===== src/Tests/Sessions.antt =====
-- The theorems of the sessions and of run-parts at concrete inputs.
use schroot.Prelude.{◌≡◌, refl, ◌↔◌, ◌⊎◌, true, false, ◌&&◌, none, [], ◌∷◌, codes, All, text_beq}
use schroot.Exception.{Exception, ok, throw, session_error, chroot_notfound}
use schroot.Auth.{Status, status_none, status_fail, change_auth}
use schroot.Exception.{authorisation}
use schroot.Session.Access.{
  get_auth_status, get_chroot_membership, in_any_group, is_group_member, in_supplementary, escalate,
  get_chroot_auth_status, membership_status,
}
use schroot.Session.Access.Policy.{get_auth_status_lem, Known, Trusts, Denies, Some}
use schroot.Session.Chroot.{Chroot, setup_start}
use schroot.Session.Exec.{State, ◌>>=◌, ◌>>◌, try_catch, swallow}
use schroot.Session.Wait.{wait_for_child, wait_loop, pass_signal, returned, decode, exit_failure}
use schroot.Session.Wait.Laws.{IsNormal, is_pending, wait_for_child-IsNormal}
use schroot.Session.Wait.Sends.{Sends, wait_for_child-Sends}
use schroot.Session.Setup.{
  begin, recover, setup_chroot, applies, perform, acquire, run_scripts, release, check_scripts,
}
use schroot.Session.Setup.Laws.{Performed, given_status, setup_chroot-ok}
use schroot.Session.Impl.{
  run_impl, set_handlers, clear_handlers, run_entries, run_entry, set_signal_handler,
  clear_signal_handler,
}
use schroot.Session.Impl.Signals.{IsOrderly, run_impl-IsOrderly}
use schroot.Session.Run.{run}
use schroot.Session.Run.Refusal.{Refuses, OnlyRefused, run-refused}
use schroot.Session.Run.Cleanup.{Opens, opened, Completes, run-ok, run-session_error}
use schroot.Tests.Fixture.{
  alice_to_root, groups, chroot_for, terminated_wait, quiet_wait, world, initial, session_of,
}

abbrev sbuild_chroot : Chroot
sbuild_chroot = chroot_for [] (codes "sbuild" ∷ [])

sbuild_chroot-Known : Known groups alice_to_root sbuild_chroot
unfolding get_chroot_membership in_any_group is_group_member in_supplementary text_beq
sbuild_chroot-Known = (_, refl)

get_auth_status_lem_example :
    (r : Status) × (get_auth_status groups alice_to_root (sbuild_chroot ∷ []) ≡ ok r)
    × ((r ≡ status_none) ↔ All (Trusts groups alice_to_root) (sbuild_chroot ∷ []))
    × ((r ≡ status_fail) ↔ Some (Denies groups alice_to_root) (sbuild_chroot ∷ []))
get_auth_status_lem_example =
    get_auth_status_lem groups alice_to_root sbuild_chroot [] (sbuild_chroot-Known, tt)

world-Refuses : Refuses world
world-Refuses h = (authorisation, refl)

run-refused_example :
    ((e : Exception) × ((run world (session_of begin (chroot_for [] [])) initial).0 ≡ throw e))
    × OnlyRefused [] (run world (session_of begin (chroot_for [] [])) initial).1.history
unfolding get_auth_status escalate get_chroot_auth_status get_chroot_membership in_any_group
    membership_status change_auth
run-refused_example =
    run-refused world (session_of begin (chroot_for [] [])) initial world-Refuses refl

abbrev session_end : State
session_end = (run world (session_of begin sbuild_chroot) initial).1

run-ok_example :
    (run world (session_of begin sbuild_chroot) initial ≡ (ok tt, session_end))
    ↔ Completes world (session_of begin sbuild_chroot) initial session_end
run-ok_example = run-ok world (session_of begin sbuild_chroot) initial session_end

abbrev opened_state : State
opened_state = opened world (session_of recover sbuild_chroot) status_none initial

abbrev failed_state : State
failed_state = (run_impl world (session_of recover sbuild_chroot) opened_state).1

recover-Opens : Opens world (session_of recover sbuild_chroot) status_none initial
unfolding get_auth_status escalate get_chroot_auth_status get_chroot_membership in_any_group
    is_group_member in_supplementary text_beq membership_status change_auth
recover-Opens = record {
  decided = refl;
  started = refl;
  authenticated = refl;
  environment = refl;
  accounted = refl;
  established = refl;
}

recover-throws :
    run_impl world (session_of recover sbuild_chroot) opened_state
    ≡ (throw (session_error chroot_notfound), failed_state)
unfolding run_impl set_handlers clear_handlers run_entries run_entry ◌>>◌ try_catch
    set_signal_handler clear_signal_handler
recover-throws = refl

run-session_error_example :
    run world (session_of recover sbuild_chroot) initial
    ≡ (throw (session_error chroot_notfound), failed_state)
run-session_error_example =
    run-session_error world (session_of recover sbuild_chroot) status_none initial failed_state
      chroot_notfound recover-Opens recover-throws

run_impl-IsOrderly_example :
    IsOrderly world
      (session_of recover sbuild_chroot)
      opened_state
      (run_impl world (session_of recover sbuild_chroot) opened_state)
unfolding run_impl set_handlers clear_handlers run_entries run_entry ◌>>◌ try_catch
    set_signal_handler clear_signal_handler
run_impl-IsOrderly_example =
    run_impl-IsOrderly world (session_of recover sbuild_chroot) opened_state (λ h signal. refl) refl

wait_for_child-IsNormal_example :
    IsNormal quiet_wait.status initial (wait_for_child quiet_wait initial)
    × (is_pending initial ≡ false)
unfolding wait_for_child wait_loop pass_signal returned decode
wait_for_child-IsNormal_example = wait_for_child-IsNormal quiet_wait initial refl

wait_for_child-Sends_example :
    Sends initial (wait_for_child terminated_wait initial).state
    × ((wait_for_child terminated_wait initial).thrown ≡ none
        ⊎ ((wait_for_child terminated_wait initial).status ≡ exit_failure))
wait_for_child-Sends_example = wait_for_child-Sends terminated_wait initial

abbrev started_state : State
started_state = (setup_chroot world begin sbuild_chroot setup_start initial).1

started : setup_chroot world begin sbuild_chroot setup_start initial ≡ (ok tt, started_state)
unfolding setup_chroot applies perform acquire run_scripts release check_scripts ◌>>=◌ ◌>>◌
    try_catch swallow wait_for_child wait_loop pass_signal returned decode
started = refl

setup_chroot-ok_example :
    ((started_state ≡ initial) × ((applies begin setup_start && true && true) ≡ false))
    ⊎ (((applies begin setup_start && true && true) ≡ true)
        × Performed sbuild_chroot setup_start
            (given_status world sbuild_chroot setup_start initial)
            initial
            started_state)
setup_chroot-ok_example =
    setup_chroot-ok world sbuild_chroot setup_start begin initial started_state started
