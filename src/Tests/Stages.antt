-- ===== src/Tests/Stages.antt =====
-- The theorems of the stages of a session at concrete inputs.
use schroot.Prelude.{◌≡◌, refl, true, Option, none, some, []}
use schroot.Exception.{Exception, ok, throw, auth_error, authorisation}
use schroot.Auth.Calls.{AuthCall, open_session}
use schroot.Session.Chroot.{Chroot, setup_start, setup_stop}
use schroot.Session.World.{World}
use schroot.Session.Exec.{State, ◌>>=◌, ◌>>◌, try_catch, swallow}
use schroot.Session.Wait.{wait_for_child, wait_loop, pass_signal, returned, decode}
use schroot.Session.Setup.{
  automatic, setup_chroot, applies, perform, acquire, run_scripts, release, check_scripts,
}
use schroot.Session.Setup.Laws.{Performed}
use schroot.Session.Config.{Session}
use schroot.Session.Impl.{
  run_stages, stages, run_in_session, save_termios, restore_termios, run_chroot, is_login,
}
use schroot.Session.Impl.Stages.{run_stages-ok, run_stages-refused, refused_state}
use schroot.Tests.Fixture.{chroot_for, world, initial, session_of}

abbrev chroot : Chroot
chroot = chroot_for [] []

abbrev session : Session
session = session_of automatic chroot

abbrev finished : State
finished = (run_stages world session chroot initial).1

finishes : run_stages world session chroot initial ≡ (ok tt, finished)
unfolding run_stages stages run_in_session save_termios restore_termios run_chroot is_login
    setup_chroot applies perform acquire run_scripts release check_scripts ◌>>=◌ ◌>>◌ try_catch
    swallow wait_for_child wait_loop pass_signal returned decode
finishes = refl

run_stages-ok_example :
    (s1 : State) × (s2 : State) × Performed chroot setup_start true initial s1
    × (run_in_session world session chroot s1 ≡ (ok tt, s2))
    × Performed chroot setup_stop true s2 finished
run_stages-ok_example = run_stages-ok world session chroot initial finished refl refl refl finishes

-- The session of `authstat` is refused.
abbrev refuse : AuthCall → Option Exception
refuse open_session = some (auth_error authorisation)
refuse c = none

abbrev refusing : World
refusing = record world { auth_answer = λ h c. refuse c }

abbrev refused_start : State
refused_start = (setup_chroot refusing automatic chroot setup_start initial).1

refused_starts : setup_chroot refusing automatic chroot setup_start initial ≡ (ok tt, refused_start)
unfolding setup_chroot applies perform acquire run_scripts release check_scripts ◌>>=◌ ◌>>◌
    try_catch swallow wait_for_child wait_loop pass_signal returned decode
refused_starts = refl

run_stages-refused_example :
    run_stages refusing session chroot initial
    ≡ (throw (auth_error authorisation), refused_state refusing session refused_start)
run_stages-refused_example =
    run_stages-refused refusing session chroot initial refused_start (auth_error authorisation) refl
      refused_starts refl refl refl (λ h. refl)
