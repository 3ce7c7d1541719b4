-- ===== src/Tests/Child.antt =====
-- The theorems of the child process of a session at a concrete input.
use schroot.Prelude.{
  ◌≡◌, refl, Bool, true, false, none, [], ◌∷◌, Text, codes, text_beq, text_eq, nat_eq, is_empty,
  arith,
}
use schroot.Environment.{no_environment}
use schroot.Session.Chroot.{Chroot}
use schroot.Session.Child.{
  Kernel, run_child, getcwd, initial_environment, ◌>>=◌, ◌>>◌, enter_chroot, change_directory,
  execute, run_program, run_inside, drop_root, setuid, setgid, initgroups, set_persona, chdir_to,
  chroot_to, exec_file,
}
use schroot.Session.Child.Command.{
  Settings, get_shells, get_shell, get_command, get_command_directories,
}
use schroot.Session.Child.Confinement.{executed, IsConfined, run_child-executed}
use schroot.Session.Child.Shells.{Chosen, get_shell_lem}
use schroot.Session.Child.Completion.{Works, run_child-executes}
use schroot.Tests.Fixture.{whole, home_term, alice_to_root, chroot_for}

abbrev settings : Settings
settings = record {
  authstat = record alice_to_root { command = codes "/bin/ls" ∷ [] };
  shell = [];
  preserve_environment = false;
  complete_environment = home_term;
}

-- A system with /bin/sh, where every call succeeds.
abbrev exists : Text → Bool
exists name = text_beq name (codes "/bin/sh")

abbrev kernel : Kernel
kernel = record {
  succeeds = λ h call. true;
  raw_cwd = none;
  exists = exists;
  is_program = λ name. true;
  search = whole;
  print_number = λ n. codes "0";
  has_personality = false;
  get_path = λ ch. codes "/srv/sid";
  is_initialised = true;
  auth_environment = no_environment;
}

abbrev sid : Chroot
sid = chroot_for [] []

runs : executed (run_child kernel settings sid []).1 ≡ true
unfolding run_child ◌>>=◌ ◌>>◌ run_inside enter_chroot drop_root change_directory run_program
    execute get_command get_command_directories
runs = refl

run_child-executed_example :
    IsConfined kernel settings sid
      (getcwd kernel settings sid)
      (initial_environment kernel settings sid)
      []
      (run_child kernel settings sid []).1
run_child-executed_example = run_child-executed kernel settings sid runs

no_name : exists [] ≡ false
unfolding text_beq
no_name = refl

get_shell_lem_example :
    Chosen exists (get_shells settings sid) (get_shell whole exists exists settings sid)
    × (is_empty (get_shell whole exists exists settings sid) ≡ false)
get_shell_lem_example = get_shell_lem exists whole exists settings sid no_name

kernel-Works : Works kernel settings sid
kernel-Works h (setgid n) = refl
kernel-Works h (initgroups name n) = refl
kernel-Works h set_persona = refl
kernel-Works h (chdir_to dir) = refl
kernel-Works h (chroot_to dir) = refl
kernel-Works h (setuid n) = ground arith
kernel-Works h (exec_file file arguments env) = refl

run_child-executes_example : executed (run_child kernel settings sid []).1 ≡ true
run_child-executes_example =
    run_child-executes kernel settings sid kernel-Works refl refl refl no_name
