-- ===== src/Tests/Locking.antt =====
-- The theorems of the session files, of the environment of the scripts and of the rounds of
-- `split_string` at concrete inputs.
use schroot.Prelude.{
  ◌≡◌, refl, true, false, none, some, [], ◌∷◌, Text, codes, text_beq, text_ltb, text_eq, nat_eq,
  arith, inl, all,
}
use schroot.Prelude.Map.{find, insert, erase}
use schroot.Environment.{Environment, get, add}
use schroot.Environment.Laws.{overlay}
use schroot.Userdata.{Userdata, envname}
use schroot.Lock.{
  System, default, set_lock, unset_lock, lock_body, set_timer, set_alarm, start_timer, call_fcntl,
  unset_timer, clear_alarm,
}
use schroot.Util.Split.{
  string_list_to_string, split_loop, split_string, position, find_first_not_of,
}
use schroot.Util.Split.Fuel.{split_loop-split_string}
use schroot.Keyfile.{Keyfile, ok, names}
use schroot.Keyfile.Parser.{read}
use schroot.Session.Chroot.{setup_start}
use schroot.Definition.{lvm_snapshot, with_userdata}
use schroot.Definition.Save.{
  entries, base_entries, type_entries, facet_entries, persona_entries, userdata_entries,
  source_entries, mountable_entries, session_entries,
}
use schroot.Definition.Load.{set_keyfile}
use schroot.Definition.Saved.{last_of}
use schroot.Definition.Kept.{HasKeys, HasData}
use schroot.Definition.Whole.{reloaded}
use schroot.Definition.Locking.{
  file_lock, Disk, FileStatus, Files, setup_lock, session_info, setup_session_info,
  create_session_info, check_snapshot, has_bits, is_regular,
}
use schroot.Definition.Locking.Laws.{Touches, setup_lock-Effect}
use schroot.Definition.Locking.Left.{AllThrow, setup_lock-left_empty}
use schroot.Definition.Locking.Printed.{is_line}
use schroot.Definition.Locking.Stored.{setup_lock-set_keyfile}
use schroot.Definition.Variables.{
  setup_env, add_variables, add_userdata, chroot_variables, class_variables, mountable_variables,
  session_variables,
}
use schroot.Definition.Variables.Laws.{variables, get-setup_env}
use schroot.Tests.Definitions.{
  volume, target, debug, facet, new_facet, of_file, anything, volume-IsSession, volume-IsLoadable,
  volume-IsFaceted, volume-IsRestorable, volume-ArePaths, target-IsTarget,
}

-- No call fails.
abbrev working : System
working = record {
  sigaction_fails = λ n. false;
  setitimer_fails = λ n. false;
  fcntl_fails = λ n. false;
  interrupted = λ n. false;
}

abbrev a_device : FileStatus
a_device = record { uid = 0; mode = 25008 }

abbrev disk_of : System → Disk
disk_of sys = record {
  session_dir = codes "/s";
  open_fails = λ path. false;
  unlink_fails = λ path. false;
  stat = λ path. some a_device;
  sys = sys;
  handler = default;
}

abbrev written : Files
written = (setup_lock (disk_of working) lvm_snapshot setup_start true 0 volume []).1

starts : setup_lock (disk_of working) lvm_snapshot setup_start true 0 volume [] ≡ (none, written)
unfolding setup_lock session_info setup_session_info create_session_info check_snapshot has_bits
    find set_lock unset_lock lock_body set_timer set_alarm start_timer call_fcntl unset_timer
    clear_alarm
starts = refl

setup_lock-Effect_example :
    Touches
      (disk_of working)
      volume
      true
      false
      []
      (setup_lock (disk_of working) lvm_snapshot setup_start true 0 volume [])
setup_lock-Effect_example =
    setup_lock-Effect (disk_of working) volume lvm_snapshot setup_start true 0 [] refl

volume_lines : all is_line (entries volume) ≡ true
unfolding entries base_entries type_entries facet_entries persona_entries userdata_entries
    source_entries mountable_entries session_entries text_beq names string_list_to_string
volume_lines = refl

setup_lock-set_keyfile_example :
    (text : Text) × (kf : Keyfile) × (u1 : Userdata) × (u2 : Userdata) × (find
        (codes "/s/s1")
        written
      ≡ some text)
    × (read text [] ≡ ok kf)
    × (set_keyfile of_file anything kf target
        ≡ ok (with_userdata (reloaded volume debug facet target u1) u2))
    × HasKeys debug u2
    × HasData debug u2
setup_lock-set_keyfile_example =
    setup_lock-set_keyfile of_file anything (disk_of working) lvm_snapshot 0 [] written volume
      target debug facet new_facet refl starts refl volume_lines volume-IsSession
      (λ h. ground (arith, h)) target-IsTarget (inl refl) volume-IsLoadable volume-ArePaths
      volume-IsFaceted volume-IsRestorable

-- Every lock of a file fails.
abbrev locked_out : System
locked_out = record working { fcntl_fails = λ n. true }

abbrev left : Files
left = (setup_lock (disk_of locked_out) lvm_snapshot setup_start true 0 volume []).1

lock_fails :
    setup_lock (disk_of locked_out) lvm_snapshot setup_start true 0 volume []
    ≡ (some file_lock, left)
unfolding setup_lock session_info setup_session_info create_session_info check_snapshot has_bits
    find set_lock unset_lock lock_body set_timer set_alarm start_timer call_fcntl unset_timer
    clear_alarm
lock_fails = refl

setup_lock-left_empty_example :
    let after = (setup_lock (disk_of locked_out) lvm_snapshot setup_start false 0 volume left).1 in
    (find (codes "/s/s1") left ≡ some [])
    × (find (codes "/s/s1") after ≡ some [])
    × AllThrow lvm_snapshot volume (disk_of working ∷ disk_of locked_out ∷ []) after
setup_lock-left_empty_example =
    setup_lock-left_empty (disk_of locked_out) lvm_snapshot volume [] left 0
      (disk_of working ∷ disk_of locked_out ∷ []) refl (refl, (refl, tt)) lock_fails

abbrev no_variables : Environment
no_variables = record { vars = []; filter = [] }

abbrev with_variables : Environment
with_variables =
    add_variables of_file (variables of_file (codes "/etc/schroot") (codes "/u") false volume)
      no_variables

sets :
    setup_env of_file (codes "/etc/schroot") (codes "/u") false volume no_variables
    ≡ some with_variables
unfolding setup_env add_variables add_userdata chroot_variables class_variables mountable_variables
    session_variables get add find insert erase text_beq text_ltb envname
sets = refl

get-setup_env_example :
    get (codes "CHROOT_NAME") with_variables
    ≡ overlay of_file
        (codes "CHROOT_NAME")
        (last_of
          (codes "CHROOT_NAME")
          (variables of_file (codes "/etc/schroot") (codes "/u") false volume))
        no_variables
get-setup_env_example =
    get-setup_env of_file (codes "/etc/schroot") (codes "/u") false volume no_variables
      with_variables (codes "CHROOT_NAME") sets

split_loop-split_string_example :
    split_loop 9 (codes ",") (position (find_first_not_of (codes ",") (some (codes "a,bc"))))
    ≡ split_string (codes "a,bc") (codes ",")
split_loop-split_string_example = split_loop-split_string 9 (codes "a,bc") (codes ",") (omega arith)

-- The bits of a regular file are among those of a socket.
socket_regular : is_regular (record { uid = 0; mode = 49600 }) ≡ true
unfolding has_bits
socket_regular = refl
