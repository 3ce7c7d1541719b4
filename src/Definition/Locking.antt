-- ===== src/Definition/Locking.antt =====
-- `setup_lock` of the classes (sbuild/sbuild-chroot-*.cc) and `setup_session_info` of
-- sbuild/sbuild-chroot.cc, on Linux and without unions: the files of the sessions, by their paths. A
-- lock of a file is that of Lock, in a process with this handler of SIGALRM and no timer.

pub mod Effects
pub mod Laws
pub mod Left
pub mod Printed
pub mod Stored
use schroot.Prelude.{
  ℕ, zero, suc, ◌/◌, ◌%◌, Bool, true, false, not, ◌&&◌, ◌||◌, Option, none, some, List, [], ◌∷◌,
  ◌++◌, Text, codes, nat_eq, ◌==◌, is_empty, if◌then◌else◌,
}
use schroot.Prelude.Map.{Map, find, insert, erase}
use schroot.Lock.{
  System, Handler, FileLock, new_file_lock, Outcome, LockCode, lock_exclusive, lock_none, set_lock,
  unset_lock,
}
use schroot.Keyfile.Printer.{print}
use schroot.Session.Chroot.{SetupType, setup_start, setup_recover, setup_stop}
use schroot.Definition.{
  Definition, ChrootType, plain, directory, custom, file, block_device, loopback, lvm_snapshot,
  zfs_snapshot, btrfs_snapshot,
}
use schroot.Definition.Save.{get_keyfile}

-- The errors: those of `chroot::error_code`, and `stat::error`.
pub data LockingError : Type 0 where
  session_write file_lock file_unlock session_unlink file_owner file_perms file_notreg
        device_notblock chroot_device :
      LockingError
  stat_error : LockingError

-- What stat(2) says of a file.
pub record FileStatus : Type 0 where
  pub uid : ℕ
  pub mode : ℕ

-- `(mode & mask) == mask`, for the bits of numbers of `n` bits
unfoldable pub has_bits : ℕ → ℕ → ℕ → Bool
has_bits zero mask mode = true
has_bits (suc n) mask mode =
    let rest = has_bits n (mask / 2) (mode / 2) in (mask % 2 == 0 || mode % 2 == 1) && rest

-- `stat::check_mode`, of the 16 bits of a mode
abbrev pub check_mode : ℕ → FileStatus → Bool
check_mode mask s = has_bits 16 mask s.mode

-- PERM_OTHER_WRITE, FILE_TYPE_REGULAR and FILE_TYPE_BLOCK
abbrev pub other_write : FileStatus → Bool
other_write s = check_mode 2 s

abbrev pub is_regular : FileStatus → Bool
is_regular s = check_mode 32768 s

abbrev pub is_block : FileStatus → Bool
is_block s = check_mode 24576 s

-- What the system answers. `open_fails` and `unlink_fails` are about errors other than a file that is
-- there, or not; `stat` is `none` where stat(2) fails.
pub record Disk : Type 0 where
  pub session_dir : Text
  pub open_fails : Text → Bool
  pub unlink_fails : Text → Bool
  pub stat : Text → Option FileStatus
  pub sys : System
  pub handler : Handler

abbrev pub Files : Type 0
Files = Map Text

-- What was thrown, and the files.
abbrev pub Locked : Type 0
Locked = Option LockingError × Files

abbrev pub exists_file : Text → Files → Bool
exists_file path files = elim (find path files) [ none ↦ false | some text ↦ true ]

-- The text of a file that is there or not.
abbrev pub put_file : Text → Text → Files → Files
put_file path text files = insert path text (erase path files)

module _ (disk : Disk) where
  abbrev pub session_file : Definition → Text
  session_file d = disk.session_dir ++ (codes "/" ++ d.base.name)

  -- The text reaches the file although the lock may not be released.
  abbrev pub after_unlock : Outcome → Files → Locked
  after_unlock (none, l) files = (none, files)
  after_unlock (some e, l) files = (some file_unlock, files)

  abbrev pub after_lock : Definition → Files → Outcome → Locked
  after_lock d files (none, l) =
      after_unlock (unset_lock disk.sys l)
        (put_file (session_file d) (print (get_keyfile d [])) files)
  after_lock d files (some e, l) = (some file_lock, files)

  -- open(2) with O_CREAT and O_EXCL, the lock, the text and the unlock
  unfoldable pub create_session_info : Definition → Files → Locked
  create_session_info d files =
      if exists_file (session_file d) files || disk.open_fails (session_file d)
      then (some session_write, files)
      else after_lock d (insert (session_file d) [] files)
          (set_lock disk.sys lock_exclusive 2 (new_file_lock disk.handler false lock_none 0))

  -- unlink(2)
  unfoldable pub remove_session_info : Definition → Files → Locked
  remove_session_info d files =
      if not (exists_file (session_file d) files) || disk.unlink_fails (session_file d)
      then (some session_unlink, files)
      else (none, erase (session_file d) files)

  unfoldable pub setup_session_info : Bool → Definition → Files → Locked
  setup_session_info start d files =
      if start then create_session_info d files else remove_session_info d files

  -- The condition that the classes share.
  unfoldable pub session_info : SetupType → Bool → ℕ → Definition → Files → Locked
  session_info setup_start true status d files = setup_session_info true d files
  session_info setup_start false status d files = (none, files)
  session_info setup_recover lock status d files = (none, files)
  session_info setup_stop true status d files = (none, files)
  session_info setup_stop false status d files =
      if status == 0 then setup_session_info false d files else (none, files)

  -- The checks of a file before a start.
  abbrev pub file_error : Option FileStatus → Option LockingError
  file_error none = some stat_error
  file_error (some s) =
      if not (s.uid == 0)
      then some file_owner
      else if other_write s
      then some file_perms
      else if not (is_regular s)
      then some file_notreg
      else none

  -- The check of a device; where a session stops, a device that is not there is accepted.
  abbrev pub device_error : SetupType → Option FileStatus → Option LockingError
  device_error setup_stop none = none
  device_error setup_start none = some stat_error
  device_error setup_recover none = some stat_error
  device_error stage (some s) = if is_block s then none else some device_notblock

  unfoldable pub check_file : SetupType → Bool → Definition → Option LockingError
  check_file setup_start true d = file_error (disk.stat d.file_name)
  check_file stage lock d = none

  -- chroot_lvm_snapshot
  abbrev pub snapshot_error : SetupType → Text → Option LockingError
  snapshot_error stage device =
      if is_empty device then some chroot_device else device_error stage (disk.stat device)

  unfoldable pub check_snapshot : SetupType → Bool → Definition → Option LockingError
  check_snapshot setup_start lock d = snapshot_error setup_start d.device
  check_snapshot setup_recover lock d = snapshot_error setup_recover d.snapshot_device
  check_snapshot setup_stop true d = snapshot_error setup_stop d.snapshot_device
  check_snapshot setup_stop false d = none

  -- chroot_block_device, where the lock is kept through the session
  unfoldable pub check_device : SetupType → Bool → Definition → Option LockingError
  check_device setup_start false d = none
  check_device setup_stop true d = none
  check_device stage lock d = device_error stage (disk.stat d.device)

  abbrev pub checked : Option LockingError → Files → Locked → Locked
  checked none files next = next
  checked (some e) files next = (some e, files)

  unfoldable pub setup_lock : ChrootType → SetupType → Bool → ℕ → Definition → Files → Locked
  setup_lock plain stage lock status d files = (none, files)
  setup_lock directory stage lock status d files = session_info stage lock status d files
  setup_lock custom stage lock status d files = session_info stage lock status d files
  setup_lock zfs_snapshot stage lock status d files = session_info stage lock status d files
  setup_lock btrfs_snapshot stage lock status d files = session_info stage lock status d files
  setup_lock file stage lock status d files =
      checked (check_file stage lock d) files (session_info stage lock status d files)
  setup_lock loopback stage lock status d files =
      checked (check_file stage lock d) files (session_info stage lock status d files)
  setup_lock block_device stage lock status d files =
      checked (check_device stage lock d) files (session_info stage lock status d files)
  setup_lock lvm_snapshot stage lock status d files =
      checked (check_snapshot stage lock d) files (session_info stage lock status d files)
