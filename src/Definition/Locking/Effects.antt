-- ===== src/Definition/Locking/Effects.antt =====
-- What a call of `setup_lock` may do to the file of its session, and what its checks throw.
use schroot.Prelude.{
  ℕ, ◌≡◌, refl, Bool, true, false, not, ◌&&◌, ◌||◌, Option, none, some, [], ◌∷◌, Text, text_beq,
  nat_eq, ◌==◌, arith, if◌then◌else◌,
}
use schroot.Prelude.Map.{find, erase, find-insert, find-erase, find-erase_self}
use schroot.Session.Chroot.{SetupType, setup_start, setup_recover, setup_stop}
use schroot.Definition.{ChrootType, plain}
use schroot.Definition.Locking.{
  FileStatus, file_error, device_error, snapshot_error, LockingError, file_lock, file_unlock, Disk,
  Files, put_file,
}

-- Which calls create and which remove the file of a session.
abbrev pub creates : SetupType → Bool → Bool
creates setup_start lock = lock
creates setup_recover lock = false
creates setup_stop lock = false

abbrev pub removes : SetupType → Bool → ℕ → Bool
removes setup_start lock status = false
removes setup_recover lock status = false
removes setup_stop lock status = not lock && status == 0

-- The errors of the lock of a new file.
abbrev pub is_lock_error : LockingError → Bool
is_lock_error file_lock = true
is_lock_error file_unlock = true
is_lock_error e = false

-- What a call may do to the file of its session, from what it throws, and from the text of the file
-- before and after. The last two are the errors of the lock of a new file.
pub data Effect (c r : Bool) (text : Text)
    : Option LockingError → Option Text → Option Text → Type 0 where
  kept : (before : Option Text) → c ≡ false → r ≡ false → Effect c r text none before before
  created : c ≡ true → Effect c r text none none (some text)
  removed : (before : Text) → r ≡ true → Effect c r text none (some before) none
  refused :
      (e : LockingError) (before : Option Text)
      → is_lock_error e ≡ false
      → Effect c r text (some e) before before
  left_empty : c ≡ true → Effect c r text (some file_lock) none (some [])
  left_whole : c ≡ true → Effect c r text (some file_unlock) none (some text)

abbrev pub is_plain : ChrootType → Bool
is_plain plain = true
is_plain type = false

pub or_left : (a b : Bool) → (a || b) ≡ false → a ≡ false
or_left a b h = ground (arith, h)

pub exists_file-false :
    (b : Bool) (o : Option Text)
    → (elim o [ none ↦ false | some text ↦ true ] || b) ≡ false
    → o ≡ none
exists_file-false b none h = refl
exists_file-false b (some text) h = cc

pub find-put_file :
    (path p text : Text) (files : Files)
    → find p (put_file path text files) ≡ (if text_beq path p then some text else find p files)
find-put_file path p text files = ground (
  arith,
  find-insert path p text (erase path files) (find-erase_self path files),
  find-erase path p files,
)

-- A check that failed has touched no lock.
abbrev pub IsCheck : Option LockingError → Type 0
IsCheck none = Unit
IsCheck (some e) = is_lock_error e ≡ false

pub file_error-IsCheck : (disk : Disk) (o : Option FileStatus) → IsCheck (file_error disk o)
file_error-IsCheck disk none = refl
file_error-IsCheck disk (some s) = ground arith

pub device_error-IsCheck :
    (disk : Disk) (stage : SetupType) (o : Option FileStatus) → IsCheck (device_error disk stage o)
device_error-IsCheck disk setup_start none = refl
device_error-IsCheck disk setup_recover none = refl
device_error-IsCheck disk setup_stop none = tt
device_error-IsCheck disk setup_start (some s) = ground arith
device_error-IsCheck disk setup_recover (some s) = ground arith
device_error-IsCheck disk setup_stop (some s) = ground arith

pub snapshot_error-IsCheck :
    (disk : Disk) (stage : SetupType) (device : Text) → IsCheck (snapshot_error disk stage device)
snapshot_error-IsCheck disk stage [] = refl
snapshot_error-IsCheck disk stage (c ∷ device) =
    device_error-IsCheck disk stage (disk.stat (c ∷ device))
