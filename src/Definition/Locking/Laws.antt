-- ===== src/Definition/Locking/Laws.antt =====
-- What `setup_lock` does to the files of the sessions.
use schroot.Prelude.{
  ℕ, ◌≡◌, refl, sym, subst, ◌∙◌, Bool, true, false, not, ◌||◌, Option, none, some, [], Text,
  text_beq, text_beq_iff, nat_eq, ◌==◌, arith, Bool-cases, inl, inr, if◌then◌else◌,
}
use schroot.Prelude.Map.{find, insert, erase, find-insert, find-erase, find-erase_self}
use schroot.Lock.{Outcome, set_lock, unset_lock, lock_exclusive, lock_none, new_file_lock}
use schroot.Keyfile.Printer.{print}
use schroot.Session.Chroot.{SetupType, setup_start, setup_recover, setup_stop}
use schroot.Definition.{
  Definition, ChrootType, plain, directory, custom, file, block_device, loopback, lvm_snapshot,
  zfs_snapshot, btrfs_snapshot,
}
use schroot.Definition.Save.{get_keyfile}
use schroot.Definition.Locking.{
  LockingError, session_write, file_lock, file_unlock, session_unlink, Disk, Files, Locked,
  exists_file, session_file, after_unlock, after_lock, create_session_info, remove_session_info,
  setup_session_info, session_info, checked, check_file, check_device, check_snapshot, setup_lock,
}
use schroot.Definition.Locking.Effects.{
  creates, removes, is_lock_error, Effect, kept, created, removed, refused, left_empty, left_whole,
  is_plain, or_left, exists_file-false, find-put_file, IsCheck, file_error-IsCheck,
  device_error-IsCheck, snapshot_error-IsCheck,
}

module _ (disk : Disk) (d : Definition) where
  -- The file of the session, and the others.
  abbrev pub Touches : Bool → Bool → Files → Locked → Type 0
  Touches c r files l =
      Effect c r (print (get_keyfile d [])) l.0 (find (session_file disk d) files)
        (find (session_file disk d) l.1)
      × ((p : Text) → text_beq (session_file disk d) p ≡ false → find p l.1 ≡ find p files)

  untouched : (files : Files) → Touches false false files (none, files)
  untouched files = (kept _ refl refl, λ p h. refl)

  refused-Touches :
      (c r : Bool) (e : LockingError) (files : Files)
      → is_lock_error e ≡ false
      → Touches c r files (some e, files)
  refused-Touches c r e files h = (refused e _ h, λ p other. refl)

  -- A call that ends with these contents of the file, where it was not there before.
  made :
      (e : Option LockingError) (text : Text) (files files' : Files)
      → find (session_file disk d) files ≡ none
      → ((p : Text)
          → find p files' ≡ (if text_beq (session_file disk d) p then some text else find p files))
      → Effect true false (print (get_keyfile d [])) e none (some text)
      → Touches true false files (e, files')
  made e text files files' absent f h = (
    subst
        (λ before.
          Effect true false (print (get_keyfile d [])) e before (find (session_file disk d) files'))
        (sym absent)
        (subst (λ after. Effect true false (print (get_keyfile d [])) e none after)
          (sym (
            f (session_file disk d)
            ∙ ground (arith, text_beq_iff (session_file disk d) (session_file disk d))))
          h),
    λ p other. f p ∙ ground (arith, other),
  )

  after_unlock-Touches :
      (o : Outcome) (files files' : Files)
      → find (session_file disk d) files ≡ none
      → ((p : Text)
          → find p files' ≡ (
              if text_beq (session_file disk d) p
              then some (print (get_keyfile d []))
              else find p files))
      → Touches true false files (after_unlock disk o files')
  after_unlock-Touches (none, l) files files' absent f =
      made none _ files files' absent f (created refl)
  after_unlock-Touches (some e, l) files files' absent f =
      made (some file_unlock) _ files files' absent f (left_whole refl)

  after_lock-Touches :
      (o : Outcome) (files : Files)
      → find (session_file disk d) files ≡ none
      → Touches true false files (after_lock disk d (insert (session_file disk d) [] files) o)
  after_lock-Touches (none, l) files absent =
      after_unlock-Touches (unset_lock disk.sys l) files _ absent (λ p.
        find-put_file (session_file disk d) p _ _
        ∙ ground (arith, find-insert (session_file disk d) p [] files absent))
  after_lock-Touches (some e, l) files absent =
      made (some file_lock) [] files _ absent
        (λ p. find-insert (session_file disk d) p [] files absent) (left_empty refl)

  create_session_info-Touches :
      (files : Files) → Touches true false files (create_session_info disk d files)
  unfolding create_session_info
  create_session_info-Touches files =
      elim (Bool-cases
        (exists_file (session_file disk d) files || disk.open_fails (session_file disk d))) [
          | inl fails ↦
              subst (Touches true false files) (sym (create_session_info-fails fails))
                (refused-Touches true false session_write files refl)
          | inr opens ↦ subst (Touches true false files) (sym (create_session_info-opens opens)) (
              after_lock-Touches _ files
                (exists_file-false _ (find (session_file disk d) files) opens))
        ]
    where
      create_session_info-fails :
          (exists_file (session_file disk d) files || disk.open_fails (session_file disk d)) ≡ true
          → create_session_info disk d files ≡ (some session_write, files)
      create_session_info-fails h = rw h refl

      create_session_info-opens :
          (exists_file (session_file disk d) files || disk.open_fails (session_file disk d)) ≡ false
          → create_session_info disk d files
            ≡ after_lock disk d
                (insert (session_file disk d) [] files)
                (set_lock disk.sys lock_exclusive 2 (new_file_lock disk.handler false lock_none 0))
      create_session_info-opens h = rw h refl

  erased :
      (o : Option Text) (files : Files)
      → find (session_file disk d) files ≡ o
      → not (elim o [ none ↦ false | some text ↦ true ]) ≡ false
      → Touches false true files (none, erase (session_file disk d) files)
  erased none files h there = cc
  erased (some text) files h there = (
    subst
        (λ before.
          Effect false true (print (get_keyfile d [])) none before
            (find (session_file disk d) (erase (session_file disk d) files)))
        (sym h)
        (subst (λ after. Effect false true (print (get_keyfile d [])) none (some text) after)
          (sym (find-erase_self (session_file disk d) files)) (removed text refl)),
    λ p other. find-erase (session_file disk d) p files ∙ ground (arith, other),
  )

  remove_session_info-Touches :
      (files : Files) → Touches false true files (remove_session_info disk d files)
  unfolding remove_session_info
  remove_session_info-Touches files =
      elim (Bool-cases (
        not (exists_file (session_file disk d) files) || disk.unlink_fails (session_file disk d))) [
          | inl fails ↦
              subst (Touches false true files) (sym (remove_session_info-fails fails))
                (refused-Touches false true session_unlink files refl)
          | inr unlinks ↦
              subst (Touches false true files) (sym (remove_session_info-unlinks unlinks))
                (erased (find (session_file disk d) files) files refl (or_left _ _ unlinks))
        ]
    where
      remove_session_info-fails :
          (not (exists_file (session_file disk d) files) || disk.unlink_fails (session_file disk d))
            ≡ true
          → remove_session_info disk d files ≡ (some session_unlink, files)
      remove_session_info-fails h = rw h refl

      remove_session_info-unlinks :
          (not (exists_file (session_file disk d) files) || disk.unlink_fails (session_file disk d))
            ≡ false
          → remove_session_info disk d files ≡ (none, erase (session_file disk d) files)
      remove_session_info-unlinks h = rw h refl

  stop_info-Touches :
      (b : Bool) (files : Files)
      → Touches false b files (if b then setup_session_info disk false d files else (none, files))
  unfolding setup_session_info
  stop_info-Touches true files = remove_session_info-Touches files
  stop_info-Touches false files = untouched files

  session_info-Touches :
      (stage : SetupType) (lock : Bool) (status : ℕ) (files : Files)
      → Touches
          (creates stage lock)
          (removes stage lock status)
          files
          (session_info disk stage lock status d files)
  unfolding session_info setup_session_info
  session_info-Touches setup_start true status files = create_session_info-Touches files
  session_info-Touches setup_start false status files = untouched files
  session_info-Touches setup_recover lock status files = untouched files
  session_info-Touches setup_stop true status files = untouched files
  session_info-Touches setup_stop false status files = stop_info-Touches (status == 0) files

  checked-Touches :
      (c r : Bool) (o : Option LockingError) (files : Files) (next : Locked)
      → IsCheck o
      → Touches c r files next
      → Touches c r files (checked disk o files next)
  checked-Touches c r none files next ok h = h
  checked-Touches c r (some e) files next ok h = refused-Touches c r e files ok

  check_file-IsCheck : (stage : SetupType) (lock : Bool) → IsCheck (check_file disk stage lock d)
  unfolding check_file
  check_file-IsCheck setup_start true = file_error-IsCheck disk (disk.stat d.file_name)
  check_file-IsCheck setup_start false = tt
  check_file-IsCheck setup_recover lock = tt
  check_file-IsCheck setup_stop lock = tt

  check_device-IsCheck :
      (stage : SetupType) (lock : Bool) → IsCheck (check_device disk stage lock d)
  unfolding check_device
  check_device-IsCheck setup_start true = device_error-IsCheck disk setup_start (disk.stat d.device)
  check_device-IsCheck setup_start false = tt
  check_device-IsCheck setup_recover lock =
      device_error-IsCheck disk setup_recover (disk.stat d.device)
  check_device-IsCheck setup_stop true = tt
  check_device-IsCheck setup_stop false = device_error-IsCheck disk setup_stop (disk.stat d.device)

  check_snapshot-IsCheck :
      (stage : SetupType) (lock : Bool) → IsCheck (check_snapshot disk stage lock d)
  unfolding check_snapshot
  check_snapshot-IsCheck setup_start lock = snapshot_error-IsCheck disk setup_start d.device
  check_snapshot-IsCheck setup_recover lock =
      snapshot_error-IsCheck disk setup_recover d.snapshot_device
  check_snapshot-IsCheck setup_stop true = snapshot_error-IsCheck disk setup_stop d.snapshot_device
  check_snapshot-IsCheck setup_stop false = tt

  -- Whatever fails, a call of setup_lock of a class that is not plain does to the file of its
  -- session what the relation Effect allows, and leaves every other file as it was: a start that
  -- returns has made the file, which was not there, with what get_keyfile saves; an unlock of a
  -- stop with the status 0 that returns has removed it; another call that returns leaves it; and a
  -- call that throws leaves it, unless the lock of the new file failed, which leaves it empty, or
  -- its unlock, which leaves it whole.
  pub setup_lock-Effect :
      (t : ChrootType) (stage : SetupType) (lock : Bool) (status : ℕ) (files : Files)
      → is_plain t ≡ false
      → Touches
          (creates stage lock)
          (removes stage lock status)
          files
          (setup_lock disk t stage lock status d files)
  unfolding setup_lock
  setup_lock-Effect plain stage lock status files h = cc
  setup_lock-Effect directory stage lock status files h =
      session_info-Touches stage lock status files
  setup_lock-Effect custom stage lock status files h = session_info-Touches stage lock status files
  setup_lock-Effect zfs_snapshot stage lock status files h =
      session_info-Touches stage lock status files
  setup_lock-Effect btrfs_snapshot stage lock status files h =
      session_info-Touches stage lock status files
  setup_lock-Effect file stage lock status files h =
      checked-Touches _ _ (check_file disk stage lock d) files _ (check_file-IsCheck stage lock)
        (session_info-Touches stage lock status files)
  setup_lock-Effect loopback stage lock status files h =
      checked-Touches _ _ (check_file disk stage lock d) files _ (check_file-IsCheck stage lock)
        (session_info-Touches stage lock status files)
  setup_lock-Effect block_device stage lock status files h =
      checked-Touches _ _ (check_device disk stage lock d) files _ (check_device-IsCheck stage lock)
        (session_info-Touches stage lock status files)
  setup_lock-Effect lvm_snapshot stage lock status files h =
      checked-Touches _ _ (check_snapshot disk stage lock d) files _
        (check_snapshot-IsCheck stage lock) (session_info-Touches stage lock status files)
