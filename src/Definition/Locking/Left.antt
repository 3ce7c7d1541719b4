-- ===== src/Definition/Locking/Left.antt =====
-- The file of a session that a failed lock leaves.
use schroot.Prelude.{
  ℕ, ◌≡◌, refl, ap, sym, ◌∙◌, Bool, true, false, Option, some, List, [], ◌∷◌, ◌++◌, Text, codes,
  All, arith,
}
use schroot.Prelude.Map.{find}
use schroot.Session.Chroot.{setup_start}
use schroot.Definition.{Definition, ChrootType}
use schroot.Definition.Locking.{
  LockingError, file_lock, Disk, Files, Locked, session_file, setup_lock,
}
use schroot.Definition.Locking.Effects.{
  Effect, kept, created, removed, refused, left_empty, left_whole, is_plain,
}
use schroot.Definition.Locking.Laws.{setup_lock-Effect}

Effect-left :
    (c r : Bool) (text : Text) (e : Option LockingError) (before after : Option Text)
    → Effect c r text e before after
    → e ≡ some file_lock
    → after ≡ some []
Effect-left c r text e before after (kept b nc nr) h = cc
Effect-left c r text e before after (created ch) h = cc
Effect-left c r text e before after (removed b rh) h = cc
Effect-left c r text e before after (refused x b not_lock) h = ground (arith, h, not_lock)
Effect-left c r text e before after (left_empty ch) h = refl
Effect-left c r text e before after (left_whole ch) h = cc

Effect-idle :
    (text : Text) (e : Option LockingError) (before after : Option Text)
    → Effect false false text e before after
    → after ≡ before
Effect-idle text e before after (kept b nc nr) = refl
Effect-idle text e before after (created ch) = cc
Effect-idle text e before after (removed b rh) = cc
Effect-idle text e before after (refused x b not_lock) = refl
Effect-idle text e before after (left_empty ch) = cc
Effect-idle text e before after (left_whole ch) = cc

-- A file that is there cannot be made: the start throws, and the file stays.
Effect-again :
    (text old : Text) (e : Option LockingError) (before after : Option Text)
    → Effect true false text e before after
    → before ≡ some old
    → ((x : LockingError) × (e ≡ some x)) × (after ≡ before)
Effect-again text old e before after (kept b nc nr) h = cc
Effect-again text old e before after (created ch) h = cc
Effect-again text old e before after (removed b rh) h = cc
Effect-again text old e before after (refused x b not_lock) h = ((x, refl), refl)
Effect-again text old e before after (left_empty ch) h = cc
Effect-again text old e before after (left_whole ch) h = cc

-- Starts of the session one after another, each on a system that answers as it likes: all throw.
unfoldable pub AllThrow : ChrootType → Definition → List Disk → Files → Type 0
AllThrow t d [] files = Unit
AllThrow t d (disk ∷ later) files =
    ((e : LockingError) × ((setup_lock disk t setup_start true 0 d files).0 ≡ some e))
    × AllThrow t d later (setup_lock disk t setup_start true 0 d files).1

-- The directory of the sessions is the same.
abbrev pub SameDirectory : Disk → Disk → Type 0
SameDirectory disk other = other.session_dir ≡ disk.session_dir

blocked :
    (t : ChrootType) (d : Definition) (disk : Disk) (later : List Disk) (files : Files)
    → is_plain t ≡ false
    → All (SameDirectory disk) later
    → find (session_file disk d) files ≡ some []
    → AllThrow t d later files
unfolding AllThrow
blocked t d disk [] files h same there = tt
blocked t d disk (next ∷ later) files h same there =
    let path : session_file next d ≡ session_file disk d =
      ap (λ dir. dir ++ (codes "/" ++ d.base.name)) same.0 in
    let there' : find (session_file next d) files ≡ some [] = ap (λ p. find p files) path ∙ there in
    let files' = (setup_lock next t setup_start true 0 d files).1 in
    let (throws, stays) =
      Effect-again _ [] _ _ _ (setup_lock-Effect next d t setup_start true 0 files h).0 there' in
    (
      throws,
      blocked t d disk later files' h same.1 (ap (λ p. find p files') (sym path) ∙ stays ∙ there'),
    )

-- Where the lock of the new file of a session, of a class that is not plain, fails, the file
-- stays, empty, also after the unlock of the start with the status 0; and each of any number of
-- later starts of the session throws, whatever the system then answers, also where every lock
-- succeeds.
pub setup_lock-left_empty :
    (disk : Disk) (t : ChrootType) (d : Definition) (files files' : Files) (status : ℕ)
    (later : List Disk)
    → is_plain t ≡ false
    → All (SameDirectory disk) later
    → setup_lock disk t setup_start true status d files ≡ (some file_lock, files')
    → let after = (setup_lock disk t setup_start false 0 d files').1 in
      (find (session_file disk d) files' ≡ some [])
      × (find (session_file disk d) after ≡ some [])
      × AllThrow t d later after
setup_lock-left_empty disk t d files files' status later h same fails =
    let after = (setup_lock disk t setup_start false 0 d files').1 in
    let there : find (session_file disk d) files' ≡ some [] =
      ap (λ (l : Locked). find (session_file disk d) l.1) (sym fails)
      ∙ Effect-left _ _ _ _ _ _ (setup_lock-Effect disk d t setup_start true status files h).0
          (ap (λ (l : Locked). l.0) fails) in
    let stays =
      Effect-idle _ _ _ _ (setup_lock-Effect disk d t setup_start false 0 files' h).0 ∙ there in
    (there, stays, blocked t d disk later after h same stays)
