-- ===== src/RunParts/Programs.antt =====
-- The programs that the constructor of sbuild/sbuild-run-parts.cc takes from the directory.
use schroot.Prelude.{
  ℕ, ◌≡◌, refl, Bool, true, not, ◌&&◌, none, some, List, [], ◌∷◌, Text, text_eq, text_beq,
  text_beq_iff, codes, contains, arith, if◌then◌else◌,
}
use schroot.Prelude.Map.{find, insert}
use schroot.Prelude.Map.Order.{IsSorted, insert-IsSorted}
use schroot.Util.Names.{is_valid_filename}
use schroot.RunParts.{ProgramSet, add_programs, new_run_parts}

module _ (search : Text → Text → Bool) where
  -- Whether an entry of the directory is a program.
  abbrev pub is_program : Text → Bool
  is_program name =
      is_valid_filename search name true
      && not (text_beq name (codes "."))
      && not (text_beq name (codes ".."))

  add_programs-IsSorted :
      (names : List Text) (programs : ProgramSet)
      → IsSorted programs
      → IsSorted (add_programs search true names programs)
  unfolding add_programs
  add_programs-IsSorted [] programs s = s
  add_programs-IsSorted (name ∷ names) programs s = ground (
    arith,
    add_programs-IsSorted names programs,
    add_programs-IsSorted names (insert name tt programs),
    insert-IsSorted name tt programs,
  )

  find-insert_tt :
      (k j : Text) (programs : ProgramSet)
      → find j (insert k tt programs) ≡ (if text_beq k j then some tt else find j programs)
  unfolding find insert
  find-insert_tt k j [] = refl
  find-insert_tt k j ((i, tt) ∷ programs) =
      ground
        (arith, find-insert_tt k j programs, text_beq_iff k j, text_beq_iff i k, text_beq_iff i j)

  find-add_programs :
      (j : Text) (names : List Text) (programs : ProgramSet)
      → find j (add_programs search true names programs)
        ≡ (if contains names j && is_program j then some tt else find j programs)
  unfolding add_programs
  find-add_programs j [] programs = refl
  find-add_programs j (name ∷ names) programs = ground (
    arith,
    find-add_programs j names programs,
    find-add_programs j names (insert name tt programs),
    find-insert_tt name j programs,
    text_beq_iff name j,
  )

  -- The programs of a directory are in strict byte order, and a name is among them exactly where
  -- it is an entry of the directory other than `.` and `..` and a valid name of LSB mode, whatever
  -- the constructor's argument `lsb_mode`.
  pub new_run_parts-programs :
      (directory : Text) (names : List Text) (lsb_mode abort_on_error : Bool) (umask : ℕ) (j : Text)
      → IsSorted (new_run_parts search directory names lsb_mode abort_on_error umask).programs
        × (find j (new_run_parts search directory names lsb_mode abort_on_error umask).programs
            ≡ (if contains names j && is_program j then some tt else none))
  unfolding new_run_parts find
  new_run_parts-programs directory names lsb_mode abort_on_error umask j =
      (add_programs-IsSorted names [] tt, find-add_programs j names [])
