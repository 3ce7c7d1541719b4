-- ===== src/Util/Program.antt =====
-- sbuild/sbuild-util.cc: `find_program_in_path`. Whether stat(2) and access(2) find a regular file
-- that can be executed is the parameter `is_program`.
use schroot.Prelude.{
  Bool, false, not, List, [], ◌∷◌, ◌++◌, Text, nat_eq, ◌==◌, any, is_empty, if◌then◌else◌,
}
use schroot.Util.Split.{split_string}

abbrev is_relative : Text → Bool
is_relative [] = false
is_relative (c ∷ dir) = not (c == b'/')

unfoldable pub absolute : Text → Text → Text → Text
absolute program prefix dir =
    (if is_empty prefix then [] else prefix ++ (if is_relative dir then b'/' ∷ [] else []))
    ++ (dir ++ b'/' ∷ program)

module _ (is_program : Text → Bool) where
  -- The loop over the directories.
  unfoldable pub find_in_dirs : Text → Text → List Text → Text
  find_in_dirs program prefix [] = []
  find_in_dirs program prefix (dir ∷ dirs) =
      if is_program (absolute program prefix dir)
      then dir ++ b'/' ∷ program
      else find_in_dirs program prefix dirs

  unfoldable pub find_program_in_path : Text → Text → Text → Text
  find_program_in_path program path prefix =
      if any (λ c. c == b'/') program
      then program
      else find_in_dirs program prefix (split_string path (b':' ∷ []))
