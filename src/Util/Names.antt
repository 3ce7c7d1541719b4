-- ===== src/Util/Names.antt =====
-- sbuild/sbuild-util.cc: which names of files and sessions are valid.
-- `search name pattern` stands for `regex_search (name, regex (pattern))`, of the C++ library.
use schroot.Prelude.{
  Bool, true, false, not, ◌&&◌, ◌||◌, [], ◌∷◌, Text, codes, nat_eq, ◌==◌, if◌then◌else◌,
}

abbrev pub conffile_cruft : Text
conffile_cruft = codes "dpkg-(old|dist|new|tmp)$"

abbrev pub file_namespace : Text
file_namespace = codes "^[a-zA-Z0-9][a-zA-Z0-9_.-]*$"

abbrev pub lanana_namespace : Text
lanana_namespace = codes "^[a-z0-9]+$"

abbrev pub lsb_namespace : Text
lsb_namespace = codes "^_?([a-z0-9_.]+-)+[a-z0-9]+$"

abbrev pub debian_cron_namespace : Text
debian_cron_namespace = codes "^[a-z0-9][a-z0-9-]*$"

abbrev pub traditional_namespace : Text
traditional_namespace = codes "^[a-zA-Z0-9_-]$"

unfoldable pub is_absname : Text → Bool
is_absname [] = false
is_absname (c ∷ s) = c == b'/'

module _ (search : Text → Text → Bool) where
  unfoldable pub is_valid_sessionname : Text → Bool
  is_valid_sessionname name =
      if search name file_namespace && not (search name conffile_cruft) then true else false

  unfoldable pub is_valid_filename : Text → Bool → Bool
  is_valid_filename name lsb_mode =
      if lsb_mode
      then (if (search name lanana_namespace
              || search name lsb_namespace
              || search name debian_cron_namespace)
            && not (search name conffile_cruft)
          then true
          else false)
      else (if search name traditional_namespace then true else false)
