-- ===== src/Tests/Data.antt =====
-- The theorems of the environments, the user data, the strings and run-parts at concrete inputs.
use schroot.Prelude.{
  ◌≡◌, refl, Bool, true, false, none, some, [], ◌∷◌, ◌&&◌, Text, codes, text_beq, text_ltb, text_eq,
  contains, if◌then◌else◌,
}
use schroot.Prelude.Map.{Map, find, insert}
use schroot.Prelude.Map.Order.{IsSorted}
use schroot.Environment.{
  Environment, no_environment, get, add_environment, add_strv, remove, from_strv, get_strv,
}
use schroot.Environment.Invariant.{IsValid, IsValid-empty, environment-IsValid}
use schroot.Environment.Strv.{NamedBy, from_strv-get_strv}
use schroot.Auth.{get_complete_environment}
use schroot.Auth.Variables.{get-get_complete_environment}
use schroot.Userdata.{
  Userdata, permitted, set_user_data, set_root_data, set_all_system_data, set_system_data,
  remove_data, set_allowed_data, set_data, set_all_data, validate_keyname, envname, key_ambiguous,
}
use schroot.Userdata.Laws.{IsApplied, set_user_data_lem}
use schroot.Userdata.Unique.{
  IsUnambiguous, userdata-IsUnambiguous, set_system_data-IsUnambiguous, set_system_data-remove_data,
}
use schroot.Util.Split.{split_string, split_string_strict, string_list_to_string}
use schroot.Util.Split.Words.{split_string-string_list_to_string}
use schroot.Util.Split.Lines.{IsSplit, split_string_strict_lem}
use schroot.RunParts.{new_run_parts}
use schroot.RunParts.Programs.{is_program, new_run_parts-programs}
use schroot.Tests.Fixture.{whole, home_term, alice_to_root, debug_data}

abbrev home : Text
home = codes "HOME"

abbrev root_home : Environment
root_home = record { vars = (home, codes "/root") ∷ []; filter = [] }

home_term-IsSorted : IsSorted home_term.vars
unfolding text_ltb
home_term-IsSorted = ((refl, tt), (tt, tt))

home_term-NamedBy : NamedBy home_term.vars
home_term-NamedBy = (
  (
    (refl, (refl, (refl, (refl, (refl, tt)))), (refl, (refl, (refl, (refl, tt))))),
    (refl, (refl, (refl, (refl, (refl, (refl, (refl, (refl, (refl, (refl, (refl, tt))))))))))),
  ),
  (
    (
      (refl, (refl, (refl, (refl, (refl, tt)))), (refl, (refl, (refl, (refl, tt))))),
      (refl, (refl, (refl, (refl, (refl, tt))))),
    ),
    tt,
  ),
)

environment-IsValid_example :
    IsValid whole (add_strv whole (codes "A=b" ∷ []) no_environment)
    × IsValid whole (add_environment whole no_environment home_term)
    × IsValid whole (remove home no_environment)
environment-IsValid_example =
    environment-IsValid whole (codes "A=b" ∷ []) home_term no_environment home (IsValid-empty whole)

from_strv-get_strv_example : (from_strv whole (get_strv home_term)).vars ≡ home_term.vars
unfolding text_ltb
from_strv-get_strv_example = from_strv-get_strv whole home_term home_term-IsSorted home_term-NamedBy

get-get_complete_environment_example :
    get home (get_complete_environment whole none root_home alice_to_root)
    ≡ some (codes "/home/alice")
unfolding text_beq get find
get-get_complete_environment_example =
    get-get_complete_environment whole none root_home alice_to_root home refl (tt, tt)
      home_term-IsSorted

empty-IsUnambiguous : IsUnambiguous debug_data
unfolding find
empty-IsUnambiguous = record { registered = λ k p. cc p; distinct = λ j k p q e. cc p }

userdata-IsUnambiguous_example :
    IsUnambiguous (set_data whole (codes "setup.debug") (codes "2") debug_data).1
    × IsUnambiguous (set_system_data (codes "setup.debug") (codes "2") debug_data).1
    × IsUnambiguous (set_all_data whole ((codes "setup.debug", codes "1") ∷ []) debug_data).1
    × IsUnambiguous (set_user_data whole ((codes "setup.debug", codes "1") ∷ []) debug_data).1
    × IsUnambiguous (set_root_data whole ((codes "setup.debug", codes "1") ∷ []) debug_data).1
    × IsUnambiguous (set_all_system_data ((codes "setup.debug", codes "1") ∷ []) debug_data).1
    × IsUnambiguous (remove_data (codes "setup.debug") debug_data)
userdata-IsUnambiguous_example =
    userdata-IsUnambiguous whole debug_data ((codes "setup.debug", codes "1") ∷ [])
      (codes "setup.debug") (codes "2") empty-IsUnambiguous

abbrev debug_options : Map Text
debug_options = (codes "setup.debug", codes "1") ∷ []

abbrev debug_set : Userdata
debug_set = record {
  userdata = debug_options;
  env = (codes "SETUP_DEBUG", tt) ∷ [];
  user_modifiable_keys = (codes "setup.debug", tt) ∷ [];
  root_modifiable_keys = [];
}

-- A search that finds only the pattern of the valid names of keys.
abbrev names_only : Text → Text → Bool
names_only name pattern = text_beq pattern permitted

set_user_data_lem_example :
    IsApplied names_only debug_data.user_modifiable_keys debug_options debug_data debug_set
unfolding set_user_data set_allowed_data set_data validate_keyname set_system_data text_beq text_ltb
    find insert envname
set_user_data_lem_example =
    set_user_data_lem names_only debug_options debug_data debug_set (tt, tt) refl

abbrev debug_key : Text
debug_key = codes "setup.debug"

debug_set-IsUnambiguous : IsUnambiguous (set_system_data debug_key (codes "1") debug_data).1
debug_set-IsUnambiguous =
    set_system_data-IsUnambiguous debug_key (codes "1") debug_data empty-IsUnambiguous

set_system_data-remove_data_example :
    set_system_data debug_key
      (codes "0")
      (remove_data debug_key (set_system_data debug_key (codes "1") debug_data).1)
    ≡ (
      some key_ambiguous,
      remove_data debug_key (set_system_data debug_key (codes "1") debug_data).1,
    )
unfolding set_system_data text_beq find insert envname
set_system_data-remove_data_example =
    set_system_data-remove_data (set_system_data debug_key (codes "1") debug_data).1 debug_key
      (codes "0") debug_set-IsUnambiguous refl

new_run_parts-programs_example :
    IsSorted
      (new_run_parts whole
        (codes "/etc")
        (codes "b" ∷ codes "." ∷ codes "a" ∷ [])
        false
        true
        18).programs
    × (find
          (codes "a")
          (new_run_parts whole
            (codes "/etc")
            (codes "b" ∷ codes "." ∷ codes "a" ∷ [])
            false
            true
            18).programs
        ≡ (if contains (codes "b" ∷ codes "." ∷ codes "a" ∷ []) (codes "a")
              && is_program whole (codes "a")
            then some tt
            else none))
new_run_parts-programs_example =
    new_run_parts-programs whole (codes "/etc") (codes "b" ∷ codes "." ∷ codes "a" ∷ []) false true
      18 (codes "a")

split_string-string_list_to_string_example :
    split_string (string_list_to_string (codes "ls" ∷ codes "-l" ∷ []) (b' ' ∷ [])) (b' ' ∷ [])
    ≡ (codes "ls" ∷ codes "-l" ∷ [])
split_string-string_list_to_string_example =
    split_string-string_list_to_string b' ' (codes "ls" ∷ codes "-l" ∷ [])
      ((refl, (refl, tt)), ((refl, (refl, tt)), tt))

split_string_strict_lem_example :
    IsSplit b'\n' (codes "one\ntwo") (split_string_strict (codes "one\ntwo") (b'\n' ∷ []))
split_string_strict_lem_example = split_string_strict_lem (codes "one\ntwo") b'\n'
