-- ===== src/Definition/Base.antt =====
-- Loading what `chroot` itself saves for a session.
use schroot.Prelude.{
  ◌≡◌, refl, ap, ◌∙◌, Bool, true, false, ◌||◌, none, some, List, [], ◌∷◌, Text, text_beq, text_eq,
  nat_eq, contains, arith, is_empty, All, all,
}
use schroot.Exception.{ok}
use schroot.Util.Split.{split_string}
use schroot.Util.Split.Words.{IsWord, split_string-string_list_to_string}
use schroot.Util.Names.{is_absname, is_valid_sessionname}
use schroot.Keyfile.{Keyfile, Priority, required, disallowed, ok, check_priority}
use schroot.Keyfile.Values.{get_value, parse_bool, separator}
use schroot.Session.Chroot.{Chroot}
use schroot.Definition.{Definition, is_alias}
use schroot.Definition.Save.{print_list, print_bool}
use schroot.Definition.Load.Steps.{Step, Parsed, set_to, first_line}
use schroot.Definition.Load.{run_steps, get_object_value}

abbrev pub is_disallowed : Priority → Bool
is_disallowed disallowed = true
is_disallowed _ = false

abbrev pub is_required : Priority → Bool
is_required required = true
is_required _ = false

-- A step whose value is read and set.
pub run_steps-set :
    (step : Step) (steps : List Step) (kf : Keyfile) (d d' : Definition) (v : Text)
    → get_value d.base.name step.key kf ≡ some v
    → step.apply v d ≡ set_to d'
    → is_disallowed step.priority ≡ false
    → run_steps (step ∷ steps) kf d ≡ run_steps steps kf d'
unfolding run_steps get_object_value check_priority
run_steps-set step steps kf d d' v e a p = ground (arith, e, a, p)

-- A step whose key is not there.
pub run_steps-skip :
    (step : Step) (steps : List Step) (kf : Keyfile) (d : Definition)
    → get_value d.base.name step.key kf ≡ none
    → is_required step.priority ≡ false
    → run_steps (step ∷ steps) kf d ≡ run_steps steps kf d
unfolding run_steps get_object_value check_priority
run_steps-skip step steps kf d e p = ground (arith, e, p)

-- A value that a step reads, with what it sets.
abbrev pub Sets : Step → Text → (Definition → Definition) → Type 0
Sets step v change = (g : Definition) → step.apply v g ≡ set_to (change g)

-- A step that sets its value, and the steps that follow.
pub set_then :
    (step : Step) (steps : List Step) (kf : Keyfile) (d d' : Definition) (v : Text)
    (change : Definition → Definition)
    → get_value d.base.name step.key kf ≡ some v
    → Sets step v change
    → is_disallowed step.priority ≡ false
    → run_steps steps kf (change d) ≡ ok d'
    → run_steps (step ∷ steps) kf d ≡ ok d'
set_then step steps kf d d' v change e a p rest =
    run_steps-set step steps kf d (change d) v e (a d) p ∙ rest

-- A step without its key, and the steps that follow.
pub skip_then :
    (step : Step) (steps : List Step) (kf : Keyfile) (d d' : Definition)
    → get_value d.base.name step.key kf ≡ none
    → is_required step.priority ≡ false
    → run_steps steps kf d ≡ ok d'
    → run_steps (step ∷ steps) kf d ≡ ok d'
skip_then step steps kf d d' e p rest = run_steps-skip step steps kf d e p ∙ rest

-- No step is left.
pub no_steps : (kf : Keyfile) (d : Definition) → run_steps [] kf d ≡ ok d
unfolding run_steps
no_steps kf d = refl

-- Words without the separator of a list.
abbrev pub AreWords : List Text → Type 0
AreWords = All (IsWord b',')

pub split-print_list :
    (list : List Text) → AreWords list → split_string (print_list list) separator ≡ list
split-print_list list w = split_string-string_list_to_string b',' list w

pub parse_bool-print_bool : (b : Bool) → parse_bool (print_bool b) ≡ some b
unfolding parse_bool text_beq
parse_bool-print_bool true = refl
parse_bool-print_bool false = refl

-- A list that is read as it was printed.
pub list_read :
    (list : List Text) (f : List Text → Parsed)
    → AreWords list
    → f (split_string (print_list list) separator) ≡ f list
list_read list f w = ap f (split-print_list list w)

-- What `chroot` saves for a session, if the setters accept it.
pub record IsLoadable (search : Text → Text → Bool) (is_regex : Text → Bool) (c : Chroot)
    : Type 0 where
  pub aliases : AreWords c.aliases
  pub alias_names : all (is_alias search) c.aliases ≡ true
  pub filter_line : first_line c.environment_filter ≡ some c.environment_filter
  pub filter : is_regex c.environment_filter ≡ true
  pub users : AreWords c.users
  pub groups : AreWords c.groups
  pub root_users : AreWords c.root_users
  pub root_groups : AreWords c.root_groups
  pub mount_location : (is_empty c.mount_location || is_absname c.mount_location) ≡ true
  pub no_separator : contains c.name b':' ≡ false
  pub name : is_valid_sessionname search c.name ≡ true
  pub command_prefix : AreWords c.command_prefix

-- The chroot `f` with what `c` saves.
abbrev pub loaded_chroot : Chroot → Chroot → Chroot
loaded_chroot c f = record f {
  name = c.name;
  description = c.description;
  users = c.users;
  groups = c.groups;
  root_users = c.root_users;
  root_groups = c.root_groups;
  aliases = c.aliases;
  preserve_environment = c.preserve_environment;
  default_shell = c.default_shell;
  environment_filter = c.environment_filter;
  mount_location = c.mount_location;
  command_prefix = c.command_prefix;
  message_verbosity = c.message_verbosity;
}
