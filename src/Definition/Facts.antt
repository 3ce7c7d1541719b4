-- ===== src/Definition/Facts.antt =====
-- What a session saves under each key.
use schroot.Prelude.{
  ◌≡◌, Bool, Option, none, some, [], ◌∷◌, ◌++◌, Text, codes, text_beq, text_eq, nat_eq, arith,
  is_empty, if◌then◌else◌, All, Bool-cases, inl, inr,
}
use schroot.Userdata.{Userdata}
use schroot.Session.Chroot.{SessionFacet}
use schroot.Definition.{ChrootType, Definition, is_session}
use schroot.Definition.Save.{
  Entries, print_bool, print_list, verbosity_string, base_entries, type_entries, persona_entries,
  source_entries, mountable_entries, session_entries,
}
use schroot.Definition.Saved.{last_of, saved}

-- The values that `chroot` itself saves for a session.
abbrev pub base_values : Definition → Entries
base_values d =
    let c = d.base in
    (codes "profile", d.profile)
    ∷ (codes "aliases", print_list c.aliases)
    ∷ (codes "environment-filter", c.environment_filter)
    ∷ (codes "description", c.description)
    ∷ (codes "users", print_list c.users)
    ∷ (codes "groups", print_list c.groups)
    ∷ (codes "root-users", print_list c.root_users)
    ∷ (codes "root-groups", print_list c.root_groups)
    ∷ (codes "mount-location", c.mount_location)
    ∷ (codes "name", c.name)
    ∷ (codes "command-prefix", print_list c.command_prefix)
    ∷ (codes "message-verbosity", verbosity_string c.message_verbosity)
    ∷ (codes "preserve-environment", print_bool c.preserve_environment)
    ∷ (codes "shell", c.default_shell)
    ∷ []

abbrev pub script_value : Definition → Option Text
script_value d = if is_empty d.script_config then none else some d.script_config

abbrev pub Absent : Entries → Entries → Type 0
Absent es = All (λ (entry : Text × Text). last_of entry.0 es ≡ none)

abbrev pub script_entry : Definition → Entries
script_entry d = (codes "script-config", d.script_config) ∷ []

type_entries-Absent :
    (t : ChrootType) (b : Bool) (d : Definition)
    → Absent (type_entries t b d) (base_values d ++ script_entry d)
unfolding last_of type_entries text_beq
type_entries-Absent t b d = ground arith

pub base_saved :
    (d : Definition) (u : Userdata) (s : SessionFacet)
    → d.base.session ≡ some s
    → d.source_clonable ≡ none
    → All (λ (entry : Text × Text). saved d u entry.0 ≡ some entry.1) (base_values d)
unfolding saved last_of base_entries type_entries persona_entries source_entries mountable_entries
    session_entries text_beq
base_saved d u s e n = ground (arith, e, n, type_entries-Absent d.type (is_session d) d)

pub script_saved :
    (d : Definition) (u : Userdata)
    → d.source_clonable ≡ none
    → saved d u (codes "script-config") ≡ script_value d
unfolding saved last_of base_entries type_entries persona_entries source_entries mountable_entries
    session_entries text_beq
script_saved d u n = elim (Bool-cases (is_empty d.script_config)) [
  | inl h ↦ ground (arith, h, n, type_entries-Absent d.type (is_session d) d)
  | inr h ↦ ground (arith, h, n, type_entries-Absent d.type (is_session d) d)
]
