-- ===== src/Definition/Members.antt =====
-- Loading the members of `chroot` that a session saves.
use schroot.Prelude.{
  ◌≡◌, refl, ap, ◌∙◌, Bool, true, false, ◌||◌, some, List, ◌∷◌, Text, codes, text_beq, text_eq,
  nat_eq, contains, arith, is_empty, All, all,
}
use schroot.Exception.{ok as returns}
use schroot.Util.Names.{is_absname, is_valid_sessionname}
use schroot.Userdata.{Userdata}
use schroot.Keyfile.{Keyfile, ok}
use schroot.Keyfile.Values.{get_value, parse_bool}
use schroot.Session.Chroot.{Chroot, Verbosity, quiet, normal, verbose}
use schroot.Session.Clone.{set_name, set_mount_location, set_verbosity}
use schroot.Definition.{Definition, with_base, set_aliases, is_alias}
use schroot.Definition.Save.{print_list, print_bool, verbosity_string}
use schroot.Definition.Facts.{base_values, script_value}
use schroot.Definition.Load.Steps.{
  Step, set_to, returned, first_line, line_step, bool_parsed, base_list_step, base_steps,
  set_environment_filter,
}
use schroot.Definition.Load.{run_steps}
use schroot.Definition.Base.{
  Sets, set_then, no_steps, list_read, parse_bool-print_bool, AreWords, IsLoadable, loaded_chroot,
}
use schroot.Definition.Profile.{with_profile, IsConfigured, IsFresh, Continues, profile-set}

set_verbosity-verbosity_string :
    (v : Verbosity) (c : Chroot)
    → set_verbosity (verbosity_string v) c ≡ returns (record c { message_verbosity = v })
unfolding set_verbosity text_beq
set_verbosity-verbosity_string quiet c = refl
set_verbosity-verbosity_string normal c = refl
set_verbosity-verbosity_string verbose c = refl

-- The values that are read in a group.
abbrev pub Reads : Text → Keyfile → List (Text × Text) → Type 0
Reads g kf = All (λ (entry : Text × Text). get_value g entry.0 kf ≡ some entry.1)

-- The members of `chroot` after its steps.
abbrev pub with_members : Definition → Definition → Userdata → Definition
with_members d f u = record (with_profile d f u) {
  base = loaded_chroot d.base (record f.base { userdata = some u });
}

abbrev in_base : (Chroot → Chroot) → Definition → Definition
in_base change g = record g { base = change g.base }

-- A list of `chroot`, and the steps that follow.
list_then :
    (key : Text) (set : List Text → Chroot → Chroot) (list : List Text) (steps : List Step)
    (kf : Keyfile) (d d' : Definition)
    → get_value d.base.name key kf ≡ some (print_list list)
    → AreWords list
    → run_steps steps kf (in_base (set list) d) ≡ ok d'
    → run_steps (base_list_step key set ∷ steps) kf d ≡ ok d'
list_then key set list steps kf d d' e w rest =
    set_then (base_list_step key set) steps kf d d' (print_list list) (in_base (set list)) e
      (λ g. list_read list (λ l. set_to (in_base (set l) g)) w) refl rest

module _ (search : Text → Text → Bool) (is_regex : Text → Bool) where
  set_aliases-loadable :
      (list : List Text) (g : Definition)
      → all (is_alias search) list ≡ true
      → set_aliases search list g ≡ some (record g { base = record g.base { aliases = list } })
  unfolding set_aliases
  set_aliases-loadable list g h = ground (arith, h)

  filter_read :
      (v : Text)
      → first_line v ≡ some v
      → is_regex v ≡ true
      → Sets
          (line_step (codes "environment-filter") (set_environment_filter search is_regex))
          v
          (λ g. record g { base = record g.base { environment_filter = v } })
  unfolding set_environment_filter
  filter_read v line h g = ground (arith, line, h)

  mount_read :
      (v : Text) (g : Definition)
      → (is_empty v || is_absname v) ≡ true
      → returned (with_base g (set_mount_location v g.base))
        ≡ set_to (record g { base = record g.base { mount_location = v } })
  unfolding set_mount_location
  mount_read v g h = ground (arith, h)

  name_read :
      (v : Text) (g : Definition)
      → contains v b':' ≡ false
      → is_valid_sessionname search v ≡ true
      → returned (with_base g (set_name search v g.base))
        ≡ set_to (record g { base = record g.base { name = v } })
  unfolding set_name
  name_read v g h valid = ground (arith, h, valid)

  verbosity_read :
      (v : Verbosity) (g : Definition)
      → returned (with_base g (set_verbosity (verbosity_string v) g.base))
        ≡ set_to (record g { base = record g.base { message_verbosity = v } })
  verbosity_read v g = ap (λ r. returned (with_base g r)) (set_verbosity-verbosity_string v g.base)

  environment_read :
      (b : Bool) (g : Definition)
      → bool_parsed
          (λ v d. some (record d { base = record d.base { preserve_environment = v } }))
          (parse_bool (print_bool b))
          g
        ≡ set_to (record g { base = record g.base { preserve_environment = b } })
  environment_read b g =
      ap
        (λ o.
          bool_parsed (λ v d. some (record d { base = record d.base { preserve_environment = v } }))
            o g)
        (parse_bool-print_bool b)

  pub base_steps-set :
      (kf : Keyfile) (d f : Definition)
      → Reads f.base.name kf (base_values d)
      → Reads d.base.name kf (base_values d)
      → get_value f.base.name (codes "script-config") kf ≡ script_value d
      → IsConfigured d
      → (fresh : IsFresh f) → IsLoadable search is_regex d.base
      → (u : Userdata) × (run_steps (base_steps search is_regex true) kf f
          ≡ ok (with_members d f u))
        × Continues d fresh.userdata u
  unfolding base_steps
  base_steps-set kf d f (pr, (al, (ef, (de, (us, (gr, (ru, (rg, (ml, (na, _))))))))))
        (_, (_, (_, (_, (_, (_, (_, (_, (_, (_, (cp, (mv, (pe, (sh, _)))))))))))))) s c fresh l =
      let b = d.base in
      let (u, e, on) = profile-set _ kf d f pr s c fresh in
      (
        u,
        e
            ∙ set_then _ _ kf _ _ _ (in_base (λ c. record c { aliases = b.aliases })) al
                (λ g.
                  list_read b.aliases (λ x. returned (set_aliases search x g)) l.aliases
                  ∙ ap returned (set_aliases-loadable b.aliases g l.alias_names))
                refl
                (set_then _ _ kf _ _ _
                  (in_base (λ c. record c { environment_filter = b.environment_filter })) ef
                  (filter_read b.environment_filter l.filter_line l.filter) refl
                  (set_then _ _ kf _ _ _ (in_base (λ c. record c { description = b.description }))
                    de (λ g. refl) refl
                    (list_then _ (λ v c. record c { users = v }) b.users _ kf _ _ us l.users
                      (list_then _ (λ v c. record c { groups = v }) b.groups _ kf _ _ gr l.groups
                        (list_then _ (λ v c. record c { root_users = v }) b.root_users _ kf _ _ ru
                          l.root_users
                          (list_then _ (λ v c. record c { root_groups = v }) b.root_groups _ kf _ _
                            rg l.root_groups
                            (set_then _ _ kf _ _ _
                              (in_base (λ c. record c { mount_location = b.mount_location })) ml
                              (λ g. mount_read b.mount_location g l.mount_location) refl
                              (set_then _ _ kf _ _ _ (in_base (λ c. record c { name = b.name })) na
                                (λ g. name_read b.name g l.no_separator l.name) refl
                                (list_then _ (λ v c. record c { command_prefix = v })
                                  b.command_prefix _ kf _ _ cp l.command_prefix
                                  (set_then _ _ kf _ _ _
                                    (in_base
                                      (λ c. record c { message_verbosity = b.message_verbosity }))
                                    mv (verbosity_read b.message_verbosity) refl
                                    (set_then _ _ kf _ _ _
                                      (in_base (λ c. record c {
                                        preserve_environment = b.preserve_environment;
                                      }))
                                      pe (environment_read b.preserve_environment) refl
                                      (set_then _ _ kf _ _ _
                                        (in_base
                                          (λ c. record c { default_shell = b.default_shell }))
                                        sh (λ g. refl) refl
                                        (no_steps kf (with_members d f u)))))))))))))),
        on,
      )
