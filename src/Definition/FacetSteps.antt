-- ===== src/Definition/FacetSteps.antt =====
-- Loading one facet of a session, and lists of steps one after the other.
use schroot.Prelude.{
  ◌≡◌, refl, ap, ◌∙◌, true, false, not, ◌&&◌, Option, none, some, List, [], ◌∷◌, ◌++◌, Text, codes,
  text_beq, text_beq_iff, text_eq, nat_eq, ◌==◌, contains, arith, is_empty, if◌then◌else◌, subst,
  Bool-cases, inl, inr,
}
use schroot.Util.Names.{is_absname}
use schroot.Userdata.{Userdata}
use schroot.Config.{get_namespace}
use schroot.Keyfile.{Keyfile, Result, ok, error, names}
use schroot.Keyfile.Values.{get_value}
use schroot.Session.Chroot.{SessionFacet}
use schroot.Definition.{Definition, Mountable, with_userdata, set_mount_path}
use schroot.Definition.Save.{Entries, print_list}
use schroot.Definition.Load.Steps.{
  Step, set_to, returned, first_line, personalities, set_persona, set_of, userdata_steps,
  mountable_steps, session_steps, line_step, on_userdata, on_mountable, on_session,
}
use schroot.Definition.Load.{run_steps, and_then, get_object_value}
use schroot.Definition.Base.{set_then, skip_then, no_steps, AreWords, list_read}
use schroot.Definition.Members.{Reads}

pub after_step :
    (r : Result Definition) (rest all : Definition → Result Definition)
    (next : Definition → Result Definition)
    → ((d : Definition) → all d ≡ and_then (rest d) next)
    → and_then r all ≡ and_then (and_then r rest) next
after_step (error line code) rest all next h = refl
after_step (ok d) rest all next h = h d

pub run_steps-append :
    (a b : List Step) (kf : Keyfile) (d : Definition)
    → run_steps (a ++ b) kf d ≡ and_then (run_steps a kf d) (run_steps b kf)
unfolding run_steps
run_steps-append [] b kf d = refl
run_steps-append (step ∷ a) b kf d =
    after_step (get_object_value step kf d) (run_steps a kf) (run_steps (a ++ b) kf)
      (run_steps b kf) (run_steps-append a b kf)

-- Two lists of steps that succeed.
pub append_then :
    (a b : List Step) (kf : Keyfile) (d e f : Definition)
    → run_steps a kf d ≡ ok e
    → run_steps b kf e ≡ ok f
    → run_steps (a ++ b) kf d ≡ ok f
append_then a b kf d e f p q =
    run_steps-append a b kf d ∙ ap (λ r. and_then r (run_steps b kf)) p ∙ q

-- The values of the facets in a session.
abbrev pub userdata_values : Userdata → Entries
userdata_values u =
    (codes "user-modifiable-keys", print_list (names u.user_modifiable_keys))
    ∷ (codes "root-modifiable-keys", print_list (names u.root_modifiable_keys))
    ∷ []

abbrev pub mountable_values : Mountable → Entries
mountable_values m =
    (codes "mount-device", m.mount_device)
    ∷ (codes "mount-options", m.mount_options)
    ∷ (codes "location", m.mount_path)
    ∷ []

abbrev pub session_values : SessionFacet → Entries
session_values s =
    (codes "original-name", s.original_name) ∷ (codes "selected-name", s.selected_name) ∷ []

-- What they set.
abbrev pub in_userdata : (Userdata → Userdata) → Definition → Definition
in_userdata change g = elim g.base.userdata [ none ↦ g | some u ↦ with_userdata g (change u) ]

abbrev pub in_mountable : (Mountable → Mountable) → Definition → Definition
in_mountable change g = elim g.mountable [
  | none ↦ g
  | some m ↦ record g { mountable = some (change m) }
]

abbrev pub in_session : (SessionFacet → SessionFacet) → Definition → Definition
in_session change g = elim g.base.session [
  | none ↦ g
  | some s ↦ record g { base = record g.base { session = some (change s) } }
]

pub in_userdata-name :
    (change : Userdata → Userdata) (g : Definition) → (in_userdata change g).base.name ≡ g.base.name
in_userdata-name change g = ground arith

pub in_mountable-name :
    (change : Mountable → Mountable) (g : Definition)
    → (in_mountable change g).base.name ≡ g.base.name
in_mountable-name change g = ground arith

pub in_session-name :
    (change : SessionFacet → SessionFacet) (g : Definition)
    → (in_session change g).base.name ≡ g.base.name
in_session-name change g = ground arith

-- A key that is read in a group of the same name.
pub read_in :
    (n m key : Text) (kf : Keyfile) (v : Option Text)
    → m ≡ n
    → get_value n key kf ≡ v
    → get_value m key kf ≡ v
read_in n m key kf v same e = ap (λ g. get_value g key kf) same ∙ e

-- The keys that the user and root may set.
abbrev pub with_keys : Userdata → Definition → Definition
with_keys u g =
    in_userdata (λ w. record w { root_modifiable_keys = set_of (names u.root_modifiable_keys) })
      (in_userdata (λ w. record w { user_modifiable_keys = set_of (names u.user_modifiable_keys) })
        g)

abbrev pub with_session : SessionFacet → Definition → Definition
with_session s g =
    in_session (λ t. record t { selected_name = s.selected_name })
      (in_session (λ t. record { original_name = s.original_name; selected_name = s.original_name })
        g)

pub userdata_steps-set :
    (kf : Keyfile) (u : Userdata) (g : Definition)
    → Reads g.base.name kf (userdata_values u)
    → AreWords (names u.user_modifiable_keys)
    → AreWords (names u.root_modifiable_keys)
    → run_steps userdata_steps kf g ≡ ok (with_keys u g)
unfolding userdata_steps
userdata_steps-set kf u g (e1, (e2, _)) w1 w2 =
    set_then _ _ kf g _ _
      (in_userdata (λ w. record w { user_modifiable_keys = set_of (names u.user_modifiable_keys) }))
      e1
      (λ g.
        list_read (names u.user_modifiable_keys)
          (λ l. returned (on_userdata (λ w. record w { user_modifiable_keys = set_of l }) g)) w1
        ∙ ground arith)
      refl
      (set_then _ _ kf _ _ _
        (in_userdata
          (λ w. record w { root_modifiable_keys = set_of (names u.root_modifiable_keys) }))
        (read_in _ _ _ kf _
          (in_userdata-name
            (λ w. record w { user_modifiable_keys = set_of (names u.user_modifiable_keys) }) g)
          e2)
        (λ g.
          list_read (names u.root_modifiable_keys)
            (λ l. returned (on_userdata (λ w. record w { root_modifiable_keys = set_of l }) g)) w2
          ∙ ground arith)
        refl (no_steps kf _))

pub session_steps-set :
    (kf : Keyfile) (s : SessionFacet) (g : Definition)
    → Reads g.base.name kf (session_values s)
    → (get_namespace s.selected_name).1 ≡ s.selected_name
    → run_steps session_steps kf g ≡ ok (with_session s g)
unfolding session_steps
session_steps-set kf s g (e1, (e2, _)) same =
    set_then _ _ kf g _ _
      (in_session
        (λ t. record { original_name = s.original_name; selected_name = s.original_name }))
      e1 (λ g. ground arith) refl
      (set_then _ _ kf _ _ _ (in_session (λ t. record t { selected_name = s.selected_name }))
        (read_in _ _ _ kf _
          (in_session-name
            (λ t. record { original_name = s.original_name; selected_name = s.original_name }) g)
          e2)
        (λ g.
          ap (λ x. returned (on_session (λ t. record t { selected_name = x }) g)) same
          ∙ ground arith)
        refl (no_steps kf _))

pub persona_step-set :
    (steps : List Step) (kf : Keyfile) (persona : Text) (g h : Definition)
    → get_value g.base.name (codes "personality") kf
      ≡ (if not (persona == codes "undefined") then some persona else none)
    → first_line persona ≡ some persona
    → contains personalities persona ≡ true
    → g.persona ≡ codes "undefined"
    → run_steps steps kf (record g { persona = persona }) ≡ ok h
    → run_steps (line_step (codes "personality") set_persona ∷ steps) kf g ≡ ok h
unfolding set_persona
persona_step-set steps kf persona g h e line known fresh rest =
    elim (Bool-cases (text_beq persona (codes "undefined"))) [
      | inl undef ↦ skip_then _ steps kf g h (e ∙ ground (arith, undef)) refl (
          subst (λ p. run_steps steps kf (record g { persona = p }) ≡ ok h)
            (ground (arith, undef, text_beq_iff persona (codes "undefined"), fresh)) rest)
      | inr named ↦
          set_then _ steps kf g h persona (λ g. record g { persona = persona })
            (e ∙ ground (arith, named)) (λ g. ground (arith, line, known)) refl rest
    ]

pub mount_path_read :
    (v : Text) (g : Definition)
    → (not (is_empty v) && not (is_absname v)) ≡ false
    → returned (on_mountable (set_mount_path v) g)
      ≡ set_to (in_mountable (λ m. record m { mount_path = v }) g)
unfolding set_mount_path
mount_path_read v g h = ground (arith, h)

-- The facet of `m` in a chroot.
abbrev pub mounted : Mountable → Definition → Definition
mounted m g =
    in_mountable (λ n. record n { mount_path = m.mount_path })
      (in_mountable (λ n. record n { mount_options = m.mount_options })
        (in_mountable (λ n. record n { mount_device = m.mount_device }) g))

pub mountable_steps-set :
    (kf : Keyfile) (m : Mountable) (g : Definition)
    → Reads g.base.name kf (mountable_values m)
    → (not (is_empty m.mount_path) && not (is_absname m.mount_path)) ≡ false
    → run_steps (mountable_steps true) kf g ≡ ok (mounted m g)
unfolding mountable_steps
mountable_steps-set kf m g (e1, (e2, (e3, _))) h =
    let device = in_mountable (λ n. record n { mount_device = m.mount_device }) in
    let options = in_mountable (λ n. record n { mount_options = m.mount_options }) in
    let device_name = in_mountable-name (λ n. record n { mount_device = m.mount_device }) g in
    let options_name =
      in_mountable-name (λ n. record n { mount_options = m.mount_options }) (device g) in
    set_then _ _ kf g _ _ device e1 (λ g. ground arith) refl
      (set_then _ _ kf _ _ _ options (read_in _ _ _ kf _ device_name e2) (λ g. ground arith) refl
        (set_then _ _ kf _ _ _ (in_mountable (λ n. record n { mount_path = m.mount_path }))
          (read_in _ _ _ kf _ (options_name ∙ device_name) e3)
          (λ g. mount_path_read m.mount_path g h) refl (no_steps kf _)))
