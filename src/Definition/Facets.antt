-- ===== src/Definition/Facets.antt =====
-- Loading what a session saves of its facets.
use schroot.Prelude.{
  ◌≡◌, refl, ap, sym, ◌∙◌, true, false, not, ◌&&◌, Option, none, some, [], ◌∷◌, ◌++◌, Text, codes,
  text_eq, nat_eq, ◌==◌, contains, arith, is_empty, if◌then◌else◌, subst,
}
use schroot.Util.Names.{is_absname}
use schroot.Userdata.{Userdata}
use schroot.Config.{get_namespace}
use schroot.Keyfile.{Keyfile, ok, names}
use schroot.Keyfile.Values.{get_value}
use schroot.Session.Chroot.{SessionFacet}
use schroot.Definition.{Definition, Mountable}
use schroot.Definition.Save.{Entries}
use schroot.Definition.Load.Steps.{
  first_line, personalities, set_persona, userdata_steps, mountable_steps, session_steps,
  facet_steps, line_step, only_with,
}
use schroot.Definition.Load.{run_steps}
use schroot.Definition.Base.{no_steps, AreWords}
use schroot.Definition.Members.{Reads}
use schroot.Definition.FacetSteps.{
  append_then, userdata_values, mountable_values, session_values, with_keys, with_session,
  userdata_steps-set, session_steps-set, persona_step-set, mounted, mountable_steps-set,
}

-- The facet of a chroot that has it.
abbrev pub with_mountable : Option Mountable → Definition → Definition
with_mountable none g = g
with_mountable (some m) g = mounted m g

abbrev pub all_mountable_values : Option Mountable → Entries
all_mountable_values none = []
all_mountable_values (some m) = mountable_values m

-- Both chroots have the facet, or none.
abbrev pub AreAlike : Option Mountable → Option Mountable → Type 0
AreAlike none none = Unit
AreAlike (some m) (some n) = Unit
AreAlike _ _ = ⊥

abbrev pub IsMountPath : Option Mountable → Type 0
IsMountPath none = Unit
IsMountPath (some m) = (not (is_empty m.mount_path) && not (is_absname m.mount_path)) ≡ false

all_mountable_steps-set :
    (o p : Option Mountable) (kf : Keyfile) (g : Definition)
    → AreAlike o p
    → Reads g.base.name kf (all_mountable_values o)
    → IsMountPath o
    → run_steps (only_with p (mountable_steps true)) kf g ≡ ok (with_mountable o g)
all_mountable_steps-set none none kf g a e h = no_steps kf g
all_mountable_steps-set (some m) (some n) kf g a e h = mountable_steps-set kf m g e h
all_mountable_steps-set none (some n) kf g a e h = absurd a
all_mountable_steps-set (some m) none kf g a e h = absurd a

with_mountable-name :
    (o : Option Mountable) (g : Definition) → (with_mountable o g).base.name ≡ g.base.name
with_mountable-name none g = refl
with_mountable-name (some m) g = ground arith

with_keys-name : (u : Userdata) (g : Definition) → (with_keys u g).base.name ≡ g.base.name
with_keys-name u g = ground arith

-- What a session saves of its facets, in the chroot `g`.
abbrev pub with_facets : Definition → Userdata → SessionFacet → Definition → Definition
with_facets d u s g =
    with_session s (with_mountable d.mountable (with_keys u (record g { persona = d.persona })))

-- What the facets save, if the setters accept it.
pub record IsFaceted (d : Definition) (u : Userdata) (s : SessionFacet) : Type 0 where
  pub persona_line : first_line d.persona ≡ some d.persona
  pub persona : contains personalities d.persona ≡ true
  pub user_keys : AreWords (names u.user_modifiable_keys)
  pub root_keys : AreWords (names u.root_modifiable_keys)
  pub mount : IsMountPath d.mountable
  pub selected : (get_namespace s.selected_name).1 ≡ s.selected_name

-- The facets of a session that is no source.
facet_steps-session :
    (g : Definition) (ug : Userdata) (sg : SessionFacet)
    → g.base.userdata ≡ some ug
    → g.base.session ≡ some sg
    → g.source_clonable ≡ none
    → facet_steps g
      ≡ line_step (codes "personality") set_persona
        ∷ (userdata_steps ++ (only_with g.mountable (mountable_steps true) ++ session_steps))
unfolding facet_steps
facet_steps-session g ug sg e1 e2 e3 = ground (arith, e1, e2, e3)

pub in_group : (n m : Text) (kf : Keyfile) (es : Entries) → m ≡ n → Reads n kf es → Reads m kf es
in_group n m kf es same r = subst (λ g. Reads g kf es) (sym same) r

pub facet_steps-set :
    (kf : Keyfile) (d g : Definition) (u ug : Userdata) (s sg : SessionFacet)
    → g.base.userdata ≡ some ug
    → g.base.session ≡ some sg
    → g.source_clonable ≡ none
    → g.persona ≡ codes "undefined"
    → AreAlike d.mountable g.mountable
    → get_value g.base.name (codes "personality") kf
      ≡ (if not (d.persona == codes "undefined") then some d.persona else none)
    → Reads g.base.name kf (userdata_values u)
    → Reads g.base.name kf (all_mountable_values d.mountable)
    → Reads g.base.name kf (session_values s)
    → IsFaceted d u s
    → run_steps (facet_steps g) kf g ≡ ok (with_facets d u s g)
facet_steps-set kf d g u ug s sg e1 e2 e3 fresh alike p ru rm rs h =
    let g1 = record g { persona = d.persona } in
    let g2 = with_keys u g1 in
    let n2 = with_keys-name u g1 in
    let g3 = with_mountable d.mountable g2 in
    let n3 = with_mountable-name d.mountable g2 ∙ n2 in
    let mount = only_with g.mountable (mountable_steps true) in
    ap (λ steps. run_steps steps kf g) (facet_steps-session g ug sg e1 e2 e3)
    ∙ persona_step-set (userdata_steps ++ (mount ++ session_steps)) kf d.persona g _ p
        h.persona_line h.persona fresh
        (append_then userdata_steps (mount ++ session_steps) kf g1 g2 _
          (userdata_steps-set kf u g1 ru h.user_keys h.root_keys)
          (append_then mount session_steps kf g2 g3 _
            (all_mountable_steps-set d.mountable g.mountable kf g2 alike
              (in_group g.base.name g2.base.name kf (all_mountable_values d.mountable) n2 rm)
              h.mount)
            (session_steps-set kf s g3
              (in_group g.base.name g3.base.name kf (session_values s) n3 rs) h.selected)))
