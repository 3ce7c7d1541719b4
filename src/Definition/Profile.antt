-- ===== src/Definition/Profile.antt =====
-- Loading the profile and the script configuration of a session.
use schroot.Prelude.{
  ◌≡◌, ◌⊎◌, refl, ap, sym, ◌∙◌, true, none, some, List, [], ◌∷◌, Text, codes, text_eq, nat_eq,
  arith, is_empty, All, Bool-cases, inl, inr,
}
use schroot.Prelude.Map.{Map, insert, erase, find-insert, find-erase, find-erase_self}
use schroot.Userdata.{Userdata, set_system_data, set_all_system_data, remove_data}
use schroot.Userdata.Unique.{is_set}
use schroot.Keyfile.{Keyfile, optional}
use schroot.Keyfile.Values.{get_value}
use schroot.Definition.{
  Definition, with_userdata, profile_data, set_profile, set_script_config, remove_profile_data,
}
use schroot.Definition.Load.Steps.{Step, text_step, returned}
use schroot.Definition.Load.{run_steps}
use schroot.Definition.Facts.{script_value}
use schroot.Definition.Base.{run_steps-set, run_steps-skip}

-- The user data `u'` of a chroot that had `u`: the same variables are taken, and no key is lost,
-- unless a script configuration has removed those of the profile.
abbrev pub Continues : Definition → Userdata → Userdata → Type 0
Continues d u u' =
    (u'.env ≡ u.env)
    × (is_empty d.script_config ≡ true → (k : Text) → is_set k u ≡ true → is_set k u' ≡ true)

-- A key that is set can be set again, and no key is lost.
set_system_data-known :
    (key v : Text) (u : Userdata)
    → is_set key u ≡ true
    → (u' : Userdata) × (set_system_data key v u ≡ (none, u'))
      × ((k : Text) → is_set k u ≡ true → is_set k u' ≡ true)
      × (u'.env ≡ u.env)
unfolding set_system_data
set_system_data-known key v u h = (
  record u { userdata = insert key v (erase key u.userdata) },
  ground (arith, h),
  λ k p. ground (
    arith,
    p,
    find-insert key k v (erase key u.userdata) (find-erase_self key u.userdata),
    find-erase key k u.userdata,
  ),
  refl,
)

-- The keys of the data are set.
abbrev pub AreSet : Map Text → Userdata → Type 0
AreSet m u = All (λ (entry : Text × Text). is_set entry.0 u ≡ true) m

AreSet-kept :
    (m : Map Text) (u u' : Userdata)
    → ((k : Text) → is_set k u ≡ true → is_set k u' ≡ true)
    → AreSet m u
    → AreSet m u'
AreSet-kept [] u u' f a = tt
AreSet-kept ((k, v) ∷ m) u u' f a = (f k a.0, AreSet-kept m u u' f a.1)

set_all_system_data-known :
    (m : Map Text) (u : Userdata)
    → AreSet m u
    → (u' : Userdata) × (set_all_system_data m u ≡ (none, u'))
      × ((k : Text) → is_set k u ≡ true → is_set k u' ≡ true)
      × (u'.env ≡ u.env)
unfolding set_all_system_data
set_all_system_data-known [] u a = (u, refl, (λ k p. p), refl)
set_all_system_data-known ((k, v) ∷ m) u a =
    let (u1, e1, kept, env) = set_system_data-known k v u a.0 in
    let (u2, e2, kept', env') = set_all_system_data-known m u1 (AreSet-kept m u u1 kept a.1) in
    (u2, ground (arith, e1, e2), (λ j p. kept' j (kept j p)), env' ∙ env)

set_profile-known :
    (profile : Text) (f : Definition) (u : Userdata)
    → f.base.userdata ≡ some u
    → AreSet (profile_data profile) u
    → (u' : Userdata) × (set_profile profile f
        ≡ some (with_userdata (record f { profile = profile }) u'))
      × ((k : Text) → is_set k u ≡ true → is_set k u' ≡ true)
      × (u'.env ≡ u.env)
unfolding set_profile
set_profile-known profile f u e a =
    let (u', e', kept, env) = set_all_system_data-known (profile_data profile) u a in
    (u', ground (arith, e, e'), kept, env)

-- The members that the two steps set.
abbrev pub with_profile : Definition → Definition → Userdata → Definition
with_profile d f u =
    with_userdata (record f { profile = d.profile; script_config = d.script_config }) u

-- A chroot has a profile or a script configuration, not both.
abbrev pub IsConfigured : Definition → Type 0
IsConfigured d = (is_empty d.script_config ≡ true) ⊎ (d.profile ≡ [])

abbrev script_step : Step
script_step = text_step (codes "script-config") optional set_script_config

script-set :
    (steps : List Step) (kf : Keyfile) (d f : Definition) (u : Userdata)
    → get_value f.base.name (codes "script-config") kf ≡ script_value d
    → IsConfigured d
    → f.script_config ≡ []
    → (u' : Userdata) × (run_steps
          (script_step ∷ steps)
          kf
          (with_userdata (record f { profile = d.profile }) u)
        ≡ run_steps steps kf (with_profile d f u'))
      × Continues d u u'
unfolding set_script_config remove_profile_data remove_data
script-set steps kf d f u e c none' =
    let begun = with_userdata (record f { profile = d.profile }) u in
    elim (Bool-cases (is_empty d.script_config)) [
      | inl empty ↦
          let same : f.script_config ≡ d.script_config = none' ∙ sym (ground (arith, empty)) in
          (
            u,
            run_steps-skip script_step steps kf begun (e ∙ ground (arith, empty)) refl
                ∙ ap
                    (λ x.
                      run_steps steps kf
                        (with_userdata (record f { profile = d.profile; script_config = x }) u))
                    same,
            (refl, (λ e' k p. p)),
          )
      | inr full ↦
          let bare : d.profile ≡ [] = ground (arith, c, full) in
          let u' = remove_profile_data u in
          (
            u',
            run_steps-set script_step steps kf begun _ d.script_config (e ∙ ground (arith, full))
                  refl refl
                ∙ ap
                    (λ x. run_steps steps kf (
                      with_userdata (record f { profile = x; script_config = d.script_config }) u'))
                    (sym bare),
            (refl, (λ e' k p. cc (e', full))),
          )
    ]

abbrev profile_step : Step
profile_step = text_step (codes "profile") optional set_profile

-- A fresh chroot, whose profile has set its data.
pub record IsFresh (f : Definition) : Type 0 where
  pub userdata : Userdata
  pub has : f.base.userdata ≡ some userdata
  pub known : AreSet (profile_data []) userdata
  pub bare : f.script_config ≡ []

pub profile-set :
    (steps : List Step) (kf : Keyfile) (d f : Definition)
    → get_value f.base.name (codes "profile") kf ≡ some d.profile
    → get_value f.base.name (codes "script-config") kf ≡ script_value d
    → IsConfigured d
    → (fresh : IsFresh f)
    → (u : Userdata) × (run_steps (profile_step ∷ script_step ∷ steps) kf f
        ≡ run_steps steps kf (with_profile d f u))
      × Continues d fresh.userdata u
profile-set steps kf d f p s c fresh =
    let (u1, e1, kept, env) = set_profile-known d.profile f fresh.userdata fresh.has fresh.known in
    let (u2, e2, on) = script-set steps kf d f u1 s c fresh.bare in
    (
      u2,
      run_steps-set profile_step (script_step ∷ steps) kf f _ d.profile p (ap returned e1) refl
          ∙ e2,
      (on.0 ∙ env, (λ e' k p. on.1 e' k (kept k p))),
    )
