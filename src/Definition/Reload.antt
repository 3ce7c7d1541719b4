-- ===== src/Definition/Reload.antt =====
-- A session that is saved and loaded again.
use schroot.Prelude.{
  ◌≡◌, refl, ap, sym, ◌∙◌, Bool, true, false, none, some, [], ◌∷◌, Text, codes, contains, All,
  nat_eq, subst,
}
use schroot.Userdata.{Userdata}
use schroot.Keyfile.{Keyfile, ok}
use schroot.Keyfile.Values.{get_value}
use schroot.Session.Chroot.{SessionFacet}
use schroot.Definition.{Definition}
use schroot.Definition.Save.{Entries, get_keyfile}
use schroot.Definition.Saved.{saved, AreDotted, get_value-get_keyfile}
use schroot.Definition.Facts.{base_values, base_saved, script_saved}
use schroot.Definition.Base.{IsLoadable}
use schroot.Definition.Profile.{IsConfigured, IsFresh, Continues}
use schroot.Definition.Members.{Reads, with_members, base_steps-set}
use schroot.Definition.Load.Steps.{base_steps}
use schroot.Definition.Load.{run_steps}

-- A chroot that is a session and is no source.
pub record IsSession (d : Definition) (u : Userdata) (s : SessionFacet) : Type 0 where
  pub userdata : d.base.userdata ≡ some u
  pub dotted : AreDotted u.userdata
  pub session : d.base.session ≡ some s
  pub no_source : d.source_clonable ≡ none

-- Keys that are not of the user data.
abbrev pub AreDotless : Entries → Type 0
AreDotless = All (λ (entry : Text × Text). contains entry.0 b'.' ≡ false)

-- The file `out` says what `d` saves.
abbrev pub IsSavedIn : Definition → Userdata → Keyfile → Type 0
IsSavedIn d u out = (k : Text) → contains k b'.' ≡ false → get_value d.base.name k out ≡ saved d u k

pub get_keyfile-IsSavedIn :
    (d : Definition) (u : Userdata) (s : SessionFacet) (kf : Keyfile)
    → IsSession d u s
    → IsSavedIn d u (get_keyfile d kf)
get_keyfile-IsSavedIn d u s kf i k dotless =
    get_value-get_keyfile d u k kf i.userdata i.dotted dotless

-- What a session saves is read.
pub saved-Reads :
    (es : Entries) (d : Definition) (u : Userdata) (out : Keyfile)
    → IsSavedIn d u out
    → AreDotless es
    → All (λ (entry : Text × Text). saved d u entry.0 ≡ some entry.1) es
    → Reads d.base.name out es
saved-Reads [] d u out i dotless e = tt
saved-Reads ((k, v) ∷ es) d u out i dotless e =
    (i k dotless.0 ∙ e.0, saved-Reads es d u out i dotless.1 e.1)

base_values-AreDotless : (d : Definition) → AreDotless (base_values d)
base_values-AreDotless d = (
  refl,
  (
    refl,
    (
      refl,
      (refl, (refl, (refl, (refl, (refl, (refl, (refl, (refl, (refl, (refl, (refl, tt))))))))))),
    ),
  ),
)

module _ (search : Text → Text → Bool) (is_regex : Text → Bool) where
  -- A saved session is loaded into a chroot `f` of its name whose user data has the keys of the empty
  -- profile and that has no script configuration. Where the setters accept what the session `d` has
  -- and a part of it is empty, the steps of `chroot` succeed and set every member that is saved; the
  -- members that are not saved stay.
  pub base_steps-saved :
      (d f : Definition) (u : Userdata) (s : SessionFacet) (out : Keyfile)
      → f.base.name ≡ d.base.name
      → IsSession d u s
      → IsSavedIn d u out
      → IsConfigured d
      → (fresh : IsFresh f) → IsLoadable search is_regex d.base
      → (u' : Userdata) × (run_steps (base_steps search is_regex true) out f
          ≡ ok (with_members d f u'))
        × Continues d fresh.userdata u'
  base_steps-saved d f u s out same i r c fresh l =
      let reads =
        saved-Reads (base_values d) d u out r (base_values-AreDotless d)
          (base_saved d u s i.session i.no_source) in
      base_steps-set search is_regex out d f
        (subst (λ g. Reads g out (base_values d)) (sym same) reads) reads
        (ap (λ g. get_value g (codes "script-config") out) same
          ∙ r (codes "script-config") refl
          ∙ script_saved d u i.no_source)
        c fresh l
