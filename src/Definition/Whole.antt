-- ===== src/Definition/Whole.antt =====
-- A whole session that is saved and loaded again.
use schroot.Prelude.{
  List, [], ◌∷◌, if◌then◌else◌, Option, ◌≡◌, refl, ap, sym, subst, contains, ◌∙◌, Bool, true, false,
  none, some, Text, codes, text_eq, nat_eq, arith, All,
}
use schroot.Userdata.{set_data, set_system_data, Userdata}
use schroot.Keyfile.{Keyfile, ok, has_key, get_keys}
use schroot.Keyfile.Values.{get_value}
use schroot.Session.Chroot.{SessionFacet}
use schroot.Definition.{
  ChrootType, Definition, is_session, with_userdata, plain, directory, custom, file, block_device,
  loopback, lvm_snapshot, zfs_snapshot, btrfs_snapshot,
}
use schroot.Definition.Save.{get_keyfile}
use schroot.Definition.Class.{class_values, absent_keys, IsMounted, class_saved, class_absent}
use schroot.Definition.Base.{IsLoadable}
use schroot.Definition.Profile.{IsConfigured, IsFresh}
use schroot.Definition.Members.{Reads, with_members}
use schroot.Definition.Loaded.{ArePaths, with_class, type_steps-set}
use schroot.Definition.Facets.{
  in_group, all_mountable_values, AreAlike, IsFaceted, with_facets, facet_steps-set,
}
use schroot.Definition.FacetSteps.{read_in, userdata_values, session_values}
use schroot.Definition.Load.Steps.{base_steps, type_steps, facet_steps}
use schroot.Definition.Load.{
  run_steps, check_directory, both_keys, finish, set_keyfile, set_unused, is_used,
}
use schroot.Definition.Reload.{
  IsSession, IsSavedIn, get_keyfile-IsSavedIn, saved-Reads, base_steps-saved,
}
use schroot.Definition.SessionSaved.{
  persona_saved, session_saved, userdata_saved, mountable_saved, mountable-AreDotless,
  class-AreDotless, reads_absent, absent_keys-dotless,
}
use schroot.Prelude.Map.{find}
use schroot.Definition.SavedData.{data_saved}
use schroot.Definition.Restored.{IsRestorable, set_unused-HasData}
use schroot.Definition.Kept.{
  HasKeys, HasData, name-with_facets, with_class-base, with_class-kept, with_class-AreAlike, keyed,
  userdata-with_facets,
}

has_key-get_value :
    (g k : Text) (kf : Keyfile) (v : Text) → get_value g k kf ≡ some v → has_key g k kf ≡ true
unfolding has_key get_value
has_key-get_value g k kf v e = ground (arith, e)

has_key-absent : (g k : Text) (kf : Keyfile) → get_value g k kf ≡ none → has_key g k kf ≡ false
unfolding has_key get_value
has_key-absent g k kf e = ground (arith, e)

-- The check of the directory, and the steps of the class after it.
directory_checked :
    (t : ChrootType) (kf : Keyfile) (d g : Definition)
    → Reads g.base.name kf (class_values t d)
    → All (λ key. get_value g.base.name key kf ≡ none) (absent_keys t)
    → (check_directory t kf g ≡ ok g)
      × (type_steps t true (both_keys kf g) ≡ type_steps t true false)
unfolding check_directory type_steps
directory_checked plain kf d g r n =
    ground (arith, has_key-get_value _ _ kf _ r.0, has_key-absent _ _ kf n.0)
directory_checked directory kf d g r n =
    ground (arith, has_key-get_value _ _ kf _ r.0, has_key-absent _ _ kf n.0)
directory_checked custom kf d g r n = (refl, refl)
directory_checked file kf d g r n = (refl, refl)
directory_checked block_device kf d g r n = (refl, refl)
directory_checked loopback kf d g r n = (refl, refl)
directory_checked lvm_snapshot kf d g r n = (refl, refl)
directory_checked zfs_snapshot kf d g r n = (refl, refl)
directory_checked btrfs_snapshot kf d g r n = (refl, refl)

-- A chroot into which the session `d` can be loaded.
pub record IsTarget (d f : Definition) (s : SessionFacet) : Type 0 where
  pub name : f.base.name ≡ d.base.name
  pub type : f.type ≡ d.type
  pub session : f.base.session ≡ some s
  pub no_source : f.source_clonable ≡ none
  pub persona : f.persona ≡ codes "undefined"
  pub mountable : AreAlike d.mountable f.mountable
  pub fresh : IsFresh f

-- The file `out` says what the user data of `d` has.
abbrev pub IsDataSavedIn : Definition → Userdata → Keyfile → Type 0
IsDataSavedIn d u out =
    (k : Text) → contains k b'.' ≡ true → get_value d.base.name k out ≡ find k u.userdata

-- The chroot `f` with all that the session `d` saves and the user data `u'` before the facets.
abbrev pub reloaded : Definition → Userdata → SessionFacet → Definition → Userdata → Definition
reloaded d u s f u' = with_facets d u s (with_class d.type d (with_members d f u'))

module _ (regex_search : Text → Text → Bool) (is_regex : Text → Bool) where
  set_data-HasKeys :
      (key value : Text) (u w : Userdata)
      → HasKeys u w
      → HasKeys u (set_data regex_search key value w).1
  unfolding set_data set_system_data
  set_data-HasKeys key value u w h = ground (arith, h)

  if_unused-HasKeys :
      (used : Bool) (value : Option Text) (key : Text) (u w : Userdata)
      → HasKeys u w
      → HasKeys u
          (if used then w else elim value [ none ↦ w | some v ↦ (set_data regex_search key v w).1 ])
  if_unused-HasKeys true value key u w h = h
  if_unused-HasKeys false none key u w h = h
  if_unused-HasKeys false (some v) key u w h = set_data-HasKeys key v u w h

  set_unused-HasKeys :
      (used : Text → Bool) (keys : List Text) (kf : Keyfile) (group : Text) (u w : Userdata)
      → HasKeys u w
      → HasKeys u (set_unused regex_search is_regex used keys kf group w)
  unfolding set_unused
  set_unused-HasKeys used [] kf group u w h = h
  set_unused-HasKeys used (key ∷ keys) kf group u w h =
      set_unused-HasKeys used keys kf group u _
        (if_unused-HasKeys (used key) (get_value group key kf) key u w h)

  finish-userdata :
      (t : ChrootType) (kf : Keyfile) (g : Definition) (u w : Userdata)
      → g.base.userdata ≡ some w
      → HasKeys u w
      → (v : Userdata) × ((finish regex_search is_regex t kf g ≡ with_userdata g v) × HasKeys u v)
        × (v
            ≡ set_unused regex_search is_regex
                (is_used regex_search is_regex t g)
                (get_keys g.base.name kf)
                kf
                g.base.name
                w)
  unfolding finish
  finish-userdata t kf g u w e h = (
    set_unused regex_search is_regex (is_used regex_search is_regex t g) (get_keys g.base.name kf)
        kf g.base.name w,
    (ground (arith, e), set_unused-HasKeys _ _ kf _ u w h),
    refl,
  )

  -- The stages of `set_keyfile`, where all succeed.
  set_keyfile-stages :
      (kf : Keyfile) (t : ChrootType) (f m g h : Definition)
      → is_session f ≡ true
      → run_steps (base_steps regex_search is_regex true) kf f ≡ ok m
      → m.type ≡ t
      → check_directory t kf m ≡ ok m
      → run_steps (type_steps t true (both_keys kf m)) kf m ≡ ok g
      → run_steps (facet_steps g) kf g ≡ ok h
      → set_keyfile regex_search is_regex kf f ≡ ok (finish regex_search is_regex h.type kf h)
  unfolding set_keyfile
  set_keyfile-stages kf t f m g h e1 e2 e3 e4 e5 e6 = ground (arith, e1, e2, e3, e4, e5, e6)

  -- A session that any file says: the files that `get_keyfile` makes are such.
  pub set_keyfile-saved :
      (d f : Definition) (u : Userdata) (s sf : SessionFacet) (out : Keyfile)
      → IsSession d u s
      → IsSavedIn d u out
      → IsMounted d.type d
      → (target : IsTarget d f sf) → IsConfigured d
      → IsLoadable regex_search is_regex d.base
      → ArePaths d.type d
      → IsFaceted d u s
      → (restorable : IsRestorable regex_search d u target.fresh.userdata) → IsDataSavedIn d u out
      → (u1 : Userdata) × ((u2 : Userdata) × ((set_keyfile regex_search is_regex out f
              ≡ ok (with_userdata (reloaded d u s f u1) u2))
            × HasKeys u u2
            × HasData u u2))
  set_keyfile-saved d f u s sf out i r mount target c l paths faceted restorable says =
      let (u1, e1, (env, kept)) =
        base_steps-saved regex_search is_regex d f u s out target.name i r c target.fresh l in
      let m = with_members d f u1 in
      let read =
        saved-Reads (class_values d.type d) d u out r (class-AreDotless d.type d)
          (class_saved d.type d u s refl i.session i.no_source mount) in
      let absent =
        reads_absent (absent_keys d.type) d u out r (absent_keys-dotless d.type)
          (class_absent d.type d u s refl i.session i.no_source mount) in
      let (e2, e3) = directory_checked d.type out d m read absent in
      let e4 =
        ap (λ steps. run_steps steps out m) e3 ∙ type_steps-set d.type out d m read absent paths in
      let g = with_class d.type d m in
      let same : g.base ≡ m.base = with_class-base d.type d m in
      let (no_source, persona) = with_class-kept d.type d m in
      let own = ap (λ b. b.name) same in
      let h = with_facets d u s g in
      let e5 =
        facet_steps-set out d g u u1 s sf (ap (λ b. b.userdata) same)
          (ap (λ b. b.session) same ∙ target.session) (no_source ∙ target.no_source)
          (persona ∙ target.persona) (with_class-AreAlike d.type d.mountable d m target.mountable)
          (read_in _ _ _ out _ own (r (codes "personality") refl ∙ persona_saved d u i.no_source))
          (in_group _ _ out (userdata_values u) own (
            saved-Reads (userdata_values u) d u out r (refl, (refl, tt))
              (userdata_saved d u i.no_source)))
          (in_group _ _ out (all_mountable_values d.mountable) own (
            saved-Reads (all_mountable_values d.mountable) d u out r
              (mountable-AreDotless d.mountable)
              (mountable_saved d u s d.mountable refl i.session)))
          (in_group _ _ out (session_values s) own (
            saved-Reads (session_values s) d u out r (refl, (refl, tt))
              (session_saved d u s i.session)))
          faceted in
      let keyed_data =
        userdata-with_facets u u1 s d.mountable (record g { persona = d.persona })
          (ap (λ b. b.userdata) same) in
      let (u2, (e6, keys), rest) =
        finish-userdata h.type out h u (keyed u u1) keyed_data (refl, refl) in
      let named : h.base.name ≡ d.base.name =
        name-with_facets u s d.mountable (record g { persona = d.persona }) ∙ own in
      let restored : HasData u u2 = subst (HasData u) (sym rest) (
        set_unused-HasData regex_search is_regex d h u target.fresh.userdata (keyed u u1) h.type out
          h.base.name restorable (λ j dot. ap (λ n. get_value n j out) named ∙ says j dot) env
          kept) in
      (
        u1,
        (
          u2,
          (
            set_keyfile-stages out d.type f m g h (ground (arith, target.session)) e1 target.type e2
                  e4 e5
                ∙ ap ok e6,
            keys,
            restored,
          ),
        ),
      )

  -- A session d that is no source is saved and loaded into a chroot f of its name, type and
  -- facets, whose user data has the keys of the empty profile, which has no script configuration
  -- and whose personality is undefined. d has user data whose keys have a dot, has a profile or a
  -- script configuration and not both, and has the mountable facet only in a class of devices, and
  -- what it saves is accepted by the setters, with lists of words that are not empty and have no
  -- comma. The keys of its user data are valid and set different variables, and each is set in f
  -- already (and d has no script configuration) or its variable is free in f. Then set_keyfile
  -- returns, and f has what d saves of its members, of its class and of its facets, with user data
  -- that has every key of that of d with its value, and sets of the keys that users and root may
  -- set that are made of those of d.
  pub set_keyfile-get_keyfile :
      (d f : Definition) (u : Userdata) (s sf : SessionFacet) (kf : Keyfile)
      → IsSession d u s
      → IsMounted d.type d
      → (target : IsTarget d f sf) → IsConfigured d
      → IsLoadable regex_search is_regex d.base
      → ArePaths d.type d
      → IsFaceted d u s
      → IsRestorable regex_search d u target.fresh.userdata
      → (u1 : Userdata) × ((u2 : Userdata) × ((set_keyfile regex_search is_regex
                (get_keyfile d kf)
                f
              ≡ ok (with_userdata (reloaded d u s f u1) u2))
            × HasKeys u u2
            × HasData u u2))
  set_keyfile-get_keyfile d f u s sf kf i mount target c l paths faceted restorable =
      set_keyfile-saved d f u s sf (get_keyfile d kf) i (get_keyfile-IsSavedIn d u s kf i) mount
        target c l paths faceted restorable
        (λ j dot. data_saved d u j kf i.userdata restorable.sorted dot)
