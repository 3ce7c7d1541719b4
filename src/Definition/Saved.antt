-- ===== src/Definition/Saved.antt =====
-- What a key of a chroot reads after its `get_keyfile`.
use schroot.Prelude.{
  ◌≡◌, refl, ap, ◌∙◌, true, false, Option, none, some, [], ◌∷◌, ◌++◌, Text, codes, text_beq,
  text_beq_iff, text_eq, nat_eq, contains, arith, if◌then◌else◌, All,
}
use schroot.Prelude.Map.{Map, find-erase_self}
use schroot.Userdata.{Userdata}
use schroot.Keyfile.{Keyfile, names, set_value, remove_group, find_item}
use schroot.Keyfile.Values.{get_value, or_else}
use schroot.Keyfile.Lookup.{get_value-set_value}
use schroot.Definition.{Definition, is_session}
use schroot.Definition.Save.{
  Entries, print_list, base_entries, type_entries, persona_entries, userdata_entries,
  source_entries, mountable_entries, session_entries, facet_entries, entries, put_all, get_keyfile,
}

-- The last value of a key.
unfoldable pub last_of : Text → Entries → Option Text
last_of k [] = none
last_of k ((j, v) ∷ es) = or_else (last_of k es) (if text_beq j k then some v else none)

pub last_of-append :
    (k : Text) (a b : Entries) → last_of k (a ++ b) ≡ or_else (last_of k b) (last_of k a)
unfolding last_of
last_of-append k [] b = ground arith
last_of-append k ((j, v) ∷ a) b = ground (arith, last_of-append k a b)

pub get_value-put_all :
    (g k : Text) (es : Entries) (kf : Keyfile)
    → get_value g k (put_all g es kf) ≡ or_else (last_of k es) (get_value g k kf)
unfolding last_of put_all
get_value-put_all g k [] kf = refl
get_value-put_all g k ((j, v) ∷ es) kf = ground (
  arith,
  get_value-put_all g k es (set_value g j v [] 0 kf),
  get_value-set_value g j g k v [] 0 kf,
  text_beq_iff g g,
)

pub get_value-remove_group : (g k : Text) (kf : Keyfile) → get_value g k (remove_group g kf) ≡ none
unfolding get_value find_item remove_group
get_value-remove_group g k kf = ground (arith, find-erase_self g kf)

-- A key of the user data has a dot in its name, as `validate_keyname` wants.
abbrev pub AreDotted : Map Text → Type 0
AreDotted = All (λ entry. contains entry.0 b'.' ≡ true)

last_of-dotted :
    (k : Text) (m : Map Text) → AreDotted m → contains k b'.' ≡ false → last_of k m ≡ none
unfolding last_of
last_of-dotted k [] d h = refl
last_of-dotted k ((j, v) ∷ m) d h =
    ground (arith, last_of-dotted k m d.1 h, text_beq_iff j k, d.0, h)

abbrev pub modifiable_entries : Userdata → Entries
modifiable_entries u =
    (codes "user-modifiable-keys", print_list (names u.user_modifiable_keys))
    ∷ (codes "root-modifiable-keys", print_list (names u.root_modifiable_keys))
    ∷ []

last_of-userdata_entries :
    (k : Text) (o : Option Userdata) (u : Userdata)
    → o ≡ some u
    → AreDotted u.userdata
    → contains k b'.' ≡ false
    → last_of k (userdata_entries o) ≡ last_of k (modifiable_entries u)
unfolding userdata_entries
last_of-userdata_entries k none u e dots h = cc
last_of-userdata_entries k (some v) u e dots h =
    let same : v ≡ u = ground (arith, e) in
    ap (λ w. last_of k (userdata_entries (some w))) same
    ∙ last_of-append k (modifiable_entries u) u.userdata
    ∙ ap (λ o. or_else o (last_of k (modifiable_entries u))) (last_of-dotted k u.userdata dots h)

-- What a chroot with user data `u` saves under a key without a dot.
unfoldable pub saved : Definition → Userdata → Text → Option Text
saved d u k = or_else (last_of k (session_entries d.base.session)) (
    or_else (last_of k (mountable_entries (is_session d) d.mountable)) (
      or_else (last_of k (source_entries d.source_clonable)) (
        or_else (last_of k (modifiable_entries u)) (
          or_else (last_of k (persona_entries d)) (
            or_else (last_of k (type_entries d.type (is_session d) d))
              (last_of k (base_entries d)))))))

pub get_value-get_keyfile :
    (d : Definition) (u : Userdata) (k : Text) (kf : Keyfile)
    → d.base.userdata ≡ some u
    → AreDotted u.userdata
    → contains k b'.' ≡ false
    → get_value d.base.name k (get_keyfile d kf) ≡ saved d u k
unfolding get_keyfile entries facet_entries saved
get_value-get_keyfile d u k kf e dots h =
    let session = session_entries d.base.session in
    let mount = mountable_entries (is_session d) d.mountable ++ session in
    let source = source_entries d.source_clonable ++ mount in
    let own = userdata_entries d.base.userdata ++ source in
    let persona = persona_entries d ++ own in
    let class = type_entries d.type (is_session d) d ++ persona in
    ground (
      arith,
      get_value-put_all d.base.name k (base_entries d ++ class) (remove_group d.base.name kf),
      get_value-remove_group d.base.name k kf,
      last_of-append k (base_entries d) class,
      last_of-append k (type_entries d.type (is_session d) d) persona,
      last_of-append k (persona_entries d) own,
      last_of-append k (userdata_entries d.base.userdata) source,
      last_of-append k (source_entries d.source_clonable) mount,
      last_of-append k (mountable_entries (is_session d) d.mountable) session,
      last_of-userdata_entries k d.base.userdata u e dots h,
    )
