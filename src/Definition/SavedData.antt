-- ===== src/Definition/SavedData.antt =====
-- What a key of the user data reads after the `get_keyfile` of its chroot.
use schroot.Prelude.{
  ◌≡◌, refl, ap, ◌∙◌, Bool, true, false, not, Option, none, some, [], ◌∷◌, ◌++◌, Text, codes,
  text_beq_iff, text_eq, nat_eq, ◌==◌, contains, is_empty, arith,
}
use schroot.Prelude.Map.{Map, find}
use schroot.Prelude.Map.Order.{IsSorted, find-Above}
use schroot.Userdata.{Userdata}
use schroot.Keyfile.{Keyfile, remove_group, names}
use schroot.Keyfile.Values.{get_value}
use schroot.Session.Chroot.{SessionFacet}
use schroot.Definition.{
  Definition, ChrootType, Mountable, SourceClonable, is_session, plain, directory, custom, file,
  block_device, loopback, lvm_snapshot, zfs_snapshot, btrfs_snapshot,
}
use schroot.Definition.Save.{
  Entries, only_if, base_entries, type_entries, persona_entries, userdata_entries, source_entries,
  mountable_entries, session_entries, facet_entries, entries, get_keyfile, print_list,
}
use schroot.Definition.Saved.{last_of, last_of-append, get_value-put_all, get_value-remove_group}
use schroot.Definition.Reload.{AreDotless}

last_of-dotless :
    (k : Text) (es : Entries) → AreDotless es → contains k b'.' ≡ true → last_of k es ≡ none
unfolding last_of
last_of-dotless k [] a h = refl
last_of-dotless k ((j, v) ∷ es) a h =
    ground (arith, last_of-dotless k es a.1 h, text_beq_iff j k, a.0, h)

last_of-sorted : (k : Text) (m : Map Text) → IsSorted m → last_of k m ≡ find k m
unfolding last_of find
last_of-sorted k [] s = refl
last_of-sorted k ((j, v) ∷ m) s =
    ground (arith, last_of-sorted k m s.1, find-Above j m s.0, text_beq_iff j k)

AreDotless-append : (a b : Entries) → AreDotless a → AreDotless b → AreDotless (a ++ b)
AreDotless-append [] b p q = q
AreDotless-append ((k, v) ∷ a) b p q = (p.0, AreDotless-append a b p.1 q)

AreDotless-only_if : (b : Bool) (es : Entries) → AreDotless es → AreDotless (only_if b es)
AreDotless-only_if true es p = p
AreDotless-only_if false es p = tt

base-AreDotless : (d : Definition) → AreDotless (base_entries d)
unfolding base_entries
base-AreDotless d =
    let name = (codes "name", d.base.name) ∷ [] in
    let script = (codes "script-config", d.script_config) ∷ [] in
    let mount = (codes "mount-location", d.base.mount_location) ∷ [] in
    let session = is_session d in
    let scripted = not (is_empty d.script_config) in
    AreDotless-append (only_if session name) _ (AreDotless-only_if session name (refl, tt)) (
      refl,
      (
        refl,
        AreDotless-append (only_if scripted script) _
            (AreDotless-only_if scripted script (refl, tt))
            (
              refl,
              (
                refl,
                (
                  refl,
                  (
                    refl,
                    (
                      refl,
                      (
                        refl,
                        (
                          refl,
                          AreDotless-append (only_if session mount) _
                              (AreDotless-only_if session mount (refl, tt))
                              (refl, (refl, (refl, (refl, tt)))),
                        ),
                      ),
                    ),
                  ),
                ),
              ),
            ),
      ),
    )

type-AreDotless : (t : ChrootType) (s : Bool) (d : Definition) → AreDotless (type_entries t s d)
unfolding type_entries
type-AreDotless plain s d = (refl, tt)
type-AreDotless directory s d = (refl, tt)
type-AreDotless custom s d = (refl, tt)
type-AreDotless file true d = (refl, (refl, (refl, tt)))
type-AreDotless file false d = (refl, (refl, tt))
type-AreDotless block_device s d = (refl, tt)
type-AreDotless loopback s d = (refl, tt)
type-AreDotless lvm_snapshot true d = (refl, (refl, tt))
type-AreDotless lvm_snapshot false d = (refl, (refl, tt))
type-AreDotless zfs_snapshot true d = (refl, (refl, tt))
type-AreDotless zfs_snapshot false d = (refl, (refl, tt))
type-AreDotless btrfs_snapshot true d = (refl, tt)
type-AreDotless btrfs_snapshot false d = (refl, (refl, tt))

persona-AreDotless : (d : Definition) → AreDotless (persona_entries d)
unfolding persona_entries
persona-AreDotless d = AreDotless-only_if (not (d.persona == codes "undefined")) _ (refl, tt)

source-AreDotless : (o : Option SourceClonable) → AreDotless (source_entries o)
unfolding source_entries
source-AreDotless none = tt
source-AreDotless (some s) = (refl, (refl, (refl, (refl, (refl, tt)))))

mountable-AreDotless : (b : Bool) (o : Option Mountable) → AreDotless (mountable_entries b o)
unfolding mountable_entries
mountable-AreDotless b none = tt
mountable-AreDotless true (some m) = (refl, (refl, (refl, tt)))
mountable-AreDotless false (some m) = (refl, (refl, tt))

session-AreDotless : (o : Option SessionFacet) → AreDotless (session_entries o)
unfolding session_entries
session-AreDotless none = tt
session-AreDotless (some s) = (refl, (refl, tt))

data_last :
    (k : Text) (o : Option Userdata) (u : Userdata)
    → o ≡ some u
    → IsSorted u.userdata
    → contains k b'.' ≡ true
    → last_of k (userdata_entries o) ≡ find k u.userdata
unfolding userdata_entries last_of
data_last k none u e s h = cc
data_last k (some w) u e s h =
    let same : w ≡ u = ground (arith, e) in
    ap (λ x. last_of k (userdata_entries (some x))) same
    ∙ ground (
      arith,
      last_of-sorted k u.userdata s,
      last_of-dotless k
          ((codes "user-modifiable-keys", print_list (names u.user_modifiable_keys))
            ∷ (codes "root-modifiable-keys", print_list (names u.root_modifiable_keys))
            ∷ [])
          (refl, (refl, tt)) h,
    )

-- A key of the user data is saved with its value, and no other key with a dot is.
pub data_saved :
    (d : Definition) (u : Userdata) (k : Text) (kf : Keyfile)
    → d.base.userdata ≡ some u
    → IsSorted u.userdata
    → contains k b'.' ≡ true
    → get_value d.base.name k (get_keyfile d kf) ≡ find k u.userdata
unfolding get_keyfile entries facet_entries
data_saved d u k kf e sorted h =
    let session = session_entries d.base.session in
    let mount = mountable_entries (is_session d) d.mountable ++ session in
    let source = source_entries d.source_clonable ++ mount in
    let own = userdata_entries d.base.userdata ++ source in
    let persona = persona_entries d ++ own in
    let class = type_entries d.type (is_session d) d ++ persona in
    ground (
      arith,
      get_value-put_all d.base.name k (base_entries d ++ class) (remove_group d.base.name kf),
      get_value-remove_group d.base.name k kf,
      last_of-append k (base_entries d) class,
      last_of-append k (type_entries d.type (is_session d) d) persona,
      last_of-append k (persona_entries d) own,
      last_of-append k (userdata_entries d.base.userdata) source,
      last_of-append k (source_entries d.source_clonable) mount,
      last_of-append k (mountable_entries (is_session d) d.mountable) session,
      data_last k d.base.userdata u e sorted h,
      last_of-dotless k (base_entries d) (base-AreDotless d) h,
      last_of-dotless k (type_entries d.type (is_session d) d)
          (type-AreDotless d.type (is_session d) d) h,
      last_of-dotless k (persona_entries d) (persona-AreDotless d) h,
      last_of-dotless k (source_entries d.source_clonable) (source-AreDotless d.source_clonable) h,
      last_of-dotless k (mountable_entries (is_session d) d.mountable)
          (mountable-AreDotless (is_session d) d.mountable) h,
      last_of-dotless k session (session-AreDotless d.base.session) h,
    )
