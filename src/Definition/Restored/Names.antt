-- ===== src/Definition/Restored/Names.antt =====
-- The keys of a chroot that are not user data, and the keys of a group.
use schroot.Prelude.{
  ◌≡◌, refl, Bool, true, false, Option, none, some, List, [], ◌∷◌, ◌++◌, Text, codes, text_beq,
  text_beq_iff, text_eq, nat_eq, contains, any, arith, All,
}
use schroot.Prelude.Map.{find}
use schroot.Keyfile.{Keyfile, Item, Group, Items, names, get_keys, find_item}
use schroot.Keyfile.Values.{get_value}
use schroot.Definition.{
  Definition, ChrootType, plain, directory, custom, file, block_device, loopback, lvm_snapshot,
  zfs_snapshot, btrfs_snapshot,
}
use schroot.Definition.Load.{base_used, type_used, facet_used, used_with, is_used}

-- Names without a dot are not names of user data.
abbrev AreNames : List Text → Type 0
AreNames = All (λ (key : Text). contains key b'.' ≡ false)

contains-dotted :
    (names : List Text) (k : Text)
    → AreNames names
    → contains k b'.' ≡ true
    → contains names k ≡ false
contains-dotted [] k a h = refl
contains-dotted (n ∷ names) k a h =
    ground (arith, contains-dotted names k a.1 h, text_beq_iff n k, a.0)

AreNames-append : (a b : List Text) → AreNames a → AreNames b → AreNames (a ++ b)
AreNames-append [] b p q = q
AreNames-append (k ∷ a) b p q = (p.0, AreNames-append a b p.1 q)

AreNames-used_with {ℓ} :
    {A : Type ℓ} (o : Option A) (names : List Text) → AreNames names → AreNames (used_with o names)
AreNames-used_with none names p = tt
AreNames-used_with (some a) names p = p

type_used-AreNames : (t : ChrootType) → AreNames (type_used t)
unfolding type_used
type_used-AreNames plain = (refl, (refl, tt))
type_used-AreNames directory = (refl, (refl, tt))
type_used-AreNames custom = (refl, (refl, (refl, tt)))
type_used-AreNames file = (refl, (refl, (refl, tt)))
type_used-AreNames block_device = (refl, tt)
type_used-AreNames loopback = (refl, tt)
type_used-AreNames lvm_snapshot = (refl, (refl, (refl, tt)))
type_used-AreNames zfs_snapshot = (refl, (refl, (refl, (refl, tt))))
type_used-AreNames btrfs_snapshot = (refl, (refl, (refl, tt)))

sources-AreNames : AreNames (
    codes "source-users"
    ∷ codes "source-groups"
    ∷ codes "source-root-users"
    ∷ codes "source-root-groups"
    ∷ [])
sources-AreNames = (refl, (refl, (refl, (refl, tt))))

facet_used-AreNames : (d : Definition) → AreNames (facet_used d)
unfolding facet_used
facet_used-AreNames d = (
  refl,
  AreNames-append (used_with d.base.userdata _) _
      (AreNames-used_with d.base.userdata _ (refl, (refl, tt)))
      (AreNames-append (used_with d.source_clonable _) _
        (AreNames-used_with d.source_clonable _ (refl, sources-AreNames))
        (AreNames-append (used_with d.mountable _) _
          (AreNames-used_with d.mountable _ (refl, (refl, (refl, tt))))
          (AreNames-used_with d.base.session _
            (refl, (refl, (refl, (refl, (refl, (refl, (refl, tt)))))))))),
)

base_used-AreNames : AreNames base_used
base_used-AreNames = (
  refl,
  (
    refl,
    (
      refl,
      (
        refl,
        (
          refl,
          (
            refl,
            (
              refl,
              (
                refl,
                (
                  refl,
                  (
                    refl,
                    (
                      refl,
                      (
                        refl,
                        (refl, (refl, (refl, (refl, (refl, (refl, (refl, (refl, (refl, tt))))))))),
                      ),
                    ),
                  ),
                ),
              ),
            ),
          ),
        ),
      ),
    ),
  ),
)

-- The keys of a group that has a value of `k`.
contains-names :
    (k : Text) (items : Items)
    → (elim (find k items) [ none ↦ false | some i ↦ true ]) ≡ true
    → any (λ j. text_beq j k) (names items) ≡ true
unfolding find names
contains-names k [] h = h
contains-names k ((j, i) ∷ items) h = ground (arith, contains-names k items, h)

abbrev value_in : Text → Option Group → Option Text
value_in k o =
    let item : Option Item = elim o [ none ↦ none | some g ↦ find k g.items ] in
    elim item [ none ↦ none | some i ↦ some i.value ]

abbrev keys_in : Option Group → List Text
keys_in o = elim o [ none ↦ [] | some g ↦ names g.items ]

listed_in :
    (k v : Text) (o : Option Group)
    → value_in k o ≡ some v
    → any (λ j. text_beq j k) (keys_in o) ≡ true
listed_in k v none h = cc
listed_in k v (some g) h = contains-names k g.items (ground (arith, h))

pub get_keys-listed :
    (group k v : Text) (kf : Keyfile)
    → get_value group k kf ≡ some v
    → any (λ j. text_beq j k) (get_keys group kf) ≡ true
unfolding get_keys get_value find_item
get_keys-listed group k v kf h = listed_in k v (find group kf) h

module _ (search : Text → Text → Bool) (is_regex : Text → Bool) where
  pub is_used-false :
      (t : ChrootType) (g : Definition) (k : Text)
      → contains k b'.' ≡ true
      → search k (codes "^description\\[.*]$") ≡ false
      → is_used search is_regex t g k ≡ false
  unfolding is_used
  is_used-false t g k h s = ground (
    arith,
    s,
    contains-dotted (base_used ++ (type_used t ++ facet_used g)) k
        (AreNames-append base_used _ base_used-AreNames
          (AreNames-append (type_used t) _ (type_used-AreNames t) (facet_used-AreNames g)))
        h,
  )
