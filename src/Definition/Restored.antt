-- ===== src/Definition/Restored.antt =====
-- The user data that `set_keyfile` makes of the keys that no one used.
mod Names
use schroot.Prelude.{
  ◌≡◌, ◌⊎◌, refl, ap, sym, ◌∙◌, Bool, true, false, ◌||◌, Option, none, some, List, [], ◌∷◌, ◌++◌,
  Text, codes, text_beq, text_beq_iff, text_eq, nat_eq, ◌==◌, contains, is_empty, any, arith, All,
  Bool-cases, inl, inr, subst, if◌then◌else◌,
}
use schroot.Prelude.Map.{Map, find, insert, erase, find-insert, find-erase, find-erase_self}
use schroot.Prelude.Map.Order.{IsSorted}
use schroot.Userdata.{Userdata, has, envname, set_data, set_system_data, validate_keyname}
use schroot.Userdata.Unique.{is_set}
use schroot.Keyfile.{Keyfile, Item, Group, Items, names, get_keys, find_item}
use schroot.Keyfile.Values.{get_value}
use schroot.Definition.{
  Definition, ChrootType, plain, directory, custom, file, block_device, loopback, lvm_snapshot,
  zfs_snapshot, btrfs_snapshot,
}
use schroot.Definition.Load.{base_used, type_used, facet_used, used_with, is_used, set_unused}
use schroot.Definition.Kept.{HasData}
use schroot.Definition.Restored.Names.{is_used-false, get_keys-listed}

-- A key that can be set: it is set already, or its variable is free.
abbrev pub IsOpen : Text → Userdata → Type 0
IsOpen k w = (is_set k w ≡ true) ⊎ (has (envname k) w.env ≡ false)

-- What the user data `u` of `d` must be to be set again in a chroot that has the user data `fresh`:
-- its keys are valid, no two set the same variable, and each is one that the chroot has already, or
-- its variable is free there. The keys of the profile are not there any more where there is a script
-- configuration. A valid name has a dot, and is not that of a localised description, as its
-- expression says.
pub record IsRestorable (search : Text → Text → Bool) (d : Definition) (u fresh : Userdata)
    : Type 0 where
  pub sorted : IsSorted u.userdata
  pub valid : (k : Text) → is_set k u ≡ true → validate_keyname search k ≡ true
  pub dotted : (k : Text) → validate_keyname search k ≡ true → contains k b'.' ≡ true
  pub undescribed :
      (k : Text) → validate_keyname search k ≡ true → search k (codes "^description\\[.*]$") ≡ false
  pub distinct :
      (j k : Text) → is_set j u ≡ true → is_set k u ≡ true → envname j ≡ envname k → j ≡ k
  pub open_key :
      (k : Text)
      → is_set k u ≡ true
      → ((is_empty d.script_config ≡ true) × (is_set k fresh ≡ true))
        ⊎ (has (envname k) fresh.env ≡ false)

module _ (search : Text → Text → Bool) (is_regex : Text → Bool) where
  set_data-own :
      (k v : Text) (w : Userdata)
      → validate_keyname search k ≡ true
      → IsOpen k w
      → find k (set_data search k v w).1.userdata ≡ some v
  unfolding set_data set_system_data
  set_data-own k v w valid o = ground (
    arith,
    valid,
    o,
    find-insert k k v w.userdata,
    find-insert k k v (erase k w.userdata),
    find-erase_self k w.userdata,
    text_beq_iff k k,
  )

  set_data-other :
      (j k x : Text) (w : Userdata)
      → text_beq j k ≡ false
      → find k (set_data search j x w).1.userdata ≡ find k w.userdata
  unfolding set_data set_system_data
  set_data-other j k x w other = ground (
    arith,
    other,
    find-insert j k x w.userdata,
    find-insert j k x (erase j w.userdata),
    find-erase j k w.userdata,
    find-erase_self j w.userdata,
  )

  set_data-IsOpen :
      (j k x : Text) (w : Userdata)
      → text_beq j k ≡ false
      → (validate_keyname search j ≡ true → text_beq (envname j) (envname k) ≡ false)
      → IsOpen k w
      → IsOpen k (set_data search j x w).1
  unfolding set_data set_system_data
  set_data-IsOpen j k x w other apart o = ground (
    arith,
    other,
    apart,
    o,
    find-insert j k x w.userdata,
    find-insert j k x (erase j w.userdata),
    find-erase j k w.userdata,
    find-erase_self j w.userdata,
    find-insert (envname j) (envname k) tt w.env,
  )

  abbrev put_value : Text → Option Text → Userdata → Userdata
  put_value j o w = elim o [ none ↦ w | some x ↦ (set_data search j x w).1 ]

  -- One round of the loop.
  abbrev round : (Text → Bool) → Keyfile → Text → Text → Userdata → Userdata
  round used kf group j w = if used j then w else put_value j (get_value group j kf) w

  module _ (d : Definition) (u fresh : Userdata) (r : IsRestorable search d u fresh)
      (used : Text → Bool) (kf : Keyfile) (group : Text)
      (says : (j : Text) → contains j b'.' ≡ true → get_value group j kf ≡ find j u.userdata)
      (k v : Text) (is_kept : find k u.userdata ≡ some v) (unused : used k ≡ false) where
    k_set : is_set k u ≡ true
    k_set = ground (arith, is_kept)

    k_valid : validate_keyname search k ≡ true
    k_valid = r.valid k k_set

    k_said : get_value group k kf ≡ some v
    k_said = says k (r.dotted k k_valid) ∙ is_kept

    round-own : (w : Userdata) → IsOpen k w → find k (round used kf group k w).userdata ≡ some v
    round-own w o = ground (arith, unused, k_said, set_data-own k v w k_valid o)

    round-other :
        (j : Text) (w : Userdata)
        → text_beq j k ≡ false
        → find k (round used kf group j w).userdata ≡ find k w.userdata
    round-other j w other = elim (Bool-cases (used j)) [
      | inl p ↦ rw p refl
      | inr p ↦ rw p (value_other (get_value group j kf))
    ]
      where
        value_other : (o : Option Text) → find k (put_value j o w).userdata ≡ find k w.userdata
        value_other none = refl
        value_other (some x) = set_data-other j k x w other

    -- Another key that can be set sets another variable.
    apart :
        (j x : Text)
        → get_value group j kf ≡ some x
        → text_beq j k ≡ false
        → validate_keyname search j ≡ true
        → text_beq (envname j) (envname k) ≡ false
    apart j x said other valid =
        let there = sym (says j (r.dotted j valid)) ∙ said in
        ground (
          arith,
          other,
          there,
          text_beq_iff (envname j) (envname k),
          text_beq_iff j k,
          r.distinct j k (ground (arith, there)) k_set,
        )

    round-IsOpen :
        (j : Text) (w : Userdata)
        → text_beq j k ≡ false
        → IsOpen k w
        → IsOpen k (round used kf group j w)
    round-IsOpen j w other o = elim (Bool-cases (used j)) [
      | inl p ↦ rw p o
      | inr p ↦ rw p (value_open (get_value group j kf) refl)
    ]
      where
        value_open :
            (value : Option Text) → get_value group j kf ≡ value → IsOpen k (put_value j value w)
        value_open none e = o
        value_open (some x) e = set_data-IsOpen j k x w other (apart j x e other) o

    same_key : (j : Text) → text_beq j k ≡ true → j ≡ k
    same_key j h = ground (arith, h, text_beq_iff j k)

    -- A key that is set stays so.
    set_unused-keeps :
        (keys : List Text) (w : Userdata)
        → find k w.userdata ≡ some v
        → find k (set_unused search is_regex used keys kf group w).userdata ≡ some v
    unfolding set_unused
    set_unused-keeps [] w h = h
    set_unused-keeps (j ∷ keys) w h = set_unused-keeps keys _ (elim (Bool-cases (text_beq j k)) [
      | inl same ↦
          subst (λ i. find k (round used kf group i w).userdata ≡ some v) (sym (same_key j same))
            (round-own w (inl (ground (arith, h))))
      | inr other ↦ round-other j w other ∙ h
    ])

    set_unused-sets :
        (keys : List Text) (w : Userdata)
        → IsOpen k w
        → any (λ j. text_beq j k) keys ≡ true
        → find k (set_unused search is_regex used keys kf group w).userdata ≡ some v
    unfolding set_unused
    set_unused-sets [] w o h = cc
    set_unused-sets (j ∷ keys) w o h = elim (Bool-cases (text_beq j k)) [
      | inl same ↦ set_unused-keeps keys _ (
          subst (λ i. find k (round used kf group i w).userdata ≡ some v) (sym (same_key j same))
            (round-own w o))
      | inr other ↦ set_unused-sets keys _ (round-IsOpen j w other o) (ground (arith, h, other))
    ]

  -- The keys that no one used are set, with the values that the file says.
  pub set_unused-HasData :
      (d g : Definition) (u fresh w : Userdata) (t : ChrootType) (kf : Keyfile) (group : Text)
      → IsRestorable search d u fresh
      → ((j : Text) → contains j b'.' ≡ true → get_value group j kf ≡ find j u.userdata)
      → w.env ≡ fresh.env
      → (is_empty d.script_config ≡ true → (k : Text) → is_set k fresh ≡ true → is_set k w ≡ true)
      → HasData u
          (set_unused search is_regex (is_used search is_regex t g) (get_keys group kf) kf group w)
  set_unused-HasData d g u fresh w t kf group r says env kept k v there =
      let here : is_set k u ≡ true = ground (arith, there) in
      let valid = r.valid k here in
      let unused = is_used-false search is_regex t g k (r.dotted k valid) (r.undescribed k valid) in
      set_unused-sets d u fresh r (is_used search is_regex t g) kf group says k v there unused
        (get_keys group kf) w
        (elim (r.open_key k here) [
          | inl (bare, old) ↦ inl (kept bare k old)
          | inr free ↦ inr (ap (λ e. has (envname k) e) env ∙ free)
        ])
        (get_keys-listed group k v kf (says k (r.dotted k valid) ∙ there))
