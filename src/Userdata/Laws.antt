-- ===== src/Userdata/Laws.antt =====
-- What sbuild/sbuild-chroot-facet-userdata.cc sets, and who may set it.
use schroot.Prelude.{
  ◌≡◌, refl, ap, Bool, true, Option, none, some, [], ◌∷◌, Text, arith, text_beq, text_beq_iff,
  if◌then◌else◌,
}
use schroot.Prelude.Map.{Map, find, erase, find-insert, find-erase, find-erase_self}
use schroot.Prelude.Map.Order.{IsSorted, find-Above}
use schroot.Userdata.{
  Set, Userdata, UserdataCode, Outcome, has, get_data, set_system_data, validate_keyname, set_data,
  set_allowed_data, set_user_data,
}

-- A key that is set reads its value, and no other key changes.
get-set_system_data :
    (key value j : Text) (u u' : Userdata)
    → set_system_data key value u ≡ (none, u')
    → get_data j u' ≡ (if text_beq key j then some value else get_data j u)
unfolding set_system_data get_data
get-set_system_data key value j u u' h = ground (
  arith,
  find-insert key j value u.userdata,
  find-insert key j value (erase key u.userdata),
  find-erase key j u.userdata,
  find-erase_self key u.userdata,
  text_beq_iff key j,
)

abbrev pair : Option UserdataCode → Userdata → Outcome
pair e u = (e, u)

module _ (search : Text → Text → Bool) where
  -- A pair of the options that may be set: its key is listed, and its name is valid.
  abbrev pub Allowed : Set → Map Text → Type 0
  Allowed allowed_keys [] = Unit
  Allowed allowed_keys ((k, v) ∷ rest) =
      (has k allowed_keys ≡ true) × (validate_keyname search k ≡ true) × Allowed allowed_keys rest

  abbrev pub prefer : Option Text → Option Text → Option Text
  prefer none w = w
  prefer (some v) w = some v

  -- All options were set: each was allowed, and no other key changed.
  pub record IsApplied (allowed_keys : Set) (options : Map Text) (u u' : Userdata) : Type 0 where
    pub allowed : Allowed allowed_keys options
    pub value : (j : Text) → get_data j u' ≡ prefer (find j options) (get_data j u)

  set_data_lem :
      (key value j : Text) (u u' : Userdata)
      → set_data search key value u ≡ (none, u')
      → (validate_keyname search key ≡ true)
        × (get_data j u' ≡ (if text_beq key j then some value else get_data j u))
  unfolding set_data
  set_data_lem key value j u u' h = ground (arith, get-set_system_data key value j u u')

  set_allowed_data-cons :
      (allowed_keys : Set) (key value : Text) (rest : Map Text) (u u' : Userdata) (o : Outcome)
      → set_data search key value u ≡ o
      → set_allowed_data search allowed_keys ((key, value) ∷ rest) u ≡ (none, u')
      → (has key allowed_keys ≡ true)
        × (o.0 ≡ none)
        × (set_allowed_data search allowed_keys rest o.1 ≡ (none, u'))
  unfolding set_allowed_data
  set_allowed_data-cons allowed_keys key value rest u u' o e h = ground arith

  set_allowed_data_lem :
      (allowed_keys : Set) (options : Map Text) (u u' : Userdata)
      → IsSorted options
      → set_allowed_data search allowed_keys options u ≡ (none, u')
      → IsApplied allowed_keys options u u'
  unfolding find
  set_allowed_data_lem allowed_keys [] u u' s h = record {
    allowed = tt;
    value = λ j. unfold set_allowed_data in ground arith;
  }
  set_allowed_data_lem allowed_keys ((key, value) ∷ rest) u u' s h =
      let o = set_data search key value u in
      let (listed, fine, more) = set_allowed_data-cons allowed_keys key value rest u u' o refl h in
      let ih = set_allowed_data_lem allowed_keys rest o.1 u' s.1 more in
      let passed = ap (λ (e : Option UserdataCode). pair e o.1) fine in
      record {
        allowed = (listed, (set_data_lem key value key u o.1 passed).0, ih.allowed);
        value = λ j. ground (
          arith,
          ih.value j,
          (set_data_lem key value j u o.1 passed).1,
          find-Above key rest s.0,
          text_beq_iff key j,
        );
      }

  -- A user's options: if they are all accepted, each key is user-modifiable and has a valid name,
  -- it reads the value given, and no other key changes.
  pub set_user_data_lem :
      (options : Map Text) (u u' : Userdata)
      → IsSorted options
      → set_user_data search options u ≡ (none, u')
      → IsApplied u.user_modifiable_keys options u u'
  unfolding set_user_data
  set_user_data_lem options u u' s h = set_allowed_data_lem u.user_modifiable_keys options u u' s h
