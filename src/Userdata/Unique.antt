-- ===== src/Userdata/Unique.antt =====
-- The invariant of sbuild/sbuild-chroot-facet-userdata.cc: no two keys of the user data set the
-- same variable in the environment of the setup scripts.
use schroot.Prelude.{
  ◌≡◌, ap, Bool, true, false, none, some, [], ◌∷◌, Text, arith, text_beq, text_beq_iff, Bool-cases,
  inl, inr,
}
use schroot.Prelude.Map.{Map, find, erase, find-insert, find-erase, find-erase_self}
use schroot.Userdata.{
  Set, Userdata, key_ambiguous, Outcome, has, envname, set_system_data, remove_data, and_then,
  validate_keyname, set_data, set_all_data, set_allowed_data, set_all_system_data, set_user_data,
  set_root_data,
}

abbrev pub is_set : Text → Userdata → Bool
is_set key u = elim (find key u.userdata) [ none ↦ false | some v ↦ true ]

pub record IsUnambiguous (u : Userdata) : Type 0 where
  pub registered : (k : Text) → is_set k u ≡ true → has (envname k) u.env ≡ true
  pub distinct :
      (j k : Text) → is_set j u ≡ true → is_set k u ≡ true → envname j ≡ envname k → j ≡ k

module _ (key value : Text) (u : Userdata) (h : IsUnambiguous u) where
  registered-set :
      (k : Text)
      → is_set k (set_system_data key value u).1 ≡ true
      → has (envname k) (set_system_data key value u).1.env ≡ true
  unfolding set_system_data
  registered-set k p = ground (
    arith,
    h.registered k,
    find-insert key k value u.userdata,
    find-insert key k value (erase key u.userdata),
    find-erase key k u.userdata,
    find-erase_self key u.userdata,
    find-insert (envname key) (envname k) tt u.env,
    text_beq_iff key k,
    text_beq_iff (envname key) (envname k),
  )

  -- Which keys are set after a call that may have thrown.
  is_set-set :
      (k : Text)
      → is_set k (set_system_data key value u).1 ≡ true
      → text_beq key k ≡ false
      → is_set k u ≡ true
  unfolding set_system_data
  is_set-set k p other = ground (
    arith,
    find-insert key k value u.userdata,
    find-insert key k value (erase key u.userdata),
    find-erase key k u.userdata,
    find-erase_self key u.userdata,
  )

  -- A new key is only set where its variable was free.
  fresh-set :
      (k : Text)
      → is_set k u ≡ true
      → is_set key (set_system_data key value u).1 ≡ true
      → envname key ≡ envname k
      → is_set key u ≡ true
  unfolding set_system_data
  fresh-set k p q same = ground (arith, h.registered k, ap (λ (n : Text). has n u.env) same)

  distinct-set :
      (j k : Text)
      → is_set j (set_system_data key value u).1 ≡ true
      → is_set k (set_system_data key value u).1 ≡ true
      → envname j ≡ envname k
      → j ≡ k
  distinct-set j k p q same = ground (
    arith,
    is_set-set j p,
    is_set-set k q,
    fresh-set j,
    fresh-set k,
    h.distinct j k,
    h.distinct key k,
    h.distinct j key,
    text_beq_iff key j,
    text_beq_iff key k,
  )

  pub set_system_data-IsUnambiguous : IsUnambiguous (set_system_data key value u).1
  set_system_data-IsUnambiguous = record { registered = registered-set; distinct = distinct-set }

remove_data-IsUnambiguous :
    (key : Text) (u : Userdata) → IsUnambiguous u → IsUnambiguous (remove_data key u)
unfolding remove_data
remove_data-IsUnambiguous key u h = record {
  registered = λ k p. ground (arith, h.registered k, find-erase key k u.userdata);
  distinct = λ j k p q same.
      ground (arith, h.distinct j k, find-erase key k u.userdata, find-erase key j u.userdata);
}

-- A loop keeps the invariant if its round does.
and_then-IsUnambiguous :
    (o : Outcome) (f : Userdata → Outcome)
    → IsUnambiguous o.1
    → ((u : Userdata) → IsUnambiguous u → IsUnambiguous (f u).1)
    → IsUnambiguous (and_then o f).1
and_then-IsUnambiguous (none, u) f h k = k u h
and_then-IsUnambiguous (some e, u) f h k = h

set_all_system_data-IsUnambiguous :
    (options : Map Text) (u : Userdata)
    → IsUnambiguous u
    → IsUnambiguous (set_all_system_data options u).1
unfolding set_all_system_data
set_all_system_data-IsUnambiguous [] u h = h
set_all_system_data-IsUnambiguous ((k, v) ∷ rest) u h =
    and_then-IsUnambiguous (set_system_data k v u) (λ u'. set_all_system_data rest u')
      (set_system_data-IsUnambiguous k v u h)
      (λ u' h'. set_all_system_data-IsUnambiguous rest u' h')

module _ (search : Text → Text → Bool) where
  set_data-IsUnambiguous :
      (key value : Text) (u : Userdata)
      → IsUnambiguous u
      → IsUnambiguous (set_data search key value u).1
  unfolding set_data
  set_data-IsUnambiguous key value u h = elim (Bool-cases (validate_keyname search key)) [
    | inl valid ↦ rw valid (set_system_data-IsUnambiguous key value u h)
    | inr invalid ↦ rw invalid h
  ]

  set_all_data-IsUnambiguous :
      (options : Map Text) (u : Userdata)
      → IsUnambiguous u
      → IsUnambiguous (set_all_data search options u).1
  unfolding set_all_data
  set_all_data-IsUnambiguous [] u h = h
  set_all_data-IsUnambiguous ((k, v) ∷ rest) u h =
      and_then-IsUnambiguous (set_data search k v u) (λ u'. set_all_data search rest u')
        (set_data-IsUnambiguous k v u h) (λ u' h'. set_all_data-IsUnambiguous rest u' h')

  set_allowed_data-IsUnambiguous :
      (allowed_keys : Set) (options : Map Text) (u : Userdata)
      → IsUnambiguous u
      → IsUnambiguous (set_allowed_data search allowed_keys options u).1
  unfolding set_allowed_data
  set_allowed_data-IsUnambiguous allowed_keys [] u h = h
  set_allowed_data-IsUnambiguous allowed_keys ((k, v) ∷ rest) u h =
      elim (Bool-cases (has k allowed_keys)) [
        | inl listed ↦ rw listed (
            and_then-IsUnambiguous (set_data search k v u)
              (λ u'. set_allowed_data search allowed_keys rest u') (set_data-IsUnambiguous k v u h)
              (λ u' h'. set_allowed_data-IsUnambiguous allowed_keys rest u' h'))
        | inr unlisted ↦ rw unlisted h
      ]

  -- Where no two keys of the user data set the same variable, none do after a call of set_data or
  -- set_system_data, with a key or with a map of keys, of set_user_data, set_root_data or
  -- remove_data, also where the call throws half-way.
  pub userdata-IsUnambiguous :
      (u : Userdata) (options : Map Text) (key value : Text)
      → IsUnambiguous u
      → IsUnambiguous (set_data search key value u).1
        × IsUnambiguous (set_system_data key value u).1
        × IsUnambiguous (set_all_data search options u).1
        × IsUnambiguous (set_user_data search options u).1
        × IsUnambiguous (set_root_data search options u).1
        × IsUnambiguous (set_all_system_data options u).1
        × IsUnambiguous (remove_data key u)
  unfolding set_user_data set_root_data
  userdata-IsUnambiguous u options key value h = (
    set_data-IsUnambiguous key value u h,
    set_system_data-IsUnambiguous key value u h,
    set_all_data-IsUnambiguous options u h,
    set_allowed_data-IsUnambiguous _ options u h,
    set_allowed_data-IsUnambiguous _ options u h,
    set_all_system_data-IsUnambiguous options u h,
    remove_data-IsUnambiguous key u h,
  )

-- A key that was removed cannot be set again: its variable is still taken.
pub set_system_data-remove_data :
    (u : Userdata) (key value : Text)
    → IsUnambiguous u
    → is_set key u ≡ true
    → set_system_data key value (remove_data key u) ≡ (some key_ambiguous, remove_data key u)
unfolding set_system_data remove_data
set_system_data-remove_data u key value h p =
    ground (arith, h.registered key, find-erase_self key u.userdata)
