-- ===== src/Keyfile/Lookup.antt =====
-- What a key reads after the operations of sbuild/sbuild-basic-keyfile.{h,tcc}.
use schroot.Prelude.{
  ℕ, ◌≡◌, refl, ◌&&◌, Option, none, some, List, [], Text, text_beq, text_beq_iff, arith, All,
  if◌then◌else◌,
}
use schroot.Prelude.Map.{find, erase, update, find-update, find-insert, find-erase, find-erase_self}
use schroot.Util.Split.{string_list_to_string}
use schroot.Util.Split.Words.{IsWord, split_string-string_list_to_string}
use schroot.Keyfile.{Item, Group, Keyfile, find_item, has_group, set_group, set_value, put_item}
use schroot.Keyfile.Values.{get_value, get_list_value, set_list_value, separator}

-- Setting an item changes no other item of the group.
find-put_item :
    (key k : Text) (i : Item) (g : Group)
    → find k (put_item key i g).items ≡ (if text_beq key k then some i else find k g.items)
find-put_item key k i g = ground (
  arith,
  find-insert key k i (erase key g.items),
  find-erase key k g.items,
  find-erase_self key g.items,
)

find_nil : (k : Text) → find {V = Item} k [] ≡ none
unfolding find
find_nil k = refl

-- A new group has no items, and no other group changes.
pub find_item-set_group :
    (group g k comment : Text) (line : ℕ) (kf : Keyfile)
    → find_item g k (set_group group comment line kf) ≡ find_item g k kf
unfolding find_item set_group has_group
find_item-set_group group g k comment line kf = ground (
  arith,
  find-insert group g (record { items = []; comment = comment; line = line }) kf,
  text_beq_iff group g,
  find_nil k,
)

has_group-set_group :
    (group comment : Text) (line : ℕ) (kf : Keyfile)
    → (g : Group) × (find group (set_group group comment line kf) ≡ some g)
unfolding set_group has_group
has_group-set_group group comment line kf = elim_found (find group kf) refl
  where
    elim_found :
        (o : Option Group)
        → find group kf ≡ o
        → (g : Group) × (find group (set_group group comment line kf) ≡ some g)
    elim_found none e =
        let g : Group = record { items = []; comment = comment; line = line } in
        (g, ground (arith, find-insert group group g kf, text_beq_iff group group))
    elim_found (some g) e = (g, rw e e)

find_item-update :
    (group key g k : Text) (i : Item) (kf : Keyfile) (new : Group)
    → find group kf ≡ some new
    → find_item g k (update group (put_item key i) kf)
      ≡ (if text_beq group g && text_beq key k then some i else find_item g k kf)
unfolding find_item
find_item-update group key g k i kf new e = ground (
  arith,
  find-update group g (put_item key i) kf,
  find-put_item key k i new,
  text_beq_iff group g,
)

-- A value that is set is read back, and every other item of every group reads as before.
pub get_value-set_value :
    (group key g k value comment : Text) (line : ℕ) (kf : Keyfile)
    → get_value g k (set_value group key value comment line kf)
      ≡ (if text_beq group g && text_beq key k then some value else get_value g k kf)
unfolding get_value set_value
get_value-set_value group key g k value comment line kf =
    let i : Item = record { value = value; comment = comment; line = line } in
    let begun = set_group group [] 0 kf in
    let (new, there) = has_group-set_group group [] 0 kf in
    ground (
      arith,
      find_item-update group key g k i begun new there,
      find_item-set_group group g k [] 0 kf,
    )

-- A list of words without a separator is read back as it was set.
pub get_list_value-set_list_value :
    (group key comment : Text) (list : List Text) (line : ℕ) (kf : Keyfile)
    → All (IsWord b',') list
    → get_list_value group key (set_list_value group key list comment line kf) ≡ some list
unfolding get_list_value set_list_value
get_list_value-set_list_value group key comment list line kf w =
    let joined = string_list_to_string list separator in
    ground (
      arith,
      get_value-set_value group key group key joined comment line kf,
      split_string-string_list_to_string b',' list w,
      text_beq_iff group group,
      text_beq_iff key key,
    )
