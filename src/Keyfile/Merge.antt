-- ===== src/Keyfile/Merge.antt =====
-- What a key reads after `operator +=` of sbuild/sbuild-basic-keyfile.tcc.
use schroot.Prelude.{
  ℕ, ◌≡◌, refl, Option, none, some, [], ◌∷◌, Text, text_beq, text_beq_iff, arith, if◌then◌else◌,
}
use schroot.Prelude.Map.{find}
use schroot.Prelude.Map.Order.{IsSorted, find-Above}
use schroot.Keyfile.{
  Item, Items, Group, Keyfile, find_item, set_group, set_value, add_items, add_keyfile,
}
use schroot.Keyfile.Values.{get_value, or_else}
use schroot.Keyfile.Lookup.{get_value-set_value, find_item-set_group}

abbrev value_of : Option Item → Option Text
value_of none = none
value_of (some i) = some i.value

get_value-add_items :
    (group g k : Text) (items : Items) (kf : Keyfile)
    → IsSorted items
    → get_value g k (add_items group items kf) ≡ (
        if text_beq group g
        then or_else (value_of (find k items)) (get_value g k kf)
        else get_value g k kf)
unfolding add_items find
get_value-add_items group g k [] kf o = ground arith
get_value-add_items group g k ((key, i) ∷ items) kf o = ground (
  arith,
  get_value-add_items group g k items (set_value group key i.value i.comment i.line kf) o.1,
  get_value-set_value group key g k i.value i.comment i.line kf,
  find-Above key items o.0,
  text_beq_iff key k,
)

-- The keys of each group are in order.
abbrev pub HasSortedGroups : Keyfile → Type 0
HasSortedGroups [] = Unit
HasSortedGroups ((group, g) ∷ kf) = IsSorted g.items × HasSortedGroups kf

get_value-head :
    (group g k : Text) (new : Group) (kf : Keyfile)
    → get_value g k ((group, new) ∷ kf)
      ≡ (if text_beq group g then value_of (find k new.items) else get_value g k kf)
unfolding get_value find_item find
get_value-head group g k new kf = ground arith

get_value-absent : (g k : Text) (kf : Keyfile) → find g kf ≡ none → get_value g k kf ≡ none
unfolding get_value find_item
get_value-absent g k kf e = ground (arith, e)

get_value-nil : (g k : Text) → get_value g k [] ≡ none
unfolding get_value find_item find
get_value-nil g k = refl

get_value-set_group :
    (group g k comment : Text) (line : ℕ) (kf : Keyfile)
    → get_value g k (set_group group comment line kf) ≡ get_value g k kf
unfolding get_value
get_value-set_group group g k comment line kf =
    ground (arith, find_item-set_group group g k comment line kf)

-- After a file is added whose groups and keys are in order, each key reads as in that file, or else as
-- before.
pub get_value-add_keyfile :
    (g k : Text) (kf rhs : Keyfile)
    → IsSorted rhs
    → HasSortedGroups rhs
    → get_value g k (add_keyfile kf rhs) ≡ or_else (get_value g k rhs) (get_value g k kf)
unfolding add_keyfile
get_value-add_keyfile g k kf [] o s = ground (arith, get_value-nil g k)
get_value-add_keyfile g k kf ((group, new) ∷ rhs) o s =
    let begun = set_group group new.comment new.line kf in
    ground (
      arith,
      get_value-add_keyfile g k (add_items group new.items begun) rhs o.1 s.1,
      get_value-add_items group g k new.items begun s.0,
      get_value-set_group group g k new.comment new.line kf,
      get_value-head group g k new rhs,
      get_value-absent g k rhs,
      find-Above group rhs o.0,
      text_beq_iff group g,
    )
