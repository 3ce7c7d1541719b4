-- ===== src/Definition/Locking/Printed.antt =====
-- The key file of one chroot, as it is printed.
use schroot.Prelude.{
  ℕ, ◌≡◌, refl, ap, sym, subst, ◌∙◌, Bool, true, false, not, ◌&&◌, Option, none, some, [], ◌∷◌,
  Text, text_beq_iff, nat_eq, ◌==◌, arith, all, is_empty,
}
use schroot.Prelude.Map.{Map, find, insert, erase, update}
use schroot.Prelude.Map.Order.{IsSorted, insert-IsSorted, erase-IsSorted}
use schroot.Util.Split.Laws.{Free}
use schroot.Keyfile.{
  Item, Items, Group, Keyfile, has_group, set_group, set_value, put_item, find_item, remove_group,
}
use schroot.Keyfile.Values.{get_value}
use schroot.Keyfile.Printer.{is_newline}
use schroot.Keyfile.Parser.{is_close, is_equals}
use schroot.Keyfile.Lines.{IsGroupName, IsKey}
use schroot.Keyfile.Content.{texts, content, ArePrintable, IsPrintable}
use schroot.Definition.{Definition}
use schroot.Definition.Save.{Entries, entries, put_all, get_keyfile}

-- Tests of the texts that can be printed and read.
abbrev pub is_free : (ℕ → Bool) → Text → Bool
is_free p = all (λ c. not (p c))

abbrev first_is : ℕ → Text → Bool
first_is x [] = false
first_is x (c ∷ rest) = c == x

abbrev pub is_group_name : Text → Bool
is_group_name name = not (is_empty name) && is_free is_newline name && is_free is_close name

abbrev pub is_key : Text → Bool
is_key key =
    not (is_empty key)
    && is_free is_newline key
    && is_free is_equals key
    && not (first_is b'#' key)
    && not (first_is b'[' key)

abbrev pub is_line : Text × Text → Bool
is_line entry = is_key entry.0 && is_free is_newline entry.1

is_free-Free : (p : ℕ → Bool) (s : Text) → is_free p s ≡ true → Free p s
is_free-Free p [] h = tt
is_free-Free p (c ∷ s) h = ground (arith, h, is_free-Free p s)

is_group_name-IsGroupName : (name : Text) → is_group_name name ≡ true → IsGroupName name
is_group_name-IsGroupName name h = record {
  ne_nil = ground (arith, h);
  one_line = is_free-Free is_newline name (ground (arith, h));
  no_bracket = is_free-Free is_close name (ground (arith, h));
}

is_key-plain :
    (key : Text) (c : ℕ) (rest : Text)
    → is_key key ≡ true
    → key ≡ c ∷ rest
    → ((c == b'#') ≡ false) × ((c == b'[') ≡ false)
is_key-plain [] c rest h e = cc
is_key-plain (d ∷ key) c rest h e = ground (arith, h, e)

is_key-IsKey : (key : Text) → is_key key ≡ true → IsKey key
is_key-IsKey key h = record {
  ne_nil = ground (arith, h);
  one_line = is_free-Free is_newline key (ground (arith, h));
  no_equals = is_free-Free is_equals key (ground (arith, h));
  plain = λ c rest e. is_key-plain key c rest h e;
}

insert-ArePrintable :
    (key : Text) (i : Item) (items : Items)
    → IsKey key
    → Free is_newline i.value
    → ArePrintable items
    → ArePrintable (insert key i items)
unfolding insert
insert-ArePrintable key i [] k v h = (k, v, tt)
insert-ArePrintable key i ((j, w) ∷ items) k v h =
    ground (arith, k, v, h, insert-ArePrintable key i items k v)

erase-ArePrintable :
    (key : Text) (items : Items) → ArePrintable items → ArePrintable (erase key items)
unfolding erase
erase-ArePrintable key [] h = tt
erase-ArePrintable key ((j, w) ∷ items) h = ground (arith, h, erase-ArePrintable key items)

-- A file of one group, that can be printed and read.
abbrev IsOneGroup : Text → Keyfile → Type 0
IsOneGroup name kf = (g : Group) × (kf ≡ (name, g) ∷ []) × IsSorted g.items × ArePrintable g.items

put_group :
    (name key value : Text) (g : Group)
    → set_value name key value [] 0 ((name, g) ∷ [])
      ≡ (name, put_item key (record { value = value; comment = []; line = 0 }) g) ∷ []
unfolding set_value set_group has_group update find
put_group name key value g = ground (arith, text_beq_iff name name)

set_value-IsOneGroup :
    (name key value : Text) (kf : Keyfile)
    → IsKey key
    → Free is_newline value
    → IsOneGroup name kf
    → IsOneGroup name (set_value name key value [] 0 kf)
set_value-IsOneGroup name key value kf k v (g, e, sorted, printable) =
    let i : Item = record { value = value; comment = []; line = 0 } in
    (
      put_item key i g,
      ap (set_value name key value [] 0) e ∙ put_group name key value g,
      insert-IsSorted key i (erase key g.items) (erase-IsSorted key g.items sorted),
      insert-ArePrintable key i (erase key g.items) k v (erase-ArePrintable key g.items printable),
    )

put_all-IsOneGroup :
    (name : Text) (es : Entries) (kf : Keyfile)
    → all is_line es ≡ true
    → IsOneGroup name kf
    → IsOneGroup name (put_all name es kf)
unfolding put_all
put_all-IsOneGroup name [] kf h o = o
put_all-IsOneGroup name ((k, v) ∷ es) kf h o =
    put_all-IsOneGroup name es (set_value name k v [] 0 kf) (ground (arith, h)) (
      set_value-IsOneGroup name k v kf (is_key-IsKey k (ground (arith, h)))
        (is_free-Free is_newline v (ground (arith, h))) o)

begin_group :
    (name key value : Text)
    → set_value name key value [] 0 []
      ≡ (
        name,
        put_item key
            (record { value = value; comment = []; line = 0 })
            (record { items = []; comment = []; line = 0 }),
      )
        ∷ []
unfolding set_value set_group has_group update find insert
begin_group name key value = ground (arith, text_beq_iff name name)

IsOneGroup-IsPrintable :
    (name : Text) (kf : Keyfile)
    → IsGroupName name
    → IsOneGroup name kf
    → IsSorted kf × IsPrintable kf
IsOneGroup-IsPrintable name kf n (g, e, sorted, printable) =
    (subst IsSorted (sym e) (tt, tt), subst IsPrintable (sym e) (n, sorted, printable, tt))

put_all-IsPrintable :
    (name : Text) (es : Entries)
    → is_group_name name ≡ true
    → all is_line es ≡ true
    → IsSorted (put_all name es []) × IsPrintable (put_all name es [])
unfolding put_all
put_all-IsPrintable name [] n h = (tt, tt)
put_all-IsPrintable name ((k, v) ∷ es) n h =
    let i : Item = record { value = v; comment = []; line = 0 } in
    let empty : Group = record { items = []; comment = []; line = 0 } in
    let key = is_key-IsKey k (ground (arith, h)) in
    let value = is_free-Free is_newline v (ground (arith, h)) in
    IsOneGroup-IsPrintable name _ (is_group_name-IsGroupName name n) (
      put_all-IsOneGroup name es (set_value name k v [] 0 []) (ground (arith, h)) (
        put_item k i empty,
        begin_group name k v,
        insert-IsSorted k i (erase k []) (erase-IsSorted k [] tt),
        insert-ArePrintable k i (erase k []) key value (erase-ArePrintable k [] tt),
      ))

-- A chroot whose name, keys and values are of a form that can be read saves a file that can be read.
pub get_keyfile-IsPrintable :
    (d : Definition)
    → is_group_name d.base.name ≡ true
    → all is_line (entries d) ≡ true
    → IsSorted (get_keyfile d []) × IsPrintable (get_keyfile d [])
unfolding get_keyfile remove_group erase
get_keyfile-IsPrintable d n h = put_all-IsPrintable d.base.name (entries d) n h

-- A value is that of the content.
abbrev value_in : Text → Text → Map (Map Text) → Option Text
value_in group key m = elim (find group m) [ none ↦ none | some items ↦ find key items ]

find-texts :
    (key : Text) (items : Items)
    → find key (texts items) ≡ (elim (find key items) [ none ↦ none | some i ↦ some i.value ])
unfolding find
find-texts key [] = refl
find-texts key ((j, i) ∷ items) = ground (arith, find-texts key items)

get_value-value_in :
    (group key : Text) (kf : Keyfile) → get_value group key kf ≡ value_in group key (content kf)
unfolding get_value find_item find
get_value-value_in group key [] = refl
get_value-value_in group key ((j, g) ∷ kf) =
    ground (arith, find-texts key g.items, get_value-value_in group key kf)

pub get_value-content :
    (group key : Text) (a b : Keyfile)
    → content a ≡ content b
    → get_value group key a ≡ get_value group key b
get_value-content group key a b same =
    get_value-value_in group key a
    ∙ ap (value_in group key) same
    ∙ sym (get_value-value_in group key b)
