-- ===== src/Keyfile/Content.antt =====
-- What a file of sbuild/sbuild-basic-keyfile.h says, and the operations on its last group.
use schroot.Prelude.{ℕ, ◌≡◌, refl, ap, false, none, [], ◌∷◌, ◌++◌, Text}
use schroot.Prelude.Map.{Map}
use schroot.Prelude.Map.Order.{IsSorted, Below, insert-last, erase-absent}
use schroot.Prelude.Map.Last.{Below-find, find-last, update-last}
use schroot.Util.Split.Laws.{Free}
use schroot.Keyfile.{
  Items, Group, Keyfile, has_group, has_key, find_item, set_group, set_value, put_item,
}
use schroot.Keyfile.Printer.{is_newline}
use schroot.Keyfile.Lines.{IsGroupName, IsKey}

-- What a file says, without its comments and line numbers.
abbrev pub texts : Items → Map Text
texts [] = []
texts ((key, i) ∷ items) = (key, i.value) ∷ texts items

abbrev pub content : Keyfile → Map (Map Text)
content [] = []
content ((group, g) ∷ kf) = (group, texts g.items) ∷ content kf

pub texts-append : (a b : Items) → texts (a ++ b) ≡ texts a ++ texts b
texts-append [] b = refl
texts-append ((key, i) ∷ a) b = ap (λ m. (key, i.value) ∷ m) (texts-append a b)

pub content-append : (a b : Keyfile) → content (a ++ b) ≡ content a ++ content b
content-append [] b = refl
content-append ((group, g) ∷ a) b = ap (λ m. (group, texts g.items) ∷ m) (content-append a b)

-- Items that can be printed: keys in order, each of a form that is read as a key, and values of one
-- line.
abbrev pub ArePrintable : Items → Type 0
ArePrintable [] = Unit
ArePrintable ((key, i) ∷ items) = IsKey key × Free is_newline i.value × ArePrintable items

abbrev pub IsPrintable : Keyfile → Type 0
IsPrintable [] = Unit
IsPrintable ((group, g) ∷ kf) =
    IsGroupName group × IsSorted g.items × ArePrintable g.items × IsPrintable kf

-- The last group of a file under construction.
abbrev pub with_group : Keyfile → Text → Group → Keyfile
with_group m group g = m ++ (group, g) ∷ []

pub set_value-last :
    (m : Keyfile) (group : Text) (g : Group) (key value comment : Text) (line : ℕ)
    → Below group m
    → Below key g.items
    → set_value group key value comment line (with_group m group g)
      ≡ with_group m group (record g {
        items = g.items ++ (key, record { value = value; comment = comment; line = line }) ∷ [];
      })
unfolding set_value set_group has_group
set_value-last m group g key value comment line b b' =
    rw
      (
        find-last group g m b,
        update-last group (put_item key (record { value = value; comment = comment; line = line }))
            g m b,
        erase-absent key g.items (Below-find key g.items b'),
        insert-last key (record { value = value; comment = comment; line = line }) g.items b',
      )
      refl

pub find_item-last :
    (m : Keyfile) (group : Text) (g : Group) (key : Text)
    → Below group m
    → Below key g.items
    → find_item group key (with_group m group g) ≡ none
unfolding find_item
find_item-last m group g key b b' =
    rw (find-last group g m b, find_item) (Below-find key g.items b')

pub has_key-last :
    (m : Keyfile) (group : Text) (g : Group) (key : Text)
    → Below group m
    → Below key g.items
    → has_key group key (with_group m group g) ≡ false
unfolding has_key
has_key-last m group g key b b' = rw (find_item-last m group g key b b') refl

pub has_group-absent : (group : Text) (m : Keyfile) → Below group m → has_group group m ≡ false
unfolding has_group
has_group-absent group m b = rw (Below-find group m b) refl

pub set_group-last :
    (group comment : Text) (line : ℕ) (m : Keyfile)
    → Below group m
    → set_group group comment line m
      ≡ with_group m group (record { items = []; comment = comment; line = line })
unfolding set_group
set_group-last group comment line m b = rw (has_group-absent group m b) (insert-last group _ m b)
