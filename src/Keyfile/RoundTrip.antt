-- ===== src/Keyfile/RoundTrip.antt =====
-- A file that sbuild/sbuild-basic-keyfile.h prints reads back as the same groups, keys and values.
use schroot.Prelude.{
  ◌≡◌, refl, ap, sym, subst, ◌∙◌, false, [], ◌∷◌, ◌++◌, Text, append_assoc, append-nil,
}
use schroot.Prelude.Map.{Map}
use schroot.Prelude.Map.Order.{IsSorted, Above, Below}
use schroot.Prelude.Map.Last.{Follows, Follows-empty, Follows-snoc}
use schroot.Keyfile.{Items, Group, Keyfile, ok, add_items, add_keyfile}
use schroot.Keyfile.Printer.{print}
use schroot.Keyfile.Parser.{initial, read}
use schroot.Keyfile.Content.{
  texts, content, IsPrintable, with_group, set_value-last, set_group-last,
}
use schroot.Keyfile.Reading.{groups_read}

-- The order of a file's keys is that of what it says.
Above-texts : (k : Text) (items : Items) → Above k items → Above k (texts items)
Above-texts k [] a = tt
Above-texts k ((j, i) ∷ items) a = (a.0, Above-texts k items a.1)

texts-Above : (k : Text) (items : Items) → Above k (texts items) → Above k items
texts-Above k [] a = tt
texts-Above k ((j, i) ∷ items) a = (a.0, texts-Above k items a.1)

IsSorted-texts : (items : Items) → IsSorted items → IsSorted (texts items)
IsSorted-texts [] o = tt
IsSorted-texts ((k, i) ∷ items) o = (Above-texts k items o.0, IsSorted-texts items o.1)

texts-IsSorted : (items : Items) → IsSorted (texts items) → IsSorted items
texts-IsSorted [] o = tt
texts-IsSorted ((k, i) ∷ items) o = (texts-Above k items o.0, texts-IsSorted items o.1)

Above-content : (k : Text) (kf : Keyfile) → Above k kf → Above k (content kf)
Above-content k [] a = tt
Above-content k ((j, g) ∷ kf) a = (a.0, Above-content k kf a.1)

content-Above : (k : Text) (kf : Keyfile) → Above k (content kf) → Above k kf
content-Above k [] a = tt
content-Above k ((j, g) ∷ kf) a = (a.0, content-Above k kf a.1)

-- Every group's items are in order.
abbrev AreSorted : Map (Map Text) → Type 0
AreSorted [] = Unit
AreSorted ((group, items) ∷ kf) = IsSorted items × AreSorted kf

content-IsSorted : (kf : Keyfile) → IsSorted kf → IsSorted (content kf)
content-IsSorted [] o = tt
content-IsSorted ((k, g) ∷ kf) o = (Above-content k kf o.0, content-IsSorted kf o.1)

IsSorted-content : (kf : Keyfile) → IsSorted (content kf) → IsSorted kf
IsSorted-content [] o = tt
IsSorted-content ((k, g) ∷ kf) o = (content-Above k kf o.0, IsSorted-content kf o.1)

IsPrintable-AreSorted : (kf : Keyfile) → IsPrintable kf → AreSorted (content kf)
IsPrintable-AreSorted [] p = tt
IsPrintable-AreSorted ((group, g) ∷ kf) p =
    (IsSorted-texts g.items p.1, IsPrintable-AreSorted kf p.3)

-- `operator +=` with the groups that follow those of the receiver.
add_items-last :
    (m : Keyfile) (group : Text) (g : Group) (items : Items)
    → Below group m
    → IsSorted items
    → Follows g.items items
    → add_items group items (with_group m group g)
      ≡ with_group m group (record g { items = g.items ++ items })
unfolding add_items
add_items-last m group g [] b o f =
    ap (λ i. with_group m group (record g { items = i })) (sym (append-nil g.items))
add_items-last m group g ((key, i) ∷ items) b o f =
    let g' = record g { items = g.items ++ (key, i) ∷ [] } in
    ap (add_items group items) (set_value-last m group g key i.value i.comment i.line b f)
    ∙ add_items-last m group g' items b o.1 (Follows-snoc key i g.items items f o.0)
    ∙ ap (λ a. with_group m group (record g { items = a }))
        (append_assoc g.items ((key, i) ∷ []) items)

add_keyfile-last :
    (m kf : Keyfile)
    → IsSorted kf
    → AreSorted (content kf)
    → Follows m kf
    → add_keyfile m kf ≡ m ++ kf
unfolding add_keyfile
add_keyfile-last m [] o p f = sym (append-nil m)
add_keyfile-last m ((group, g) ∷ kf) o p f =
    let begun : Group = record { items = []; comment = g.comment; line = g.line } in
    ap (λ t. add_keyfile (add_items group g.items t) kf) (set_group-last group g.comment g.line m f)
    ∙ ap (λ t. add_keyfile t kf)
        (add_items-last m group begun g.items f (texts-IsSorted g.items p.0)
          (Follows-empty g.items))
    ∙ add_keyfile-last (with_group m group g) kf o.1 p.1 (Follows-snoc group g m kf f o.0)
    ∙ append_assoc m ((group, g) ∷ []) kf

-- A file whose groups and keys are in order and of a form that can be read, with values of one line,
-- is printed, whatever its comments, so that it is read without an error and says the same: the same
-- groups with the same keys and values.
pub read-print :
    (kf : Keyfile)
    → IsSorted kf
    → IsPrintable kf
    → (kf' : Keyfile) × (read (print kf) [] ≡ ok kf') × (content kf' ≡ content kf)
unfolding read print
read-print kf o p =
    let (tmp, reads, says) = groups_read false kf [] initial o p (Follows-empty kf) in
    let added =
      add_keyfile-last [] tmp
        (IsSorted-content tmp (subst IsSorted (sym says) (content-IsSorted kf o)))
        (subst AreSorted (sym says) (IsPrintable-AreSorted kf p)) (Follows-empty tmp) in
    (tmp, rw (reads, read) (rw added refl), says)
