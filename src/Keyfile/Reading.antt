-- ===== src/Keyfile/Reading.antt =====
-- Reading what sbuild/sbuild-basic-keyfile.h prints, group by group.
use schroot.Prelude.{
  ℕ, ◌+◌, ◌≡◌, refl, ap, sym, subst, ◌∙◌, Bool, true, false, [], ◌∷◌, ◌++◌, Text, is_empty,
  if◌then◌else◌, append_assoc, append-nil,
}
use schroot.Prelude.Map.{Map}
use schroot.Prelude.Map.Order.{IsSorted, Below}
use schroot.Prelude.Map.Last.{Follows, Follows-empty, Follows-snoc}
use schroot.Util.Split.Laws.{Free}
use schroot.Keyfile.{Item, Items, Group, Keyfile, ok}
use schroot.Keyfile.Printer.{is_newline, print_comment, print_items, print_groups}
use schroot.Keyfile.Parser.{State, clear, get_lines, read_lines}
use schroot.Keyfile.Lines.{
  IsGroupName, IsKey, read_lines-blank, read_lines-group, read_lines-item, after_blank, after_group,
  after_item,
}
use schroot.Keyfile.Comments.{reading, reading-line, IsSkipped, print_comment-IsSkipped}
use schroot.Keyfile.Content.{
  texts, content, texts-append, content-append, ArePrintable, IsPrintable, with_group,
  set_value-last, has_key-last, has_group-absent, set_group-last,
}

-- The state and the items after the items of a group were read into its last group.
pub record IsRead (text rest : Text) (m : Keyfile) (group : Text) (g : Group) (s : State)
    (new : Map Text) : Type 0 where
  state : State
  same_group : state.group ≡ group
  items : Items
  reads :
      reading (text ++ rest) s (with_group m group g)
      ≡ reading rest state (with_group m group (record g { items = items }))
  says : texts items ≡ texts g.items ++ new

pub Free-append : (p : ℕ → Bool) (a b : Text) → Free p a → Free p b → Free p (a ++ b)
Free-append p [] b h k = k
Free-append p (c ∷ a) b h k = (h.0, Free-append p a b h.1 k)

-- An item that was read as the last one of the group.
abbrev pub ItemRead : Text → Text → Text → Text → Keyfile → Group → State → Text → Type 0
ItemRead key value tail rest m g s group =
    (i : Item) × (i.value ≡ value)
    × (reading ((key ++ (b'=' ∷ (value ++ (b'\n' ∷ tail)))) ++ rest) s (with_group m group g)
        ≡ reading (tail ++ rest) (after_item key value s)
            (with_group m group (record g { items = g.items ++ (key, i) ∷ [] })))

pub item_line_here :
    (key value tail rest : Text) (m : Keyfile) (g : Group) (s : State)
    → IsKey key
    → Free is_newline value
    → is_empty s.group ≡ false
    → Below s.group m
    → Below key g.items
    → ItemRead key value tail rest m g s s.group
item_line_here key value tail rest m g s k v n b b' =
    let line = key ++ b'=' ∷ value in
    let tmp = with_group m s.group g in
    let comment = (after_item key value s).comment in
    let i : Item = record { value = value; comment = comment; line = s.line_number + 1 } in
    (
      i,
      refl,
      ap (λ t. reading (t ++ rest) s tmp) (sym (append_assoc key (b'=' ∷ value) (b'\n' ∷ tail)))
          ∙ reading-line line tail rest s tmp
              (Free-append is_newline key (b'=' ∷ value) k.one_line (refl, v))
          ∙ read_lines-item key value (get_lines (tail ++ rest)) s tmp k n
              (has_key-last m s.group g key b b')
          ∙ ap (read_lines (get_lines (tail ++ rest)) (after_item key value s))
              (set_value-last m s.group g key value comment (s.line_number + 1) b b'),
    )

pub item_line :
    (key value tail rest : Text) (m : Keyfile) (g : Group) (s : State) (group : Text)
    → s.group ≡ group
    → IsKey key
    → Free is_newline value
    → is_empty group ≡ false
    → Below group m
    → Below key g.items
    → ItemRead key value tail rest m g s group
item_line key value tail rest m g s group same k v n b b' =
    subst (ItemRead key value tail rest m g s) same (
      item_line_here key value tail rest m g s k v (subst (λ x. is_empty x ≡ false) (sym same) n)
        (subst (λ x. Below x m) (sym same) b) b')

pub group-after_item : (key value : Text) (s : State) → (after_item key value s).group ≡ s.group
unfolding clear
group-after_item key value s = refl

pub group-after_blank : (s : State) → (after_blank s).group ≡ s.group
unfolding clear
group-after_blank s = refl

pub items-IsRead :
    (items : Items) (rest : Text) (m : Keyfile) (group : Text) (g : Group) (s : State)
    → s.group ≡ group
    → is_empty group ≡ false
    → Below group m
    → IsSorted items
    → ArePrintable items
    → Follows g.items items
    → IsRead (print_items items) rest m group g s (texts items)
unfolding print_items
items-IsRead [] rest m group g s same n b o p f = record {
  state = s;
  same_group = same;
  items = g.items;
  reads = refl;
  says = sym (append-nil (texts g.items));
}
items-IsRead ((key, i) ∷ items) rest m group g s same n b o p f =
    let tail = print_items items in
    let text = key ++ (b'=' ∷ (i.value ++ (b'\n' ∷ tail))) in
    let c = print_comment-IsSkipped i.comment (text ++ rest) s (with_group m group g) in
    let (new, value, line) =
      item_line key i.value tail rest m g c.state group (c.group ∙ same) p.0 p.1 n b f in
    let g' = record g { items = g.items ++ (key, new) ∷ [] } in
    let later =
      items-IsRead items rest m group g' (after_item key i.value c.state)
        (group-after_item key i.value c.state ∙ c.group ∙ same) n b o.1 p.2
        (Follows-snoc key new g.items items f o.0) in
    record {
      state = later.state;
      same_group = later.same_group;
      items = later.items;
      reads =
          ap (λ t. reading t s (with_group m group g))
            (append_assoc (print_comment i.comment) text rest)
          ∙ c.reads
          ∙ line
          ∙ later.reads;
      says =
          later.says
          ∙ ap (λ a. a ++ texts items) (texts-append g.items ((key, new) ∷ []))
          ∙ append_assoc (texts g.items) ((key, new.value) ∷ []) (texts items)
          ∙ ap (λ v. texts g.items ++ (key, v) ∷ texts items) value;
    }

-- A group that was begun as the last one of the file.
pub group_line :
    (group tail rest : Text) (m : Keyfile) (s : State)
    → IsGroupName group
    → Below group m
    → (g : Group) × (g.items ≡ [])
      × (reading ((b'[' ∷ (group ++ (b']' ∷ b'\n' ∷ tail))) ++ rest) s m
          ≡ reading (tail ++ rest) (after_group group s) (with_group m group g))
group_line group tail rest m s n b =
    let line = b'[' ∷ (group ++ b']' ∷ []) in
    let g : Group = record {
      items = [];
      comment = (after_group group s).comment;
      line = s.line_number + 1;
    } in
    (
      g,
      refl,
      ap (λ t. reading ((b'[' ∷ t) ++ rest) s m)
            (sym (append_assoc group (b']' ∷ []) (b'\n' ∷ tail)))
          ∙ reading-line line tail rest s m
              (refl, Free-append is_newline group (b']' ∷ []) n.one_line (refl, tt))
          ∙ read_lines-group group (get_lines (tail ++ rest)) s m n (has_group-absent group m b)
          ∙ ap (read_lines (get_lines (tail ++ rest)) (after_group group s))
              (set_group-last group (after_group group s).comment (s.line_number + 1) m b),
    )

pub blank_line :
    (later : Bool) (text : Text) (s : State) (m : Keyfile)
    → IsSkipped (if later then b'\n' ∷ [] else []) text s m
blank_line true text s m = record {
  state = after_blank s;
  group = group-after_blank s;
  reads = unfold get_lines in read_lines-blank (get_lines text) s m;
}
blank_line false text s m = record { state = s; group = refl; reads = refl }

pub groups_read :
    (later : Bool) (kf m : Keyfile) (s : State)
    → IsSorted kf
    → IsPrintable kf
    → Follows m kf
    → (tmp : Keyfile) × (reading (print_groups later kf) s m ≡ ok tmp)
      × (content tmp ≡ content m ++ content kf)
unfolding print_groups
groups_read later [] m s o p f =
    (m, unfold get_lines read_lines in refl, sym (append-nil (content m)))
groups_read later ((group, g) ∷ kf) m s o p f =
    let items = print_items g.items in
    let rest = print_groups true kf in
    let text = b'[' ∷ (group ++ (b']' ∷ b'\n' ∷ (items ++ rest))) in
    let blank = blank_line later (print_comment g.comment ++ text) s m in
    let c = print_comment-IsSkipped g.comment text blank.state m in
    let (begun, empty, line) = group_line group items rest m c.state p.0 f in
    let read_items =
      items-IsRead g.items rest m group begun (after_group group c.state) refl p.0.ne_nil f p.1 p.2
        (subst (λ i. Follows i g.items) (sym empty) (Follows-empty g.items)) in
    let done = record begun { items = read_items.items } in
    let (tmp, reads, says) =
      groups_read true kf (with_group m group done) read_items.state o.1 p.3
        (Follows-snoc group done m kf f o.0) in
    (
      tmp,
      blank.reads
          ∙ c.reads
          ∙ ap (λ t. reading t c.state m)
              (sym (append_assoc (b'[' ∷ group) (b']' ∷ b'\n' ∷ items) rest))
          ∙ line
          ∙ read_items.reads
          ∙ reads,
      says
          ∙ ap (λ a. a ++ content kf) (content-append m ((group, done) ∷ []))
          ∙ append_assoc (content m) ((group, texts read_items.items) ∷ []) (content kf)
          ∙ ap (λ t. content m ++ (group, t) ∷ content kf)
              (read_items.says ∙ ap (λ i. texts i ++ texts g.items) empty),
    )
