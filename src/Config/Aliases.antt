-- ===== src/Config/Aliases.antt =====
-- What `add` of sbuild/sbuild-chroot-config.cc does to the chroots and the aliases.
use schroot.Prelude.{
  ◌≡◌, refl, sym, ◌⊎◌, inl, inr, ◌&&◌, Option, none, some, List, [], ◌∷◌, Text, text_beq,
  text_beq_iff, text_eq, ◌==◌, arith, if◌then◌else◌, Bool-cases,
}
use schroot.Prelude.Map.{Map, find, insert, update, find-insert, find-update}
use schroot.Session.Chroot.{Chroot}
use schroot.Config.{
  ChrootConfig, ok, full, insert_alias, add_alias, add_aliases, add_plain, find_namespace, add,
  source_ns, chroot_ns,
}

-- A key reads as before, or it was free and is now bound to `v`.
abbrev pub Grows : Text → Map Text → Map Text → Type 0
Grows v m m' = (j : Text) → (find j m' ≡ find j m) ⊎ ((find j m ≡ none) × (find j m' ≡ some v))

pub Grows-trans : (v : Text) (a b c : Map Text) → Grows v a b → Grows v b c → Grows v a c
Grows-trans v a b c g h j = ground (arith, g j, h j)

pub insert_alias-Grows : (k v : Text) (m : Map Text) → Grows v m (insert_alias k v m)
unfolding insert_alias
insert_alias-Grows k v m j = ground (arith, find-insert k j v m, text_beq_iff k j)

pub add_alias-Grows : (ns v alias : Text) (m : Map Text) → Grows v m (add_alias ns v alias m)
unfolding add_alias
add_alias-Grows ns v alias m = elim (Bool-cases (ns == source_ns)) [
  | inl source ↦
      rw source
        (Grows-trans v m _ _ (insert_alias-Grows (full ns alias) v m) (insert_alias-Grows _ v _))
  | inr other ↦ rw other (insert_alias-Grows (full ns alias) v m)
]

pub add_aliases-Grows :
    (ns v : Text) (names : List Text) (m : Map Text) → Grows v m (add_aliases ns v names m)
unfolding add_aliases
add_aliases-Grows ns v [] m = λ j. inl refl
add_aliases-Grows ns v (alias ∷ names) m =
    Grows-trans v m _ _ (add_alias-Grows ns v alias m) (add_aliases-Grows ns v names _)

pub add_plain-Grows :
    (ns v : Text) (chroot : Chroot) (m : Map Text) → Grows v m (add_plain ns v chroot m)
unfolding add_plain
add_plain-Grows ns v chroot m = elim (Bool-cases (ns == chroot_ns && chroot.is_plain)) [
  | inl plain ↦ rw plain (insert_alias-Grows _ v m)
  | inr other ↦ rw other (λ j. inl refl)
]

-- The chroot of a namespace and a name.
unfoldable pub chroot_at : Text → Text → ChrootConfig → Option Chroot
chroot_at ns name config = elim (find ns config.namespaces) [ none ↦ none | some m ↦ find name m ]

pub Option-cases {ℓ} : {A : Type ℓ} (o : Option A) → (o ≡ none) ⊎ ((a : A) × (o ≡ some a))
Option-cases none = inl refl
Option-cases (some a) = inr (a, refl)

-- The configuration that `add` returns.
abbrev pub added : Text → Chroot → ChrootConfig → ChrootConfig
added ns chroot config =
    let fullname = full ns chroot.name in
    record {
      namespaces = update ns (insert chroot.name chroot) config.namespaces;
      aliases =
          add_aliases ns fullname chroot.aliases
            (add_plain ns fullname chroot (insert_alias fullname fullname config.aliases));
    }

-- The namespace exists, and neither the chroot nor an alias of its name does.
abbrev pub IsNew : Text → Chroot → ChrootConfig → Type 0
IsNew ns chroot config =
    ((chroots : Map Chroot) × (find ns config.namespaces ≡ some chroots)
      × (find chroot.name chroots ≡ none))
    × (find (full ns chroot.name) config.aliases ≡ none)

pub add-ok :
    (ns : Text) (chroot : Chroot) (config config' : ChrootConfig)
    → add ns chroot config ≡ ok config'
    → IsNew ns chroot config × (config' ≡ added ns chroot config)
unfolding add find_namespace
add-ok ns chroot config config' h = elim (Option-cases (find ns config.namespaces)) [
  | inl none_ns ↦ ground arith
  | inr (chroots, at) ↦ (((chroots, at, ground arith), ground arith), sym (ground arith))
]

-- The chroot of the new name is the new one; the others are found as before.
pub chroot_at-added :
    (ns ns' name : Text) (chroot : Chroot) (config : ChrootConfig)
    → IsNew ns chroot config
    → chroot_at ns' name (added ns chroot config) ≡ (
        if text_beq ns ns' && text_beq chroot.name name
        then some chroot
        else chroot_at ns' name config)
unfolding chroot_at
chroot_at-added ns ns' name chroot config ((chroots, at, free), unbound) = ground (
  arith,
  find-update ns ns' (insert chroot.name chroot) config.namespaces,
  find-insert chroot.name name chroot chroots free,
  text_beq_iff ns ns',
  at,
)

-- No alias is rebound: each new one is the chroot's.
pub aliases-Grows :
    (ns : Text) (chroot : Chroot) (config : ChrootConfig)
    → Grows (full ns chroot.name) config.aliases (added ns chroot config).aliases
aliases-Grows ns chroot config =
    let v = full ns chroot.name in
    Grows-trans v config.aliases _ _ (insert_alias-Grows v v config.aliases) (
      Grows-trans v _ _ _ (add_plain-Grows ns v chroot _) (add_aliases-Grows ns v chroot.aliases _))
