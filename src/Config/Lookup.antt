-- ===== src/Config/Lookup.antt =====
-- What the lookups of sbuild/sbuild-chroot-config.cc find after `add`.
use schroot.Prelude.{
  ◌≡◌, refl, sym, subst, ◌&&◌, ◌∙◌, inl, inr, false, some, [], Text, text_beq, text_beq_iff,
  text_eq, nat_eq, ◌==◌, is_empty, arith, Bool-cases,
}
use schroot.Prelude.Map.{Map, find, find-update, insert}
use schroot.Util.Split.Laws.{Free, find_first-append, find_first-Free}
use schroot.Session.Chroot.{Chroot}
use schroot.Config.{
  ChrootConfig, ok, full, separator, add, get_namespace, find_namespace, find_chroot_in_namespace,
  find_chroot,
}
use schroot.Config.Aliases.{
  chroot_at, added, IsNew, add-ok, chroot_at-added, aliases-Grows, Option-cases,
}

-- The name of a namespace, which has no separator in it.
abbrev pub IsNamespace : Text → Type 0
IsNamespace ns = (is_empty ns ≡ false) × Free (λ c. c == separator) ns

pub get_namespace-full :
    (ns name : Text) → IsNamespace ns → get_namespace (full ns name) ≡ (ns, name)
unfolding get_namespace
get_namespace-full ns name (h, free) =
    rw (get_namespace, find_first-append (λ c. c == separator) ns separator name free refl)

pub get_namespace-plain :
    (name : Text) → Free (λ c. c == separator) name → get_namespace name ≡ ([], name)
unfolding get_namespace
get_namespace-plain name free = rw (get_namespace, find_first-Free (λ c. c == separator) name free)

pub find_chroot-full :
    (hint ns name : Text) (chroot : Chroot) (config : ChrootConfig)
    → IsNamespace ns
    → chroot_at ns name config ≡ some chroot
    → find_chroot hint (full ns name) config ≡ ok (some chroot)
unfolding find_chroot find_chroot_in_namespace find_namespace chroot_at
find_chroot-full hint ns name chroot config is_ns h =
    rw (get_namespace-full ns name is_ns) (ground (arith, is_ns.0, h))

-- What an alias stands for: the full name of a chroot that exists.
pub record IsTarget (config : ChrootConfig) (v : Text) : Type 0 where
  pub ns : Text
  pub name : Text
  pub chroot : Chroot
  pub is_ns : IsNamespace ns
  pub spells : v ≡ full ns name
  pub exists : chroot_at ns name config ≡ some chroot

-- Every namespace has the name of one, and every alias stands for a chroot.
pub record IsValid (config : ChrootConfig) : Type 0 where
  pub named : (ns : Text) (m : Map Chroot) → find ns config.namespaces ≡ some m → IsNamespace ns
  pub resolves : (alias v : Text) → find alias config.aliases ≡ some v → IsTarget config v

IsTarget-added :
    (ns : Text) (chroot : Chroot) (config : ChrootConfig) (v : Text)
    → IsNew ns chroot config
    → IsTarget config v
    → IsTarget (added ns chroot config) v
IsTarget-added ns chroot config v new t =
    let at = chroot_at-added ns t.ns t.name chroot config new in
    elim (Bool-cases (text_beq ns t.ns && text_beq chroot.name t.name)) [
      | inl same ↦ record {
        ns = t.ns;
        name = t.name;
        chroot = chroot;
        is_ns = t.is_ns;
        spells = t.spells;
        exists = ground (arith, at, same);
      }
      | inr other ↦ record {
        ns = t.ns;
        name = t.name;
        chroot = t.chroot;
        is_ns = t.is_ns;
        spells = t.spells;
        exists = ground (arith, at, other, t.exists);
      }
    ]

pub chroot_at-new :
    (ns : Text) (chroot : Chroot) (config : ChrootConfig)
    → IsNew ns chroot config
    → chroot_at ns chroot.name (added ns chroot config) ≡ some chroot
chroot_at-new ns chroot config new = ground (
  arith,
  chroot_at-added ns ns chroot.name chroot config new,
  text_beq_iff ns ns,
  text_beq_iff chroot.name chroot.name,
)

pub IsTarget-new :
    (ns : Text) (chroot : Chroot) (config : ChrootConfig)
    → IsNamespace ns
    → IsNew ns chroot config
    → IsTarget (added ns chroot config) (full ns chroot.name)
IsTarget-new ns chroot config is_ns new = record {
  ns = ns;
  name = chroot.name;
  chroot = chroot;
  is_ns = is_ns;
  spells = refl;
  exists = chroot_at-new ns chroot config new;
}

pub added-IsValid :
    (ns : Text) (chroot : Chroot) (config : ChrootConfig)
    → IsValid config
    → IsNew ns chroot config
    → IsValid (added ns chroot config)
added-IsValid ns chroot config valid new = record {
  named = λ ns' m e. elim (Option-cases (find ns' config.namespaces)) [
    | inl no_ns ↦
        absurd (
          ground
            (arith, find-update ns ns' (insert chroot.name chroot) config.namespaces, no_ns, e))
    | inr (old, at) ↦ valid.named ns' old at
  ];
  resolves = λ alias v e. elim (aliases-Grows ns chroot config alias) [
    | inl same ↦ IsTarget-added ns chroot config v new (valid.resolves alias v (sym same ∙ e))
    | inr (free, bound) ↦
        subst (IsTarget (added ns chroot config)) (ground (arith, e, bound))
          (IsTarget-new ns chroot config (valid.named ns new.0.0 new.0.1) new)
  ];
}

-- A call of `add` that returns keeps a configuration valid.
pub add-IsValid :
    (ns : Text) (chroot : Chroot) (config config' : ChrootConfig)
    → IsValid config
    → add ns chroot config ≡ ok config'
    → IsValid config'
add-IsValid ns chroot config config' valid h =
    let ok_lem = add-ok ns chroot config config' h in
    subst IsValid (sym ok_lem.1) (added-IsValid ns chroot config valid ok_lem.0)
