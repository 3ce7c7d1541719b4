-- ===== src/Config/Loading.antt =====
-- The aliases of a configuration that is built by sbuild/sbuild-chroot-config.cc's `add` lead to
-- chroots.
use schroot.Prelude.{
  ◌≡◌, refl, ap, sym, subst, ◌∙◌, ◌⊎◌, inl, inr, true, none, some, List, [], ◌∷◌, Text,
  text_beq_iff, text_eq, nat_eq, ◌==◌, arith, Bool-cases, contains,
}
use schroot.Prelude.Map.{Map, find, find-insert, find-update, insert}
use schroot.Util.Split.Laws.{Free}
use schroot.Session.Chroot.{Chroot}
use schroot.Config.{
  ChrootConfig, ok, error, chroot_exist, full, separator, insert_alias, add_alias, add_aliases, add,
  alias_key, find_namespace, find_chroot, find_alias, new_config, chroot_ns, session_ns, source_ns,
}
use schroot.Config.Aliases.{
  Grows, Grows-trans, added, add-ok, aliases-Grows, add_aliases-Grows, insert_alias-Grows,
  add_plain-Grows, Option-cases,
}
use schroot.Config.Lookup.{
  IsNamespace, IsTarget, IsValid, add-IsValid, chroot_at-new, get_namespace-plain, find_chroot-full,
}

-- The configurations that are reached from the constructor's by calls of `add` that return.
pub data Loaded : ChrootConfig → Type 0 where
  start : Loaded new_config
  step :
      (ns : Text) (chroot : Chroot) (config config' : ChrootConfig)
      → Loaded config
      → add ns chroot config ≡ ok config'
      → Loaded config'

initial-cases :
    (ns : Text) (m : Map Chroot)
    → find ns new_config.namespaces ≡ some m
    → (chroot_ns ≡ ns) ⊎ ((session_ns ≡ ns) ⊎ (source_ns ≡ ns))
unfolding new_config find
initial-cases ns m h =
    ground
      (arith, h, text_beq_iff chroot_ns ns, text_beq_iff session_ns ns, text_beq_iff source_ns ns)

new_config-IsValid : IsValid new_config
unfolding new_config find
new_config-IsValid = record {
  named = λ ns m h. elim (initial-cases ns m h) [
    | inl e ↦ subst IsNamespace e (refl, (refl, (refl, (refl, (refl, (refl, (refl, tt)))))))
    | inr (inl e) ↦
        subst IsNamespace e (refl, (refl, (refl, (refl, (refl, (refl, (refl, (refl, tt))))))))
    | inr (inr e) ↦ subst IsNamespace e (refl, (refl, (refl, (refl, (refl, (refl, (refl, tt)))))))
  ];
  resolves = λ alias v h. absurd (ground (arith, h));
}

pub Loaded-IsValid : (config : ChrootConfig) → Loaded config → IsValid config
Loaded-IsValid _ start = new_config-IsValid
Loaded-IsValid _ (step ns chroot config config' l h) =
    add-IsValid ns chroot config config' (Loaded-IsValid config l) h

-- A key that is bound stays bound.
Grows-some :
    (v : Text) (m m' : Map Text) (j w : Text)
    → Grows v m m'
    → find j m ≡ some w
    → find j m' ≡ some w
Grows-some v m m' j w g h = ground (arith, g j, h)

insert_alias-some :
    (k v : Text) (m : Map Text) → (w : Text) × (find k (insert_alias k v m) ≡ some w)
unfolding insert_alias
insert_alias-some k v m = elim (Option-cases (find k m)) [
  | inl free ↦ (v, ground (arith, free, find-insert k k v m free, text_beq_iff k k))
  | inr (w, bound) ↦ (w, ground (arith, bound))
]

add_alias-some :
    (ns v alias : Text) (m : Map Text)
    → (w : Text) × (find (full ns alias) (add_alias ns v alias m) ≡ some w)
unfolding add_alias
add_alias-some ns v alias m =
    let bound = insert_alias-some (full ns alias) v m in
    elim (Bool-cases (ns == source_ns)) [
      | inl source ↦
          rw source
            (bound.0, Grows-some v _ _ (full ns alias) bound.0 (insert_alias-Grows _ v _) bound.1)
      | inr other ↦ rw other bound
    ]

add_aliases-some :
    (ns v alias : Text) (names : List Text) (m : Map Text)
    → contains names alias ≡ true
    → (w : Text) × (find (full ns alias) (add_aliases ns v names m) ≡ some w)
unfolding add_aliases add_alias
add_aliases-some ns v alias [] m h = absurd (ground (arith, h))
add_aliases-some ns v alias (name ∷ names) m h = elim (Bool-cases (name == alias)) [
  | inl same ↦
      let bound = add_alias-some ns v alias m in
      let kept =
        Grows-some v _ _ (full ns alias) bound.0
          (add_aliases-Grows ns v names (add_alias ns v alias m)) bound.1 in
      (
        bound.0,
        subst
            (λ n. find (full ns alias) (add_aliases ns v names (add_alias ns v n m)) ≡ some bound.0)
            (ground (arith, text_beq_iff name alias, same)) kept,
      )
  | inr other ↦ add_aliases-some ns v alias names (add_alias ns v name m) (ground (arith, other, h))
]

find_alias-bound :
    (hint name v : Text) (config : ChrootConfig)
    → find (alias_key hint name) config.aliases ≡ some v
    → find_alias hint name config ≡ find_chroot hint v config
unfolding find_alias
find_alias-bound hint name v config h = ground (arith, h)

IsTarget-found :
    (hint v : Text) (config : ChrootConfig) (t : IsTarget config v)
    → find_chroot hint v config ≡ ok (some t.chroot)
IsTarget-found hint v config t =
    ap (λ x. find_chroot hint x config) t.spells
    ∙ find_chroot-full hint t.ns t.name t.chroot config t.is_ns t.exists

-- In a configuration that is built by `add`, an alias that is there is found: the search neither
-- fails nor returns a null chroot.
pub find_alias-Loaded :
    (hint name v : Text) (config : ChrootConfig)
    → Loaded config
    → find (alias_key hint name) config.aliases ≡ some v
    → (chroot : Chroot) × (find_alias hint name config ≡ ok (some chroot))
find_alias-Loaded hint name v config loaded h =
    let t = (Loaded-IsValid config loaded).resolves (alias_key hint name) v h in
    (t.chroot, find_alias-bound hint name v config h ∙ IsTarget-found hint v config t)

alias_key-plain :
    (ns alias : Text)
    → IsNamespace ns
    → Free (λ c. c == separator) alias
    → alias_key ns alias ≡ full ns alias
alias_key-plain ns alias is_ns plain =
    rw (get_namespace-plain alias plain) (ground (arith, is_ns.0))

bound-some :
    (ns alias : Text) (chroot : Chroot) (config : ChrootConfig)
    → contains (chroot.name ∷ chroot.aliases) alias ≡ true
    → (w : Text) × (find (full ns alias) (added ns chroot config).aliases ≡ some w)
bound-some ns alias chroot config among =
    let v = full ns chroot.name in
    elim (Bool-cases (chroot.name == alias)) [
      | inl same ↦
          let bound = insert_alias-some v v config.aliases in
          let grows =
            Grows-trans v _ _ _ (add_plain-Grows ns v chroot _)
              (add_aliases-Grows ns v chroot.aliases _) in
          (
            bound.0,
            subst (λ n. find (full ns n) (added ns chroot config).aliases ≡ some bound.0)
                (ground (arith, text_beq_iff chroot.name alias, same))
                (Grows-some v _ _ v bound.0 grows bound.1),
          )
      | inr other ↦ add_aliases-some ns v alias chroot.aliases _ (ground (arith, other, among))
    ]

-- An alias of the chroot that was free is bound to it.
alias-bound :
    (ns alias : Text) (chroot : Chroot) (config : ChrootConfig)
    → contains (chroot.name ∷ chroot.aliases) alias ≡ true
    → find (full ns alias) config.aliases ≡ none
    → find (full ns alias) (added ns chroot config).aliases ≡ some (full ns chroot.name)
alias-bound ns alias chroot config among free = ground (
  arith,
  (bound-some ns alias chroot config among).1,
  aliases-Grows ns chroot config (full ns alias),
  free,
)

-- After `add` returns, the chroot is found in its namespace by its name and by each of its aliases
-- that were free, for names without a separator.
pub find_alias-add :
    (ns alias : Text) (chroot : Chroot) (config config' : ChrootConfig)
    → Loaded config
    → add ns chroot config ≡ ok config'
    → contains (chroot.name ∷ chroot.aliases) alias ≡ true
    → find (full ns alias) config.aliases ≡ none
    → Free (λ c. c == separator) alias
    → find_alias ns alias config' ≡ ok (some chroot)
find_alias-add ns alias chroot config config' loaded h among free plain =
    let new = add-ok ns chroot config config' h in
    let is_ns = (Loaded-IsValid config loaded).named ns new.0.0.0 new.0.0.1 in
    let key =
      ap (λ k. find k (added ns chroot config).aliases) (alias_key-plain ns alias is_ns plain) in
    subst (λ x. find_alias ns alias x ≡ ok (some chroot)) (sym new.1)
      (find_alias-bound ns alias (full ns chroot.name) (added ns chroot config)
          (key ∙ alias-bound ns alias chroot config among free)
        ∙ find_chroot-full ns ns chroot.name chroot (added ns chroot config) is_ns
            (chroot_at-new ns chroot config new.0))

-- A second chroot of the same name and namespace is refused.
add-again :
    (ns : Text) (chroot second : Chroot) (config config' : ChrootConfig)
    → add ns chroot config ≡ ok config'
    → second.name ≡ chroot.name
    → add ns second config' ≡ error chroot_exist
unfolding add find_namespace
add-again ns chroot second config config' h same =
    let new = add-ok ns chroot config config' h in
    let v = full ns chroot.name in
    let at = find-update ns ns (insert chroot.name chroot) config.namespaces in
    let grows =
      Grows-trans v _ _ _ (add_plain-Grows ns v chroot _)
        (add_aliases-Grows ns v chroot.aliases _) in
    let bound = insert_alias-some v v config.aliases in
    let kept = Grows-some v _ _ v bound.0 grows bound.1 in
    subst (λ x. add ns second x ≡ error chroot_exist) (sym new.1)
      (rw same (ground (arith, at, new.0.0.1, kept, text_beq_iff ns ns)))
