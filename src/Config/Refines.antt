-- ===== src/Config/Refines.antt =====
-- `add` of sbuild/sbuild-chroot-config.cc as an insertion into a map from pairs of a namespace and a
-- name to chroots.
use schroot.Prelude.{
  ◌≡◌, refl, subst, sym, ◌⊎◌, true, ◌&&◌, none, some, Text, text_beq, text_eq, arith, if◌then◌else◌,
}
use schroot.Prelude.Map.{find}
use schroot.Session.Chroot.{Chroot}
use schroot.Config.{
  ChrootConfig, chroot_exist, chroot_notfound, chroots_notfound, namespace_notfound, Result, ok,
  error, full, is_some, find_namespace, add,
}
use schroot.Config.Aliases.{chroot_at, IsNew, add-ok, chroot_at-added}

-- The outcome of an insertion: the chroot is new and is the only change, or there is no such
-- namespace, or the chroot or an alias with its full name is there.
abbrev pub Inserts : Text → Chroot → ChrootConfig → Result ChrootConfig → Type 0
Inserts ns chroot config (ok config') =
    (chroot_at ns chroot.name config ≡ none)
    × ((ns' name : Text)
        → chroot_at ns' name config' ≡ (
            if text_beq ns ns' && text_beq chroot.name name
            then some chroot
            else chroot_at ns' name config))
Inserts ns chroot config (error namespace_notfound) = find ns config.namespaces ≡ none
Inserts ns chroot config (error chroot_exist) =
    (is_some (chroot_at ns chroot.name config) ≡ true)
    ⊎ (is_some (find (full ns chroot.name) config.aliases) ≡ true)
Inserts ns chroot config (error chroot_notfound) = ⊥
Inserts ns chroot config (error chroots_notfound) = ⊥

at_new :
    (ns : Text) (chroot : Chroot) (config : ChrootConfig)
    → IsNew ns chroot config
    → chroot_at ns chroot.name config ≡ none
unfolding chroot_at
at_new ns chroot config ((chroots, at, free), unbound) = ground (arith, at, free)

-- Errors of `add`, by the reason.
outcome :
    (ns : Text) (chroot : Chroot) (config : ChrootConfig) (r : Result ChrootConfig)
    → add ns chroot config ≡ r
    → Inserts ns chroot config r
unfolding add find_namespace chroot_at
outcome ns chroot config (ok config') e =
    let (new, same) = add-ok ns chroot config config' e in
    subst (λ c. Inserts ns chroot config (ok c)) (sym same)
      (at_new ns chroot config new, λ ns' name. chroot_at-added ns ns' name chroot config new)
outcome ns chroot config (error namespace_notfound) e = ground (arith, e)
outcome ns chroot config (error chroot_exist) e = ground (arith, e)
outcome ns chroot config (error chroot_notfound) e = ground (arith, e)
outcome ns chroot config (error chroots_notfound) e = ground (arith, e)

-- Adding a chroot inserts it into the map from namespaces and names to chroots: where it returns the
-- chroot is new and is the only change, and where it throws, the namespace does not exist, or the
-- chroot or an alias with its full name does.
pub add-Inserts :
    (ns : Text) (chroot : Chroot) (config : ChrootConfig)
    → Inserts ns chroot config (add ns chroot config)
add-Inserts ns chroot config = outcome ns chroot config (add ns chroot config) refl
