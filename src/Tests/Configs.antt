-- ===== src/Tests/Configs.antt =====
-- The theorems of the chroot configuration at concrete inputs.
use schroot.Prelude.{◌≡◌, refl, some, [], ◌∷◌, Text, codes, text_beq, text_ltb, text_eq, nat_eq}
use schroot.Prelude.Map.{find, insert}
use schroot.Session.Chroot.{Chroot}
use schroot.Config.{
  ChrootConfig, ok, new_config, add, find_alias, find_namespace, chroot_ns, insert_alias, add_alias,
  add_aliases, add_plain, full, get_namespace,
}
use schroot.Config.Aliases.{added}
use schroot.Config.Loading.{Loaded, start, step, find_alias-Loaded, find_alias-add}
use schroot.Config.Refines.{Inserts, add-Inserts}
use schroot.Tests.Fixture.{chroot_for}

abbrev unstable : Text
unstable = codes "unstable"

abbrev sid : Chroot
sid = record (chroot_for [] []) { aliases = unstable ∷ [] }

abbrev loaded : ChrootConfig
loaded = added chroot_ns sid new_config

new_config-add : add chroot_ns sid new_config ≡ ok loaded
unfolding add new_config find_namespace find text_beq
new_config-add = refl

loaded_once : Loaded loaded
loaded_once = step chroot_ns sid new_config loaded start new_config-add

find_alias-Loaded_example : (chroot : Chroot) × (find_alias [] unstable loaded ≡ ok (some chroot))
unfolding add_aliases add_alias add_plain insert_alias find insert text_beq text_ltb new_config
    get_namespace
find_alias-Loaded_example =
    find_alias-Loaded [] unstable (full chroot_ns sid.name) loaded loaded_once refl

find_alias-add_example : find_alias chroot_ns unstable loaded ≡ ok (some sid)
unfolding new_config find text_beq
find_alias-add_example =
    find_alias-add chroot_ns unstable sid new_config loaded start new_config-add refl refl
      (refl, (refl, (refl, (refl, (refl, (refl, (refl, (refl, tt))))))))

add-Inserts_example : Inserts chroot_ns sid new_config (add chroot_ns sid new_config)
add-Inserts_example = add-Inserts chroot_ns sid new_config
