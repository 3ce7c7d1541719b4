-- ===== src/Definition/Unloadable.antt =====
-- Definitions that the classes do not load: what a ZFS snapshot saves, where it is no session, and a
-- custom chroot that is to have sessions.
use schroot.Prelude.{
  ◌≡◌, refl, ap, ◌∙◌, Bool, true, false, none, some, codes, text_beq, nat_eq, arith,
}
use schroot.Userdata.{Userdata}
use schroot.Keyfile.{Keyfile, error, missing_key, passthrough, check_priority, get_line}
use schroot.Keyfile.Values.{get_value, parse_bool}
use schroot.Definition.{Definition, set_session_cloneable, zfs_snapshot, custom}
use schroot.Definition.Save.{
  get_keyfile, base_entries, type_entries, persona_entries, source_entries, mountable_entries,
  session_entries,
}
use schroot.Definition.Saved.{last_of, saved, AreDotted, get_value-get_keyfile}
use schroot.Definition.Load.Steps.{type_steps}
use schroot.Definition.Load.{run_steps, get_object_value}

dataset_saved :
    (d : Definition) (u : Userdata)
    → d.type ≡ zfs_snapshot
    → d.base.session ≡ none
    → saved d u (codes "zfs-dataset") ≡ none
unfolding saved last_of base_entries type_entries persona_entries source_entries mountable_entries
    session_entries text_beq
dataset_saved d u t e = ground (arith, t, e)

-- The steps of a ZFS snapshot fail where the dataset is missing.
dataset_missing :
    (both : Bool) (kf : Keyfile) (g : Definition)
    → get_value g.base.name (codes "zfs-dataset") kf ≡ none
    → run_steps (type_steps zfs_snapshot false both) kf g
      ≡ error (get_line g.base.name (codes "zfs-dataset") kf) missing_key
unfolding run_steps type_steps get_object_value check_priority
dataset_missing both kf g n = ground (arith, n)

-- What `get_keyfile` writes for a ZFS snapshot that is no session, with its user data under keys with
-- a dot, is never read back: the steps of its class fail, since a key is missing.
pub type_steps-get_keyfile :
    (d g : Definition) (u : Userdata) (both : Bool) (kf : Keyfile)
    → d.type ≡ zfs_snapshot
    → d.base.session ≡ none
    → d.base.userdata ≡ some u
    → AreDotted u.userdata
    → g.base.name ≡ d.base.name
    → run_steps (type_steps zfs_snapshot false both) (get_keyfile d kf) g
      ≡ error (get_line g.base.name (codes "zfs-dataset") (get_keyfile d kf)) missing_key
type_steps-get_keyfile d g u both kf t e has dots same = dataset_missing both (get_keyfile d kf) g (
    ap (λ n. get_value n (codes "zfs-dataset") (get_keyfile d kf)) same
    ∙ get_value-get_keyfile d u (codes "zfs-dataset") kf has dots refl
    ∙ dataset_saved d u t e)

-- A custom chroot that has the session-clonable facet, as every new chroot has it, is not loaded where
-- its key custom-session-cloneable is true: the steps of its class fail with the error of `add_facet`.
pub type_steps-set_session_cloneable :
    (g : Definition) (both : Bool) (kf : Keyfile)
    → get_value g.base.name (codes "custom-session-cloneable") kf ≡ some (codes "true")
    → g.base.session_clonable ≡ true
    → run_steps (type_steps custom false both) kf g
      ≡ error (get_line g.base.name (codes "custom-session-cloneable") kf) passthrough
unfolding run_steps type_steps get_object_value check_priority set_session_cloneable parse_bool
    text_beq
type_steps-set_session_cloneable g both kf e h = ground (arith, e, h)
