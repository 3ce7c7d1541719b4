-- ===== src/Definition/Kept.antt =====
-- What the steps of the class and of the facets keep.
use schroot.Prelude.{◌≡◌, refl, sym, Option, none, some, Text, text_eq, nat_eq, arith, subst}
use schroot.Prelude.Map.{find}
use schroot.Userdata.{Userdata}
use schroot.Keyfile.{names}
use schroot.Session.Chroot.{SessionFacet}
use schroot.Definition.{
  ChrootType, Definition, Mountable, mount_at, plain, directory, custom, file, block_device,
  loopback, lvm_snapshot, zfs_snapshot, btrfs_snapshot,
}
use schroot.Definition.Loaded.{with_class}
use schroot.Definition.Facets.{AreAlike, with_mountable}
use schroot.Definition.FacetSteps.{with_keys, with_session}
use schroot.Definition.Load.Steps.{set_of}

-- The class changes its own members and the device of the facet.
pub with_class-base : (t : ChrootType) (d g : Definition) → (with_class t d g).base ≡ g.base
with_class-base plain d g = refl
with_class-base directory d g = refl
with_class-base custom d g = refl
with_class-base file d g = refl
with_class-base block_device d g = refl
with_class-base loopback d g = refl
with_class-base lvm_snapshot d g = ground arith
with_class-base zfs_snapshot d g = ground arith
with_class-base btrfs_snapshot d g = refl

pub with_class-kept :
    (t : ChrootType) (d g : Definition)
    → ((with_class t d g).source_clonable ≡ g.source_clonable)
      × ((with_class t d g).persona ≡ g.persona)
with_class-kept plain d g = (refl, refl)
with_class-kept directory d g = (refl, refl)
with_class-kept custom d g = (refl, refl)
with_class-kept file d g = (refl, refl)
with_class-kept block_device d g = (refl, refl)
with_class-kept loopback d g = (refl, refl)
with_class-kept lvm_snapshot d g = ground arith
with_class-kept zfs_snapshot d g = ground arith
with_class-kept btrfs_snapshot d g = (refl, refl)

abbrev pub device_at : Text → Option Mountable → Option Mountable
device_at v none = none
device_at v (some m) = some (record m { mount_device = v })

pub mountable-mount_at :
    (v : Text) (g : Definition) → (mount_at v g).mountable ≡ device_at v g.mountable
mountable-mount_at v g = ground arith

pub device_at-AreAlike :
    (v : Text) (o p : Option Mountable) → AreAlike o p → AreAlike o (device_at v p)
device_at-AreAlike v none none a = tt
device_at-AreAlike v (some m) (some n) a = tt
device_at-AreAlike v none (some n) a = absurd a
device_at-AreAlike v (some m) none a = absurd a

pub mount_at-AreAlike :
    (o : Option Mountable) (v : Text) (g : Definition)
    → AreAlike o g.mountable
    → AreAlike o (mount_at v g).mountable
mount_at-AreAlike o v g a =
    subst (AreAlike o) (sym (mountable-mount_at v g)) (device_at-AreAlike v o g.mountable a)

pub with_class-AreAlike :
    (t : ChrootType) (o : Option Mountable) (d g : Definition)
    → AreAlike o g.mountable
    → AreAlike o (with_class t d g).mountable
with_class-AreAlike plain o d g a = a
with_class-AreAlike directory o d g a = a
with_class-AreAlike custom o d g a = a
with_class-AreAlike file o d g a = a
with_class-AreAlike block_device o d g a = a
with_class-AreAlike loopback o d g a = a
with_class-AreAlike lvm_snapshot o d g a =
    mount_at-AreAlike o d.snapshot_device
      (record g { device = d.device; snapshot_device = d.snapshot_device }) a
with_class-AreAlike zfs_snapshot o d g a =
    mount_at-AreAlike o d.clone_name
      (record g { snapshot_name = d.snapshot_name; clone_name = d.clone_name }) a
with_class-AreAlike btrfs_snapshot o d g a = a

-- The user data `w` has the keys that users and root may set as `u` has them.
abbrev pub HasKeys : Userdata → Userdata → Type 0
HasKeys u w =
    (w.user_modifiable_keys ≡ set_of (names u.user_modifiable_keys))
    × (w.root_modifiable_keys ≡ set_of (names u.root_modifiable_keys))

-- The user data `w` has every key of `u`, with its value.
abbrev pub HasData : Userdata → Userdata → Type 0
HasData u w = (k v : Text) → find k u.userdata ≡ some v → find k w.userdata ≡ some v

-- The user data after its keys are set.
abbrev pub keyed : Userdata → Userdata → Userdata
keyed u w = record w {
  user_modifiable_keys = set_of (names u.user_modifiable_keys);
  root_modifiable_keys = set_of (names u.root_modifiable_keys);
}

pub userdata-with_facets :
    (u w : Userdata) (s : SessionFacet) (o : Option Mountable) (g : Definition)
    → g.base.userdata ≡ some w
    → (with_session s (with_mountable o (with_keys u g))).base.userdata ≡ some (keyed u w)
userdata-with_facets u w s none g e = ground (arith, e)
userdata-with_facets u w s (some m) g e = ground (arith, e)

pub name-with_facets :
    (u : Userdata) (s : SessionFacet) (o : Option Mountable) (g : Definition)
    → (with_session s (with_mountable o (with_keys u g))).base.name ≡ g.base.name
name-with_facets u s none g = ground arith
name-with_facets u s (some m) g = ground arith
