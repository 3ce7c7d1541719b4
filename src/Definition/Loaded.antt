-- ===== src/Definition/Loaded.antt =====
-- Loading what a session saves of its class.
use schroot.Prelude.{
  ◌≡◌, refl, ap, ◌∙◌, Bool, true, false, not, ◌&&◌, none, some, Text, codes, text_eq, nat_eq, arith,
  is_empty, All,
}
use schroot.Util.Names.{is_absname}
use schroot.Keyfile.{Keyfile, ok}
use schroot.Keyfile.Values.{get_value, parse_bool}
use schroot.Definition.{
  ChrootType, Definition, plain, directory, custom, file, block_device, loopback, lvm_snapshot,
  zfs_snapshot, btrfs_snapshot, set_directory, set_file, set_location, set_device,
  set_snapshot_device, set_btrfs_snapshot_name, set_clone_name, mount_at,
}
use schroot.Definition.Save.{print_bool}
use schroot.Definition.Load.Steps.{set_to, returned, bool_parsed, type_steps, directory_steps}
use schroot.Definition.Load.{run_steps}
use schroot.Definition.Base.{set_then, skip_then, no_steps, parse_bool-print_bool}
use schroot.Definition.Members.{Reads}
use schroot.Definition.Class.{class_values, absent_keys}

-- The paths that a class saves for a session are absolute.
abbrev pub ArePaths : ChrootType → Definition → Type 0
ArePaths plain d = is_absname d.root_directory ≡ true
ArePaths directory d = is_absname d.root_directory ≡ true
ArePaths custom d = Unit
ArePaths file d =
    (is_absname d.file_name ≡ true)
    × ((not (is_empty d.location) && not (is_absname d.location)) ≡ false)
ArePaths block_device d = is_absname d.device ≡ true
ArePaths loopback d = is_absname d.file_name ≡ true
ArePaths lvm_snapshot d = (is_absname d.device ≡ true) × (is_absname d.snapshot_device ≡ true)
ArePaths zfs_snapshot d = Unit
ArePaths btrfs_snapshot d = is_absname d.snapshot_name ≡ true

-- The chroot `g` with what the class saves of `d`.
abbrev pub with_class : ChrootType → Definition → Definition → Definition
with_class plain d g = record g { root_directory = d.root_directory }
with_class directory d g = record g { root_directory = d.root_directory }
with_class custom d g = record g { purgeable = d.purgeable }
with_class file d g = record g { file_name = d.file_name; location = d.location; repack = d.repack }
with_class block_device d g = record g { device = d.device }
with_class loopback d g = record g { file_name = d.file_name }
with_class lvm_snapshot d g =
    mount_at d.snapshot_device (record g { device = d.device; snapshot_device = d.snapshot_device })
with_class zfs_snapshot d g =
    mount_at d.clone_name (record g { snapshot_name = d.snapshot_name; clone_name = d.clone_name })
with_class btrfs_snapshot d g = record g { snapshot_name = d.snapshot_name }

directory_read :
    (v : Text) (g : Definition)
    → is_absname v ≡ true
    → returned (set_directory v g) ≡ set_to (record g { root_directory = v })
unfolding set_directory
directory_read v g h = ground (arith, h)

file_read :
    (v : Text) (g : Definition)
    → is_absname v ≡ true
    → returned (set_file v g) ≡ set_to (record g { file_name = v })
unfolding set_file
file_read v g h = ground (arith, h)

location_read :
    (v : Text) (g : Definition)
    → (not (is_empty v) && not (is_absname v)) ≡ false
    → returned (set_location v g) ≡ set_to (record g { location = v })
unfolding set_location
location_read v g h = ground (arith, h)

device_read :
    (v : Text) (g : Definition)
    → is_absname v ≡ true
    → returned (set_device v g) ≡ set_to (record g { device = v })
unfolding set_device
device_read v g h = ground (arith, h)

snapshot_device_read :
    (v : Text) (g : Definition)
    → is_absname v ≡ true
    → returned (set_snapshot_device v g) ≡ set_to (mount_at v (record g { snapshot_device = v }))
unfolding set_snapshot_device
snapshot_device_read v g h = ground (arith, h)

btrfs_snapshot_name_read :
    (v : Text) (g : Definition)
    → is_absname v ≡ true
    → returned (set_btrfs_snapshot_name v g) ≡ set_to (record g { snapshot_name = v })
unfolding set_btrfs_snapshot_name
btrfs_snapshot_name_read v g h = ground (arith, h)

bool_read :
    (method : Bool → Definition → Definition) (b : Bool) (g : Definition)
    → bool_parsed (λ v d. some (method v d)) (parse_bool (print_bool b)) g ≡ set_to (method b g)
bool_read method b g =
    ap (λ o. bool_parsed (λ v d. some (method v d)) o g) (parse_bool-print_bool b)

mount_at-base : (v : Text) (g : Definition) → (mount_at v g).base ≡ g.base
mount_at-base v g = ground arith

absent-mount_at :
    (v key : Text) (g : Definition) (kf : Keyfile)
    → get_value g.base.name key kf ≡ none
    → get_value (mount_at v g).base.name key kf ≡ none
absent-mount_at v key g kf n = ap (λ b. get_value b.name key kf) (mount_at-base v g) ∙ n

directory_steps-set :
    (kf : Keyfile) (d g : Definition)
    → get_value g.base.name (codes "directory") kf ≡ some d.root_directory
    → get_value g.base.name (codes "location") kf ≡ none
    → is_absname d.root_directory ≡ true
    → run_steps (directory_steps false) kf g ≡ ok (record g { root_directory = d.root_directory })
unfolding directory_steps
directory_steps-set kf d g e n h =
    set_then _ _ kf g _ _ (λ g. record g { root_directory = d.root_directory }) e
      (λ g. directory_read d.root_directory g h) refl (skip_then _ _ kf _ _ n refl (no_steps kf _))

pub type_steps-set :
    (t : ChrootType) (kf : Keyfile) (d g : Definition)
    → Reads g.base.name kf (class_values t d)
    → All (λ key. get_value g.base.name key kf ≡ none) (absent_keys t)
    → ArePaths t d
    → run_steps (type_steps t true false) kf g ≡ ok (with_class t d g)
unfolding type_steps set_clone_name
type_steps-set plain kf d g (e, _) (n, _) h = directory_steps-set kf d g e n h
type_steps-set directory kf d g (e, _) (n, _) h = directory_steps-set kf d g e n h
type_steps-set custom kf d g (e, _) (n1, (n2, _)) h = skip_then _ _ kf g _ n1 refl (
    set_then _ _ kf _ _ _ (λ g. record g { purgeable = d.purgeable }) e
      (bool_read (λ b g. record g { purgeable = b }) d.purgeable) refl
      (skip_then _ _ kf _ _ n2 refl (no_steps kf _)))
type_steps-set file kf d g (e1, (e2, (e3, _))) n h =
    set_then _ _ kf g _ _ (λ g. record g { file_name = d.file_name }) e1
      (λ g. file_read d.file_name g h.0) refl
      (set_then _ _ kf _ _ _ (λ g. record g { location = d.location }) e2
        (λ g. location_read d.location g h.1) refl
        (set_then _ _ kf _ _ _ (λ g. record g { repack = d.repack }) e3
          (bool_read (λ b g. record g { repack = b }) d.repack) refl (no_steps kf _)))
type_steps-set block_device kf d g (e, _) n h =
    set_then _ _ kf g _ _ (λ g. record g { device = d.device }) e (λ g. device_read d.device g h)
      refl (no_steps kf _)
type_steps-set loopback kf d g (e, _) n h =
    set_then _ _ kf g _ _ (λ g. record g { file_name = d.file_name }) e
      (λ g. file_read d.file_name g h) refl (no_steps kf _)
type_steps-set lvm_snapshot kf d g (e1, (e2, _)) (n, _) h =
    set_then _ _ kf g _ _ (λ g. record g { device = d.device }) e1 (λ g. device_read d.device g h.0)
      refl
      (set_then _ _ kf _ _ _
        (λ g. mount_at d.snapshot_device (record g { snapshot_device = d.snapshot_device })) e2
        (λ g. snapshot_device_read d.snapshot_device g h.1) refl
        (skip_then _ _ kf _ _
          (absent-mount_at d.snapshot_device _
            (record g { device = d.device; snapshot_device = d.snapshot_device }) kf n)
          refl (no_steps kf _)))
type_steps-set zfs_snapshot kf d g (e1, (e2, _)) (n1, (n2, _)) h = skip_then _ _ kf g _ n1 refl (
    set_then _ _ kf _ _ _ (λ g. record g { snapshot_name = d.snapshot_name }) e1 (λ g. refl) refl
      (set_then _ _ kf _ _ _ (λ g. mount_at d.clone_name (record g { clone_name = d.clone_name }))
        e2 (λ g. refl) refl
        (skip_then _ _ kf _ _
          (absent-mount_at d.clone_name _
            (record g { snapshot_name = d.snapshot_name; clone_name = d.clone_name }) kf n2)
          refl (no_steps kf _))))
type_steps-set btrfs_snapshot kf d g (e, _) (n1, (n2, _)) h = skip_then _ _ kf g _ n1 refl (
    skip_then _ _ kf g _ n2 refl (
      set_then _ _ kf g _ _ (λ g. record g { snapshot_name = d.snapshot_name }) e
        (λ g. btrfs_snapshot_name_read d.snapshot_name g h) refl (no_steps kf _)))
