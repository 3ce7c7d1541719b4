-- ===== src/Definition/Class.antt =====
-- What a session saves of its class.
use schroot.Prelude.{
  ◌≡◌, refl, Bool, true, false, none, some, List, [], ◌∷◌, Text, codes, text_beq, text_eq, nat_eq,
  arith, All,
}
use schroot.Userdata.{Userdata}
use schroot.Session.Chroot.{SessionFacet}
use schroot.Definition.{
  ChrootType, Definition, plain, directory, custom, file, block_device, loopback, lvm_snapshot,
  zfs_snapshot, btrfs_snapshot,
}
use schroot.Definition.Save.{
  Entries, print_bool, base_entries, type_entries, persona_entries, source_entries,
  mountable_entries, session_entries,
}
use schroot.Definition.Saved.{last_of, saved}

abbrev pub class_values : ChrootType → Definition → Entries
class_values plain d = (codes "directory", d.root_directory) ∷ []
class_values directory d = (codes "directory", d.root_directory) ∷ []
class_values custom d = (codes "custom-session-purgeable", print_bool d.purgeable) ∷ []
class_values file d =
    (codes "file", d.file_name)
    ∷ (codes "location", d.location)
    ∷ (codes "file-repack", print_bool d.repack)
    ∷ []
class_values block_device d = (codes "device", d.device) ∷ []
class_values loopback d = (codes "file", d.file_name) ∷ []
class_values lvm_snapshot d =
    (codes "device", d.device) ∷ (codes "lvm-snapshot-device", d.snapshot_device) ∷ []
class_values zfs_snapshot d =
    (codes "zfs-snapshot-name", d.snapshot_name) ∷ (codes "zfs-clone-name", d.clone_name) ∷ []
class_values btrfs_snapshot d = (codes "btrfs-snapshot-name", d.snapshot_name) ∷ []

-- The keys of a class that a session does not save.
abbrev pub absent_keys : ChrootType → List Text
absent_keys plain = codes "location" ∷ []
absent_keys directory = codes "location" ∷ []
absent_keys custom = codes "custom-session-cloneable" ∷ codes "custom-source-cloneable" ∷ []
absent_keys file = []
absent_keys block_device = []
absent_keys loopback = []
absent_keys lvm_snapshot = codes "lvm-snapshot-options" ∷ []
absent_keys zfs_snapshot = codes "zfs-dataset" ∷ codes "zfs-snapshot-options" ∷ []
absent_keys btrfs_snapshot = codes "btrfs-source-subvolume" ∷ codes "btrfs-snapshot-directory" ∷ []

-- The classes that have the mountable facet.
abbrev pub is_mountable : ChrootType → Bool
is_mountable block_device = true
is_mountable loopback = true
is_mountable lvm_snapshot = true
is_mountable zfs_snapshot = true
is_mountable _ = false

abbrev pub IsMounted : ChrootType → Definition → Type 0
IsMounted type d = is_mountable type ≡ false → d.mountable ≡ none

pub class_saved :
    (t : ChrootType) (d : Definition) (u : Userdata) (s : SessionFacet)
    → d.type ≡ t
    → d.base.session ≡ some s
    → d.source_clonable ≡ none
    → IsMounted t d
    → All (λ (entry : Text × Text). saved d u entry.0 ≡ some entry.1) (class_values t d)
unfolding saved last_of base_entries type_entries persona_entries source_entries mountable_entries
    session_entries text_beq
class_saved plain d u s t e n m = ground (arith, t, e, n, m refl)
class_saved directory d u s t e n m = ground (arith, t, e, n, m refl)
class_saved custom d u s t e n m = ground (arith, t, e, n, m refl)
class_saved file d u s t e n m = ground (arith, t, e, n, m refl)
class_saved block_device d u s t e n m = ground (arith, t, e, n)
class_saved loopback d u s t e n m = ground (arith, t, e, n)
class_saved lvm_snapshot d u s t e n m = ground (arith, t, e, n)
class_saved zfs_snapshot d u s t e n m = ground (arith, t, e, n)
class_saved btrfs_snapshot d u s t e n m = ground (arith, t, e, n)

pub class_absent :
    (t : ChrootType) (d : Definition) (u : Userdata) (s : SessionFacet)
    → d.type ≡ t
    → d.base.session ≡ some s
    → d.source_clonable ≡ none
    → IsMounted t d
    → All (λ key. saved d u key ≡ none) (absent_keys t)
unfolding saved last_of base_entries type_entries persona_entries source_entries mountable_entries
    session_entries text_beq
class_absent plain d u s t e n m = ground (arith, t, e, n, m refl)
class_absent directory d u s t e n m = ground (arith, t, e, n, m refl)
class_absent custom d u s t e n m = ground (arith, t, e, n, m refl)
class_absent file d u s t e n m = tt
class_absent block_device d u s t e n m = tt
class_absent loopback d u s t e n m = tt
class_absent lvm_snapshot d u s t e n m = ground (arith, t, e, n)
class_absent zfs_snapshot d u s t e n m = ground (arith, t, e, n)
class_absent btrfs_snapshot d u s t e n m = ground (arith, t, e, n)
