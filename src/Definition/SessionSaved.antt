-- ===== src/Definition/SessionSaved.antt =====
-- What a session saves of its class and its facets.
use schroot.Prelude.{
  ◌≡◌, refl, ◌∙◌, false, not, Option, none, some, List, [], ◌∷◌, Text, codes, text_beq, text_eq,
  nat_eq, ◌==◌, contains, arith, if◌then◌else◌, All,
}
use schroot.Userdata.{Userdata}
use schroot.Keyfile.{Keyfile}
use schroot.Keyfile.Values.{get_value}
use schroot.Session.Chroot.{SessionFacet}
use schroot.Definition.{
  ChrootType, Definition, Mountable, plain, directory, custom, file, block_device, loopback,
  lvm_snapshot, zfs_snapshot, btrfs_snapshot,
}
use schroot.Definition.Save.{
  Entries, base_entries, type_entries, persona_entries, source_entries, mountable_entries,
  session_entries,
}
use schroot.Definition.Saved.{last_of, saved}
use schroot.Definition.Class.{class_values, absent_keys}
use schroot.Definition.Facets.{all_mountable_values}
use schroot.Definition.FacetSteps.{userdata_values, session_values}
use schroot.Definition.Reload.{IsSavedIn, AreDotless}

pub persona_saved :
    (d : Definition) (u : Userdata)
    → d.source_clonable ≡ none
    → saved d u (codes "personality")
      ≡ (if not (d.persona == codes "undefined") then some d.persona else none)
unfolding saved last_of base_entries type_entries persona_entries source_entries mountable_entries
    session_entries text_beq
persona_saved d u n = ground (arith, n)

-- What a session saves of some entries.
abbrev pub AreSaved : Definition → Userdata → Entries → Type 0
AreSaved d u = All (λ (entry : Text × Text). saved d u entry.0 ≡ some entry.1)

pub session_saved :
    (d : Definition) (u : Userdata) (s : SessionFacet)
    → d.base.session ≡ some s
    → AreSaved d u (session_values s)
unfolding saved last_of session_entries text_beq
session_saved d u s e = ground (arith, e)

pub userdata_saved :
    (d : Definition) (u : Userdata) → d.source_clonable ≡ none → AreSaved d u (userdata_values u)
unfolding saved last_of base_entries type_entries persona_entries source_entries mountable_entries
    session_entries text_beq
userdata_saved d u n = ground (arith, n)

pub mountable_saved :
    (d : Definition) (u : Userdata) (s : SessionFacet) (o : Option Mountable)
    → d.mountable ≡ o
    → d.base.session ≡ some s
    → AreSaved d u (all_mountable_values o)
unfolding saved last_of mountable_entries session_entries text_beq
mountable_saved d u s none same e = tt
mountable_saved d u s (some m) same e = ground (arith, same, e)

pub mountable-AreDotless : (o : Option Mountable) → AreDotless (all_mountable_values o)
mountable-AreDotless none = tt
mountable-AreDotless (some m) = (refl, (refl, (refl, tt)))

pub class-AreDotless : (t : ChrootType) (d : Definition) → AreDotless (class_values t d)
class-AreDotless plain d = (refl, tt)
class-AreDotless directory d = (refl, tt)
class-AreDotless custom d = (refl, tt)
class-AreDotless file d = (refl, (refl, (refl, tt)))
class-AreDotless block_device d = (refl, tt)
class-AreDotless loopback d = (refl, tt)
class-AreDotless lvm_snapshot d = (refl, (refl, tt))
class-AreDotless zfs_snapshot d = (refl, (refl, tt))
class-AreDotless btrfs_snapshot d = (refl, tt)

-- The values that a session does not save.
pub reads_absent :
    (keys : List Text) (d : Definition) (u : Userdata) (out : Keyfile)
    → IsSavedIn d u out
    → All (λ key. contains key b'.' ≡ false) keys
    → All (λ key. saved d u key ≡ none) keys
    → All (λ key. get_value d.base.name key out ≡ none) keys
reads_absent [] d u out i dotless e = tt
reads_absent (k ∷ keys) d u out i dotless e =
    (i k dotless.0 ∙ e.0, reads_absent keys d u out i dotless.1 e.1)

pub absent_keys-dotless : (t : ChrootType) → All (λ key. contains key b'.' ≡ false) (absent_keys t)
absent_keys-dotless plain = (refl, tt)
absent_keys-dotless directory = (refl, tt)
absent_keys-dotless custom = (refl, (refl, tt))
absent_keys-dotless file = tt
absent_keys-dotless block_device = tt
absent_keys-dotless loopback = tt
absent_keys-dotless lvm_snapshot = (refl, tt)
absent_keys-dotless zfs_snapshot = (refl, (refl, tt))
absent_keys-dotless btrfs_snapshot = (refl, (refl, tt))
