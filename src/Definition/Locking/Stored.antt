-- ===== src/Definition/Locking/Stored.antt =====
-- The file of a session, from its start to its loading.
use schroot.Prelude.{
  ℕ, ◌≡◌, refl, ap, sym, ◌∙◌, Bool, true, false, Option, none, some, [], Text, all,
}
use schroot.Prelude.Map.{find}
use schroot.Userdata.{Userdata}
use schroot.Keyfile.{Keyfile, ok}
use schroot.Keyfile.Parser.{read}
use schroot.Keyfile.Printer.{print}
use schroot.Keyfile.RoundTrip.{read-print}
use schroot.Session.Chroot.{SessionFacet, setup_start}
use schroot.Definition.{Definition, ChrootType, with_userdata}
use schroot.Definition.Save.{entries, get_keyfile}
use schroot.Definition.Load.{set_keyfile}
use schroot.Definition.Class.{IsMounted}
use schroot.Definition.Base.{IsLoadable}
use schroot.Definition.Profile.{IsConfigured}
use schroot.Definition.Loaded.{ArePaths}
use schroot.Definition.Facets.{IsFaceted}
use schroot.Definition.Kept.{HasKeys, HasData}
use schroot.Definition.SavedData.{data_saved}
use schroot.Definition.Restored.{IsRestorable}
use schroot.Definition.Reload.{IsSession, get_keyfile-IsSavedIn}
use schroot.Definition.Whole.{IsTarget, reloaded, set_keyfile-saved}
use schroot.Definition.Locking.{LockingError, Disk, Files, Locked, session_file, setup_lock}
use schroot.Definition.Locking.Effects.{
  Effect, kept, created, removed, refused, left_empty, left_whole, is_plain,
}
use schroot.Definition.Locking.Laws.{setup_lock-Effect}
use schroot.Definition.Locking.Printed.{
  is_group_name, is_line, get_keyfile-IsPrintable, get_value-content,
}

Effect-made :
    (text : Text) (e : Option LockingError) (before after : Option Text)
    → Effect true false text e before after
    → e ≡ none
    → after ≡ some text
Effect-made text e before after (kept b nc nr) h = cc
Effect-made text e before after (created ch) h = refl
Effect-made text e before after (removed b rh) h = cc
Effect-made text e before after (refused x b not_lock) h = cc
Effect-made text e before after (left_empty ch) h = cc
Effect-made text e before after (left_whole ch) h = cc

module _ (regex_search : Text → Text → Bool) (is_regex : Text → Bool) where
  -- The start of a session, of a class that is not plain, that returns has written a file that is
  -- read without an error, and set_keyfile of what is read returns and gives a chroot f of the
  -- name, type and facets of the session all that the session saves of its members, of its class
  -- and of its facets, with every key of its user data and with the same keys that users and root
  -- may set. The name, the keys and the
  -- values of the session d are of a form that can be printed and read; and for d and f the
  -- conditions are those of set_keyfile after get_keyfile: d is no source, has user data whose
  -- keys have a dot, has a profile or a script configuration and not both, has the mountable facet
  -- only in a class of devices, and the setters accept what it saves; the keys of its user data
  -- are valid and set different variables, and each is set in f already (and d has no script
  -- configuration) or its variable is free in f; the user data of f has the keys of the empty profile, and f has no script configuration and the personality undefined.
  pub setup_lock-set_keyfile :
      (disk : Disk) (t : ChrootType) (status : ℕ) (files files' : Files) (d f : Definition)
      (u : Userdata) (s sf : SessionFacet)
      → is_plain t ≡ false
      → setup_lock disk t setup_start true status d files ≡ (none, files')
      → is_group_name d.base.name ≡ true
      → all is_line (entries d) ≡ true
      → IsSession d u s
      → IsMounted d.type d
      → (target : IsTarget d f sf) → IsConfigured d
      → IsLoadable regex_search is_regex d.base
      → ArePaths d.type d
      → IsFaceted d u s
      → IsRestorable regex_search d u target.fresh.userdata
      → (text : Text) × (kf : Keyfile) × (u1 : Userdata) × (u2 : Userdata) × (find
            (session_file disk d)
            files'
          ≡ some text)
        × (read text [] ≡ ok kf)
        × (set_keyfile regex_search is_regex kf f ≡ ok (with_userdata (reloaded d u s f u1) u2))
        × HasKeys u u2
        × HasData u u2
  setup_lock-set_keyfile disk t status files files' d f u s sf h starts n lines i mount target c l
        paths faceted restorable =
      let text = print (get_keyfile d []) in
      let stored : find (session_file disk d) files' ≡ some text =
        ap (λ (x : Locked). find (session_file disk d) x.1) (sym starts)
        ∙ Effect-made _ _ _ _ (setup_lock-Effect disk d t setup_start true status files h).0
            (ap (λ (x : Locked). x.0) starts) in
      let (sorted, printable) = get_keyfile-IsPrintable d n lines in
      let (kf, reads, says) = read-print (get_keyfile d []) sorted printable in
      let (u1, (u2, (sets, keys, restored))) =
        set_keyfile-saved regex_search is_regex d f u s sf kf i
          (λ k dotless.
            get_value-content d.base.name k kf (get_keyfile d []) says
            ∙ get_keyfile-IsSavedIn d u s [] i k dotless)
          mount target c l paths faceted restorable
          (λ k dot.
            get_value-content d.base.name k kf (get_keyfile d []) says
            ∙ data_saved d u k [] i.userdata restorable.sorted dot) in
      (text, kf, u1, u2, stored, reads, sets, keys, restored)
