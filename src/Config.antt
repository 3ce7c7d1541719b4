-- ===== src/Config.antt =====
-- sbuild/sbuild-chroot-config.cc: the chroots that are configured, by namespace, and their aliases.
-- A null `chroot::ptr` is `none`.
pub mod Aliases
pub mod Lookup
pub mod Loading
pub mod Validate
pub mod Refines
use schroot.Prelude.{
  ℕ, Bool, true, false, not, ◌&&◌, ◌||◌, Option, none, some, List, [], ◌∷◌, ◌++◌, Text, codes,
  text_beq, text_eq, nat_eq, ◌==◌, is_empty, if◌then◌else◌,
}
use schroot.Prelude.Map.{Map, find, insert, update}
use schroot.Util.Split.{Found, find_first, drop}
use schroot.Session.Chroot.{Chroot}

-- `chroot_config::error_code`, of the errors that these methods throw
pub data Code : Type 0 where
  chroot_exist chroot_notfound chroots_notfound namespace_notfound : Code

pub data Result {ℓ} (A : Type ℓ) : Type ℓ where
  ok : A → Result A
  error : Code → Result A

pub record ChrootConfig : Type 0 where
  pub namespaces : Map (Map Chroot)
  pub aliases : Map Text

abbrev pub chroot_ns : Text
chroot_ns = codes "chroot"

abbrev pub session_ns : Text
session_ns = codes "session"

abbrev pub source_ns : Text
source_ns = codes "source"

abbrev pub separator : ℕ
separator = b':'

abbrev pub full : Text → Text → Text
full chroot_namespace name = chroot_namespace ++ separator ∷ name

unfoldable pub new_config : ChrootConfig
new_config = record {
  namespaces = (chroot_ns, []) ∷ (session_ns, []) ∷ (source_ns, []) ∷ [];
  aliases = [];
}

abbrev pub is_some {ℓ} : {A : Type ℓ} → Option A → Bool
is_some none = false
is_some (some a) = true

-- `insert` of a pair, and whether it was inserted
unfoldable pub insert_alias : Text → Text → Map Text → Map Text
insert_alias k v aliases = if is_some (find k aliases) then aliases else insert k v aliases

-- A warning is logged for an alias that exists, unless what is found under its bare name is the
-- chroot.
unfoldable pub warns : Text → Text → Text → Map Text → Bool
warns chroot_namespace fullname alias aliases =
    is_some (find (full chroot_namespace alias) aliases)
    && elim (find alias aliases) [ none ↦ true | some dup ↦ not (fullname == alias) ]

-- The aliases of a chroot, and of a source chroot for compatibility.
unfoldable pub add_alias : Text → Text → Text → Map Text → Map Text
add_alias chroot_namespace fullname alias aliases =
    let named = insert_alias (full chroot_namespace alias) fullname aliases in
    if chroot_namespace == source_ns
    then insert_alias (full chroot_ns (alias ++ codes "-source")) fullname named
    else named

unfoldable pub add_aliases : Text → Text → List Text → Map Text → Map Text
add_aliases chroot_namespace fullname [] aliases = aliases
add_aliases chroot_namespace fullname (alias ∷ names) aliases =
    add_aliases chroot_namespace fullname names (add_alias chroot_namespace fullname alias aliases)

-- A plain chroot is found as a session too.
unfoldable pub add_plain : Text → Text → Chroot → Map Text → Map Text
add_plain chroot_namespace fullname chroot aliases =
    if chroot_namespace == chroot_ns && chroot.is_plain
    then insert_alias (full session_ns chroot.name) fullname aliases
    else aliases

unfoldable pub find_namespace : Text → ChrootConfig → Result (Map Chroot)
find_namespace chroot_namespace config = elim (find chroot_namespace config.namespaces) [
  | none ↦ error namespace_notfound
  | some chroots ↦ ok chroots
]

-- `add` of a chroot; the keyfile only words the errors.
unfoldable pub add : Text → Chroot → ChrootConfig → Result ChrootConfig
add chroot_namespace chroot config =
    let fullname = full chroot_namespace chroot.name in
    elim (find_namespace chroot_namespace config) [
      | error e ↦ error e
      | ok chroots ↦
          if not (is_some (find chroot.name chroots))
            && not (is_some (find fullname config.aliases))
          then ok (record {
            namespaces = update chroot_namespace (insert chroot.name chroot) config.namespaces;
            aliases = add_aliases chroot_namespace fullname chroot.aliases (
                add_plain chroot_namespace fullname chroot
                  (insert_alias fullname fullname config.aliases));
          })
          else error chroot_exist
    ]

-- The namespace, empty if there is none, and the name.
unfoldable pub get_namespace : Text → Text × Text
unfolding find_first
get_namespace name = elim (find_first (λ c. c == separator) name) [
  | none ↦ ([], name)
  | some f ↦ (f.before, drop 1 f.at)
]

unfoldable pub find_chroot_in_namespace : Text → Text → ChrootConfig → Result (Option Chroot)
find_chroot_in_namespace chroot_namespace name config =
    elim (find_namespace chroot_namespace config) [
      | error e ↦ error e
      | ok chroots ↦ ok (find name chroots)
    ]

abbrev pub or_default : Text → Text → Text
or_default hint found =
    if not (is_empty found) then found else if not (is_empty hint) then hint else chroot_ns

unfoldable pub find_chroot : Text → Text → ChrootConfig → Result (Option Chroot)
find_chroot namespace_hint name config =
    let found = get_namespace name in
    find_chroot_in_namespace (or_default namespace_hint found.0) found.1 config

abbrev pub alias_key : Text → Text → Text
alias_key namespace_hint name =
    let found = get_namespace name in full (or_default namespace_hint found.0) found.1

unfoldable pub find_alias : Text → Text → ChrootConfig → Result (Option Chroot)
find_alias namespace_hint name config = elim (find (alias_key namespace_hint name) config.aliases) [
  | none ↦ find_chroot namespace_hint name config
  | some fullname ↦ find_chroot namespace_hint fullname config
]

unfoldable pub lookup_alias : Text → Text → ChrootConfig → Text
lookup_alias namespace_hint name config =
    elim (find (alias_key namespace_hint name) config.aliases) [
      | none ↦ []
      | some fullname ↦ fullname
    ]

-- The loop of `validate_chroots`: the names that were not found, and the chroots.
unfoldable pub validate_loop :
    Text → List Text → List Text → Map Chroot → ChrootConfig → Result (List Text × Map Chroot)
validate_loop namespace_hint [] bad validated config = ok (bad, validated)
validate_loop namespace_hint (name ∷ names) bad validated config =
    elim (find_alias namespace_hint name config) [
      | error e ↦ error e
      | ok none ↦ validate_loop namespace_hint names (bad ++ name ∷ []) validated config
      | ok (some chroot) ↦
          validate_loop namespace_hint names bad (insert name chroot validated) config
    ]

abbrev pub accept : Result (List Text × Map Chroot) → Result (Map Chroot)
accept (error e) = error e
accept (ok ([], validated)) = ok validated
accept (ok (name ∷ [], validated)) = error chroot_notfound
accept (ok (name ∷ second ∷ names, validated)) = error chroots_notfound

unfoldable pub validate_chroots : Text → List Text → ChrootConfig → Result (Map Chroot)
validate_chroots namespace_hint names config =
    accept (validate_loop namespace_hint names [] [] config)
