-- ===== src/Session/Child/Shells.antt =====
-- Which shell `get_shell` of sbuild/sbuild-session.cc chooses.
use schroot.Prelude.{
  ◌≡◌, refl, ◌⊎◌, inl, inr, Bool, true, false, Option, none, some, List, [], ◌∷◌, ◌++◌, Text,
  text_beq, arith, contains, text_eq, is_empty, Bool-cases,
}
use schroot.Environment.{Environment, get}
use schroot.Session.Chroot.{Chroot}
use schroot.Session.Child.Command.{
  Settings, Program, env_shells, passwd_shells, push_new, push_found, bin_bash, bin_sh, shell_var,
  get_shells, first_shell, get_shell, get_command, get_login_command, login_shell,
}
use schroot.Util.Path.{basename}

-- The first of the shells that exists, or the last one where none does.
abbrev pub Chosen : (Text → Bool) → List Text → Text → Type 0
Chosen exists [] shell = ⊥
Chosen exists (s ∷ []) shell = shell ≡ s
Chosen exists (s ∷ t ∷ shells) shell =
    ((exists s ≡ true) × (shell ≡ s)) ⊎ ((exists s ≡ false) × Chosen exists (t ∷ shells) shell)

module _ (exists : Text → Bool) where
  first_shell-Chosen :
      (shell s : Text) (shells : List Text)
      → Chosen exists (s ∷ shells) (first_shell exists shell (s ∷ shells))
  unfolding first_shell
  first_shell-Chosen shell s [] = ground arith
  first_shell-Chosen shell s (t ∷ shells) = ground (arith, first_shell-Chosen s t shells)

  -- A list whose last text is not empty.
  abbrev Ends : List Text → Type 0
  Ends [] = ⊥
  Ends (s ∷ []) = is_empty s ≡ false
  Ends (s ∷ t ∷ shells) = Ends (t ∷ shells)

  Ends-append : (shells : List Text) (s : Text) → is_empty s ≡ false → Ends (shells ++ s ∷ [])
  Ends-append [] s n = n
  Ends-append (a ∷ []) s n = n
  Ends-append (a ∷ b ∷ shells) s n = Ends-append (b ∷ shells) s n

  first_shell-ne_nil :
      (shell : Text) (shells : List Text)
      → exists [] ≡ false
      → Ends shells
      → is_empty (first_shell exists shell shells) ≡ false
  unfolding first_shell
  first_shell-ne_nil shell [] z n = absurd n
  first_shell-ne_nil shell ([] ∷ []) z n = cc
  first_shell-ne_nil shell ((c ∷ s) ∷ []) z n = ground arith
  first_shell-ne_nil shell ([] ∷ t ∷ shells) z n =
      ground (arith, first_shell-ne_nil [] (t ∷ shells) z n)
  first_shell-ne_nil shell ((c ∷ s) ∷ t ∷ shells) z n =
      ground (arith, first_shell-ne_nil (c ∷ s) (t ∷ shells) z n)

  push_new-Ends :
      (shells : List Text) (s : Text) → is_empty s ≡ false → Ends shells → Ends (push_new shells s)
  unfolding push_new
  push_new-Ends shells s n e = elim (Bool-cases (contains shells s)) [
    | inl there ↦ rw there e
    | inr new ↦ rw new (Ends-append shells s n)
  ]

  -- The shells of the environment, at most one, and the shell /bin/bash.
  found-Ends : (o : Option Text) → Ends (push_new (push_found [] o) bin_bash)
  unfolding push_new text_beq
  found-Ends none = refl
  found-Ends (some []) = refl
  found-Ends (some (c ∷ s)) = ground arith

  env_Ends : (settings : Settings) (ch : Chroot) → Ends (push_new (env_shells settings ch) bin_bash)
  env_Ends settings ch = elim (Bool-cases settings.preserve_environment) [
    | inl kept ↦ rw kept (found-Ends (get shell_var settings.complete_environment))
    | inr clean ↦ rw clean (found-Ends none)
  ]

  passwd-Ends :
      (settings : Settings) (ch : Chroot) → Ends (push_new (passwd_shells settings ch) bin_bash)
  passwd-Ends settings ch = elim (Bool-cases (is_empty settings.authstat.shell)) [
    | inl e ↦ rw e (env_Ends settings ch)
    | inr n ↦ rw n (
        push_new-Ends _ bin_bash refl
          (Ends-append (env_shells settings ch) settings.authstat.shell n))
  ]

  get_shells-Ends : (settings : Settings) (ch : Chroot) → Ends (get_shells settings ch)
  unfolding get_shells
  get_shells-Ends settings ch = elim (Bool-cases (is_empty settings.shell)) [
    | inr n ↦ rw n n
    | inl e ↦ elim (Bool-cases (is_empty ch.default_shell)) [
      | inr n ↦ rw (e, n) n
      | inl e' ↦ rw (e, e') (push_new-Ends _ bin_sh refl (passwd-Ends settings ch))
    ]
  ]

  Ends-Chosen :
      (shells : List Text) → Ends shells → Chosen exists shells (first_shell exists [] shells)
  Ends-Chosen [] n = absurd n
  Ends-Chosen (s ∷ shells) n = first_shell-Chosen [] s shells

  -- The shell is the first of `get_shells` that exists, or the last one where none does, and where
  -- no file has the empty name it is not empty, whatever SHELL says.
  pub get_shell_lem :
      (search : Text → Text → Bool) (is_program : Text → Bool) (settings : Settings) (ch : Chroot)
      → exists [] ≡ false
      → Chosen exists (get_shells settings ch) (get_shell search exists is_program settings ch)
        × (is_empty (get_shell search exists is_program settings ch) ≡ false)
  unfolding get_shell
  get_shell_lem search is_program settings ch z = (
    Ends-Chosen (get_shells settings ch) (get_shells-Ends settings ch),
    first_shell-ne_nil [] (get_shells settings ch) z (get_shells-Ends settings ch),
  )

  basename-some :
      (name : Text) → is_empty name ≡ false → (base : Text) × (basename name ≡ some base)
  unfolding basename
  basename-some [] n = cc
  basename-some (c ∷ name) n = (_, refl)

  get_login_command-total :
      (search : Text → Text → Bool) (is_program : Text → Bool) (settings : Settings) (ch : Chroot)
      (env : Environment)
      → exists [] ≡ false
      → (program : Program) × (get_login_command search exists is_program settings ch env
          ≡ some program)
  unfolding get_login_command
  get_login_command-total search is_program settings ch env z =
      let (base, b) =
        basename-some (get_shell search exists is_program settings ch)
          (get_shell_lem search is_program settings ch z).1 in
      elim (Bool-cases (login_shell search exists is_program settings ch)) [
        | inl login ↦ rw (login, b) (_, refl)
        | inr plain ↦ rw plain (_, refl)
      ]

  -- A command, or a login shell, always has a program: `basename` is not asked for an empty name.
  pub get_command-total :
      (search : Text → Text → Bool) (is_program : Text → Bool) (settings : Settings) (ch : Chroot)
      (command : List Text) (env : Environment)
      → exists [] ≡ false
      → (program : Program) × (get_command search exists is_program settings ch command env
          ≡ some program)
  unfolding get_command
  get_command-total search is_program settings ch [] env z =
      get_login_command-total search is_program settings ch env z
  get_command-total search is_program settings ch (name ∷ arguments) env z =
      elim (Bool-cases (is_empty name)) [
        | inl e ↦ rw e (get_login_command-total search is_program settings ch env z)
        | inr n ↦ rw n (_, refl)
      ]
