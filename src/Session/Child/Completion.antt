-- ===== src/Session/Child/Completion.antt =====
-- When `run_child` of sbuild/sbuild-session.cc gets as far as exec(3).
use schroot.Prelude.{
  ◌≡◌, refl, ap, ◌∙◌, inl, inr, Bool, true, false, not, ◌||◌, List, [], ◌∷◌, Text, nat_eq, text_eq,
  ◌==◌, arith, is_empty, Bool-cases,
}
use schroot.Exception.{Exception, Result, ok, other_error}
use schroot.Environment.{Environment}
use schroot.Session.Chroot.{Chroot}
use schroot.Session.Child.{
  Call, setgid, initgroups, set_persona, chdir_to, chroot_to, setuid, Calls, Kernel, Run, resume,
  ◌>>=◌, ◌>>◌, assert, must, initial_environment, set_personality, drop_root, enter_chroot,
  change_directory, directories, execute, run_program, run_inside, run_child, getcwd,
}
use schroot.Session.Child.Command.{Settings, Program}
use schroot.Session.Child.Confinement.{executed}
use schroot.Session.Child.Shells.{get_command-total}

-- A step that returns, whatever happened before.
abbrev Returns : Run (Unit {0}) → Type 0
Returns m = (h : Calls) → (h1 : Calls) × (m h ≡ (ok tt, h1))

>>-Returns : (m n : Run (Unit {0})) → Returns m → Returns n → Returns (m >> n)
unfolding ◌>>◌
>>-Returns m n r r' h =
    let (h1, e) = r h in let (h2, e') = r' h1 in (h2, ap (resume (λ _. n)) e ∙ e')

assert->> : (b : Bool) (n : Run (Unit {0})) (h : Calls) → b ≡ true → (assert b >> n) h ≡ n h
unfolding ◌>>◌
assert->> b n h e = rw e refl

module _ (k : Kernel) (settings : Settings) (ch : Chroot) where
  -- Only root can become root again.
  abbrev pub granted : Call → Bool
  granted (setuid uid) = not (uid == 0) || settings.authstat.uid == 0
  granted _ = true

  -- A system where every call succeeds that is granted.
  abbrev pub Works : Type 0
  Works = (h : Calls) (call : Call) → k.succeeds h call ≡ granted call

  must-Returns :
      (e : Exception) (call : Call)
      → Works
      → granted call ≡ true
      → Returns (must k settings ch e call)
  must-Returns e call w p h = (call ∷ h, rw (w h call, p) refl)

  set_personality-Returns : Works → Returns (set_personality k settings ch)
  set_personality-Returns w h = elim (Bool-cases k.has_personality) [
    | inl there ↦ rw there (must-Returns other_error set_persona w refl h)
    | inr none' ↦ rw none' (h, refl)
  ]

  drop_root-Returns : Works → Returns (drop_root k settings ch)
  unfolding drop_root
  drop_root-Returns w h = (setuid 0 ∷ h, ground (arith, w h (setuid 0)))

  enter_chroot-Returns : (location : Text) → Works → Returns (enter_chroot k settings ch location)
  unfolding enter_chroot
  enter_chroot-Returns location w = >>-Returns _ _ (must-Returns _ (setgid _) w refl) (
      >>-Returns _ _ (must-Returns _ (initgroups _ _) w refl) (
        >>-Returns _ _ (set_personality-Returns w) (
          >>-Returns _ _ (must-Returns _ (chdir_to location) w refl) (
            >>-Returns _ _ (must-Returns _ (chroot_to location) w refl) (
              >>-Returns _ _ (must-Returns _ (setuid settings.authstat.uid) w (ground arith))
                (drop_root-Returns w))))))

  change_directory-Returns :
      (dirs : List Text) → Works → Returns (change_directory k settings ch dirs)
  unfolding change_directory
  change_directory-Returns [] w h = (h, refl)
  change_directory-Returns (dir ∷ dirs) w h = (chdir_to dir ∷ h, rw (w h (chdir_to dir)) refl)

  execute-runs :
      (program : Program) (h : Calls) → Works → executed (execute k settings ch program h).1 ≡ true
  unfolding execute
  execute-runs program h w = rw (w h) refl

  run_program-runs :
      (env : Environment) (h : Calls)
      → Works
      → k.exists [] ≡ false
      → executed (run_program k settings ch env h).1 ≡ true
  unfolding run_program ◌>>=◌
  run_program-runs env h w z =
      let (program, e) =
        get_command-total k.exists k.search k.is_program settings ch settings.authstat.command env
          z in
      rw e (execute-runs program h w)

  run_inside-runs :
      (cwd : Text) (env : Environment) (h : Calls)
      → Works
      → k.exists [] ≡ false
      → executed (run_inside k settings ch cwd env h).1 ≡ true
  unfolding run_inside ◌>>◌
  run_inside-runs cwd env h w z =
      let (h1, e1) = enter_chroot-Returns (k.get_path ch) w h in
      let (h2, e2) = change_directory-Returns (directories k settings ch cwd env) w h1 in
      rw (e1, e2) (run_program-runs env h2 w z)

  -- The child executes a program where the chroot and the user have names, the back end is
  -- initialised, no file has the empty name, and every system call succeeds but the one by which
  -- another user than root would become root; getcwd(3) may fail.
  pub run_child-executes :
      Works
      → is_empty ch.name ≡ false
      → is_empty settings.authstat.user_name ≡ false
      → k.is_initialised ≡ true
      → k.exists [] ≡ false
      → executed (run_child k settings ch []).1 ≡ true
  unfolding run_child
  run_child-executes w n u i z =
      let env = initial_environment k settings ch in
      let cwd = getcwd k settings ch in
      ap (λ (r : Result (Unit {0}) × Calls). executed r.1)
        (assert->> _ (run_inside k settings ch cwd env) [] (ground (arith, n, u, i)))
      ∙ run_inside-runs cwd env [] w z
