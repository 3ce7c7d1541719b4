-- ===== src/Session/Child/Confinement.antt =====
-- What `run_child` of sbuild/sbuild-session.cc has given up when it executes a program.
use schroot.Prelude.{
  ◌≡◌, refl, ap, sym, subst, ◌∙◌, ◌⊎◌, Bool, true, false, Option, none, some, List, [], ◌∷◌, ◌++◌,
  Text, codes, arith, any, nat_eq, is_empty, if◌then◌else◌,
}
use schroot.Exception.{Exception, Result, ok, throw, assertion}
use schroot.Environment.{Environment, get}
use schroot.Session.Chroot.{Chroot}
use schroot.Session.Child.Command.{
  Settings, Program, push_new, push_found, slash, get_login_directories, get_command_directories,
  get_command,
}
use schroot.Session.Child.{
  Call, setgid, initgroups, set_persona, chdir_to, chroot_to, setuid, exec_file, Calls, Kernel, Run,
  resume, ◌>>=◌, ◌>>◌, require, assert, drop_root, enter_chroot, change_directory, execute,
  run_program, run_inside, run_child, getcwd, directories, initial_environment, add_variables,
  final_file,
}

abbrev pub is_exec : Call → Bool
is_exec (exec_file file command env) = true
is_exec _ = false

-- Whether exec(3) was called.
abbrev pub executed : Calls → Bool
executed h = any is_exec h

-- A step that calls no exec(3).
abbrev Plain {ℓ} : {A : Type ℓ} → Run A → Type 0
Plain m = (h : Calls) → executed (m h).1 ≡ executed h

resume-executed {ℓ κ} :
    {A : Type ℓ} {B : Type κ} (f : A → Run B) (r : Result A × Calls)
    → executed r.1 ≡ false
    → executed (resume f r).1 ≡ true
    → (a : A) × (h1 : Calls) × (r ≡ (ok a, h1))
      × (executed h1 ≡ false)
      × (executed (f a h1).1 ≡ true)
      × (resume f r ≡ f a h1)
resume-executed f (ok a, h1) e x = (a, h1, refl, e, x, refl)
resume-executed f (throw t, h1) e x = cc

-- Where exec(3) is called after a plain step, the step has returned.
>>=-executed {ℓ κ} :
    {A : Type ℓ} {B : Type κ} (m : Run A) (f : A → Run B) (h : Calls)
    → Plain m
    → executed h ≡ false
    → executed ((m >>= f) h).1 ≡ true
    → (a : A) × (h1 : Calls) × (m h ≡ (ok a, h1))
      × (executed h1 ≡ false)
      × (executed (f a h1).1 ≡ true)
      × ((m >>= f) h ≡ f a h1)
unfolding ◌>>=◌
>>=-executed m f h p e x = resume-executed f (m h) (p h ∙ e) x

>>-executed {ℓ κ} :
    {A : Type ℓ} {B : Type κ} (m : Run A) (n : Run B) (h : Calls)
    → Plain m
    → executed h ≡ false
    → executed ((m >> n) h).1 ≡ true
    → (a : A) × (h1 : Calls) × (m h ≡ (ok a, h1))
      × (executed h1 ≡ false)
      × (executed (n h1).1 ≡ true)
      × ((m >> n) h ≡ n h1)
unfolding ◌>>◌
>>-executed m n h p e x = resume-executed (λ _. n) (m h) (p h ∙ e) x

assert-Plain : (b : Bool) → Plain (assert b)
assert-Plain true h = refl
assert-Plain false h = refl

assert-ok : (b : Bool) (h h' : Calls) → assert b h ≡ (ok tt, h') → h' ≡ h
assert-ok true h h' e = sym (ap (λ (r : Result (Unit {0}) × Calls). r.1) e)
assert-ok false h h' e = cc

require-ok :
    {A : Type 0} (o : Option A) (t : Exception) (a : A) (h h' : Calls)
    → require o t h ≡ (ok a, h')
    → (o ≡ some a) × (h' ≡ h)
require-ok none t a h h' e = cc
require-ok (some b) t a h h' e = (cc, sym (ap (λ (r : Result _ × Calls). r.1) e))

require-Plain {ℓ} : {A : Type ℓ} (o : Option A) (e : Exception) → Plain (require o e)
require-Plain none e h = refl
require-Plain (some a) e h = refl

-- Every call of `enter_chroot` succeeded, but for the attempt to become root again, which failed
-- unless the user is root.
abbrev pub Entered : Kernel → Settings → Text → Calls → Calls → Type 0
Entered k settings location h h' =
    let auth = settings.authstat in
    let grouped = setgid auth.gid ∷ h in
    let named = initgroups auth.user_name auth.gid ∷ grouped in
    let personal = if k.has_personality then set_persona ∷ named else named in
    let moved = chdir_to location ∷ personal in
    let rooted = chroot_to location ∷ moved in
    let dropped = setuid auth.uid ∷ rooted in
    (h' ≡ setuid 0 ∷ dropped)
    × (k.succeeds h (setgid auth.gid) ≡ true)
    × (k.succeeds grouped (initgroups auth.user_name auth.gid) ≡ true)
    × (k.succeeds personal (chdir_to location) ≡ true)
    × (k.succeeds moved (chroot_to location) ≡ true)
    × (k.succeeds rooted (setuid auth.uid) ≡ true)
    × ((k.succeeds dropped (setuid 0) ≡ false) ⊎ (auth.uid ≡ 0))

-- The first of the directories that can be entered was entered.
abbrev pub Moved : Kernel → List Text → Calls → Calls → Type 0
Moved k [] h h' = ⊥
Moved k (dir ∷ dirs) h h' =
    ((k.succeeds h (chdir_to dir) ≡ true) × (h' ≡ chdir_to dir ∷ h))
    ⊎ ((k.succeeds h (chdir_to dir) ≡ false) × Moved k dirs (chdir_to dir ∷ h) h')

module _ (k : Kernel) (settings : Settings) (ch : Chroot) where
  enter_chroot-Plain : (location : Text) → Plain (enter_chroot k settings ch location)
  unfolding enter_chroot ◌>>◌ drop_root
  enter_chroot-Plain location h = ground arith

  change_directory-Plain : (dirs : List Text) → Plain (change_directory k settings ch dirs)
  unfolding change_directory
  change_directory-Plain [] h = refl
  change_directory-Plain (dir ∷ dirs) h =
      ground (arith, change_directory-Plain dirs (chdir_to dir ∷ h))

  enter_chroot-ok :
      (location : Text) (h h' : Calls)
      → enter_chroot k settings ch location h ≡ (ok tt, h')
      → Entered k settings location h h'
  unfolding enter_chroot ◌>>◌ drop_root
  enter_chroot-ok location h h' e = ground arith

  change_directory-ok :
      (dir : Text) (dirs : List Text) (h h' : Calls)
      → change_directory k settings ch (dir ∷ dirs) h ≡ (ok tt, h')
      → Moved k (dir ∷ dirs) h h'
  unfolding change_directory
  change_directory-ok dir [] h h' e = ground arith
  change_directory-ok dir (next ∷ dirs) h h' e =
      ground (arith, change_directory-ok next dirs (chdir_to dir ∷ h) h')

  push_new-ne_nil :
      (ret : List Text) (text : Text) → is_empty ret ≡ false → is_empty (push_new ret text) ≡ false
  unfolding push_new
  push_new-ne_nil [] text e = cc
  push_new-ne_nil (d ∷ ret) text e = ground arith

  push_found-ne_nil :
      (ret : List Text) (o : Option Text)
      → is_empty ret ≡ false
      → is_empty (push_found ret o) ≡ false
  push_found-ne_nil ret none e = e
  push_found-ne_nil ret (some text) e = push_new-ne_nil ret text e

  directories-ne_nil :
      (cwd : Text) (env : Environment) → is_empty (directories k settings ch cwd env) ≡ false
  unfolding get_login_directories get_command_directories
  directories-ne_nil cwd env =
      let first = push_found (cwd ∷ []) (get (codes "HOME") env) in
      let second = push_new first settings.authstat.home in
      ground (
        arith,
        push_found-ne_nil (cwd ∷ []) (get (codes "HOME") env),
        push_new-ne_nil first settings.authstat.home,
        push_new-ne_nil second slash,
      )

  some_directory :
      (dirs : List Text) (h h' : Calls)
      → is_empty dirs ≡ false
      → change_directory k settings ch dirs h ≡ (ok tt, h')
      → Moved k dirs h h'
  some_directory [] h h' n e = cc
  some_directory (dir ∷ dirs) h h' n e = change_directory-ok dir dirs h h' e

  directories-ok :
      (cwd : Text) (env : Environment) (h h' : Calls)
      → change_directory k settings ch (directories k settings ch cwd env) h ≡ (ok tt, h')
      → Moved k (directories k settings ch cwd env) h h'
  directories-ok cwd env h h' e =
      some_directory (directories k settings ch cwd env) h h' (directories-ne_nil cwd env) e

  -- The exec(3) of a program, behind the command prefix of the chroot.
  abbrev pub executing : Program → Call
  executing program =
      let env = add_variables k settings ch program.command program.env in
      exec_file (final_file k settings ch program env ch.command_prefix)
        (ch.command_prefix ++ program.command) env

  execute-calls :
      (program : Program) (h : Calls) → (execute k settings ch program h).1 ≡ executing program ∷ h
  unfolding execute
  execute-calls program h = ground arith

  -- The program that was chosen is executed last.
  abbrev pub Executes : Environment → Calls → Calls → Program → Type 0
  Executes env placed calls program =
      (get_command k.search k.exists k.is_program settings ch settings.authstat.command env
        ≡ some program)
      × (calls ≡ executing program ∷ placed)

  run_program-executed :
      (env : Environment) (h : Calls)
      → executed h ≡ false
      → executed (run_program k settings ch env h).1 ≡ true
      → (program : Program) × Executes env h (run_program k settings ch env h).1 program
  unfolding run_program
  run_program-executed env h n x =
      let (program, h1, e1, n1, x1, s1) = >>=-executed _ _ h (require-Plain _ _) n x in
      let (chosen, there) = require-ok _ assertion program h h1 e1 in
      (
        program,
        (
          chosen,
          ap (λ (r : Result (Unit {0}) × Calls). r.1) s1
              ∙ execute-calls program h1
              ∙ ap (λ h. executing program ∷ h) there,
        ),
      )

  -- What has happened when a program is executed: the calls inside the chroot, and those before the
  -- program.
  pub record IsConfined (cwd : Text) (env : Environment) (h calls : Calls) : Type 0 where
    pub inside : Calls
    pub placed : Calls
    pub program : Program
    pub entered : Entered k settings (k.get_path ch) h inside
    pub moved : Moved k (directories k settings ch cwd env) inside placed
    pub executes : Executes env placed calls program

  run_inside-executed :
      (cwd : Text) (env : Environment) (h : Calls)
      → executed h ≡ false
      → executed (run_inside k settings ch cwd env h).1 ≡ true
      → IsConfined cwd env h (run_inside k settings ch cwd env h).1
  unfolding run_inside
  run_inside-executed cwd env h n x =
      let (_, h1, e1, n1, x1, s1) = >>-executed _ _ h (enter_chroot-Plain _) n x in
      let (_, h2, e2, n2, x2, s2) = >>-executed _ _ h1 (change_directory-Plain _) n1 x1 in
      let (program, (chosen, last)) = run_program-executed env h2 n2 x2 in
      record {
        inside = h1;
        placed = h2;
        program = program;
        entered = enter_chroot-ok (k.get_path ch) h h1 e1;
        moved = directories-ok cwd env h1 h2 e2;
        executes = (chosen, ap (λ (r : Result (Unit {0}) × Calls). r.1) (s1 ∙ s2) ∙ last);
      }

  moved_to :
      (cwd : Text) (h calls : Calls)
      → h ≡ []
      → calls ≡ (run_inside k settings ch cwd (initial_environment k settings ch) h).1
      → IsConfined cwd
          (initial_environment k settings ch)
          h
          (run_inside k settings ch cwd (initial_environment k settings ch) h).1
      → IsConfined cwd (initial_environment k settings ch) [] calls
  moved_to cwd h calls e same c =
      subst (λ h'. IsConfined cwd (initial_environment k settings ch) h' calls) e
        (subst (IsConfined cwd (initial_environment k settings ch) h) (sym same) c)

  -- Where the child calls exec(3), it is the last call, and before it the child has given up its
  -- groups and its root directory, has become the user and cannot become root again, unless it is
  -- root's, and is in the first of the directories that it could enter. These are made from the
  -- directory that the session was in, or the root directory where getcwd(3) failed.
  pub run_child-executed :
      executed (run_child k settings ch []).1 ≡ true
      → IsConfined
          (getcwd k settings ch)
          (initial_environment k settings ch)
          []
          (run_child k settings ch []).1
  unfolding run_child
  run_child-executed x =
      let (_, h1, e1, n1, x1, s1) = >>-executed _ _ [] (assert-Plain _) refl x in
      moved_to (getcwd k settings ch) h1 (run_child k settings ch []).1 (assert-ok _ [] h1 e1)
        (ap (λ (r : Result (Unit {0}) × Calls). r.1) s1)
        (run_inside-executed (getcwd k settings ch) (initial_environment k settings ch) h1 n1 x1)
