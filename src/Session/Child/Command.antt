-- ===== src/Session/Child/Command.antt =====
-- sbuild/sbuild-session.cc: `get_login_directories`, `get_command_directories`, `get_shells`,
-- `get_shell`, `get_command`, `get_login_command` and `get_user_command`. What they log is left out.
use schroot.Prelude.{
  Bool, true, not, ◌&&◌, ◌||◌, Option, none, some, List, [], ◌∷◌, ◌++◌, Text, codes, nat_eq,
  text_eq, contains, is_empty, if◌then◌else◌,
}
use schroot.Environment.{Environment, get, add}
use schroot.Auth.{Auth}
use schroot.Util.Path.{basename}
use schroot.Util.Program.{find_program_in_path}
use schroot.Session.Chroot.{Chroot}

-- The members of `session` that only the child reads, and `get_complete_environment ()` of its
-- `authstat`.
pub record Settings : Type 0 where
  pub authstat : Auth
  pub shell : Text
  pub preserve_environment : Bool
  pub complete_environment : Environment

-- `push_back` of a text that is not in the list
unfoldable pub push_new : List Text → Text → List Text
push_new ret text = if contains ret text then ret else ret ++ text ∷ []

abbrev pub push_found : List Text → Option Text → List Text
push_found ret none = ret
push_found ret (some text) = push_new ret text

abbrev pub slash : Text
slash = codes "/"

abbrev pub bin_bash : Text
bin_bash = codes "/bin/bash"

abbrev pub bin_sh : Text
bin_sh = codes "/bin/sh"

abbrev pub shell_var : Text
shell_var = codes "SHELL"

abbrev pub path_var : Text
path_var = codes "PATH"

unfoldable pub get_login_directories : Auth → Text → Environment → List Text
unfolding push_new
get_login_directories auth cwd env =
    if not (is_empty auth.wd)
    then auth.wd ∷ []
    else push_new (push_new (push_found (cwd ∷ []) (get (codes "HOME") env)) auth.home) slash

unfoldable pub get_command_directories : Auth → Text → List Text
get_command_directories auth cwd = if not (is_empty auth.wd) then auth.wd ∷ [] else cwd ∷ []

module _ (settings : Settings) (chroot : Chroot) where
  abbrev pub env_shells : List Text
  env_shells =
      if settings.preserve_environment
      then push_found [] (get shell_var settings.complete_environment)
      else []

  abbrev pub passwd_shells : List Text
  passwd_shells =
      if not (is_empty settings.authstat.shell)
      then env_shells ++ settings.authstat.shell ∷ []
      else env_shells

  unfoldable pub get_shells : List Text
  unfolding push_new
  get_shells =
      if not (is_empty settings.shell)
      then settings.shell ∷ []
      else if not (is_empty chroot.default_shell)
      then chroot.default_shell ∷ []
      else push_new (push_new passwd_shells bin_bash) bin_sh

-- The loop of `get_shell`: `exists` is the answer of `stat (shell).check ()`, and `shell` the value of
-- the variable after the loop.
unfoldable pub first_shell : (Text → Bool) → Text → List Text → Text
first_shell exists shell [] = shell
first_shell exists shell (s ∷ shells) = if exists s then s else first_shell exists s shells

-- No command, or an empty one.
abbrev pub is_login_command : List Text → Bool
is_login_command [] = true
is_login_command (c ∷ command) = is_empty c

-- The file, the command and the environment for exec(3).
pub record Program : Type 0 where
  pub file : Text
  pub command : List Text
  pub env : Environment

abbrev lookup_path : Environment → Text
lookup_path env = elim (get path_var env) [ none ↦ [] | some path ↦ path ]

abbrev not_found : Text → Text → Text
not_found name file = if is_empty file then name else file

-- `find_program_in_path`, or the name itself where nothing is found
unfoldable pub prefix_file : (Text → Bool) → Environment → Text → Text
prefix_file is_program env name =
    not_found name (find_program_in_path is_program name (lookup_path env) [])

abbrev with_dash : Option Text → Option (List Text)
with_dash none = none
with_dash (some base) = some ((b'-' ∷ base) ∷ [])

-- `exists` and `is_program` are what stat(2) and access(2) find, and `search` is `regex_search`.
module _ (search : Text → Text → Bool) (exists is_program : Text → Bool) where
  unfoldable pub get_shell : Settings → Chroot → Text
  get_shell settings chroot = first_shell exists [] (get_shells settings chroot)

  abbrev pub login_shell : Settings → Chroot → Bool
  login_shell settings chroot =
      not (settings.preserve_environment || chroot.preserve_environment)
      && is_empty chroot.command_prefix

  abbrev shell_program : Text → Environment → Option (List Text) → Option Program
  shell_program shell env none = none
  shell_program shell env (some command) =
      some (record { file = shell; command = command; env = add search shell_var shell env })

  -- `none` where `basename` reads before an empty name
  unfoldable pub get_login_command : Settings → Chroot → Environment → Option Program
  get_login_command settings chroot env =
      let shell = get_shell settings chroot in
      shell_program shell env
        (if login_shell settings chroot then with_dash (basename shell) else some (shell ∷ []))

  unfoldable pub get_user_command : Text → List Text → Environment → Program
  get_user_command name arguments env = record {
    file = prefix_file is_program env name;
    command = name ∷ arguments;
    env = env;
  }

  unfoldable pub get_command : Settings → Chroot → List Text → Environment → Option Program
  get_command settings chroot [] env = get_login_command settings chroot env
  get_command settings chroot (name ∷ arguments) env =
      if is_empty name
      then get_login_command settings chroot env
      else some (get_user_command name arguments env)
