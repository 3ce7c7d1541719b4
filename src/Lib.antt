-- ===== src/Lib.antt =====
-- Verification library of schroot: the core of sbuild/, which decides who may enter a chroot, sets
-- the chroot up, runs the command and cleans up.
--
-- The parts, and the files that model them:
--   Environment    sbuild/sbuild-environment.{h,cc}: a map of variables with a filter of names. The
--                  overloads of `add` are `add_strv`, `add_environment`, `add_item` and `add`, those
--                  of `remove` are `remove_strv`, `subtract`, `remove` and `remove_key`.
--   Auth           sbuild/sbuild-auth.{h,cc}: the accounts of the two users, the access status and
--                  the environments. Auth/Calls models the calls of sbuild/sbuild-auth-null.cc and
--                  sbuild/sbuild-auth-pam.cc.
--   Exception      the classes of exceptions that the handlers tell apart.
--   Userdata       sbuild/sbuild-chroot-facet-userdata.cc: the options of users and of root.
--   Session        sbuild/sbuild-session.cc. Access: membership in users and groups, and the access
--                  status. Setup: `setup_chroot`. Wait: `wait_for_child`. Impl: `run_impl`,
--                  `run_chroot`, signals and terminal. Run: `run`. Clone: `clone_session_setup` of
--                  sbuild/sbuild-chroot-facet-session-clonable.cc. Chroot: what a session reads of
--                  sbuild/sbuild-chroot.{h,cc}. Child: `run_child`, and the choice of the
--                  directories, the shell and the command.
--   RunParts       sbuild/sbuild-run-parts.cc: the setup scripts of a directory, and their log.
--   Keyfile        sbuild/sbuild-basic-keyfile.{h,tcc} and sbuild/sbuild-keyfile.h: groups of keys.
--                  Parser: `operator >>`. Printer: `operator <<`. Values: the values of keys, with
--                  the Boolean of sbuild/sbuild-parse-value.cc.
--   Config         sbuild/sbuild-chroot-config.cc: the chroots by namespace, and their aliases.
--   Definition     the chroots of sbuild/sbuild-chroot.{h,cc} as key files: the classes in
--                  sbuild/sbuild-chroot-*.cc with their facets. Save: `get_keyfile`. Load:
--                  `set_keyfile`, whose Steps are the keys in their order with their priorities and
--                  setters; the templates for members are those of
--                  sbuild/sbuild-basic-keyfile.h. Locking: `setup_lock` of the classes and the files of
--                  the sessions, which take the locks of Lock. Variables: `setup_env`, the flags and
--                  the paths.
--   Lock           sbuild/sbuild-lock.{h,cc}: locks of files with a timeout.
--   Util           sbuild/sbuild-util.cc: names of files and sessions, lists of words, the parts of
--                  a path, and the search for a program.
--   Prelude        shared names, lists, texts and `std::map` as a sorted list of entries.
--   Tests          the theorems at concrete inputs.
--
-- A method of `session` that changes state is a function from a `State` to a result, or an
-- exception, and the new state, so that what is written before a throw stays written; `try_catch`
-- names the class that a `catch` names. The handlers that the process has for the three signals, and
-- those that `session` has saved, are a part of the `State`. A session calls the methods of its `authstat`, which are
-- answered by a `World`: each call is an event of a history, and each answer depends on the history
-- before it, as do those of fork(2), waitpid(2), sigaction(2), and the lock of the chroot's class.
-- The child of a session is a function from the system calls made before to a result and the calls
-- made in the end, which a `Kernel` answers by the calls before each. The files and the chroots that
-- a configuration is made of are maps; an error that is thrown is a code, with the line number where
-- the source gives one. A loaded configuration is reached by calls of `add`, which is what the
-- loading of files does; what it adds are chroots that the classes have made.
-- A chroot of Definition has the members of all classes, which are empty in a chroot of another
-- class, in a build without unions and with the personalities of Linux; an error that a key raises
-- keeps the code and the line of the key. `is_regex` is whether the C++ library accepts a text as a
-- regular expression.
-- The files of the sessions are a map from paths to texts; which calls of open(2), unlink(2) and
-- stat(2) fail is a parameter, as are the directories that the build sets.
-- The regular expressions of the C++ library are a parameter `search` of two texts, the text and
-- the pattern.
--
-- Texts are lists of character codes. Numbers are natural: user and group ids and exit statuses are
-- only compared. The loops over lists are structural. Those of `split_string` and of
-- `split_string_strict` are on fuel, the length of the text and one more, which is enough: each
-- round takes one character or more, as does that of `print_comment`. A child is interrupted
-- finitely often, since it ends, and its pipes are read until they are closed, so `wait_loop` and
-- `log_output` are structural on what the system answers.
--
-- Not modelled: what the child process of run-parts does, printed details of
-- chroots, clones of source chroots, unions, errors of writing a session file, the reading of configuration files and the creation of chroots from them, the
-- other types of values of a key, the conversation with PAM on the terminal, log messages other than the
-- lines of run-parts, and the programs in bin/, whose part is to parse options.
pub mod Prelude
pub mod Util
pub mod Environment
pub mod Exception
pub mod Auth
pub mod Userdata
pub mod Session
pub mod RunParts
pub mod Keyfile
pub mod Config
pub mod Definition
pub mod Lock
pub mod Tests
