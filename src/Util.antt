-- ===== src/Util.antt =====
-- sbuild/sbuild-util.cc: file names, lists of words, and the search for a program.
pub mod Split
pub mod Names
pub mod Path
pub mod Program
