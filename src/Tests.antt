-- ===== src/Tests.antt =====
-- The theorems at concrete inputs.
mod Fixture
mod Sessions
mod Data
mod Programs
mod Backends
mod Keyfiles
mod Configs
mod Child
mod Locks
mod Definitions
mod Stages
mod Locking
