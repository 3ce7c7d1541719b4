-- ===== src/Session.antt =====
-- sbuild/sbuild-session.{h,cc}: who may use a chroot, and a session from its start to its end.
pub mod Chroot
pub mod Access
pub mod World
pub mod Exec
pub mod Wait
pub mod Clone
pub mod Setup
pub mod Child
pub mod Config
pub mod Impl
pub mod Run
