-- ===== src/Session/Chroot.antt =====
-- What a session reads and sets of a `chroot` (sbuild/sbuild-chroot.{h,cc}).
use schroot.Prelude.{Bool, Option, List, Text}
use schroot.Userdata.{Userdata}

-- `chroot::verbosity`
pub data Verbosity : Type 0 where
  quiet normal verbose : Verbosity

-- `chroot::setup_type`
pub data SetupType : Type 0 where
  setup_start setup_recover setup_stop : SetupType

-- chroot_facet_session
pub record SessionFacet : Type 0 where
  pub original_name : Text
  pub selected_name : Text

pub record Chroot : Type 0 where
  pub name : Text
  pub description : Text
  pub users : List Text
  pub groups : List Text
  pub root_users : List Text
  pub root_groups : List Text
  pub aliases : List Text
  pub preserve_environment : Bool
  pub default_shell : Text
  pub environment_filter : Text
  pub mount_location : Text
  pub run_setup_scripts : Bool
  pub command_prefix : List Text
  pub message_verbosity : Verbosity
  pub is_plain : Bool
  pub session_clonable : Bool
  pub session : Option SessionFacet
  pub userdata : Option Userdata
