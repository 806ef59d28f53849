-- ===== src/Filesystem.antt =====
-- The information that filesystem providers and clients exchange
-- (charms/filesystem-client/lib/charms/filesystem_client/v0/filesystem_info.py).
pub mod Uri
pub mod Hosts
pub mod Infos
pub mod Provides
pub mod Requires
use filesystem_charms.Base.{Bool, Option, List}
use filesystem_charms.Base.Text.{Text}
use filesystem_charms.Base.Text.Number.{ℤ}

pub record NfsInfo : Type 0 where
  pub hostname : Text
  pub port : Option ℤ
  pub path : Text
  pub version : Option Text

pub record CephfsInfo : Type 0 where
  pub fsid : Text
  pub name : Text
  pub path : Text
  pub monitor_hosts : List Text
  pub user : Text
  pub key : Text

pub record LustreInfo : Type 0 where
  pub mgs_ids : List Text
  pub fs_name : Text

-- `FilesystemInfo` and its subclasses
pub data FilesystemInfo : Type 0 where
  nfs : NfsInfo → FilesystemInfo
  cephfs : CephfsInfo → FilesystemInfo
  lustre : LustreInfo → FilesystemInfo

-- `FilesystemProvides`, as a charm uses it: its state, and `set_info`, with whether it did not
-- raise.
pub record Provider : Type 1 where
  pub State : Type 0
  pub set_info : FilesystemInfo → State → Bool × State
