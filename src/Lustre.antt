-- ===== src/Lustre.antt =====
-- The Lustre server charm (charms/lustre-server): the data of its peer relation and the unit
-- statuses that its modules set.
pub mod State
pub mod Peers
pub mod Charm
use filesystem_charms.Base.{Bool, true, false, Option, none, some, List, []}
use filesystem_charms.Base.Text.{Text, codes}

-- `LustrePeerAppData`
pub record AppData : Type 0 where
  pub mgs_nids : List Text
  pub mgs_unit_name : Option Text

abbrev pub no_app_data : AppData
no_app_data = record { mgs_nids = []; mgs_unit_name = none }

-- `LustrePeerUnitData`
pub record UnitData : Type 0 where
  pub ready : Bool
  pub mgs_nids : List Text

abbrev pub no_unit_data : UnitData
no_unit_data = record { ready = false; mgs_nids = [] }

-- The messages of `CharmStatuses` (state.py), `_LustrePeerStatus` (lustre_peer.py) and
-- `_CharmStatus` (charm.py), with what is formatted into them.
pub data Message : Type 0 where
  waiting_peer_data failed_peer_data mgs_mds_ready oss_ready : Message
  modules_missing : List Text → Message
  modules_path_failure mountpoint_missing mountpoint_not_mounted osts_missing : Text → Message
  failed_oss_setup invalid_oss_device_count failed_set_unit_ready multiple_mgs_units : Message
  repo_setup failed_repo_setup waiting_for_packages package_install lnet_init : Message
  failed_lnet_init preparing_services starting_services failed_mgs_mds_setup : Message
  invalid_mgt_mdt_device_count duplicate_storage no_storage_attached : Message
  failed_install : List Text → Message

-- `ops.StatusBase`; `unknown` is the status of a new unit.
pub data Status : Type 0 where
  active blocked waiting maintenance : Message → Status
  unknown : Status

-- `isinstance(status, ops.BlockedStatus)`
abbrev pub is_blocked : Status → Bool
is_blocked (blocked m) = true
is_blocked _ = false

-- `LUSTRE_FSNAME`
abbrev pub lustre_fsname : Text
lustre_fsname = codes "lustrefs"
