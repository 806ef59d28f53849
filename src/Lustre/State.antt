-- ===== src/Lustre/State.antt =====
-- charms/lustre-server/src/state.py: the health checks of a unit.
pub mod Health
pub mod Healthy
use filesystem_charms.Base.{
  ℕ, Bool, true, false, not, Option, none, some, List, [], ◌∷◌, is_empty, contains, difference,
  text_eq, ◌==◌, if◌then◌else◌,
}
use filesystem_charms.Base.Exec.{Result, ok, err, bind_result}
use filesystem_charms.Base.Sort.{sorted}
use filesystem_charms.Base.Text.{Text, codes, split, words}
use filesystem_charms.LustreFs.{mgs_mdt_mountpoint}
use filesystem_charms.Lustre.{
  AppData, Status, active, blocked, waiting, is_blocked, waiting_peer_data, failed_peer_data,
  mgs_mds_ready, oss_ready, modules_missing, modules_path_failure, mountpoint_missing,
  mountpoint_not_mounted, osts_missing,
}
use filesystem_charms.System.{System}

-- A check that passes, or the status of the `LustreStateError` that it raises.
abbrev pub Check : Type 0
Check = Result Status (Unit {0})

-- `data.mgs_unit_name is None or not data.mgs_nids`
unfoldable pub is_unpublished : AppData → Bool
is_unpublished data' = elim data'.mgs_unit_name [
  | none ↦ true
  | some name ↦ is_empty data'.mgs_nids
]

unfoldable pub peer_relation_app_data_check : AppData → Check
unfolding is_unpublished
peer_relation_app_data_check data' =
    if is_unpublished data' then err (waiting waiting_peer_data) else ok tt

-- The first item on each line that has one.
unfoldable pub loaded_modules : List Text → List Text
loaded_modules [] = []
loaded_modules (line ∷ rest) =
    let modules = loaded_modules rest in elim (words line) [ [] ↦ modules | m ∷ more ↦ m ∷ modules ]

unfoldable pub modules_check : List Text → Check
modules_check loaded =
    let missing = difference (codes "lustre" ∷ codes "lnet" ∷ []) loaded in
    if is_empty missing then ok tt else err (blocked (modules_missing (sorted missing)))

abbrev pub modules_path : Text
modules_path = codes "/proc/modules"

abbrev pub mount_directory : Text
mount_directory = codes "/mnt"

module _ (S : System) where
  unfoldable pub kernel_modules_check : S.World → Check
  unfolding modules_check
  kernel_modules_check w = elim (S.read_text modules_path w) [
    | none ↦ err (blocked (modules_path_failure modules_path))
    | some text ↦ modules_check (loaded_modules (split b'\n' text))
  ]

  unfoldable pub mountpoint_check : Text → S.World → Check
  mountpoint_check mountpoint w =
      if not (S.exists mountpoint w)
      then err (blocked (mountpoint_missing mountpoint))
      else if not (S.is_mount mountpoint w)
      then err (blocked (mountpoint_not_mounted mountpoint))
      else ok tt

  unfoldable pub common_check : AppData → S.World → Check
  common_check data' w =
      bind_result (peer_relation_app_data_check data') λ _. kernel_modules_check w

  unfoldable pub mgs_mds_check : S.World → Check
  mgs_mds_check w = mountpoint_check mgs_mdt_mountpoint w

  -- `for mountpoint in osts: _mountpoint_check(mountpoint)`
  unfoldable pub mountpoint_checks : List Text → S.World → Check
  mountpoint_checks [] w = ok tt
  mountpoint_checks (mountpoint ∷ rest) w =
      bind_result (mountpoint_check mountpoint w) λ _. mountpoint_checks rest w

  unfoldable pub oss_check : S.World → Check
  oss_check w =
      let osts = S.glob mount_directory (codes "ost[0-9]*") w in
      if is_empty osts
      then err (blocked (osts_missing mount_directory))
      else mountpoint_checks osts w

  -- `charm.model.unit.name == peer_app_data.mgs_unit_name`
  unfoldable pub is_mgs_unit : Text → AppData → Bool
  is_mgs_unit name data' = elim data'.mgs_unit_name [ none ↦ false | some mgs ↦ name == mgs ]

  unfoldable pub role_check : Text → AppData → S.World → Check
  role_check name data' w = if is_mgs_unit name data' then mgs_mds_check w else oss_check w

  -- `existing_error_status or status`
  unfoldable pub keep_blocked : Status → Status → Status
  keep_blocked existing status = if is_blocked existing then existing else status

  -- `check_lustre`, from the unit's name and status and the peer data, which are nothing if
  -- `get_app_data` raises.
  unfoldable pub check_lustre : Text → Status → Option AppData → S.World → Status
  unfolding keep_blocked role_check
  check_lustre name existing none w = keep_blocked existing (blocked failed_peer_data)
  check_lustre name existing (some data') w =
      elim (bind_result (common_check data' w) λ _. role_check name data' w) [
        | err status ↦ keep_blocked existing status
        | ok _ ↦ active (if is_mgs_unit name data' then mgs_mds_ready else oss_ready)
      ]
