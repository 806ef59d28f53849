-- ===== src/Lustre/Peers.antt =====
-- charms/lustre-server/src/lustre_peer.py: the peer relation of the Lustre units.
pub mod Handlers
pub mod Promote
pub mod Kept
pub mod Publish
pub mod Cluster
use filesystem_charms.Base.{
  ℕ, zero, suc, ◌+◌, Bool, true, false, not, ◌&&◌, Option, none, some, List, [], ◌∷◌, is_empty, leb,
  text_eq, ◌==◌, if◌then◌else◌,
}
use filesystem_charms.Base.Dict.{Dict, lookup, insert}
use filesystem_charms.Base.Exec.{Result, Exec, ok, err, pure, raise, wrap, when, ◌>>=◌, ◌>>◌}
use filesystem_charms.Base.Sort.{sorted, texts_eq}
use filesystem_charms.Base.Text.{Text}
use filesystem_charms.Filesystem.{Provider, LustreInfo, lustre}
use filesystem_charms.Lnet.{LnetError}
use filesystem_charms.Lnet.Nids.{get_nids}
use filesystem_charms.LustreFs.{FsError, device_count, os_error, oss_setup}
use filesystem_charms.Lustre.{
  AppData, no_app_data, UnitData, no_unit_data, Status, blocked, lustre_fsname, failed_oss_setup,
  invalid_oss_device_count, failed_set_unit_ready, multiple_mgs_units,
}
use filesystem_charms.Lustre.State.{is_unpublished, check_lustre}
use filesystem_charms.System.{System}

-- The databags of the peer relation: the application's, and each unit's.
pub record Databags : Type 0 where
  pub app : Option AppData
  pub units : Dict Text UnitData

-- What a hook reads of its unit: its name, whether it is the leader, the other units of the
-- relation, `planned_units()`, and the locations of the OST storage, unless reading these raises
-- `ModelError`.
pub record Hook : Type 0 where
  pub name : Text
  pub is_leader : Bool
  pub others : List Text
  pub planned : ℕ
  pub ost_storage : Option (List Text)

-- The exceptions of this module. The last two are not `LustrePeerError`s: what `set_info` raises,
-- and the `OSError` of `oss_setup`.
pub data PeerError : Type 0 where
  no_relation no_nids : PeerError
  nid_query : LnetError → PeerError
  duplicate_mgs : Text → Option Text → PeerError
  nids_changed : Text → PeerError
  publish_failed uncaught_os_error : PeerError

abbrev pub is_peer_error : PeerError → Bool
is_peer_error publish_failed = false
is_peer_error uncaught_os_error = false
is_peer_error _ = true

-- `data.mgs_unit_name and data.mgs_nids`
unfoldable pub is_assigned : AppData → Bool
is_assigned d = elim d.mgs_unit_name [
  | none ↦ false
  | some name ↦ not (is_empty name) && not (is_empty d.mgs_nids)
]

-- `data.mgs_unit_name == unit_name`
unfoldable pub is_named : AppData → Text → Bool
is_named d name = elim d.mgs_unit_name [ none ↦ false | some mgs ↦ mgs == name ]

-- `rel.load(LustrePeerAppData, rel.app) or LustrePeerAppData()`
abbrev pub app_data : Databags → AppData
app_data bags = elim bags.app [ none ↦ no_app_data | some d ↦ d ]

-- `rel.load(LustrePeerUnitData, unit) or LustrePeerUnitData()`
unfoldable pub unit_data : Databags → Text → UnitData
unit_data bags name = elim (lookup name bags.units) [ none ↦ no_unit_data | some d ↦ d ]

-- How many of the units have reported ready.
unfoldable pub ready_count : Databags → List Text → ℕ
unfolding unit_data
ready_count bags [] = 0
ready_count bags (name ∷ names) =
    (if (unit_data bags name).ready then 1 else 0) + ready_count bags names

module _ (S : System) (F : Provider) where
  pub record World : Type 0 where
    pub relation : Option Databags
    pub machine : S.World
    pub filesystem : F.State
    pub status : Status

  abbrev pub Act : Type 0 → Type 0
  Act = Exec World PeerError

module _ {S : System} {F : Provider} where
  unfoldable pub get_relation_checked : Act S F Databags
  get_relation_checked w = elim w.relation [
    | none ↦ (err no_relation, w)
    | some bags ↦ (ok bags, w)
  ]

  unfoldable pub put_relation : Databags → Act S F (Unit {0})
  put_relation bags w = (ok tt, record w { relation = some bags })

  unfoldable pub set_status : Status → Act S F (Unit {0})
  set_status status w = (ok tt, record w { status = status })

  unfoldable pub get_app_data : Act S F AppData
  unfolding get_relation_checked
  get_app_data = do bags ← get_relation_checked; pure (app_data bags)

  unfoldable pub set_app_data : AppData → Act S F (Unit {0})
  unfolding get_relation_checked put_relation
  set_app_data d = do bags ← get_relation_checked; put_relation (record bags { app = some d })

  unfoldable pub get_unit_data : Text → Act S F UnitData
  unfolding get_relation_checked
  get_unit_data name = do bags ← get_relation_checked; pure (unit_data bags name)

  unfoldable pub set_unit_data : UnitData → Text → Act S F (Unit {0})
  unfolding get_relation_checked put_relation
  set_unit_data d name = do
    bags ← get_relation_checked
    put_relation (record bags { units = insert name d bags.units })

  -- The part of `_promote_mgs_nids` for an MGS that is assigned.
  unfoldable pub check_promoted : AppData → Text → List Text → Act S F (Unit {0})
  check_promoted d name nids =
      if not (is_named d name)
      then raise (duplicate_mgs name d.mgs_unit_name)
      else if sorted d.mgs_nids == sorted nids
      then pure tt
      else raise (nids_changed name)

  unfoldable pub promote_mgs_nids : Text → List Text → Act S F (Unit {0})
  unfolding get_app_data set_app_data check_promoted is_assigned
  promote_mgs_nids name nids = do
    d ← get_app_data
    if is_assigned d
        then check_promoted d name nids
        else set_app_data (record { mgs_nids = nids; mgs_unit_name = some name })

  unfoldable pub all_units_ready : Hook → Act S F Bool
  unfolding get_relation_checked ready_count
  all_units_ready hook = do
    bags ← get_relation_checked
    pure (leb hook.planned (ready_count bags (hook.name ∷ hook.others)))

  -- `self._charm.filesystem.set_info(…)`
  unfoldable pub set_info : LustreInfo → Act S F (Unit {0})
  set_info info w =
      let (done, f) = F.set_info (lustre info) w.filesystem in
      (if done then ok tt else err publish_failed, record w { filesystem = f })

  unfoldable pub publish_if_ready : Hook → List Text → Text → Act S F (Unit {0})
  unfolding all_units_ready set_info
  publish_if_ready hook nids fs_name = do
    all_ready ← all_units_ready hook
    if all_ready then set_info (record { mgs_ids = nids; fs_name = fs_name }) else pure tt

  unfoldable pub try_publish_filesystem_info : Hook → List Text → Text → Act S F (Unit {0})
  unfolding publish_if_ready
  try_publish_filesystem_info hook nids fs_name =
      if hook.is_leader then publish_if_ready hook nids fs_name else pure tt

  unfoldable pub set_unit_ready : Hook → List Text → Text → Act S F (Unit {0})
  unfolding get_unit_data set_unit_data try_publish_filesystem_info
  set_unit_ready hook nids fs_name = do
    d ← get_unit_data hook.name
    set_unit_data (record d { ready = true }) hook.name
    try_publish_filesystem_info hook nids fs_name
