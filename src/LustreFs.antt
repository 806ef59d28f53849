-- ===== src/LustreFs.antt =====
-- charms/lustre-server/src/lustre_fs.py: the zpools, targets and mounts of a Lustre server.
pub mod Names
pub mod Idempotent
pub mod Devices
use filesystem_charms.Base.{
  ℕ, ◌%◌, Bool, true, false, not, ◌&&◌, Option, none, some, List, [], ◌∷◌, ◌++◌, length, ltb,
  nat_eq, text_eq, ◌==◌, if◌then◌else◌,
}
use filesystem_charms.Base.Exec.{Result, Exec, ok, err, pure, raise, lift, ◌>>=◌, ◌>>◌}
use filesystem_charms.Base.Text.{Text, codes, strip, split, join}
use filesystem_charms.Base.Text.Number.{ℤ, pos, int, str}
use filesystem_charms.System.{
  System, success, failure, not_found, run_checked, file_checked, mkdir_parents,
}

-- What `LustreFilesystemDeviceCountError` was raised for.
pub data DeviceFault : Type 0 where
  too_few_for_mirror odd_for_mirror too_few_for_raidz2 : DeviceFault

-- `LustreFilesystemDeviceCountError`, any other `LustreFilesystemError`, and the `OSError` of
-- `mkdir`, which is not caught.
pub data FsError : Type 0 where
  device_count : DeviceFault → FsError
  zfs_import : FsError
  unit_number : Text → FsError
  create_zpool check_zpool check_dataset format_target : Text → FsError
  mount_target : Text → Text → FsError
  os_error : FsError

abbrev zfs_import_service : Text
zfs_import_service = codes "zfs-import-cache.service"

abbrev pub mgs_mdt_mountpoint : Text
mgs_mdt_mountpoint = codes "/mnt/mgs_mdt"

abbrev mkfs_lustre : Text
mkfs_lustre = codes "/usr/sbin/mkfs.lustre"

abbrev zpool : Text
zpool = codes "/usr/sbin/zpool"

-- f"{fsname}-{dataset}-pool"
unfoldable pub pool_name : Text → Text → Text
pool_name fsname dataset = fsname ++ (codes "-" ++ (dataset ++ codes "-pool"))

-- f"{pool}/{dataset}"
unfoldable pub full_dataset_name : Text → Text → Text
full_dataset_name pool dataset = pool ++ (codes "/" ++ dataset)

-- f"{LUSTRE_OST_DATASET_PREFIX}{ost_index}"
unfoldable pub ost_dataset : ℤ → Text
ost_dataset index = codes "ost" ++ str index

-- `Path(LUSTRE_OST_PARENT_DIRECTORY) / dataset`
unfoldable pub ost_mountpoint : Text → Text
ost_mountpoint dataset = codes "/mnt/" ++ dataset

-- `int(unit_name.split("/")[1])`; nothing where it raises.
unfoldable pub unit_num : Text → Option ℤ
unit_num unit_name = elim (split b'/' unit_name) [
  | [] ↦ none
  | app ∷ rest ↦ elim rest [ [] ↦ none | num ∷ more ↦ int num ]
]

-- The arguments for mirror pairs. An odd device does not get here: there `pair[1]` would raise.
unfoldable pub mirror_vdevs : List Text → List Text
mirror_vdevs [] = []
mirror_vdevs (a ∷ []) = []
mirror_vdevs (a ∷ b ∷ devices) = codes "mirror" ∷ a ∷ b ∷ mirror_vdevs devices

unfoldable pub zpool_list : Text → List Text
zpool_list pool = zpool ∷ codes "list" ∷ pool ∷ []

unfoldable pub zpool_create : Text → List Text → List Text
zpool_create pool vdevs = zpool ∷ codes "create" ∷ codes "-O" ∷ codes "canmount=off" ∷ pool ∷ vdevs

unfoldable pub zfs_get_fsname : Text → List Text
zfs_get_fsname name =
    codes "/usr/sbin/zfs"
    ∷ codes "get"
    ∷ codes "-H"
    ∷ codes "-o"
    ∷ codes "value"
    ∷ codes "lustre:fsname"
    ∷ name
    ∷ []

unfoldable pub mkfs_target : List Text → Text → ℤ → Text → List Text
mkfs_target mkfs_flags fsname index name =
    mkfs_lustre
    ∷ (mkfs_flags
        ++ (codes "--backfstype=zfs"
            ∷ (codes "--fsname=" ++ fsname)
            ∷ (codes "--index=" ++ str index)
            ∷ name
            ∷ []))

unfoldable pub mount_lustre : Text → Text → List Text
mount_lustre name mountpoint =
    codes "/usr/bin/mount" ∷ codes "-t" ∷ codes "lustre" ∷ name ∷ mountpoint ∷ []

module _ (S : System) where
  unfoldable pub ensure_zfs_import_service : Exec S.World FsError (Unit {0})
  ensure_zfs_import_service w = elim (S.service_running zfs_import_service w) [
    | none ↦ (err zfs_import, w)
    | some running ↦
        let (restarted, w') = S.service_restart zfs_import_service w in
        if running then (ok tt, w) else if restarted then (ok tt, w') else (err zfs_import, w')
  ]

  unfoldable pub is_lustre_installed : S.World → Bool × S.World
  is_lustre_installed w =
      let (result, w') = S.run (mkfs_lustre ∷ codes "--version" ∷ []) w in
      elim result [ success out ↦ (true, w') | failure out ↦ (false, w') | not_found ↦ (false, w') ]

  unfoldable pub pool_exists : Text → Exec S.World FsError Bool
  pool_exists pool w =
      let (result, w') = S.run (zpool_list pool) w in
      elim result [
        | success out ↦ (ok true, w')
        | failure out ↦ (ok false, w')
        | not_found ↦ (err (check_zpool pool), w')
      ]

  unfoldable pub target_exists : Text → Exec S.World FsError Bool
  target_exists name w =
      let (result, w') = S.run (zfs_get_fsname name) w in
      elim result [
        | success out ↦ (ok (not (strip out == codes "-")), w')
        | failure out ↦ (ok false, w')
        | not_found ↦ (err (check_dataset name), w')
      ]

  unfoldable pub create_pool : Text → List Text → Exec S.World FsError (Unit {0})
  create_pool pool vdevs = do
    out ← run_checked S (zpool_create pool vdevs) (create_zpool pool)
    pure tt

  -- The part of `_mgt_mdt_zpool` for a pool that does not exist.
  unfoldable pub create_mirror_pool : Text → List Text → Exec S.World FsError (Unit {0})
  create_mirror_pool pool devices =
      if ltb (length devices) 2
      then raise (device_count too_few_for_mirror)
      else if not (length devices % 2 == 0)
      then raise (device_count odd_for_mirror)
      else create_pool pool (mirror_vdevs devices)

  unfoldable pub mgt_mdt_zpool : Text → List Text → Exec S.World FsError (Unit {0})
  mgt_mdt_zpool pool devices = do
    ensure_zfs_import_service
    there ← pool_exists pool
    if there then pure tt else create_mirror_pool pool devices

  unfoldable pub create_raidz2_pool : Text → List Text → Exec S.World FsError (Unit {0})
  create_raidz2_pool pool devices =
      if ltb (length devices) 3
      then raise (device_count too_few_for_raidz2)
      else create_pool pool (codes "raidz2" ∷ devices)

  unfoldable pub ost_zpool : Text → List Text → Exec S.World FsError (Unit {0})
  ost_zpool pool devices = do
    ensure_zfs_import_service
    there ← pool_exists pool
    if there then pure tt else create_raidz2_pool pool devices

  unfoldable pub format_lustre : List Text → Text → ℤ → Text → Exec S.World FsError (Unit {0})
  format_lustre mkfs_flags fsname index name = do
    out ← run_checked S (mkfs_target mkfs_flags fsname index name) (format_target name)
    pure tt

  unfoldable pub lustre_target :
      Text → Text → Text → ℤ → List Text → Exec S.World FsError (Unit {0})
  lustre_target fsname pool dataset index mkfs_flags = do
    there ← target_exists (full_dataset_name pool dataset)
    if there
        then pure tt
        else format_lustre mkfs_flags fsname index (full_dataset_name pool dataset)

  unfoldable pub mount_new : Text → Text → Exec S.World FsError (Unit {0})
  mount_new name mountpoint = do
    file_checked S (mkdir_parents mountpoint) os_error
    out ← run_checked S (mount_lustre name mountpoint) (mount_target name mountpoint)
    pure tt

  unfoldable pub mount : Text → Text → Text → Exec S.World FsError (Unit {0})
  mount pool dataset mountpoint w =
      if S.is_mount mountpoint w
      then (ok tt, w)
      else mount_new (full_dataset_name pool dataset) mountpoint w

  unfoldable pub mgs_mds_setup : Text → List Text → Exec S.World FsError (Unit {0})
  mgs_mds_setup fsname devices = do
    let dataset = codes "mgsmdt0"
    let pool = pool_name fsname dataset
    mgt_mdt_zpool pool devices
    lustre_target fsname pool dataset (pos 0) (codes "--mgs" ∷ codes "--mdt" ∷ [])
    mount pool dataset mgs_mdt_mountpoint

  -- `oss_setup` from the OST index on.
  unfoldable pub oss_setup_at : Text → ℤ → List Text → List Text → Exec S.World FsError (Unit {0})
  oss_setup_at fsname index mgs_nids devices = do
    let dataset = ost_dataset index
    let pool = pool_name fsname dataset
    ost_zpool pool devices
    lustre_target fsname pool dataset index
        (codes "--ost" ∷ (codes "--mgsnode=" ++ join (codes ",") mgs_nids) ∷ [])
    mount pool dataset (ost_mountpoint dataset)

  unfoldable pub oss_setup : Text → Text → List Text → List Text → Exec S.World FsError (Unit {0})
  oss_setup fsname name mgs_nids devices = elim (unit_num name) [
    | none ↦ raise (unit_number name)
    | some index ↦ oss_setup_at fsname index mgs_nids devices
  ]
