-- ===== src/LustreFs/Idempotent.antt =====
-- A server that is set up is left alone by another setup.
use filesystem_charms.Base.{
  ◌≡◌, ◌∙◌, refl, true, arith, false, some, List, ◌∷◌, [], ◌++◌, if◌then◌else◌, text_eq, ◌==◌,
}
use filesystem_charms.Base.Exec.{ok, pure, >>=_ok, ◌>>=◌, ◌>>◌}
use filesystem_charms.Base.Text.{Text, codes, join, strip}
use filesystem_charms.Base.Text.Number.{ℤ, pos}
use filesystem_charms.LustreFs.{
  pool_name, full_dataset_name, ost_dataset, ost_mountpoint, unit_num, mgs_mdt_mountpoint,
  zpool_list, zfs_get_fsname, ensure_zfs_import_service, pool_exists, target_exists,
  create_mirror_pool, create_raidz2_pool, format_lustre, mgt_mdt_zpool, ost_zpool, lustre_target,
  mount, mgs_mds_setup, oss_setup_at, oss_setup,
}
use filesystem_charms.System.{System, success}

-- What the machine answers on a server that is set up: the import service runs, `zpool list` finds
-- the pool, `zfs get` prints the file system of its dataset, which is `-` where there is none, and
-- the mountpoint is mounted; and these queries change nothing.
pub record IsSetUp (S : System) (w : S.World) (pool dataset mountpoint : Text) : Type 0 where
  pub service : S.service_running (codes "zfs-import-cache.service") w ≡ some true
  pub pool_output : Text
  pub pool_there :
      S.run (codes "/usr/sbin/zpool" ∷ codes "list" ∷ pool ∷ []) w ≡ (success pool_output, w)
  pub fsname_output : Text
  pub target :
      S.run
        (codes "/usr/sbin/zfs"
          ∷ codes "get"
          ∷ codes "-H"
          ∷ codes "-o"
          ∷ codes "value"
          ∷ codes "lustre:fsname"
          ∷ (pool ++ (codes "/" ++ dataset))
          ∷ [])
        w
      ≡ (success fsname_output, w)
  pub fsname_there : (strip fsname_output == codes "-") ≡ false
  pub mounted : S.is_mount mountpoint w ≡ true

module _ (S : System) (w : S.World) (pool dataset mountpoint : Text)
    (h : IsSetUp S w pool dataset mountpoint) where
  service_runs : ensure_zfs_import_service S w ≡ (ok tt, w)
  unfolding ensure_zfs_import_service
  service_runs = rw (ensure_zfs_import_service, h.service) refl

  pool_found : pool_exists S pool w ≡ (ok true, w)
  unfolding pool_exists zpool_list
  pool_found = ground (arith, h.pool_there)

  target_found : target_exists S (full_dataset_name pool dataset) w ≡ (ok true, w)
  unfolding target_exists zfs_get_fsname full_dataset_name
  target_found = ground (arith, h.target, h.fsname_there)

  mgt_mdt_zpool_there : (devices : List Text) → mgt_mdt_zpool S pool devices w ≡ (ok tt, w)
  unfolding mgt_mdt_zpool
  mgt_mdt_zpool_there devices =
      >>=_ok (ensure_zfs_import_service S)
        (λ _. pool_exists S pool >>= λ there.
          if there then pure tt else create_mirror_pool S pool devices)
        w service_runs
      ∙ >>=_ok (pool_exists S pool)
          (λ there. if there then pure tt else create_mirror_pool S pool devices) w pool_found

  ost_zpool_there : (devices : List Text) → ost_zpool S pool devices w ≡ (ok tt, w)
  unfolding ost_zpool
  ost_zpool_there devices =
      >>=_ok (ensure_zfs_import_service S)
        (λ _. pool_exists S pool >>= λ there.
          if there then pure tt else create_raidz2_pool S pool devices)
        w service_runs
      ∙ >>=_ok (pool_exists S pool)
          (λ there. if there then pure tt else create_raidz2_pool S pool devices) w pool_found

  lustre_target_there :
      (fsname : Text) (index : ℤ) (mkfs_flags : List Text)
      → lustre_target S fsname pool dataset index mkfs_flags w ≡ (ok tt, w)
  unfolding lustre_target
  lustre_target_there fsname index flags =
      >>=_ok (target_exists S (full_dataset_name pool dataset))
        (λ there.
          if there
          then pure tt
          else format_lustre S flags fsname index (full_dataset_name pool dataset))
        w target_found

  mount_there : mount S pool dataset mountpoint w ≡ (ok tt, w)
  unfolding mount
  mount_there = rw h.mounted

module _ (S : System) (fsname : Text) (devices : List Text) (w : S.World) where
  -- On a unit where the import service runs, `zpool list` finds the pool of the MGS and MDT,
  -- `zfs get` prints the file system of its dataset, the mountpoint is mounted, and these queries
  -- change nothing, `mgs_mds_setup` returns and changes nothing, whatever devices it is given.
  pub mgs_mds_setup_idempotent :
      IsSetUp S w (pool_name fsname (codes "mgsmdt0")) (codes "mgsmdt0") mgs_mdt_mountpoint
      → mgs_mds_setup S fsname devices w ≡ (ok tt, w)
  unfolding mgs_mds_setup
  mgs_mds_setup_idempotent h =
      let pool = pool_name fsname (codes "mgsmdt0") in
      let flags = codes "--mgs" ∷ codes "--mdt" ∷ [] in
      >>=_ok (mgt_mdt_zpool S pool devices)
        (λ _.
          lustre_target S fsname pool (codes "mgsmdt0") (pos 0) flags
          >> mount S pool (codes "mgsmdt0") mgs_mdt_mountpoint)
        w (mgt_mdt_zpool_there S w pool (codes "mgsmdt0") mgs_mdt_mountpoint h devices)
      ∙ >>=_ok (lustre_target S fsname pool (codes "mgsmdt0") (pos 0) flags)
          (λ _. mount S pool (codes "mgsmdt0") mgs_mdt_mountpoint) w
          (lustre_target_there S w pool (codes "mgsmdt0") mgs_mdt_mountpoint h fsname (pos 0) flags)
      ∙ mount_there S w pool (codes "mgsmdt0") mgs_mdt_mountpoint h

  -- On a unit with a numbered name, where the import service runs, `zpool list` finds the pool of
  -- the OST, `zfs get` prints the file system of its dataset, the mountpoint is mounted, and these
  -- queries change nothing, `oss_setup` returns and changes nothing, whatever NIDs and devices it
  -- is given.
  pub oss_setup_idempotent :
      (name : Text) (mgs_nids : List Text) (index : ℤ)
      → unit_num name ≡ some index
      → IsSetUp S w
          (pool_name fsname (ost_dataset index))
          (ost_dataset index)
          (ost_mountpoint (ost_dataset index))
      → oss_setup S fsname name mgs_nids devices w ≡ (ok tt, w)
  unfolding oss_setup
  oss_setup_idempotent name nids index numbered h =
      rw (numbered, oss_setup)
        (unfold oss_setup_at in
          let dataset = ost_dataset index in
          let pool = pool_name fsname dataset in
          let at = ost_mountpoint dataset in
          let flags = codes "--ost" ∷ (codes "--mgsnode=" ++ join (codes ",") nids) ∷ [] in
          >>=_ok (ost_zpool S pool devices)
            (λ _. lustre_target S fsname pool dataset index flags >> mount S pool dataset at) w
            (ost_zpool_there S w pool dataset at h devices)
          ∙ >>=_ok (lustre_target S fsname pool dataset index flags) (λ _. mount S pool dataset at)
              w (lustre_target_there S w pool dataset at h fsname index flags)
          ∙ mount_there S w pool dataset at h)
