-- ===== src/Tests/LustreFs.antt =====
-- lustre_fs.py on concrete machines.
use filesystem_charms.System.{run_checked}
use filesystem_charms.LustreFs.{zpool_create}
use filesystem_charms.LustreFs.{create_raidz2_pool}
use filesystem_charms.LustreFs.{create_mirror_pool}
use filesystem_charms.Base.Sort.{texts_beq}
use filesystem_charms.Base.{
  ◌≡◌, refl, ℕ, ◌≤◌, ◌%◌, Bool, true, false, length, if◌then◌else◌, some, List, [], ◌∷◌, text_beq,
  ◌==◌, inr,
}
use filesystem_charms.Base.Exec.{ok}
use filesystem_charms.Base.Text.{Text, codes, has, split, strip, is_space}
use filesystem_charms.Base.Text.Number.{pos, int, str}
use filesystem_charms.LustreFs.{
  pool_name, ost_dataset, ost_mountpoint, unit_num, mgs_mdt_mountpoint, ensure_zfs_import_service,
  pool_exists, mgs_mds_setup, oss_setup, mirror_vdevs, mgt_mdt_zpool, ost_zpool, create_pool,
  zpool_list, DeviceFault, device_count,
}
use filesystem_charms.LustreFs.Devices.{
  mirror_vdevs_pairs, mirrors, flat, creation, mgt_mdt_zpool_devices, ost_zpool_devices,
  mgt_mdt_zpool_refuses,
}
use filesystem_charms.System.{System, success, failure}
use filesystem_charms.Base.Sort.{texts_eq}
use filesystem_charms.Base.Exec.{err}
use filesystem_charms.LustreFs.Idempotent.{IsSetUp, mgs_mds_setup_idempotent, oss_setup_idempotent}
use filesystem_charms.LustreFs.Names.{distinct_datasets, unit_num-unit_name, unit_name}
use filesystem_charms.Tests.{machine}

abbrev disks : List Text
disks = codes "/dev/a" ∷ codes "/dev/b" ∷ codes "/dev/c" ∷ codes "/dev/d" ∷ []

there :
    IsSetUp
      (machine (codes "lustrefs\n") true)
      tt
      (pool_name (codes "lustrefs") (codes "mgsmdt0"))
      (codes "mgsmdt0")
      mgs_mdt_mountpoint
unfolding text_beq strip is_space pool_name
there = record {
  service = refl;
  pool_output = codes "lustrefs\n";
  pool_there = refl;
  fsname_output = codes "lustrefs\n";
  target = refl;
  fsname_there = refl;
  mounted = refl;
}

mgs_mds_setup_idempotent_example :
    mgs_mds_setup (machine (codes "lustrefs\n") true) (codes "lustrefs") disks tt ≡ (ok tt, tt)
mgs_mds_setup_idempotent_example =
    mgs_mds_setup_idempotent (machine (codes "lustrefs\n") true) (codes "lustrefs") disks tt there

mirror_vdevs_pairs_example :
    (pairs : List (Text × Text)) × (flat pairs ≡ disks) × (mirror_vdevs disks ≡ mirrors pairs)
mirror_vdevs_pairs_example = mirror_vdevs_pairs disks refl

unit_num-unit_name_example : unit_num (unit_name (codes "server") 12) ≡ some (pos 12)
unfolding has
unit_num-unit_name_example = unit_num-unit_name (codes "server") 12 refl

distinct_datasets_example : ◌≡◌ {A = ℕ} 7 7
unfolding has unit_num split str int is_space
distinct_datasets_example = distinct_datasets (codes "server") 7 7 refl refl refl refl

oss_there :
    IsSetUp
      (machine (codes "lustrefs\n") true)
      tt
      (pool_name (codes "lustrefs") (ost_dataset (pos 3)))
      (ost_dataset (pos 3))
      (ost_mountpoint (ost_dataset (pos 3)))
unfolding text_beq strip is_space
oss_there = record {
  service = refl;
  pool_output = codes "lustrefs\n";
  pool_there = refl;
  fsname_output = codes "lustrefs\n";
  target = refl;
  fsname_there = refl;
  mounted = refl;
}

oss_setup_idempotent_example :
    oss_setup
      (machine (codes "lustrefs\n") true)
      (codes "lustrefs")
      (codes "server/3")
      (codes "10.0.0.1@tcp" ∷ [])
      disks
      tt
    ≡ (ok tt, tt)
unfolding unit_num split int is_space
oss_setup_idempotent_example =
    oss_setup_idempotent (machine (codes "lustrefs\n") true) (codes "lustrefs") disks tt
      (codes "server/3") (codes "10.0.0.1@tcp" ∷ []) (pos 3) refl oss_there

-- A machine whose state is whether the pool is there.
abbrev pool_machine : Text → System
pool_machine pool = record {
  World = Bool;
  run = λ argv w.
      if argv == zpool_list pool
      then (if w then success [] else failure [], w)
      else (success [], true);
  file = λ call w. (true, w);
  is_mount = λ path w. false;
  exists = λ path w. false;
  service_running = λ name w. some true;
  service_restart = λ name w. (true, w);
  read_text = λ path w. some [];
  glob = λ directory pattern w. [];
  set_order = λ xs. xs;
}

mgt_mdt_zpool_devices_example :
    (2 ≤ length disks)
    × (length disks % 2 ≡ 0)
    × (pairs : List (Text × Text)) × (flat pairs ≡ disks)
    × (out : Text) × ((pool_machine (codes "p")).run (creation (codes "p") (mirrors pairs)) false
        ≡ (success out, true))
unfolding ensure_zfs_import_service pool_exists texts_beq zpool_list text_beq mgt_mdt_zpool
    create_mirror_pool create_pool run_checked zpool_create
mgt_mdt_zpool_devices_example =
    mgt_mdt_zpool_devices (pool_machine (codes "p")) (codes "p") disks false false false true refl
      refl refl

ost_zpool_devices_example :
    (3 ≤ length disks)
    × (out : Text) × ((pool_machine (codes "p")).run
          (creation (codes "p") (codes "raidz2" ∷ disks))
          false
        ≡ (success out, true))
unfolding ensure_zfs_import_service pool_exists texts_beq zpool_list text_beq ost_zpool
    create_raidz2_pool create_pool run_checked zpool_create
ost_zpool_devices_example =
    ost_zpool_devices (pool_machine (codes "p")) (codes "p") disks false false false true refl refl
      refl

mgt_mdt_zpool_refuses_example :
    (f : DeviceFault) × (mgt_mdt_zpool
        (pool_machine (codes "p"))
        (codes "p")
        (codes "/dev/a" ∷ [])
        false
      ≡ (err (device_count f), false))
unfolding ensure_zfs_import_service pool_exists texts_beq zpool_list text_beq
mgt_mdt_zpool_refuses_example =
    mgt_mdt_zpool_refuses (pool_machine (codes "p")) (codes "p") (codes "/dev/a" ∷ []) false false
      false refl refl (inr refl)
