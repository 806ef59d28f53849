-- ===== src/LustreFs/Devices.antt =====
-- The numbers of devices that the zpools are made from.
use filesystem_charms.Base.{
  ◌≤◌, ◌%◌, ◌≡◌, refl, sym, ap, ◌∙◌, false, List, [], ◌∷◌, arith, length, ltb, if◌then◌else◌,
  text_eq, nat_eq, ◌<◌, ◌⊎◌,
}
use filesystem_charms.Base.Exec.{pure, >>=_ok, ◌>>=◌, ok, err}
use filesystem_charms.Base.Text.{Text, codes}
use filesystem_charms.Lnet.Reconcile.Stages.{run_unit_inv}
use filesystem_charms.LustreFs.{
  FsError, create_zpool, zpool_create, DeviceFault, ensure_zfs_import_service, pool_exists,
  mgt_mdt_zpool, ost_zpool, device_count, too_few_for_mirror, odd_for_mirror, mirror_vdevs,
  create_pool, create_mirror_pool, create_raidz2_pool,
}
use filesystem_charms.System.{System, success}

-- The arguments for mirror vdevs of pairs of devices.
abbrev pub mirrors : List (Text × Text) → List Text
mirrors [] = []
mirrors ((a, b) ∷ ps) = codes "mirror" ∷ a ∷ b ∷ mirrors ps

abbrev pub flat : List (Text × Text) → List Text
flat [] = []
flat ((a, b) ∷ ps) = a ∷ b ∷ flat ps

-- An even number of devices is split into consecutive pairs, where none is lost and none comes
-- twice, and each pair becomes a mirror.
pub mirror_vdevs_pairs :
    (devices : List Text)
    → length devices % 2 ≡ 0
    → (pairs : List (Text × Text)) × (flat pairs ≡ devices) × (mirror_vdevs devices ≡ mirrors pairs)
unfolding mirror_vdevs
mirror_vdevs_pairs [] h = ([], refl, refl)
mirror_vdevs_pairs (a ∷ []) h = absurd (omega arith)
mirror_vdevs_pairs (a ∷ b ∷ devices) h =
    let (pairs, all, vdevs) = mirror_vdevs_pairs devices (omega arith) in
    ((a, b) ∷ pairs, ap (λ ds. a ∷ b ∷ ds) all, ap (λ ds. codes "mirror" ∷ a ∷ b ∷ ds) vdevs)

-- The command line that creates a pool.
abbrev pub creation : Text → List Text → List Text
creation pool vdevs =
    codes "/usr/sbin/zpool" ∷ codes "create" ∷ codes "-O" ∷ codes "canmount=off" ∷ pool ∷ vdevs

create_pool_ran :
    (S : System) (pool : Text) (vdevs : List Text) (w w' : S.World)
    → create_pool S pool vdevs w ≡ (ok tt, w')
    → (out : Text) × (S.run (creation pool vdevs) w ≡ (success out, w'))
unfolding create_pool zpool_create
create_pool_ran S pool vdevs w w' h =
    run_unit_inv S {E = FsError} (zpool_create pool vdevs) (create_zpool pool) w w' h

module _ (S : System) (pool : Text) (devices : List Text) (w w₁ w₂ : S.World) where
  mgt_mdt_zpool_new :
      ensure_zfs_import_service S w ≡ (ok tt, w₁)
      → pool_exists S pool w₁ ≡ (ok false, w₂)
      → mgt_mdt_zpool S pool devices w ≡ create_mirror_pool S pool devices w₂
  unfolding mgt_mdt_zpool
  mgt_mdt_zpool_new h k =
      >>=_ok (ensure_zfs_import_service S)
        (λ _. pool_exists S pool >>= λ there.
          if there then pure tt else create_mirror_pool S pool devices)
        w h
      ∙ >>=_ok (pool_exists S pool)
          (λ there. if there then pure tt else create_mirror_pool S pool devices) w₁ k

  ost_zpool_new :
      ensure_zfs_import_service S w ≡ (ok tt, w₁)
      → pool_exists S pool w₁ ≡ (ok false, w₂)
      → ost_zpool S pool devices w ≡ create_raidz2_pool S pool devices w₂
  unfolding ost_zpool
  ost_zpool_new h k =
      >>=_ok (ensure_zfs_import_service S)
        (λ _. pool_exists S pool >>= λ there.
          if there then pure tt else create_raidz2_pool S pool devices)
        w h
      ∙ >>=_ok (pool_exists S pool)
          (λ there. if there then pure tt else create_raidz2_pool S pool devices) w₁ k

  -- If `_mgt_mdt_zpool` returns where the import service runs and the pool was not there, then it
  -- had an even number of at least two devices, and the command that creates the pool from them,
  -- in consecutive pairs of which each is a mirror, has run with success.
  pub mgt_mdt_zpool_devices :
      (w' : S.World)
      → ensure_zfs_import_service S w ≡ (ok tt, w₁)
      → pool_exists S pool w₁ ≡ (ok false, w₂)
      → mgt_mdt_zpool S pool devices w ≡ (ok tt, w')
      → (2 ≤ length devices)
        × (length devices % 2 ≡ 0)
        × (pairs : List (Text × Text)) × (flat pairs ≡ devices)
        × (out : Text) × (S.run (creation pool (mirrors pairs)) w₂ ≡ (success out, w'))
  unfolding create_mirror_pool
  mgt_mdt_zpool_devices w' h k done =
      let made : create_mirror_pool S pool devices w₂ ≡ (ok tt, w') =
        sym (mgt_mdt_zpool_new h k) ∙ done in
      let even : length devices % 2 ≡ 0 = ground arith in
      let (pairs, all, vdevs) = mirror_vdevs_pairs devices even in
      let (out, ran) = create_pool_ran S pool (mirror_vdevs devices) w₂ w' (ground arith) in
      (ground arith, even, pairs, all, out, ap (λ v. S.run (creation pool v) w₂) (sym vdevs) ∙ ran)

  -- If `_ost_zpool` returns where the import service runs and the pool was not there, then it had
  -- three devices or more, and the command that creates the pool from all of them, as one RAIDZ2
  -- vdev, has run with success.
  pub ost_zpool_devices :
      (w' : S.World)
      → ensure_zfs_import_service S w ≡ (ok tt, w₁)
      → pool_exists S pool w₁ ≡ (ok false, w₂)
      → ost_zpool S pool devices w ≡ (ok tt, w')
      → (3 ≤ length devices)
        × (out : Text) × (S.run (creation pool (codes "raidz2" ∷ devices)) w₂ ≡ (success out, w'))
  unfolding create_raidz2_pool
  ost_zpool_devices w' h k done =
      let made : create_raidz2_pool S pool devices w₂ ≡ (ok tt, w') =
        sym (ost_zpool_new h k) ∙ done in
      let (out, ran) = create_pool_ran S pool (codes "raidz2" ∷ devices) w₂ w' (ground arith) in
      (ground arith, out, ran)

  -- With a number of devices that a new pool cannot have, `_mgt_mdt_zpool` raises a device count
  -- error and has run no command after the query of the pool.
  pub mgt_mdt_zpool_refuses :
      ensure_zfs_import_service S w ≡ (ok tt, w₁)
      → pool_exists S pool w₁ ≡ (ok false, w₂)
      → (length devices < 2) ⊎ (length devices % 2 ≡ 1)
      → (f : DeviceFault) × (mgt_mdt_zpool S pool devices w ≡ (err (device_count f), w₂))
  unfolding create_mirror_pool
  mgt_mdt_zpool_refuses h k bad =
      rw (mgt_mdt_zpool_new h k)
        (if ltb (length devices) 2 then too_few_for_mirror else odd_for_mirror, ground arith)
