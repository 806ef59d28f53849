-- ===== src/Tests/Lustre.antt =====
-- The Lustre server charm on concrete units.
use filesystem_charms.Base.Dict.{lookup}
use filesystem_charms.Base.Sort.{sorted}
use filesystem_charms.LustreFs.{
  oss_setup, unit_num, oss_setup_at, ost_zpool, ensure_zfs_import_service, pool_exists,
  lustre_target, target_exists, mount,
}
use filesystem_charms.Base.Dict.{insert, lookup}
use filesystem_charms.Base.Text.{split, is_space}
use filesystem_charms.Base.Text.Number.{int}
use filesystem_charms.Base.{length}
use filesystem_charms.Base.{
  ◌≡◌, ◌↔◌, ◌⊎◌, refl, leb, ◌&&◌, true, false, if◌then◌else◌, none, some, List, [], ◌∷◌, text_beq,
  text_eq,
}
use filesystem_charms.Base.Exec.{ok}
use mathlib.Core.List.{Perm}
use filesystem_charms.Base.Text.{Text, codes}
use filesystem_charms.Lustre.{
  AppData, active, blocked, unknown, Message, oss_ready, failed_oss_setup,
}
use filesystem_charms.Lustre.Peers.{
  Databags, Hook, World, app_data, unit_data, is_assigned, is_named, promote_mgs_nids,
  set_unit_ready,
}
use filesystem_charms.Lustre.Peers.Handlers.{on_relation_changed}
use filesystem_charms.Lustre.Peers.Kept.{with_unit}
use filesystem_charms.Lustre.Peers.Cluster.{
  Reach, here, next, relation_changed, mgs_stable, ready_stable,
}
use filesystem_charms.Lustre.Peers.Promote.{promote_keeps_mgs}
use filesystem_charms.Lustre.Peers.Publish.{ready_units, published, set_unit_ready_publishes}
use filesystem_charms.Lustre.State.{check_lustre}
use filesystem_charms.Lustre.State.Healthy.{
  IsHealthy, check_lustre_active, check_lustre_keeps_error,
}
use filesystem_charms.System.{System}
use filesystem_charms.Tests.{machine, last_info}

abbrev server : System
server = machine (codes "lustrefs\n") true

abbrev nids : List Text
nids = codes "10.0.0.1@tcp" ∷ []

abbrev assigned : AppData
assigned = record { mgs_nids = nids; mgs_unit_name = some (codes "s/0") }

-- The first unit is the MGS and ready, the second is not set up.
abbrev started : Databags
started = record {
  app = some assigned;
  units = (codes "s/0", record { ready = true; mgs_nids = nids }) ∷ [];
}

abbrev joined : Databags
joined = record {
  app = some assigned;
  units =
      (codes "s/0", record { ready = true; mgs_nids = nids })
      ∷ (codes "s/1", record { ready = true; mgs_nids = [] })
      ∷ [];
}

abbrev world : Databags → World server last_info
world bags = record { relation = some bags; machine = tt; filesystem = none; status = unknown }

abbrev first : Hook
first = record {
  name = codes "s/0";
  is_leader = true;
  others = codes "s/1" ∷ [];
  planned = 1;
  ost_storage = none;
}

abbrev second : Hook
second = record {
  name = codes "s/1";
  is_leader = false;
  others = codes "s/0" ∷ [];
  planned = 2;
  ost_storage = some (codes "/dev/a" ∷ codes "/dev/b" ∷ codes "/dev/c" ∷ []);
}

-- The second unit hears of the first, and sets its OST up.
second_joins : Reach server last_info started joined
unfolding on_relation_changed text_beq sorted oss_setup unit_num split int is_space oss_setup_at
    ost_zpool ensure_zfs_import_service pool_exists lustre_target target_exists mount insert lookup
second_joins = next here (relation_changed second (some (codes "s/0")) (world started) refl refl)

mgs_stable_example : app_data joined ≡ app_data started
unfolding is_assigned
mgs_stable_example = mgs_stable server last_info second_joins refl

ready_stable_example : (unit_data joined (codes "s/0")).ready ≡ true
unfolding unit_data lookup text_beq
ready_stable_example = ready_stable server last_info (codes "s/0") second_joins refl

set_unit_ready_publishes_example :
    let bags' =
      with_unit joined (codes "s/0") (record (unit_data joined (codes "s/0")) { ready = true }) in
    let w' : World server last_info = record (world joined) { relation = some bags' } in
    set_unit_ready first nids (codes "lustrefs") (world joined) ≡ (
      if true && leb 1 (length (ready_units bags' (codes "s/0" ∷ codes "s/1" ∷ [])))
      then published (record { mgs_ids = nids; fs_name = codes "lustrefs" }) w'
      else (ok tt, w'))
set_unit_ready_publishes_example =
    set_unit_ready_publishes first nids (codes "lustrefs") joined (world joined) refl

promote_keeps_mgs_example :
    ((promote_mgs_nids (codes "s/0") nids (world started)).1 ≡ world started)
    × (((promote_mgs_nids (codes "s/0") nids (world started)).0 ≡ ok tt)
        ↔ ((is_named assigned (codes "s/0") ≡ true) × Perm nids nids))
unfolding is_assigned
promote_keeps_mgs_example = promote_keeps_mgs (codes "s/0") nids started (world started) refl refl

check_lustre_active_example :
    (check_lustre server (codes "s/1") unknown (some assigned) tt ≡ active oss_ready)
    ↔ IsHealthy server tt (codes "s/1") assigned oss_ready
check_lustre_active_example = check_lustre_active server (codes "s/1") assigned tt unknown oss_ready

check_lustre_keeps_error_example :
    (check_lustre server (codes "s/1") (blocked failed_oss_setup) (some assigned) tt
      ≡ blocked failed_oss_setup)
    ⊎ ((d : AppData) × (m : Message) × (some assigned ≡ some d)
        × IsHealthy server tt (codes "s/1") d m
        × (check_lustre server (codes "s/1") (blocked failed_oss_setup) (some assigned) tt
            ≡ active m))
check_lustre_keeps_error_example =
    check_lustre_keeps_error server (codes "s/1") tt failed_oss_setup (some assigned)
