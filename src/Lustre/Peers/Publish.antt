-- ===== src/Lustre/Peers/Publish.antt =====
-- When a unit that becomes ready publishes the filesystem.
use filesystem_charms.Base.{
  ◌≡◌, ◌∙◌, refl, true, some, List, [], ◌∷◌, arith, leb, ◌&&◌, if◌then◌else◌, filter, length,
}
use filesystem_charms.Base.Exec.{Result, ok, err}
use filesystem_charms.Base.Text.{Text}
use filesystem_charms.Filesystem.{Provider, LustreInfo, lustre}
use filesystem_charms.Lustre.Peers.{
  PeerError, publish_failed, Databags, Hook, World, unit_data, ready_count, get_relation_checked,
  all_units_ready, set_info, publish_if_ready, try_publish_filesystem_info, set_unit_ready,
}
use filesystem_charms.Lustre.Peers.Kept.{with_unit, update-run}
use filesystem_charms.System.{System}

-- The units of a list that have reported ready.
abbrev pub ready_units : Databags → List Text → List Text
ready_units bags = filter (λ name. (unit_data bags name).ready)

ready_count-ready_units :
    (bags : Databags) (names : List Text) → ready_count bags names ≡ length (ready_units bags names)
unfolding ready_count filter
ready_count-ready_units bags [] = refl
ready_count-ready_units bags (name ∷ names) = ground (arith, ready_count-ready_units bags names)

-- What the provider makes of the information it is given.
abbrev pub published :
    {S : System} {F : Provider} → LustreInfo → World S F → Result PeerError (Unit {0}) × World S F
published {F = F} info w =
    let (done, f) = F.set_info (lustre info) w.filesystem in
    (if done then ok tt else err publish_failed, record w { filesystem = f })

module _ {S : System} {F : Provider} where
  try_publish_run :
      (hook : Hook) (nids : List Text) (fs_name : Text) (bags : Databags) (w : World S F)
      → w.relation ≡ some bags
      → try_publish_filesystem_info hook nids fs_name w ≡ (
          if hook.is_leader && leb hook.planned (ready_count bags (hook.name ∷ hook.others))
          then set_info (record { mgs_ids = nids; fs_name = fs_name }) w
          else (ok tt, w))
  unfolding try_publish_filesystem_info publish_if_ready all_units_ready get_relation_checked
  try_publish_run hook nids fs_name bags w h = ground arith

  -- `set_unit_ready` marks the unit ready, keeps its NIDs and the other units' data, and then, if
  -- the unit is the leader and at least as many of the units, itself included, have reported ready
  -- as are planned, gives the provider the information with the given NIDs, once; otherwise it
  -- changes nothing more.
  pub set_unit_ready_publishes :
      (hook : Hook) (nids : List Text) (fs_name : Text) (bags : Databags) (w : World S F)
      → w.relation ≡ some bags
      → let bags' = with_unit bags hook.name (record (unit_data bags hook.name) { ready = true }) in
        let w' : World S F = record w { relation = some bags' } in
        let ready = ready_units bags' (hook.name ∷ hook.others) in
        set_unit_ready hook nids fs_name w ≡ (
          if hook.is_leader && leb hook.planned (length ready)
          then published (record { mgs_ids = nids; fs_name = fs_name }) w'
          else (ok tt, w'))
  unfolding set_unit_ready
  set_unit_ready_publishes hook nids fs_name bags w h =
      let bags' = with_unit bags hook.name (record (unit_data bags hook.name) { ready = true }) in
      rw (← ready_count-ready_units bags' (hook.name ∷ hook.others)) (
        update-run (λ u. record u { ready = true }) hook.name
          (try_publish_filesystem_info hook nids fs_name) w bags h
        ∙ unfold set_info in try_publish_run hook nids fs_name _ _ refl)
