-- ===== src/Lustre/Peers/Kept.antt =====
-- Invariants of the peer relation's data under the operations of the peer observer.
pub mod Changed
use filesystem_charms.Base.{
  ◌≡◌, refl, ◌∙◌, Bool, true, false, Option, none, some, List, arith, is_empty, if◌then◌else◌,
  text_eq,
}
use filesystem_charms.Base.Dict.{insert}
use filesystem_charms.Base.Exec.{>>=_ok, wrap, Exec, ok, err, pure, raise, when, ◌>>=◌, ◌>>◌}
use filesystem_charms.Base.Exec.Keeps.{
  Keeps, Keeps-bind, Keeps-pure, Keeps-choice, Keeps-choice_at, Keeps-raise, Keeps-handle,
  keeps_rules,
}
use filesystem_charms.Base.Sort.{sorted}
use filesystem_charms.Base.Text.{Text}
use filesystem_charms.Filesystem.{Provider, LustreInfo}
use filesystem_charms.LustreFs.{FsError, device_count, os_error, oss_setup}
use filesystem_charms.Lustre.State.{is_unpublished}
use filesystem_charms.Lnet.Nids.{get_nids}
use filesystem_charms.Lustre.{
  blocked, failed_set_unit_ready, lustre_fsname, AppData, UnitData, Status,
}
use filesystem_charms.Lustre.Peers.{
  Databags, Hook, PeerError, duplicate_mgs, nid_query, no_nids, is_peer_error, app_data, unit_data,
  is_named, World, Act, get_relation_checked, put_relation, set_status, get_app_data, get_unit_data,
  set_unit_data, promote_mgs_nids, all_units_ready, set_info, publish_if_ready,
  try_publish_filesystem_info, set_unit_ready,
}
use filesystem_charms.Lustre.Peers.Handlers.{
  on_machine, publish_nids, mgs_nids_published, promote_failed, promote_from, try_promote_mgs,
  oss_setup_failed, oss_setup_on, try_oss_setup, refresh_status, report_ready, configure_services,
  on_relation_changed,
}
use filesystem_charms.System.{System}

-- The databags with one unit's data written.
abbrev pub with_unit : Databags → Text → UnitData → Databags
with_unit bags name u = record bags { units = insert name u bags.units }

-- The peer relation is there, and its data satisfy `Q`.
pub record HasBags {S : System} {F : Provider} (Q : Databags → Type 0) (w : World S F)
    : Type 0 where
  pub bags : Databags
  pub there : w.relation ≡ some bags
  pub holds : Q bags

-- What an invariant of the data has to allow: promotion, and what the code writes as unit data.
pub record IsKept (S : System) (F : Provider) (Q : Databags → Type 0) : Type 0 where
  pub promote :
      (name : Text) (nids : List Text)
      → Keeps (HasBags {S = S} {F = F} Q) (promote_mgs_nids name nids)
  pub set_nids :
      (bags : Databags) (name : Text) (nids : List Text)
      → Q bags
      → Q (with_unit bags name (record (unit_data bags name) { mgs_nids = nids }))
  pub set_ready :
      (bags : Databags) (name : Text)
      → Q bags
      → Q (with_unit bags name (record (unit_data bags name) { ready = true }))

module _ {S : System} {F : Provider} where
  get_unit_data-run :
      (name : Text) (w : World S F) (bags : Databags)
      → w.relation ≡ some bags
      → get_unit_data name w ≡ (ok (unit_data bags name), w)
  unfolding get_unit_data get_relation_checked
  get_unit_data-run name w bags h = ground arith

  set_unit_data-run :
      (u : UnitData) (name : Text) (w : World S F) (bags : Databags)
      → w.relation ≡ some bags
      → set_unit_data u name w ≡ (ok tt, record w { relation = some (with_unit bags name u) })
  unfolding set_unit_data get_relation_checked put_relation
  set_unit_data-run u name w bags h = ground arith

  pub update-run :
      (f : UnitData → UnitData) (name : Text) (rest : Act S F (Unit {0})) (w : World S F)
      (bags : Databags)
      → w.relation ≡ some bags
      → (get_unit_data name >>= λ u. set_unit_data (f u) name >> rest) w
        ≡ rest (record w { relation = some (with_unit bags name (f (unit_data bags name))) })
  update-run f name rest w bags h =
      >>=_ok (get_unit_data name) (λ u. set_unit_data (f u) name >> rest) w
        (get_unit_data-run name w bags h)
      ∙ >>=_ok (set_unit_data (f (unit_data bags name)) name) (λ _. rest) w
          (set_unit_data-run (f (unit_data bags name)) name w bags h)

module _ {S : System} {F : Provider} (Q : Databags → Type 0) (k : IsKept S F Q) where
  abbrev P : World S F → Type 0
  P = HasBags Q

  pub get_relation-kept : Keeps P get_relation_checked
  unfolding get_relation_checked
  get_relation-kept = record { run = λ {w} h. rw (unchanged w) h }
    where
      unchanged : (w : World S F) → (get_relation_checked w).1 ≡ w
      unchanged w = ground arith

  pub set_status-kept : (status : Status) → Keeps P (set_status status)
  unfolding set_status
  set_status-kept status = record {
    run = λ {w} h. record { bags = h.bags; there = h.there; holds = h.holds };
  }

  set_info-kept : (info : LustreInfo) → Keeps P (set_info info)
  unfolding set_info
  set_info-kept info = record {
    run = λ {w} h. record { bags = h.bags; there = h.there; holds = h.holds };
  }

  pub refresh_status-kept : (hook : Hook) → Keeps P (refresh_status hook)
  unfolding refresh_status
  refresh_status-kept hook = record {
    run = λ {w} h. record { bags = h.bags; there = h.there; holds = h.holds };
  }

  -- A unit's data are read, changed and written, and then comes `rest`.
  update-kept :
      (f : UnitData → UnitData) (name : Text) (rest : Act S F (Unit {0}))
      → ((bags : Databags) → Q bags → Q (with_unit bags name (f (unit_data bags name))))
      → Keeps P rest
      → Keeps P (get_unit_data name >>= λ u. set_unit_data (f u) name >> rest)
  update-kept f name rest step kr = record {
    run = λ {w} h.
        let written : World S F = record w {
          relation = some (with_unit h.bags name (f (unit_data h.bags name)));
        } in
        let run : (get_unit_data name >>= λ u. set_unit_data (f u) name >> rest) w ≡ rest written =
          update-run f name rest w h.bags h.there in
        rw run (
          kr.run (record {
            bags = with_unit h.bags name (f (unit_data h.bags name));
            there = refl;
            holds = step h.bags h.holds;
          }));
  }

  pub get_unit_data-kept : (name : Text) → Keeps P (get_unit_data name)
  unfolding get_unit_data
  get_unit_data-kept name =
      Keeps-bind get_relation_checked (λ bags. pure (unit_data bags name)) get_relation-kept
        (λ bags. Keeps-pure (unit_data bags name))

  pub get_app_data-kept : Keeps P get_app_data
  unfolding get_app_data
  get_app_data-kept =
      Keeps-bind get_relation_checked (λ bags. pure (app_data bags)) get_relation-kept
        (λ bags. Keeps-pure (app_data bags))

  on_machine-kept :
      {A : Type 0} (m : Exec S.World PeerError A) → Keeps P (on_machine {S = S} {F = F} m)
  on_machine-kept m = record {
    run = λ {w} h. record { bags = h.bags; there = h.there; holds = h.holds };
  }

  try_publish-kept :
      (hook : Hook) (nids : List Text) (fs_name : Text)
      → Keeps P (try_publish_filesystem_info hook nids fs_name)
  unfolding try_publish_filesystem_info publish_if_ready all_units_ready
  try_publish-kept hook nids fs_name = search (keeps_rules, get_relation-kept, set_info-kept)

  pub set_unit_ready-kept :
      (hook : Hook) (nids : List Text) (fs_name : Text) → Keeps P (set_unit_ready hook nids fs_name)
  unfolding set_unit_ready
  set_unit_ready-kept hook nids fs_name =
      update-kept (λ u. record u { ready = true }) hook.name
        (try_publish_filesystem_info hook nids fs_name) (λ bags. k.set_ready bags hook.name)
        (try_publish-kept hook nids fs_name)

  publish_nids-kept : (hook : Hook) (nids : List Text) → Keeps P (publish_nids hook nids)
  unfolding publish_nids
  publish_nids-kept hook nids =
      update-kept (λ u. record u { mgs_nids = nids }) hook.name
        (when hook.is_leader
          (promote_mgs_nids hook.name nids >> set_unit_ready hook nids lustre_fsname))
        (λ bags. k.set_nids bags hook.name nids)
        (search (keeps_rules, k.promote, set_unit_ready-kept))

  pub mgs_nids_published-kept : (hook : Hook) → Keeps P (mgs_nids_published hook)
  unfolding mgs_nids_published
  mgs_nids_published-kept hook =
      Keeps-bind (on_machine {S = S} {F = F} (wrap nid_query (get_nids S)))
        (λ nids. if is_empty nids then raise no_nids else publish_nids hook nids)
        (on_machine-kept (wrap nid_query (get_nids S)))
        (λ nids. Keeps-choice (is_empty nids) (Keeps-raise no_nids) (publish_nids-kept hook nids))
