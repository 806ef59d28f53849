-- ===== src/Lustre/Peers/Handlers.antt =====
-- The publication of the MGS NIDs and the handler of charms/lustre-server/src/lustre_peer.py.
use filesystem_charms.Base.{
  Bool, true, false, not, Option, none, some, List, is_empty, text_eq, if◌then◌else◌,
}
use filesystem_charms.Base.Exec.{Exec, ok, err, pure, raise, wrap, when, ◌>>=◌, ◌>>◌}
use filesystem_charms.Base.Sort.{sorted, texts_eq}
use filesystem_charms.Base.Text.{Text}
use filesystem_charms.Filesystem.{Provider}
use filesystem_charms.Lnet.Nids.{get_nids}
use filesystem_charms.LustreFs.{FsError, device_count, os_error, oss_setup}
use filesystem_charms.Lustre.{
  AppData, blocked, lustre_fsname, failed_oss_setup, invalid_oss_device_count,
  failed_set_unit_ready, multiple_mgs_units,
}
use filesystem_charms.Lustre.State.{is_unpublished, check_lustre}
use filesystem_charms.System.{System}
use filesystem_charms.Lustre.Peers.{
  Hook, PeerError, no_relation, no_nids, nid_query, duplicate_mgs, nids_changed, publish_failed,
  uncaught_os_error, is_peer_error, is_named, app_data, World, Act, set_status, get_app_data,
  get_unit_data, set_unit_data, promote_mgs_nids, set_unit_ready,
}

module _ {S : System} {F : Provider} where
  -- Code of another module on this unit's machine.
  abbrev pub on_machine : {A : Type 0} → Exec S.World PeerError A → Act S F A
  on_machine m w = let (r, machine) = m w.machine in (r, record w { machine = machine })

  -- The part of `mgs_nids_published` from the NIDs on.
  unfoldable pub publish_nids : Hook → List Text → Act S F (Unit {0})
  unfolding get_unit_data set_unit_data promote_mgs_nids set_unit_ready
  publish_nids hook nids = do
    d ← get_unit_data hook.name
    set_unit_data (record d { mgs_nids = nids }) hook.name
    when hook.is_leader do promote_mgs_nids hook.name nids; set_unit_ready hook nids lustre_fsname

  unfoldable pub mgs_nids_published : Hook → Act S F (Unit {0})
  unfolding publish_nids
  mgs_nids_published hook = do
    nids ← on_machine (wrap nid_query (get_nids S))
    if is_empty nids then raise no_nids else publish_nids hook nids

  -- The handlers of `_try_promote_mgs`.
  unfoldable pub promote_failed : PeerError → Act S F Bool
  unfolding set_status
  promote_failed (duplicate_mgs name mgs) = do set_status (blocked multiple_mgs_units); pure false
  promote_failed publish_failed = raise publish_failed
  promote_failed uncaught_os_error = raise uncaught_os_error
  promote_failed no_relation = pure false
  promote_failed no_nids = pure false
  promote_failed (nid_query e) = pure false
  promote_failed (nids_changed name) = pure false

  -- `try: m except …: handler`
  abbrev pub catch : {A : Type 0} → Act S F A → (PeerError → Act S F A) → Act S F A
  catch m handler w = let (r, w') = m w in elim r [ ok a ↦ (ok a, w') | err e ↦ handler e w' ]

  unfoldable pub promote_from : Text → Act S F Bool
  unfolding get_unit_data promote_mgs_nids
  promote_from name = do
    d ← get_unit_data name
    when (not (is_empty d.mgs_nids)) (promote_mgs_nids name d.mgs_nids)
    pure true

  -- From `event.unit`; whether to go on.
  unfoldable pub try_promote_mgs : Hook → Option Text → Act S F Bool
  unfolding promote_from promote_failed
  try_promote_mgs hook none = pure true
  try_promote_mgs hook (some name) =
      if hook.is_leader then catch (promote_from name) promote_failed else pure true

  -- The handlers of `_try_oss_setup`.
  unfoldable pub oss_setup_failed : FsError → Act S F Bool
  unfolding set_status
  oss_setup_failed (device_count f) = do set_status (blocked invalid_oss_device_count); pure false
  oss_setup_failed os_error = raise uncaught_os_error
  oss_setup_failed _ = do set_status (blocked failed_oss_setup); pure false

  unfoldable pub oss_setup_on : Hook → AppData → List Text → Act S F Bool
  unfolding oss_setup_failed
  oss_setup_on hook d devices w =
      let (r, machine) = oss_setup S lustre_fsname hook.name d.mgs_nids devices w.machine in
      let w' : World S F = record w { machine = machine } in
      elim r [ ok _ ↦ (ok true, w') | err e ↦ oss_setup_failed e w' ]

  unfoldable pub try_oss_setup : Hook → AppData → Act S F Bool
  unfolding oss_setup_on is_named
  try_oss_setup hook d = if is_named d hook.name then pure true else elim hook.ost_storage [
    | none ↦ pure false
    | some locations ↦
        let devices = sorted locations in
        if is_empty devices then pure false else oss_setup_on hook d devices
  ]

  -- `self.model.unit.status = check_lustre(self._charm)`
  unfoldable pub refresh_status : Hook → Act S F (Unit {0})
  refresh_status hook w =
      let data' : Option AppData = elim w.relation [
        | none ↦ none
        | some bags ↦ some (app_data bags)
      ] in
      (ok tt, record w { status = check_lustre S hook.name w.status data' w.machine })

  unfoldable pub report_ready : Hook → AppData → Act S F (Unit {0})
  unfolding set_unit_ready set_status refresh_status
  report_ready hook d w =
      let (r, w') = set_unit_ready hook d.mgs_nids lustre_fsname w in
      elim r [
        | ok _ ↦ refresh_status hook w'
        | err e ↦
            if is_peer_error e then set_status (blocked failed_set_unit_ready) w' else (err e, w')
      ]

  -- The part of `_on_relation_changed` after the promotion.
  unfoldable pub configure_services : Hook → Act S F (Unit {0})
  unfolding get_app_data is_unpublished try_oss_setup report_ready
  configure_services hook w =
      let (r, w') = get_app_data w in
      elim r [
        | err e ↦ (ok tt, w')
        | ok d ↦
            if is_unpublished d
            then (ok tt, w')
            else (do go_on ← try_oss_setup hook d; if go_on then report_ready hook d else pure tt)
                w'
      ]

  unfoldable pub on_relation_changed : Hook → Option Text → Act S F (Unit {0})
  unfolding try_promote_mgs configure_services
  on_relation_changed hook event_unit = do
    go_on ← try_promote_mgs hook event_unit
    if go_on then configure_services hook else pure tt
