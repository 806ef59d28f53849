-- ===== src/Lustre/Peers/Kept/Changed.antt =====
-- Invariants of the peer relation's data under `_on_relation_changed`.
use filesystem_charms.Base.{
  Bool, true, false, Option, none, some, List, is_empty, if◌then◌else◌, text_eq,
}
use filesystem_charms.Base.Exec.{Exec, ok, err, pure, raise, ◌>>=◌}
use filesystem_charms.Base.Exec.Keeps.{
  Keeps, Keeps-pure, Keeps-choice, Keeps-choice_at, Keeps-raise, Keeps-handle, keeps_rules,
}
use filesystem_charms.Base.Sort.{sorted}
use filesystem_charms.Base.Text.{Text}
use filesystem_charms.Filesystem.{Provider}
use filesystem_charms.LustreFs.{FsError, device_count, os_error, oss_setup}
use filesystem_charms.Lustre.State.{is_unpublished}
use filesystem_charms.Lustre.{blocked, failed_set_unit_ready, lustre_fsname, AppData}
use filesystem_charms.Lustre.Peers.{
  Databags, Hook, PeerError, duplicate_mgs, is_peer_error, is_named, World, Act, set_status,
  get_app_data, set_unit_ready,
}
use filesystem_charms.Lustre.Peers.Handlers.{
  promote_failed, promote_from, try_promote_mgs, oss_setup_failed, oss_setup_on, try_oss_setup,
  refresh_status, report_ready, configure_services, on_relation_changed,
}
use filesystem_charms.System.{System}
use filesystem_charms.Lustre.Peers.Kept.{
  HasBags, IsKept, set_status-kept, refresh_status-kept, get_unit_data-kept, get_app_data-kept,
  set_unit_ready-kept,
}

module _ {S : System} {F : Provider} (Q : Databags → Type 0) (k : IsKept S F Q) where
  abbrev P : World S F → Type 0
  P = HasBags Q

  promote_from-kept : (name : Text) → Keeps P (promote_from name)
  unfolding promote_from
  promote_from-kept name = search (keeps_rules, get_unit_data-kept Q k, k.promote)

  promote_failed-kept : (e : PeerError) → Keeps P (promote_failed e)
  unfolding promote_failed
  promote_failed-kept (duplicate_mgs name mgs) = search (keeps_rules, set_status-kept Q k)
  promote_failed-kept e = search keeps_rules

  pub try_promote_mgs-kept :
      (hook : Hook) (from : Option Text) → Keeps P (try_promote_mgs hook from)
  unfolding try_promote_mgs
  try_promote_mgs-kept hook none = Keeps-pure true
  try_promote_mgs-kept hook (some name) =
      Keeps-choice hook.is_leader
        (Keeps-handle (promote_from name) pure promote_failed (promote_from-kept name) Keeps-pure
          promote_failed-kept)
        (Keeps-pure true)

  oss_setup_failed-kept : (e : FsError) → Keeps P (oss_setup_failed e)
  unfolding oss_setup_failed
  oss_setup_failed-kept (device_count f) = search (keeps_rules, set_status-kept Q k)
  oss_setup_failed-kept os_error = search keeps_rules
  oss_setup_failed-kept e = search (keeps_rules, set_status-kept Q k)

  machine-kept :
      {E A B : Type 0} (m : Exec S.World E A) (f : A → Act S F B) (g : E → Act S F B)
      → ((a : A) → Keeps P (f a))
      → ((e : E) → Keeps P (g e))
      → Keeps {E = PeerError} {A = B} P (λ w.
        let (r, machine) = m w.machine in
        let w' : World S F = record w { machine = machine } in
        elim r [ ok a ↦ f a w' | err e ↦ g e w' ])
  machine-kept m f g kf kg =
      Keeps-handle (λ w. let (r, machine) = m w.machine in (r, record w { machine = machine })) f g
        (record { run = λ {w} h. record { bags = h.bags; there = h.there; holds = h.holds } }) kf kg

  oss_setup_on-kept :
      (hook : Hook) (d : AppData) (devices : List Text) → Keeps P (oss_setup_on hook d devices)
  unfolding oss_setup_on
  oss_setup_on-kept hook d devices =
      machine-kept (oss_setup S lustre_fsname hook.name d.mgs_nids devices) (λ _. pure true)
        oss_setup_failed (λ _. Keeps-pure true) oss_setup_failed-kept

  try_oss_setup-kept : (hook : Hook) (d : AppData) → Keeps P (try_oss_setup hook d)
  unfolding try_oss_setup
  try_oss_setup-kept hook d =
      Keeps-choice (is_named d hook.name) (Keeps-pure true) (with_storage hook.ost_storage)
    where
      with_storage :
          (storage : Option (List Text))
          → Keeps P (elim storage as (λ _. Act S F Bool) [
            | none ↦ pure false
            | some locations ↦
                if is_empty (sorted locations)
                then pure false
                else oss_setup_on hook d (sorted locations)
          ])
      with_storage none = Keeps-pure false
      with_storage (some locations) =
          Keeps-choice (is_empty (sorted locations)) (Keeps-pure false)
            (oss_setup_on-kept hook d (sorted locations))

  report_ready-kept : (hook : Hook) (d : AppData) → Keeps P (report_ready hook d)
  unfolding report_ready
  report_ready-kept hook d =
      Keeps-handle (set_unit_ready hook d.mgs_nids lustre_fsname) (λ _. refresh_status hook)
        (λ e w.
          if is_peer_error e then set_status (blocked failed_set_unit_ready) w else (err e, w))
        (set_unit_ready-kept Q k hook d.mgs_nids lustre_fsname) (λ _. refresh_status-kept Q k hook)
        (λ e.
          Keeps-choice_at (is_peer_error e) (set_status (blocked failed_set_unit_ready)) (raise e)
            (set_status-kept Q k (blocked failed_set_unit_ready)) (Keeps-raise e))

  configure_services-kept : (hook : Hook) → Keeps P (configure_services hook)
  unfolding configure_services
  configure_services-kept hook =
      Keeps-handle get_app_data
        (λ d w.
          if is_unpublished d
          then (ok tt, w)
          else (try_oss_setup hook d >>= λ go_on. if go_on then report_ready hook d else pure tt) w)
        (λ e. pure tt) (get_app_data-kept Q k)
        (λ d.
          Keeps-choice_at (is_unpublished d) (pure tt)
            (try_oss_setup hook d >>= λ go_on. if go_on then report_ready hook d else pure tt)
            (Keeps-pure tt) (search (keeps_rules, try_oss_setup-kept, report_ready-kept)))
        (λ e. Keeps-pure tt)

  pub on_relation_changed-kept :
      (hook : Hook) (from : Option Text) → Keeps P (on_relation_changed hook from)
  unfolding on_relation_changed
  on_relation_changed-kept hook from =
      search (keeps_rules, try_promote_mgs-kept, configure_services-kept)
