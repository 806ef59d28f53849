-- ===== src/Lustre/Charm/Kept.antt =====
-- Invariants of the peer relation's data under `_on_start`.
use filesystem_charms.Base.{Bool, true, false, Option, none, some, List, if◌then◌else◌}
use filesystem_charms.Base.Exec.{Exec, ok, err, pure, raise, wrap, ◌>>◌}
use filesystem_charms.Base.Exec.Keeps.{
  Keeps, Keeps-pure, Keeps-raise, Keeps-bind, Keeps-handle, Keeps-choice, keeps_rules,
}
use filesystem_charms.Base.Text.{Text}
use filesystem_charms.Filesystem.{Provider}
use filesystem_charms.LustreFs.{is_lustre_installed, mgs_mds_setup, oss_setup}
use filesystem_charms.Lustre.{
  AppData, blocked, maintenance, is_blocked, lustre_fsname, failed_peer_data, starting_services,
  waiting_for_packages,
}
use filesystem_charms.Lustre.Charm.{
  stop, storage_not_provisioned, of_fs, of_peers, mgs_mds_failure, oss_failure, get_storage_devices,
  Handler, of_machine, become_mgs_mds, become_oss, choose_role, start_services, on_start,
}
use filesystem_charms.Lustre.Peers.{Databags, Hook, World, get_app_data, set_unit_ready}
use filesystem_charms.Lustre.Peers.Handlers.{mgs_nids_published}
use filesystem_charms.Lustre.Peers.Kept.{
  HasBags, IsKept, set_unit_ready-kept, mgs_nids_published-kept, get_app_data-kept,
}
use filesystem_charms.Lustre.State.{is_unpublished}
use filesystem_charms.System.{System}

wrap-kept :
    {W E F A : Type 0} {P : W → Type 0} (f : E → F) (m : Exec W E A)
    → Keeps P m
    → Keeps P (wrap f m)
wrap-kept f m k = Keeps-handle m pure (λ e. raise (f e)) k Keeps-pure (λ e. Keeps-raise (f e))

module _ {S : System} {F : Provider} (Q : Databags → Type 0) (k : IsKept S F Q) where
  abbrev P : World S F → Type 0
  P = HasBags Q

  of_machine-kept : {E A : Type 0} (m : Exec S.World E A) → Keeps P (of_machine {S = S} {F = F} m)
  of_machine-kept m = record {
    run = λ {w} h. record { bags = h.bags; there = h.there; holds = h.holds };
  }

  become_mgs_mds-kept : (hook : Hook) (devices : List Text) → Keeps P (become_mgs_mds hook devices)
  unfolding become_mgs_mds
  become_mgs_mds-kept hook devices =
      wrap-kept mgs_mds_failure
        (of_machine {S = S} {F = F} (wrap of_fs (mgs_mds_setup S lustre_fsname devices))
          >> wrap of_peers (mgs_nids_published hook))
        (Keeps-bind
          (of_machine {S = S} {F = F} (wrap of_fs (mgs_mds_setup S lustre_fsname devices)))
          (λ _. wrap of_peers (mgs_nids_published hook))
          (of_machine-kept (wrap of_fs (mgs_mds_setup S lustre_fsname devices)))
          (λ _. wrap-kept of_peers (mgs_nids_published hook) (mgs_nids_published-kept Q k hook)))

  become_oss-kept :
      (hook : Hook) (devices : List Text) (d : AppData) → Keeps P (become_oss hook devices d)
  unfolding become_oss
  become_oss-kept hook devices d = Keeps-choice (is_unpublished d) (Keeps-pure tt) (
      wrap-kept oss_failure
        (of_machine {S = S} {F = F}
            (wrap of_fs (oss_setup S lustre_fsname hook.name d.mgs_nids devices))
          >> wrap of_peers (set_unit_ready hook d.mgs_nids lustre_fsname))
        (Keeps-bind
          (of_machine {S = S} {F = F}
            (wrap of_fs (oss_setup S lustre_fsname hook.name d.mgs_nids devices)))
          (λ _. wrap of_peers (set_unit_ready hook d.mgs_nids lustre_fsname))
          (of_machine-kept (wrap of_fs (oss_setup S lustre_fsname hook.name d.mgs_nids devices)))
          (λ _.
            wrap-kept of_peers (set_unit_ready hook d.mgs_nids lustre_fsname)
              (set_unit_ready-kept Q k hook d.mgs_nids lustre_fsname))))

  choose_role-kept :
      (hook : Hook) (d : AppData) (mgt_mdt_devices ost_devices : List Text)
      → Keeps P (choose_role hook d mgt_mdt_devices ost_devices)
  unfolding choose_role
  choose_role-kept hook d mgt_mdt_devices ost_devices =
      search (keeps_rules, become_mgs_mds-kept, become_oss-kept)

  start_services-kept :
      (hook : Hook) (storages : Option (List Text × List Text))
      → Keeps P (start_services hook storages)
  unfolding start_services
  start_services-kept hook storages =
      Keeps-bind (wrap (λ e. stop (blocked failed_peer_data)) get_app_data)
        (λ d. elim (get_storage_devices storages) as (λ _. Handler S F) [
          | none ↦ raise storage_not_provisioned
          | some (mgt_mdt_devices, ost_devices) ↦ choose_role hook d mgt_mdt_devices ost_devices
        ])
        (wrap-kept (λ e. stop (blocked failed_peer_data)) get_app_data (get_app_data-kept Q k))
        (λ d. with_devices d (get_storage_devices storages))
    where
      with_devices :
          (d : AppData) (devices : Option (List Text × List Text))
          → Keeps P (elim devices as (λ _. Handler S F) [
            | none ↦ raise storage_not_provisioned
            | some (mgt_mdt_devices, ost_devices) ↦ choose_role hook d mgt_mdt_devices ost_devices
          ])
      with_devices d none = Keeps-raise storage_not_provisioned
      with_devices d (some (mgt_mdt_devices, ost_devices)) =
          choose_role-kept hook d mgt_mdt_devices ost_devices

  pub on_start-kept :
      (hook : Hook) (storages : Option (List Text × List Text)) → Keeps P (on_start hook storages)
  unfolding on_start
  on_start-kept hook storages = record {
    run = λ {w} h.
        let machine = (is_lustre_installed S w.machine).1 in
        by_case (is_lustre_installed S w.machine).0 (is_blocked w.status)
          (record w { machine = machine; status = maintenance starting_services })
          (record w { machine = machine })
          (record { bags = h.bags; there = h.there; holds = h.holds })
          (record { bags = h.bags; there = h.there; holds = h.holds });
  }
    where
      by_case :
          (installed failed : Bool) (w₁ w₂ : World S F)
          → P w₁
          → P w₂
          → P
              (if installed
                then start_services hook storages w₁
                else if failed
                then (ok tt, w₂)
                else (err (stop (maintenance waiting_for_packages)), w₂)).1
      by_case true failed w₁ w₂ h₁ h₂ = (start_services-kept hook storages).run h₁
      by_case false true w₁ w₂ h₁ h₂ = h₂
      by_case false false w₁ w₂ h₁ h₂ = h₂
