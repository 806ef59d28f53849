-- ===== src/Lustre/Charm.antt =====
-- charms/lustre-server/src/charm.py: the handlers of the Lustre server charm, without the
-- decorator `refresh`, which turns `StopCharm` and `check_lustre` into the unit's status.
pub mod Kept
pub mod Install
use filesystem_charms.Base.{
  ℕ, zero, suc, Bool, true, false, not, ◌&&◌, Option, none, some, List, [], ◌∷◌, is_empty, text_eq,
  ◌==◌, if◌then◌else◌,
}
use filesystem_charms.Base.Exec.{Result, Exec, ok, err, pure, raise, wrap, ◌>>=◌, ◌>>◌}
use filesystem_charms.Base.Sort.{sorted}
use filesystem_charms.Base.Text.{Text, codes}
use filesystem_charms.Filesystem.{Provider}
use filesystem_charms.Lnet.{Networks, LnetError}
use filesystem_charms.Lnet.Reconcile.{init}
use filesystem_charms.Lnet.Show.{Yaml}
use filesystem_charms.Lnet.Spec.{parse_network_config}
use filesystem_charms.LustreFs.{
  FsError, device_count, os_error, is_lustre_installed, mgs_mds_setup, oss_setup,
}
use filesystem_charms.Lustre.{
  AppData, Status, blocked, maintenance, is_blocked, lustre_fsname, failed_peer_data,
  failed_oss_setup, invalid_oss_device_count, multiple_mgs_units, repo_setup, failed_repo_setup,
  waiting_for_packages, package_install, lnet_init, failed_lnet_init, preparing_services,
  starting_services, failed_mgs_mds_setup, invalid_mgt_mdt_device_count, duplicate_storage,
  no_storage_attached, failed_install,
}
use filesystem_charms.Lustre.Peers.{
  Hook, PeerError, duplicate_mgs, is_peer_error, World, get_app_data, set_unit_ready,
}
use filesystem_charms.Lustre.Peers.Handlers.{mgs_nids_published}
use filesystem_charms.Lustre.State.{is_unpublished}
use filesystem_charms.Ppa.{RepositoryError, Apt, attempt, setup_lustre_repository}
use filesystem_charms.System.{System}

-- What the set-up of a role raises.
pub data ServiceError : Type 0 where
  of_fs : FsError → ServiceError
  of_peers : PeerError → ServiceError

-- What a handler raises: `StopCharm`, or an exception that it does not catch.
pub data CharmError : Type 0 where
  stop : Status → CharmError
  storage_not_provisioned : CharmError
  uncaught : ServiceError → CharmError
  install_raised : CharmError

abbrev pub lustre_packages : List Text
lustre_packages =
    codes "lustre-server-modules-dkms"
    ∷ codes "lustre-server-utils"
    ∷ codes "zfsutils-linux"
    ∷ codes "rdma-core"
    ∷ []

-- The `except` clauses of `_become_mgs_mds`.
unfoldable pub mgs_mds_failure : ServiceError → CharmError
mgs_mds_failure (of_fs (device_count f)) = stop (blocked invalid_mgt_mdt_device_count)
mgs_mds_failure (of_fs os_error) = uncaught (of_fs os_error)
mgs_mds_failure (of_peers (duplicate_mgs name mgs)) = stop (blocked multiple_mgs_units)
mgs_mds_failure (of_peers e) =
    if is_peer_error e then stop (blocked failed_mgs_mds_setup) else uncaught (of_peers e)
mgs_mds_failure (of_fs e) = stop (blocked failed_mgs_mds_setup)

-- The `except` clauses of `_become_oss`.
unfoldable pub oss_failure : ServiceError → CharmError
oss_failure (of_fs (device_count f)) = stop (blocked invalid_oss_device_count)
oss_failure (of_fs os_error) = uncaught (of_fs os_error)
oss_failure (of_fs e) = stop (blocked failed_oss_setup)
oss_failure (of_peers e) =
    if is_peer_error e then stop (blocked failed_oss_setup) else uncaught (of_peers e)

-- `_get_storage_devices`, from the locations of the two storages as the decorator `retry` of
-- `tenacity` ends up with them: nothing if it gives up and raises the `ModelError` again.
unfoldable pub get_storage_devices : Option (List Text × List Text) → Option (List Text × List Text)
get_storage_devices none = none
get_storage_devices (some (mgt_mdt, ost)) = some (sorted mgt_mdt, sorted ost)

-- `data.mgs_unit_name is not None and data.mgs_unit_name != name`
unfoldable pub is_other_mgs : AppData → Text → Bool
is_other_mgs d name = elim d.mgs_unit_name [ none ↦ false | some mgs ↦ not (mgs == name) ]

abbrev pub Handler : (S : System) → Provider → Type 0
Handler S F = Exec (World S F) CharmError (Unit {0})

module _ {S : System} {F : Provider} where
  abbrev pub put_status : {E : Type 0} → Status → Exec (World S F) E (Unit {0})
  put_status status w = (ok tt, record w { status = status })

  -- Code of another module on this unit's machine.
  abbrev pub of_machine : {E A : Type 0} → Exec S.World E A → Exec (World S F) E A
  of_machine m w = let (r, machine) = m w.machine in (r, record w { machine = machine })

  unfoldable pub become_mgs_mds : Hook → List Text → Handler S F
  unfolding mgs_mds_failure
  become_mgs_mds hook devices = wrap mgs_mds_failure do
    of_machine (wrap of_fs (mgs_mds_setup S lustre_fsname devices))
    wrap of_peers (mgs_nids_published hook)

  unfoldable pub become_oss : Hook → List Text → AppData → Handler S F
  unfolding oss_failure is_unpublished
  become_oss hook devices d =
      if is_unpublished d
      then pure tt
      else wrap oss_failure do
        of_machine (wrap of_fs (oss_setup S lustre_fsname hook.name d.mgs_nids devices))
        wrap of_peers (set_unit_ready hook d.mgs_nids lustre_fsname)

  -- `_on_start` from the devices on.
  unfoldable pub choose_role : Hook → AppData → List Text → List Text → Handler S F
  unfolding become_mgs_mds become_oss is_other_mgs
  choose_role hook d mgt_mdt_devices ost_devices =
      if not (is_empty mgt_mdt_devices) && not (is_empty ost_devices)
      then raise (stop (blocked duplicate_storage))
      else if not (is_empty mgt_mdt_devices) && is_other_mgs d hook.name
      then raise (stop (blocked multiple_mgs_units))
      else if not (is_empty mgt_mdt_devices)
      then become_mgs_mds hook mgt_mdt_devices
      else if not (is_empty ost_devices)
      then become_oss hook ost_devices d
      else raise (stop (blocked no_storage_attached))

  -- `_on_start` from the peer data on.
  unfoldable pub start_services : Hook → Option (List Text × List Text) → Handler S F
  unfolding choose_role get_storage_devices
  start_services hook storages = do
    d ← wrap (λ e. stop (blocked failed_peer_data)) get_app_data
    elim (get_storage_devices storages) as (λ _. Handler S F) [
      | none ↦ raise storage_not_provisioned
      | some (mgt_mdt_devices, ost_devices) ↦ choose_role hook d mgt_mdt_devices ost_devices
    ]

  unfoldable pub on_start : Hook → Option (List Text × List Text) → Handler S F
  unfolding start_services is_lustre_installed
  on_start hook storages w =
      let (installed, machine) = is_lustre_installed S w.machine in
      let w' : World S F = record w { machine = machine } in
      if installed
      then start_services hook storages (record w' { status = maintenance starting_services })
      else if is_blocked w.status
      then (ok tt, w')
      else (err (stop (maintenance waiting_for_packages)), w')
