-- ===== src/Client/Handler.antt =====
-- `_handle_event` of charms/filesystem-client/src/charm.py, without the unit's and the
-- application's statuses but those with which it stops.
use filesystem_charms.Base.{
  ◌≡◌, refl, ap, ◌∙◌, map, Bool, true, false, not, some, List, [], ◌∷◌, if◌then◌else◌,
}
use filesystem_charms.Base.Exec.{Result, Exec, ok, err, raise, lift, wrap, when, ◌>>=◌, ◌>>◌}
use filesystem_charms.Base.Dict.{Dict}
use filesystem_charms.Base.Text.{Text}
use filesystem_charms.Client.{MountEntry, MountsManager, Host}
use filesystem_charms.Client.Config.{ConfigStop, unreadable, get_config, mount_options}
use filesystem_charms.Client.Mount.{MountInfo, Codec, MountRelation, active_relations}
use filesystem_charms.Client.Mount.Provides.{set_mount_status}
use filesystem_charms.Client.Mount.Requires.{on_relation_changed}
use filesystem_charms.Client.Mount.Told.{
  told, set_mount_status-set_mount_status, on_relation_changed-set_mount_status,
}
use filesystem_charms.Client.Manager.{World, of_machine, is_setup, setup, supported, apply_mounts}
use filesystem_charms.Client.Mounts.{add}
use filesystem_charms.Filesystem.{FilesystemInfo}
use filesystem_charms.Lnet.{Networks, LnetError}
use filesystem_charms.Lnet.Show.{Yaml}
use filesystem_charms.Lnet.Spec.{parse_network_config}
use filesystem_charms.Ppa.{Apt}
use filesystem_charms.System.{System}

-- The statuses with which the handler stops; `failed` is for any other exception.
pub data EventStop : Type 0 where
  of_config : ConfigStop → EventStop
  in_container waiting_for_provider failed : EventStop

abbrev pub config_stop : ConfigStop → EventStop
config_stop unreadable = failed
config_stop stop = of_config stop

-- What the handler is given: the manager's file names, the configuration, and the information of
-- the providers.
pub record Event : Type 0 where
  pub manager : MountsManager
  pub lnet_networks : Text
  pub config : MountInfo
  pub endpoints : List FilesystemInfo

abbrev pub if_err : {E A : Type 0} → EventStop → Result E A → Result EventStop A
if_err stop (ok a) = ok a
if_err stop (err e) = err stop

-- `self._mount.set_mount_status(mounted=True)`, if nothing was raised.
unfoldable pub finish :
    {W : Type 0}
    → List MountRelation
    → Result EventStop (Unit {0}) × W
    → Result EventStop (Unit {0}) × (List MountRelation × W)
unfolding set_mount_status
finish relations (ok _, w) = (ok tt, (set_mount_status true relations, w))
finish relations (err stop, w) = (err stop, (relations, w))

module _ {S : System} (H : Host S) (A : Apt S) (Y : Yaml) (C : Codec)
    (detect_networks : Exec S.World LnetError Networks) (is_ipv6 : Text → Bool)
    (event : Event) where
  -- The manager after `lnet_networks` was set.
  unfoldable pub configured : Result EventStop MountsManager
  configured =
      if event.manager.enable_lustre
      then elim (parse_network_config event.lnet_networks) [
        | ok networks ↦ ok (record event.manager { lnet_networks = networks })
        | err e ↦ err failed
      ]
      else ok event.manager

  -- `_ensure_setup`
  unfoldable pub ensure_setup : MountsManager → Exec (World S H) EventStop (Unit {0})
  unfolding is_setup setup
  ensure_setup M =
      wrap (λ e. failed) do done ← is_setup H A M; when (not done) (setup H A M Y detect_networks)

  -- The block under `with self._mounts_manager.mounts() as mounts`.
  unfoldable pub add_mounts : List MountRelation → Result EventStop (Dict Text MountEntry)
  unfolding get_config add mount_options active_relations
  add_mounts relations = elim (get_config C event.config (active_relations relations)) [
    | err stop ↦ err (config_stop stop)
    | ok config ↦ elim event.endpoints [
      | [] ↦ err waiting_for_provider
      | info ∷ more ↦ if_err failed (
          add is_ipv6 event.manager.enable_lustre info config.mountpoint
            (some (mount_options config)) [])
    ]
  ]

  -- The `try` block up to the last call.
  unfoldable pub mount_filesystem : List MountRelation → Exec (World S H) EventStop (Unit {0})
  unfolding configured ensure_setup add_mounts supported apply_mounts
  mount_filesystem relations = do
    can_mount ← λ w. (ok (supported H w.machine), w)
    when (not can_mount) (raise in_container)
    M ← lift configured
    ensure_setup M
    mounts ← lift (add_mounts relations)
    of_machine H (wrap (λ e. failed) (apply_mounts H M.autofs_file false mounts))

  unfoldable pub handle_event :
      List MountRelation × World S H
      → Result EventStop (Unit {0}) × (List MountRelation × World S H)
  unfolding mount_filesystem finish
  handle_event (relations, w) =
      let unmounted = set_mount_status false relations in
      finish unmounted (mount_filesystem unmounted w)

abbrev pub returned : {E A : Type 0} → Result E A → Bool
returned (ok a) = true
returned (err e) = false

finish_tells :
    {W : Type 0} (relations : List MountRelation) (x : Result EventStop (Unit {0}) × W)
    → (finish (set_mount_status false relations) x).1.0
      ≡ set_mount_status (returned (finish (set_mount_status false relations) x).0) relations
unfolding finish
finish_tells relations (ok _, w) = set_mount_status-set_mount_status true false relations
finish_tells relations (err stop, w) = refl

module _ {S : System} (H : Host S) (A : Apt S) (Y : Yaml) (C : Codec)
    (detect_networks : Exec S.World LnetError Networks) (is_ipv6 : Text → Bool)
    (event : Event) where
  -- The mount status that is set in the end is whether the handler returned.
  handle_event_tells :
      (relations : List MountRelation) (w : World S H)
      → let (r, after) = handle_event H A Y C detect_networks is_ipv6 event (relations, w) in
        after.0 ≡ set_mount_status (returned r) relations
  unfolding handle_event
  handle_event_tells relations w =
      finish_tells relations (
        mount_filesystem H A Y C detect_networks is_ipv6 event (set_mount_status false relations) w)

  -- After the handler, at the other end of every active relation the event of the filesystem being
  -- mounted is emitted if the handler returned, and that of its not being mounted if it was
  -- stopped.
  pub handle_event_emits :
      (relations : List MountRelation) (w : World S H)
      → let (r, after) = handle_event H A Y C detect_networks is_ipv6 event (relations, w) in
        map on_relation_changed (active_relations after.0)
        ≡ map (told (returned r)) (active_relations relations)
  handle_event_emits relations w =
      let (r, after) = handle_event H A Y C detect_networks is_ipv6 event (relations, w) in
      ap (λ rs. map on_relation_changed (active_relations rs)) (handle_event_tells relations w)
      ∙ on_relation_changed-set_mount_status (returned r) relations
