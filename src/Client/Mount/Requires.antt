-- ===== src/Client/Mount/Requires.antt =====
-- `MountRequires` of charms/filesystem-client/lib/charms/filesystem_client/v0/mount_info.py.
use filesystem_charms.Base.{
  Bool, ℕ, Option, none, some, List, [], ◌∷◌, text_eq, ◌==◌, if◌then◌else◌,
}
use filesystem_charms.Base.Dict.{lookup}
use filesystem_charms.Base.Text.{Text, codes}
use filesystem_charms.Client.Mount.{MountInfo, Codec, MountRelation}

-- The events that are emitted, with the relation.
pub data MountRequiresEvent : Type 0 where
  mount_provider_connected mounted_filesystem unmounted_filesystem mount_provider_disconnected :
      ℕ → MountRequiresEvent

-- `_on_relation_created`
unfoldable pub on_relation_created : Bool → ℕ → List MountRequiresEvent
on_relation_created is_leader id = if is_leader then mount_provider_connected id ∷ [] else []

-- The event for the value of `mounted`.
unfoldable pub status_event : ℕ → Option Text → List MountRequiresEvent
status_event id none = []
status_event id (some mounted) =
    if mounted == codes "true" then mounted_filesystem id ∷ [] else unmounted_filesystem id ∷ []

-- `_on_relation_changed`, when the databag of the client's unit was changed.
unfoldable pub on_relation_changed : MountRelation → List MountRequiresEvent
unfolding lookup status_event
on_relation_changed r = status_event r.id (lookup (codes "mounted") r.unit_data)

-- `_on_relation_broken`
unfoldable pub on_relation_broken : Bool → ℕ → List MountRequiresEvent
on_relation_broken is_leader id = if is_leader then mount_provider_disconnected id ∷ [] else []

-- `set_mount_info`
unfoldable pub set_mount_info : Codec → Bool → MountInfo → MountRelation → MountRelation
set_mount_info C is_leader info r =
    if is_leader then record r { app_data = C.save info r.app_data } else r
