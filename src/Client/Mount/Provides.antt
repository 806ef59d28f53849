-- ===== src/Client/Mount/Provides.antt =====
-- `MountProvides` of charms/filesystem-client/lib/charms/filesystem_client/v0/mount_info.py.
use filesystem_charms.Base.{
  Bool, true, false, ℕ, Option, none, some, List, [], ◌∷◌, map, is_empty, text_eq, if◌then◌else◌,
}
use filesystem_charms.Base.Dict.{lookup, insert}
use filesystem_charms.Base.Exec.{Result, ok, err}
use filesystem_charms.Base.Text.{Text, codes}
use filesystem_charms.Client.Mount.{MountInfo, Codec, MountRelation}
use filesystem_charms.Filesystem.Uri.{or_empty}

-- The events that are emitted, with the relation.
pub data MountProvidesEvent : Type 0 where
  mount_requested mount_unrequested : ℕ → MountProvidesEvent

-- Whether `get("mountpoint")` is a text that is not empty.
unfoldable pub has_mountpoint : MountRelation → Bool
unfolding lookup
has_mountpoint r =
    if is_empty (or_empty (lookup (codes "mountpoint") r.app_data)) then false else true

-- `_on_relation_changed`
unfoldable pub on_relation_changed : MountRelation → List MountProvidesEvent
unfolding has_mountpoint
on_relation_changed r =
    (if has_mountpoint r then mount_requested r.id else mount_unrequested r.id) ∷ []

-- What `load` raises.
pub data LoadError : Type 0 where
  load_failed : LoadError

-- `mount_info`
unfoldable pub mount_info : Codec → MountRelation → Result LoadError (Option MountInfo)
unfolding has_mountpoint
mount_info C r =
    if has_mountpoint r
    then elim (C.load r.app_data) [ none ↦ err load_failed | some info ↦ ok (some info) ]
    else ok none

-- The text that `set_mount_status` writes.
abbrev pub mounted_text : Bool → Text
mounted_text mounted = if mounted then codes "true" else codes "false"

-- `relation.data[self.unit]["mounted"] = ...`
unfoldable pub write_mounted : Bool → MountRelation → MountRelation
unfolding insert
write_mounted mounted r = record r {
  unit_data = insert (codes "mounted") (mounted_text mounted) r.unit_data;
}

-- The relation, if it is active, with its status set.
unfoldable pub set_mounted : Bool → MountRelation → MountRelation
unfolding write_mounted
set_mounted mounted r = if r.ready then write_mounted mounted r else r

-- `set_mount_status`
unfoldable pub set_mount_status : Bool → List MountRelation → List MountRelation
unfolding set_mounted
set_mount_status mounted relations = map (set_mounted mounted) relations
