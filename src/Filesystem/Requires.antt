-- ===== src/Filesystem/Requires.antt =====
-- `FilesystemRequires` and its events, of
-- charms/filesystem-client/lib/charms/filesystem_client/v0/filesystem_info.py.
pub mod Read
use filesystem_charms.Base.{
  ◌≡◌, refl, ap, Bool, true, false, ℕ, Option, none, some, List, [], ◌∷◌, is_empty, text_eq, All,
  map, if◌then◌else◌, arith,
}
use filesystem_charms.Base.Dict.{Dict, lookup}
use filesystem_charms.Base.Exec.{Result, ok, err, bind_result}
use filesystem_charms.Base.Text.{Text, codes}
use filesystem_charms.Filesystem.{FilesystemInfo}
use filesystem_charms.Filesystem.Infos.{Secrets, Reader, remote, uri_to_fs_info}
use filesystem_charms.Filesystem.Provides.{Relation, relations}
use filesystem_charms.Filesystem.Uri.{Urllib, InfoError, or_empty}

-- `Endpoint`
pub record Endpoint : Type 0 where
  pub info : FilesystemInfo
  pub uri : Text

-- The events that are emitted, with the relation.
pub data FilesystemEvent : Type 0 where
  mount_filesystem umount_filesystem : ℕ → FilesystemEvent

-- `_on_relation_changed`
unfoldable pub on_relation_changed : ℕ → List FilesystemEvent
on_relation_changed relation = mount_filesystem relation ∷ []

-- `_on_relation_broken`
unfoldable pub on_relation_broken : ℕ → List FilesystemEvent
on_relation_broken relation = umount_filesystem relation ∷ []

module _ (U : Urllib) (S : Secrets) where
  -- `FilesystemEvent.endpoint`
  unfoldable pub event_endpoint : S.World → Relation → Result InfoError (Option Endpoint)
  unfolding lookup uri_to_fs_info
  event_endpoint w r =
      let uri = or_empty (lookup (codes "endpoint") r.databag) in
      if is_empty uri
      then ok none
      else bind_result (uri_to_fs_info U S (remote r.id) w uri)
          (λ info. ok (some (record { info = info; uri = uri })))

  -- The loop of `endpoints`, which ends at the first exception.
  unfoldable pub endpoints_of : S.World → List Relation → Result InfoError (List Endpoint)
  unfolding lookup uri_to_fs_info
  endpoints_of w [] = ok []
  endpoints_of w (r ∷ rs) =
      let uri = or_empty (lookup (codes "endpoint") r.databag) in
      let rest = endpoints_of w rs in
      if is_empty uri
      then rest
      else bind_result (uri_to_fs_info U S (remote r.id) w uri)
          (λ info. bind_result rest (λ es. ok (record { info = info; uri = uri } ∷ es)))

  -- `endpoints`
  unfoldable pub endpoints : S.World → List Relation → Result InfoError (List Endpoint)
  unfolding endpoints_of relations
  endpoints w rs = endpoints_of w (relations rs)
