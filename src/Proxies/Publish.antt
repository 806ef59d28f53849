-- ===== src/Proxies/Publish.antt =====
-- What a proxy that was configured shares with its clients.
use filesystem_charms.Base.{All}
use filesystem_charms.Base.{
  ◌≡◌, ◌≢◌, refl, sym, ap, ◌∙◌, Bool, true, false, some, [], ◌∷◌, ◌++◌, is_empty, if◌then◌else◌,
}
use filesystem_charms.Base.Dict.{Dict}
use filesystem_charms.Base.Exec.{Result, ok, err, >>=_ok}
use filesystem_charms.Base.Text.{Text, has, words}
use filesystem_charms.Base.Text.Laws.{split_once-append}
use filesystem_charms.Filesystem.{CephfsInfo, FilesystemInfo, cephfs, Provider}
use filesystem_charms.Filesystem.Infos.{Secrets}
use filesystem_charms.Filesystem.Infos.Known.{IsShareable}
use filesystem_charms.Filesystem.Infos.Roundtrip.{IsCephfs}
use filesystem_charms.Filesystem.Infos.Secret.{IsJuju}
use filesystem_charms.Filesystem.Provides.{provider, set_info}
use filesystem_charms.Filesystem.Provides.Loop.{Published}
use filesystem_charms.Filesystem.Provides.Published.{set_info-Published}
use filesystem_charms.Filesystem.Uri.{Urllib, InfoError}
use filesystem_charms.Filesystem.Uri.Lawful.{IsUrllib, is_empty-ne-nil, IsAbsolute-ne-nil}
use filesystem_charms.Proxies.{
  ProxyMessage, ProxyWorld, active, CephfsConfig, missing, two_parts, cephfs_info, publish_info,
  set_unit_status, conclude, cephfs_config_changed,
}

two_parts_lem :
    (message : ProxyMessage) (a b : Text)
    → has b':' a ≡ false
    → a ≢ []
    → b ≢ []
    → two_parts message (a ++ b':' ∷ b) ≡ ok (a, b)
unfolding two_parts
two_parts_lem message a b h na nb =
    rw (two_parts, split_once-append b':' a b h, is_empty-ne-nil a na, is_empty-ne-nil b nb) refl

-- The configuration of a CephFS share.
pub cephfs_config : CephfsInfo → Text → CephfsConfig
cephfs_config info hosts = record {
  fsid = some info.fsid;
  sharepoint = some (info.name ++ b':' ∷ info.path);
  monitor_hosts = some hosts;
  auth_info = some (info.user ++ b':' ∷ info.key);
}

no_words : words [] ≡ []
unfolding words
no_words = refl

append_filled : (a b : Text) → is_empty (a ++ b':' ∷ b) ≡ false
append_filled [] b = refl
append_filled (c ∷ a) b = refl

module _ (info : CephfsInfo) (hosts : Text) where
  missing-cephfs_config : info.fsid ≢ [] → hosts ≢ [] → missing (cephfs_config info hosts) ≡ []
  unfolding missing cephfs_config
  missing-cephfs_config f h =
      rw
        (
          missing,
          is_empty-ne-nil info.fsid f,
          is_empty-ne-nil hosts h,
          append_filled info.name info.path,
          append_filled info.user info.key,
        )
        refl

  cephfs_info-cephfs_config :
      IsCephfs info
      → hosts ≢ []
      → words hosts ≡ info.monitor_hosts
      → has b':' info.name ≡ false
      → has b':' info.user ≡ false
      → info.key ≢ []
      → cephfs_info (cephfs_config info hosts) ≡ ok info
  unfolding cephfs_info cephfs_config
  cephfs_info-cephfs_config c filled e hn hu hk =
      rw
        (
          cephfs_info,
          missing-cephfs_config c.fsid filled,
          two_parts_lem _ info.name info.path hn c.named (IsAbsolute-ne-nil info.path c.path),
          two_parts_lem _ info.user info.key hu c.some_user hk,
        )
        (ap (λ h. ok (record info { monitor_hosts = h })) e)

publish_info_done :
    {F : Provider} (info : FilesystemInfo) (f : F.State) (w : ProxyWorld F)
    → F.set_info info w.filesystem ≡ (true, f)
    → publish_info info w ≡ (ok tt, record w { filesystem = f })
unfolding publish_info
publish_info_done {F} info f w e =
    ap (λ (x : Bool × F.State). (if x.0 then ok tt else err tt, record w { filesystem = x.1 })) e

conclude-published :
    {F : Provider} (info : FilesystemInfo) (f : F.State) (w : ProxyWorld F)
    → F.set_info info w.filesystem ≡ (true, f)
    → conclude (ok info) w ≡ (ok tt, record { filesystem = f; status = active })
unfolding conclude set_unit_status
conclude-published info f w e =
    >>=_ok (publish_info info) (λ _. set_unit_status active) w (publish_info_done info f w e)

module _ (U : Urllib) (u : IsUrllib U) (S : Secrets) (j : IsJuju S) (is_ipv6 : Text → Bool) where
  abbrev Proxy : Type 0
  Proxy = ProxyWorld (provider U S is_ipv6 true)

  conclude-Published :
      (info : FilesystemInfo) (d : Dict Text Text) (w : Proxy)
      → IsShareable is_ipv6 info
      → All (λ r. S.related r.id ≡ true) w.filesystem.clients
      → w.filesystem.peers ≡ some d
      → let (r, w') = conclude (ok info) w in
        (r ≡ ok tt)
        × (w'.status ≡ active)
        × (uri : Text) × Published U u S j is_ipv6 info uri w'.filesystem
  conclude-Published info d w h there e =
      let (done, uri, published) =
        set_info-Published U u S j is_ipv6 info d w.filesystem h there e in
      let s = (set_info U S is_ipv6 true info w.filesystem).1 in
      let returned =
        ap (λ (x : Result InfoError (Unit {0})). (elim x [ ok _ ↦ true | err _ ↦ false ], s))
          done in
      let concluded =
        conclude-published info (set_info U S is_ipv6 true info w.filesystem).1 w returned in
      rw concluded (refl, refl, uri, published)

  -- The leader of a CephFS proxy with a peer relation, configured with `name:path`, `user:key`, a
  -- file system id and monitor hosts that a URI can carry, where name and user have no `:` and no
  -- part is empty, publishes exactly that share and becomes active, if its clients' relations
  -- are there and `urllib.parse` and Juju's secrets do what the code relies on.
  pub cephfs_config_changed-Published :
      (info : CephfsInfo) (hosts : Text) (d : Dict Text Text) (w : Proxy)
      → IsCephfs info
      → words hosts ≡ info.monitor_hosts
      → has b':' info.name ≡ false
      → has b':' info.user ≡ false
      → info.key ≢ []
      → All (λ r. S.related r.id ≡ true) w.filesystem.clients
      → w.filesystem.peers ≡ some d
      → let (r, w') = cephfs_config_changed (cephfs_config info hosts) w in
        (r ≡ ok tt)
        × (w'.status ≡ active)
        × (uri : Text) × Published U u S j is_ipv6 (cephfs info) uri w'.filesystem
  unfolding cephfs_config_changed
  cephfs_config_changed-Published info hosts d w c e hn hu hk there p =
      let read =
        cephfs_info-cephfs_config info hosts c (λ q. c.some_host (sym e ∙ ap words q ∙ no_words)) e
          hn hu hk in
      rw (cephfs_config_changed, read) (conclude-Published (cephfs info) d w c there p)
