-- ===== src/Proxies.antt =====
-- The proxy charms: charms/nfs-server-proxy/src/charm.py, charms/cephfs-server-proxy/src/charm.py and
-- charms/lustre-server-proxy/src/charm.py.
pub mod Publish
use filesystem_charms.Base.{
  Bool, true, false, not, ◌||◌, Option, none, some, List, [], ◌∷◌, ◌++◌, is_empty, if◌then◌else◌,
}
use filesystem_charms.Base.Exec.{Result, Exec, ok, err, bind_result, pure, ◌>>◌}
use filesystem_charms.Base.Text.{Text, codes, split_once, words}
use filesystem_charms.Base.Text.Number.{ℤ}
use filesystem_charms.Filesystem.{
  NfsInfo, CephfsInfo, LustreInfo, FilesystemInfo, nfs, cephfs, lustre, Provider,
}
use filesystem_charms.Filesystem.Uri.{or_empty}

-- The messages of the blocked statuses.
pub data ProxyMessage : Type 0 where
  no_hostname no_path no_mgs_nids no_fs_name : ProxyMessage
  missing_configuration : List Text → ProxyMessage
  invalid_sharepoint : Text → ProxyMessage
  invalid_auth_info : Text → ProxyMessage

pub data ProxyStatus : Type 0 where
  unset active : ProxyStatus
  blocked : ProxyMessage → ProxyStatus

-- What `self.config.get` gives for each option.
pub record NfsConfig : Type 0 where
  pub hostname : Option Text
  pub path : Option Text
  pub port : Option ℤ
  pub force_v4 : Bool

pub record CephfsConfig : Type 0 where
  pub fsid : Option Text
  pub sharepoint : Option Text
  pub monitor_hosts : Option Text
  pub auth_info : Option Text

pub record LustreConfig : Type 0 where
  pub mgs_nids : Option Text
  pub fs_name : Option Text

-- The checks of `NFSServerProxyCharm._on_config_changed`.
unfoldable pub nfs_info : NfsConfig → Result ProxyMessage NfsInfo
nfs_info c = elim c.hostname [
  | none ↦ err no_hostname
  | some hostname ↦ elim c.path [
    | none ↦ err no_path
    | some path ↦ ok (record {
      hostname = hostname;
      port = c.port;
      path = path;
      version = if c.force_v4 then some (codes "4") else none;
    })
  ]
]

-- The checks of `LustreServerProxyCharm._on_config_changed`.
unfoldable pub lustre_info : LustreConfig → Result ProxyMessage LustreInfo
unfolding words
lustre_info c =
    if is_empty (or_empty c.mgs_nids)
    then err no_mgs_nids
    else if is_empty (or_empty c.fs_name)
    then err no_fs_name
    else ok (record { mgs_ids = words (or_empty c.mgs_nids); fs_name = or_empty c.fs_name })

-- `[key] if not value else []`
abbrev if_missing : Text → Option Text → List Text
if_missing key value = if is_empty (or_empty value) then key ∷ [] else []

-- `missing`, in the order of `_REQUIRED_CONFIGS`
unfoldable pub missing : CephfsConfig → List Text
missing c =
    if_missing (codes "fsid") c.fsid
    ++ (if_missing (codes "sharepoint") c.sharepoint
        ++ (if_missing (codes "monitor-hosts") c.monitor_hosts
            ++ if_missing (codes "auth-info") c.auth_info))

-- `cfg.split(":", maxsplit=1)`, refused unless it has two parts that are not empty.
unfoldable pub two_parts : ProxyMessage → Text → Result ProxyMessage (Text × Text)
unfolding split_once
two_parts message cfg = elim (split_once b':' cfg) [
  | none ↦ err message
  | some (a, b) ↦ if is_empty a || is_empty b then err message else ok (a, b)
]

-- The checks of `CephFSServerProxyCharm._on_config_changed`.
unfoldable pub cephfs_info : CephfsConfig → Result ProxyMessage CephfsInfo
unfolding missing two_parts words
cephfs_info c =
    let sharepoint = or_empty c.sharepoint in
    let auth_info = or_empty c.auth_info in
    if not (is_empty (missing c))
    then err (missing_configuration (missing c))
    else bind_result (two_parts (invalid_sharepoint sharepoint) sharepoint) (λ (name, path).
      bind_result (two_parts (invalid_auth_info auth_info) auth_info) (λ (user, key). ok (record {
        fsid = or_empty c.fsid;
        name = name;
        path = path;
        monitor_hosts = words (or_empty c.monitor_hosts);
        user = user;
        key = key;
      })))

-- A proxy's provider, and the status of its unit.
pub record ProxyWorld (F : Provider) : Type 0 where
  pub filesystem : F.State
  pub status : ProxyStatus

module _ {F : Provider} where
  -- `self._filesystem.set_info(…)`; what it raises ends the handler.
  unfoldable pub publish_info : FilesystemInfo → Exec (ProxyWorld F) (Unit {0}) (Unit {0})
  publish_info info w =
      let (done, f) = F.set_info info w.filesystem in
      (if done then ok tt else err tt, record w { filesystem = f })

  -- `self.unit.status = …`
  unfoldable pub set_unit_status : ProxyStatus → Exec (ProxyWorld F) (Unit {0}) (Unit {0})
  set_unit_status status w = (ok tt, record w { status = status })

  -- The handler after its checks.
  unfoldable pub conclude :
      Result ProxyMessage FilesystemInfo → Exec (ProxyWorld F) (Unit {0}) (Unit {0})
  unfolding publish_info set_unit_status
  conclude (err message) = set_unit_status (blocked message)
  conclude (ok info) = publish_info info >> set_unit_status active

  -- `_on_config_changed` of each proxy
  unfoldable pub nfs_config_changed : NfsConfig → Exec (ProxyWorld F) (Unit {0}) (Unit {0})
  unfolding nfs_info conclude
  nfs_config_changed c = conclude (bind_result (nfs_info c) (λ info. ok (nfs info)))

  unfoldable pub cephfs_config_changed : CephfsConfig → Exec (ProxyWorld F) (Unit {0}) (Unit {0})
  unfolding cephfs_info conclude
  cephfs_config_changed c = conclude (bind_result (cephfs_info c) (λ info. ok (cephfs info)))

  unfoldable pub lustre_config_changed : LustreConfig → Exec (ProxyWorld F) (Unit {0}) (Unit {0})
  unfolding lustre_info conclude
  lustre_config_changed c = conclude (bind_result (lustre_info c) (λ info. ok (lustre info)))
