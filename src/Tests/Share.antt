-- ===== src/Tests/Share.antt =====
-- A provider that shares a filesystem with two clients, and a proxy charm.
use filesystem_charms.Filesystem.Hosts.{nonzero_port}
use filesystem_charms.Base.{◌≡◌, refl, Bool, true, false, none, some, [], ◌∷◌, map}
use filesystem_charms.Base.Exec.{ok, bind_result}
use filesystem_charms.Base.Text.{Text, codes, has, words}
use filesystem_charms.Base.Text.Number.{pos}
use filesystem_charms.Filesystem.{NfsInfo, CephfsInfo, nfs, cephfs}
use filesystem_charms.Filesystem.Infos.{owner, to_uri, uri_to_fs_info}
use filesystem_charms.Filesystem.Infos.Known.{uri_to_fs_info-to_uri}
use filesystem_charms.Filesystem.Infos.Roundtrip.{IsNfs, IsCephfs}
use filesystem_charms.Filesystem.Provides.{World, relations, provider, set_info, update_relation}
use filesystem_charms.Filesystem.Provides.Loop.{Published}
use filesystem_charms.Filesystem.Provides.Published.{
  set_info-Published, joined, update_relation-Published,
}
use filesystem_charms.Filesystem.Requires.{endpoints}
use filesystem_charms.Filesystem.Requires.Read.{endpoints-Published}
use filesystem_charms.Proxies.{active, unset, cephfs_config_changed}
use filesystem_charms.Proxies.Publish.{cephfs_config, cephfs_config_changed-Published}
use filesystem_charms.Tests.Secrets.{secrets, secrets-IsJuju}
use filesystem_charms.Tests.Uri.{urllib, urllib-IsUrllib}

abbrev is_ipv6 : Text → Bool
is_ipv6 t = false

abbrev ceph_share : CephfsInfo
ceph_share = record {
  fsid = codes "ab12";
  name = codes "fs";
  path = codes "/data";
  monitor_hosts = codes "mon1" ∷ codes "mon2" ∷ [];
  user = codes "fsuser";
  key = codes "K==";
}

ceph_share-IsCephfs : IsCephfs ceph_share
unfolding has
ceph_share-IsCephfs = record {
  some_host = λ e. cc e;
  hosts = (
    (refl, refl, (refl, (refl, (refl, (refl, tt))))),
    ((refl, refl, (refl, (refl, (refl, (refl, tt))))), tt),
  );
  user = refl;
  some_user = λ e. cc e;
  path = refl;
  named = λ e. cc e;
  fsid = λ e. cc e;
}

abbrev server : NfsInfo
server = record {
  hostname = codes "nfs.lan";
  port = some (pos 2049);
  path = codes "/srv";
  version = some (codes "4");
}

server-IsNfs : IsNfs is_ipv6 server
unfolding has nonzero_port
server-IsNfs = record {
  host = record {
    filled = λ e. cc e;
    no_slash = refl;
    no_comma = refl;
    is_lower = (refl, (refl, (refl, (refl, (refl, (refl, (refl, tt)))))));
    address = λ e. cc e;
    name = λ e. (refl, refl);
  };
  path = refl;
  port = refl;
  version = λ e. cc e;
}

abbrev world : World secrets
world = record {
  secrets = (none, []);
  peers = some [];
  clients =
      record { id = 1; ready = true; databag = [] }
      ∷ record { id = 2; ready = false; databag = [] }
      ∷ [];
}

uri_to_fs_info-to_uri_example :
    let (r, w') = to_uri urllib secrets is_ipv6 (nfs server) (none, []) in
    bind_result r (uri_to_fs_info urllib secrets owner w') ≡ ok (nfs server)
uri_to_fs_info-to_uri_example =
    uri_to_fs_info-to_uri urllib urllib-IsUrllib secrets secrets-IsJuju is_ipv6 (nfs server)
      (none, []) server-IsNfs

set_info-Published_example :
    let (r, w') = set_info urllib secrets is_ipv6 true (cephfs ceph_share) world in
    (r ≡ ok tt)
    × (uri : Text) × Published urllib urllib-IsUrllib secrets secrets-IsJuju is_ipv6
        (cephfs ceph_share)
        uri
        w'
set_info-Published_example =
    set_info-Published urllib urllib-IsUrllib secrets secrets-IsJuju is_ipv6 (cephfs ceph_share) []
      world ceph_share-IsCephfs (refl, (refl, tt)) refl

abbrev published : World secrets
published = (set_info urllib secrets is_ipv6 true (cephfs ceph_share) world).1

abbrev endpoint_uri : Text
endpoint_uri =
    (set_info-Published urllib urllib-IsUrllib secrets secrets-IsJuju is_ipv6 (cephfs ceph_share) []
      world ceph_share-IsCephfs (refl, (refl, tt)) refl).1

published_lem :
    Published urllib urllib-IsUrllib secrets secrets-IsJuju is_ipv6
      (cephfs ceph_share)
      endpoint_uri
      published
published_lem =
    (set_info-Published urllib urllib-IsUrllib secrets secrets-IsJuju is_ipv6 (cephfs ceph_share) []
      world ceph_share-IsCephfs (refl, (refl, tt)) refl).2

update_relation-Published_example :
    let (r, w') = update_relation urllib secrets is_ipv6 true 3 (joined 3 true published) in
    (r ≡ ok tt)
    × Published urllib urllib-IsUrllib secrets secrets-IsJuju is_ipv6
        (cephfs ceph_share)
        endpoint_uri
        w'
update_relation-Published_example =
    update_relation-Published urllib urllib-IsUrllib secrets secrets-IsJuju is_ipv6
      (cephfs ceph_share) endpoint_uri 3 true published ceph_share-IsCephfs refl published_lem

endpoints-Published_example :
    endpoints urllib secrets published.secrets published.clients
    ≡ ok (
        map
          (λ _. record { info = cephfs ceph_share; uri = endpoint_uri })
          (relations published.clients))
endpoints-Published_example =
    endpoints-Published urllib urllib-IsUrllib secrets secrets-IsJuju is_ipv6 (cephfs ceph_share)
      endpoint_uri published ceph_share-IsCephfs published_lem

abbrev hosts : Text
hosts = codes "mon1 mon2"

hosts_lem : words hosts ≡ ceph_share.monitor_hosts
unfolding words
hosts_lem = refl

plain : (has b':' ceph_share.name ≡ false) × (has b':' ceph_share.user ≡ false)
unfolding has
plain = (refl, refl)

cephfs_config_changed-Published_example :
    let (r, w') =
      cephfs_config_changed {F = provider urllib secrets is_ipv6 true}
        (cephfs_config ceph_share hosts)
        (record { filesystem = world; status = unset }) in
    (r ≡ ok tt)
    × (w'.status ≡ active)
    × (uri : Text) × Published urllib urllib-IsUrllib secrets secrets-IsJuju is_ipv6
        (cephfs ceph_share)
        uri
        w'.filesystem
cephfs_config_changed-Published_example =
    cephfs_config_changed-Published urllib urllib-IsUrllib secrets secrets-IsJuju is_ipv6 ceph_share
      hosts [] (record { filesystem = world; status = unset }) ceph_share-IsCephfs hosts_lem plain.0
      plain.1 (λ e. cc e) (refl, (refl, tt)) refl
