-- ===== src/Filesystem/Infos/Roundtrip.antt =====
-- A URI that `to_uri` makes gives back the information it was made of.
use filesystem_charms.Base.Dict.{values}
use filesystem_charms.Base.{text_beq}
use filesystem_charms.Base.{
  ◌≡◌, ◌≢◌, refl, Bool, false, Option, none, some, [], ◌∷◌, nat_eq, text_eq, All, contains,
  text_beq_refl,
}
use filesystem_charms.Base.Dict.{lookup, keys, values}
use filesystem_charms.Base.Exec.{ok, bind_result}
use filesystem_charms.Base.Text.{Text, codes, has}
use filesystem_charms.Filesystem.{NfsInfo, CephfsInfo, LustreInfo}
use filesystem_charms.Filesystem.Hosts.{nfs_host, nonzero_port}
use filesystem_charms.Filesystem.Hosts.Roundtrip.{IsHost, hostinfo-nfs_host, nfs_host-IsCarried}
use filesystem_charms.Filesystem.Infos.{
  to_text, required, expect_scheme, version_options, first_host, nfs_from, nfs_from_uri, nfs_to_uri,
  lustre_from, lustre_from_uri, lustre_to_uri,
}
use filesystem_charms.Filesystem.Uri.{Urllib, UriData, from_uri, uri_of, new_uri_data}
use filesystem_charms.Filesystem.Uri.Lawful.{
  IsUrllib, IsCarried, IsScheme, IsLower, IsAbsolute, AreCarried, from_uri-uri_of, is_empty-ne-nil,
  IsAbsolute-ne-nil,
}

-- A host of a CephFS or Lustre share that a URI can carry.
abbrev pub IsPlainHost : Text → Type 0
IsPlainHost h = (has b'/' h ≡ false) × (has b',' h ≡ false) × IsLower h

pub record IsNfs (is_ipv6 : Text → Bool) (info : NfsInfo) : Type 0 where
  pub host : IsHost is_ipv6 info.hostname
  pub path : IsAbsolute info.path
  pub port : nonzero_port info.port ≡ info.port
  pub version : info.version ≢ some []

pub record IsLustre (info : LustreInfo) : Type 0 where
  pub some_nid : info.mgs_ids ≢ []
  pub nids : All IsPlainHost info.mgs_ids
  pub named : info.fs_name ≢ []

pub record IsCephfs (info : CephfsInfo) : Type 0 where
  pub some_host : info.monitor_hosts ≢ []
  pub hosts : All IsPlainHost info.monitor_hosts
  pub user : has b'/' info.user ≡ false
  pub some_user : info.user ≢ []
  pub path : IsAbsolute info.path
  pub named : info.name ≢ []
  pub fsid : info.fsid ≢ []

pub to_text_carried :
    (U : Urllib) (d : UriData)
    → IsCarried d
    → to_text U d.scheme d.hosts d.user d.path d.options ≡ ok (uri_of U d)
unfolding to_text new_uri_data
to_text_carried U d c =
    rw
      (
        to_text,
        new_uri_data,
        is_empty-ne-nil d.scheme c.scheme.0,
        is_empty-ne-nil d.hosts c.some_host,
        is_empty-ne-nil d.path (IsAbsolute-ne-nil d.path c.path),
      )
      refl

pub required_filled : (fault : _) (s : Text) → s ≢ [] → required fault (some s) ≡ ok s
unfolding required
required_filled fault [] n = absurd (n refl)
required_filled fault (c ∷ s) n = refl

pub nfs-IsScheme : IsScheme (codes "nfs")
nfs-IsScheme = ((λ e. cc e), (refl, (refl, (refl, tt))))

pub lustre-IsScheme : IsScheme (codes "lustre")
lustre-IsScheme = ((λ e. cc e), (refl, (refl, (refl, (refl, (refl, (refl, tt)))))))

pub cephfs-IsScheme : IsScheme (codes "cephfs")
cephfs-IsScheme = ((λ e. cc e), (refl, (refl, (refl, (refl, (refl, (refl, tt)))))))

no_user : has b'/' [] ≡ false
unfolding has
no_user = refl

AreCarried-one : (k v : Text) → v ≢ [] → AreCarried ((k, v) ∷ [])
unfolding keys values contains
AreCarried-one k v n = ((refl, tt), (n, tt))

version_back :
    (v : Option Text)
    → v ≢ some []
    → AreCarried (version_options v) × (lookup (codes "version") (version_options v) ≡ v)
unfolding version_options lookup keys values
version_back none n = ((tt, tt), refl)
version_back (some []) n = absurd (n refl)
version_back (some (c ∷ s)) n = (
  AreCarried-one (codes "version") (c ∷ s) (λ e. cc e),
  rw (text_beq_refl (codes "version")) refl,
)

module _ (U : Urllib) (u : IsUrllib U) where
  pub scheme_kept :
      (d : UriData) (type : Text)
      → IsCarried d
      → d.scheme ≡ type
      → bind_result (from_uri U (uri_of U d)) (expect_scheme type) ≡ ok d
  unfolding expect_scheme
  scheme_kept d type c e = rw (from_uri-uri_of U u d c, e, text_beq_refl type) refl

  unfoldable pub lustre_data : LustreInfo → UriData
  lustre_data info = record {
    scheme = codes "lustre";
    hosts = info.mgs_ids;
    user = [];
    path = codes "/";
    options = (codes "fs-name", info.fs_name) ∷ [];
  }

  lustre_data-IsCarried : (info : LustreInfo) → IsLustre info → IsCarried (lustre_data info)
  unfolding lustre_data
  lustre_data-IsCarried info h = record {
    scheme = lustre-IsScheme;
    user = no_user;
    some_host = h.some_nid;
    hosts = h.nids;
    path = refl;
    options = AreCarried-one (codes "fs-name") info.fs_name h.named;
  }

  pub lustre_to_uri_data :
      (info : LustreInfo) → IsLustre info → lustre_to_uri U info ≡ ok (uri_of U (lustre_data info))
  unfolding lustre_to_uri lustre_data
  lustre_to_uri_data info h = to_text_carried U (lustre_data info) (lustre_data-IsCarried info h)

  pub lustre_from_uri_data :
      (info : LustreInfo)
      → IsLustre info
      → lustre_from_uri U (uri_of U (lustre_data info)) ≡ ok info
  unfolding lustre_from_uri lustre_from lustre_data lookup text_beq
  lustre_from_uri_data info h =
      rw
        (
          lustre_from_uri,
          scheme_kept (lustre_data info) (codes "lustre") (lustre_data-IsCarried info h) refl,
          lustre_from,
          required_filled _ info.fs_name h.named,
        )
        refl

  module _ (is_ipv6 : Text → Bool) where
    unfoldable pub nfs_data : NfsInfo → UriData
    nfs_data info = record {
      scheme = codes "nfs";
      hosts = nfs_host is_ipv6 info ∷ [];
      user = [];
      path = info.path;
      options = version_options info.version;
    }

    nfs_data-IsCarried : (info : NfsInfo) → IsNfs is_ipv6 info → IsCarried (nfs_data info)
    unfolding nfs_data
    nfs_data-IsCarried info h = record {
      scheme = nfs-IsScheme;
      user = no_user;
      some_host = λ e. cc e;
      hosts = (nfs_host-IsCarried is_ipv6 info h.host, tt);
      path = h.path;
      options = (version_back info.version h.version).0;
    }

    pub nfs_to_uri_data :
        (info : NfsInfo)
        → IsNfs is_ipv6 info
        → nfs_to_uri U is_ipv6 info ≡ ok (uri_of U (nfs_data info))
    unfolding nfs_to_uri nfs_data
    nfs_to_uri_data info h = to_text_carried U (nfs_data info) (nfs_data-IsCarried info h)

    nfs_from_data : (info : NfsInfo) → IsNfs is_ipv6 info → nfs_from U (nfs_data info) ≡ ok info
    unfolding nfs_from nfs_data first_host
    nfs_from_data info h =
        rw
          (
            nfs_from,
            hostinfo-nfs_host is_ipv6 info h.host,
            h.port,
            (version_back info.version h.version).1,
          )
          refl

    pub nfs_from_uri_data :
        (info : NfsInfo) → IsNfs is_ipv6 info → nfs_from_uri U (uri_of U (nfs_data info)) ≡ ok info
    unfolding nfs_from_uri nfs_data
    nfs_from_uri_data info h =
        let scheme = scheme_kept (nfs_data info) (codes "nfs") (nfs_data-IsCarried info h) refl in
        rw (nfs_from_uri, scheme) (nfs_from_data info h)
