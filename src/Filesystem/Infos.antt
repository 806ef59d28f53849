-- ===== src/Filesystem/Infos.antt =====
-- The URIs of `NfsInfo`, `CephfsInfo` and `LustreInfo`, in
-- charms/filesystem-client/lib/charms/filesystem_client/v0/filesystem_info.py. Juju's secrets are a
-- parameter.
pub mod Roundtrip
pub mod Secret
pub mod Known
use filesystem_charms.Base.{
  Bool, true, false, not, ◌&&◌, ℕ, Option, none, some, List, [], ◌∷◌, ◌++◌, is_empty, nat_eq,
  text_eq, ◌==◌, if◌then◌else◌,
}
use filesystem_charms.Base.Dict.{Dict, lookup}
use filesystem_charms.Base.Exec.{Result, Exec, ok, err, bind_result, pure, raise, lift, ◌>>=◌, ◌>>◌}
use filesystem_charms.Base.Text.{Text, codes, split_once}
use filesystem_charms.Base.Text.Number.{ℤ, pos, negsuc, int, str, decimal}
use filesystem_charms.Filesystem.{
  NfsInfo, CephfsInfo, LustreInfo, FilesystemInfo, nfs, cephfs, lustre,
}
use filesystem_charms.Filesystem.Hosts.{hostinfo, nfs_host, before_separator}
use filesystem_charms.Filesystem.Uri.{
  Urllib, UriData, ParseUriFault, InfoError, bad_uri, parse_error, unsupported, secret_not_found,
  key_error, model_error, empty_host, unclosed_bracket, no_colon, bad_port, incompatible_scheme,
  missing_user, missing_name, missing_fsid, missing_auth, no_auth_kind, invalid_kind,
  missing_fs_name, new_uri_data, from_uri, uri_of,
}

-- Who reads a secret: the application that owns it, or the one at the other end of a relation.
pub data Reader : Type 0 where
  owner : Reader
  remote : ℕ → Reader

-- The secrets of a model. `get_by_label` gives nothing where `get_secret` raises
-- `SecretNotFoundError`; `read` is `get_secret(id=…).get_content(refresh=True)`; `grant` takes the
-- id of a relation, with whether it did not raise `ModelError`.
pub record Secrets : Type 1 where
  pub World : Type 0
  pub Secret : Type 0
  pub get_by_label : Text → World → Option Secret
  pub add_secret : Dict Text Text → Text → World → Secret × World
  pub set_content : Secret → Dict Text Text → World → World
  pub id : Secret → Text
  pub revision : Secret → World → ℕ
  pub grant : Secret → ℕ → World → Bool × World
  -- Whether the id is that of a relation.
  pub related : ℕ → Bool
  pub read : Reader → Text → World → Option (Dict Text Text)

-- `if not (x := …): raise ParseUriError(…)`
unfoldable pub required : ParseUriFault → Option Text → Result InfoError Text
required fault none = err (parse_error fault)
required fault (some []) = err (parse_error fault)
required fault (some (c ∷ s)) = ok (c ∷ s)

-- `if info.scheme != cls.filesystem_type(): raise ParseUriError(…)`
unfoldable pub expect_scheme : Text → UriData → Result InfoError UriData
expect_scheme type info =
    if info.scheme == type then ok info else err (parse_error incompatible_scheme)

-- `info.hosts[0]`; there is a host in every `_UriData`.
unfoldable pub first_host : List Text → Text
first_host [] = []
first_host (h ∷ hosts) = h

-- `{"version": self.version} if self.version else {}`
unfoldable pub version_options : Option Text → Dict Text Text
version_options none = []
version_options (some version) = if is_empty version then [] else (codes "version", version) ∷ []

-- `str(_UriData(…))`
unfoldable pub to_text :
    Urllib → Text → List Text → Text → Text → Dict Text Text → Result InfoError Text
unfolding new_uri_data uri_of
to_text U scheme hosts user path options = elim (new_uri_data scheme hosts user path options) [
  | err fault ↦ err (bad_uri fault)
  | ok d ↦ ok (uri_of U d)
]

module _ (U : Urllib) where
  -- What `NfsInfo.from_uri` does with the parsed URI.
  unfoldable pub nfs_from : UriData → Result InfoError NfsInfo
  unfolding hostinfo first_host lookup
  nfs_from info = bind_result (hostinfo (first_host info.hosts)) (λ (hostname, port). ok (record {
    hostname = hostname;
    port = port;
    path = info.path;
    version = lookup (codes "version") info.options;
  }))

  unfoldable pub lustre_from : UriData → Result InfoError LustreInfo
  unfolding required lookup
  lustre_from info =
      bind_result (required missing_fs_name (lookup (codes "fs-name") info.options))
        (λ fs_name. ok (record { mgs_ids = info.hosts; fs_name = fs_name }))

  -- `NfsInfo.from_uri`
  unfoldable pub nfs_from_uri : Text → Result InfoError NfsInfo
  unfolding from_uri expect_scheme nfs_from
  nfs_from_uri uri =
      bind_result (bind_result (from_uri U uri) (expect_scheme (codes "nfs"))) nfs_from

  -- `LustreInfo.from_uri`
  unfoldable pub lustre_from_uri : Text → Result InfoError LustreInfo
  unfolding from_uri expect_scheme lustre_from
  lustre_from_uri uri =
      bind_result (bind_result (from_uri U uri) (expect_scheme (codes "lustre"))) lustre_from

  -- `LustreInfo.to_uri`
  unfoldable pub lustre_to_uri : LustreInfo → Result InfoError Text
  unfolding to_text
  lustre_to_uri info =
      to_text U (codes "lustre") info.mgs_ids [] (codes "/") ((codes "fs-name", info.fs_name) ∷ [])

  module _ (is_ipv6 : Text → Bool) where
    -- `NfsInfo.to_uri`
    unfoldable pub nfs_to_uri : NfsInfo → Result InfoError Text
    unfolding to_text nfs_host version_options
    nfs_to_uri info =
        to_text U (codes "nfs") (nfs_host is_ipv6 info ∷ []) [] info.path
          (version_options info.version)

  module _ (S : Secrets) where
    -- The key that `auth` tells, by its kind.
    unfoldable pub auth_key : Reader → S.World → Text → Result InfoError Text
    unfolding split_once lookup
    auth_key reader w auth = elim (split_once b':' auth) [
      | none ↦ err (parse_error no_auth_kind)
      | some (kind, rest) ↦
          if kind == codes "secret"
          then elim (S.read reader auth w) [
            | none ↦ err secret_not_found
            | some content ↦ elim (lookup (codes "key") content) [
              | none ↦ err key_error
              | some key ↦ ok key
            ]
          ]
          else if kind == codes "plain"
          then ok rest
          else err (parse_error (invalid_kind kind))
    ]

    unfoldable pub cephfs_from : Reader → S.World → UriData → Result InfoError CephfsInfo
    unfolding required auth_key
    cephfs_from reader w info = bind_result (required missing_user (some info.user)) (λ user.
        bind_result (required missing_name (lookup (codes "name") info.options)) (λ name.
          bind_result (required missing_fsid (lookup (codes "fsid") info.options)) (λ fsid.
            bind_result (required missing_auth (lookup (codes "auth") info.options)) (λ auth.
              bind_result (auth_key reader w auth) (λ key. ok (record {
                fsid = fsid;
                name = name;
                path = info.path;
                monitor_hosts = info.hosts;
                user = user;
                key = key;
              }))))))

    -- `CephfsInfo.from_uri`
    unfoldable pub cephfs_from_uri : Reader → S.World → Text → Result InfoError CephfsInfo
    unfolding from_uri expect_scheme cephfs_from
    cephfs_from_uri reader w uri =
        bind_result (bind_result (from_uri U uri) (expect_scheme (codes "cephfs")))
          (cephfs_from reader w)

    -- `CephfsInfo._get_or_create_auth_secret`
    unfoldable pub get_or_create_auth_secret : CephfsInfo → S.World → S.Secret × S.World
    get_or_create_auth_secret info w =
        let content = (codes "key", info.key) ∷ [] in
        elim (S.get_by_label (codes "auth") w) [
          | some secret ↦ (secret, S.set_content secret content w)
          | none ↦ S.add_secret content (codes "auth") w
        ]

    -- `CephfsInfo.to_uri`
    unfoldable pub cephfs_to_uri : CephfsInfo → Exec S.World InfoError Text
    unfolding to_text get_or_create_auth_secret decimal
    cephfs_to_uri info w =
        let (secret, w') = get_or_create_auth_secret info w in
        (
          to_text U (codes "cephfs") info.monitor_hosts info.user info.path (
              (codes "fsid", info.fsid)
              ∷ (codes "name", info.name)
              ∷ (codes "auth", S.id secret)
              ∷ (codes "auth-rev", decimal (S.revision secret w'))
              ∷ []),
          w',
        )

    -- `info.to_uri(model)`
    unfoldable pub to_uri : (Text → Bool) → FilesystemInfo → Exec S.World InfoError Text
    unfolding nfs_to_uri lustre_to_uri cephfs_to_uri
    to_uri is_ipv6 (nfs info) = lift (nfs_to_uri is_ipv6 info)
    to_uri is_ipv6 (cephfs info) = cephfs_to_uri info
    to_uri is_ipv6 (lustre info) = lift (lustre_to_uri info)

    -- `info.grant(model, relation)`
    unfoldable pub grant : FilesystemInfo → ℕ → S.World → Result InfoError (Unit {0}) × S.World
    unfolding get_or_create_auth_secret
    grant (nfs info) relation w = (ok tt, w)
    grant (cephfs info) relation w =
        let (secret, w') = get_or_create_auth_secret info w in
        let (done, w'') = S.grant secret relation w' in
        (if done then ok tt else err model_error, w'')
    grant (lustre info) relation w = (ok tt, w)

    abbrev result_map : {A B : Type 0} → (A → B) → Result InfoError A → Result InfoError B
    result_map f r = bind_result r (λ a. ok (f a))

    -- `_uri_to_fs_info`, from the scheme `uri.split("://", maxsplit=1)[0]`
    unfoldable pub fs_info_of : Reader → S.World → Text → Text → Result InfoError FilesystemInfo
    unfolding nfs_from_uri lustre_from_uri cephfs_from_uri
    fs_info_of reader w scheme uri =
        if scheme == codes "nfs"
        then result_map nfs (nfs_from_uri uri)
        else if scheme == codes "cephfs"
        then result_map cephfs (cephfs_from_uri reader w uri)
        else if scheme == codes "lustre"
        then result_map lustre (lustre_from_uri uri)
        else err (unsupported scheme)

    unfoldable pub uri_to_fs_info : Reader → S.World → Text → Result InfoError FilesystemInfo
    unfolding fs_info_of
    uri_to_fs_info reader w uri = fs_info_of reader w (before_separator uri) uri
