-- ===== src/Filesystem/Infos/Secret.antt =====
-- What the code relies on in Juju's secrets, and the URIs of a CephFS share.
use filesystem_charms.Base.{
  ◌≡◌, ◌≢◌, refl, ap, ◌∙◌, ℕ, true, none, some, [], ◌∷◌, ◌++◌, text_eq, Option-cases, text_beq,
  contains, inl, inr,
}
use filesystem_charms.Base.Dict.{Dict, lookup, keys, values}
use filesystem_charms.Base.Exec.{ok}
use filesystem_charms.Base.Text.{Text, codes, has, split_once}
use filesystem_charms.Base.Text.Laws.{split_once-append}
use filesystem_charms.Base.Text.Number.{decimal}
use filesystem_charms.Base.Text.Number.Roundtrip.{decimal-ne-nil}
use filesystem_charms.Filesystem.{CephfsInfo}
use filesystem_charms.Filesystem.Infos.{
  Secrets, Reader, owner, remote, auth_key, cephfs_from, cephfs_from_uri, get_or_create_auth_secret,
  cephfs_to_uri,
}
use filesystem_charms.Filesystem.Infos.Roundtrip.{
  IsCephfs, to_text_carried, scheme_kept, required_filled, cephfs-IsScheme,
}
use filesystem_charms.Filesystem.Uri.{Urllib, UriData, uri_of}
use filesystem_charms.Filesystem.Uri.Lawful.{IsUrllib, IsCarried}

-- A secret keeps its label; its owner reads what was set last, and so does an application that it
-- was granted to.
pub record IsJuju (S : Secrets) : Type 0 where
  pub id_kind : (s : S.Secret) → (rest : Text) × (S.id s ≡ codes "secret" ++ b':' ∷ rest)
  pub label_added :
      (content : Dict Text Text) (label : Text) (w : S.World)
      → S.get_by_label label w ≡ none
      → let (s, w') = S.add_secret content label w in S.get_by_label label w' ≡ some s
  pub read_added :
      (content : Dict Text Text) (label : Text) (w : S.World)
      → S.get_by_label label w ≡ none
      → let (s, w') = S.add_secret content label w in S.read owner (S.id s) w' ≡ some content
  pub label_set :
      (label : Text) (s : S.Secret) (content : Dict Text Text) (w : S.World)
      → S.get_by_label label (S.set_content s content w) ≡ S.get_by_label label w
  pub read_set :
      (label : Text) (s : S.Secret) (content : Dict Text Text) (w : S.World)
      → S.get_by_label label w ≡ some s
      → S.read owner (S.id s) (S.set_content s content w) ≡ some content
  pub remote_set :
      (s : S.Secret) (r : ℕ) (old content : Dict Text Text) (w : S.World)
      → S.read (remote r) (S.id s) w ≡ some old
      → S.read (remote r) (S.id s) (S.set_content s content w) ≡ some content
  -- The owner of a secret may grant it to a relation that is there.
  pub granted :
      (label : Text) (s : S.Secret) (r : ℕ) (w : S.World)
      → S.related r ≡ true
      → S.get_by_label label w ≡ some s
      → (S.grant s r w).0 ≡ true
  pub label_granted :
      (label : Text) (s : S.Secret) (r : ℕ) (w : S.World)
      → S.get_by_label label (S.grant s r w).1 ≡ S.get_by_label label w
  pub read_granted :
      (s : S.Secret) (r : ℕ) (content : Dict Text Text) (w : S.World)
      → S.related r ≡ true
      → S.read owner (S.id s) w ≡ some content
      → S.read (remote r) (S.id s) (S.grant s r w).1 ≡ some content
  pub kept_granted :
      (s : S.Secret) (r : ℕ) (reader : Reader) (content : Dict Text Text) (w : S.World)
      → S.read reader (S.id s) w ≡ some content
      → S.read reader (S.id s) (S.grant s r w).1 ≡ some content

-- The content of the secret of a share.
abbrev pub key_content : CephfsInfo → Dict Text Text
key_content info = (codes "key", info.key) ∷ []

module _ (U : Urllib) (u : IsUrllib U) (S : Secrets) (j : IsJuju S) where
  -- The secret after `_get_or_create_auth_secret`.
  pub auth_secret_set :
      (info : CephfsInfo) (w : S.World)
      → let (s, w') = get_or_create_auth_secret U S info w in
        (S.get_by_label (codes "auth") w' ≡ some s)
        × (S.read owner (S.id s) w' ≡ some (key_content info))
  unfolding get_or_create_auth_secret
  auth_secret_set info w = elim (Option-cases (S.get_by_label (codes "auth") w)) [
    | inl fresh ↦
        rw (get_or_create_auth_secret, fresh) (j.label_added _ _ w fresh, j.read_added _ _ w fresh)
    | inr (s, e) ↦
        rw (get_or_create_auth_secret, e)
          (j.label_set _ s _ w ∙ e, j.read_set (codes "auth") s (key_content info) w e)
  ]

  -- A second time it is the same secret.
  pub auth_secret_kept :
      (info : CephfsInfo) (s : S.Secret) (w : S.World)
      → S.get_by_label (codes "auth") w ≡ some s
      → get_or_create_auth_secret U S info w ≡ (s, S.set_content s (key_content info) w)
  unfolding get_or_create_auth_secret
  auth_secret_kept info s w e = rw (get_or_create_auth_secret, e) refl

  unfoldable pub cephfs_data : CephfsInfo → Text → ℕ → UriData
  cephfs_data info auth revision = record {
    scheme = codes "cephfs";
    hosts = info.monitor_hosts;
    user = info.user;
    path = info.path;
    options =
        (codes "fsid", info.fsid)
        ∷ (codes "name", info.name)
        ∷ (codes "auth", auth)
        ∷ (codes "auth-rev", decimal revision)
        ∷ [];
  }

  id-ne-nil : (s : S.Secret) → S.id s ≢ []
  id-ne-nil s = let (rest, e) = j.id_kind s in λ q. cc (q, e)

  cephfs_data-IsCarried :
      (info : CephfsInfo) (s : S.Secret) (revision : ℕ)
      → IsCephfs info
      → IsCarried (cephfs_data info (S.id s) revision)
  unfolding cephfs_data keys values contains text_beq
  cephfs_data-IsCarried info s revision h = record {
    scheme = cephfs-IsScheme;
    user = h.user;
    some_host = h.some_host;
    hosts = h.hosts;
    path = h.path;
    options = (
      (refl, (refl, (refl, (refl, tt)))),
      (h.fsid, (h.named, (id-ne-nil s, (decimal-ne-nil revision, tt)))),
    );
  }

  pub cephfs_to_uri_data :
      (info : CephfsInfo) (w : S.World)
      → IsCephfs info
      → let (s, w') = get_or_create_auth_secret U S info w in
        cephfs_to_uri U S info w ≡ (ok (uri_of U (cephfs_data info (S.id s) (S.revision s w'))), w')
  unfolding cephfs_to_uri cephfs_data
  cephfs_to_uri_data info w h =
      let (s, w') = get_or_create_auth_secret U S info w in
      let n = S.revision s w' in
      ap (λ r. (r, w'))
        (to_text_carried U (cephfs_data info (S.id s) n) (cephfs_data-IsCarried info s n h))

  auth_key_read :
      (info : CephfsInfo) (s : S.Secret) (reader : Reader) (w : S.World)
      → S.read reader (S.id s) w ≡ some (key_content info)
      → auth_key U S reader w (S.id s) ≡ ok info.key
  unfolding auth_key has lookup text_beq
  auth_key_read info s reader w e =
      let (rest, q) = j.id_kind s in
      let kind = ap (split_once b':') q ∙ split_once-append b':' (codes "secret") rest refl in
      rw (auth_key, kind, e) refl

  cephfs_from_data :
      (info : CephfsInfo) (s : S.Secret) (revision : ℕ) (reader : Reader) (w : S.World)
      → IsCephfs info
      → S.read reader (S.id s) w ≡ some (key_content info)
      → cephfs_from U S reader w (cephfs_data info (S.id s) revision) ≡ ok info
  unfolding cephfs_from cephfs_data lookup text_beq
  cephfs_from_data info s revision reader w h e =
      rw
        (
          cephfs_from,
          required_filled _ info.user h.some_user,
          required_filled _ info.name h.named,
          required_filled _ info.fsid h.fsid,
          required_filled _ (S.id s) (id-ne-nil s),
          auth_key_read info s reader w e,
        )
        refl

  -- Whoever can read the secret gets the share back.
  pub cephfs_from_uri_data :
      (info : CephfsInfo) (s : S.Secret) (revision : ℕ) (reader : Reader) (w : S.World)
      → IsCephfs info
      → S.read reader (S.id s) w ≡ some (key_content info)
      → cephfs_from_uri U S reader w (uri_of U (cephfs_data info (S.id s) revision)) ≡ ok info
  unfolding cephfs_from_uri cephfs_data
  cephfs_from_uri_data info s revision reader w h e =
      let d = cephfs_data info (S.id s) revision in
      let scheme =
        scheme_kept U u d (codes "cephfs") (cephfs_data-IsCarried info s revision h) refl in
      rw (cephfs_from_uri, scheme) (cephfs_from_data info s revision reader w h e)
