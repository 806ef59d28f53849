-- ===== src/Filesystem/Infos/Known.antt =====
-- Who can turn a published URI back into the information it stands for.
use filesystem_charms.Base.{
  ◌≡◌, ◌≢◌, refl, sym, ap, ◌∙◌, Bool, true, false, ℕ, some, [], ◌∷◌, ◌++◌, text_eq, text_beq, arith,
  nat_eq,
}
use filesystem_charms.Base.Exec.{ok, bind_result}
use filesystem_charms.Base.Text.{Text, codes, has, join}
use filesystem_charms.Filesystem.{CephfsInfo, FilesystemInfo, nfs, cephfs, lustre}
use filesystem_charms.Filesystem.Hosts.{before_separator, has_prefix}
use filesystem_charms.Filesystem.Infos.{
  Secrets, Reader, owner, remote, get_or_create_auth_secret, to_uri, cephfs_to_uri, grant,
  fs_info_of, uri_to_fs_info,
}
use filesystem_charms.Filesystem.Infos.Roundtrip.{
  IsNfs, IsLustre, IsCephfs, lustre_data, lustre_to_uri_data, lustre_from_uri_data, nfs_data,
  nfs_to_uri_data, nfs_from_uri_data, nfs-IsScheme, lustre-IsScheme, cephfs-IsScheme,
}
use filesystem_charms.Filesystem.Infos.Secret.{
  IsJuju, key_content, auth_secret_set, auth_secret_kept, cephfs_data, cephfs_to_uri_data,
  cephfs_from_uri_data,
}
use filesystem_charms.Filesystem.Uri.{Urllib, UriData, uri_of}
use filesystem_charms.Filesystem.Uri.Lawful.{IsUrllib, IsScheme}

-- Information that a URI can carry.
abbrev pub IsShareable : (Text → Bool) → FilesystemInfo → Type 0
IsShareable is_ipv6 (nfs info) = IsNfs is_ipv6 info
IsShareable is_ipv6 (cephfs info) = IsCephfs info
IsShareable is_ipv6 (lustre info) = IsLustre info

separator_found :
    (s rest : Text) → has b':' s ≡ false → before_separator (s ++ (codes "://" ++ rest)) ≡ s
unfolding before_separator has_prefix has
separator_found [] rest h = refl
separator_found (c ∷ s) rest h = ground (arith, separator_found s rest)

module _ (U : Urllib) (u : IsUrllib U) (S : Secrets) (j : IsJuju S) (is_ipv6 : Text → Bool) where
  scheme_found :
      (d : UriData)
      → IsScheme d.scheme
      → has b':' d.scheme ≡ false
      → before_separator (uri_of U d) ≡ d.scheme
  unfolding uri_of
  scheme_found d k h =
      let (rest, e) =
        u.urlunsplit_scheme d.scheme d.user (join (codes ",") d.hosts) (U.quote d.path)
          (U.urlencode d.options) k in
      ap before_separator e ∙ separator_found d.scheme rest h

  -- The URI is the one of the information, and the reader has what it takes to read it.
  pub Known : FilesystemInfo → Text → Reader → S.World → Type 0
  Known (nfs info) uri reader w = uri ≡ uri_of U (nfs_data U u is_ipv6 info)
  Known (cephfs info) uri reader w =
      (s : S.Secret) × (revision : ℕ) × (uri
        ≡ uri_of U (cephfs_data U u S j info (S.id s) revision))
      × (S.get_by_label (codes "auth") w ≡ some s)
      × (S.read reader (S.id s) w ≡ some (key_content info))
  Known (lustre info) uri reader w = uri ≡ uri_of U (lustre_data U u info)

  to_uri_cephfs :
      (info : CephfsInfo) (w : S.World)
      → to_uri U S is_ipv6 (cephfs info) w ≡ cephfs_to_uri U S info w
  unfolding to_uri
  to_uri_cephfs info w = refl

  pub to_uri-Known :
      (info : FilesystemInfo) (w : S.World)
      → IsShareable is_ipv6 info
      → let (r, w') = to_uri U S is_ipv6 info w in
        (uri : Text) × (r ≡ ok uri) × Known info uri owner w'
  unfolding Known
  to_uri-Known (nfs info) w h = unfold to_uri in (_, nfs_to_uri_data U u is_ipv6 info h, refl)
  to_uri-Known (cephfs info) w h =
      let (s, w') = get_or_create_auth_secret U S info w in
      let (label, content) = auth_secret_set U u S j info w in
      let e = cephfs_to_uri_data U u S j info w h in
      rw (to_uri_cephfs info w, e) (_, refl, (s, S.revision s w', refl, label, content))
  to_uri-Known (lustre info) w h = unfold to_uri in (_, lustre_to_uri_data U u info h, refl)

  dispatch :
      (reader : Reader) (w : S.World) (d : UriData)
      → IsScheme d.scheme
      → has b':' d.scheme ≡ false
      → uri_to_fs_info U S reader w (uri_of U d) ≡ fs_info_of U S reader w d.scheme (uri_of U d)
  unfolding uri_to_fs_info
  dispatch reader w d k h = ap (λ t. fs_info_of U S reader w t (uri_of U d)) (scheme_found d k h)

  -- Whoever knows a URI reads the information from it.
  pub uri_to_fs_info-Known :
      (info : FilesystemInfo) (uri : Text) (reader : Reader) (w : S.World)
      → IsShareable is_ipv6 info
      → Known info uri reader w
      → uri_to_fs_info U S reader w uri ≡ ok info
  unfolding Known fs_info_of text_beq has nfs_data lustre_data cephfs_data
  uri_to_fs_info-Known (nfs info) uri reader w h k =
      ap (uri_to_fs_info U S reader w) k
      ∙ dispatch reader w (nfs_data U u is_ipv6 info) nfs-IsScheme refl
      ∙ ap (λ r. bind_result r (λ i. ok (nfs i))) (nfs_from_uri_data U u is_ipv6 info h)
  uri_to_fs_info-Known (cephfs info) uri reader w h (s, n, e, label, content) =
      ap (uri_to_fs_info U S reader w) e
      ∙ dispatch reader w (cephfs_data U u S j info (S.id s) n) cephfs-IsScheme refl
      ∙ ap (λ r. bind_result r (λ i. ok (cephfs i)))
          (cephfs_from_uri_data U u S j info s n reader w h content)
  uri_to_fs_info-Known (lustre info) uri reader w h k =
      ap (uri_to_fs_info U S reader w) k
      ∙ dispatch reader w (lustre_data U u info) lustre-IsScheme refl
      ∙ ap (λ r. bind_result r (λ i. ok (lustre i))) (lustre_from_uri_data U u info h)

  uri_of-ne-nil : (d : UriData) → IsScheme d.scheme → has b':' d.scheme ≡ false → uri_of U d ≢ []
  uri_of-ne-nil d k h e = k.0 (sym (scheme_found d k h) ∙ ap before_separator e ∙ nothing)
    where
      nothing : before_separator [] ≡ []
      nothing = unfold before_separator in refl

  pub Known-ne-nil :
      (info : FilesystemInfo) (uri : Text) (reader : Reader) (w : S.World)
      → Known info uri reader w
      → uri ≢ []
  unfolding Known has nfs_data lustre_data cephfs_data
  Known-ne-nil (nfs info) uri reader w k =
      rw k (uri_of-ne-nil (nfs_data U u is_ipv6 info) nfs-IsScheme refl)
  Known-ne-nil (cephfs info) uri reader w (s, n, e, label, content) =
      rw e (uri_of-ne-nil (cephfs_data U u S j info (S.id s) n) cephfs-IsScheme refl)
  Known-ne-nil (lustre info) uri reader w k =
      rw k (uri_of-ne-nil (lustre_data U u info) lustre-IsScheme refl)

  -- `_uri_to_fs_info` gives back the information that `to_uri` wrote, for all three kinds of
  -- filesystem, if `urllib.parse` and Juju's secrets do what the code relies on. A CephFS
  -- or Lustre share has at least one host; a host is without `/`, `,` and capital letters; an NFS
  -- host is also not empty and without `:` and `[`, or, if it is an IPv6 address, without `]`. The
  -- paths of NFS and CephFS begin with `/`; a CephFS user is without `/`; the user, name and file
  -- system id of CephFS, the name of a Lustre file system and an NFS version, where there is one,
  -- are not empty; an NFS port is not 0.
  pub uri_to_fs_info-to_uri :
      (info : FilesystemInfo) (w : S.World)
      → IsShareable is_ipv6 info
      → let (r, w') = to_uri U S is_ipv6 info w in
        bind_result r (uri_to_fs_info U S owner w') ≡ ok info
  uri_to_fs_info-to_uri info w h =
      let w' = (to_uri U S is_ipv6 info w).1 in
      let (uri, returned, known) = to_uri-Known info w h in
      ap (λ r. bind_result r (uri_to_fs_info U S owner w')) returned
      ∙ uri_to_fs_info-Known info uri owner w' h known

  -- The owner may grant what it has published.
  pub grant-ok :
      (info : FilesystemInfo) (uri : Text) (r : ℕ) (w : S.World)
      → S.related r ≡ true
      → Known info uri owner w
      → (grant U S info r w).0 ≡ ok tt
  unfolding Known grant
  grant-ok (nfs info) uri r w there k = refl
  grant-ok (cephfs info) uri r w there (s, n, e, label, content) =
      let w₁ = S.set_content s (key_content info) w in
      let set = j.label_set (codes "auth") s (key_content info) w ∙ label in
      rw (grant, auth_secret_kept U u S j info s w label, j.granted (codes "auth") s r w₁ there set)
        refl
  grant-ok (lustre info) uri r w there k = refl

  -- Granting a relation lets the application at its other end know the URI, and takes it from
  -- nobody.
  pub grant-Known :
      (info : FilesystemInfo) (uri : Text) (r : ℕ) (w : S.World)
      → S.related r ≡ true
      → Known info uri owner w
      → Known info uri owner (grant U S info r w).1
        × Known info uri (remote r) (grant U S info r w).1
  unfolding Known grant
  grant-Known (nfs info) uri r w there k = (k, k)
  grant-Known (cephfs info) uri r w there (s, n, e, label, content) =
      let again = auth_secret_kept U u S j info s w label in
      let w₁ = S.set_content s (key_content info) w in
      let set = j.label_set (codes "auth") s (key_content info) w ∙ label in
      let mine = j.read_set (codes "auth") s (key_content info) w label in
      rw (grant, again)
        (
          (s, n, e, j.label_granted _ s r w₁ ∙ set, j.kept_granted s r owner _ w₁ mine),
          (s, n, e, j.label_granted _ s r w₁ ∙ set, j.read_granted s r _ w₁ there mine),
        )
  grant-Known (lustre info) uri r w there k = (k, k)

  pub grant-keeps-Known :
      (info : FilesystemInfo) (uri : Text) (r t : ℕ) (w : S.World)
      → Known info uri (remote t) w
      → Known info uri (remote t) (grant U S info r w).1
  unfolding Known grant
  grant-keeps-Known (nfs info) uri r t w k = k
  grant-keeps-Known (cephfs info) uri r t w (s, n, e, label, content) =
      let w₁ = S.set_content s (key_content info) w in
      rw (grant, auth_secret_kept U u S j info s w label)
        (
          s,
          n,
          e,
          j.label_granted _ s r w₁ ∙ (j.label_set (codes "auth") s (key_content info) w ∙ label),
          j.kept_granted s r (remote t) _ w₁ (j.remote_set s t _ (key_content info) w content),
        )
  grant-keeps-Known (lustre info) uri r t w k = k
