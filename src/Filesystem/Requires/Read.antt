-- ===== src/Filesystem/Requires/Read.antt =====
-- What the clients of a provider read.
use filesystem_charms.Base.{
  ◌≡◌, refl, ap, ◌∙◌, Bool, true, List, [], ◌∷◌, text_eq, All, map, Bool-cases, filter, inl, inr,
}
use filesystem_charms.Base.Exec.{ok, bind_result}
use filesystem_charms.Base.Text.{Text}
use filesystem_charms.Filesystem.{FilesystemInfo}
use filesystem_charms.Filesystem.Infos.{Secrets, remote}
use filesystem_charms.Filesystem.Infos.Known.{IsShareable, uri_to_fs_info-Known, Known-ne-nil}
use filesystem_charms.Filesystem.Infos.Secret.{IsJuju}
use filesystem_charms.Filesystem.Provides.{Relation, World, relations}
use filesystem_charms.Filesystem.Provides.Loop.{IsShared, Published}
use filesystem_charms.Filesystem.Requires.{endpoints_of, endpoints}
use filesystem_charms.Filesystem.Uri.{Urllib}
use filesystem_charms.Filesystem.Uri.Lawful.{IsUrllib, is_empty-ne-nil}

module _ (U : Urllib) (u : IsUrllib U) (S : Secrets) (j : IsJuju S) (is_ipv6 : Text → Bool) where
  endpoints_of_shared :
      (info : FilesystemInfo) (uri : Text) (s : S.World) (r : Relation) (rs : List Relation)
      → IsShareable is_ipv6 info
      → IsShared U u S j is_ipv6 info uri s r
      → endpoints_of U S s (r ∷ rs)
        ≡ bind_result (endpoints_of U S s rs) (λ es. ok (record { info = info; uri = uri } ∷ es))
  unfolding endpoints_of
  endpoints_of_shared info uri s r rs h q =
      let filled =
        is_empty-ne-nil uri (Known-ne-nil U u S j is_ipv6 info uri (remote r.id) s q.known) in
      rw
        (
          endpoints_of,
          q.written,
          filled,
          uri_to_fs_info-Known U u S j is_ipv6 info uri (remote r.id) s h q.known,
        )
        refl

  endpoints-shared :
      (info : FilesystemInfo) (uri : Text) (s : S.World) (rs : List Relation)
      → IsShareable is_ipv6 info
      → All (λ r. r.ready ≡ true → IsShared U u S j is_ipv6 info uri s r) rs
      → endpoints U S s rs ≡ ok (map (λ _. record { info = info; uri = uri }) (relations rs))
  unfolding endpoints relations filter
  endpoints-shared info uri s [] h q = unfold endpoints_of in refl
  endpoints-shared info uri s (r ∷ rs) h q = elim (Bool-cases r.ready) [
    | inl e ↦
        simp (endpoints, relations, filter, e)
          (endpoints_of_shared info uri s r (relations rs) h (q.0 e)
            ∙ ap (λ x. bind_result x (λ es. ok (record { info = info; uri = uri } ∷ es)))
                (endpoints-shared info uri s rs h q.1))
    | inr e ↦ simp (endpoints, relations, filter, e) (endpoints-shared info uri s rs h q.1)
  ]

  -- Of what a provider has published, `endpoints` of its clients reads exactly the information
  -- that was set, once for each relation whose data can be read, if `urllib.parse` and Juju's
  -- secrets do what the code relies on.
  pub endpoints-Published :
      (info : FilesystemInfo) (uri : Text) (w : World S)
      → IsShareable is_ipv6 info
      → Published U u S j is_ipv6 info uri w
      → endpoints U S w.secrets w.clients
        ≡ ok (map (λ _. record { info = info; uri = uri }) (relations w.clients))
  endpoints-Published info uri w h p = endpoints-shared info uri w.secrets w.clients h p.shared
