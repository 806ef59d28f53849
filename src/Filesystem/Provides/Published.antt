-- ===== src/Filesystem/Provides/Published.antt =====
-- What a provider has published is what its clients read.
use filesystem_charms.Base.{
  ◌≡◌, refl, ap, ◌∙◌, Bool, true, false, ℕ, some, List, [], ◌∷◌, ◌++◌, nat_eq, text_eq, All,
  All-append, contains, arith, nat_beq_iff, text_beq_refl,
}
use filesystem_charms.Base.Dict.{Dict, insert, lookup-insert}
use filesystem_charms.Base.Exec.{Result, ok}
use filesystem_charms.Base.Text.{Text, codes}
use filesystem_charms.Filesystem.{FilesystemInfo}
use filesystem_charms.Filesystem.Infos.{Secrets, owner, to_uri}
use filesystem_charms.Filesystem.Infos.Known.{
  IsShareable, Known, to_uri-Known, uri_to_fs_info-Known, Known-ne-nil,
}
use filesystem_charms.Filesystem.Infos.Secret.{IsJuju}
use filesystem_charms.Filesystem.Provides.{
  Relation, World, get_state, endpoint, set_state, share, share_all, publish, set_info,
  update_relation,
}
use filesystem_charms.Filesystem.Uri.{Urllib, InfoError}
use filesystem_charms.Filesystem.Uri.Lawful.{IsUrllib, is_empty-ne-nil}
use filesystem_charms.Filesystem.Provides.Loop.{
  ids, ready-Visited, IsShared, Published, Loop, shared_with, share_returns, shared_with-Loop,
  shared_with-peers, share_all-Loop, All-ids, done_IsShared, start_Loop,
}

module _ {S : Secrets} where
  -- A relation that is joined, with an empty databag.
  pub joined : ℕ → Bool → World S → World S
  joined id ready w = record w {
    clients = w.clients ++ record { id = id; ready = ready; databag = [] } ∷ [];
  }

  set_state_returns :
      (key value : Text) (d : Dict Text Text) (w : World S)
      → w.peers ≡ some d
      → set_state key value w ≡ (ok tt, record w { peers = some (insert key value d) })
  unfolding set_state
  set_state_returns key value d w e = rw (set_state, e) refl

module _ (U : Urllib) (u : IsUrllib U) (S : Secrets) (j : IsJuju S) (is_ipv6 : Text → Bool) where
  Loop-Published :
      (info : FilesystemInfo) (uri : Text) (w : World S)
      → endpoint w ≡ uri
      → Loop U u S j is_ipv6 info uri [] w
      → Published U u S j is_ipv6 info uri w
  Loop-Published info uri w e h = record {
    endpoint = e;
    owned = h.owned;
    shared = done_IsShared U u S j is_ipv6 info uri w.secrets w.clients h.done;
  }

  endpoint-set :
      (uri : Text) (d : Dict Text Text) (w : World S)
      → endpoint (record w { peers = some (insert (codes "endpoint") uri d) }) ≡ uri
  unfolding endpoint get_state
  endpoint-set uri d w =
      rw (lookup-insert _ (codes "endpoint") uri d, text_beq_refl (codes "endpoint")) refl

  endpoint-peers : (w w' : World S) → w'.peers ≡ w.peers → endpoint w' ≡ endpoint w
  unfolding endpoint get_state
  endpoint-peers w w' e = rw e refl

  publish_returns :
      (info : FilesystemInfo) (uri : Text) (d : Dict Text Text) (w : World S)
      → w.peers ≡ some d
      → publish U S is_ipv6 info uri w
        ≡ share_all U S is_ipv6 info uri
            (ids w.clients)
            (record w { peers = some (insert (codes "endpoint") uri d) })
  unfolding publish ids
  publish_returns info uri d w e =
      let set = set_state_returns (codes "endpoint") uri d w e in
      rw (publish, set)
        (ap
          (λ (x : Result InfoError (Unit {0}) × World S).
            share_all U S is_ipv6 info uri (ids x.1.clients) x.1)
          set)

  publish-Published :
      (info : FilesystemInfo) (uri : Text) (d : Dict Text Text) (w : World S)
      → All (λ r. S.related r.id ≡ true) w.clients
      → w.peers ≡ some d
      → Known U u S j is_ipv6 info uri owner w.secrets
      → let (r, w') = publish U S is_ipv6 info uri w in
        (r ≡ ok tt) × Published U u S j is_ipv6 info uri w'
  publish-Published info uri d w there e k =
      let w₁ : World S = record w { peers = some (insert (codes "endpoint") uri d) } in
      let ks = ids w.clients in
      let (done, kept, loop) =
        share_all-Loop U u S j is_ipv6 info uri ks w₁
          (All-ids (λ k. S.related k ≡ true) w.clients there)
          (record {
            owned = k;
            done =
                start_Loop U u S j is_ipv6 info uri w.secrets ks w.clients
                  (ready-Visited w.clients);
          }) in
      rw (publish_returns info uri d w e)
        (done, Loop-Published info uri _ (endpoint-peers w₁ _ kept ∙ endpoint-set uri d w) loop)

  set_info_returns :
      (info : FilesystemInfo) (uri : Text) (w : World S)
      → (to_uri U S is_ipv6 info w.secrets).0 ≡ ok uri
      → set_info U S is_ipv6 true info w
        ≡ publish U S is_ipv6 info uri
            (record w { secrets = (to_uri U S is_ipv6 info w.secrets).1 })
  unfolding set_info
  set_info_returns info uri w e = rw (set_info, e) refl

  -- On the leader of a provider with a peer relation, `set_info` of information that a URI can
  -- carry returns, and then the peers' databag has an endpoint that the owner can read, and every
  -- client's relation whose data can be read has the same endpoint and can read the information
  -- from it, if the relations are there and `urllib.parse` and Juju's
  -- secrets do what the code relies on.
  pub set_info-Published :
      (info : FilesystemInfo) (d : Dict Text Text) (w : World S)
      → IsShareable is_ipv6 info
      → All (λ r. S.related r.id ≡ true) w.clients
      → w.peers ≡ some d
      → let (r, w') = set_info U S is_ipv6 true info w in
        (r ≡ ok tt) × (uri : Text) × Published U u S j is_ipv6 info uri w'
  set_info-Published info d w h there e =
      let (uri, returned, known) = to_uri-Known U u S j is_ipv6 info w.secrets h in
      let w₁ : World S = record w { secrets = (to_uri U S is_ipv6 info w.secrets).1 } in
      let (done, published) = publish-Published info uri d w₁ there e known in
      rw (set_info_returns info uri w returned) (done, uri, published)

  endpoint-joined :
      (id : ℕ) (ready : Bool) (w : World S) → endpoint (joined id ready w) ≡ endpoint w
  unfolding endpoint get_state joined
  endpoint-joined id ready w = refl

  update_returns :
      (info : FilesystemInfo) (uri : Text) (id : ℕ) (w : World S)
      → IsShareable is_ipv6 info
      → S.related id ≡ true
      → endpoint w ≡ uri
      → Known U u S j is_ipv6 info uri owner w.secrets
      → update_relation U S is_ipv6 true id w ≡ (ok tt, shared_with U u S j is_ipv6 info uri id w)
  unfolding update_relation
  update_returns info uri id w h there e k =
      let filled = is_empty-ne-nil uri (Known-ne-nil U u S j is_ipv6 info uri owner w.secrets k) in
      let read = uri_to_fs_info-Known U u S j is_ipv6 info uri owner w.secrets h k in
      rw (update_relation, e, filled, read)
        (ap (λ v. share U S is_ipv6 info v id w) e
          ∙ share_returns U u S j is_ipv6 info uri id w there k)

  joined-Loop :
      (info : FilesystemInfo) (uri : Text) (id : ℕ) (ready : Bool) (w : World S)
      → Published U u S j is_ipv6 info uri w
      → Loop U u S j is_ipv6 info uri (id ∷ []) (joined id ready w)
  unfolding joined
  joined-Loop info uri id ready w p = record {
    owned = p.owned;
    done =
        All-append _ w.clients (record { id = id; ready = ready; databag = [] } ∷ [])
          (old w.clients p.shared) ((λ q _. cc (q, contains_head)), tt);
  }
    where
      contains_head : contains (id ∷ []) id ≡ true
      contains_head = unfold contains in ground (arith, nat_beq_iff id id)

      old :
          (rs : List Relation)
          → All (λ r. r.ready ≡ true → IsShared U u S j is_ipv6 info uri w.secrets r) rs
          → All
              (λ r.
                contains (id ∷ []) r.id ≡ false
                → r.ready ≡ true
                → IsShared U u S j is_ipv6 info uri w.secrets r)
              rs
      old [] h = tt
      old (r ∷ rs) h = ((λ _. h.0), old rs h.1)

  owned_joined :
      (info : FilesystemInfo) (uri : Text) (id : ℕ) (ready : Bool) (w : World S)
      → Published U u S j is_ipv6 info uri w
      → Known U u S j is_ipv6 info uri owner (joined id ready w).secrets
  unfolding joined
  owned_joined info uri id ready w p = p.owned

  -- When a client's relation is joined, `_update_relation` on the leader returns and keeps this:
  -- the new relation, if its data can be read, and all earlier ones have the endpoint and can read
  -- the information from it, if the relations are there and `urllib.parse` and Juju's
  -- secrets do what the code relies on.
  pub update_relation-Published :
      (info : FilesystemInfo) (uri : Text) (id : ℕ) (ready : Bool) (w : World S)
      → IsShareable is_ipv6 info
      → S.related id ≡ true
      → Published U u S j is_ipv6 info uri w
      → let (r, w') = update_relation U S is_ipv6 true id (joined id ready w) in
        (r ≡ ok tt) × Published U u S j is_ipv6 info uri w'
  update_relation-Published info uri id ready w h there p =
      let w₁ = joined id ready w in
      let e = endpoint-joined id ready w ∙ p.endpoint in
      let loop =
        shared_with-Loop U u S j is_ipv6 info uri id [] w₁ there
          (joined-Loop info uri id ready w p) in
      rw (update_returns info uri id w₁ h there e (owned_joined info uri id ready w p)) (
        refl,
        Loop-Published info uri _
            (endpoint-peers w₁ _ (shared_with-peers U u S j is_ipv6 info uri id w₁) ∙ e) loop,
      )
