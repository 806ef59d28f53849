-- ===== src/Filesystem/Provides.antt =====
-- `FilesystemProvides` of charms/filesystem-client/lib/charms/filesystem_client/v0/filesystem_info.py.

pub mod Loop
pub mod Published
use filesystem_charms.Base.{
  Bool, true, false, not, ◌||◌, ℕ, Option, none, some, List, [], ◌∷◌, is_empty, nat_eq, text_eq,
  ◌==◌, if◌then◌else◌, filter, map,
}
use filesystem_charms.Base.Dict.{Dict, lookup, insert}
use filesystem_charms.Base.Exec.{Result, Exec, ok, err, pure, ◌>>=◌, ◌>>◌}
use filesystem_charms.Base.Text.{Text, codes}
use filesystem_charms.Filesystem.{FilesystemInfo, Provider}
use filesystem_charms.Filesystem.Infos.{Secrets, Reader, owner, to_uri, grant, uri_to_fs_info}
use filesystem_charms.Filesystem.Uri.{Urllib, InfoError, no_peer_relation, or_empty}

-- A relation with a client: whether its data can be read yet, and the databag of the provider.
pub record Relation : Type 0 where
  pub id : ℕ
  pub ready : Bool
  pub databag : Dict Text Text

-- What a provider changes: the secrets, its databag in the peer relation, and its clients'
-- relations.
pub record World (S : Secrets) : Type 0 where
  pub secrets : S.World
  pub peers : Option (Dict Text Text)
  pub clients : List Relation

-- `relations`
unfoldable pub relations : List Relation → List Relation
unfolding filter
relations rs = filter (λ r. r.ready) rs

-- `relation.data[self.app]["endpoint"] = uri`, for the relation with the id
unfoldable pub write_endpoint : Text → ℕ → List Relation → List Relation
unfolding insert
write_endpoint uri id [] = []
write_endpoint uri id (r ∷ rs) =
    (if r.id == id then record r { databag = insert (codes "endpoint") uri r.databag } else r)
    ∷ write_endpoint uri id rs

module _ {S : Secrets} where
  -- `_get_state`
  unfoldable pub get_state : Text → World S → Option Text
  unfolding lookup
  get_state key w = elim w.peers [ none ↦ none | some bag ↦ lookup key bag ]

  -- `_endpoint`
  unfoldable pub endpoint : World S → Text
  unfolding get_state
  endpoint w = or_empty (get_state (codes "endpoint") w)

  -- `_set_state`
  unfoldable pub set_state : Text → Text → World S → Result InfoError (Unit {0}) × World S
  unfolding insert
  set_state key value w = elim w.peers [
    | none ↦ (err no_peer_relation, w)
    | some bag ↦ (ok tt, record w { peers = some (insert key value bag) })
  ]

module _ (U : Urllib) (S : Secrets) (is_ipv6 : Text → Bool) where
  -- Grants a relation its secrets, which may raise, and then writes the endpoint to it, which Juju
  -- lets the leader do.
  unfoldable pub share : FilesystemInfo → Text → ℕ → Exec (World S) InfoError (Unit {0})
  unfolding grant write_endpoint
  share info uri id w =
      let (r, s) = grant U S info id w.secrets in
      elim r [
        | err e ↦ (err e, record w { secrets = s })
        | ok _ ↦ (ok tt, record w { secrets = s; clients = write_endpoint uri id w.clients })
      ]

  -- The loop over the relations, which ends at the first exception.
  unfoldable pub share_all : FilesystemInfo → Text → List ℕ → Exec (World S) InfoError (Unit {0})
  unfolding share
  share_all info uri [] = pure tt
  share_all info uri (id ∷ ids) = share info uri id >> share_all info uri ids

  -- From `self._endpoint = uri` on.
  unfoldable pub publish : FilesystemInfo → Text → World S → Result InfoError (Unit {0}) × World S
  unfolding set_state share_all relations
  publish info uri w =
      let (r, w') = set_state (codes "endpoint") uri w in
      elim r [
        | err e ↦ (err e, w')
        | ok _ ↦ share_all info uri (map (λ r. r.id) (relations w'.clients)) w'
      ]

  -- `set_info`, on a unit that is the leader or is not.
  unfoldable pub set_info : Bool → FilesystemInfo → World S → Result InfoError (Unit {0}) × World S
  unfolding to_uri publish
  set_info false info w = (ok tt, w)
  set_info true info w =
      let (r, s) = to_uri U S is_ipv6 info w.secrets in
      let w' = record w { secrets = s } in
      elim r [ err e ↦ (err e, w') | ok uri ↦ publish info uri w' ]

  -- `_update_relation`, when a relation was joined.
  unfoldable pub update_relation : Bool → ℕ → World S → Result InfoError (Unit {0}) × World S
  unfolding endpoint uri_to_fs_info share
  update_relation is_leader id w =
      if not is_leader || is_empty (endpoint w)
      then (ok tt, w)
      else elim (uri_to_fs_info U S owner w.secrets (endpoint w)) [
        | err e ↦ (err e, w)
        | ok info ↦ share info (endpoint w) id w
      ]

  -- `FilesystemProvides`, as the charm of a unit uses it.
  abbrev pub provider : Bool → Provider
  provider is_leader = record {
    State = World S;
    set_info = λ info w.
        let (r, w') = set_info is_leader info w in (elim r [ ok _ ↦ true | err _ ↦ false ], w');
  }
