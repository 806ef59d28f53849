-- ===== src/Filesystem/Provides/Loop.antt =====
-- The loop of `set_info` over the relations, and what a relation has that it has visited.
use filesystem_charms.Base.{
  ◌≡◌, refl, sym, ◌∙◌, subst, Bool, true, false, ℕ, some, List, [], ◌∷◌, nat_eq, text_eq, ◌==◌,
  if◌then◌else◌, filter, map, All, contains, arith, Bool-cases, inl, inr, nat_beq_iff,
  text_beq_refl,
}
use filesystem_charms.Base.Dict.{lookup, insert, lookup-insert}
use filesystem_charms.Base.Exec.{ok, >>=_ok}
use filesystem_charms.Base.Text.{Text, codes}
use filesystem_charms.Filesystem.{FilesystemInfo}
use filesystem_charms.Filesystem.Infos.{Secrets, owner, remote, grant}
use filesystem_charms.Filesystem.Infos.Known.{Known, grant-ok, grant-Known, grant-keeps-Known}
use filesystem_charms.Filesystem.Infos.Secret.{IsJuju}
use filesystem_charms.Filesystem.Provides.{
  Relation, World, relations, write_endpoint, endpoint, share, share_all,
}
use filesystem_charms.Filesystem.Uri.{Urllib}
use filesystem_charms.Filesystem.Uri.Lawful.{IsUrllib}

unfoldable pub ids : List Relation → List ℕ
ids rs = map (λ r. r.id) (relations rs)

-- A relation that is ready is among those that the loop visits.
unfoldable pub Visited : List ℕ → Relation → Type 0
Visited ks r = r.ready ≡ true → contains ks r.id ≡ true

All-Visited :
    (k : ℕ) (ks : List ℕ) (rs : List Relation) → All (Visited ks) rs → All (Visited (k ∷ ks)) rs
unfolding Visited contains
All-Visited k ks [] h = tt
All-Visited k ks (r ∷ rs) h = ((λ e. ground (arith, h.0 e)), All-Visited k ks rs h.1)

ids_ready : (r : Relation) (rs : List Relation) → r.ready ≡ true → ids (r ∷ rs) ≡ r.id ∷ ids rs
unfolding ids relations filter
ids_ready r rs e = simp (ids, relations, filter, e) refl

ids_waiting : (r : Relation) (rs : List Relation) → r.ready ≡ false → ids (r ∷ rs) ≡ ids rs
unfolding ids relations filter
ids_waiting r rs e = simp (ids, relations, filter, e) refl

first_visited : (r : Relation) (ks : List ℕ) → contains (r.id ∷ ks) r.id ≡ true
unfolding contains
first_visited r ks = ground (arith, nat_beq_iff r.id r.id)

still :
    (r : Relation) (k : ℕ) (ks : List ℕ)
    → (r.id == k) ≡ false
    → contains ks r.id ≡ false
    → contains (k ∷ ks) r.id ≡ false
unfolding contains
still r k ks e q = ground (arith, nat_beq_iff r.id k, nat_beq_iff k r.id)

pub ready-Visited : (rs : List Relation) → All (Visited (ids rs)) rs
unfolding Visited
ready-Visited [] = tt
ready-Visited (r ∷ rs) = elim (Bool-cases r.ready) [
  | inl e ↦
      subst (λ ks. All (Visited ks) (r ∷ rs)) (sym (ids_ready r rs e))
        ((λ _. first_visited r (ids rs)), All-Visited r.id (ids rs) rs (ready-Visited rs))
  | inr e ↦
      subst (λ ks. All (Visited ks) (r ∷ rs)) (sym (ids_waiting r rs e))
        ((λ q. cc (q, e)), ready-Visited rs)
]

-- What holds of all ids holds of those that the loop visits.
pub All-ids : (P : ℕ → Type 0) (rs : List Relation) → All (λ r. P r.id) rs → All P (ids rs)
unfolding ids relations filter
All-ids P [] h = tt
All-ids P (r ∷ rs) h = elim (Bool-cases r.ready) [
  | inl e ↦ subst (All P) (sym (ids_ready r rs e)) (h.0, All-ids P rs h.1)
  | inr e ↦ subst (All P) (sym (ids_waiting r rs e)) (All-ids P rs h.1)
]

module _ (U : Urllib) (u : IsUrllib U) (S : Secrets) (j : IsJuju S) (is_ipv6 : Text → Bool) where
  -- A client reads the information from its relation.
  pub record IsShared (info : FilesystemInfo) (uri : Text) (s : S.World) (r : Relation)
      : Type 0 where
    pub written : lookup (codes "endpoint") r.databag ≡ some uri
    pub known : Known U u S j is_ipv6 info uri (remote r.id) s

  pub record Published (info : FilesystemInfo) (uri : Text) (w : World S) : Type 0 where
    pub endpoint : endpoint w ≡ uri
    pub owned : Known U u S j is_ipv6 info uri owner w.secrets
    pub shared : All (λ r. r.ready ≡ true → IsShared info uri w.secrets r) w.clients

  module _ (info : FilesystemInfo) (uri : Text) where
    -- What the loop has still to do: the relations that it has to visit.
    pub record Loop (ks : List ℕ) (w : World S) : Type 0 where
      pub owned : Known U u S j is_ipv6 info uri owner w.secrets
      pub done :
          All
            (λ r. contains ks r.id ≡ false → r.ready ≡ true → IsShared info uri w.secrets r)
            w.clients

    write_all :
        (k : ℕ) (ks : List ℕ) (s : S.World) (rs : List Relation)
        → S.related k ≡ true
        → Known U u S j is_ipv6 info uri owner s
        → All (λ r. contains (k ∷ ks) r.id ≡ false → r.ready ≡ true → IsShared info uri s r) rs
        → All
            (λ r.
              contains ks r.id ≡ false
              → r.ready ≡ true
              → IsShared info uri (grant U S info k s).1 r)
            (write_endpoint uri k rs)
    unfolding write_endpoint
    write_all k ks s [] there o h = tt
    write_all k ks s (r ∷ rs) there o h = (head, write_all k ks s rs there o h.1)
      where
        head :
            let r' =
              if r.id == k
              then record r { databag = insert (codes "endpoint") uri r.databag }
              else r in
            contains ks r'.id ≡ false
            → r'.ready ≡ true
            → IsShared info uri (grant U S info k s).1 r'
        head q ready = elim (Bool-cases (r.id == k)) [
          | inl e ↦ rw e (record {
            written =
                rw
                  (
                    lookup-insert _ (codes "endpoint") uri r.databag,
                    text_beq_refl (codes "endpoint"),
                  )
                  refl;
            known =
                subst (λ i. Known U u S j is_ipv6 info uri (remote i) (grant U S info k s).1)
                  (sym ((nat_beq_iff r.id k).0 e))
                  (grant-Known U u S j is_ipv6 info uri k s there o).1;
          })
          | inr e ↦
              let before = h.0 (still r k ks e (rw e at q)) (rw e at ready) in
              rw e (record {
                written = before.written;
                known = grant-keeps-Known U u S j is_ipv6 info uri k r.id s before.known;
              })
        ]

    -- What a relation's share makes, if nothing is raised.
    pub shared_with : ℕ → World S → World S
    shared_with k w = record w {
      secrets = (grant U S info k w.secrets).1;
      clients = write_endpoint uri k w.clients;
    }

    pub share_returns :
        (k : ℕ) (w : World S)
        → S.related k ≡ true
        → Known U u S j is_ipv6 info uri owner w.secrets
        → share U S is_ipv6 info uri k w ≡ (ok tt, shared_with k w)
    unfolding share shared_with
    share_returns k w there o =
        rw (share, grant-ok U u S j is_ipv6 info uri k w.secrets there o) refl

    pub shared_with-peers : (k : ℕ) (w : World S) → (shared_with k w).peers ≡ w.peers
    unfolding shared_with
    shared_with-peers k w = refl

    pub shared_with-Loop :
        (k : ℕ) (ks : List ℕ) (w : World S)
        → S.related k ≡ true
        → Loop (k ∷ ks) w
        → Loop ks (shared_with k w)
    unfolding shared_with
    shared_with-Loop k ks w there h = record {
      owned = (grant-Known U u S j is_ipv6 info uri k w.secrets there h.owned).0;
      done = write_all k ks w.secrets w.clients there h.owned h.done;
    }

    pub share_all-Loop :
        (ks : List ℕ) (w : World S)
        → All (λ k. S.related k ≡ true) ks
        → Loop ks w
        → let (r, w') = share_all U S is_ipv6 info uri ks w in
          (r ≡ ok tt) × (w'.peers ≡ w.peers) × Loop [] w'
    unfolding share_all
    share_all-Loop [] w there h = (refl, refl, h)
    share_all-Loop (k ∷ ks) w there h =
        let next =
          >>=_ok (share U S is_ipv6 info uri k) (λ _. share_all U S is_ipv6 info uri ks) w
            (share_returns k w there.0 h.owned) in
        let (done, kept, loop) =
          share_all-Loop ks (shared_with k w) there.1 (shared_with-Loop k ks w there.0 h) in
        rw next (done, kept ∙ shared_with-peers k w, loop)

  pub done_IsShared :
      (info : FilesystemInfo) (uri : Text) (s : S.World) (rs : List Relation)
      → All (λ r. contains [] r.id ≡ false → r.ready ≡ true → IsShared info uri s r) rs
      → All (λ r. r.ready ≡ true → IsShared info uri s r) rs
  unfolding contains
  done_IsShared info uri s [] h = tt
  done_IsShared info uri s (r ∷ rs) h = (h.0 refl, done_IsShared info uri s rs h.1)

  -- Before the loop, every relation that is ready is still to visit.
  pub start_Loop :
      (info : FilesystemInfo) (uri : Text) (s : S.World) (ks : List ℕ) (rs : List Relation)
      → All (Visited ks) rs
      → All (λ r. contains ks r.id ≡ false → r.ready ≡ true → IsShared info uri s r) rs
  unfolding Visited
  start_Loop info uri s ks [] h = tt
  start_Loop info uri s ks (r ∷ rs) h = ((λ q e. cc (q, h.0 e)), start_Loop info uri s ks rs h.1)
