-- ===== src/Lnet/Reconcile/Converge.antt =====
-- The networks of a host after `_ensure_networks` went through.
use filesystem_charms.Base.{
  ◌≡◌, ◌≢◌, refl, ◌∙◌, ap, sym, Bool, true, false, ◌||◌, List, [], ◌∷◌, contains, text_eq, ◌==◌,
  if◌then◌else◌, Option, none, some, arith, All, Bool-cases, text_beq_iff, text_beq_refl, inl, inr,
}
use filesystem_charms.Base.Dict.{keys, lookup, NodupKeys, lookup_absent}
use filesystem_charms.Base.Exec.{Result, ok, pure, >>=-eq-ok, ◌>>=◌, for_each, lift}
use filesystem_charms.Base.Text.{Text}
use filesystem_charms.Lnet.{Networks, LnetError, query_networks, add_network}
use filesystem_charms.Lnet.Show.{Yaml, parse_networks}
use filesystem_charms.Lnet.Reconcile.{
  net_show, net_add, bound_list, add_new_network, reconcile, ensure_network, ensure_networks,
}
use filesystem_charms.Lnet.Reconcile.Lawful.{View, IsRendered, IsLawful}
use filesystem_charms.System.{System, run_checked}
use filesystem_charms.Lnet.Reconcile.Stages.{run_checked_inv, run_unit_inv, reconcile_lem}

-- The interfaces that a network has after the loop, from those that it had.
abbrev pub after : Option (List Text) → Bool → Text → Bool
after none before i = before
after (some is) before i = contains is i

module _ (S : System) (Y : Yaml) (V : View S.World) (L : IsLawful S Y V) where
  ensure_network_there :
      (existing : Networks) (name : Text) (is : List Text)
      → contains (keys existing) name ≡ true
      → ensure_network S Y existing (name, is)
        ≡ reconcile S Y name (bound_list (lookup name existing)) is
  unfolding ensure_network
  ensure_network_there existing name is h = rw h

  ensure_network_missing :
      (existing : Networks) (name : Text) (is : List Text)
      → contains (keys existing) name ≡ false
      → ensure_network S Y existing (name, is) ≡ add_new_network S Y name is
  unfolding ensure_network
  ensure_network_missing existing name is h = rw h

  added_new :
      (existing : Networks) (name : Text) (is : List Text) (w w' : S.World)
      → contains (keys existing) name ≡ false
      → ensure_network S Y existing (name, is) w ≡ (ok tt, w')
      → ◌≡◌ {A = Result LnetError (Unit {0}) × S.World}
          ((run_checked S (net_add name is) (add_network name) >>= λ _. pure tt) w)
          (ok tt, w')
  unfolding add_new_network
  added_new existing name is w w' missing h =
      ap (λ m. m w) (sym (ensure_network_missing existing name is missing)) ∙ h

  -- What the host is after one round of the loop, where `existing` lists what it had.
  ensure_network_lem :
      (existing : Networks) (name kept : Text) (is : List Text) (w w' : S.World)
      → IsRendered V name
      → ensure_network S Y existing (name, kept ∷ is) w ≡ (ok tt, w')
      → contains (keys existing) name ≡ V.has_network w name
      → ((i : Text) → contains (bound_list (lookup name existing)) i ≡ V.is_bound w name i)
      → (n i : Text)
      → (V.has_network w' n ≡ (name == n || V.has_network w n))
        × (V.is_bound w' n i ≡ (if name == n then contains (kept ∷ is) i else V.is_bound w n i))
  ensure_network_lem existing name kept is w w' c h listed agrees n i =
      elim (Bool-cases (contains (keys existing) name)) [
        | inl there ↦
            let r =
              reconcile_lem S Y V L name (bound_list (lookup name existing)) kept is w w' c
                (ap (λ m. m w) (sym (ensure_network_there existing name (kept ∷ is) there)) ∙ h)
                (sym listed ∙ there) agrees n i in
            (ground (arith, r.0, text_beq_iff name n), r.1)
        | inr missing ↦
            let (out, p) =
              run_unit_inv S {E = LnetError} (net_add name (kept ∷ is)) (add_network name) w w'
                (added_new existing name (kept ∷ is) w w' missing h) in
            let absent : V.has_network w name ≡ false = sym listed ∙ missing in
            (
              L.add_has w w' out name (kept ∷ is) c p absent n,
              L.add_bound w w' out name (kept ∷ is) c p absent n i,
            )
      ]

  loop_lem :
      (existing networks : Networks) (w w' : S.World)
      → NodupKeys networks
      → All (λ p. IsRendered V p.0 × (p.1 ≢ [])) networks
      → for_each networks (ensure_network S Y existing) w ≡ (ok tt, w')
      → ((n : Text)
          → contains (keys networks) n ≡ true
          → contains (keys existing) n ≡ V.has_network w n)
      → ((n i : Text)
          → contains (keys networks) n ≡ true
          → contains (bound_list (lookup n existing)) i ≡ V.is_bound w n i)
      → (n i : Text)
      → (V.has_network w' n ≡ (contains (keys networks) n || V.has_network w n))
        × (V.is_bound w' n i ≡ after (lookup n networks) (V.is_bound w n i) i)
  unfolding for_each keys lookup contains
  loop_lem existing [] w w' u ne h listed agrees n i =
      let same : w ≡ w' = ap (λ r. r.1) h in rw (← same) (refl, refl)
  loop_lem existing ((name, []) ∷ networks) w w' u ne h listed agrees n i = absurd (ne.0.1 refl)
  loop_lem existing ((name, kept ∷ is) ∷ networks) w w' u ne h listed agrees n i =
      let (_, w₁, p, q) =
        >>=-eq-ok (ensure_network S Y existing (name, kept ∷ is))
          (λ _. for_each networks (ensure_network S Y existing)) w w' tt h in
      let first =
        ensure_network_lem existing name kept is w w₁ ne.0.0 p
          (listed name (ground (arith, text_beq_refl name)))
          (λ j. agrees name j (ground (arith, text_beq_refl name))) in
      let rest =
        loop_lem existing networks w₁ w' u.1 ne.1 q
          (λ m there.
            listed m (ground arith) ∙ ground (arith, (first m m).0, text_beq_iff name m, u.0))
          (λ m j there.
            agrees m j (ground arith) ∙ ground (arith, (first m j).1, text_beq_iff name m, u.0))
          n i in
      (
        ground (arith, rest.0, (first n i).0),
        ground (arith, rest.1, (first n i).1, text_beq_iff name n, u.0, lookup_absent n networks),
      )

  -- If `lnetctl` does what it is documented to do and `_ensure_networks` goes through for
  -- networks that have interfaces and distinct names, which `net show` prints as they are, then the
  -- host has each of these networks with exactly its interfaces, and every other network is as it
  -- was.
  pub ensure_networks_converges :
      (networks : Networks) (w w' : S.World)
      → NodupKeys networks
      → All (λ p. IsRendered V p.0 × (p.1 ≢ [])) networks
      → ensure_networks S Y networks w ≡ (ok tt, w')
      → (n i : Text)
      → (V.has_network w' n ≡ (contains (keys networks) n || V.has_network w n))
        × (V.is_bound w' n i ≡ after (lookup n networks) (V.is_bound w n i) i)
  ensure_networks_converges networks w w' u ne h n i =
      let (out, w₁, p, q) =
        >>=-eq-ok (run_checked S net_show query_networks)
          (λ out. lift (parse_networks Y out) >>= λ existing.
            for_each networks (ensure_network S Y existing))
          w w' tt (unfold ensure_networks in h) in
      let shown = run_checked_inv S net_show query_networks w w₁ out p in
      let (existing, w₂, r, t) =
        >>=-eq-ok (lift (parse_networks Y out))
          (λ existing. for_each networks (ensure_network S Y existing)) w₁ w' tt q in
      let parsed : parse_networks Y out ≡ ok existing = ap (λ x. x.0) r in
      let same : w₂ ≡ w = sym (ap (λ x. x.1) r) ∙ L.shown.show w w₁ out shown in
      loop_lem existing networks w w' u ne (rw same at t)
        (λ m _. L.shown.show_networks w w₁ out existing shown parsed m)
        (λ m j _. L.shown.show_bound w w₁ out existing shown parsed m j) n i
