-- ===== src/Lnet/Detect/Detected.antt =====
-- What the detected networks are.
use filesystem_charms.Base.{
  ◌≡◌, ◌≢◌, refl, sym, ◌∙◌, arith, All, true, Option, none, some, List, [], ◌∷◌, contains, to_set,
  text_eq, Option-cases, inl, inr, Bool-cases, text_beq_iff, text_beq, ◌==◌, contains-to_set,
}
use filesystem_charms.Base.Dict.{Dict, NodupKeys, keys, insert}
use filesystem_charms.Base.Exec.{ok, pure, >>=-eq-ok, ◌>>=◌}
use filesystem_charms.Base.Sort.{contains-sorted}
use filesystem_charms.Base.Text.{Text}
use filesystem_charms.Lnet.{Networks}
use filesystem_charms.Lnet.Detect.{
  Json, Listing, default_route_interface, rdma_interfaces, is_netdev_up, resolve_link_netdev,
  link_interface, link_interfaces, sorted_interfaces, ipoib_netdev_map, detected, detect_networks,
}
use filesystem_charms.System.{System}

module _ (S : System) (J : Json) (iterdir : Listing S) where
  link_interface-up :
      (ipoib_map : Dict Text Text) (w : S.World) (link : J.Object) (netdev : Text)
      → link_interface S J iterdir ipoib_map w link ≡ some netdev
      → is_netdev_up S J iterdir netdev w ≡ true
  unfolding link_interface
  link_interface-up ipoib_map w link netdev h =
      elim (Option-cases (resolve_link_netdev S J iterdir link ipoib_map)) [
        | inl unresolved ↦ absurd (ground arith)
        | inr (found, resolved) ↦ elim (Bool-cases (is_netdev_up S J iterdir found w)) [
          | inl up ↦ let same : found ≡ netdev = ground arith in rw (← same) up
          | inr down ↦ absurd (ground arith)
        ]
      ]

  -- Every interface that is taken for an RDMA interface is up.
  link_interfaces-up :
      (ipoib_map : Dict Text Text) (w : S.World) (links : List J.Object) (netdev : Text)
      → contains (link_interfaces S J iterdir ipoib_map w links) netdev ≡ true
      → is_netdev_up S J iterdir netdev w ≡ true
  unfolding contains link_interfaces
  link_interfaces-up ipoib_map w [] netdev h = absurd (ground arith)
  link_interfaces-up ipoib_map w (link ∷ links) netdev h =
      elim (Option-cases (link_interface S J iterdir ipoib_map w link)) [
        | inl unused ↦ link_interfaces-up ipoib_map w links netdev (ground arith)
        | inr (found, used) ↦ elim (Bool-cases (found == netdev)) [
          | inl same ↦
              link_interface-up ipoib_map w link netdev (ground (arith, text_beq_iff found netdev))
          | inr other ↦ link_interfaces-up ipoib_map w links netdev (ground arith)
        ]
      ]

  -- The interfaces of the `o2ib` network are up.
  sorted_interfaces-up :
      (links : List J.Object) (w : S.World) (netdev : Text)
      → contains (sorted_interfaces S J iterdir links w) netdev ≡ true
      → is_netdev_up S J iterdir netdev w ≡ true
  unfolding sorted_interfaces
  sorted_interfaces-up links w netdev h =
      let found = link_interfaces S J iterdir (ipoib_netdev_map S J iterdir w) w links in
      link_interfaces-up (ipoib_netdev_map S J iterdir w) w links netdev
        (sym (contains-to_set found netdev) ∙ sym (contains-sorted (to_set found) netdev) ∙ h)

  detected_valid :
      (default_interface : Option Text) (rdma : List Text)
      → NodupKeys (detected S J iterdir default_interface rdma)
        × All (λ p. p.1 ≢ []) (detected S J iterdir default_interface rdma)
  unfolding detected insert contains keys text_beq
  detected_valid none [] = (tt, tt)
  detected_valid none (i ∷ is) = ((refl, tt), ((λ e. ground arith), tt))
  detected_valid (some d) [] = ((refl, tt), ((λ e. ground arith), tt))
  detected_valid (some d) (i ∷ is) =
      ((refl, (refl, tt)), ((λ e. ground arith), ((λ e. ground arith), tt)))

  -- What is detected has distinct names, each with interfaces.
  pub detect_networks_valid :
      (w w' : S.World) (networks : Networks)
      → detect_networks S J iterdir w ≡ (ok networks, w')
      → NodupKeys networks × All (λ p. p.1 ≢ []) networks
  detect_networks_valid w w' networks h =
      let (route, w₁, _, h₁) =
        >>=-eq-ok (default_route_interface S J iterdir)
          (λ route. rdma_interfaces S J iterdir >>= λ rdma. pure (detected S J iterdir route rdma))
          w w' networks (unfold detect_networks in h) in
      let (rdma, w₂, _, h₂) =
        >>=-eq-ok (rdma_interfaces S J iterdir) (λ rdma. pure (detected S J iterdir route rdma)) w₁
          w' networks h₁ in
      let same : detected S J iterdir route rdma ≡ networks = cc h₂ in
      rw (← same) (detected_valid route rdma)
