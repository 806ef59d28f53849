-- ===== src/Lnet/Detect.antt =====
-- internal/lustre-ops/src/lustre_ops/lnet_detection.py: the networks that the host's interfaces
-- suggest. `json` is a parameter, and so are the entries of sysfs directories.
pub mod Detected
use filesystem_charms.Base.{
  ℕ, ◌+◌, Bool, true, false, not, ◌&&◌, Option, none, some, List, [], ◌∷◌, ◌++◌, map, is_empty, leb,
  to_set, contains, text_eq, ◌==◌, if◌then◌else◌,
}
use filesystem_charms.Base.Dict.{Dict, insert, lookup}
use filesystem_charms.Base.Exec.{Result, Exec, ok, err, pure, raise, lift, ◌>>=◌}
use filesystem_charms.Base.Sort.{sorted}
use filesystem_charms.Base.Text.{Text, codes, strip}
use filesystem_charms.Lnet.{
  Networks, LnetError, parse, bad_route_data, missing_device, bad_link_data, query_route,
  query_links,
}
use filesystem_charms.System.{System, run_checked}

-- `json.loads`, which may raise `JSONDecodeError`, on the lists of objects that `ip` and `rdma`
-- print, and `d.get(key)` for a field that is a string.
pub record Json : Type 1 where
  pub Object : Type 0
  pub loads : Text → Option (List Object)
  pub get : Text → Object → Option Text

-- The names of `Path(directory).iterdir()`.
abbrev pub Listing : System → Type 0
Listing S = Text → S.World → List Text

abbrev pub ip_route : List Text
ip_route =
    codes "/usr/sbin/ip" ∷ codes "-json" ∷ codes "route" ∷ codes "show" ∷ codes "default" ∷ []

abbrev pub rdma_link : List Text
rdma_link = codes "/usr/bin/rdma" ∷ codes "--json" ∷ codes "link" ∷ codes "show" ∷ []

abbrev sys_class_net : Text
sys_class_net = codes "/sys/class/net"

-- A path in the directory of a netdev.
abbrev in_netdev : Text → Text → Text
in_netdev netdev name = sys_class_net ++ (codes "/" ++ (netdev ++ (codes "/" ++ name)))

-- `s.lower()`, for ASCII letters.
unfoldable pub lower : Text → Text
lower s = map (λ c. if leb b'A' c && leb c b'Z' then c + 32 else c) s

-- `x` where Python takes it for true.
abbrev pub given : Option Text → Option Text
given none = none
given (some s) = if is_empty s then none else some s

module _ (S : System) (J : Json) (iterdir : Listing S) where
  -- `_default_route_interface` from the routes on.
  unfoldable pub route_device : List J.Object → Result LnetError (Option Text)
  route_device [] = ok none
  route_device (route ∷ routes) = elim (J.get (codes "dev") route) [
    | none ↦ err (parse missing_device)
    | some dev ↦ ok (some dev)
  ]

  unfoldable pub default_route_interface : Exec S.World LnetError (Option Text)
  unfolding route_device
  default_route_interface = do
    out ← run_checked S ip_route query_route
    lift (elim (J.loads out) [
      | none ↦ err (parse bad_route_data)
      | some routes ↦ route_device routes
    ])

  -- The loop of `_ipoib_netdev_map`.
  unfoldable pub ipoib_netdevs : List Text → Dict Text Text → S.World → Dict Text Text
  ipoib_netdevs [] rdma_net_map w = rdma_net_map
  ipoib_netdevs (netdev ∷ netdevs) rdma_net_map w =
      let ib_path = in_netdev netdev (codes "device/infiniband") in
      let skipped = ipoib_netdevs netdevs rdma_net_map w in
      if not (S.exists ib_path w) then skipped else elim (iterdir ib_path w) [
        | [] ↦ skipped
        | dev ∷ devs ↦ elim devs [
          | [] ↦ ipoib_netdevs netdevs (insert dev netdev rdma_net_map) w
          | _ ∷ _ ↦ skipped
        ]
      ]

  unfoldable pub ipoib_netdev_map : S.World → Dict Text Text
  unfolding ipoib_netdevs
  ipoib_netdev_map w = ipoib_netdevs (iterdir sys_class_net w) [] w

  unfoldable pub is_netdev_up : Text → S.World → Bool
  unfolding lower
  is_netdev_up netdev w =
      let operstate_file = in_netdev netdev (codes "operstate") in
      if not (S.exists operstate_file w) then false else elim (S.read_text operstate_file w) [
        | none ↦ false
        | some operstate ↦ not (lower (strip operstate) == codes "down")
      ]

  unfoldable pub resolve_link_netdev : J.Object → Dict Text Text → Option Text
  resolve_link_netdev link ipoib_map = elim (given (J.get (codes "netdev") link)) [
    | some netdev ↦ some netdev
    | none ↦ elim (given (J.get (codes "ifname") link)) [
      | none ↦ none
      | some ifname ↦ given (lookup ifname ipoib_map)
    ]
  ]

  -- `link.get(key) == value`
  abbrev pub has_field : Text → Text → J.Object → Bool
  has_field key value link = elim (J.get key link) [ none ↦ false | some found ↦ found == value ]

  -- The body of the loop of `_rdma_interfaces`: the interface of a link that is in use.
  unfoldable pub link_interface : Dict Text Text → S.World → J.Object → Option Text
  unfolding resolve_link_netdev is_netdev_up
  link_interface ipoib_map w link =
      if not (
        has_field (codes "state") (codes "ACTIVE") link
        && has_field (codes "physical_state") (codes "LINK_UP") link)
      then none
      else elim (resolve_link_netdev link ipoib_map) [
        | none ↦ none
        | some netdev ↦ if is_netdev_up netdev w then some netdev else none
      ]

  unfoldable pub link_interfaces : Dict Text Text → S.World → List J.Object → List Text
  unfolding link_interface
  link_interfaces ipoib_map w [] = []
  link_interfaces ipoib_map w (link ∷ links) =
      let seen = link_interfaces ipoib_map w links in
      elim (link_interface ipoib_map w link) [ none ↦ seen | some netdev ↦ netdev ∷ seen ]

  -- `_rdma_interfaces` from the links on.
  unfoldable pub sorted_interfaces : List J.Object → S.World → List Text
  unfolding link_interfaces ipoib_netdev_map
  sorted_interfaces links w = sorted (to_set (link_interfaces (ipoib_netdev_map w) w links))

  unfoldable pub rdma_interfaces : Exec S.World LnetError (List Text)
  unfolding sorted_interfaces
  rdma_interfaces = do
    out ← run_checked S rdma_link query_links
    elim (J.loads out) as (λ _. Exec S.World LnetError (List Text)) [
      | none ↦ raise (parse bad_link_data)
      | some links ↦ λ w. (ok (sorted_interfaces links w), w)
    ]

  -- The networks of `detect_networks`, from the interfaces.
  unfoldable pub detected : Option Text → List Text → Networks
  detected default_interface rdma =
      let tcp : Networks = elim default_interface [
        | none ↦ []
        | some interface ↦ insert (codes "tcp") (interface ∷ []) []
      ] in
      if is_empty rdma then tcp else insert (codes "o2ib") rdma tcp

  unfoldable pub detect_networks : Exec S.World LnetError Networks
  unfolding default_route_interface rdma_interfaces detected
  detect_networks = do
    default_interface ← default_route_interface
    rdma ← rdma_interfaces
    pure (detected default_interface rdma)
