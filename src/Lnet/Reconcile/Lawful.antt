-- ===== src/Lnet/Reconcile/Lawful.antt =====
-- What `lnetctl` is documented to do, as far as the code relies on it: a command that exits with
-- status 0 has done what it is for, and nothing else. A network is known by the name that
-- `net show` prints, `tcp` for what a command may also call `tcp0`, so what is said of a command is
-- said of names that are printed as they are.
use filesystem_charms.Base.{
  ◌≡◌, Bool, true, false, not, ◌&&◌, ◌||◌, List, contains, text_eq, ◌==◌, if◌then◌else◌,
}
use filesystem_charms.Base.Dict.{keys, lookup}
use filesystem_charms.Base.Exec.{ok}
use filesystem_charms.Base.Text.{Text}
use filesystem_charms.Lnet.{Networks}
use filesystem_charms.Lnet.Show.{Yaml, parse_networks}
use filesystem_charms.Lnet.Reconcile.{net_show, net_add, interface_add, interface_del, bound_list}
use filesystem_charms.System.{System, success}

-- What the host has configured: its networks, by the names that `net show` prints, and the
-- interfaces that are bound to each; and the name that it prints for a name in a command.
pub record View (W : Type 0) : Type 0 where
  pub rendered : Text → Text
  pub has_network : W → Text → Bool
  pub is_bound : W → Text → Text → Bool

-- A name that `net show` prints as it is: `tcp`, but not `tcp0`.
abbrev pub IsRendered : {W : Type 0} → View W → Text → Type 0
IsRendered V name = V.rendered name ≡ name

-- `net show` changes nothing, and lists what there is.
pub record IsShown (S : System) (Y : Yaml) (V : View S.World) : Type 0 where
  pub show : (w w' : S.World) (out : Text) → S.run net_show w ≡ (success out, w') → w' ≡ w
  pub show_networks :
      (w w' : S.World) (out : Text) (nets : Networks)
      → S.run net_show w ≡ (success out, w')
      → parse_networks Y out ≡ ok nets
      → (n : Text) → contains (keys nets) n ≡ V.has_network w n
  pub show_bound :
      (w w' : S.World) (out : Text) (nets : Networks)
      → S.run net_show w ≡ (success out, w')
      → parse_networks Y out ≡ ok nets
      → (n i : Text) → contains (bound_list (lookup n nets)) i ≡ V.is_bound w n i

pub record IsLawful (S : System) (Y : Yaml) (V : View S.World) : Type 0 where
  pub shown : IsShown S Y V
  -- A `for` over a set meets its elements.
  pub set_order : (xs : List Text) (a : Text) → contains (S.set_order xs) a ≡ contains xs a
  -- `net add` adds a network that is not there.
  pub add_has :
      (w w' : S.World) (out name : Text) (is : List Text)
      → IsRendered V name
      → S.run (net_add name is) w ≡ (success out, w')
      → V.has_network w name ≡ false
      → (n : Text) → V.has_network w' n ≡ (name == n || V.has_network w n)
  pub add_bound :
      (w w' : S.World) (out name : Text) (is : List Text)
      → IsRendered V name
      → S.run (net_add name is) w ≡ (success out, w')
      → V.has_network w name ≡ false
      → (n i : Text) → V.is_bound w' n i ≡ (if name == n then contains is i else V.is_bound w n i)
  -- `interface add` binds interfaces to a network that is there.
  pub bind_has :
      (w w' : S.World) (out name : Text) (is : List Text)
      → IsRendered V name
      → S.run (interface_add name is) w ≡ (success out, w')
      → V.has_network w name ≡ true
      → (n : Text) → V.has_network w' n ≡ V.has_network w n
  pub bind_bound :
      (w w' : S.World) (out name : Text) (is : List Text)
      → IsRendered V name
      → S.run (interface_add name is) w ≡ (success out, w')
      → V.has_network w name ≡ true
      → (n i : Text)
      → V.is_bound w' n i
        ≡ (if name == n then V.is_bound w n i || contains is i else V.is_bound w n i)
  -- `interface del` takes interfaces away; the network stays while it has another, `kept`.
  pub unbind_has :
      (w w' : S.World) (out name kept : Text) (is : List Text)
      → IsRendered V name
      → S.run (interface_del name is) w ≡ (success out, w')
      → V.is_bound w name kept ≡ true
      → contains is kept ≡ false
      → (n : Text) → V.has_network w' n ≡ V.has_network w n
  pub unbind_bound :
      (w w' : S.World) (out name kept : Text) (is : List Text)
      → IsRendered V name
      → S.run (interface_del name is) w ≡ (success out, w')
      → V.is_bound w name kept ≡ true
      → contains is kept ≡ false
      → (n i : Text)
      → V.is_bound w' n i
        ≡ (if name == n then V.is_bound w n i && not (contains is i) else V.is_bound w n i)
