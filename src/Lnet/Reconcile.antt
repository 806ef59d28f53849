-- ===== src/Lnet/Reconcile.antt =====
-- `_ensure_networks`, `_add_network`, `_add_interfaces`, `_remove_interfaces`, `init` and
-- `_persist_lnet_config` of internal/lustre-ops/src/lustre_ops/lnet.py.
pub mod Lawful
pub mod Stages
pub mod Converge
pub mod Idempotent
use filesystem_charms.Base.{
  ℕ, Bool, true, false, not, Option, none, some, List, [], ◌∷◌, ◌++◌, is_empty, contains, to_set,
  difference, text_eq, if◌then◌else◌,
}
use filesystem_charms.Base.Dict.{Dict, keys, lookup}
use filesystem_charms.Base.Exec.{
  Result, Exec, ok, err, pure, raise, lift, when, for_each, ◌>>=◌, ◌>>◌,
}
use filesystem_charms.Base.Sort.{sorted}
use filesystem_charms.Base.Text.{Text, codes}
use filesystem_charms.Lnet.{
  Networks, LnetError, query_networks, add_network, add_interface, remove_interface, autodetect,
  config_export,
}
use filesystem_charms.Lnet.Show.{Yaml, parse_networks}
use filesystem_charms.System.{
  System, run_checked, file_checked, unlink_missing_ok, touch, write_text, replace,
}

abbrev pub lnetctl : Text
lnetctl = codes "/usr/sbin/lnetctl"

abbrev pub lnet_conf : Text
lnet_conf = codes "/etc/lnet.conf"

-- `LUSTRE_LNET_CONF.with_name(f".{LUSTRE_LNET_CONF.name}.tmp")`
abbrev pub lnet_conf_tmp : Text
lnet_conf_tmp = codes "/etc/.lnet.conf.tmp"

-- `for iface in interfaces: cmd += ["--if", iface]`
unfoldable pub interface_flags : List Text → List Text
interface_flags [] = []
interface_flags (iface ∷ interfaces) = codes "--if" ∷ iface ∷ interface_flags interfaces

-- The command lines.
unfoldable pub net_show : List Text
net_show = lnetctl ∷ codes "net" ∷ codes "show" ∷ []

unfoldable pub net_add : Text → List Text → List Text
unfolding interface_flags
net_add name interfaces =
    lnetctl ∷ codes "net" ∷ codes "add" ∷ codes "--net" ∷ name ∷ interface_flags interfaces

unfoldable pub interface_add : Text → List Text → List Text
unfolding interface_flags
interface_add net interfaces =
    lnetctl ∷ codes "interface" ∷ codes "add" ∷ codes "--net" ∷ net ∷ interface_flags interfaces

unfoldable pub interface_del : Text → List Text → List Text
unfolding interface_flags
interface_del net interfaces =
    lnetctl ∷ codes "interface" ∷ codes "del" ∷ codes "--net" ∷ net ∷ interface_flags interfaces

unfoldable pub export_backup : List Text
export_backup = lnetctl ∷ codes "export" ∷ codes "--backup" ∷ []

-- `existing_networks.get(name, [])`
abbrev pub bound_list : Option (List Text) → List Text
bound_list none = []
bound_list (some interfaces) = interfaces

module _ (S : System) (Y : Yaml) where
  unfoldable pub add_new_network : Text → List Text → Exec S.World LnetError (Unit {0})
  add_new_network name interfaces = do
    out ← run_checked S (net_add name interfaces) (add_network name)
    pure tt

  unfoldable pub add_interfaces : Text → List Text → Exec S.World LnetError (Unit {0})
  add_interfaces net interfaces = do
    out ← run_checked S (interface_add net (sorted interfaces)) (add_interface interfaces net)
    pure tt

  unfoldable pub remove_interfaces : Text → List Text → Exec S.World LnetError (Unit {0})
  remove_interfaces net interfaces = do
    out ←
        run_checked S (interface_del net (S.set_order interfaces)) (remove_interface interfaces net)
    pure tt

  -- The branch for a network that exists.
  unfoldable pub reconcile : Text → List Text → List Text → Exec S.World LnetError (Unit {0})
  reconcile name bound interfaces = do
    let to_add = difference (to_set interfaces) (to_set bound)
    when (not (is_empty to_add)) (add_interfaces name to_add)
    let to_remove = difference (to_set bound) (to_set interfaces)
    when (not (is_empty to_remove)) (remove_interfaces name to_remove)

  -- The body of the loop.
  unfoldable pub ensure_network : Networks → Text × List Text → Exec S.World LnetError (Unit {0})
  ensure_network existing (name, interfaces) =
      if contains (keys existing) name
      then reconcile name (bound_list (lookup name existing)) interfaces
      else add_new_network name interfaces

  unfoldable pub ensure_networks : Networks → Exec S.World LnetError (Unit {0})
  ensure_networks networks = do
    out ← run_checked S net_show query_networks
    existing ← lift (parse_networks Y out)
    for_each networks (ensure_network existing)

  unfoldable pub persist_lnet_config : Exec S.World LnetError (Unit {0})
  persist_lnet_config = do
    out ← run_checked S export_backup config_export
    file_checked S (unlink_missing_ok lnet_conf_tmp) config_export
    file_checked S (touch lnet_conf_tmp) config_export
    file_checked S (write_text lnet_conf_tmp out) config_export
    file_checked S (replace lnet_conf_tmp lnet_conf) config_export

  -- `networks` as given, or as detected if none are given; it is an error to detect none.
  unfoldable pub chosen_networks :
      Exec S.World LnetError Networks → Networks → Exec S.World LnetError Networks
  chosen_networks detect_networks [] = do
    networks ← detect_networks
    if is_empty networks then raise autodetect else pure networks
  chosen_networks detect_networks (n ∷ networks) = pure (n ∷ networks)

  unfoldable pub init :
      Exec S.World LnetError Networks → Networks → Exec S.World LnetError (Unit {0})
  init detect_networks networks = do
    chosen ← chosen_networks detect_networks networks
    ensure_networks chosen
    persist_lnet_config
