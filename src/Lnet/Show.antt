-- ===== src/Lnet/Show.antt =====
-- `_parse_networks` of internal/lustre-ops/src/lustre_ops/lnet.py: the networks that
-- `lnetctl net show` lists. `yaml` and `pydantic` are parameters.
use filesystem_charms.Base.{
  ℕ, Bool, Option, none, some, List, [], ◌∷◌, ◌++◌, text_eq, if◌then◌else◌,
}
use filesystem_charms.Base.Dict.{Dict, values, insert}
use filesystem_charms.Base.Exec.{Result, ok, err}
use filesystem_charms.Base.Text.{Text}
use filesystem_charms.Lnet.{
  Networks, LnetError, parse, bad_show_output, empty_show_output, invalid_show_output,
}

-- `_LocalNI`, `_Net` and `_NetShowOutput`
pub record LocalNi : Type 0 where
  pub interfaces : Dict ℕ Text

pub record Net : Type 0 where
  pub net_type : Text
  pub local_nis : List LocalNi

pub record NetShowOutput : Type 0 where
  pub net : Option (List Net)

-- `yaml.safe_load`, which may raise `YAMLError`, the test `data is None`, and `model_validate`,
-- which may raise `ValidationError`.
pub record Yaml : Type 1 where
  pub Data : Type 0
  pub safe_load : Text → Option Data
  pub is_none : Data → Bool
  pub model_validate : Data → Option NetShowOutput

-- The inner loop: `interfaces.extend(ni.interfaces.values())`
unfoldable pub net_interfaces : List LocalNi → List Text
net_interfaces [] = []
net_interfaces (ni ∷ nis) = values ni.interfaces ++ net_interfaces nis

-- The outer loop: `networks[net.net_type] = interfaces`
unfoldable pub collect_networks : List Net → Networks → Networks
collect_networks [] networks = networks
collect_networks (net ∷ nets) networks =
    collect_networks nets (insert net.net_type (net_interfaces net.local_nis) networks)

-- `not parsed.net` holds of None and of an empty list.
abbrev shown : Option (List Net) → Networks
shown none = []
shown (some nets) = collect_networks nets []

module _ (Y : Yaml) where
  unfoldable pub parse_networks : Text → Result LnetError Networks
  unfolding collect_networks net_interfaces
  parse_networks show_output = elim (Y.safe_load show_output) [
    | none ↦ err (parse bad_show_output)
    | some loaded ↦
        if Y.is_none loaded then err (parse empty_show_output) else elim (Y.model_validate loaded) [
          | none ↦ err (parse invalid_show_output)
          | some parsed ↦ ok (shown parsed.net)
        ]
  ]
