-- ===== src/Lnet/Spec.antt =====
-- `parse_network_config` of internal/lustre-ops/src/lustre_ops/lnet.py.
pub mod Printed
pub mod Sound
use filesystem_charms.Base.{
  ℕ, zero, suc, Bool, true, false, not, ◌&&◌, Option, none, some, List, [], ◌∷◌, map, is_empty,
  filter, contains, text_eq, nat_eq, ◌==◌, if◌then◌else◌,
}
use filesystem_charms.Base.Dict.{keys, insert}
use filesystem_charms.Base.Exec.{Result, ok, err}
use filesystem_charms.Base.Text.{Text, is_digit, strip, split, split_once}
use filesystem_charms.Lnet.{
  Networks, LnetError, parse, invalid_specification, empty_name, no_interfaces, duplicate_network,
}

-- `name[:-1] if len(name) > 1 and name[-1] == "0" and not name[-2].isdigit() else name`
unfoldable pub canonical : Text → Text
canonical [] = []
canonical (c ∷ []) = c ∷ []
canonical (c ∷ d ∷ []) = if d == b'0' && not (is_digit c) then c ∷ [] else c ∷ d ∷ []
canonical (c ∷ d ∷ e ∷ s) = c ∷ canonical (d ∷ e ∷ s)

-- `[s.strip() for s in interfaces_str.split(",") if s.strip()]`
unfoldable pub parse_interfaces : Text → List Text
parse_interfaces s = filter (λ t. not (is_empty t)) (map strip (split b',' s))

-- The rest of the loop's body, after the token was split at `=`.
unfoldable pub add_network_token : Text → Text → Text → Networks → Result LnetError Networks
unfolding canonical parse_interfaces
add_network_token token raw_name interfaces_str networks =
    let name = canonical (strip raw_name) in
    let interfaces = parse_interfaces interfaces_str in
    if is_empty (strip raw_name)
    then err (parse (empty_name token))
    else if is_empty interfaces
    then err (parse (no_interfaces token))
    else if contains (keys networks) name
    then err (parse (duplicate_network name))
    else ok (insert name interfaces networks)

-- The body of the loop, for one part of `spec.split(";")`.
unfoldable pub parse_token : Text → Networks → Result LnetError Networks
unfolding add_network_token
parse_token part networks =
    let token = strip part in
    if is_empty token then ok networks else elim (split_once b'=' token) [
      | none ↦ err (parse (invalid_specification token))
      | some (name, interfaces_str) ↦ add_network_token token name interfaces_str networks
    ]

unfoldable pub parse_tokens : List Text → Networks → Result LnetError Networks
parse_tokens [] networks = ok networks
parse_tokens (part ∷ parts) networks = elim (parse_token part networks) [
  | ok networks' ↦ parse_tokens parts networks'
  | err e ↦ err e
]

unfoldable pub parse_network_config : Text → Result LnetError Networks
unfolding parse_tokens parse_token
parse_network_config text =
    let spec = strip text in if is_empty spec then ok [] else parse_tokens (split b';' spec) []
