-- ===== src/Lnet/Spec/Printed.antt =====
-- A specification that is written from networks parses to these networks.
use filesystem_charms.Base.{
  ◌≡◌, ◌≢◌, refl, ap, ◌∙◌, false, not, List, [], ◌∷◌, ◌++◌, map, arith, All, is_empty, filter,
  contains, text_eq,
}
use mathlib.Core.List.{append_assoc, append-nil}
use filesystem_charms.Base.Dict.{keys, insert, NodupKeys, insert_fresh, NodupKeys-fresh}
use filesystem_charms.Base.Exec.{ok}
use filesystem_charms.Base.Text.{Text, strip, split, join, has}
use filesystem_charms.Base.Text.Laws.{
  IsTrimmed, IsTrimmed-append, join-IsTrimmed, has-join, strip_trimmed, split_once-append,
  split-join, has-append,
}
use filesystem_charms.Lnet.{Networks}
use filesystem_charms.Lnet.Spec.{
  canonical, parse_interfaces, add_network_token, parse_token, parse_tokens, parse_network_config,
}

-- `<name>=<iface>,<iface>`
unfoldable pub print_network : Text → List Text → Text
print_network name interfaces = name ++ b'=' ∷ join (b',' ∷ []) interfaces

unfoldable pub print_networks : Networks → List Text
print_networks [] = []
print_networks ((name, interfaces) ∷ networks) =
    print_network name interfaces ∷ print_networks networks

unfoldable pub print_spec : Networks → Text
unfolding print_networks print_network
print_spec networks = join (b';' ∷ []) (print_networks networks)

-- An interface name that can stand in a specification.
pub record IsInterface (s : Text) : Type 0 where
  pub trimmed : IsTrimmed s
  pub no_comma : has b',' s ≡ false
  pub no_semicolon : has b';' s ≡ false

pub record IsName (s : Text) : Type 0 where
  pub trimmed : IsTrimmed s
  pub no_equals : has b'=' s ≡ false
  pub no_semicolon : has b';' s ≡ false
  pub canonical : canonical s ≡ s

pub record IsNetwork (n : Text) (interfaces : List Text) : Type 0 where
  pub name : IsName n
  pub some_interface : interfaces ≢ []
  pub each : All IsInterface interfaces

-- Networks that can be written, each with interfaces.
abbrev pub AllNetworks : Networks → Type 0
AllNetworks [] = Unit
AllNetworks ((name, interfaces) ∷ networks) = IsNetwork name interfaces × AllNetworks networks

-- What `All IsInterface` says, part by part.
All-IsTrimmed : (ts : List Text) → All IsInterface ts → All IsTrimmed ts
All-IsTrimmed [] h = tt
All-IsTrimmed (t ∷ ts) h = (h.0.trimmed, All-IsTrimmed ts h.1)

All-no_comma : (ts : List Text) → All IsInterface ts → All (λ t. has b',' t ≡ false) ts
All-no_comma [] h = tt
All-no_comma (t ∷ ts) h = (h.0.no_comma, All-no_comma ts h.1)

All-no_semicolon : (ts : List Text) → All IsInterface ts → All (λ t. has b';' t ≡ false) ts
All-no_semicolon [] h = tt
All-no_semicolon (t ∷ ts) h = (h.0.no_semicolon, All-no_semicolon ts h.1)

filter_trimmed :
    (ts : List Text) → All IsTrimmed ts → filter (λ t. not (is_empty t)) (map strip ts) ≡ ts
unfolding filter
filter_trimmed [] h = refl
filter_trimmed ([] ∷ ts) h = absurd (h.0.nonempty refl)
filter_trimmed ((c ∷ t) ∷ ts) h = ground (arith, strip_trimmed (c ∷ t) h.0, filter_trimmed ts h.1)

parse_interfaces-join :
    (s : Text) (ts : List Text)
    → All IsInterface (s ∷ ts)
    → parse_interfaces (join (b',' ∷ []) (s ∷ ts)) ≡ s ∷ ts
unfolding parse_interfaces
parse_interfaces-join s ts h =
    rw (split-join b',' s ts (All-no_comma (s ∷ ts) h))
      (filter_trimmed (s ∷ ts) (All-IsTrimmed (s ∷ ts) h))

print_network-IsTrimmed :
    (name : Text) (interfaces : List Text)
    → IsNetwork name interfaces
    → IsTrimmed (print_network name interfaces)
print_network-IsTrimmed name [] h = absurd (h.some_interface refl)
print_network-IsTrimmed name (s ∷ ts) h =
    let rest = join-IsTrimmed (b',' ∷ []) s ts (All-IsTrimmed (s ∷ ts) h.each) in
    unfold print_network in
    IsTrimmed-append name (b'=' ∷ []) (join (b',' ∷ []) (s ∷ ts)) h.name.trimmed rest.right
      rest.nonempty

print_network-no_semicolon :
    (name : Text) (interfaces : List Text)
    → IsNetwork name interfaces
    → has b';' (print_network name interfaces) ≡ false
unfolding print_network has
print_network-no_semicolon name ts h = ground (
  arith,
  has-append b';' name (b'=' ∷ join (b',' ∷ []) ts),
  has-join b';' (b',' ∷ []) ts refl (All-no_semicolon ts h.each),
  h.name.no_semicolon,
)

add_network_token_printed :
    (token name : Text) (interfaces : List Text) (acc : Networks)
    → IsNetwork name interfaces
    → contains (keys acc) name ≡ false
    → add_network_token token name (join (b',' ∷ []) interfaces) acc
      ≡ ok (insert name interfaces acc)
unfolding add_network_token
add_network_token_printed token name [] acc h fresh = absurd (h.some_interface refl)
add_network_token_printed token [] (s ∷ ts) acc h fresh = absurd (h.name.trimmed.nonempty refl)
add_network_token_printed token (c ∷ name) (s ∷ ts) acc h fresh = rw (
  strip_trimmed (c ∷ name) h.name.trimmed,
  h.name.canonical,
  parse_interfaces-join s ts h.each,
  fresh,
)

parse_token-print_network :
    (name : Text) (interfaces : List Text) (acc : Networks)
    → IsNetwork name interfaces
    → contains (keys acc) name ≡ false
    → parse_token (print_network name interfaces) acc ≡ ok (insert name interfaces acc)
parse_token-print_network [] ts acc h fresh = absurd (h.name.trimmed.nonempty refl)
parse_token-print_network (c ∷ name) ts acc h fresh =
    unfold parse_token in
    rw (strip_trimmed _ (print_network-IsTrimmed (c ∷ name) ts h)) (
      unfold print_network in
      rw (split_once-append b'=' (c ∷ name) (join (b',' ∷ []) ts) h.name.no_equals)
        (add_network_token_printed _ (c ∷ name) ts acc h fresh))

parse_tokens_ok :
    (part : Text) (parts : List Text) (acc : Networks) {acc' : Networks}
    → parse_token part acc ≡ ok acc'
    → parse_tokens (part ∷ parts) acc ≡ parse_tokens parts acc'
unfolding parse_tokens
parse_tokens_ok part parts acc h = rw (h, parse_tokens)

parse_tokens-print_networks :
    (networks acc : Networks)
    → AllNetworks networks
    → NodupKeys (acc ++ networks)
    → parse_tokens (print_networks networks) acc ≡ ok (acc ++ networks)
unfolding parse_tokens print_networks
parse_tokens-print_networks [] acc h u = rw append-nil
parse_tokens-print_networks ((name, ts) ∷ networks) acc h u =
    let fresh = NodupKeys-fresh acc name ts networks u in
    let step = append_assoc acc ((name, ts) ∷ []) networks in
    let token : parse_token (print_network name ts) acc ≡ ok (acc ++ (name, ts) ∷ []) =
      parse_token-print_network name ts acc h.0 fresh ∙ ap ok (insert_fresh name ts acc fresh) in
    parse_tokens_ok (print_network name ts) (print_networks networks) acc token
    ∙ parse_tokens-print_networks networks (acc ++ (name, ts) ∷ []) h.1 (rw step u)
    ∙ ap ok step

print_networks-IsTrimmed :
    (networks : Networks) → AllNetworks networks → All IsTrimmed (print_networks networks)
unfolding print_networks
print_networks-IsTrimmed [] h = tt
print_networks-IsTrimmed ((name, ts) ∷ networks) h =
    (print_network-IsTrimmed name ts h.0, print_networks-IsTrimmed networks h.1)

print_networks-no_semicolon :
    (networks : Networks)
    → AllNetworks networks
    → All (λ t. has b';' t ≡ false) (print_networks networks)
unfolding print_networks
print_networks-no_semicolon [] h = tt
print_networks-no_semicolon ((name, ts) ∷ networks) h =
    (print_network-no_semicolon name ts h.0, print_networks-no_semicolon networks h.1)

parse_trimmed :
    (text : Text) → IsTrimmed text → parse_network_config text ≡ parse_tokens (split b';' text) []
unfolding parse_network_config
parse_trimmed [] h = absurd (h.nonempty refl)
parse_trimmed (c ∷ text) h = rw (strip_trimmed (c ∷ text) h)

-- Networks with distinct names, each with at least one interface, where no name or interface
-- has white space at its ends or holds a separator and no name has a redundant index 0, are
-- what the parser reads back from the specification that is written from them.
pub parse_network_config-print_spec :
    (networks : Networks)
    → AllNetworks networks
    → NodupKeys networks
    → parse_network_config (print_spec networks) ≡ ok networks
unfolding parse_network_config print_spec
parse_network_config-print_spec [] h u = unfold strip join in refl
parse_network_config-print_spec ((name, ts) ∷ networks) h u =
    let all : AllNetworks ((name, ts) ∷ networks) = h in
    let trimmed =
      join-IsTrimmed (b';' ∷ []) (print_network name ts) (print_networks networks)
        (print_networks-IsTrimmed ((name, ts) ∷ networks) all) in
    parse_trimmed _ trimmed
    ∙ rw
        (split-join b';' (print_network name ts) (print_networks networks)
          (print_networks-no_semicolon ((name, ts) ∷ networks) all))
        (parse_tokens-print_networks ((name, ts) ∷ networks) [] all u)
