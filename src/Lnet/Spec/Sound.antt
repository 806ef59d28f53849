-- ===== src/Lnet/Spec/Sound.antt =====
-- What a specification that is accepted gives: the invariants of the parsed networks.
use filesystem_charms.Base.{
  Bool-cases, Option-cases, inl, inr, ℕ, ◌≡◌, ◌≢◌, refl, false, not, ◌&&◌, List, [], ◌∷◌, map,
  arith, All, All-append, is_empty, filter, contains, text_eq, nat_eq, ◌==◌, if◌then◌else◌,
}
use filesystem_charms.Base.Dict.{keys, insert, NodupKeys, insert-NodupKeys, insert_fresh}
use filesystem_charms.Base.Exec.{Result-cases, ok}
use filesystem_charms.Base.Text.{Text, is_digit, strip, split, split_once}
use filesystem_charms.Lnet.{Networks}
use filesystem_charms.Lnet.Spec.{
  canonical, parse_interfaces, add_network_token, parse_token, parse_tokens, parse_network_config,
}

canonical_head : (c d : ℕ) (s : Text) → (t : Text) × (canonical (c ∷ d ∷ s) ≡ c ∷ t)
unfolding canonical
canonical_head c d [] = (if d == b'0' && not (is_digit c) then [] else d ∷ [], ground arith)
canonical_head c d (e ∷ s) = (canonical (d ∷ e ∷ s), refl)

canonical_cons : (c d e : ℕ) (s : Text) → canonical (c ∷ d ∷ e ∷ s) ≡ c ∷ canonical (d ∷ e ∷ s)
unfolding canonical
canonical_cons c d e s = refl

-- A name without its redundant index 0 has none: to take it off twice is to take it off once.
pub canonical-canonical : (s : Text) → canonical (canonical s) ≡ canonical s
canonical-canonical [] = unfold canonical in refl
canonical-canonical (c ∷ []) = unfold canonical in refl
canonical-canonical (c ∷ d ∷ []) = unfold canonical in ground arith
canonical-canonical (c ∷ d ∷ e ∷ []) = unfold canonical is_digit in ground arith
canonical-canonical (c ∷ d ∷ e ∷ f ∷ s) =
    let (t, p) = canonical_head e f s in
    cc (
      canonical_cons c d e (f ∷ s),
      canonical_cons d e f s,
      p,
      canonical-canonical (d ∷ e ∷ f ∷ s),
      canonical_cons c d e t,
    )

-- A name as the parser leaves it.
pub record IsParsedNetwork (n : Text) (interfaces : List Text) : Type 0 where
  pub name_nonempty : n ≢ []
  pub name_canonical : canonical n ≡ n
  pub some_interface : interfaces ≢ []
  pub interfaces_nonempty : All (λ t. t ≢ []) interfaces

abbrev pub AllParsed : Networks → Type 0
AllParsed = All (λ p. IsParsedNetwork p.0 p.1)

pub record AreParsed (networks : Networks) : Type 0 where
  pub distinct : NodupKeys networks
  pub all : AllParsed networks

filter_nonempty : (ts : List Text) → All (λ t. t ≢ []) (filter (λ t. not (is_empty t)) ts)
unfolding filter
filter_nonempty [] = tt
filter_nonempty ([] ∷ ts) = filter_nonempty ts
filter_nonempty ((c ∷ t) ∷ ts) = (λ e. cc e, filter_nonempty ts)

parse_interfaces-nonempty : (s : Text) → All (λ t. t ≢ []) (parse_interfaces s)
unfolding parse_interfaces
parse_interfaces-nonempty s = filter_nonempty (map strip (split b',' s))

canonical-ne-nil : (s : Text) → s ≢ [] → canonical s ≢ []
unfolding canonical
canonical-ne-nil [] h = h
canonical-ne-nil (c ∷ []) h = h
canonical-ne-nil (c ∷ d ∷ []) h = λ e. ground arith
canonical-ne-nil (c ∷ d ∷ e ∷ s) h = λ p. cc p

-- What it takes for a token to be accepted.
add_network_token_inv :
    (token name interfaces_str : Text) (networks networks' : Networks)
    → add_network_token token name interfaces_str networks ≡ ok networks'
    → (strip name ≢ [])
      × (parse_interfaces interfaces_str ≢ [])
      × (contains (keys networks) (canonical (strip name)) ≡ false)
      × (networks' ≡ insert (canonical (strip name)) (parse_interfaces interfaces_str) networks)
unfolding add_network_token
add_network_token_inv token name is networks networks' e =
    (ground arith, ground arith, ground arith, ground arith)

add_network_token-AreParsed :
    (token name interfaces_str : Text) (networks networks' : Networks)
    → AreParsed networks
    → add_network_token token name interfaces_str networks ≡ ok networks'
    → AreParsed networks'
add_network_token-AreParsed token name is networks networks' h e =
    let (named, some_interface, fresh, added) =
      add_network_token_inv token name is networks networks' e in
    let n = canonical (strip name) in
    let ts = parse_interfaces is in
    rw added (record {
      distinct = insert-NodupKeys n ts networks h.distinct;
      all = rw (insert_fresh n ts networks fresh) (
          All-append (λ p. IsParsedNetwork p.0 p.1) networks ((n, ts) ∷ []) h.all
            (
              record {
                name_nonempty = canonical-ne-nil (strip name) named;
                name_canonical = canonical-canonical (strip name);
                some_interface = some_interface;
                interfaces_nonempty = parse_interfaces-nonempty is;
              },
              tt,
            ));
    })

parse_token-AreParsed :
    (part : Text) (networks networks' : Networks)
    → AreParsed networks
    → parse_token part networks ≡ ok networks'
    → AreParsed networks'
unfolding parse_token
parse_token-AreParsed part networks networks' h e = elim (Bool-cases (is_empty (strip part))) [
  | inl blank ↦ let same : networks ≡ networks' = ground arith in rw (← same) h
  | inr more ↦ elim (Option-cases (split_once b'=' (strip part))) [
    | inl none_found ↦ absurd (ground arith)
    | inr ((name, is), found) ↦
        add_network_token-AreParsed (strip part) name is networks networks' h (ground arith)
  ]
]

parse_tokens-AreParsed :
    (parts : List Text) (networks networks' : Networks)
    → AreParsed networks
    → parse_tokens parts networks ≡ ok networks'
    → AreParsed networks'
unfolding parse_tokens
parse_tokens-AreParsed [] networks networks' h e =
    let same : networks ≡ networks' = ground arith in rw (← same) h
parse_tokens-AreParsed (part ∷ parts) networks networks' h e =
    elim (Result-cases (parse_token part networks)) [
      | inl (middle, p) ↦
          parse_tokens-AreParsed parts middle networks'
            (parse_token-AreParsed part networks middle h p) (ground arith)
      | inr (failure, p) ↦ absurd (ground arith)
    ]

-- Whatever specification is accepted, the networks have distinct names, every name is not
-- empty and has no redundant index 0, and every network has interfaces, none of them empty.
pub parse_network_config-AreParsed :
    (text : Text) (networks : Networks)
    → parse_network_config text ≡ ok networks
    → AreParsed networks
unfolding parse_network_config
parse_network_config-AreParsed text networks e = elim (Bool-cases (is_empty (strip text))) [
  | inl blank ↦
      let same : [] ≡ networks = ground arith in rw (← same) (record { distinct = tt; all = tt })
  | inr more ↦
      parse_tokens-AreParsed (split b';' (strip text)) [] networks
        (record { distinct = tt; all = tt }) (ground arith)
]
