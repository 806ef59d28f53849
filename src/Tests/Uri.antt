-- ===== src/Tests/Uri.antt =====
-- Functions that do what the code relies on in `urllib.parse`.
use filesystem_charms.Base.{
  ◌≡◌, ◌≢◌, refl, ap, ◌∙◌, true, false, ◌&&◌, ℕ, ◌+◌, ◌-◌, ◌<◌, Option, none, some, List, [], ◌∷◌,
  ◌++◌, is_empty, nat_eq, ◌==◌, if◌then◌else◌, All, ltb, leb, arith,
}
use filesystem_charms.Base.Dict.{Dict}
use filesystem_charms.Base.Text.{Text, codes, split, split_once, has}
use filesystem_charms.Base.Text.Laws.{
  split-append, split_once-append, split_once_plain, has-append, append-ne-nil,
}
use filesystem_charms.Filesystem.Uri.{Urllib, SplitResult, netloc}
use filesystem_charms.Filesystem.Uri.Lawful.{IsUrllib, IsScheme, IsAbsolute, singletons}

-- Moves a character out of the way of those that have a meaning in a URI.
unfoldable shift : ℕ → ℕ
shift c = if c == b'/' then c else c + 1000

unfoldable unshift : ℕ → ℕ
unshift c = if ltb c 1000 then c else c - 1000

unfoldable pub quote : Text → Text
unfolding shift
quote [] = []
quote (c ∷ s) = shift c ∷ quote s

unfoldable pub unquote : Text → Text
unfolding unshift
unquote [] = []
unquote (c ∷ s) = unshift c ∷ unquote s

unquote-quote : (s : Text) → unquote (quote s) ≡ s
unfolding unquote quote
unquote-quote [] = refl
unquote-quote (c ∷ s) = ground (arith, unquote-quote s)

unquote-append : (s t : Text) → unquote (s ++ t) ≡ unquote s ++ unquote t
unfolding unquote
unquote-append [] t = refl
unquote-append (c ∷ s) t = ap (λ r. unshift c ∷ r) (unquote-append s t)

quote-has : (d : ℕ) (s : Text) → d < 1000 → (d == b'/') ≡ false → has d (quote s) ≡ false
unfolding quote has
quote-has d [] h n = refl
quote-has d (c ∷ s) h n = ground (arith, quote-has d s)

quote_slash : (s : Text) → has b'/' s ≡ false → has b'/' (quote s) ≡ false
unfolding quote has
quote_slash [] h = refl
quote_slash (c ∷ s) h = ground (arith, quote_slash s)

-- Every pair ends in `&`.
unfoldable pub urlencode : Dict Text Text → Text
unfolding quote
urlencode [] = []
urlencode ((k, v) ∷ d) = (quote k ++ b'=' ∷ quote v) ++ b'&' ∷ urlencode d

unfoldable pub pairs : List Text → Option (Dict Text (List Text))
unfolding split_once unquote
pairs [] = some []
pairs (p ∷ ps) =
    let rest = pairs ps in
    elim (split_once b'=' p) [
      | none ↦ rest
      | some (k, v) ↦ elim rest [ none ↦ none | some d ↦ some ((unquote k, unquote v ∷ []) ∷ d) ]
    ]

pair-has : (k v : Text) → has b'&' (quote k ++ b'=' ∷ quote v) ≡ false
unfolding has
pair-has k v = ground (
  arith,
  has-append b'&' (quote k) (b'=' ∷ quote v),
  quote-has b'&' k (omega arith) refl,
  quote-has b'&' v (omega arith) refl,
)

pairs-urlencode : (d : Dict Text Text) → pairs (split b'&' (urlencode d)) ≡ some (singletons d)
unfolding urlencode pairs singletons
pairs-urlencode [] = unfold split split_once in refl
pairs-urlencode ((k, v) ∷ d) =
    let pieces = split-append b'&' (quote k ++ b'=' ∷ quote v) (urlencode d) (pair-has k v) in
    let cut = split_once-append b'=' (quote k) (quote v) (quote-has b'=' k (omega arith) refl) in
    rw (pieces, pairs, cut, pairs-urlencode d, unquote-quote k, unquote-quote v) refl

-- After `scheme://`: the network location up to `/`, the path up to `?`, and the query.
unfoldable located : Text → Text → Option SplitResult
unfolding split_once
located scheme s = elim (split_once b'/' s) [
  | none ↦ none
  | some (n, rest) ↦ elim (split_once b'?' rest) [
    | none ↦ none
    | some (p, q) ↦ some (record { scheme = scheme; netloc = n; path = b'/' ∷ p; query = q })
  ]
]

abbrev after_slashes : Text → Text
after_slashes [] = []
after_slashes (c ∷ []) = []
after_slashes (c ∷ d ∷ s) = s

unfoldable pub urlparse : Text → Option SplitResult
unfolding split_once located
urlparse uri = elim (split_once b':' uri) [
  | none ↦ none
  | some (scheme, rest) ↦ located scheme (after_slashes rest)
]

unfoldable pub username : Text → Option Text
unfolding split_once
username n = elim (split_once b'@' n) [ none ↦ none | some (user, host) ↦ some user ]

unfoldable pub hostname : Text → Option Text
unfolding split_once
hostname n = elim (split_once b'@' n) [ none ↦ some n | some (user, host) ↦ some host ]

abbrev pub urllib : Urllib
urllib = record {
  quote = quote;
  unquote = unquote;
  urlencode = urlencode;
  parse_qs = λ s. pairs (split b'&' s);
  urlparse = urlparse;
  username = username;
  hostname = hostname;
  urlunsplit = λ scheme n path query. scheme ++ (codes "://" ++ (n ++ (path ++ b'?' ∷ query)));
}

no_at : (s : Text) → has b'@' (codes "(" ++ (quote s ++ codes ")")) ≡ false
unfolding has
no_at s = ground (arith, has-append b'@' (quote s) (codes ")"), quote-has b'@' s (omega arith) refl)

username_of :
    (user host : Text)
    → username (netloc (quote user) (quote host))
      ≡ (if is_empty user then none else some (quote user))
unfolding username netloc quote
username_of [] host = rw (username, netloc, quote, split_once_plain b'@' _ (no_at host)) refl
username_of (c ∷ s) host =
    rw
      (
        username,
        split_once-append b'@' (quote (c ∷ s)) (codes "(" ++ (quote host ++ codes ")"))
            (quote-has b'@' (c ∷ s) (omega arith) refl),
      )
      refl

hostname_of :
    (user host : Text)
    → hostname (netloc (quote user) (quote host)) ≡ some (codes "(" ++ (quote host ++ codes ")"))
unfolding hostname netloc quote
hostname_of [] host = rw (hostname, netloc, quote, split_once_plain b'@' _ (no_at host)) refl
hostname_of (c ∷ s) host =
    rw
      (
        hostname,
        split_once-append b'@' (quote (c ∷ s)) (codes "(" ++ (quote host ++ codes ")"))
            (quote-has b'@' (c ∷ s) (omega arith) refl),
      )
      refl

netloc_slash :
    (user host : Text)
    → has b'/' user ≡ false
    → has b'/' host ≡ false
    → has b'/' (netloc (quote user) (quote host)) ≡ false
unfolding netloc quote has
netloc_slash [] host hu hh =
    ground (arith, has-append b'/' (quote host) (codes ")"), quote_slash host hh)
netloc_slash (c ∷ s) host hu hh = ground (
  arith,
  has-append b'/' (quote (c ∷ s)) (codes "@(" ++ (quote host ++ codes ")")),
  has-append b'/' (quote host) (codes ")"),
  quote_slash host hh,
  quote_slash (c ∷ s) hu,
)

IsScheme-has : (s : Text) → All (λ c. (leb b'a' c && leb c b'z') ≡ true) s → has b':' s ≡ false
unfolding has
IsScheme-has [] h = refl
IsScheme-has (c ∷ s) h = ground (arith, IsScheme-has s h.1)

located_lem :
    (scheme n p q : Text)
    → has b'/' n ≡ false
    → has b'?' p ≡ false
    → located scheme (n ++ b'/' ∷ (p ++ b'?' ∷ q))
      ≡ some (record { scheme = scheme; netloc = n; path = b'/' ∷ p; query = q })
unfolding located
located_lem scheme n p q hn hp =
    rw (located, split_once-append b'/' n (p ++ b'?' ∷ q) hn, split_once-append b'?' p q hp) refl

shift_slash : (c : ℕ) → c ≡ b'/' → shift c ≡ b'/'
unfolding shift
shift_slash c h = ground arith

urlparse-urlunsplit :
    (scheme user host path : Text) (query : Text)
    → IsScheme scheme
    → has b'/' user ≡ false
    → has b'/' host ≡ false
    → IsAbsolute path
    → urlparse (
        scheme
        ++ (codes "://" ++ (netloc (quote user) (quote host) ++ (quote path ++ b'?' ∷ query))))
      ≡ some (record {
        scheme = scheme;
        netloc = netloc (quote user) (quote host);
        path = quote path;
        query = query;
      })
unfolding urlparse netloc quote
urlparse-urlunsplit scheme user host [] query hs hu hh ha = absurd ha
urlparse-urlunsplit scheme user host (c ∷ p) query hs hu hh ha =
    let n = netloc (quote user) (quote host) in
    let cut =
      split_once-append b':' scheme (codes "//" ++ (n ++ (quote (c ∷ p) ++ b'?' ∷ query)))
        (IsScheme-has scheme hs.1) in
    let slash : shift c ≡ b'/' = shift_slash c ha in
    rw (urlparse, cut, slash)
      (located_lem scheme n (quote p) query (netloc_slash user host hu hh)
        (quote-has b'?' p (omega arith) refl))

urlencode-ne-nil : (d : Dict Text Text) → d ≢ [] → urlencode d ≢ []
unfolding urlencode
urlencode-ne-nil [] n = absurd (n refl)
urlencode-ne-nil ((k, v) ∷ d) n =
    append-ne-nil (quote k ++ b'=' ∷ quote v) (b'&' ∷ urlencode d) (λ e. cc e)

unquote_parens :
    (s : Text) → unquote (codes "(" ++ (quote s ++ codes ")")) ≡ codes "(" ++ (s ++ codes ")")
unfolding unquote
unquote_parens s =
    ap (λ t. b'(' ∷ t)
      (unquote-append (quote s) (codes ")") ∙ ap (λ t. t ++ codes ")") (unquote-quote s))

pub urllib-IsUrllib : IsUrllib urllib
unfolding urlencode quote
urllib-IsUrllib = record {
  quote_empty = refl;
  unquote-quote = unquote-quote;
  unquote_parens = unquote_parens;
  urlencode_empty = refl;
  urlencode-ne-nil = urlencode-ne-nil;
  parse_qs-urlencode = λ d _ _. pairs-urlencode d;
  username_of = username_of;
  hostname_of = λ user host _. hostname_of user host;
  urlparse-urlunsplit = λ scheme user host path d hs hu hh ha.
      urlparse-urlunsplit scheme user host path (urlencode d) hs hu hh ha;
  urlunsplit_scheme = λ scheme user host path query h. (_, refl);
}
