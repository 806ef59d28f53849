-- ===== src/Filesystem/Uri/Lawful.antt =====
-- What the code relies on in `urllib.parse`, and when a URI gives back what it was made of.
use filesystem_charms.Base.{
  ◌≡◌, ◌≢◌, refl, sym, ap, ◌∙◌, true, false, ◌&&◌, ℕ, none, some, List, [], ◌∷◌, ◌++◌, is_empty,
  nat_eq, if◌then◌else◌, All, All-append, leb, arith, text_eq,
}
use filesystem_charms.Base.Dict.{Dict, values, NodupKeys}
use filesystem_charms.Base.Exec.{ok}
use filesystem_charms.Base.Text.{Text, codes, split, join, has}
use filesystem_charms.Base.Text.Laws.{split-join, has-join}
use filesystem_charms.Filesystem.Uri.{
  Urllib, UriData, SplitResult, netloc, joined_values, query_options, build_uri_data, data_from,
  from_uri, uri_of, new_uri_data, host_list, drop_last, ends_in, or_empty,
}

-- No capital letter: `urlparse` gives host names in lower case.
abbrev pub IsLower : Text → Type 0
IsLower = All (λ c. (leb b'A' c && leb c b'Z') ≡ false)

-- A scheme of lower case letters.
abbrev pub IsScheme : Text → Type 0
IsScheme s = (s ≢ []) × All (λ c. (leb b'a' c && leb c b'z') ≡ true) s

-- A path that begins with `/`.
abbrev pub IsAbsolute : Text → Type 0
IsAbsolute [] = ⊥
IsAbsolute (c ∷ s) = c ≡ b'/'

-- Options that a query can carry: each name once, and no value empty.
abbrev pub AreCarried : Dict Text Text → Type 0
AreCarried options = NodupKeys options × All (λ v. v ≢ []) (values options)

-- `{key: [value] …}`
unfoldable pub singletons : Dict Text Text → Dict Text (List Text)
singletons [] = []
singletons ((k, v) ∷ d) = (k, v ∷ []) ∷ singletons d

-- `quote` leaves `/` as it is, so that a user or host with a `/` would end the network location.
pub record IsUrllib (U : Urllib) : Type 0 where
  pub quote_empty : U.quote [] ≡ []
  pub unquote-quote : (s : Text) → U.unquote (U.quote s) ≡ s
  pub unquote_parens :
      (s : Text) → U.unquote (codes "(" ++ (U.quote s ++ codes ")")) ≡ codes "(" ++ (s ++ codes ")")
  pub urlencode_empty : U.urlencode [] ≡ []
  pub urlencode-ne-nil : (options : Dict Text Text) → options ≢ [] → U.urlencode options ≢ []
  pub parse_qs-urlencode :
      (options : Dict Text Text)
      → options ≢ []
      → AreCarried options
      → U.parse_qs (U.urlencode options) ≡ some (singletons options)
  pub username_of :
      (user host : Text)
      → U.username (netloc (U.quote user) (U.quote host))
        ≡ (if is_empty user then none else some (U.quote user))
  pub hostname_of :
      (user host : Text)
      → IsLower host
      → U.hostname (netloc (U.quote user) (U.quote host))
        ≡ some (codes "(" ++ (U.quote host ++ codes ")"))
  pub urlparse-urlunsplit :
      (scheme user host path : Text) (options : Dict Text Text)
      → IsScheme scheme
      → has b'/' user ≡ false
      → has b'/' host ≡ false
      → IsAbsolute path
      → U.urlparse (
          U.urlunsplit scheme
            (netloc (U.quote user) (U.quote host))
            (U.quote path)
            (U.urlencode options))
        ≡ some (record {
          scheme = scheme;
          netloc = netloc (U.quote user) (U.quote host);
          path = U.quote path;
          query = U.urlencode options;
        })
  pub urlunsplit_scheme :
      (scheme user host path query : Text)
      → IsScheme scheme
      → (rest : Text) × (U.urlunsplit scheme (netloc (U.quote user) (U.quote host)) path query
          ≡ scheme ++ (codes "://" ++ rest))

-- What a URI can carry.
pub record IsCarried (d : UriData) : Type 0 where
  pub scheme : IsScheme d.scheme
  pub user : has b'/' d.user ≡ false
  pub some_host : d.hosts ≢ []
  pub hosts : All (λ h. (has b'/' h ≡ false) × (has b',' h ≡ false) × IsLower h) d.hosts
  pub path : IsAbsolute d.path
  pub options : AreCarried d.options

-- The text of `drop_last` and the last character.
drop_last-append : (s : Text) (d : ℕ) → drop_last (s ++ d ∷ []) ≡ s
unfolding drop_last
drop_last-append [] d = refl
drop_last-append (c ∷ []) d = refl
drop_last-append (c ∷ b ∷ s) d = ap (λ t. c ∷ t) (drop_last-append (b ∷ s) d)

ends_in-append : (c d : ℕ) (s : Text) → ends_in d c (s ++ d ∷ []) ≡ true
unfolding ends_in
ends_in-append c d [] = ground arith
ends_in-append c d (b ∷ s) = ends_in-append b d s

host_list_parens : (s : Text) → host_list (codes "(" ++ (s ++ codes ")")) ≡ some (split b',' s)
unfolding host_list
host_list_parens s = ground (arith, ends_in-append b'(' b')' s, drop_last-append s b')')

joined_values-singletons : (d : Dict Text Text) → joined_values (singletons d) ≡ d
unfolding joined_values singletons join
joined_values-singletons [] = refl
joined_values-singletons ((k, v) ∷ d) = ap (λ t. (k, v) ∷ t) (joined_values-singletons d)

All-map :
    {A : Type 0} {P Q : A → Type 0} (xs : List A) → ((a : A) → P a → Q a) → All P xs → All Q xs
All-map [] f h = tt
All-map (x ∷ xs) f h = (f x h.0, All-map xs f h.1)

join-IsLower : (ts : List Text) → All IsLower ts → IsLower (join (codes ",") ts)
unfolding join
join-IsLower [] h = tt
join-IsLower (t ∷ []) h = h.0
join-IsLower (t ∷ u ∷ ts) h =
    All-append (λ c. (leb b'A' c && leb c b'Z') ≡ false) t (codes "," ++ join (codes ",") (u ∷ ts))
      h.0 (refl, join-IsLower (u ∷ ts) h.1)

pub is_empty-ne-nil : {A : Type 0} (xs : List A) → xs ≢ [] → is_empty xs ≡ false
is_empty-ne-nil [] n = absurd (n refl)
is_empty-ne-nil (x ∷ xs) n = refl

split-join_hosts :
    (hosts : List Text)
    → hosts ≢ []
    → All (λ h. has b',' h ≡ false) hosts
    → split b',' (join (codes ",") hosts) ≡ hosts
split-join_hosts [] n h = absurd (n refl)
split-join_hosts (t ∷ ts) n h = split-join b',' t ts h

has_of_empty : has b'/' (codes ",") ≡ false
unfolding has
has_of_empty = refl

pub IsAbsolute-ne-nil : (path : Text) → IsAbsolute path → path ≢ []
IsAbsolute-ne-nil [] h = absurd h
IsAbsolute-ne-nil (c ∷ s) h = λ e. cc e

module _ (U : Urllib) (u : IsUrllib U) where
  query_options-urlencode :
      (uri : Text) (d : Dict Text Text) → AreCarried d → query_options U uri (U.urlencode d) ≡ ok d
  unfolding query_options
  query_options-urlencode uri [] h = rw u.urlencode_empty refl
  query_options-urlencode uri ((k, v) ∷ d) h =
      let filled : (k, v) ∷ d ≢ [] = λ e. cc e in
      rw
        (
          is_empty-ne-nil _ (u.urlencode-ne-nil ((k, v) ∷ d) filled),
          u.parse_qs-urlencode ((k, v) ∷ d) filled h,
          joined_values-singletons ((k, v) ∷ d),
        )
        refl

  username_back :
      (user host : Text)
      → U.unquote (or_empty (U.username (netloc (U.quote user) (U.quote host)))) ≡ user
  username_back [] host =
      rw (u.username_of [] host) (sym (ap U.unquote u.quote_empty) ∙ u.unquote-quote [])
  username_back (c ∷ s) host = rw (u.username_of (c ∷ s) host) (u.unquote-quote (c ∷ s))

  from_uri_parsed :
      (uri : Text) (r : SplitResult) → U.urlparse uri ≡ some r → from_uri U uri ≡ data_from U uri r
  unfolding from_uri
  from_uri_parsed uri r e = rw (from_uri, e) refl

  build_back :
      (d : UriData) → IsCarried d → build_uri_data U d.scheme d.user d.hosts d.path d.options ≡ ok d
  unfolding build_uri_data new_uri_data
  build_back d c =
      rw
        (
          build_uri_data,
          new_uri_data,
          is_empty-ne-nil d.scheme c.scheme.0,
          is_empty-ne-nil d.hosts c.some_host,
          is_empty-ne-nil d.path (IsAbsolute-ne-nil d.path c.path),
        )
        refl

  data_back :
      (uri : Text) (d : UriData)
      → IsCarried d
      → data_from U uri (record {
        scheme = d.scheme;
        netloc = netloc (U.quote d.user) (U.quote (join (codes ",") d.hosts));
        path = U.quote d.path;
        query = U.urlencode d.options;
      })
        ≡ ok d
  unfolding data_from
  data_back uri d c =
      let host = join (codes ",") d.hosts in
      let lower = join-IsLower d.hosts (All-map d.hosts (λ h p. p.2) c.hosts) in
      let hosts = split-join_hosts d.hosts c.some_host (All-map d.hosts (λ h p. p.1) c.hosts) in
      rw
        (
          data_from,
          u.hostname_of d.user host lower,
          u.unquote_parens host,
          host_list_parens host,
          hosts,
          query_options-urlencode uri d.options c.options,
          username_back d.user host,
          u.unquote-quote d.path,
        )
        (build_back d c)

  -- `_UriData.from_uri` gives back what `str` wrote.
  pub from_uri-uri_of : (d : UriData) → IsCarried d → from_uri U (uri_of U d) ≡ ok d
  unfolding uri_of
  from_uri-uri_of d c =
      let host = join (codes ",") d.hosts in
      let plain =
        has-join b'/' (codes ",") d.hosts has_of_empty (All-map d.hosts (λ h p. p.0) c.hosts) in
      let parsed =
        u.urlparse-urlunsplit d.scheme d.user host d.path d.options c.scheme c.user plain c.path in
      from_uri_parsed _ _ parsed ∙ data_back _ d c
