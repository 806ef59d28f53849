-- ===== src/Filesystem/Uri.antt =====
-- `_UriData` of charms/filesystem-client/lib/charms/filesystem_client/v0/filesystem_info.py. The
-- functions of `urllib.parse` are a parameter.
pub mod Lawful
use filesystem_charms.Base.{
  Bool, true, false, not, ◌||◌, ℕ, Option, none, some, List, [], ◌∷◌, ◌++◌, is_empty, nat_eq, ◌==◌,
  if◌then◌else◌,
}
use filesystem_charms.Base.Dict.{Dict}
use filesystem_charms.Base.Exec.{Result, ok, err, bind_result}
use filesystem_charms.Base.Text.{Text, codes, split, join}

-- The result of `urlparse`, without the parameters and the fragment.
pub record SplitResult : Type 0 where
  pub scheme : Text
  pub netloc : Text
  pub path : Text
  pub query : Text

-- `urllib.parse`: `urlparse` with `allow_fragments=False` and `parse_qs` with
-- `strict_parsing=True` give nothing where they raise `ValueError`; `username` and `hostname` are
-- those of a network location.
pub record Urllib : Type 0 where
  pub quote : Text → Text
  pub unquote : Text → Text
  pub urlencode : Dict Text Text → Text
  pub parse_qs : Text → Option (Dict Text (List Text))
  pub urlparse : Text → Option SplitResult
  pub username : Text → Option Text
  pub hostname : Text → Option Text
  pub urlunsplit : Text → Text → Text → Text → Text

-- What `_UriData(…)` raises as a `FilesystemInfoError`.
pub data UriFault : Type 0 where
  empty_scheme empty_hosts : UriFault

-- The messages of `ParseUriError`.
pub data ParseUriFault : Type 0 where
  invalid_hosts : Text → ParseUriFault
  invalid_options : Text → ParseUriFault
  invalid_data : UriFault → ParseUriFault
  empty_host unclosed_bracket no_colon bad_port : ParseUriFault
  incompatible_scheme missing_user missing_name missing_fsid : ParseUriFault
  missing_auth no_auth_kind : ParseUriFault
  invalid_kind : Text → ParseUriFault
  missing_fs_name : ParseUriFault

-- What the functions of the module raise. The last four are not a `FilesystemInfoError`.
pub data InfoError : Type 0 where
  bad_uri : UriFault → InfoError
  parse_error : ParseUriFault → InfoError
  unsupported : Text → InfoError
  no_peer_relation : InfoError
  value_error secret_not_found key_error model_error : InfoError

pub record UriData : Type 0 where
  pub scheme : Text
  pub hosts : List Text
  pub user : Text
  pub path : Text
  pub options : Dict Text Text

-- `_UriData(…)`
unfoldable pub new_uri_data :
    Text → List Text → Text → Text → Dict Text Text → Result UriFault UriData
new_uri_data scheme hosts user path options =
    if is_empty scheme
    then err empty_scheme
    else if is_empty hosts
    then err empty_hosts
    else ok (record {
      scheme = scheme;
      hosts = hosts;
      user = user;
      path = if is_empty path then b'/' ∷ [] else path;
      options = options;
    })

-- `x or ""`
abbrev pub or_empty : Option Text → Text
or_empty none = []
or_empty (some s) = s

-- `s[:-1]`
unfoldable pub drop_last : Text → Text
drop_last [] = []
drop_last (c ∷ []) = []
drop_last (c ∷ d ∷ s) = c ∷ drop_last (d ∷ s)

-- Whether `c ∷ s` ends in the given character.
unfoldable pub ends_in : ℕ → ℕ → Text → Bool
ends_in d c [] = c == d
ends_in d c (b ∷ s) = ends_in d b s

-- `hostname[1:-1].split(",")`, nothing where the host name is not in parentheses.
unfoldable pub host_list : Text → Option (List Text)
unfolding drop_last ends_in split
host_list [] = none
host_list (c ∷ s) =
    if not (c == b'(') || not (ends_in b')' c s) then none else some (split b',' (drop_last s))

-- `{key: ",".join(values) for key, values in ….items()}`
unfoldable pub joined_values : Dict Text (List Text) → Dict Text Text
unfolding join
joined_values [] = []
joined_values ((key, vs) ∷ d) = (key, join (codes ",") vs) ∷ joined_values d

-- `f"{user}@({hostname})" if user else f"({hostname})"`
unfoldable pub netloc : Text → Text → Text
netloc user hostname =
    let host = codes "(" ++ (hostname ++ codes ")") in
    if is_empty user then host else user ++ (codes "@" ++ host)

module _ (U : Urllib) where
  -- `options`, with the `except ValueError`
  unfoldable pub query_options : Text → Text → Result InfoError (Dict Text Text)
  unfolding joined_values
  query_options uri query = if is_empty query then ok [] else elim (U.parse_qs query) [
    | none ↦ err (parse_error (invalid_options uri))
    | some d ↦ ok (joined_values d)
  ]

  -- `try: return _UriData(…) except FilesystemInfoError`
  unfoldable pub build_uri_data :
      Text → Text → List Text → Text → Dict Text Text → Result InfoError UriData
  unfolding new_uri_data
  build_uri_data scheme user hosts path options =
      elim (new_uri_data scheme hosts user path options) [
        | err e ↦ err (parse_error (invalid_data e))
        | ok d ↦ ok d
      ]

  unfoldable pub data_from : Text → SplitResult → Result InfoError UriData
  unfolding host_list query_options build_uri_data
  data_from uri r = elim (host_list (U.unquote (or_empty (U.hostname r.netloc)))) [
    | none ↦ err (parse_error (invalid_hosts uri))
    | some hosts ↦ bind_result (query_options uri r.query) (
        build_uri_data r.scheme (U.unquote (or_empty (U.username r.netloc))) hosts
          (U.unquote r.path))
  ]

  -- `_UriData.from_uri`
  unfoldable pub from_uri : Text → Result InfoError UriData
  unfolding data_from
  from_uri uri = elim (U.urlparse uri) [ none ↦ err value_error | some r ↦ data_from uri r ]

  -- `str(_UriData)`
  unfoldable pub uri_of : UriData → Text
  unfolding netloc join
  uri_of d =
      U.urlunsplit d.scheme (netloc (U.quote d.user) (U.quote (join (codes ",") d.hosts)))
        (U.quote d.path) (U.urlencode d.options)
