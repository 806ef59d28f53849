-- ===== src/Filesystem/Hosts.antt =====
-- `_hostinfo`, the host of an NFS share and the scheme of a URI, in
-- charms/filesystem-client/lib/charms/filesystem_client/v0/filesystem_info.py.
pub mod Roundtrip
use filesystem_charms.Base.{
  Bool, true, false, not, ◌&&◌, ℕ, Option, none, some, List, [], ◌∷◌, ◌++◌, nat_eq, ◌==◌,
  if◌then◌else◌,
}
use filesystem_charms.Base.Exec.{Result, ok, err, bind_result}
use filesystem_charms.Base.Text.{Text, codes, split_once}
use filesystem_charms.Base.Text.Number.{ℤ, pos, negsuc, int, str}
use filesystem_charms.Filesystem.{NfsInfo}
use filesystem_charms.Filesystem.Uri.{
  InfoError, parse_error, empty_host, unclosed_bracket, no_colon, bad_port,
}

-- `s.startswith(prefix)`
unfoldable pub has_prefix : Text → Text → Bool
has_prefix [] s = true
has_prefix (d ∷ p) [] = false
has_prefix (d ∷ p) (c ∷ s) = c == d && has_prefix p s

-- From the character after the host name on.
unfoldable pub port_after : Text → Result InfoError (Option ℤ)
unfolding int
port_after [] = ok none
port_after (c ∷ s) =
    if not (c == b':')
    then err (parse_error no_colon)
    else elim (int s) [ none ↦ err (parse_error bad_port) | some port ↦ ok (some port) ]

abbrev with_port : Text → Text → Result InfoError (Text × Option ℤ)
with_port hostname rest = bind_result (port_after rest) (λ port. ok (hostname, port))

-- `_hostinfo`
unfoldable pub hostinfo : Text → Result InfoError (Text × Option ℤ)
unfolding port_after split_once
hostinfo [] = err (parse_error empty_host)
hostinfo (c ∷ s) =
    if c == b'['
    then elim (split_once b']' s) [
      | none ↦ err (parse_error unclosed_bracket)
      | some (hostname, rest) ↦ with_port hostname rest
    ]
    else elim (split_once b':' (c ∷ s)) [
      | none ↦ ok (c ∷ s, none)
      | some (hostname, rest) ↦ with_port hostname (b':' ∷ rest)
    ]

-- `uri.split("://", maxsplit=1)[0]`
unfoldable pub before_separator : Text → Text
before_separator [] = []
before_separator (c ∷ s) =
    let rest = before_separator s in if has_prefix (codes "://") (c ∷ s) then [] else c ∷ rest

-- `if self.port` of an `Optional[int]`
unfoldable pub nonzero_port : Option ℤ → Option ℤ
nonzero_port none = none
nonzero_port (some (pos n)) = if n == 0 then none else some (pos n)
nonzero_port (some (negsuc n)) = some (negsuc n)

-- The one host of `NfsInfo.to_uri`.
unfoldable pub nfs_host : (Text → Bool) → NfsInfo → Text
unfolding str nonzero_port
nfs_host is_ipv6 info =
    let host =
      if is_ipv6 info.hostname then codes "[" ++ (info.hostname ++ codes "]") else info.hostname in
    elim (nonzero_port info.port) [ none ↦ host | some p ↦ host ++ (codes ":" ++ str p) ]
