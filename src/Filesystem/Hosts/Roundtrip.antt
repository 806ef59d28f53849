-- ===== src/Filesystem/Hosts/Roundtrip.antt =====
-- `_hostinfo` reads what `NfsInfo.to_uri` writes for a host.
use filesystem_charms.Base.{
  ◌≡◌, ◌≢◌, refl, sym, ap, ◌∙◌, Bool, true, false, inl, inr, ℕ, Option, none, some, [], ◌∷◌, ◌++◌,
  ◌+◌, nat_eq, ◌==◌, if◌then◌else◌, All-append, arith, Bool-cases,
}
use mathlib.Core.List.{append-nil, append_assoc}
use filesystem_charms.Base.Exec.{ok}
use filesystem_charms.Base.Text.{Text, codes, split_once, has, is_digit}
use filesystem_charms.Base.Text.Laws.{split_once-append, split_once_plain, has-append}
use filesystem_charms.Base.Text.Number.{ℤ, pos, negsuc, str}
use filesystem_charms.Base.Text.Number.Roundtrip.{int-str, str-has, decimal-AreDigits, AreDigits}
use filesystem_charms.Filesystem.{NfsInfo}
use filesystem_charms.Filesystem.Hosts.{port_after, with_port, hostinfo, nonzero_port, nfs_host}
use filesystem_charms.Filesystem.Uri.Lawful.{IsLower}

-- A host name as `urlparse` can give it back: an IPv6 address, which has no `]`, or a name without
-- `:` that does not begin with `[`.
pub record IsHost (is_ipv6 : Text → Bool) (h : Text) : Type 0 where
  pub filled : h ≢ []
  pub no_slash : has b'/' h ≡ false
  pub no_comma : has b',' h ≡ false
  pub is_lower : IsLower h
  pub address : is_ipv6 h ≡ true → has b']' h ≡ false
  pub name : is_ipv6 h ≡ false → (has b':' h ≡ false) × (has b'[' h ≡ false)

AreDigits-IsLower : (s : Text) → AreDigits s → IsLower s
unfolding is_digit
AreDigits-IsLower [] h = tt
AreDigits-IsLower (c ∷ s) h = (ground (arith, h.0), AreDigits-IsLower s h.1)

str-IsLower : (z : ℤ) → IsLower (str z)
unfolding str
str-IsLower (pos n) = AreDigits-IsLower _ (decimal-AreDigits n)
str-IsLower (negsuc n) = (refl, AreDigits-IsLower _ (decimal-AreDigits (n + 1)))

-- The text that follows the host name.
abbrev port_text : Option ℤ → Text
port_text none = []
port_text (some p) = b':' ∷ str p

with_port_text : (h : Text) (p : Option ℤ) → with_port h (port_text p) ≡ ok (h, p)
unfolding port_after
with_port_text h none = refl
with_port_text h (some p) = rw (int-str p) refl

address_back :
    (h : Text) (p : Option ℤ)
    → has b']' h ≡ false
    → hostinfo (b'[' ∷ (h ++ b']' ∷ port_text p)) ≡ ok (h, p)
unfolding hostinfo
address_back h p n = rw (split_once-append b']' h (port_text p) n) (with_port_text h p)

not_bracket : (c : ℕ) (s : Text) → has b'[' (c ∷ s) ≡ false → (c == b'[') ≡ false
unfolding has
not_bracket c s h = ground arith

hostinfo_plain :
    (h : Text) → h ≢ [] → has b'[' h ≡ false → split_once b':' h ≡ none → hostinfo h ≡ ok (h, none)
unfolding hostinfo
hostinfo_plain [] n k e = absurd (n refl)
hostinfo_plain (c ∷ s) n k e = rw (hostinfo, not_bracket c s k, e) refl

hostinfo_split :
    (h rest : Text)
    → has b'[' h ≡ false
    → h ≢ []
    → split_once b':' (h ++ b':' ∷ rest) ≡ some (h, rest)
    → hostinfo (h ++ b':' ∷ rest) ≡ with_port h (b':' ∷ rest)
unfolding hostinfo port_after
hostinfo_split [] rest k n e = absurd (n refl)
hostinfo_split (c ∷ s) rest k n e = rw (hostinfo, not_bracket c s k, e) refl

name_back :
    (h : Text) (p : Option ℤ)
    → h ≢ []
    → has b':' h ≡ false
    → has b'[' h ≡ false
    → hostinfo (h ++ port_text p) ≡ ok (h, p)
name_back h none n f k = rw (append-nil h) (hostinfo_plain h n k (split_once_plain b':' h f))
name_back h (some p) n f k =
    hostinfo_split h (str p) k n (split_once-append b':' h (str p) f) ∙ with_port_text h (some p)

module _ (is_ipv6 : Text → Bool) where
  host_text : (hostname : Text) → Option ℤ → Text
  host_text hostname p =
      if is_ipv6 hostname then b'[' ∷ (hostname ++ b']' ∷ port_text p) else hostname ++ port_text p

  nfs_host_text :
      (info : NfsInfo) → nfs_host is_ipv6 info ≡ host_text info.hostname (nonzero_port info.port)
  unfolding nfs_host host_text
  nfs_host_text info = go (is_ipv6 info.hostname) info.hostname (nonzero_port info.port)
    where
      go :
          (b : Bool) (h : Text) (p : Option ℤ)
          → (let host = if b then codes "[" ++ (h ++ codes "]") else h in
              elim p [ none ↦ host | some z ↦ host ++ (codes ":" ++ str z) ])
            ≡ (if b then b'[' ∷ (h ++ b']' ∷ port_text p) else h ++ port_text p)
      go true h none = refl
      go true h (some z) = ap (λ t. b'[' ∷ t) (append_assoc h (codes "]") (codes ":" ++ str z))
      go false h none = sym (append-nil h)
      go false h (some z) = refl

  -- The port 0 is not written.
  pub hostinfo-nfs_host :
      (info : NfsInfo)
      → IsHost is_ipv6 info.hostname
      → hostinfo (nfs_host is_ipv6 info) ≡ ok (info.hostname, nonzero_port info.port)
  unfolding host_text hostinfo nonzero_port
  hostinfo-nfs_host info h =
      ap hostinfo (nfs_host_text info) ∙ elim (Bool-cases (is_ipv6 info.hostname)) [
        | inl v6 ↦ rw (host_text, v6) (address_back info.hostname _ (h.address v6))
        | inr v4 ↦
            rw (host_text, v4) (name_back info.hostname _ h.filled (h.name v4).0 (h.name v4).1)
      ]

  host_text_all :
      (P : Text → Type 0)
      → P (codes "[")
      → P (codes "]")
      → P []
      → P (codes ":")
      → ((z : ℤ) → P (str z))
      → ((s t : Text) → P s → P t → P (s ++ t))
      → (h : Text) (p : Option ℤ) → P h
      → P (host_text h p)
  unfolding host_text
  host_text_all P left right empty colon number both h p hh = elim (Bool-cases (is_ipv6 h)) [
    | inl v6 ↦
        rw (host_text, v6)
          (both (codes "[") _ left (both h _ hh (both (codes "]") _ right (port p))))
    | inr v4 ↦ rw (host_text, v4) (both h _ hh (port p))
  ]
    where
      port : (p : Option ℤ) → P (port_text p)
      port none = empty
      port (some z) = both (codes ":") _ colon (number z)

  -- The text of a host can be part of a URI.
  pub nfs_host-IsCarried :
      (info : NfsInfo)
      → IsHost is_ipv6 info.hostname
      → (has b'/' (nfs_host is_ipv6 info) ≡ false)
        × (has b',' (nfs_host is_ipv6 info) ≡ false)
        × IsLower (nfs_host is_ipv6 info)
  unfolding has is_digit
  nfs_host-IsCarried info h = rw (nfs_host_text info) (
    host_text_all (λ t. has b'/' t ≡ false) refl refl refl refl (λ z. str-has b'/' z refl refl)
        (λ s t hs ht. rw (has-append b'/' s t, hs, ht) refl) info.hostname _ h.no_slash,
    host_text_all (λ t. has b',' t ≡ false) refl refl refl refl (λ z. str-has b',' z refl refl)
        (λ s t hs ht. rw (has-append b',' s t, hs, ht) refl) info.hostname _ h.no_comma,
    host_text_all IsLower (refl, tt) (refl, tt) tt (refl, tt) str-IsLower
        (λ s t hs ht. All-append _ s t hs ht) info.hostname _ h.is_lower,
  )
