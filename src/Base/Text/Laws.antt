-- ===== src/Base/Text/Laws.antt =====
-- Laws of `strip`, `split` and `join`.
use Prim.Native.Nat.{ℕ, ◌≤◌}
use mathlib.Core.Path.{◌≡◌, refl}
use mathlib.Core.Logic.{◌≢◌}
use mathlib.Core.Bool.{false, ◌||◌}
use mathlib.Core.List.{List, [], ◌∷◌, ◌++◌}
use mathlib.Core.Option.{none, some}
use native.Mathlib.Omega.{arith}
use filesystem_charms.Base.Tests.{nat_eq}
use filesystem_charms.Base.Lists.{All, length}
use filesystem_charms.Base.Text.{
  Text, is_space, lstrip, rstrip, strip, split, split_once, join, has,
}

-- A text that is not blank, with no white space at its ends.
pub record IsTrimmed (s : Text) : Type 0 where
  pub left : lstrip s ≡ s
  pub right : rstrip s ≡ s
  pub nonempty : s ≢ []

length-lstrip-le : (s : Text) → length (lstrip s) ≤ length s
unfolding lstrip
length-lstrip-le [] = omega arith
length-lstrip-le (c ∷ s) = ground (arith, length-lstrip-le s)

is_space_of_lstrip : (c : ℕ) (s : Text) → lstrip (c ∷ s) ≡ c ∷ s → is_space c ≡ false
unfolding lstrip
is_space_of_lstrip c s h = ground (arith, length-lstrip-le s)

pub lstrip-append : (s t : Text) → lstrip s ≡ s → s ≢ [] → lstrip (s ++ t) ≡ s ++ t
unfolding lstrip
lstrip-append [] t h n = absurd (n refl)
lstrip-append (c ∷ s) t h n = rw (is_space_of_lstrip c s h)

rstrip-cons : (c : ℕ) (s : Text) → rstrip s ≡ s → s ≢ [] → rstrip (c ∷ s) ≡ c ∷ s
unfolding rstrip
rstrip-cons c [] h n = absurd (n refl)
rstrip-cons c (d ∷ s) h n = rw h

pub append-ne-nil : (s t : Text) → t ≢ [] → s ++ t ≢ []
append-ne-nil [] t n = n
append-ne-nil (c ∷ s) t n = λ e. cc e

pub rstrip-append : (s t : Text) → rstrip t ≡ t → t ≢ [] → rstrip (s ++ t) ≡ s ++ t
rstrip-append [] t h n = h
rstrip-append (c ∷ s) t h n = rstrip-cons c (s ++ t) (rstrip-append s t h n) (append-ne-nil s t n)

pub IsTrimmed-append :
    (s t u : Text) → IsTrimmed s → rstrip u ≡ u → u ≢ [] → IsTrimmed (s ++ (t ++ u))
IsTrimmed-append s t u hs hu n = record {
  left = lstrip-append s (t ++ u) hs.left hs.nonempty;
  right = rstrip-append s (t ++ u) (rstrip-append t u hu n) (append-ne-nil t u n);
  nonempty = append-ne-nil s (t ++ u) (append-ne-nil t u n);
}

pub join-IsTrimmed :
    (d : Text) (s : Text) (ts : List Text) → All IsTrimmed (s ∷ ts) → IsTrimmed (join d (s ∷ ts))
unfolding join
join-IsTrimmed d s [] h = h.0
join-IsTrimmed d s (t ∷ ts) h =
    let rest = join-IsTrimmed d t ts h.1 in
    IsTrimmed-append s d (join d (t ∷ ts)) h.0 rest.right rest.nonempty

pub strip_trimmed : (s : Text) → IsTrimmed s → strip s ≡ s
unfolding strip
strip_trimmed s h = rw (h.left, h.right)

pub split_once-append :
    (d : ℕ) (s t : Text) → has d s ≡ false → split_once d (s ++ d ∷ t) ≡ some (s, t)
unfolding split_once has
split_once-append d [] t h = ground arith
split_once-append d (c ∷ s) t h = ground (arith, split_once-append d s t)

pub split_plain : (d : ℕ) (s : Text) → has d s ≡ false → split d s ≡ s ∷ []
unfolding split has
split_plain d [] h = refl
split_plain d (c ∷ s) h = ground (arith, split_plain d s)

pub split-append : (d : ℕ) (s t : Text) → has d s ≡ false → split d (s ++ d ∷ t) ≡ s ∷ split d t
unfolding split has
split-append d [] t h = ground arith
split-append d (c ∷ s) t h = ground (arith, split-append d s t)

-- Splitting undoes joining, if no part holds the separator.
pub split-join :
    (d : ℕ) (s : Text) (ts : List Text)
    → All (λ t. has d t ≡ false) (s ∷ ts)
    → split d (join (d ∷ []) (s ∷ ts)) ≡ s ∷ ts
unfolding join
split-join d s [] h = split_plain d s h.0
split-join d s (t ∷ ts) h =
    ground (arith, split-append d s (join (d ∷ []) (t ∷ ts)), split-join d t ts h.1)

pub has-append : (d : ℕ) (s t : Text) → has d (s ++ t) ≡ (has d s || has d t)
unfolding has
has-append d [] t = refl
has-append d (c ∷ s) t = ground (arith, has-append d s t)

pub has-join :
    (c : ℕ) (d : Text) (ts : List Text)
    → has c d ≡ false
    → All (λ t. has c t ≡ false) ts
    → has c (join d ts) ≡ false
unfolding has join
has-join c d [] hd h = refl
has-join c d (t ∷ []) hd h = h.0
has-join c d (t ∷ u ∷ ts) hd h = ground (
  arith,
  has-join c d (u ∷ ts) hd h.1,
  has-append c t (d ++ join d (u ∷ ts)),
  has-append c d (join d (u ∷ ts)),
)

pub split_once_plain : (d : ℕ) (s : Text) → has d s ≡ false → split_once d s ≡ none
unfolding split_once has
split_once_plain d [] h = refl
split_once_plain d (c ∷ s) h = ground (arith, split_once_plain d s)
