-- ===== src/Base/Text/Number.antt =====
-- `int` and `str` on decimal numbers.
pub mod Roundtrip
use Prim.Native.Nat.{ℕ, zero, suc, ◌+◌, ◌-◌, ◌*◌, ◌/◌, ◌%◌}
use mathlib.Core.Bool.{Bool, true, false, ◌&&◌}
use mathlib.Core.List.{List, [], ◌∷◌, ◌++◌}
use mathlib.Core.Option.{Option, none, some}
use filesystem_charms.Base.Tests.{nat_eq, ◌==◌, ltb, if◌then◌else◌}
use filesystem_charms.Base.Text.{Text, is_digit, strip}

-- Python's `int`; `negsuc n` is -(n + 1).
pub data ℤ : Type 0 where
  pos : ℕ → ℤ
  negsuc : ℕ → ℤ

-- The digits after `acc`, with single underscores between digits. The flag tells that the last
-- character was a digit.
unfoldable pub digits_value : ℕ → Bool → Text → Option ℕ
digits_value acc true [] = some acc
digits_value acc false [] = none
digits_value acc after_digit (c ∷ s) =
    let next = digits_value (acc * 10 + (c - b'0')) true s in
    let joined = digits_value acc false s in
    if is_digit c then next else if c == b'_' && after_digit then joined else none

abbrev negate : Option ℕ → Option ℤ
negate none = none
negate (some zero) = some (pos 0)
negate (some (suc n)) = some (negsuc n)

abbrev positive : Option ℕ → Option ℤ
positive none = none
positive (some n) = some (pos n)

-- After white space was taken off: an optional sign, then digits.
unfoldable pub signed_value : Text → Option ℤ
unfolding digits_value is_digit
signed_value [] = none
signed_value (c ∷ s) =
    if c == b'-'
    then negate (digits_value 0 false s)
    else if c == b'+'
    then positive (digits_value 0 false s)
    else positive (digits_value 0 false (c ∷ s))

-- `int(s)`; nothing where it raises `ValueError`.
unfoldable pub int : Text → Option ℤ
unfolding signed_value strip
int s = signed_value (strip s)

-- The digits of `n` in front of `rest`; more fuel than `n` is enough.
unfoldable pub decimal_from : ℕ → ℕ → Text → Text
decimal_from zero n rest = rest
decimal_from (suc fuel) n rest =
    let here = (b'0' + n % 10) ∷ rest in
    let more = decimal_from fuel (n / 10) here in if ltb n 10 then here else more

unfoldable pub decimal : ℕ → Text
unfolding decimal_from
decimal n = decimal_from (suc n) n []

-- `str(z)`
unfoldable pub str : ℤ → Text
unfolding decimal
str (pos n) = decimal n
str (negsuc n) = b'-' ∷ decimal (n + 1)
