-- ===== src/Base/Text/Number/Roundtrip.antt =====
-- `int` undoes `str`.
use Prim.Native.Nat.{ℕ, zero, suc, ◌+◌, ◌-◌, ◌*◌, ◌/◌, ◌%◌, ◌<◌}
use mathlib.Core.Path.{◌≡◌, refl, ap, ◌∙◌}
use mathlib.Core.Logic.{◌≢◌, inl, inr}
use mathlib.Core.Bool.{true, false}
use mathlib.Core.List.{[], ◌∷◌}
use mathlib.Core.Option.{some}
use native.Mathlib.Omega.{arith}
use native.Mathlib.Numerals.{add-one}
use filesystem_charms.Base.Tests.{nat_beq_iff, Bool-cases, nat_eq, ltb, ◌==◌}
use filesystem_charms.Base.Lists.{All}
use filesystem_charms.Base.Text.{has, Text, is_digit, is_space, strip, lstrip, rstrip}
use filesystem_charms.Base.Text.Number.{
  ℤ, pos, negsuc, digits_value, signed_value, int, decimal_from, decimal, str,
}

-- The value of plain digits after `acc`, given most significant first.
value : ℕ → Text → ℕ
value acc [] = acc
value acc (c ∷ s) = value (acc * 10 + (c - b'0')) s

abbrev pub AreDigits : Text → Type 0
AreDigits = All (λ c. is_digit c ≡ true)

digits_value-AreDigits :
    (s : Text) (acc : ℕ) → AreDigits s → digits_value acc true s ≡ some (value acc s)
unfolding digits_value value
digits_value-AreDigits [] acc h = refl
digits_value-AreDigits (c ∷ s) acc h = rw h.0 (digits_value-AreDigits s _ h.1)

digits_value_first :
    (c : ℕ) (s : Text) → AreDigits (c ∷ s) → digits_value 0 false (c ∷ s) ≡ some (value 0 (c ∷ s))
unfolding digits_value value
digits_value_first c s h = rw h.0 (digits_value-AreDigits s _ h.1)

digit_lem : (n : ℕ) → is_digit (b'0' + n % 10) ≡ true
unfolding is_digit
digit_lem n = ground arith

decimal_from-AreDigits :
    (fuel n : ℕ) (rest : Text) → AreDigits rest → AreDigits (decimal_from fuel n rest)
unfolding decimal_from
decimal_from-AreDigits zero n rest h = h
decimal_from-AreDigits (suc fuel) n rest h = elim (Bool-cases (ltb n 10)) [
  | inl small ↦ rw small (digit_lem n, h)
  | inr large ↦ rw large (decimal_from-AreDigits fuel (n / 10) _ (digit_lem n, h))
]

value-decimal_from :
    (fuel n : ℕ) (rest : Text) → n < fuel → value 0 (decimal_from fuel n rest) ≡ value n rest
unfolding decimal_from value
value-decimal_from zero n rest h = elim h [ ]
value-decimal_from (suc fuel) n rest h = elim (Bool-cases (ltb n 10)) [
  | inl small ↦ rw small (ap (λ k. value k rest) (ground arith))
  | inr large ↦
      rw large
        (value-decimal_from fuel (n / 10) _ (ground arith) ∙ ap (λ k. value k rest) (omega arith))
]

pub decimal-AreDigits : (n : ℕ) → AreDigits (decimal n)
unfolding decimal
decimal-AreDigits n = decimal_from-AreDigits (suc n) n [] tt

decimal_from-ne-nil : (fuel n : ℕ) (rest : Text) → rest ≢ [] → decimal_from fuel n rest ≢ []
unfolding decimal_from
decimal_from-ne-nil zero n rest h = h
decimal_from-ne-nil (suc fuel) n rest h = elim (Bool-cases (ltb n 10)) [
  | inl small ↦ rw small (λ e. cc e)
  | inr large ↦ rw large (decimal_from-ne-nil fuel (n / 10) _ (λ e. cc e))
]

pub decimal-ne-nil : (n : ℕ) → decimal n ≢ []
unfolding decimal decimal_from
decimal-ne-nil n = elim (Bool-cases (ltb n 10)) [
  | inl small ↦ rw small (λ e. cc e)
  | inr large ↦ rw large (decimal_from-ne-nil n (n / 10) _ (λ e. cc e))
]

abbrev IsSolid : Text → Type 0
IsSolid = All (λ c. is_space c ≡ false)

IsSolid-rstrip : (s : Text) → IsSolid s → rstrip s ≡ s
unfolding rstrip
IsSolid-rstrip [] h = refl
IsSolid-rstrip (c ∷ []) h = rw h.0
IsSolid-rstrip (c ∷ d ∷ s) h = rw (IsSolid-rstrip (d ∷ s) h.1)

strip_solid : (s : Text) → IsSolid s → strip s ≡ s
unfolding strip lstrip
strip_solid [] h = refl
strip_solid (c ∷ s) h = rw h.0 (IsSolid-rstrip (c ∷ s) h)

digit-solid : (c : ℕ) → is_digit c ≡ true → is_space c ≡ false
unfolding is_digit is_space
digit-solid c h = ground arith

AreDigits-IsSolid : (s : Text) → AreDigits s → IsSolid s
AreDigits-IsSolid [] h = tt
AreDigits-IsSolid (c ∷ s) h = (digit-solid c h.0, AreDigits-IsSolid s h.1)

signed_value_digits : (s : Text) → AreDigits s → s ≢ [] → signed_value s ≡ some (pos (value 0 s))
unfolding signed_value is_digit
signed_value_digits [] h n = absurd (n refl)
signed_value_digits (c ∷ s) h n = ground (arith, digits_value_first c s h)

value-decimal : (n : ℕ) → value 0 (decimal n) ≡ n
value-decimal n =
    unfold decimal in (value-decimal_from (suc n) n [] (omega arith) ∙ unfold value in refl)

int-decimal : (n : ℕ) → int (decimal n) ≡ some (pos n)
unfolding int
int-decimal n = rw (strip_solid (decimal n) (AreDigits-IsSolid _ (decimal-AreDigits n))) (
    signed_value_digits (decimal n) (decimal-AreDigits n) (decimal-ne-nil n)
    ∙ ap (λ k. some (pos k)) (value-decimal n))

digits_value_all : (s : Text) → AreDigits s → s ≢ [] → digits_value 0 false s ≡ some (value 0 s)
digits_value_all [] h n = absurd (n refl)
digits_value_all (c ∷ s) h n = digits_value_first c s h

digits_value-decimal : (n : ℕ) → digits_value 0 false (decimal n) ≡ some n
digits_value-decimal n =
    digits_value_all (decimal n) (decimal-AreDigits n) (decimal-ne-nil n)
    ∙ ap some (value-decimal n)

minus_solid : is_space b'-' ≡ false
unfolding is_space
minus_solid = refl

int_negative : (n : ℕ) → int (b'-' ∷ decimal (suc n)) ≡ some (negsuc n)
unfolding int
int_negative n =
    rw
      (strip_solid (b'-' ∷ decimal (suc n))
        (minus_solid, AreDigits-IsSolid _ (decimal-AreDigits (suc n))))
      (unfold signed_value in rw (digits_value-decimal (suc n)))

-- `int(str(z)) == z`
pub int-str : (z : ℤ) → int (str z) ≡ some z
int-str (pos n) = unfold str in int-decimal n
int-str (negsuc n) = unfold str in rw add-one (int_negative n)

AreDigits-has : (d : ℕ) (s : Text) → is_digit d ≡ false → AreDigits s → has d s ≡ false
unfolding has
AreDigits-has d [] n h = refl
AreDigits-has d (c ∷ s) n h = ground (arith, AreDigits-has d s n h.1, nat_beq_iff c d)

-- A decimal number has no other characters than digits.
pub decimal-has : (d n : ℕ) → is_digit d ≡ false → has d (decimal n) ≡ false
decimal-has d n h = AreDigits-has d (decimal n) h (decimal-AreDigits n)

pub str-has : (d : ℕ) (z : ℤ) → is_digit d ≡ false → (d == b'-') ≡ false → has d (str z) ≡ false
unfolding str has
str-has d (pos n) h m = decimal-has d n h
str-has d (negsuc n) h m = ground (arith, decimal-has d (n + 1) h)
