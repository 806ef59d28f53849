-- ===== src/LustreFs/Names.antt =====
-- Units of an application never share a target.
use filesystem_charms.Base.{ℕ, ◌≡◌, refl, false, some, ◌∷◌, ◌++◌, arith}
use filesystem_charms.Base.Text.{Text, has, is_digit}
use filesystem_charms.Base.Text.Laws.{split-append, split_plain}
use filesystem_charms.Base.Text.Number.{ℤ, pos, str}
use filesystem_charms.Base.Text.Number.Roundtrip.{int-str, decimal-has}
use filesystem_charms.LustreFs.{unit_num, ost_dataset}

-- The name of a Juju unit.
abbrev pub unit_name : Text → ℕ → Text
unit_name app n = app ++ b'/' ∷ str (pos n)

str-injective : (a b : ℤ) → str a ≡ str b → a ≡ b
str-injective a b h = cc (h, int-str a, int-str b)

ost_dataset-injective : (a b : ℤ) → ost_dataset a ≡ ost_dataset b → a ≡ b
unfolding ost_dataset
ost_dataset-injective a b h = str-injective a b (cc h)

str-has : (n : ℕ) → has b'/' (str (pos n)) ≡ false
unfolding str is_digit
str-has n = decimal-has b'/' n refl

-- From the name of a unit, which is its application's name without a `/`, a `/` and a number in
-- decimal, the number is read.
pub unit_num-unit_name :
    (app : Text) (n : ℕ) → has b'/' app ≡ false → unit_num (unit_name app n) ≡ some (pos n)
unfolding unit_num
unit_num-unit_name app n h = ground (
  arith,
  split-append b'/' app (str (pos n)) h,
  split_plain b'/' (str (pos n)) (str-has n),
  int-str (pos n),
)

-- The targets that `oss_setup` makes on two units of one application, whose name has no `/`, have
-- different dataset names, unless the units are the same.
pub distinct_datasets :
    (app : Text) (m n : ℕ) {i j : ℤ}
    → has b'/' app ≡ false
    → unit_num (unit_name app m) ≡ some i
    → unit_num (unit_name app n) ≡ some j
    → ost_dataset i ≡ ost_dataset j
    → m ≡ n
distinct_datasets app m n {i} {j} h p q e =
    cc (unit_num-unit_name app m h, unit_num-unit_name app n h, p, q, ost_dataset-injective i j e)
