-- ===== src/Base/Exec.antt =====
-- Python code that may raise: `Result` for a value or an exception, `Exec` for code that also
-- changes a state. What was changed before an exception stays changed.
pub mod Keeps
use mathlib.Core.Path.{◌≡◌, refl, ap}
use mathlib.Core.Logic.{◌⊎◌, inl, inr}
use mathlib.Core.Bool.{Bool, true, false}
use mathlib.Core.List.{List, [], ◌∷◌}

pub data Result {ℓ κ} (E : Type ℓ) (A : Type κ) : Type (ℓ ⊔ κ) where
  ok : A → Result E A
  err : E → Result E A

abbrev pub Exec {ℓ κ ι} : Type ℓ → Type κ → Type ι → Type (ℓ ⊔ κ ⊔ ι)
Exec W E A = W → Result E A × W

module _ {ℓ κ ι} {W : Type ℓ} {E : Type κ} {A : Type ι} where
  abbrev pub pure : A → Exec W E A
  pure a w = (ok a, w)

  abbrev pub raise : E → Exec W E A
  raise e w = (err e, w)

  -- The result of code that changes nothing.
  abbrev pub lift : Result E A → Exec W E A
  lift r w = (r, w)

infixl 10 ◌>>=◌ ◌>>◌
abbrev pub ◌>>=◌ {ℓ κ ι ν} :
    {W : Type ℓ} {E : Type κ} {A : Type ι} {B : Type ν} → Exec W E A → (A → Exec W E B) → Exec W E B
◌>>=◌ m f w = let (r, w') = m w in elim r [ ok a ↦ f a w' | err e ↦ (err e, w') ]

abbrev pub ◌>>◌ {ℓ κ ι ν} :
    {W : Type ℓ} {E : Type κ} {A : Type ι} {B : Type ν} → Exec W E A → Exec W E B → Exec W E B
m >> k = m >>= λ _. k

-- `try: m except …: raise f(e)`
abbrev pub wrap {ℓ κ ι ν} :
    {W : Type ℓ} {E : Type κ} {F : Type ν} {A : Type ι} → (E → F) → Exec W E A → Exec W F A
wrap f m w = let (r, w') = m w in elim r [ ok a ↦ (ok a, w') | err e ↦ (err (f e), w') ]

abbrev pub bind_result {ℓ κ ι} :
    {E : Type ℓ} {A : Type κ} {B : Type ι} → Result E A → (A → Result E B) → Result E B
bind_result (ok a) f = f a
bind_result (err e) f = err e

-- `if b: m`
abbrev pub when {ℓ κ} : {W : Type ℓ} {E : Type κ} → Bool → Exec W E (Unit {0}) → Exec W E (Unit {0})
when true m = m
when false m = pure tt

-- `for x in xs: f(x)`, ended by the first exception.
unfoldable pub for_each {ℓ κ ι} :
    {W : Type ℓ} {E : Type κ} {A : Type ι}
    → List A
    → (A → Exec W E (Unit {0}))
    → Exec W E (Unit {0})
for_each [] f = pure tt
for_each (x ∷ xs) f = f x >> for_each xs f

pub Result-cases {ℓ κ} :
    {E : Type ℓ} {A : Type κ} (r : Result E A) → ((a : A) × (r ≡ ok a)) ⊎ ((e : E) × (r ≡ err e))
Result-cases (ok a) = inl (a, refl)
Result-cases (err e) = inr (e, refl)

module _ {ℓ κ ι ν} {W : Type ℓ} {E : Type κ} {A : Type ι} {B : Type ν} where
  bind_inv :
      (r : Result E A) (w₁ : W) (f : A → Exec W E B) (w' : W) (b : B)
      → elim r [ ok a ↦ f a w₁ | err e ↦ (err e, w₁) ] ≡ (ok b, w')
      → (a : A) × (r ≡ ok a) × (f a w₁ ≡ (ok b, w'))
  bind_inv (ok a) w₁ f w' b h = (a, refl, h)
  bind_inv (err e) w₁ f w' b h = absurd (ok-ne-err h)
    where
      ok-ne-err : ◌≡◌ {A = Result E B × W} (err e, w₁) (ok b, w') → ⊥
      ok-ne-err p = cc p

  -- Inversion of a bind that returned.
  pub >>=-eq-ok :
      (m : Exec W E A) (f : A → Exec W E B) (w w' : W) (b : B)
      → (m >>= f) w ≡ (ok b, w')
      → (a : A) × (w₁ : W) × (m w ≡ (ok a, w₁)) × (f a w₁ ≡ (ok b, w'))
  >>=-eq-ok m f w w' b h =
      let (a, p, q) = bind_inv (m w).0 (m w).1 f w' b h in (a, (m w).1, ap (λ r. (r, (m w).1)) p, q)

  -- A bind whose first part returned.
  pub >>=_ok :
      (m : Exec W E A) (f : A → Exec W E B) (w : W) {w₁ : W} {a : A}
      → m w ≡ (ok a, w₁)
      → (m >>= f) w ≡ f a w₁
  >>=_ok m f w h = ap (λ (x : Result E A × W). elim x.0 [ ok a ↦ f a x.1 | err e ↦ (err e, x.1) ]) h
