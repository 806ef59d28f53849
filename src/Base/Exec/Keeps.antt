-- ===== src/Base/Exec/Keeps.antt =====
-- Invariants of code that changes a state: what holds before it runs holds after it, whether it
-- returns or raises.
use mathlib.Core.Bool.{Bool, true, false}
use filesystem_charms.Base.Tests.{if◌then◌else◌}
use filesystem_charms.Base.Exec.{Result, Exec, ok, err, pure, raise, when, ◌>>=◌}

pub record Keeps {ℓ} {W E A : Type ℓ} (P : W → Type ℓ) (m : Exec W E A) : Type ℓ where
  pub run : {w : W} → P w → P (m w).1

module _ {ℓ} {W E : Type ℓ} {P : W → Type ℓ} where
  pub Keeps-pure : {A : Type ℓ} (a : A) → Keeps {E = E} P (pure a)
  Keeps-pure a = record { run = λ h. h }

  pub Keeps-raise : {A : Type ℓ} (e : E) → Keeps {A = A} P (raise e)
  Keeps-raise e = record { run = λ h. h }

  pub Keeps-choice :
      {A : Type ℓ} (b : Bool) {m n : Exec W E A}
      → Keeps P m
      → Keeps P n
      → Keeps P (if b then m else n)
  Keeps-choice true km kn = km
  Keeps-choice false km kn = kn

  pub Keeps-bind :
      {A B : Type ℓ} (m : Exec W E A) (f : A → Exec W E B)
      → Keeps P m
      → ((a : A) → Keeps P (f a))
      → Keeps P (m >>= f)
  Keeps-bind {A} {B} m f km kf = record { run = λ {w} h. after (m w).0 (m w).1 (km.run h) }
    where
      after :
          (r : Result E A) (w' : W)
          → P w'
          → P (elim r as (λ _. Result E B × W) [ ok a ↦ f a w' | err e ↦ (err e, w') ]).1
      after (ok a) w' h = (kf a).run h
      after (err e) w' h = h

pub Keeps-when :
    {W E : Type 0} {P : W → Type 0} (b : Bool) {m : Exec W E (Unit {0})}
    → Keeps P m
    → Keeps P (when b m)
Keeps-when true km = km
Keeps-when false km = Keeps-pure tt

pub ruleset keeps_rules = (Keeps-pure, Keeps-raise, Keeps-choice, Keeps-bind, Keeps-when)

-- The rule for `try: m except …`, where the handler may raise again.
pub Keeps-handle {ℓ} :
    {W E F A B : Type ℓ} {P : W → Type ℓ} (m : Exec W E A) (f : A → Exec W F B) (g : E → Exec W F B)
    → Keeps P m
    → ((a : A) → Keeps P (f a))
    → ((e : E) → Keeps P (g e))
    → Keeps {E = F} {A = B} P (λ w. let (r, w') = m w in elim r [ ok a ↦ f a w' | err e ↦ g e w' ])
Keeps-handle {W} {E} {F} {A} {B} {P} m f g km kf kg = record {
  run = λ {w} h. after (m w).0 (m w).1 (km.run h);
}
  where
    after :
        (r : Result E A) (w' : W)
        → P w'
        → P (elim r as (λ _. Result F B × W) [ ok a ↦ f a w' | err e ↦ g e w' ]).1
    after (ok a) w' h = (kf a).run h
    after (err e) w' h = (kg e).run h

-- A choice that is made once the state is known.
pub Keeps-choice_at {ℓ} :
    {W E A : Type ℓ} {P : W → Type ℓ} (b : Bool) (m n : Exec W E A)
    → Keeps P m
    → Keeps P n
    → Keeps {E = E} {A = A} P (λ w. if b then m w else n w)
Keeps-choice_at true m n km kn = km
Keeps-choice_at false m n km kn = kn
