-- ===== src/Base/Dict.antt =====
-- Python's `dict` as an association list in insertion order.
use mathlib.Core.Path.{◌≡◌, refl, ap}
use mathlib.Core.Bool.{false, ◌||◌}
use mathlib.Core.List.{List, [], ◌∷◌, ◌++◌}
use mathlib.Core.Option.{Option, none, some}
use native.Mathlib.Omega.{arith}
use filesystem_charms.Base.Tests.{Eq, ◌==◌, if◌then◌else◌}
use filesystem_charms.Base.Lists.{contains, contains-append}

abbrev pub Dict {ℓ κ} : Type ℓ → Type κ → Type (ℓ ⊔ κ)
Dict K V = List (K × V)

-- `d.keys()`
unfoldable pub keys {ℓ κ} : {K : Type ℓ} {V : Type κ} → Dict K V → List K
keys [] = []
keys ((k, v) ∷ d) = k ∷ keys d

-- `d.values()`
unfoldable pub values {ℓ κ} : {K : Type ℓ} {V : Type κ} → Dict K V → List V
values [] = []
values ((k, v) ∷ d) = v ∷ values d

module _ {ℓ κ} {K : Type ℓ} {V : Type κ} ⦃e : Eq K⦄ where
  -- `d.get(k)`
  unfoldable pub lookup : K → Dict K V → Option V
  lookup k [] = none
  lookup k ((j, v) ∷ d) = if j == k then some v else lookup k d

  -- `d[k] = v`
  unfoldable pub insert : K → V → Dict K V → Dict K V
  insert k v [] = (k, v) ∷ []
  insert k v ((j, w) ∷ d) = if j == k then (j, v) ∷ d else (j, w) ∷ insert k v d

  pub lookup-insert :
      (k j : K) (v : V) (d : Dict K V)
      → lookup j (insert k v d) ≡ (if k == j then some v else lookup j d)
  unfolding lookup insert
  lookup-insert k j v [] = refl
  lookup-insert k j v ((i, w) ∷ d) =
      ground (arith, e.beq_iff k j, e.beq_iff i k, e.beq_iff i j, lookup-insert k j v d)

  pub insert-insert : (k : K) (v w : V) (d : Dict K V) → insert k v (insert k w d) ≡ insert k v d
  unfolding insert
  insert-insert k v w [] = ground (arith, e.beq_iff k k)
  insert-insert k v w ((j, u) ∷ d) = ground (arith, e.beq_iff j k, insert-insert k v w d)

  -- No key is listed twice.
  abbrev pub NodupKeys : Dict K V → Type 0
  NodupKeys [] = Unit
  NodupKeys ((k, v) ∷ d) = (contains (keys d) k ≡ false) × NodupKeys d

  pub insert_fresh :
      (k : K) (v : V) (d : Dict K V) → contains (keys d) k ≡ false → insert k v d ≡ d ++ (k, v) ∷ []
  unfolding insert keys contains
  insert_fresh k v [] h = refl
  insert_fresh k v ((j, w) ∷ d) h = ground (arith, insert_fresh k v d)

  keys-append : (d f : Dict K V) → keys (d ++ f) ≡ keys d ++ keys f
  unfolding keys
  keys-append [] f = refl
  keys-append ((k, v) ∷ d) f = ap (λ ks. k ∷ ks) (keys-append d f)

  -- A key that comes later is fresh.
  pub NodupKeys-fresh :
      (d : Dict K V) (k : K) (v : V) (f : Dict K V)
      → NodupKeys (d ++ (k, v) ∷ f)
      → contains (keys d) k ≡ false
  unfolding keys contains
  NodupKeys-fresh [] k v f h = refl
  NodupKeys-fresh ((j, w) ∷ d) k v f h = ground (
    arith,
    NodupKeys-fresh d k v f h.1,
    keys-append d ((k, v) ∷ f),
    contains-append (keys d) (k ∷ keys f) j,
    e.beq_iff j k,
    e.beq_iff k j,
  )

  pub keys-insert :
      (k j : K) (v : V) (d : Dict K V)
      → contains (keys (insert k v d)) j ≡ (k == j || contains (keys d) j)
  unfolding insert keys contains
  keys-insert k j v [] = refl
  keys-insert k j v ((i, w) ∷ d) =
      ground (arith, keys-insert k j v d, e.beq_iff i k, e.beq_iff i j, e.beq_iff k j)

  pub insert-NodupKeys : (k : K) (v : V) (d : Dict K V) → NodupKeys d → NodupKeys (insert k v d)
  unfolding insert keys
  insert-NodupKeys k v [] h = unfold contains in (refl, tt)
  insert-NodupKeys k v ((j, w) ∷ d) h =
      ground (arith, insert-NodupKeys k v d h.1, keys-insert k j v d, e.beq_iff j k, e.beq_iff k j)

  pub lookup_absent : (k : K) (d : Dict K V) → contains (keys d) k ≡ false → lookup k d ≡ none
  unfolding lookup keys contains
  lookup_absent k [] h = refl
  lookup_absent k ((j, v) ∷ d) h = ground (arith, lookup_absent k d)
