-- ===== src/Prelude/Map.antt =====
-- `std::unordered_map` and `std::map` as association lists. No law depends on the order of entries.
use mathlib.Core.Path.{◌≡◌, refl}
use mathlib.Core.Bool.{true}
use mathlib.Core.Option.{Option, none, some}
use mathlib.Core.List.{List, [], ◌∷◌}
use native.Mathlib.Omega.{arith}
use ndn_based_protocol.Prelude.Tests.{if◌then◌else◌}
use ndn_based_protocol.Prelude.Equality.{Eq, ◌==◌}

abbrev pub Map {ℓ κ} : Type ℓ → Type κ → Type (ℓ ⊔ κ)
Map K V = List (K × V)

pub beq_self {ℓ} : {K : Type ℓ} ⦃e : Eq K⦄ (k : K) → (k == k) ≡ true
beq_self ⦃e⦄ k = (e.beq_iff k k).1 refl

module _ {ℓ κ} {K : Type ℓ} {V : Type κ} ⦃e : Eq K⦄ where
  -- m.erase(key)
  unfoldable pub erase : K → Map K V → Map K V
  erase key [] = []
  erase key (entry ∷ rest) =
      let others = erase key rest in if entry.0 == key then others else entry ∷ others

  -- m[key] = value
  unfoldable pub insert : K → V → Map K V → Map K V
  insert key value [] = (key, value) ∷ []
  insert key value (entry ∷ rest) =
      let others = insert key value rest in
      if entry.0 == key then (key, value) ∷ rest else entry ∷ others

  -- m.find(key)
  unfoldable pub lookup : K → Map K V → Option V
  lookup key [] = none
  lookup key (entry ∷ rest) =
      let found = lookup key rest in if entry.0 == key then some entry.1 else found

  pub lookup-erase :
      (key other : K) (m : Map K V)
      → lookup other (erase key m) ≡ (if key == other then none else lookup other m)
  unfolding lookup erase
  lookup-erase key other [] = ground arith
  lookup-erase key other (entry ∷ rest) = ground (
    arith,
    lookup-erase key other rest,
    e.beq_iff key other,
    e.beq_iff entry.0 key,
    e.beq_iff entry.0 other,
  )

  pub lookup-insert :
      (key other : K) (value : V) (m : Map K V)
      → lookup other (insert key value m) ≡ (if key == other then some value else lookup other m)
  unfolding lookup insert
  lookup-insert key other value [] = refl
  lookup-insert key other value (entry ∷ rest) = ground (
    arith,
    lookup-insert key other value rest,
    e.beq_iff key other,
    e.beq_iff entry.0 key,
    e.beq_iff entry.0 other,
  )

  -- No two entries have the same key.
  abbrev pub DistinctKeys : Map K V → Type κ
  DistinctKeys [] = Unit
  DistinctKeys (entry ∷ rest) = (lookup entry.0 rest ≡ none) × DistinctKeys rest

  pub insert-DistinctKeys :
      (key : K) (value : V) (m : Map K V) → DistinctKeys m → DistinctKeys (insert key value m)
  unfolding insert lookup
  insert-DistinctKeys key value [] d = (refl, tt)
  insert-DistinctKeys key value (entry ∷ rest) d = ground (
    arith,
    insert-DistinctKeys key value rest d.1,
    lookup-insert key entry.0 value rest,
    e.beq_iff key entry.0,
    e.beq_iff entry.0 key,
    d.0,
  )
