-- ===== src/Base/Map.antt =====
-- `HashMap` as an association list. No theorem depends on the order of the entries.
use mathlib.Core.Path.{◌≡◌, refl}
use mathlib.Core.Bool.{Bool}
use mathlib.Core.List.{List, [], ◌∷◌}
use mathlib.Core.Option.{Option, none, some}
use native.Mathlib.Omega.{arith}
use maharit_db.Base.Tests.{if◌then◌else◌}
use maharit_db.Base.Eq.{HashKey, ◌==◌}

abbrev pub Map {ℓ κ} : Type ℓ → Type κ → Type (ℓ ⊔ κ)
Map K V = List (K × V)

module _ {ℓ κ} {K : Type ℓ} {V : Type κ} ⦃e : HashKey K⦄ where
  unfoldable pub remove : K → Map K V → Map K V
  remove k [] = []
  remove k ((j, w) ∷ m) = let rest = remove k m in if j == k then rest else (j, w) ∷ rest

  unfoldable pub insert : K → V → Map K V → Map K V
  insert key new [] = (key, new) ∷ []
  insert key new ((i, old) ∷ rest) =
      let deep = insert key new rest in if i == key then (key, new) ∷ rest else (i, old) ∷ deep

  unfoldable pub lookup : K → Map K V → Option V
  lookup key [] = none
  lookup key ((i, found) ∷ rest) =
      let deep = lookup key rest in if i == key then some found else deep

  pub lookup-insert :
      (key other : K) (new : V) (entries : Map K V)
      → lookup other (insert key new entries)
        ≡ (if key == other then some new else lookup other entries)
  unfolding lookup insert
  lookup-insert key other new [] = refl
  lookup-insert key other new ((i, old) ∷ rest) =
      let deep = lookup-insert key other new rest in
      ground (arith, e.same_iff key other, e.same_iff i key, e.same_iff i other)

  pub lookup-remove :
      (k j : K) (m : Map K V) → lookup j (remove k m) ≡ (if k == j then none else lookup j m)
  unfolding lookup remove
  lookup-remove k j [] = ground arith
  lookup-remove k j ((i, w) ∷ m) =
      ground (arith, e.same_iff k j, e.same_iff i k, e.same_iff i j, lookup-remove k j m)

module _ {ℓ κ} {K : Type ℓ} {V : Type κ} where
  -- `values_mut()`, with the new value of each entry
  unfoldable pub map_values : (V → V) → Map K V → Map K V
  map_values f [] = []
  map_values f ((k, v) ∷ m) = (k, f v) ∷ map_values f m

abbrev pub map_option {κ} : {V : Type κ} → (V → V) → Option V → Option V
map_option f none = none
map_option f (some v) = some (f v)

module _ {ℓ κ} {K : Type ℓ} {V : Type κ} ⦃e : HashKey K⦄ where
  pub lookup-map_values :
      (f : V → V) (k : K) (m : Map K V) → lookup k (map_values f m) ≡ map_option f (lookup k m)
  unfolding lookup map_values
  lookup-map_values f k [] = refl
  lookup-map_values f k ((j, v) ∷ m) = ground (arith, lookup-map_values f k m)

abbrev pub filter_option {κ} : {V : Type κ} → (V → Bool) → Option V → Option V
filter_option p none = none
filter_option p (some v) = if p v then some v else none

module _ {ℓ κ} {K : Type ℓ} {V : Type κ} ⦃e : HashKey K⦄ where
  -- `retain(|_, v| p(v))`; where no key stands twice, as in a hash map, the `remove` does nothing
  unfoldable pub retain_values : (V → Bool) → Map K V → Map K V
  retain_values p [] = []
  retain_values p ((k, v) ∷ m) =
      let rest = retain_values p m in if p v then (k, v) ∷ rest else remove k rest

  pub lookup-retain_values :
      (p : V → Bool) (k : K) (m : Map K V)
      → lookup k (retain_values p m) ≡ filter_option p (lookup k m)
  unfolding lookup retain_values
  lookup-retain_values p k [] = refl
  lookup-retain_values p k ((j, v) ∷ m) =
      let rest = retain_values p m in
      ground (arith, lookup-remove j k rest, lookup-retain_values p k m)
