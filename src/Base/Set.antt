-- ===== src/Base/Set.antt =====
-- `HashSet` as a list without repetitions. The order of the list stands for the unspecified order
-- in which a hash set is iterated.
use mathlib.Core.Path.{◌≡◌}
use mathlib.Core.Bool.{Bool, false, not, ◌&&◌, ◌||◌}
use mathlib.Core.List.{List, [], ◌∷◌}
use native.Mathlib.Omega.{arith}
use maharit_db.Base.Tests.{if◌then◌else◌}
use maharit_db.Base.Eq.{HashKey, ◌==◌, ==_refl}

module _ {ℓ} {A : Type ℓ} ⦃e : HashKey A⦄ where
  unfoldable pub contains : A → List A → Bool
  contains a [] = false
  contains a (x ∷ xs) = (x == a) || contains a xs

  unfoldable pub insert : A → List A → List A
  unfolding contains
  insert a xs = if contains a xs then xs else a ∷ xs

  unfoldable pub remove : A → List A → List A
  remove a [] = []
  remove a (x ∷ xs) = let rest = remove a xs in if x == a then rest else x ∷ rest

  pub contains-insert :
      (a b : A) (xs : List A) → contains b (insert a xs) ≡ ((a == b) || contains b xs)
  unfolding insert
  contains-insert a b xs = ground (arith, e.same_iff a b)

  pub contains-remove :
      (a b : A) (xs : List A) → contains b (remove a xs) ≡ (not (a == b) && contains b xs)
  unfolding contains remove
  contains-remove a b [] = ground arith
  contains-remove a b (x ∷ xs) =
      ground (arith, e.same_iff a b, e.same_iff x a, e.same_iff x b, contains-remove a b xs)

  pub not-contains-remove : (a : A) (xs : List A) → contains a (remove a xs) ≡ false
  not-contains-remove a xs = rw (contains-remove a a xs, ==_refl a)
