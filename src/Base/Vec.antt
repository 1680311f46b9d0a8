-- ===== src/Base/Vec.antt =====
-- Rust's `Vec` as a list that is read and written by index.
use Prim.Native.Nat.{ℕ, zero, suc, ◌+◌, ◌≤◌, ◌<◌}
use mathlib.Core.Path.{◌≡◌, refl, ap}
use mathlib.Core.List.{List, [], ◌∷◌, ◌++◌}
use mathlib.Core.Option.{Option, none, some}
use native.Mathlib.Omega.{arith}
use maharit_db.Base.Tests.{if◌then◌else◌, ltb, nat_beq, lt→ltb}
use maharit_db.Base.Lists.{length}

module _ {ℓ} {A : Type ℓ} where
  -- `get(i)`, with a default beyond the end
  unfoldable pub at : A → List A → ℕ → A
  at d [] i = d
  at d (x ∷ xs) zero = x
  at d (x ∷ xs) (suc i) = at d xs i

  unfoldable pub set : List A → ℕ → A → List A
  set [] i v = []
  set (x ∷ xs) zero v = v ∷ xs
  set (x ∷ xs) (suc i) v = x ∷ set xs i v

  -- `xs[i] = v`, which panics (`none`) out of bounds
  unfoldable pub write : List A → ℕ → A → Option (List A)
  write xs i v = if ltb i (length xs) then some (set xs i v) else none

  pub write_in : (xs : List A) (i : ℕ) (v : A) → i < length xs → write xs i v ≡ some (set xs i v)
  unfolding write
  write_in xs i v h = rw (lt→ltb i (length xs) h)

  pub length-set : (xs : List A) (i : ℕ) (v : A) → length (set xs i v) ≡ length xs
  unfolding set
  length-set [] i v = refl
  length-set (x ∷ xs) zero v = refl
  length-set (x ∷ xs) (suc i) v = ap suc (length-set xs i v)

  pub at-set :
      (d : A) (xs : List A) (i j : ℕ) (v : A)
      → i < length xs
      → at d (set xs i v) j ≡ (if nat_beq i j then v else at d xs j)
  unfolding at set
  at-set d [] i j v h = absurd (omega arith)
  at-set d (x ∷ xs) zero zero v h = refl
  at-set d (x ∷ xs) zero (suc j) v h = ground arith
  at-set d (x ∷ xs) (suc i) zero v h = ground arith
  at-set d (x ∷ xs) (suc i) (suc j) v h = ground (arith, at-set d xs i j v)

  pub at-push :
      (d : A) (xs : List A) (j : ℕ) (v : A)
      → at d (xs ++ v ∷ []) j ≡ (if nat_beq (length xs) j then v else at d xs j)
  unfolding at
  at-push d [] zero v = refl
  at-push d [] (suc j) v = ground arith
  at-push d (x ∷ xs) zero v = ground arith
  at-push d (x ∷ xs) (suc j) v = ground (arith, at-push d xs j v)

  pub at_beyond : (d : A) (xs : List A) (i : ℕ) → length xs ≤ i → at d xs i ≡ d
  unfolding at
  at_beyond d [] i h = refl
  at_beyond d (x ∷ xs) zero h = absurd (omega arith)
  at_beyond d (x ∷ xs) (suc i) h = at_beyond d xs i (omega arith)

module _ {ℓ} {A : Type ℓ} where
  -- the slots that are filled
  unfoldable pub count_some : List (Option A) → ℕ
  count_some [] = 0
  count_some (none ∷ xs) = count_some xs
  count_some (some x ∷ xs) = suc (count_some xs)

  pub count_some-push :
      (xs : List (Option A)) (a : A) → count_some (xs ++ some a ∷ []) ≡ count_some xs + 1
  unfolding count_some
  count_some-push [] a = omega arith
  count_some-push (none ∷ xs) a = count_some-push xs a
  count_some-push (some x ∷ xs) a = omega (arith, count_some-push xs a)

  pub count_some-fill :
      (xs : List (Option A)) (i : ℕ) (a : A)
      → i < length xs
      → at none xs i ≡ none
      → count_some (set xs i (some a)) ≡ count_some xs + 1
  unfolding count_some at set
  count_some-fill [] i a h e = absurd (omega arith)
  count_some-fill (none ∷ xs) zero a h e = omega arith
  count_some-fill (some x ∷ xs) zero a h e = cc
  count_some-fill (none ∷ xs) (suc i) a h e = count_some-fill xs i a (omega arith) e
  count_some-fill (some x ∷ xs) (suc i) a h e =
      omega (arith, count_some-fill xs i a (omega arith) e)

  pub count_some-clear :
      (xs : List (Option A)) (i : ℕ) (a : A)
      → at none xs i ≡ some a
      → count_some (set xs i none) + 1 ≡ count_some xs
  unfolding count_some at set
  count_some-clear [] i a e = cc
  count_some-clear (none ∷ xs) zero a e = cc
  count_some-clear (some x ∷ xs) zero a e = omega arith
  count_some-clear (none ∷ xs) (suc i) a e = count_some-clear xs i a e
  count_some-clear (some x ∷ xs) (suc i) a e = omega (arith, count_some-clear xs i a e)

  pub count_some-replace :
      (xs : List (Option A)) (i : ℕ) (a b : A)
      → at none xs i ≡ some a
      → count_some (set xs i (some b)) ≡ count_some xs
  unfolding count_some at set
  count_some-replace [] i a b e = refl
  count_some-replace (none ∷ xs) zero a b e = cc
  count_some-replace (some x ∷ xs) zero a b e = refl
  count_some-replace (none ∷ xs) (suc i) a b e = count_some-replace xs i a b e
  count_some-replace (some x ∷ xs) (suc i) a b e = ap suc (count_some-replace xs i a b e)

  -- a filled slot lies within the bounds
  pub some_in : (xs : List (Option A)) (i : ℕ) (a : A) → at none xs i ≡ some a → i < length xs
  unfolding at
  some_in [] i a e = cc
  some_in (x ∷ xs) zero a e = omega arith
  some_in (x ∷ xs) (suc i) a e = omega (arith, some_in xs i a e)
