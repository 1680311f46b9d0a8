-- ===== src/Base/Eq.antt =====
-- Keys with a Boolean equality: Rust's `Eq` for the types that the program hashes.
use text.Mathlib.Text.{◌==◌ as str_eq}
use text.Mathlib.TextEquality.{eq_iff}
use Prim.Native.Nat.{ℕ}
use Prim.Native.String.{String}
use mathlib.Core.Path.{◌≡◌, refl}
use mathlib.Core.Logic.{◌↔◌, ◌≢◌, inl, inr}
use mathlib.Core.Bool.{Bool, true, false}
use maharit_db.Base.Tests.{nat_beq, nat_beq_iff, Bool-cases}

-- What the key of a hash map has to offer.
pub record HashKey {ℓ} (K : Type ℓ) : Type ℓ where
  pub same : K → K → Bool
  pub same_iff : (j k : K) → (same j k ≡ true) ↔ (j ≡ k)

instance abbrev pub string_eq : HashKey String
string_eq = record { same = str_eq; same_iff = eq_iff }

instance abbrev pub nat_eq : HashKey ℕ
nat_eq = record { same = nat_beq; same_iff = nat_beq_iff }

module _ {ℓ} {K : Type ℓ} ⦃e : HashKey K⦄ where
  infix 50 ◌==◌
  abbrev pub ◌==◌ : K → K → Bool
  j == k = e.same j k

  pub ==_refl : (k : K) → (k == k) ≡ true
  ==_refl k = (e.same_iff k k).1 refl

  pub eq_of_== : (j k : K) → (j == k) ≡ true → j ≡ k
  eq_of_== j k h = (e.same_iff j k).0 h

  pub ==_ne : (j k : K) → j ≢ k → (j == k) ≡ false
  ==_ne j k h = elim (Bool-cases (j == k)) [ inl p ↦ absurd (h (eq_of_== j k p)) | inr p ↦ p ]
