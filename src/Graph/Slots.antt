-- ===== src/Graph/Slots.antt =====
-- graph.rs: writing to a slot under a given number, and growing the vector for it.
use maharit_db.Base.{
  ℕ, zero, suc, ◌+◌, ◌-◌, ◌<◌, ◌≤◌, Bool, true, false, ◌&&◌, ◌||◌, Option, none, some, List, [],
  ◌∷◌, ◌≡◌, refl, sym, ap, ◌∙◌, length, leb, ltb, arith, inl, inr, Bool-cases,
}
use maharit_db.Base.Eq.{◌==◌, nat_eq}
use maharit_db.Base.Set
use maharit_db.Base.Set.{contains-remove, not-contains-remove}
use maharit_db.Base.Vec
use maharit_db.Base.Vec.{at, at-set, at_beyond, length-set, count_some, count_some-fill}
use maharit_db.Graph.Restore.{resize, push_range}
use maharit_db.Graph.WellFormed.{Distinct, SlotsFit}

module _ {ℓ} {A : Type ℓ} where
  pub at-resize : (d : A) (n : ℕ) (xs : List A) (j : ℕ) → at d (resize d n xs) j ≡ at d xs j
  unfolding resize at
  at-resize d zero xs j = refl
  at-resize d (suc n) [] zero = refl
  at-resize d (suc n) [] (suc j) = at-resize d n [] j ∙ unfold at in refl
  at-resize d (suc n) (x ∷ xs) zero = refl
  at-resize d (suc n) (x ∷ xs) (suc j) = at-resize d n xs j

  pub length-resize :
      (d : A) (n : ℕ) (xs : List A)
      → (n ≤ length (resize d n xs))
        × (length xs ≤ length (resize d n xs))
        × (length xs ≤ n → length (resize d n xs) ≡ n)
  unfolding resize
  length-resize d zero xs = (omega arith, omega arith, λ h. omega arith)
  length-resize d (suc n) [] =
      let (a, b, c) = length-resize d n [] in
      (omega arith, omega arith, λ h. ap suc (c (omega arith)))
  length-resize d (suc n) (x ∷ xs) =
      let (a, b, c) = length-resize d n xs in
      (omega arith, omega arith, λ h. ap suc (c (omega arith)))

pub count_some-resize :
    {A : Type 0} (n : ℕ) (xs : List (Option A)) → count_some (resize none n xs) ≡ count_some xs
unfolding resize count_some
count_some-resize zero xs = refl
count_some-resize (suc n) [] = count_some-resize n []
count_some-resize (suc n) (none ∷ xs) = count_some-resize n xs
count_some-resize (suc n) (some x ∷ xs) = ap suc (count_some-resize n xs)

Distinct-remove : (i : ℕ) (free : List ℕ) → Distinct free → Distinct (Set.remove i free)
unfolding Set.remove
Distinct-remove i [] d = tt
Distinct-remove i (x ∷ xs) (new, d) =
    let rest = Distinct-remove i xs d in
    elim (Bool-cases (x == i)) [
      | inl e ↦ rw e rest
      | inr e ↦ rw e (contains-remove i x xs ∙ ground (arith, new), rest)
    ]

-- an empty slot is filled, wherever it stands
pub SlotsFit-assign :
    {A : Type 0} (slots : List (Option A)) (free : List ℕ) (count i : ℕ) (a : A)
    → i < length slots
    → at none slots i ≡ none
    → SlotsFit slots free count
    → SlotsFit (Vec.set slots i (some a)) (Set.remove i free) (count + 1)
SlotsFit-assign slots free count i a inside empty fit = record {
  free_empty = λ j c.
      let split = sym (contains-remove i j free) ∙ c in
      let other : (i == j) ≡ false = ground arith in
      let (inside_j, empty_j) = fit.free_empty j (ground arith) in
      rw (length-set slots i (some a), at-set none slots i j (some a) inside, other)
        (inside_j, empty_j);
  free_distinct = Distinct-remove i free fit.free_distinct;
  counted = omega (arith, count_some-fill slots i a inside empty, fit.counted);
}

-- the vector grows by empty slots, which do not go to the free list
pub SlotsFit-resize :
    {A : Type 0} (slots : List (Option A)) (free : List ℕ) (count n : ℕ)
    → SlotsFit slots free count
    → SlotsFit (resize none n slots) free count
SlotsFit-resize slots free count n fit = record {
  free_empty = λ j c.
      let (inside, empty) = fit.free_empty j c in
      let (_, longer, _) = length-resize none n slots in
      (omega arith, at-resize none n slots j ∙ empty);
  free_distinct = fit.free_distinct;
  counted = fit.counted ∙ sym (count_some-resize n slots);
}

-- a number from `from` on, `n` of them
abbrev within : ℕ → ℕ → ℕ → Bool
within from n j = leb from j && ltb j (from + n)

contains-push_range :
    (j from n : ℕ) (free : List ℕ)
    → Set.contains j (push_range from n free) ≡ (within from n j || Set.contains j free)
unfolding push_range Set.contains
contains-push_range j from zero free = ground arith
contains-push_range j from (suc n) free =
    contains-push_range j (from + 1) n (from ∷ free) ∙ ground arith

Distinct-push_range :
    (from n : ℕ) (free : List ℕ)
    → Distinct free
    → ((j : ℕ) → Set.contains j free ≡ true → j < from)
    → Distinct (push_range from n free)
unfolding push_range Set.contains
Distinct-push_range from zero free d below = d
Distinct-push_range from (suc n) free d below =
    Distinct-push_range (from + 1) n (from ∷ free)
      (elim (Bool-cases (Set.contains from free)) [
        | inl c ↦ let low = below from c in absurd (omega arith)
        | inr c ↦ (c, d)
      ])
      (λ j c. elim (Bool-cases (from == j)) [
        | inl e ↦ ground arith
        | inr e ↦ let low = below j (ground arith) in omega arith
      ])

-- the vector grows by empty slots, and those before the last go to the free list
pub SlotsFit-skip :
    {A : Type 0} (slots : List (Option A)) (free : List ℕ) (count i : ℕ)
    → length slots ≤ i
    → SlotsFit slots free count
    → SlotsFit (resize none (i + 1) slots) (push_range (length slots) (i - length slots) free) count
SlotsFit-skip slots free count i beyond fit =
    let (_, _, exact) = length-resize none (i + 1) slots in
    let grown = exact (omega arith) in
    record {
      free_empty = λ j c.
          let split = sym (contains-push_range j (length slots) (i - length slots) free) ∙ c in
          elim (Bool-cases (within (length slots) (i - length slots) j)) [
            | inl p ↦ (
              ground (arith, grown),
              at-resize none (i + 1) slots j ∙ at_beyond none slots j (ground arith),
            )
            | inr p ↦
                let (inside, empty) = fit.free_empty j (ground arith) in
                (omega (arith, grown), at-resize none (i + 1) slots j ∙ empty)
          ];
      free_distinct =
          Distinct-push_range (length slots) (i - length slots) free fit.free_distinct
            (λ j c. (fit.free_empty j c).0);
      counted = fit.counted ∙ sym (count_some-resize (i + 1) slots);
    }
