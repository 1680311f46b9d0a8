-- ===== src/Graph/Adjacency.antt =====
-- graph.rs: what a write to a slot and to its adjacency set does to the invariant.
use mathlib.Core.Path.{subst}
use maharit_db.Base.{
  ℕ, ◌+◌, ◌-◌, ◌<◌, ◌≤◌, true, false, not, ◌&&◌, Option, none, some, List, [], ◌∷◌, ◌++◌, ◌≡◌, refl,
  sym, ap, ◌∙◌, length, length-append, ◌⊎◌, if◌then◌else◌, ltb, arith, inl, inr, Bool-cases, ltb→lt,
}
use maharit_db.Base.Eq.{◌==◌, nat_eq, string_eq, eq_of_==, ==_refl, ==_ne}
use maharit_db.Base.Set
use maharit_db.Base.Set.{contains-insert, contains-remove}
use maharit_db.Base.Vec
use maharit_db.Base.Vec.{
  at, at-set, at-push, at_beyond, length-set, count_some, count_some-fill, count_some-clear,
  count_some-push, some_in,
}
use maharit_db.Graph.{Node, Edge, is_filled}
use maharit_db.Graph.Edges.{insert_at, remove_at}
use maharit_db.Graph.WellFormed.{keyed, Exact, SlotsFit, EdgesFit}

pub contains-remove_at :
    (sets : List (List ℕ)) (a i n j : ℕ)
    → Set.contains j (at [] (remove_at sets a i) n) ≡ (
        if a == n
        then not (i == j) && Set.contains j (at [] sets n)
        else Set.contains j (at [] sets n))
unfolding remove_at
contains-remove_at sets a i n j = elim (Bool-cases (ltb a (length sets))) [
  | inl h ↦
      rw (h, at-set [] sets a n (Set.remove i (at [] sets a)) (ltb→lt a (length sets) h))
        (elim (Bool-cases (a == n)) [
          | inl e ↦ rw (e, contains-remove, eq_of_== a n e)
          | inr e ↦ rw e
        ])
  | inr h ↦ rw h (elim (Bool-cases (a == n)) [
    | inl e ↦
        rw (e, at_beyond [] sets n (subst (λ k. length sets ≤ k) (eq_of_== a n e) (ground arith)))
          (unfold Set.contains in ground arith)
    | inr e ↦ rw e
  ])
]

pub length-remove_at : (sets : List (List ℕ)) (a i : ℕ) → length (remove_at sets a i) ≡ length sets
unfolding remove_at
length-remove_at sets a i = elim (Bool-cases (ltb a (length sets))) [
  | inl h ↦ rw h (length-set sets a (Set.remove i (at [] sets a)))
  | inr h ↦ rw h
]

module _ {V : Type 0} (end : Edge V → ℕ) where
  -- An edge leaves its slot and the set of its end.
  pub Exact-remove :
      (edges : List (Option (Edge V))) (sets : List (List ℕ)) (i : ℕ) (e : Edge V)
      → at none edges i ≡ some e
      → Exact end edges sets
      → Exact end (Vec.set edges i none) (remove_at sets (end e) i)
  unfolding keyed
  Exact-remove edges sets i e here exact n j =
      rw (contains-remove_at, at-set none edges i j none (some_in edges i e here))
        (ground (arith, exact n j, exact n i, here))

  -- An edge is written to an empty slot and enters the set of its end.
  pub Exact-insert :
      (edges edges' : List (Option (Edge V))) (sets : List (List ℕ)) (i : ℕ) (e : Edge V)
      → at none edges i ≡ none
      → ((j : ℕ) → at none edges' j ≡ (if i == j then some e else at none edges j))
      → end e < length sets
      → Exact end edges sets
      → Exact end edges' (Vec.set sets (end e) (Set.insert i (at [] sets (end e))))
  unfolding keyed
  Exact-insert edges edges' sets i e empty wrote room exact n j =
      rw (wrote j, at-set [] sets (end e) n (Set.insert i (at [] sets (end e))) room)
        (elim (Bool-cases (end e == n)) [
          | inl p ↦ rw (p, contains-insert, eq_of_== (end e) n p) (ground (arith, exact n j))
          | inr p ↦ rw p (ground (arith, exact n j, exact n i, empty))
        ])

pub insert_at_in :
    (sets : List (List ℕ)) (a i : ℕ)
    → a < length sets
    → insert_at sets a i ≡ some (Vec.set sets a (Set.insert i (at [] sets a)))
unfolding insert_at
insert_at_in sets a i h = Vec.write_in sets a (Set.insert i (at [] sets a)) h

module _ {A : Type 0} where
  filled_not_free :
      (slots : List (Option A)) (free : List ℕ) (count i : ℕ) (a : A)
      → at none slots i ≡ some a
      → SlotsFit slots free count
      → Set.contains i free ≡ false
  filled_not_free slots free count i a here fit = elim (Bool-cases (Set.contains i free)) [
    | inl c ↦ let (_, empty) = fit.free_empty i c in cc
    | inr c ↦ c
  ]

  pub SlotsFit-clear :
      (slots : List (Option A)) (free : List ℕ) (count i : ℕ) (a : A)
      → at none slots i ≡ some a
      → SlotsFit slots free count
      → (0 < count) × SlotsFit (Vec.set slots i none) (i ∷ free) (count - 1)
  unfolding Set.contains
  SlotsFit-clear slots free count i a here fit =
      let fewer = count_some-clear slots i a here in
      let inside = some_in slots i a here in
      (
        omega (arith, fewer, fit.counted),
        record {
          free_empty = λ j c.
              rw (length-set slots i none, at-set none slots i j none inside)
                (elim (Bool-cases (i == j)) [
                  | inl p ↦ rw p (subst (λ k. k < length slots) (eq_of_== i j p) inside, refl)
                  | inr p ↦ rw p (fit.free_empty j (rw p at c))
                ]);
          free_distinct = (filled_not_free slots free count i a here fit, fit.free_distinct);
          counted = omega (arith, fewer, fit.counted);
        },
      )

  -- the first free slot is filled
  pub SlotsFit-reuse :
      (slots : List (Option A)) (free : List ℕ) (count i : ℕ) (a : A)
      → SlotsFit slots (i ∷ free) count
      → (i < length slots)
        × (at none slots i ≡ none)
        × SlotsFit (Vec.set slots i (some a)) free (count + 1)
  unfolding Set.contains
  SlotsFit-reuse slots free count i a fit =
      let (inside, empty) = fit.free_empty i (rw (==_refl i) refl) in
      (
        inside,
        empty,
        record {
          free_empty = λ j c.
              rw (length-set slots i (some a), at-set none slots i j (some a) inside)
                (elim (Bool-cases (i == j)) [
                  | inl p ↦
                      let twice = fit.free_distinct.0 in let same = eq_of_== i j p in absurd (cc)
                  | inr p ↦ rw p (fit.free_empty j (rw p c))
                ]);
          free_distinct = fit.free_distinct.1;
          counted = omega (arith, count_some-fill slots i a inside empty, fit.counted);
        },
      )

  -- a slot is added at the end
  pub SlotsFit-push :
      (slots : List (Option A)) (free : List ℕ) (count : ℕ) (a : A)
      → SlotsFit slots free count
      → SlotsFit (slots ++ some a ∷ []) free (count + 1)
  SlotsFit-push slots free count a fit = record {
    free_empty = λ j c.
        let (inside, empty) = fit.free_empty j c in
        (
          omega (arith, length-append slots (some a ∷ []), inside),
          rw (at-push none slots j (some a), ==_ne (length slots) j (λ e. absurd (omega arith)))
              empty,
        );
    free_distinct = fit.free_distinct;
    counted = omega (arith, count_some-push slots a, fit.counted);
  }

module _ {V : Type 0} where
  pub EdgesFit-clear :
      (nodes : List (Option (Node V))) (edges : List (Option (Edge V))) (i : ℕ) (e : Edge V)
      → at none edges i ≡ some e
      → EdgesFit nodes edges
      → EdgesFit nodes (Vec.set edges i none)
  EdgesFit-clear nodes edges i e here fit = record {
    edge_id = λ j f at_j. fit.edge_id j f (kept j f at_j);
    edge_from = λ j f at_j. fit.edge_from j f (kept j f at_j);
    edge_to = λ j f at_j. fit.edge_to j f (kept j f at_j);
  }
    where
      kept :
          (j : ℕ) (f : Edge V)
          → at none (Vec.set edges i none) j ≡ some f
          → at none edges j ≡ some f
      kept j f at_j = ground (arith, at-set none edges i j none (some_in edges i e here), at_j)

  pub EdgesFit-fill :
      (nodes : List (Option (Node V))) (edges edges' : List (Option (Edge V))) (i : ℕ) (e : Edge V)
      → ((j : ℕ) → at none edges' j ≡ (if i == j then some e else at none edges j))
      → e.id ≡ i
      → is_filled (at none nodes e.from) ≡ true
      → is_filled (at none nodes e.to) ≡ true
      → EdgesFit nodes edges
      → EdgesFit nodes edges'
  EdgesFit-fill nodes edges edges' i e wrote id from to fit = record {
    edge_id = λ j f at_j. elim (new j f at_j) [
      | inl (p, q) ↦ ap (λ (x : Edge V). x.id) (sym q) ∙ id ∙ p
      | inr old ↦ fit.edge_id j f old
    ];
    edge_from = λ j f at_j. elim (new j f at_j) [
      | inl (p, q) ↦ subst (λ (x : Edge V). is_filled (at none nodes x.from) ≡ true) q from
      | inr old ↦ fit.edge_from j f old
    ];
    edge_to = λ j f at_j. elim (new j f at_j) [
      | inl (p, q) ↦ subst (λ (x : Edge V). is_filled (at none nodes x.to) ≡ true) q to
      | inr old ↦ fit.edge_to j f old
    ];
  }
    where
      new :
          (j : ℕ) (f : Edge V)
          → at none edges' j ≡ some f
          → ((i ≡ j) × (e ≡ f)) ⊎ (at none edges j ≡ some f)
      new j f at_j = elim (Bool-cases (i == j)) [
        | inl p ↦ inl (eq_of_== i j p, ground (arith, wrote j, at_j))
        | inr p ↦ inr (ground (arith, wrote j, at_j))
      ]
