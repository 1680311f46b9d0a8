-- ===== src/Txn/WaitClosed.antt =====
-- transaction.rs: a search of the deadlock check that ends without a find has seen every way.
use mathlib.Core.Path.{subst}
use maharit_db.Base.{
  ℕ, zero, suc, String, Bool, true, false, ◌||◌, some, List, [], ◌∷◌, ◌≡◌, ◌≢◌, refl, sym, ◌∙◌,
  arith, inl, inr, Bool-cases, ||_cases,
}
use maharit_db.Base.Eq.{◌==◌, nat_eq, string_eq, eq_of_==}
use maharit_db.Base.Map.{Map}
use maharit_db.Base.Set
use maharit_db.Base.Set.{contains-insert}
use maharit_db.Txn.{LockInfo}
use maharit_db.Txn.Locks.{push_waited, search}
use maharit_db.Txn.WaitGraph.{
  awaited, Leads, arrived, onward, contains-push_waited, search-found, search-again, search-onward,
}

module _ (tx : ℕ) (resource : String) (locks : Map String LockInfo) where
  abbrev pub seen : List ℕ → List ℕ → ℕ → Bool
  seen visited stack x = Set.contains x visited || Set.contains x stack

  -- Whoever a visited transaction waits for is visited or on the stack.
  pub record Closed (visited stack : List ℕ) : Type 0 where
    pub follows :
        (t u : ℕ)
        → Set.contains t visited ≡ true
        → awaited resource t u locks ≡ true
        → seen visited stack u ≡ true
    pub apart : Set.contains tx visited ≡ false

  Closed-again :
      (c : ℕ) (visited stack : List ℕ)
      → Set.contains c visited ≡ true
      → Closed visited (c ∷ stack)
      → Closed visited stack
  unfolding Set.contains
  Closed-again c visited stack v k = record {
    follows = λ t u m a.
        let f = k.follows t u m a in
        elim (Bool-cases (c == u)) [
          | inl e ↦
              let same = eq_of_== c u e in
              let w : Set.contains u visited ≡ true =
                subst (λ z. Set.contains z visited ≡ true) same v in
              ground arith
          | inr e ↦ ground arith
        ];
    apart = k.apart;
  }

  Closed-onward :
      (c : ℕ) (visited stack : List ℕ)
      → (c == tx) ≡ false
      → Closed visited (c ∷ stack)
      → Closed (Set.insert c visited) (push_waited resource c (Set.insert c visited) locks stack)
  unfolding Set.contains
  Closed-onward c visited stack e k = record {
    follows = λ t u m a.
        let pushed = contains-push_waited u resource c (Set.insert c visited) locks stack in
        let grown = contains-insert c u visited in
        let was = contains-insert c t visited in
        elim (||_cases (c == t) (Set.contains t visited) (sym was ∙ m)) [
          | inl p ↦
              let same = eq_of_== c t p in
              let a' : awaited resource c u locks ≡ true =
                subst (λ z. awaited resource z u locks ≡ true) (sym same) a in
              rw (pushed, a') (ground arith)
          | inr old ↦ let f = k.follows t u old a in rw (pushed, grown) (ground arith)
        ];
    apart = contains-insert c tx visited ∙ ground (arith, k.apart);
  }

  no_way :
      (visited : List ℕ)
      → Closed visited []
      → {x : ℕ} → Leads resource locks tx x
      → Set.contains x visited ≢ true
  unfolding Set.contains
  no_way visited k {x} (arrived e) m =
      let out = k.apart in
      let same : Set.contains tx visited ≡ true = subst (λ z. Set.contains z visited ≡ true) e m in
      cc
  no_way visited k {x} (onward u a l) m =
      let f = k.follows x u m a in no_way visited k l (ground arith)

  pub search-Closed :
      (fuel : ℕ) (visited stack : List ℕ)
      → search fuel tx resource locks visited stack ≡ some false
      → Closed visited stack
      → (x : ℕ) → seen visited stack x ≡ true
      → Leads resource locks tx x
      → ⊥
  unfolding Set.contains
  search-Closed fuel visited [] h k x s l = no_way visited k l (ground arith)
  search-Closed zero visited (c ∷ stack) h k x s l = unfold search in cc
  search-Closed (suc fuel) visited (c ∷ stack) h k x s l = elim (Bool-cases (c == tx)) [
    | inl e ↦ let found = search-found tx resource locks fuel c visited stack e in cc
    | inr e ↦ elim (Bool-cases (Set.contains c visited)) [
      | inl v ↦
          search-Closed fuel visited stack
            (sym (search-again tx resource locks fuel c visited stack e v) ∙ h)
            (Closed-again c visited stack v k) x
            (elim (Bool-cases (c == x)) [
              | inl p ↦
                  let same = eq_of_== c x p in
                  let w : Set.contains x visited ≡ true =
                    subst (λ z. Set.contains z visited ≡ true) same v in
                  ground arith
              | inr p ↦ ground arith
            ])
            l
      | inr v ↦
          search-Closed fuel (Set.insert c visited)
            (push_waited resource c (Set.insert c visited) locks stack)
            (sym (search-onward tx resource locks fuel c visited stack e v) ∙ h)
            (Closed-onward c visited stack e k) x
            (rw
              (
                contains-push_waited x resource c (Set.insert c visited) locks stack,
                contains-insert c x visited,
              )
              (ground arith))
            l
    ]
  ]

  -- At the start nothing is visited.
  pub start-Closed : (stack : List ℕ) → Closed [] stack
  unfolding Set.contains
  start-Closed stack = record { follows = λ t u m a. cc; apart = refl }
