-- ===== src/Txn/WaitGraph.antt =====
-- transaction.rs: who waits for whom, and that the search of the deadlock check follows it.
use maharit_db.Base.{
  ℕ, zero, suc, String, Bool, true, false, not, ◌&&◌, ◌||◌, some, List, [], ◌∷◌, ◌≡◌, sym, ◌∙◌,
  arith, inl, inr, Bool-cases, ||_cases,
}
use maharit_db.Base.Eq.{◌==◌, nat_eq, string_eq, eq_of_==, ==_refl}
use maharit_db.Base.Map.{Map}
use maharit_db.Base.Set
use maharit_db.Base.Set.{contains-insert}
use maharit_db.Txn.{LockInfo}
use maharit_db.Txn.Locks.{waits, push_unvisited, push_waited, search}

-- The transaction is queued for another resource that the holder has.
abbrev pub awaited : String → ℕ → ℕ → Map String LockInfo → Bool
awaited resource t holder [] = false
awaited resource t holder ((res, info) ∷ locks) =
    (not (res == resource) && (waits t info.waiting && Set.contains holder info.holders))
    || awaited resource t holder locks

-- From the first transaction, each waiting for the next, to the goal.
pub data Leads (resource : String) (locks : Map String LockInfo) (goal : ℕ) : ℕ → Type 0 where
  arrived : {t : ℕ} → t ≡ goal → Leads resource locks goal t
  onward :
      {t : ℕ} (u : ℕ)
      → awaited resource t u locks ≡ true
      → Leads resource locks goal u
      → Leads resource locks goal t

contains-push_unvisited :
    (x : ℕ) (visited hs stack : List ℕ)
    → Set.contains x (push_unvisited visited hs stack)
      ≡ ((not (Set.contains x visited) && Set.contains x hs) || Set.contains x stack)
unfolding push_unvisited Set.contains
contains-push_unvisited x visited [] stack = ground arith
contains-push_unvisited x visited (h ∷ hs) stack = elim (Bool-cases (Set.contains h visited)) [
  | inl e ↦ rw (e, contains-push_unvisited x visited hs stack) (ground (arith, e))
  | inr e ↦ rw (e, contains-push_unvisited x visited hs (h ∷ stack)) (ground (arith, e))
]

pub contains-push_waited :
    (x : ℕ) (resource : String) (t : ℕ) (visited : List ℕ) (locks : Map String LockInfo)
    (stack : List ℕ)
    → Set.contains x (push_waited resource t visited locks stack)
      ≡ ((not (Set.contains x visited) && awaited resource t x locks) || Set.contains x stack)
unfolding push_waited
contains-push_waited x resource t visited [] stack = ground arith
contains-push_waited x resource t visited ((res, info) ∷ locks) stack =
    elim (Bool-cases (res == resource)) [
      | inl e ↦ rw (e, contains-push_waited x resource t visited locks stack)
      | inr e ↦ elim (Bool-cases (waits t info.waiting)) [
        | inl w ↦
            rw
              (
                e,
                w,
                contains-push_waited x resource t visited locks
                    (push_unvisited visited info.holders stack),
                contains-push_unvisited x visited info.holders stack,
              )
              (ground arith)
        | inr w ↦ rw (e, w, contains-push_waited x resource t visited locks stack)
      ]
    ]

module _ (tx : ℕ) (resource : String) (locks : Map String LockInfo) where
  -- one round of the search, by the two tests
  pub search-found :
      (fuel c : ℕ) (visited stack : List ℕ)
      → (c == tx) ≡ true
      → search (suc fuel) tx resource locks visited (c ∷ stack) ≡ some true
  unfolding search
  search-found fuel c visited stack e = rw e

  pub search-again :
      (fuel c : ℕ) (visited stack : List ℕ)
      → (c == tx) ≡ false
      → Set.contains c visited ≡ true
      → search (suc fuel) tx resource locks visited (c ∷ stack)
        ≡ search fuel tx resource locks visited stack
  unfolding search
  search-again fuel c visited stack e v = rw (e, v)

  pub search-onward :
      (fuel c : ℕ) (visited stack : List ℕ)
      → (c == tx) ≡ false
      → Set.contains c visited ≡ false
      → search (suc fuel) tx resource locks visited (c ∷ stack)
        ≡ search fuel tx resource locks
            (Set.insert c visited)
            (push_waited resource c (Set.insert c visited) locks stack)
  unfolding search
  search-onward fuel c visited stack e v = rw (e, v)

  abbrev pub Way : List ℕ → Type 0
  Way stack = (x : ℕ) × (Set.contains x stack ≡ true) × Leads resource locks tx x

  Way-cons : (c : ℕ) (stack : List ℕ) → Way stack → Way (c ∷ stack)
  unfolding Set.contains
  Way-cons c stack (x, m, l) = (x, ground arith, l)

  Way-here : (c : ℕ) (stack : List ℕ) → Leads resource locks tx c → Way (c ∷ stack)
  unfolding Set.contains
  Way-here c stack l = (c, ground (arith, ==_refl c), l)

  Way-back :
      (c : ℕ) (visited stack : List ℕ)
      → Way (push_waited resource c visited locks stack)
      → Way (c ∷ stack)
  Way-back c visited stack (x, m, l) =
      let split = sym (contains-push_waited x resource c visited locks stack) ∙ m in
      elim (||_cases (not (Set.contains x visited) && awaited resource c x locks)
        (Set.contains x stack) split) [
          | inl a ↦ Way-here c stack (onward x (ground arith) l)
          | inr s ↦ Way-cons c stack (x, s, l)
        ]

  -- A search that finds something has found a way.
  pub search-Way :
      (fuel : ℕ) (visited stack : List ℕ)
      → search fuel tx resource locks visited stack ≡ some true
      → Way stack
  search-Way fuel visited [] h = absurd (unfold search in cc)
  search-Way zero visited (c ∷ stack) h = absurd (unfold search in cc)
  search-Way (suc fuel) visited (c ∷ stack) h = elim (Bool-cases (c == tx)) [
    | inl e ↦ Way-here c stack (arrived (eq_of_== c tx e))
    | inr e ↦ elim (Bool-cases (Set.contains c visited)) [
      | inl v ↦
          Way-cons c stack
            (search-Way fuel visited stack (sym (search-again fuel c visited stack e v) ∙ h))
      | inr v ↦ Way-back c (Set.insert c visited) stack (
          search-Way fuel (Set.insert c visited)
            (push_waited resource c (Set.insert c visited) locks stack)
            (sym (search-onward fuel c visited stack e v) ∙ h))
    ]
  ]
