-- ===== src/Txn/WaitFuel.antt =====
-- transaction.rs: the search of the deadlock check ends.
use native.Mathlib.Nat.{mul-le-mul_left}
use maharit_db.Base.{
  ℕ, zero, suc, ◌+◌, ◌*◌, ◌≤◌, String, Bool, true, false, not, ◌&&◌, ◌||◌, some, List, [], ◌∷◌,
  ◌++◌, ◌≡◌, refl, sym, ◌∙◌, arith, inl, inr, Bool-cases, if◌then◌else◌, ||_cases, length,
  length-append,
}
use maharit_db.Base.Eq.{◌==◌, nat_eq, string_eq, eq_of_==, ==_refl}
use maharit_db.Base.Map.{Map}
use maharit_db.Base.Set
use maharit_db.Base.Set.{contains-insert}
use maharit_db.Txn.{LockInfo}
use maharit_db.Txn.Locks.{push_unvisited, push_waited, search, total_holders, waits}
use maharit_db.Txn.WaitGraph.{
  awaited, contains-push_waited, search-found, search-again, search-onward,
}

-- all holders of the table
abbrev pub all_holders : Map String LockInfo → List ℕ
all_holders [] = []
all_holders ((res, info) ∷ locks) = info.holders ++ all_holders locks

pub length-all_holders :
    (locks : Map String LockInfo) → length (all_holders locks) ≡ total_holders locks
length-all_holders [] = refl
length-all_holders ((res, info) ∷ locks) =
    omega (arith, length-append info.holders (all_holders locks), length-all_holders locks)

-- how many entries of the list are not visited
abbrev pub unvisited : List ℕ → List ℕ → ℕ
unvisited visited [] = 0
unvisited visited (x ∷ xs) = (if Set.contains x visited then 0 else 1) + unvisited visited xs

pub unvisited-start : (xs : List ℕ) → unvisited [] xs ≡ length xs
unfolding Set.contains
unvisited-start [] = refl
unvisited-start (x ∷ xs) = omega (arith, unvisited-start xs)

unvisited-grows :
    (c : ℕ) (visited xs : List ℕ) → unvisited (Set.insert c visited) xs ≤ unvisited visited xs
unvisited-grows c visited [] = omega arith
unvisited-grows c visited (x ∷ xs) =
    ground (arith, unvisited-grows c visited xs, contains-insert c x visited)

unvisited-fewer :
    (c : ℕ) (visited xs : List ℕ)
    → Set.contains c xs ≡ true
    → Set.contains c visited ≡ false
    → unvisited (Set.insert c visited) xs + 1 ≤ unvisited visited xs
unfolding Set.contains
unvisited-fewer c visited [] m v = cc
unvisited-fewer c visited (x ∷ xs) m v = elim (Bool-cases (x == c)) [
  | inl e ↦
      let same = eq_of_== x c e in
      ground (arith, unvisited-grows c visited xs, contains-insert c x visited, ==_refl c)
  | inr e ↦
      let rest = unvisited-fewer c visited xs (ground arith) v in
      ground (arith, rest, contains-insert c x visited)
]

length-push_unvisited :
    (visited hs stack : List ℕ)
    → length (push_unvisited visited hs stack) ≤ length stack + length hs
unfolding push_unvisited
length-push_unvisited visited [] stack = omega arith
length-push_unvisited visited (h ∷ hs) stack = elim (Bool-cases (Set.contains h visited)) [
  | inl e ↦ rw e (omega (arith, length-push_unvisited visited hs stack))
  | inr e ↦ rw e (omega (arith, length-push_unvisited visited hs (h ∷ stack)))
]

length-push_waited :
    (resource : String) (t : ℕ) (visited : List ℕ) (locks : Map String LockInfo) (stack : List ℕ)
    → length (push_waited resource t visited locks stack) ≤ length stack + total_holders locks
unfolding push_waited
length-push_waited resource t visited [] stack = omega arith
length-push_waited resource t visited ((res, info) ∷ locks) stack =
    elim (Bool-cases (res == resource)) [
      | inl e ↦ rw e (omega (arith, length-push_waited resource t visited locks stack))
      | inr e ↦ elim (Bool-cases (waits t info.waiting)) [
        | inr w ↦ rw (e, w) (omega (arith, length-push_waited resource t visited locks stack))
        | inl w ↦
            let more = push_unvisited visited info.holders stack in
            rw (e, w)
              (omega (
                arith,
                length-push_waited resource t visited locks more,
                length-push_unvisited visited info.holders stack,
              ))
      ]
    ]

pub contains-append :
    (x : ℕ) (xs ys : List ℕ) → Set.contains x (xs ++ ys) ≡ (Set.contains x xs || Set.contains x ys)
unfolding Set.contains
contains-append x [] ys = refl
contains-append x (y ∷ xs) ys = ground (arith, contains-append x xs ys)

-- whoever is waited for is a holder
awaited-holder :
    (resource : String) (t u : ℕ) (locks : Map String LockInfo)
    → awaited resource t u locks ≡ true
    → Set.contains u (all_holders locks) ≡ true
awaited-holder resource t u [] a = absurd (cc)
awaited-holder resource t u ((res, info) ∷ locks) a =
    let joined = contains-append u info.holders (all_holders locks) in
    elim (||_cases (not (res == resource) && (waits t info.waiting && Set.contains u info.holders))
      (awaited resource t u locks) a) [
        | inl p ↦ joined ∙ ground arith
        | inr p ↦ joined ∙ (let rest = awaited-holder resource t u locks p in ground arith)
      ]

module _ (tx : ℕ) (resource : String) (locks : Map String LockInfo) where
  abbrev pub Holders : List ℕ → Type 0
  Holders stack = (x : ℕ) → Set.contains x stack ≡ true → Set.contains x (all_holders locks) ≡ true

  Holders-push :
      (c : ℕ) (visited stack : List ℕ)
      → Holders (c ∷ stack)
      → Holders (push_waited resource c visited locks stack)
  unfolding Set.contains
  Holders-push c visited stack h x m =
      let split = sym (contains-push_waited x resource c visited locks stack) ∙ m in
      elim (||_cases (not (Set.contains x visited) && awaited resource c x locks)
        (Set.contains x stack) split) [
          | inl a ↦ awaited-holder resource c x locks (ground arith)
          | inr s ↦ h x (ground arith)
        ]

  -- Each round pops one, or visits one more and pushes at most all holders.
  pub search-ends :
      (fuel : ℕ) (visited stack : List ℕ)
      → Holders stack
      → length stack + total_holders locks * unvisited visited (all_holders locks) ≤ fuel
      → (b : Bool) × (search fuel tx resource locks visited stack ≡ some b)
  search-ends fuel visited [] h enough = (false, unfold search in refl)
  search-ends zero visited (c ∷ stack) h enough = absurd (omega arith)
  search-ends (suc fuel) visited (c ∷ stack) h enough = elim (Bool-cases (c == tx)) [
    | inl e ↦ (true, search-found tx resource locks fuel c visited stack e)
    | inr e ↦ elim (Bool-cases (Set.contains c visited)) [
      | inl v ↦
          let (b, run) =
            search-ends fuel visited stack (λ x m. h x (unfold Set.contains in ground arith))
              (omega arith) in
          (b, search-again tx resource locks fuel c visited stack e v ∙ run)
      | inr v ↦
          let visited' = Set.insert c visited in
          let fewer =
            unvisited-fewer c visited (all_holders locks)
              (h c (unfold Set.contains in ground (arith, ==_refl c))) v in
          let scaled = mul-le-mul_left (total_holders locks) fewer in
          let (b, run) =
            search-ends fuel visited' (push_waited resource c visited' locks stack)
              (Holders-push c visited' stack h)
              (omega (arith, length-push_waited resource c visited' locks stack, scaled)) in
          (b, search-onward tx resource locks fuel c visited stack e v ∙ run)
    ]
  ]
