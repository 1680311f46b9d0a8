-- ===== src/Txn/Deadlock.antt =====
-- transaction.rs: what the deadlock check of `acquire_lock` decides, and what it does not see.
use mathlib.Core.Path.{subst}
use maharit_db.Base.{
  ℕ, ◌+◌, ◌*◌, ◌≤◌, String, Bool, true, false, not, ◌&&◌, ◌||◌, none, some, List, [], ◌∷◌, ◌≡◌, ◌≢◌,
  refl, sym, ap, ◌∙◌, arith, inl, inr, Bool-cases, Option-cases, length,
}
use maharit_db.Base.Eq.{◌==◌, nat_eq, string_eq, eq_of_==, ==_refl}
use maharit_db.Base.Map
use maharit_db.Base.Map.{Map}
use maharit_db.Base.Set
use maharit_db.Txn.{LockInfo, LockMode, read, write}
use maharit_db.Txn.Locks.{
  search, search_fuel, total_holders, others, would_cause_deadlock, waits, can_grant, lock_or_new,
}
use maharit_db.Txn.WaitGraph.{awaited, Leads, arrived, onward, search-Way}
use maharit_db.Txn.WaitClosed.{search-Closed, start-Closed}
use maharit_db.Txn.WaitFuel.{
  all_holders, unvisited, search-ends, length-all_holders, unvisited-start, contains-append,
}

contains-others :
    (x t : ℕ) (hs stack : List ℕ)
    → Set.contains x (others t hs stack)
      ≡ ((not (x == t) && Set.contains x hs) || Set.contains x stack)
unfolding others Set.contains
contains-others x t [] stack = ground arith
contains-others x t (h ∷ hs) stack = elim (Bool-cases (h == t)) [
  | inl e ↦ rw (e, contains-others x t hs stack) (ground (arith, eq_of_== h t e))
  | inr e ↦ rw (e, contains-others x t hs (h ∷ stack)) (ground (arith, e))
]

length-others : (t : ℕ) (hs stack : List ℕ) → length (others t hs stack) ≤ length stack + length hs
unfolding others
length-others t [] stack = omega arith
length-others t (h ∷ hs) stack = elim (Bool-cases (h == t)) [
  | inl e ↦ rw e (omega (arith, length-others t hs stack))
  | inr e ↦ rw e (omega (arith, length-others t hs (h ∷ stack)))
]

-- the holders of one resource are among all holders
found-holders :
    (resource : String) (info : LockInfo) (locks : Map String LockInfo)
    → Map.lookup resource locks ≡ some info
    → ((x : ℕ) → Set.contains x info.holders ≡ true → Set.contains x (all_holders locks) ≡ true)
      × (length info.holders ≤ total_holders locks)
unfolding Map.lookup
found-holders resource info [] h = cc
found-holders resource info ((res, i) ∷ locks) h = elim (Bool-cases (res == resource)) [
  | inl e ↦
      let same : i ≡ info = ground arith in
      (
        λ x m.
            contains-append x i.holders (all_holders locks)
            ∙ (let w : Set.contains x i.holders ≡ true =
                  subst (λ (z : LockInfo). Set.contains x z.holders ≡ true) (sym same) m in
                ground arith),
        subst (λ (z : LockInfo). length z.holders ≤ length i.holders + total_holders locks) same
            (omega arith),
      )
  | inr e ↦
      let (all, few) = found-holders resource info locks (ground arith) in
      (
        λ x m. contains-append x i.holders (all_holders locks) ∙ (let w = all x m in ground arith),
        omega (arith, few),
      )
]

-- Another transaction holds the resource, and waits, directly or through others that wait, for
-- one that the transaction itself holds.
abbrev pub WouldDeadlock : ℕ → String → Map String LockInfo → Type 0
WouldDeadlock t resource locks =
    (info : LockInfo) × (Map.lookup resource locks ≡ some info)
    × ((h : ℕ) × (Set.contains h info.holders ≡ true)
        × ((h == t) ≡ false)
        × Leads resource locks t h)

abbrev pub Decided : Bool → Type 0 → Type 0
Decided true P = P
Decided false P = P → ⊥

abbrev started : ℕ → LockInfo → List ℕ
started t info = others t info.holders []

contains-started :
    (t : ℕ) (info : LockInfo) (x : ℕ)
    → Set.contains x (started t info) ≡ (not (x == t) && Set.contains x info.holders)
unfolding Set.contains
contains-started t info x = contains-others x t info.holders [] ∙ ground arith

start-fuel :
    (t : ℕ) (info : LockInfo) (locks : Map String LockInfo)
    → length info.holders ≤ total_holders locks
    → length (started t info) + total_holders locks * unvisited [] (all_holders locks)
      ≤ search_fuel locks
start-fuel t info locks few =
    rw (unvisited-start (all_holders locks), length-all_holders locks)
      (omega (arith, length-others t info.holders []))

found_Decided :
    (t : ℕ) (resource : String) (locks : Map String LockInfo) (info : LockInfo) (b : Bool)
    → Map.lookup resource locks ≡ some info
    → search (search_fuel locks) t resource locks [] (started t info) ≡ some b
    → Decided b (WouldDeadlock t resource locks)
found_Decided t resource locks info true e run =
    let (x, m, l) = search-Way t resource locks (search_fuel locks) [] (started t info) run in
    let held = sym (contains-started t info x) ∙ m in (info, e, (x, ground arith, ground arith, l))
found_Decided t resource locks info false e run = λ w.
    let (i, e', (x, m, other, l)) = w in
    let same : i ≡ info = ground (arith, e, e') in
    let m' : Set.contains x info.holders ≡ true =
      subst (λ (z : LockInfo). Set.contains x z.holders ≡ true) same m in
    search-Closed t resource locks (search_fuel locks) [] (started t info) run
      (start-Closed t resource locks (started t info)) x
      (let c = contains-started t info x in ground arith) l

-- The deadlock check always ends, and decides exactly whether a chain of waiting transactions
-- leads from another holder of the resource back to the transaction, where a request for the
-- resource itself does not count as waiting.
pub would_cause_deadlock-Decided :
    (t : ℕ) (resource : String) (locks : Map String LockInfo)
    → (b : Bool) × (would_cause_deadlock t resource locks ≡ some b)
      × Decided b (WouldDeadlock t resource locks)
would_cause_deadlock-Decided t resource locks = elim (Option-cases (Map.lookup resource locks)) [
  | inl e ↦ (
    false,
    unfold would_cause_deadlock in rw (e, would_cause_deadlock),
    λ w. absurd (clash w.0 (sym e ∙ w.1)),
  )
  | inr (info, e) ↦
      let (all, few) = found-holders resource info locks e in
      let (b, run) =
        search-ends t resource locks (search_fuel locks) [] (started t info)
          (λ x m. all x (let c = sym (contains-started t info x) ∙ m in ground arith))
          (start-fuel t info locks few) in
      (
        b,
        unfold would_cause_deadlock in rw (e, would_cause_deadlock) run,
        found_Decided t resource locks info b e run,
      )
]
  where
    clash : (info : LockInfo) → none ≢ some info
    clash info e = cc

-- the transaction waits for no resource but the given one
abbrev pub WaitsOnlyFor : ℕ → String → Map String LockInfo → Type 0
WaitsOnlyFor t resource [] = Unit
WaitsOnlyFor t resource ((res, info) ∷ locks) =
    (waits t info.waiting ≡ true → res ≡ resource) × WaitsOnlyFor t resource locks

none_awaited :
    (t u : ℕ) (resource : String) (locks : Map String LockInfo)
    → WaitsOnlyFor t resource locks
    → awaited resource t u locks ≡ false
none_awaited t u resource [] w = refl
none_awaited t u resource ((res, info) ∷ locks) (only, w) =
    let rest = none_awaited t u resource locks w in
    elim (Bool-cases (waits t info.waiting)) [
      | inl e ↦ let same = only e in rw (e, same, ==_refl resource, rest)
      | inr e ↦ rw (e, rest) (ground arith)
    ]

not_decided : (v : Bool) (P : Type 0) → Decided v P → (P → ⊥) → v ≡ false
not_decided true P p out = absurd (out p)
not_decided false P p out = refl

one_of_two : (a b h : ℕ) → Set.contains h (a ∷ b ∷ []) ≡ true → (h == b) ≡ false → h ≡ a
unfolding Set.contains
one_of_two a b h m other = ground arith

-- two readers, the first of which is queued to write
abbrev pub contested : ℕ → ℕ → List (ℕ × LockMode) → LockInfo
contested a b queue = record { mode = read; holders = a ∷ b ∷ []; waiting = (a, write) ∷ queue }

-- Two transactions that read a resource and both want to write it wait for one another, and the
-- deadlock check does not see it: when `a` is queued for the resource, and for nothing else, the
-- request of `b` is not refused, although neither request can be granted while the other reads.
pub upgrade_undetected :
    (a b : ℕ) (resource : String) (locks : Map String LockInfo) (queue : List (ℕ × LockMode))
    → (a == b) ≡ false
    → Map.lookup resource locks ≡ some (contested a b queue)
    → WaitsOnlyFor a resource locks
    → (would_cause_deadlock b resource locks ≡ some false)
      × (can_grant (lock_or_new (Map.lookup resource locks)) write a ≡ false)
      × (can_grant (lock_or_new (Map.lookup resource locks)) write b ≡ false)
upgrade_undetected a b resource locks queue apart found only = (
  (let (v, run, d) = would_cause_deadlock-Decided b resource locks in
      run ∙ ap some (not_decided v (WouldDeadlock b resource locks) d no_cycle)),
  unfold can_grant Set.contains in rw found (ground (arith, ==_refl a)),
  unfold can_grant Set.contains in rw found (ground (arith, ==_refl b)),
)
  where
    stuck : (h : ℕ) → (h ≡ a) → Leads resource locks b h → ⊥
    stuck h e (arrived e') =
        let same : a ≡ b = sym e ∙ e' in let t = ==_refl b in absurd (ground arith)
    stuck h e (onward u w l) =
        let blocked = none_awaited a u resource locks only in
        let w' : awaited resource a u locks ≡ true =
          subst (λ z. awaited resource z u locks ≡ true) e w in
        cc

    no_cycle : WouldDeadlock b resource locks → ⊥
    no_cycle w =
        let (i, found', (h, m, other, l)) = w in
        let same : i ≡ contested a b queue = ground (arith, found, found') in
        let here : Set.contains h (a ∷ b ∷ []) ≡ true =
          subst (λ (z : LockInfo). Set.contains h z.holders ≡ true) same m in
        stuck h (one_of_two a b h here other) l
