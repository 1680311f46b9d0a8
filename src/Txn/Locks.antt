-- ===== src/Txn/Locks.antt =====
-- transaction.rs: the lock table. The `VecDeque` of a resource's requests is a list with its
-- front at the head.
use maharit_db.Base.{
  ℕ, zero, suc, ◌+◌, ◌*◌, String, Bool, true, false, not, ◌||◌, Option, none, some, List, [], ◌∷◌,
  ◌++◌, map, if◌then◌else◌, length, retain,
}
use maharit_db.Base.Eq.{◌==◌, nat_eq, string_eq}
use maharit_db.Base.Map
use maharit_db.Base.Map.{Map}
use maharit_db.Base.Set
use maharit_db.Txn.{
  TransactionManager, LockInfo, LockMode, read, write, Result, returned, refused, deadlock,
  lock_timeout, get_transaction, put_transaction,
}

abbrev pub new_lock : LockInfo
new_lock = record { mode = read; holders = []; waiting = [] }

abbrev pub is_write : LockMode → Bool
is_write read = false
is_write write = true

abbrev pub none_left : List ℕ → Bool
none_left [] = true
none_left (h ∷ hs) = false

abbrev pub single : List ℕ → Bool
single [] = false
single (h ∷ hs) = none_left hs

-- Readers share a lock; every other pair of modes excludes one another.
abbrev pub compatible : LockMode → LockMode → Bool
compatible read read = true
compatible read write = false
compatible write _ = false

unfoldable pub can_grant : LockInfo → LockMode → ℕ → Bool
can_grant info mode tx_id =
    if none_left info.holders
    then true
    else if Set.contains tx_id info.holders
    then not (is_write mode) || single info.holders
    else compatible info.mode mode

-- what `acquire_lock` writes when it grants the lock
unfoldable pub granted : LockInfo → LockMode → ℕ → LockInfo
granted info mode tx_id = record info {
  mode = if is_write mode || none_left info.holders then mode else info.mode;
  holders = Set.insert tx_id info.holders;
}

abbrev pub waits : ℕ → List (ℕ × LockMode) → Bool
waits tx_id queue = Set.contains tx_id (map (λ (w : ℕ × LockMode). w.0) queue)

-- a request joins the queue once
unfoldable pub queued : LockInfo → LockMode → ℕ → LockInfo
queued info mode tx_id =
    if waits tx_id info.waiting
    then info
    else record info { waiting = info.waiting ++ (tx_id, mode) ∷ [] }

-- `waiting.retain(|(id, _, _)| *id != tx_id)`
unfoldable pub unqueued : LockInfo → ℕ → LockInfo
unqueued info tx_id = record info {
  waiting = retain (λ (w : ℕ × LockMode). not (w.0 == tx_id)) info.waiting;
}

-- if no holder is left, the first request in the queue is granted
unfoldable pub handed_on : LockMode → List ℕ → List (ℕ × LockMode) → LockInfo
handed_on mode [] [] = record { mode = mode; holders = []; waiting = [] }
handed_on mode [] ((next_tx, next_mode) ∷ rest) = record {
  mode = next_mode;
  holders = Set.insert next_tx [];
  waiting = rest;
}
handed_on mode (h ∷ hs) waiting = record { mode = mode; holders = h ∷ hs; waiting = waiting }

-- a holder goes
unfoldable pub released : LockInfo → ℕ → LockInfo
unfolding handed_on
released info tx_id = handed_on info.mode (Set.remove tx_id info.holders) info.waiting

-- `for holder in &info.holders { if !visited.contains(holder) { stack.push(*holder) } }`
unfoldable pub push_unvisited : List ℕ → List ℕ → List ℕ → List ℕ
push_unvisited visited [] stack = stack
push_unvisited visited (h ∷ hs) stack =
    push_unvisited visited hs (if Set.contains h visited then stack else h ∷ stack)

-- the loop over the lock table: whom does the transaction wait for?
unfoldable pub push_waited : String → ℕ → List ℕ → Map String LockInfo → List ℕ → List ℕ
unfolding push_unvisited
push_waited resource current visited [] stack = stack
push_waited resource current visited ((res, info) ∷ locks) stack =
    push_waited resource current visited locks (
      if res == resource
      then stack
      else if waits current info.waiting
      then push_unvisited visited info.holders stack
      else stack)

-- `while let Some(current) = stack.pop()`; `none` is out of fuel
unfoldable pub search : ℕ → ℕ → String → Map String LockInfo → List ℕ → List ℕ → Option Bool
unfolding push_waited
search fuel tx_id resource locks visited [] = some false
search zero tx_id resource locks visited (current ∷ stack) = none
search (suc fuel) tx_id resource locks visited (current ∷ stack) =
    let again = search fuel tx_id resource locks visited stack in
    let visited' = Set.insert current visited in
    let onward =
      search fuel tx_id resource locks visited'
        (push_waited resource current visited' locks stack) in
    if current == tx_id then some true else if Set.contains current visited then again else onward

abbrev pub total_holders : Map String LockInfo → ℕ
total_holders [] = 0
total_holders ((res, info) ∷ locks) = length info.holders + total_holders locks

-- enough for the loop, which visits each holder once and then pushes at most all of them
abbrev pub search_fuel : Map String LockInfo → ℕ
search_fuel locks = total_holders locks + total_holders locks * total_holders locks

-- `stack.push` for the holders of the resource other than the transaction
unfoldable pub others : ℕ → List ℕ → List ℕ → List ℕ
others tx_id [] stack = stack
others tx_id (h ∷ hs) stack = others tx_id hs (if h == tx_id then stack else h ∷ stack)

unfoldable pub would_cause_deadlock : ℕ → String → Map String LockInfo → Option Bool
unfolding others search
would_cause_deadlock tx_id resource locks = elim (Map.lookup resource locks) [
  | none ↦ some false
  | some info ↦ search (search_fuel locks) tx_id resource locks [] (others tx_id info.holders [])
]

abbrev pub lock_or_new : Option LockInfo → LockInfo
lock_or_new none = new_lock
lock_or_new (some info) = info

-- One round of the loop of `acquire_lock`.
pub data Attempt : Type 0 where
  got_lock : Attempt
  found_deadlock : Attempt
  must_wait : Attempt

-- the round once no deadlock has been found
unfoldable pub granted_or_queued :
    Map String LockInfo → ℕ → String → LockMode → Attempt × Map String LockInfo
unfolding can_grant granted queued
granted_or_queued locks tx_id resource mode =
    let info = lock_or_new (Map.lookup resource locks) in
    if can_grant info mode tx_id
    then (got_lock, Map.insert resource (granted info mode tx_id) locks)
    else (must_wait, Map.insert resource (queued info mode tx_id) locks)

unfoldable pub lock_attempt :
    Map String LockInfo → ℕ → String → LockMode → Option (Attempt × Map String LockInfo)
unfolding would_cause_deadlock granted_or_queued
lock_attempt locks tx_id resource mode = elim (would_cause_deadlock tx_id resource locks) [
  | none ↦ none
  | some true ↦ some (found_deadlock, locks)
  | some false ↦ some (granted_or_queued locks tx_id resource mode)
]

-- a holder of the resource goes, if the resource is known
unfoldable pub release_in : ℕ → String → Map String LockInfo → Map String LockInfo
unfolding released
release_in tx_id resource locks = elim (Map.lookup resource locks) [
  | none ↦ locks
  | some info ↦ Map.insert resource (released info tx_id) locks
]

-- `release_all_locks`
unfoldable pub release_each : ℕ → List String → Map String LockInfo → Map String LockInfo
unfolding release_in
release_each tx_id [] locks = locks
release_each tx_id (resource ∷ rest) locks =
    release_each tx_id rest (release_in tx_id resource locks)

-- a request leaves the queue, if the resource is known
unfoldable pub unqueue_in : ℕ → String → Map String LockInfo → Map String LockInfo
unfolding unqueued
unqueue_in tx_id resource locks = elim (Map.lookup resource locks) [
  | none ↦ locks
  | some info ↦ Map.insert resource (unqueued info tx_id) locks
]

module _ {V : Type 0} where
  -- `tx.held_locks.insert(resource)`, if the transaction is there
  unfoldable pub note_held : TransactionManager V → ℕ → String → TransactionManager V
  unfolding get_transaction
  note_held m tx_id resource = elim (get_transaction m tx_id) [
    | refused _ ↦ m
    | returned tx ↦
        put_transaction m tx_id (record tx { held_locks = Set.insert resource tx.held_locks })
  ]

  unfoldable pub timed_out : TransactionManager V → ℕ → String → TransactionManager V
  unfolding unqueue_in
  timed_out m tx_id resource = record m { locks = unqueue_in tx_id resource m.locks }

  -- The loop of `acquire_lock`. Between two rounds it sleeps, and other transactions change the
  -- manager: one function for each sleep before the timeout.
  unfoldable pub acquire_lock :
      List (TransactionManager V → TransactionManager V)
      → TransactionManager V
      → ℕ
      → String
      → LockMode
      → Option (Result Unit × TransactionManager V)
  unfolding lock_attempt note_held timed_out
  acquire_lock [] m tx_id resource mode = elim (lock_attempt m.locks tx_id resource mode) [
    | none ↦ none
    | some (got_lock, locks) ↦
        some (returned tt, note_held (record m { locks = locks }) tx_id resource)
    | some (found_deadlock, locks) ↦ some (refused deadlock, m)
    | some (must_wait, locks) ↦
        some
          (refused (lock_timeout resource), timed_out (record m { locks = locks }) tx_id resource)
  ]
  acquire_lock (meanwhile ∷ sleeps) m tx_id resource mode =
      elim (lock_attempt m.locks tx_id resource mode) [
        | none ↦ none
        | some (got_lock, locks) ↦
            some (returned tt, note_held (record m { locks = locks }) tx_id resource)
        | some (found_deadlock, locks) ↦ some (refused deadlock, m)
        | some (must_wait, locks) ↦
            acquire_lock sleeps (meanwhile (record m { locks = locks })) tx_id resource mode
      ]

  unfoldable pub release_lock : TransactionManager V → ℕ → String → TransactionManager V
  unfolding release_in get_transaction
  release_lock m tx_id resource =
      let m' = record m { locks = release_in tx_id resource m.locks } in
      elim (get_transaction m' tx_id) [
        | refused _ ↦ m'
        | returned tx ↦
            put_transaction m' tx_id (record tx { held_locks = Set.remove resource tx.held_locks })
      ]
