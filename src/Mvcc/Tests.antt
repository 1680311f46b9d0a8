-- ===== src/Mvcc/Tests.antt =====
-- mvcc.rs: the theorems at concrete managers.
use mathlib.Core.Path.{subst}
use maharit_db.Base.{ℕ, Bool, true, false, none, some, List, [], ◌∷◌, ◌≡◌, refl, arith}
use maharit_db.Base.Eq.{◌==◌, nat_eq}
use maharit_db.Base.Map
use maharit_db.Base.Set
use maharit_db.Mvcc.{
  MvccManager, NodeVersion, init, begin_transaction, begin_snapshot, read_node, write_node,
  delete_node, commit, rollback,
}
use maharit_db.Mvcc.Chain.{newest_first}
use maharit_db.Mvcc.Gc.{gc}
use maharit_db.Mvcc.Gc.Collect.{read_now-gc}
use maharit_db.Mvcc.Gc.Loss.{gc_loses_committed}
use maharit_db.Mvcc.Invariant.{IsValid, begin, write, delete, end_commit, Reach, here, next}
use maharit_db.Mvcc.Isolation.{snapshot_stable}
use maharit_db.Mvcc.Reads.{running_unseen}
use maharit_db.Mvcc.Committed.{Sparing, here, next, committed_write_visible}
use maharit_db.Mvcc.Sound.{
  IsSound, Calls, none_yet, further, begins, writes, commits, collects, Calls-IsSound, init-IsSound,
}
use maharit_db.Mvcc.Rollback.{Change, put, drop, apply_changes, rollback_restores}
use maharit_db.Mvcc.Seen.{read_now}
use maharit_db.Mvcc.Steps.{Reach-IsValid, init-IsValid}

abbrev first_version : NodeVersion ℕ
first_version = record {
  txn_id = 1;
  created_at = 1;
  deleted_at = none;
  deleter_txn = none;
  node_data = 41;
}

-- node 7 has been written and committed
abbrev stored : MvccManager ℕ
stored = record {
  versioned_nodes = (7, record { node_id = 7; versions = first_version ∷ [] }) ∷ [];
  clock = 2;
  active_transactions = [];
  next_txn_id = 2;
}

stored-made : commit (write_node (begin_transaction init).1 7 41 1) 1 ≡ stored
unfolding commit write_node begin_transaction init Map.insert Set.remove Map.lookup Set.insert
stored-made = refl

stored-Reach : Reach {D = ℕ} init (commit (write_node (begin_transaction init).1 7 41 1) 1)
unfolding init begin_transaction Set.insert Set.contains write_node
stored-Reach =
    next (next (next here (begin (omega arith))) (write 7 1 41 refl (omega arith) (omega arith)))
      (end_commit 1)

stored-IsValid : IsValid stored
stored-IsValid = subst IsValid stored-made (Reach-IsValid stored-Reach init-IsValid)

-- a second transaction is about to overwrite node 7
abbrev busy : MvccManager ℕ
busy = record stored { active_transactions = 2 ∷ []; next_txn_id = 3 }

busy-made : (begin_transaction stored).1 ≡ busy
unfolding begin_transaction Set.insert
busy-made = refl

busy-IsValid : IsValid busy
busy-IsValid =
    subst IsValid busy-made (Reach-IsValid (next here (begin (omega arith))) stored-IsValid)

-- it overwrites and deletes node 7 and commits, after the snapshot
busy-Reach :
    Reach
      (begin_snapshot busy).1
      (commit (delete_node (write_node (begin_snapshot busy).1 7 42 2) 7 2) 2)
unfolding begin_snapshot write_node Set.contains
busy-Reach =
    next
      (next (next here (write 7 2 42 refl (omega arith) (omega arith)))
        (delete 7 2 refl (omega arith) (omega arith)))
      (end_commit 2)

busy_runs : Set.contains 2 busy.active_transactions ≡ true
unfolding Set.contains
busy_runs = refl

snapshot_stable_example :
    read_node
      (commit (delete_node (write_node (begin_snapshot busy).1 7 42 2) 7 2) 2)
      7
      (begin_snapshot busy).0
    ≡ read_node (begin_snapshot busy).1 7 (begin_snapshot busy).0
snapshot_stable_example =
    snapshot_stable busy (commit (delete_node (write_node (begin_snapshot busy).1 7 42 2) 7 2) 2) 7
      busy-IsValid (omega arith) busy-Reach

-- after its write to node 7, transaction 2 writes node 8 and deletes it, another transaction
-- begins, and 2 commits
abbrev finished : MvccManager ℕ
finished =
    commit (begin_transaction (delete_node (write_node (write_node busy 7 42 2) 8 1 2) 8 2)).1 2

abbrev same : ℕ → ℕ → Bool
same a b = a == b

eight : same 8 7 ≡ false
eight = refl

finished-Sparing : Sparing 7 2 (write_node busy 7 42 2) finished
unfolding write_node delete_node Set.contains Map.lookup Map.insert
finished-Sparing =
    next
      (next
        (next (next here (write 8 2 1 refl (omega arith) (omega arith)) eight)
          (delete 8 2 refl (omega arith) (omega arith)) eight)
        (begin (omega arith)) tt)
      (end_commit 2) tt

finished-ended : Set.contains 2 finished.active_transactions ≡ false
unfolding commit begin_transaction write_node delete_node Set.contains Set.insert Set.remove
    Map.lookup Map.insert
finished-ended = refl

committed_write_visible_example : read_now finished 7 ≡ some 42
committed_write_visible_example =
    committed_write_visible busy finished 7 2 42 (omega arith) finished-Sparing finished-ended

-- a transaction writes and commits, and the versions are collected
init-Calls : Calls {D = ℕ} init (gc (commit (write_node (begin_transaction init).1 7 41 1) 1)).0
unfolding init begin_transaction Set.insert Set.contains write_node
init-Calls =
    further
      (further
        (further (further none_yet (begins (omega arith))) (writes 7 1 41 refl (omega arith)))
        (commits 1))
      collects

Calls-IsSound_example :
    IsSound {D = ℕ} (gc (commit (write_node (begin_transaction init).1 7 41 1) 1)).0
Calls-IsSound_example = Calls-IsSound init-Calls init-IsSound

running_unseen_example :
    (read_now (write_node busy 7 42 2) 7 ≡ read_now busy 7)
    × (read_now (delete_node busy 7 2) 7 ≡ read_now busy 7)
running_unseen_example = running_unseen busy 7 2 42 7 busy-IsValid busy_runs (omega arith)

abbrev changes : List (Change ℕ)
changes = put 7 42 ∷ drop 7 ∷ put 8 1 ∷ []

rollback_restores_example :
    read_node
      (rollback (apply_changes 2 (begin_transaction stored).1 changes) 2)
      7
      (record { snapshot_id = 9; active_txns = [] })
    ≡ read_node stored 7 (record { snapshot_id = 9; active_txns = [] })
rollback_restores_example =
    rollback_restores stored changes 7 (record { snapshot_id = 9; active_txns = [] }) stored-IsValid
      (omega arith) (omega arith)

read_now-gc_example : read_now (gc stored).0 7 ≡ read_now stored 7
read_now-gc_example = read_now-gc stored 7 stored-IsValid refl

chain_at_7 : newest_first 7 stored ≡ first_version ∷ []
unfolding newest_first Map.lookup
chain_at_7 = refl

gc_loses_committed_example :
    (read_now stored 7 ≡ some 41)
    × (read_now (rollback (gc (write_node (begin_transaction stored).1 7 42 2)).0 2) 7 ≡ none)
gc_loses_committed_example =
    gc_loses_committed stored 7 42 first_version stored-IsValid refl chain_at_7 refl (omega arith)
