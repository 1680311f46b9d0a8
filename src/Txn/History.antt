-- ===== src/Txn/History.antt =====
-- transaction.rs: the lock table after any calls of the manager, by any transactions and in any
-- order.
use mathlib.Core.Path.{subst}
use maharit_db.Base.{
  ℕ, String, Bool, false, ◌&&◌, Option, none, some, List, ◌≡◌, refl, reverse, sym, arith,
}
use maharit_db.Base.Eq.{◌==◌, nat_eq, string_eq}
use maharit_db.Base.Map.{Map}
use maharit_db.Graph.{Graph, ◌>>=◌}
use maharit_db.Txn.{
  TransactionManager, LockInfo, LockMode, write, Result, UndoRecord, begin_with_options,
  record_undo, record_one, Transaction, TransactionState, returned, refused, active, committed,
  rolled_back, get_transaction,
}
use maharit_db.Txn.Locks.{
  release_in, Attempt, got_lock, lock_attempt, note_held, timed_out, release_lock,
}
use maharit_db.Txn.Undo.{
  commit, commit_from, commit_found, rollback_backend, rollback_from, rollback_found, rolled,
  undo_each,
}
use maharit_db.Txn.Held.{
  HeldAlone, lock_attempt-Alone, write_granted-Alone, release_in-Alone, unqueue_in-Alone,
  release_each-Alone,
}

module _ {V : Type 0} where
  -- One step of one thread. `acquire_lock` is a sequence of its rounds, with the steps of others
  -- between them.
  pub data Step (m : TransactionManager V) : TransactionManager V → Type 0 where
    start : (read_only : Bool) → Step m (begin_with_options m read_only).1
    round :
        (t : ℕ) (resource : String) (mode : LockMode) (a : Attempt) (locks : Map String LockInfo)
        → lock_attempt m.locks t resource mode ≡ some (a, locks)
        → Step m (record m { locks = locks })
    note : (t : ℕ) (resource : String) → Step m (note_held m t resource)
    time_out : (t : ℕ) (resource : String) → Step m (timed_out m t resource)
    release : (t : ℕ) (resource : String) → Step m (release_lock m t resource)
    log : (t : ℕ) (records : List (UndoRecord V)) → Step m (record_undo m t records).1
    log_one : (t : ℕ) (undo : UndoRecord V) → Step m (record_one m t undo).1
    end_commit : (t : ℕ) → Step m (commit m t).1
    end_rollback :
        (t : ℕ) (g g' : Graph V) (r : Result (List ℕ)) (m' : TransactionManager V)
        → rollback_backend m t g ≡ some (r, m', g')
        → Step m m'

  start-locks : (m : TransactionManager V) (b : Bool) → (begin_with_options m b).1.locks ≡ m.locks
  unfolding begin_with_options
  start-locks m b = refl

  note-locks : (m : TransactionManager V) (t : ℕ) (r : String) → (note_held m t r).locks ≡ m.locks
  unfolding note_held
  note-locks m t r = ground arith

  log-locks :
      (m : TransactionManager V) (t : ℕ) (rs : List (UndoRecord V))
      → (record_undo m t rs).1.locks ≡ m.locks
  unfolding record_undo
  log-locks m t rs = ground arith

  log_one-locks :
      (m : TransactionManager V) (t : ℕ) (r : UndoRecord V) → (record_one m t r).1.locks ≡ m.locks
  unfolding record_one
  log_one-locks m t r = ground arith

  release-locks :
      (m : TransactionManager V) (t : ℕ) (r : String)
      → (release_lock m t r).locks ≡ release_in t r m.locks
  unfolding release_lock
  release-locks m t r = ground arith

  commit_from-Alone :
      (m : TransactionManager V) (t u : ℕ) (tx : Transaction V) (s : TransactionState)
      (resource : String)
      → (t == u) ≡ false
      → HeldAlone t resource m.locks
      → HeldAlone t resource (commit_from m u tx s).1.locks
  unfolding commit_from
  commit_from-Alone m t u tx active resource other held =
      release_each-Alone t resource u tx.held_locks m.locks other held
  commit_from-Alone m t u tx committed resource other held = held
  commit_from-Alone m t u tx rolled_back resource other held = held

  commit_found-Alone :
      (m : TransactionManager V) (t u : ℕ) (r : Result (Transaction V)) (resource : String)
      → (t == u) ≡ false
      → HeldAlone t resource m.locks
      → HeldAlone t resource (commit_found m u r).1.locks
  unfolding commit_found
  commit_found-Alone m t u (refused e) resource other held = held
  commit_found-Alone m t u (returned tx) resource other held =
      commit_from-Alone m t u tx tx.state resource other held

  -- if a rollback does not panic, its manager
  abbrev Ends : ℕ → String → Option (Result (List ℕ) × TransactionManager V × Graph V) → Type 0
  Ends t resource none = Unit
  Ends t resource (some (r, m, g)) = HeldAlone t resource m.locks

  rollback_from-Alone :
      (m : TransactionManager V) (t u : ℕ) (tx : Transaction V) (s : TransactionState) (g : Graph V)
      (resource : String)
      → (t == u) ≡ false
      → HeldAlone t resource m.locks
      → Ends t resource (rollback_from m u tx s g)
  unfolding rollback_from
  rollback_from-Alone m t u tx active g resource other held = go (undo_each (reverse tx.undo_log) g)
    where
      go : (o : Option (Graph V)) → Ends t resource (o >>= (λ g'. some (rolled m u tx g')))
      go none = tt
      go (some g') = release_each-Alone t resource u tx.held_locks m.locks other held
  rollback_from-Alone m t u tx committed g resource other held = held
  rollback_from-Alone m t u tx rolled_back g resource other held = held

  rollback_found-Alone :
      (m : TransactionManager V) (t u : ℕ) (r : Result (Transaction V)) (g : Graph V)
      (resource : String)
      → (t == u) ≡ false
      → HeldAlone t resource m.locks
      → Ends t resource (rollback_found m u r g)
  unfolding rollback_found
  rollback_found-Alone m t u (refused e) g resource other held = held
  rollback_found-Alone m t u (returned tx) g resource other held =
      rollback_from-Alone m t u tx tx.state g resource other held

  -- A step that is not the transaction letting the resource go: its own release of the resource,
  -- its commit or its rollback.
  abbrev pub Keeps : ℕ → String → {m m' : TransactionManager V} → Step m m' → Type 0
  Keeps t resource (start b) = Unit
  Keeps t resource (round u r mode a locks h) = Unit
  Keeps t resource (note u r) = Unit
  Keeps t resource (time_out u r) = Unit
  Keeps t resource (release u r) = ((t == u) && (r == resource)) ≡ false
  Keeps t resource (log u rs) = Unit
  Keeps t resource (log_one u r) = Unit
  Keeps t resource (end_commit u) = (t == u) ≡ false
  Keeps t resource (end_rollback u g g' r m' h) = (t == u) ≡ false

  -- any steps but those
  pub data Keeping (t : ℕ) (resource : String) (m : TransactionManager V)
      : TransactionManager V → Type 0 where
    here : Keeping t resource m m
    next :
        {m' m'' : TransactionManager V}
        → Keeping t resource m m'
        → (st : Step m' m'') → Keeps t resource st
        → Keeping t resource m m''

  Step-Alone :
      {m m' : TransactionManager V} (t : ℕ) (resource : String) (st : Step m m')
      → Keeps t resource st
      → HeldAlone t resource m.locks
      → HeldAlone t resource m'.locks
  Step-Alone {m} t resource (start b) k held =
      subst (HeldAlone t resource) (sym (start-locks m b)) held
  Step-Alone {m} t resource (round u r mode a locks h) k held =
      lock_attempt-Alone t resource r u mode a m.locks locks h held
  Step-Alone {m} t resource (note u r) k held =
      subst (HeldAlone t resource) (sym (note-locks m u r)) held
  Step-Alone {m} t resource (time_out u r) k held =
      unfold timed_out in unqueue_in-Alone t resource u r m.locks held
  Step-Alone {m} t resource (release u r) k held =
      subst (HeldAlone t resource) (sym (release-locks m u r))
        (release_in-Alone t resource u r m.locks k held)
  Step-Alone {m} t resource (log u rs) k held =
      subst (HeldAlone t resource) (sym (log-locks m u rs)) held
  Step-Alone {m} t resource (log_one u r) k held =
      subst (HeldAlone t resource) (sym (log_one-locks m u r)) held
  Step-Alone {m} t resource (end_commit u) k held =
      unfold commit in commit_found-Alone m t u (get_transaction m u) resource k held
  Step-Alone {m} t resource (end_rollback u g g' r m' h) k held = subst (Ends t resource) h (
      unfold rollback_backend in rollback_found-Alone m t u (get_transaction m u) g resource k held)

  steps-Alone :
      (t : ℕ) (resource : String) (m : TransactionManager V) {m' : TransactionManager V}
      → Keeping t resource m m'
      → HeldAlone t resource m.locks
      → HeldAlone t resource m'.locks
  steps-Alone t resource m here held = held
  steps-Alone t resource m (next r st k) held =
      Step-Alone t resource st k (steps-Alone t resource m r held)

  -- A round of `acquire_lock` that grants a transaction a resource for writing leaves it as the
  -- resource's only holder, in write mode, and so do any steps that follow, by any transactions
  -- and with the rounds of `acquire_lock` in any order, until the transaction itself releases the
  -- resource, commits or rolls back.
  pub write_lock-alone :
      (m m' : TransactionManager V) (t : ℕ) (resource : String) (locks : Map String LockInfo)
      → lock_attempt m.locks t resource write ≡ some (got_lock, locks)
      → Keeping t resource (record m { locks = locks }) m'
      → HeldAlone t resource m'.locks
  write_lock-alone m m' t resource locks h r =
      steps-Alone t resource (record m { locks = locks }) r
        (write_granted-Alone t resource m.locks locks h)
