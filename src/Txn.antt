-- ===== src/Txn.antt =====
-- crates/maharit-storage/src/transaction.rs: the transaction manager. The maps behind the
-- `RwLock`s are fields of one state that a method takes and returns. The instants at which a
-- transaction began and a request was queued are left out: the manager never reads the second,
-- and the first only to report an age.
pub mod Locks
pub mod Undo
pub mod Calls
pub mod UndoView
pub mod UndoRefines
pub mod Held
pub mod History
pub mod WaitGraph
mod WaitClosed
mod WaitFuel
pub mod Deadlock
pub mod StaleRequest
mod Tests
use maharit_db.Base.{
  ℕ, ◌+◌, ◌%◌, ◌^◌, String, Bool, true, false, Option, none, some, List, [], ◌∷◌, ◌++◌, length,
}
use maharit_db.Base.Eq.{◌==◌, nat_eq, string_eq}
use maharit_db.Base.Map
use maharit_db.Base.Map.{Map}
use maharit_db.Base.Set

pub data TransactionError : Type 0 where
  not_found : ℕ → TransactionError
  already_finished : ℕ → TransactionError
  lock_timeout : String → TransactionError
  deadlock : TransactionError
  write_conflict : String → TransactionError
  is_read_only : ℕ → TransactionError

pub data Result (A : Type 0) : Type 0 where
  returned : A → Result A
  refused : TransactionError → Result A

pub data LockMode : Type 0 where
  read : LockMode
  write : LockMode

pub data TransactionState : Type 0 where
  active : TransactionState
  committed : TransactionState
  rolled_back : TransactionState

abbrev pub is_active_state : TransactionState → Bool
is_active_state active = true
is_active_state committed = false
is_active_state rolled_back = false

pub data UndoRecord (V : Type 0) : Type 0 where
  create_node : ℕ → UndoRecord V
  delete_node : ℕ → List String → Map String V → UndoRecord V
  set_property : ℕ → String → Option V → UndoRecord V
  create_edge : ℕ → UndoRecord V
  delete_edge : ℕ → ℕ → ℕ → String → Map String V → UndoRecord V
  set_edge_property : ℕ → String → Option V → UndoRecord V
  add_label : ℕ → String → UndoRecord V
  remove_label : ℕ → String → UndoRecord V

pub record LockInfo : Type 0 where
  pub mode : LockMode
  pub holders : List ℕ
  pub waiting : List (ℕ × LockMode)

pub record Transaction (V : Type 0) : Type 0 where
  pub id : ℕ
  pub state : TransactionState
  pub read_only : Bool
  pub undo_log : List (UndoRecord V)
  pub held_locks : List String

pub record TransactionManager (V : Type 0) : Type 0 where
  pub next_tx_id : ℕ
  pub transactions : Map ℕ (Transaction V)
  pub locks : Map String LockInfo

module _ {V : Type 0} where
  -- `TransactionManager::new`
  unfoldable pub init : TransactionManager V
  init = record { next_tx_id = 1; transactions = []; locks = [] }

  abbrev pub new_transaction : ℕ → Bool → Transaction V
  new_transaction id read_only = record {
    id = id;
    state = active;
    read_only = read_only;
    undo_log = [];
    held_locks = [];
  }

  unfoldable pub begin_with_options : TransactionManager V → Bool → ℕ × TransactionManager V
  begin_with_options m read_only =
      let tx_id = m.next_tx_id in
      (
        tx_id,
        record m {
          next_tx_id = (m.next_tx_id + 1) % 2 ^ 64;
          transactions = Map.insert tx_id (new_transaction tx_id read_only) m.transactions;
        },
      )

  unfoldable pub begin : TransactionManager V → ℕ × TransactionManager V
  unfolding begin_with_options
  begin m = begin_with_options m false

  unfoldable pub begin_read_only : TransactionManager V → ℕ × TransactionManager V
  unfolding begin_with_options
  begin_read_only m = begin_with_options m true

  unfoldable pub get_transaction : TransactionManager V → ℕ → Result (Transaction V)
  get_transaction m tx_id = elim (Map.lookup tx_id m.transactions) [
    | none ↦ refused (not_found tx_id)
    | some tx ↦ returned tx
  ]

  -- what the holder of the transaction's mutex writes back
  abbrev pub put_transaction : TransactionManager V → ℕ → Transaction V → TransactionManager V
  put_transaction m tx_id tx = record m { transactions = Map.insert tx_id tx m.transactions }

  unfoldable pub is_active : TransactionManager V → ℕ → Bool
  unfolding get_transaction
  is_active m tx_id = elim (get_transaction m tx_id) [
    | refused _ ↦ false
    | returned tx ↦ is_active_state tx.state
  ]

  unfoldable pub record_undo :
      TransactionManager V → ℕ → List (UndoRecord V) → Result Unit × TransactionManager V
  unfolding get_transaction
  record_undo m tx_id records = elim (get_transaction m tx_id) [
    | refused e ↦ (refused e, m)
    | returned tx ↦ elim tx.state [
      | active ↦
          (returned tt, put_transaction m tx_id (record tx { undo_log = tx.undo_log ++ records }))
      | _ ↦ (refused (already_finished tx_id), m)
    ]
  ]

  -- the body of the six `record_..` methods, which differ in the record that they push
  unfoldable pub record_one :
      TransactionManager V → ℕ → UndoRecord V → Result Unit × TransactionManager V
  unfolding get_transaction
  record_one m tx_id undo = elim (get_transaction m tx_id) [
    | refused e ↦ (refused e, m)
    | returned tx ↦ elim tx.state [
      | active ↦
          (returned tt, put_transaction m tx_id (record tx { undo_log = tx.undo_log ++ undo ∷ [] }))
      | _ ↦ (returned tt, m)
    ]
  ]

  unfoldable pub record_node_created :
      TransactionManager V → ℕ → ℕ → Result Unit × TransactionManager V
  unfolding record_one
  record_node_created m tx_id node_id = record_one m tx_id (create_node node_id)

  unfoldable pub record_node_deleted :
      TransactionManager V → ℕ → ℕ → List String → Map String V → Result Unit × TransactionManager V
  unfolding record_one
  record_node_deleted m tx_id node_id labels properties =
      record_one m tx_id (delete_node node_id labels properties)

  unfoldable pub record_property_changed :
      TransactionManager V → ℕ → ℕ → String → Option V → Result Unit × TransactionManager V
  unfolding record_one
  record_property_changed m tx_id node_id key old_value =
      record_one m tx_id (set_property node_id key old_value)

  unfoldable pub record_edge_created :
      TransactionManager V → ℕ → ℕ → Result Unit × TransactionManager V
  unfolding record_one
  record_edge_created m tx_id edge_id = record_one m tx_id (create_edge edge_id)

  unfoldable pub record_edge_deleted :
      TransactionManager V
      → ℕ
      → ℕ
      → ℕ
      → ℕ
      → String
      → Map String V
      → Result Unit × TransactionManager V
  unfolding record_one
  record_edge_deleted m tx_id edge_id from to label properties =
      record_one m tx_id (delete_edge edge_id from to label properties)

  unfoldable pub record_edge_property_changed :
      TransactionManager V → ℕ → ℕ → String → Option V → Result Unit × TransactionManager V
  unfolding record_one
  record_edge_property_changed m tx_id edge_id key old_value =
      record_one m tx_id (set_edge_property edge_id key old_value)

  -- the numbers of the active transactions
  unfoldable pub list_active : Map ℕ (Transaction V) → List ℕ
  list_active [] = []
  list_active ((id, tx) ∷ rest) =
      let others = list_active rest in
      elim (is_active_state tx.state) [ true ↦ id ∷ others | false ↦ others ]

  unfoldable pub list_active_transactions : TransactionManager V → List ℕ
  unfolding list_active
  list_active_transactions m = list_active m.transactions

  unfoldable pub active_transaction_count : TransactionManager V → ℕ
  unfolding list_active
  active_transaction_count m = length (list_active m.transactions)
