-- ===== src/Txn/Calls.antt =====
-- transaction.rs: the calls that change the graph within a transaction. Each gives `none` where
-- the graph panics.
use maharit_db.Base.{ℕ, String, Bool, Option, none, some, List, [], ◌∷◌, ◌++◌, if◌then◌else◌}
use maharit_db.Base.Eq.{nat_eq, string_eq}
use maharit_db.Graph
use maharit_db.Graph.{Graph, ◌>>=◌, get_node, is_filled}
use maharit_db.Graph.Deletion
use maharit_db.Graph.Labels.{set_node_property, get_node_property}
use maharit_db.Txn.{
  TransactionManager, Transaction, already_finished, is_read_only, Result, returned, refused,
  active, write, UndoRecord, create_node as node_made, delete_node as node_gone,
  set_property as property_set, get_transaction, put_transaction,
}
use maharit_db.Txn.Locks.{acquire_lock}
use maharit_db.Txn.Undo.{node_resource}

module _ {V : Type 0} where
  -- the two tests with which each call begins
  unfoldable pub may_write : TransactionManager V → ℕ → Result (Transaction V)
  unfolding get_transaction
  may_write m tx_id = elim (get_transaction m tx_id) [
    | refused e ↦ refused e
    | returned tx ↦
        if tx.read_only
        then refused (is_read_only tx_id)
        else elim tx.state [ active ↦ returned tx | _ ↦ refused (already_finished tx_id) ]
  ]

  abbrev pub pushed_undo :
      TransactionManager V → ℕ → Transaction V → List (UndoRecord V) → TransactionManager V
  pushed_undo m tx_id tx records =
      put_transaction m tx_id (record tx { undo_log = tx.undo_log ++ records })

  unfoldable pub create_node :
      TransactionManager V
      → ℕ
      → Graph V
      → String
      → Option (Result ℕ × TransactionManager V × Graph V)
  unfolding may_write
  create_node m tx_id g label = elim (may_write m tx_id) [
    | refused e ↦ some (refused e, m, g)
    | returned tx ↦ do
      (node_id, g') ← Graph.create_node g label
      some (returned node_id, pushed_undo m tx_id tx (node_made node_id ∷ []), g')
  ]

  -- The graph is not shared while the lock is awaited: the caller holds it.
  unfoldable pub delete_node :
      List (TransactionManager V → TransactionManager V)
      → TransactionManager V
      → ℕ
      → Graph V
      → ℕ
      → Option (Result Bool × TransactionManager V × Graph V)
  unfolding may_write acquire_lock node_resource get_transaction get_node
  delete_node sleeps m tx_id g node_id = elim (may_write m tx_id) [
    | refused e ↦ some (refused e, m, g)
    | returned _ ↦ do
      (locked, m') ← acquire_lock sleeps m tx_id (node_resource node_id) write
      elim locked [
        | refused e ↦ some (refused e, m', g)
        | returned _ ↦ elim (get_transaction m' tx_id) [
          | refused e ↦ some (refused e, m', g)
          | returned tx ↦ do
            (gone, g') ← Deletion.delete_node g node_id
            let undo : List (UndoRecord V) = elim (get_node g node_id) [
              | none ↦ []
              | some node ↦ node_gone node_id node.labels node.properties ∷ []
            ]
            some (returned (is_filled gone), pushed_undo m' tx_id tx undo, g')
        ]
      ]
  ]

  unfoldable pub set_property :
      List (TransactionManager V → TransactionManager V)
      → TransactionManager V
      → ℕ
      → Graph V
      → ℕ
      → String
      → V
      → Option (Result Unit × TransactionManager V × Graph V)
  unfolding may_write acquire_lock node_resource get_transaction set_node_property get_node_property
  set_property sleeps m tx_id g node_id key value = elim (may_write m tx_id) [
    | refused e ↦ some (refused e, m, g)
    | returned _ ↦ do
      (locked, m') ← acquire_lock sleeps m tx_id (node_resource node_id) write
      elim locked [
        | refused e ↦ some (refused e, m', g)
        | returned _ ↦ elim (get_transaction m' tx_id) [
          | refused e ↦ some (refused e, m', g)
          | returned tx ↦
              let undo = property_set node_id key (get_node_property g node_id key) in
              some (
                returned tt,
                pushed_undo m' tx_id tx (undo ∷ []),
                set_node_property g node_id key value,
              )
        ]
      ]
  ]
