-- ===== src/Txn/Undo.antt =====
-- transaction.rs: `rollback_backend`, `commit`, and the calls that change a graph within a
-- transaction. The backend is the graph of graph.rs, whose panics are `none`.
use maharit_db.Base.{
  ℕ, String, Option, none, some, List, [], ◌∷◌, ◌++◌, if◌then◌else◌, ltb, nat_beq, reverse,
}
use Prim.Native.String.{◌++◌ as ◌then_text◌}
use maharit_db.Base.Eq.{nat_eq, string_eq}
use maharit_db.Base.Decimal.{decimal}
use maharit_db.Base.Map.{Map}
use maharit_db.Graph.{Graph, Outcome, ok, err, ◌>>=◌}
use maharit_db.Graph.Edges
use maharit_db.Graph.Deletion
use maharit_db.Graph.Labels.{
  add_node_label, remove_node_label, set_node_property, remove_node_property, set_edge_property,
  remove_edge_property,
}
use maharit_db.Graph.Restore.{create_node_with_id_and_labels, create_edge_with_id}
use maharit_db.Txn.{
  TransactionManager, Transaction, TransactionState, already_finished, Result, returned, refused,
  active, committed, rolled_back, UndoRecord, create_node, delete_node, set_property, create_edge,
  delete_edge, set_edge_property as edge_property, add_label, remove_label, get_transaction,
  put_transaction,
}
use maharit_db.Txn.Locks.{release_each}

module _ {V : Type 0} where
  -- `for (key, value) in properties.iter()`. A hash map has no order: the list is walked from its
  -- end, so that an entry which another one hides is written first.
  unfoldable pub set_node_properties : Graph V → ℕ → Map String V → Graph V
  unfolding set_node_property
  set_node_properties g id [] = g
  set_node_properties g id ((key, value) ∷ properties) =
      set_node_property (set_node_properties g id properties) id key value

  unfoldable pub set_edge_properties : Graph V → ℕ → Map String V → Graph V
  unfolding set_edge_property
  set_edge_properties g id [] = g
  set_edge_properties g id ((key, value) ∷ properties) =
      set_edge_property (set_edge_properties g id properties) id key value

  -- `restore_edge(..).is_ok()` and what follows
  abbrev pub edge_restored : ℕ → Map String V → Outcome ℕ → Graph V → Graph V
  edge_restored id properties (ok _) g = set_edge_properties g id properties
  edge_restored id properties (err _) g = g

  -- one round of the loop of `rollback_backend`
  unfoldable pub undo_one : UndoRecord V → Graph V → Option (Graph V)
  unfolding set_node_properties set_edge_properties remove_node_property remove_edge_property
  undo_one (create_node id) g = do (_, g') ← Deletion.delete_node g id; some g'
  undo_one (delete_node id labels properties) g = do
    (_, g') ← create_node_with_id_and_labels g id labels
    some (set_node_properties g' id properties)
  undo_one (set_property id key (some value)) g = some (set_node_property g id key value)
  undo_one (set_property id key none) g = some (remove_node_property g id key).1
  undo_one (create_edge id) g = do (_, g') ← Edges.delete_edge g id; some g'
  undo_one (delete_edge id from to label properties) g = do
    (r, g') ← create_edge_with_id g id from to label
    some (edge_restored id properties r g')
  undo_one (edge_property id key (some value)) g = some (set_edge_property g id key value)
  undo_one (edge_property id key none) g = some (remove_edge_property g id key).1
  undo_one (add_label id label) g = some (remove_node_label g id label)
  undo_one (remove_label id label) g = some (add_node_label g id label)

  -- the records in the order in which they are undone
  unfoldable pub undo_each : List (UndoRecord V) → Graph V → Option (Graph V)
  unfolding undo_one
  undo_each [] g = some g
  undo_each (r ∷ rs) g = undo_one r g >>= undo_each rs

  -- the node that a record touches
  abbrev pub touched_by : UndoRecord V → List ℕ
  touched_by (create_node id) = id ∷ []
  touched_by (delete_node id labels properties) = id ∷ []
  touched_by (set_property id key old) = id ∷ []
  touched_by (create_edge id) = []
  touched_by (delete_edge id from to label properties) = []
  touched_by (edge_property id key old) = []
  touched_by (add_label id label) = id ∷ []
  touched_by (remove_label id label) = id ∷ []

  unfoldable pub all_touched : List (UndoRecord V) → List ℕ
  all_touched [] = []
  all_touched (r ∷ rs) = touched_by r ++ all_touched rs

-- `sort_unstable` and `dedup`
unfoldable pub insert_once : ℕ → List ℕ → List ℕ
insert_once n [] = n ∷ []
insert_once n (k ∷ ks) =
    let further = insert_once n ks in
    if ltb n k then n ∷ k ∷ ks else if nat_beq n k then k ∷ ks else k ∷ further

unfoldable pub sort_dedup : List ℕ → List ℕ
unfolding insert_once
sort_dedup [] = []
sort_dedup (n ∷ ns) = insert_once n (sort_dedup ns)

-- `format!("node:{}", node_id)`
unfoldable pub node_resource : ℕ → String
unfolding decimal
node_resource node_id = "node:" then_text (decimal node_id)

abbrev forgotten : Result (List ℕ) → Result Unit
forgotten (returned _) = returned tt
forgotten (refused e) = refused e

module _ {V : Type 0} where
  -- `commit` of a transaction in the given state
  unfoldable pub commit_from :
      TransactionManager V
      → ℕ
      → Transaction V
      → TransactionState
      → Result Unit × TransactionManager V
  unfolding release_each
  commit_from m tx_id tx active = (
    returned tt,
    put_transaction (record m { locks = release_each tx_id tx.held_locks m.locks }) tx_id
        (record tx { undo_log = []; state = committed }),
  )
  commit_from m tx_id tx committed = (refused (already_finished tx_id), m)
  commit_from m tx_id tx rolled_back = (refused (already_finished tx_id), m)

  unfoldable pub commit_found :
      TransactionManager V → ℕ → Result (Transaction V) → Result Unit × TransactionManager V
  unfolding commit_from
  commit_found m tx_id (refused e) = (refused e, m)
  commit_found m tx_id (returned tx) = commit_from m tx_id tx tx.state

  unfoldable pub commit : TransactionManager V → ℕ → Result Unit × TransactionManager V
  unfolding get_transaction commit_found
  commit m tx_id = commit_found m tx_id (get_transaction m tx_id)

  -- what `rollback_backend` leaves behind once the records are undone
  abbrev pub rolled :
      TransactionManager V
      → ℕ
      → Transaction V
      → Graph V
      → Result (List ℕ) × TransactionManager V × Graph V
  rolled m tx_id tx g = (
    returned (sort_dedup (all_touched (reverse tx.undo_log))),
    put_transaction (record m { locks = release_each tx_id tx.held_locks m.locks }) tx_id
        (record tx { undo_log = []; state = rolled_back }),
    g,
  )

  unfoldable pub rollback_from :
      TransactionManager V
      → ℕ
      → Transaction V
      → TransactionState
      → Graph V
      → Option (Result (List ℕ) × TransactionManager V × Graph V)
  unfolding release_each undo_each all_touched sort_dedup
  rollback_from m tx_id tx active g =
      undo_each (reverse tx.undo_log) g >>= (λ g'. some (rolled m tx_id tx g'))
  rollback_from m tx_id tx committed g = some (refused (already_finished tx_id), m, g)
  rollback_from m tx_id tx rolled_back g = some (refused (already_finished tx_id), m, g)

  unfoldable pub rollback_found :
      TransactionManager V
      → ℕ
      → Result (Transaction V)
      → Graph V
      → Option (Result (List ℕ) × TransactionManager V × Graph V)
  unfolding rollback_from
  rollback_found m tx_id (refused e) g = some (refused e, m, g)
  rollback_found m tx_id (returned tx) g = rollback_from m tx_id tx tx.state g

  unfoldable pub rollback_backend :
      TransactionManager V → ℕ → Graph V → Option (Result (List ℕ) × TransactionManager V × Graph V)
  unfolding get_transaction rollback_found
  rollback_backend m tx_id g = rollback_found m tx_id (get_transaction m tx_id) g

  unfoldable pub rollback :
      TransactionManager V → ℕ → Graph V → Option (Result Unit × TransactionManager V × Graph V)
  unfolding rollback_backend
  rollback m tx_id g = do
    (touched, m', g') ← rollback_backend m tx_id g
    some (forgotten touched, m', g')
