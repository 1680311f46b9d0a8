-- ===== src/LabelIndex.antt =====
-- crates/maharit-core/src/index.rs: the index of nodes and edges by label. The two maps from a
-- label to a set of numbers and the two maps back are fields of one state. A listing gives the
-- elements in the order of the list that stands for the set.
mod Sets
pub mod Relation
pub mod Calls
pub mod Listings
mod Tests
use maharit_db.Base.{
  ℕ, String, Bool, true, false, Option, none, some, List, [], ◌∷◌, map, length, if◌then◌else◌,
}
use maharit_db.Base.Eq.{HashKey, ◌==◌, nat_eq, string_eq}
use maharit_db.Base.Map
use maharit_db.Base.Map.{Map}
use maharit_db.Base.Set

pub record LabelIndex : Type 0 where
  pub node_labels : Map String (List ℕ)
  pub node_to_labels : Map ℕ (List String)
  pub edge_labels : Map String (List ℕ)
  pub edge_to_label : Map ℕ String

abbrev pub or_empty : {A : Type 0} → Option (List A) → List A
or_empty none = []
or_empty (some xs) = xs

abbrev pub is_empty : {A : Type 0} → List A → Bool
is_empty [] = true
is_empty (x ∷ xs) = false

module _ {K A : Type 0} ⦃k : HashKey K⦄ ⦃a : HashKey A⦄ where
  -- `entry(key).or_default().insert(x)`
  unfoldable pub insert_at : K → A → Map K (List A) → Map K (List A)
  insert_at key x m = Map.insert key (Set.insert x (or_empty (Map.lookup key m))) m

  -- `get_mut(key)`, `remove(x)`, and the entry goes with its last element
  unfoldable pub remove_at : K → A → Map K (List A) → Map K (List A)
  remove_at key x m = elim (Map.lookup key m) [
    | none ↦ m
    | some set ↦
        let rest = Set.remove x set in
        if is_empty rest then Map.remove key m else Map.insert key rest m
  ]

-- the loop of `remove_node` over the labels of the node
unfoldable pub remove_each : ℕ → List String → Map String (List ℕ) → Map String (List ℕ)
unfolding remove_at
remove_each node_id [] m = m
remove_each node_id (label ∷ labels) m = remove_each node_id labels (remove_at label node_id m)

-- `LabelIndex::new`
unfoldable pub new : LabelIndex
new = record { node_labels = []; node_to_labels = []; edge_labels = []; edge_to_label = [] }

unfoldable pub add_node_labels : LabelIndex → ℕ → List String → LabelIndex
unfolding insert_at
add_node_labels i node_id [] = i
add_node_labels i node_id (label ∷ labels) =
    add_node_labels
      (if label == "" then i else record i {
        node_labels = insert_at label node_id i.node_labels;
        node_to_labels = insert_at node_id label i.node_to_labels;
      })
      node_id labels

unfoldable pub add_node : LabelIndex → ℕ → String → LabelIndex
unfolding add_node_labels
add_node i node_id label = if label == "" then i else add_node_labels i node_id (label ∷ [])

unfoldable pub remove_node : LabelIndex → ℕ → LabelIndex
unfolding remove_each
remove_node i node_id = elim (Map.lookup node_id i.node_to_labels) [
  | none ↦ i
  | some labels ↦ record i {
    node_labels = remove_each node_id labels i.node_labels;
    node_to_labels = Map.remove node_id i.node_to_labels;
  }
]

unfoldable pub remove_node_label : LabelIndex → ℕ → String → LabelIndex
unfolding remove_at
remove_node_label i node_id label = record i {
  node_labels = remove_at label node_id i.node_labels;
  node_to_labels = remove_at node_id label i.node_to_labels;
}

abbrev pub first_of : {A : Type 0} → List A → Option A
first_of [] = none
first_of (x ∷ xs) = some x

unfoldable pub update_node_label : LabelIndex → ℕ → String → Option String × LabelIndex
unfolding remove_node insert_at
update_node_label i node_id new_label =
    let old_first = first_of (or_empty (Map.lookup node_id i.node_to_labels)) in
    let j = remove_node i node_id in
    (
      old_first,
      if new_label == "" then j else record j {
        node_labels = insert_at new_label node_id j.node_labels;
        node_to_labels = Map.insert node_id (Set.insert new_label []) j.node_to_labels;
      },
    )

unfoldable pub get_node_labels : LabelIndex → ℕ → List String
get_node_labels i node_id = or_empty (Map.lookup node_id i.node_to_labels)

unfoldable pub get_nodes_by_label : LabelIndex → String → List ℕ
get_nodes_by_label i label = or_empty (Map.lookup label i.node_labels)

unfoldable pub count_nodes_by_label : LabelIndex → String → ℕ
count_nodes_by_label i label = length (or_empty (Map.lookup label i.node_labels))

-- the keys of a map
unfoldable pub all_node_labels : LabelIndex → List String
all_node_labels i = map (λ (entry : String × List ℕ). entry.0) i.node_labels

unfoldable pub add_edge : LabelIndex → ℕ → String → LabelIndex
unfolding insert_at
add_edge i edge_id label = if label == "" then i else record i {
  edge_labels = insert_at label edge_id i.edge_labels;
  edge_to_label = Map.insert edge_id label i.edge_to_label;
}

unfoldable pub remove_edge : LabelIndex → ℕ → LabelIndex
unfolding remove_at
remove_edge i edge_id = elim (Map.lookup edge_id i.edge_to_label) [
  | none ↦ i
  | some label ↦ record i {
    edge_labels = remove_at label edge_id i.edge_labels;
    edge_to_label = Map.remove edge_id i.edge_to_label;
  }
]

unfoldable pub get_edges_by_type : LabelIndex → String → List ℕ
get_edges_by_type i edge_type = or_empty (Map.lookup edge_type i.edge_labels)

unfoldable pub count_edges_by_type : LabelIndex → String → ℕ
count_edges_by_type i edge_type = length (or_empty (Map.lookup edge_type i.edge_labels))

unfoldable pub all_edge_labels : LabelIndex → List String
all_edge_labels i = map (λ (entry : String × List ℕ). entry.0) i.edge_labels

unfoldable pub indexed_node_count : LabelIndex → ℕ
indexed_node_count i = length i.node_to_labels

unfoldable pub indexed_edge_count : LabelIndex → ℕ
indexed_edge_count i = length i.edge_to_label

unfoldable pub clear : LabelIndex → LabelIndex
unfolding new
clear i = new
