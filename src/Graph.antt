-- ===== src/Graph.antt =====
-- crates/maharit-core/src/graph.rs: the in-memory graph, its slots, adjacency sets, free lists
-- and label index. Property values are never inspected here and are the type parameter `V`. Node
-- and edge numbers index vectors. A method that may panic returns `none` there. A `Vec` that
-- serves as a free list is kept with its end, where it is pushed and popped, at the head of the
-- list.
pub mod Edges
pub mod Deletion
pub mod Labels
pub mod Restore
pub mod WellFormed
mod Adjacency
mod Index
mod NodeLaws
mod Drops
mod Slots
mod DropLoops
mod NodeTaking
mod Update
pub mod Relabel
pub mod View
pub mod PropertyLaws
pub mod Properties
pub mod Refine
pub mod Restoring
pub mod EdgeRestoring
pub mod Reading
pub mod History
mod Tests
pub mod NodeDeletion
pub mod NodeCreation
pub mod EdgeLaws
pub mod EdgeCreation
use maharit_db.Base.{
  ℕ, ◌+◌, ◌-◌, String, Bool, true, false, not, ◌&&◌, Option, none, some, List, [], ◌∷◌, ◌++◌,
  if◌then◌else◌, ltb, length,
}
use maharit_db.Base.Eq.{◌==◌, nat_eq, string_eq}
use maharit_db.Base.Map
use maharit_db.Base.Map.{Map}
use maharit_db.Base.Set
use maharit_db.Base.Vec
use maharit_db.Base.Vec.{at}

pub record Node (V : Type 0) : Type 0 where
  pub id : ℕ
  pub labels : List String
  pub properties : Map String V

pub record Edge (V : Type 0) : Type 0 where
  pub id : ℕ
  pub label : String
  pub from : ℕ
  pub to : ℕ
  pub properties : Map String V

pub record Graph (V : Type 0) : Type 0 where
  pub nodes : List (Option (Node V))
  pub edges : List (Option (Edge V))
  pub outgoing_edges : List (List ℕ)
  pub incoming_edges : List (List ℕ)
  pub node_free_list : List ℕ
  pub edge_free_list : List ℕ
  pub node_count : ℕ
  pub edge_count : ℕ
  pub label_index : Map String (List ℕ)

pub data GraphError : Type 0 where
  node_not_found : ℕ → GraphError
  edge_not_found : ℕ → GraphError

pub data Outcome (A : Type 0) : Type 0 where
  ok : A → Outcome A
  err : GraphError → Outcome A

infixl 5 ◌>>=◌
abbrev pub ◌>>=◌ : {A B : Type 0} → Option A → (A → Option B) → Option B
none >>= f = none
some a >>= f = f a

-- the panic of an unsigned subtraction below zero
abbrev pub decrement : ℕ → Option ℕ
decrement n = if ltb 0 n then some (n - 1) else none

abbrev pub is_empty {ℓ} : {A : Type ℓ} → List A → Bool
is_empty [] = true
is_empty (x ∷ xs) = false

abbrev pub sets_of : Option (List ℕ) → List ℕ
sets_of none = []
sets_of (some s) = s

abbrev pub is_filled {ℓ} : {A : Type ℓ} → Option A → Bool
is_filled none = false
is_filled (some a) = true

module _ {V : Type 0} where
  unfoldable pub has_label : Node V → String → Bool
  has_label n label = Set.contains label n.labels

  unfoldable pub add_label : Node V → String → Node V
  add_label n label =
      if not (label == "") && not (Set.contains label n.labels)
      then record n { labels = n.labels ++ label ∷ [] }
      else n

  unfoldable pub remove_label : Node V → String → Node V
  remove_label n label = record n { labels = Set.remove label n.labels }

  unfoldable pub set_property : Node V → String → V → Node V
  set_property n key value = record n { properties = Map.insert key value n.properties }

  unfoldable pub get_property : Node V → String → Option V
  get_property n key = Map.lookup key n.properties

  -- `Graph::default`
  unfoldable pub new : Graph V
  new = record {
    nodes = [];
    edges = [];
    outgoing_edges = [];
    incoming_edges = [];
    node_free_list = [];
    edge_free_list = [];
    node_count = 0;
    edge_count = 0;
    label_index = [];
  }

  unfoldable pub get_node : Graph V → ℕ → Option (Node V)
  get_node g id = at none g.nodes id

  unfoldable pub get_edge : Graph V → ℕ → Option (Edge V)
  get_edge g id = at none g.edges id

  abbrev pub empty_node : ℕ → List String → Node V
  empty_node id labels = record { id = id; labels = labels; properties = [] }

  abbrev pub empty_edge : ℕ → ℕ → ℕ → String → Edge V
  empty_edge id from to label = record {
    id = id;
    label = label;
    from = from;
    to = to;
    properties = [];
  }

-- `label_index.entry(label).or_default().insert(id)`
unfoldable pub index_insert : ℕ → String → Map String (List ℕ) → Map String (List ℕ)
index_insert id label index =
    Map.insert label (Set.insert id (sets_of (Map.lookup label index))) index

unfoldable pub index_insert_all : ℕ → List String → Map String (List ℕ) → Map String (List ℕ)
unfolding index_insert
index_insert_all id [] index = index
index_insert_all id (label ∷ labels) index =
    index_insert_all id labels (index_insert id label index)

-- `label_index_remove`
unfoldable pub index_remove : ℕ → String → Map String (List ℕ) → Map String (List ℕ)
index_remove id label index = elim (Map.lookup label index) [
  | none ↦ index
  | some set ↦
      let set' = Set.remove id set in
      if is_empty set' then Map.remove label index else Map.insert label set' index
]

unfoldable pub index_remove_all : ℕ → List String → Map String (List ℕ) → Map String (List ℕ)
unfolding index_remove
index_remove_all id [] index = index
index_remove_all id (label ∷ labels) index =
    index_remove_all id labels (index_remove id label index)

-- `if label_str.is_empty() { vec![] } else { vec![label_str] }`
abbrev pub single_label : String → List String
single_label label = if label == "" then [] else label ∷ []

module _ {V : Type 0} where
  unfoldable pub nodes_by_label : Graph V → String → List ℕ
  nodes_by_label g label = sets_of (Map.lookup label g.label_index)

  -- `label_index_add_node`
  unfoldable pub label_index_add_node : Graph V → ℕ → Graph V
  unfolding get_node index_insert_all
  label_index_add_node g id = elim (get_node g id) [
    | none ↦ g
    | some n ↦ record g { label_index = index_insert_all id n.labels g.label_index }
  ]

  unfoldable pub create_node_with_labels : Graph V → List String → Option (ℕ × Graph V)
  unfolding label_index_add_node
  create_node_with_labels g labels = elim g.node_free_list [
    | freed ∷ rest ↦ do
      nodes ← Vec.write g.nodes freed (some (empty_node freed labels))
      outgoing ← Vec.write g.outgoing_edges freed []
      incoming ← Vec.write g.incoming_edges freed []
      let g' = record g {
        nodes = nodes;
        outgoing_edges = outgoing;
        incoming_edges = incoming;
        node_free_list = rest;
        node_count = g.node_count + 1;
      }
      some (freed, label_index_add_node g' freed)
    | [] ↦
        let id = length g.nodes in
        let g' = record g {
          nodes = g.nodes ++ some (empty_node id labels) ∷ [];
          outgoing_edges = g.outgoing_edges ++ [] ∷ [];
          incoming_edges = g.incoming_edges ++ [] ∷ [];
          node_count = g.node_count + 1;
        } in
        some (id, label_index_add_node g' id)
  ]

  unfoldable pub create_node : Graph V → String → Option (ℕ × Graph V)
  unfolding create_node_with_labels
  create_node g label = create_node_with_labels g (single_label label)
