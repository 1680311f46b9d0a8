-- ===== src/Concurrent.antt =====
-- crates/maharit-core/src/concurrent_graph.rs: the graph that the server shares between its
-- threads. The concurrent maps are association lists, and a call is one step: what interleaves
-- inside a call is not modelled. Hence the compare-and-exchange loops that advance a counter
-- succeed at once. Nodes and edges are those of graph.rs.
pub mod Sets
pub mod Calls
pub mod Consistent
pub mod Deletion
pub mod Taken
pub mod NodeDeletion
pub mod Changes
pub mod EdgeChanges
pub mod Steps
pub mod History
mod Tests
use maharit_db.Base.{
  ℕ, ◌+◌, ◌%◌, ◌^◌, String, Bool, true, false, Option, none, some, List, [], ◌∷◌, if◌then◌else◌,
  leb,
}
use maharit_db.Base.Eq.{HashKey, ◌==◌, nat_eq, string_eq}
use maharit_db.Base.Map
use maharit_db.Base.Map.{Map}
use maharit_db.Base.Set
use maharit_db.Graph.{Node, Edge, sets_of}

pub record ConcurrentGraph (V : Type 0) : Type 0 where
  pub nodes : Map ℕ (Node V)
  pub edges : Map ℕ (Edge V)
  pub outgoing : Map ℕ (List ℕ)
  pub incoming : Map ℕ (List ℕ)
  pub label_index : Map String (List ℕ)
  pub next_node_id : ℕ
  pub next_edge_id : ℕ

module _ {K : Type 0} ⦃e : HashKey K⦄ where
  -- `sets.entry(key).or_default().insert(id)`
  unfoldable pub entry_insert : K → ℕ → Map K (List ℕ) → Map K (List ℕ)
  entry_insert key id sets = Map.insert key (Set.insert id (sets_of (Map.lookup key sets))) sets

  -- `if let Some(mut set) = sets.get_mut(&key) { set.remove(&id); }`
  unfoldable pub get_remove : K → ℕ → Map K (List ℕ) → Map K (List ℕ)
  get_remove key id sets = elim (Map.lookup key sets) [
    | none ↦ sets
    | some set ↦ Map.insert key (Set.remove id set) sets
  ]

  -- `sets.entry(key).or_default()`
  unfoldable pub entry_default : K → Map K (List ℕ) → Map K (List ℕ)
  entry_default key sets = elim (Map.lookup key sets) [
    | none ↦ Map.insert key [] sets
    | some set ↦ sets
  ]

  -- `map.get_mut(&key)` with what is written through it
  unfoldable pub alter_at : {A : Type 0} → K → (A → A) → Map K A → Map K A
  alter_at key f m = elim (Map.lookup key m) [ none ↦ m | some a ↦ Map.insert key (f a) m ]

-- `label_index_add`
unfoldable pub label_index_add : ℕ → List String → Map String (List ℕ) → Map String (List ℕ)
unfolding entry_insert
label_index_add id [] index = index
label_index_add id (label ∷ labels) index = label_index_add id labels (entry_insert label id index)

-- `label_index_remove`
unfoldable pub label_index_remove : ℕ → List String → Map String (List ℕ) → Map String (List ℕ)
unfolding get_remove
label_index_remove id [] index = index
label_index_remove id (label ∷ labels) index =
    label_index_remove id labels (get_remove label id index)

-- `fetch_add(1)` wraps
unfoldable pub advanced : ℕ → ℕ
advanced counter = (counter + 1) % 2 ^ 64

-- the counter once it is past a number that is given, where `id + 1` wraps
unfoldable pub advanced_past : ℕ → ℕ → ℕ
unfolding advanced
advanced_past counter id = if leb counter id then advanced id else counter
