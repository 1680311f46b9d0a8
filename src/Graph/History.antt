-- ===== src/Graph/History.antt =====
-- graph.rs: a graph that is made by any sequence of calls from the empty graph.
use mathlib.Core.Path.{subst}
use maharit_db.Base.{
  inl, inr, ◌+◌, ◌<◌, ◌^◌, ℕ, String, false, Option, some, List, [], ◌∷◌, ◌≡◌, refl, sym, All,
}
use maharit_db.Base.Eq.{◌==◌, nat_eq, string_eq}
use maharit_db.Base.Map
use maharit_db.Base.Set
use maharit_db.Base.Vec
use maharit_db.Base.Vec.{at}
use maharit_db.Graph.{
  Graph, Outcome, ok, err, node_not_found, edge_not_found, ◌>>=◌, new, create_node_with_labels,
}
use maharit_db.Graph.Edges.{create_edge, delete_edge}
use maharit_db.Graph.Deletion.{delete_node}
use maharit_db.Graph.Labels.{
  add_node_label, remove_node_label, set_node_property, remove_node_property, set_edge_property,
  remove_edge_property,
}
use maharit_db.Graph.Restore.{create_node_with_id_and_labels, create_edge_with_id}
use maharit_db.Graph.Restoring.{NodeRestored, create_node_with_id-NodeRestored}
use maharit_db.Graph.EdgeRestoring.{EdgeRestored, create_edge_with_id-EdgeRestored}
use maharit_db.Graph.PropertyLaws.{
  remove_node_property-NodeChanged, set_edge_property-EdgeChanged, remove_edge_property-EdgeChanged,
}
use maharit_db.Graph.WellFormed.{WellFormed, keyed, labelled}
use maharit_db.Graph.NodeCreation.{create_node-NodeCreated}
use maharit_db.Graph.EdgeCreation.{Created, create_edge-Created}
use maharit_db.Graph.EdgeLaws.{delete_edge-WellFormed}
use maharit_db.Graph.NodeDeletion.{delete_node-WellFormed}
use maharit_db.Graph.Relabel.{
  add_node_label-NodeChanged, remove_node_label-NodeChanged, set_node_property-NodeChanged,
}

pub data Call (V : Type 0) : Type 0 where
  add_node : List String → Call V
  add_edge : ℕ → ℕ → String → Call V
  drop_node : ℕ → Call V
  drop_edge : ℕ → Call V
  add_label : ℕ → String → Call V
  drop_label : ℕ → String → Call V
  set_value : ℕ → String → V → Call V
  drop_value : ℕ → String → Call V
  set_edge_value : ℕ → String → V → Call V
  drop_edge_value : ℕ → String → Call V
  restore_node : ℕ → List String → Call V
  restore_edge : ℕ → ℕ → ℕ → String → Call V

module _ {V : Type 0} where
  -- the call's effect on the graph; its other result is dropped
  unfoldable pub apply : Call V → Graph V → Option (Graph V)
  apply (add_node labels) g = do (_, g') ← create_node_with_labels g labels; some g'
  apply (add_edge from to label) g = do (_, g') ← create_edge g from to label; some g'
  apply (drop_node id) g = do (_, g') ← delete_node g id; some g'
  apply (drop_edge id) g = do (_, g') ← delete_edge g id; some g'
  apply (add_label id label) g = some (add_node_label g id label)
  apply (drop_label id label) g = some (remove_node_label g id label)
  apply (set_value id key value) g = some (set_node_property g id key value)
  apply (drop_value id key) g = some (remove_node_property g id key).1
  apply (set_edge_value id key value) g = some (set_edge_property g id key value)
  apply (drop_edge_value id key) g = some (remove_edge_property g id key).1
  apply (restore_node id labels) g = do
    (_, g') ← create_node_with_id_and_labels g id labels
    some g'
  apply (restore_edge id from to label) g = do
    (_, g') ← create_edge_with_id g id from to label
    some g'

  unfoldable pub apply_all : List (Call V) → Graph V → Option (Graph V)
  unfolding apply
  apply_all [] g = some g
  apply_all (c ∷ cs) g = apply c g >>= apply_all cs

  -- The empty string is not added as a label, and no node gets the last number of 64 bits.
  abbrev pub Named : Call V → Type 0
  Named (add_label id label) = (label == "") ≡ false
  Named (restore_node id labels) = id + 1 < 2 ^ 64
  Named _ = Unit

  pub new-WellFormed : WellFormed (new {V = V})
  unfolding new at keyed labelled Map.lookup Set.contains Vec.count_some
  new-WellFormed = record {
    outgoing_length = refl;
    incoming_length = refl;
    nodes_fit = record { node_id = λ i n h. cc; indexed = λ l i. refl };
    edges_fit = record { edge_id = λ i e h. cc; edge_from = λ i e h. cc; edge_to = λ i e h. cc };
    node_slots = record { free_empty = λ i h. cc; free_distinct = tt; counted = refl };
    edge_slots = record { free_empty = λ i h. cc; free_distinct = tt; counted = refl };
    outgoing_exact = λ n i. refl;
    incoming_exact = λ n i. refl;
  }

  Created-WellFormed :
      (g : Graph V) (from to : ℕ) (label : String)
      → WellFormed g
      → (r : Outcome ℕ × Graph V) → Created g from to label r.0 r.1
      → WellFormed r.1
  Created-WellFormed g from to label w (ok id, g') c = c.0
  Created-WellFormed g from to label w (err (node_not_found n), g') c = subst WellFormed (sym c.0) w
  Created-WellFormed g from to label w (err (edge_not_found e), g') c = absurd c

  NodeRestored-WellFormed :
      (g : Graph V) (labels : List String) (id : ℕ) (g' : Graph V)
      → WellFormed g
      → NodeRestored g labels id g'
      → WellFormed g'
  NodeRestored-WellFormed g labels id g' w (inl (same, _)) = subst WellFormed (sym same) w
  NodeRestored-WellFormed g labels id g' w (inr (w', _, _, _)) = w'

  EdgeRestored-WellFormed :
      (g : Graph V) (id from to : ℕ) (label : String) (r : Outcome ℕ) (g' : Graph V)
      → WellFormed g
      → EdgeRestored g id from to label r g'
      → WellFormed g'
  EdgeRestored-WellFormed g id from to label r g' w (inl (_, same, _, _, _)) =
      subst WellFormed (sym same) w
  EdgeRestored-WellFormed g id from to label r g' w (inr (_, c)) =
      Created-WellFormed g from to label w (r, g') c

  apply-WellFormed :
      (c : Call V) (g : Graph V)
      → Named c
      → WellFormed g
      → (g' : Graph V) × (apply c g ≡ some g') × WellFormed g'
  unfolding apply
  apply-WellFormed (add_node labels) g n w =
      let (_, g', run, c) = create_node-NodeCreated g labels w in (g', rw run, c.0)
  apply-WellFormed (add_edge from to label) g n w =
      let (r, run, c) = create_edge-Created g from to label w in
      (r.1, rw run, Created-WellFormed g from to label w r c)
  apply-WellFormed (drop_node id) g n w =
      let (g', run, w', _, _) = delete_node-WellFormed g id w in (g', rw run, w')
  apply-WellFormed (drop_edge id) g n w =
      let (g', run, w', _, _) = delete_edge-WellFormed g id w in (g', rw run, w')
  apply-WellFormed (add_label id label) g n w =
      (add_node_label g id label, refl, (add_node_label-NodeChanged g id label n w).0)
  apply-WellFormed (drop_label id label) g n w =
      (remove_node_label g id label, refl, (remove_node_label-NodeChanged g id label w).0)
  apply-WellFormed (set_value id key value) g n w =
      (set_node_property g id key value, refl, (set_node_property-NodeChanged g id key value w).0)
  apply-WellFormed (drop_value id key) g n w =
      ((remove_node_property g id key).1, refl, (remove_node_property-NodeChanged g id key w).0)
  apply-WellFormed (set_edge_value id key value) g n w =
      (set_edge_property g id key value, refl, (set_edge_property-EdgeChanged g id key value w).0)
  apply-WellFormed (drop_edge_value id key) g n w =
      ((remove_edge_property g id key).1, refl, (remove_edge_property-EdgeChanged g id key w).0)
  apply-WellFormed (restore_node id labels) g n w =
      let (g', run, made) = create_node_with_id-NodeRestored g id labels n w in
      (g', rw run, NodeRestored-WellFormed g labels id g' w made)
  apply-WellFormed (restore_edge id from to label) g n w =
      let (r, g', run, made) = create_edge_with_id-EdgeRestored g id from to label w in
      (g', rw run, EdgeRestored-WellFormed g id from to label r g' w made)

  -- From a well-formed graph no sequence of calls that create and delete nodes and edges, restore
  -- edges under any numbers and nodes under numbers below the last of 64 bits, add labels other
  -- than the empty string, remove labels, and set and remove properties of nodes and edges ever
  -- panics. It gives a well-formed graph: the adjacency sets and the label index list exactly the
  -- edges and nodes that are there, the counts are right, edges join nodes that exist, and the
  -- free lists hold empty slots only, none twice (that they hold every empty slot is not said:
  -- restoring a node leaves some out).
  pub apply_all-WellFormed :
      (cs : List (Call V)) (g : Graph V)
      → All Named cs
      → WellFormed g
      → (g' : Graph V) × (apply_all cs g ≡ some g') × WellFormed g'
  unfolding apply_all
  apply_all-WellFormed [] g n w = (g, refl, w)
  apply_all-WellFormed (c ∷ cs) g (n, ns) w =
      let (g₁, run₁, w₁) = apply-WellFormed c g n w in
      let (g₂, run₂, w₂) = apply_all-WellFormed cs g₁ ns w₁ in (g₂, rw run₁ run₂, w₂)
