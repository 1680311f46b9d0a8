-- ===== src/Concurrent/Calls.antt =====
-- concurrent_graph.rs: the calls.
use maharit_db.Base.{ℕ, String, Bool, Option, none, some, List, [], ◌∷◌, if◌then◌else◌}
use maharit_db.Base.Eq.{nat_eq, string_eq}
use maharit_db.Base.Map
use maharit_db.Base.Map.{Map}
use maharit_db.Graph.{
  Node, Edge, node_not_found, Outcome, ok, err, is_filled, sets_of, has_label, add_label,
  remove_label, set_property, get_property, empty_node, empty_edge, single_label,
}
use maharit_db.Concurrent.{
  ConcurrentGraph, entry_insert, get_remove, entry_default, alter_at, label_index_add,
  label_index_remove, advanced, advanced_past,
}

module _ {V : Type 0} where
  unfoldable pub new : ConcurrentGraph V
  new = record {
    nodes = [];
    edges = [];
    outgoing = [];
    incoming = [];
    label_index = [];
    next_node_id = 0;
    next_edge_id = 0;
  }

  unfoldable pub nodes_by_label : ConcurrentGraph V → String → List ℕ
  nodes_by_label g label = sets_of (Map.lookup label g.label_index)

  unfoldable pub contains_node : ConcurrentGraph V → ℕ → Bool
  contains_node g id = is_filled (Map.lookup id g.nodes)

  unfoldable pub create_node_with_labels : ConcurrentGraph V → List String → ℕ × ConcurrentGraph V
  unfolding label_index_add advanced
  create_node_with_labels g labels =
      let id = g.next_node_id in
      (
        id,
        record g {
          next_node_id = advanced id;
          label_index = label_index_add id labels g.label_index;
          nodes = Map.insert id (empty_node id labels) g.nodes;
          outgoing = Map.insert id [] g.outgoing;
          incoming = Map.insert id [] g.incoming;
        },
      )

  unfoldable pub create_node : ConcurrentGraph V → String → ℕ × ConcurrentGraph V
  unfolding create_node_with_labels
  create_node g label = create_node_with_labels g (single_label label)

  unfoldable pub create_node_with_id_and_labels :
      ConcurrentGraph V → ℕ → List String → ℕ × ConcurrentGraph V
  unfolding label_index_add advanced_past entry_default
  create_node_with_id_and_labels g id labels = (
    id,
    record g {
      next_node_id = advanced_past g.next_node_id id;
      label_index = label_index_add id labels g.label_index;
      nodes = Map.insert id (empty_node id labels) g.nodes;
      outgoing = entry_default id g.outgoing;
      incoming = entry_default id g.incoming;
    },
  )

  unfoldable pub add_node_label : ConcurrentGraph V → ℕ → String → ConcurrentGraph V
  unfolding has_label add_label entry_insert
  add_node_label g id label = elim (Map.lookup id g.nodes) [
    | none ↦ g
    | some n ↦ if has_label n label then g else record g {
      nodes = Map.insert id (add_label n label) g.nodes;
      label_index = entry_insert label id g.label_index;
    }
  ]

  unfoldable pub remove_node_label : ConcurrentGraph V → ℕ → String → ConcurrentGraph V
  unfolding has_label remove_label get_remove
  remove_node_label g id label = elim (Map.lookup id g.nodes) [
    | none ↦ g
    | some n ↦
        if has_label n label
        then record g {
          nodes = Map.insert id (remove_label n label) g.nodes;
          label_index = get_remove label id g.label_index;
        }
        else g
  ]

  -- one round of the loop over a node's outgoing edges
  unfoldable pub drop_out : ConcurrentGraph V → ℕ → ConcurrentGraph V
  unfolding get_remove
  drop_out g eid = elim (Map.lookup eid g.edges) [
    | none ↦ g
    | some edge ↦ record g {
      edges = Map.remove eid g.edges;
      incoming = get_remove edge.to eid g.incoming;
    }
  ]

  unfoldable pub drop_outs : List ℕ → ConcurrentGraph V → ConcurrentGraph V
  unfolding drop_out
  drop_outs [] g = g
  drop_outs (eid ∷ eids) g = drop_outs eids (drop_out g eid)

  -- one round of the loop over a node's incoming edges
  unfoldable pub drop_in : ConcurrentGraph V → ℕ → ConcurrentGraph V
  unfolding get_remove
  drop_in g eid = elim (Map.lookup eid g.edges) [
    | none ↦ g
    | some edge ↦ record g {
      edges = Map.remove eid g.edges;
      outgoing = get_remove edge.from eid g.outgoing;
    }
  ]

  unfoldable pub drop_ins : List ℕ → ConcurrentGraph V → ConcurrentGraph V
  unfolding drop_in
  drop_ins [] g = g
  drop_ins (eid ∷ eids) g = drop_ins eids (drop_in g eid)

  -- the removal of the set of outgoing edges, and its loop
  unfoldable pub take_outgoing : ConcurrentGraph V → ℕ → ConcurrentGraph V
  unfolding drop_outs
  take_outgoing g id =
      drop_outs (sets_of (Map.lookup id g.outgoing))
        (record g { outgoing = Map.remove id g.outgoing })

  unfoldable pub take_incoming : ConcurrentGraph V → ℕ → ConcurrentGraph V
  unfolding drop_ins
  take_incoming g id =
      drop_ins (sets_of (Map.lookup id g.incoming))
        (record g { incoming = Map.remove id g.incoming })

  unfoldable pub delete_node : ConcurrentGraph V → ℕ → Option (Node V) × ConcurrentGraph V
  unfolding label_index_remove take_outgoing take_incoming
  delete_node g id = elim (Map.lookup id g.nodes) [
    | none ↦ (none, g)
    | some node ↦
        let g' = record g {
          nodes = Map.remove id g.nodes;
          label_index = label_index_remove id node.labels g.label_index;
        } in
        (some node, take_incoming (take_outgoing g' id) id)
  ]

  -- the edge under a number, in the sets of both ends
  unfoldable pub insert_edge : ConcurrentGraph V → ℕ → ℕ → ℕ → String → ConcurrentGraph V
  unfolding entry_insert
  insert_edge g id from to label = record g {
    edges = Map.insert id (empty_edge id from to label) g.edges;
    outgoing = entry_insert from id g.outgoing;
    incoming = entry_insert to id g.incoming;
  }

  unfoldable pub create_edge : ConcurrentGraph V → ℕ → ℕ → String → Outcome ℕ × ConcurrentGraph V
  unfolding contains_node insert_edge advanced
  create_edge g from to label =
      if contains_node g from
      then if contains_node g to
        then (
          ok g.next_edge_id,
          insert_edge (record g { next_edge_id = advanced g.next_edge_id }) g.next_edge_id from to
              label,
        )
        else (err (node_not_found to), g)
      else (err (node_not_found from), g)

  unfoldable pub create_edge_with_id :
      ConcurrentGraph V → ℕ → ℕ → ℕ → String → Outcome ℕ × ConcurrentGraph V
  unfolding contains_node insert_edge advanced_past
  create_edge_with_id g id from to label =
      if contains_node g from
      then if contains_node g to
        then (
          ok id,
          insert_edge (record g { next_edge_id = advanced_past g.next_edge_id id }) id from to
              label,
        )
        else (err (node_not_found to), g)
      else (err (node_not_found from), g)

  unfoldable pub delete_edge : ConcurrentGraph V → ℕ → Option (Edge V) × ConcurrentGraph V
  unfolding get_remove
  delete_edge g id = elim (Map.lookup id g.edges) [
    | none ↦ (none, g)
    | some edge ↦ (
      some edge,
      record g {
        edges = Map.remove id g.edges;
        outgoing = get_remove edge.from id g.outgoing;
        incoming = get_remove edge.to id g.incoming;
      },
    )
  ]

  unfoldable pub set_node_property : ConcurrentGraph V → ℕ → String → V → ConcurrentGraph V
  unfolding alter_at set_property
  set_node_property g id key value = record g {
    nodes = alter_at id (λ n. set_property n key value) g.nodes;
  }

  unfoldable pub set_edge_property : ConcurrentGraph V → ℕ → String → V → ConcurrentGraph V
  unfolding alter_at
  set_edge_property g id key value = record g {
    edges =
        alter_at id (λ (e : Edge V). record e { properties = Map.insert key value e.properties })
          g.edges;
  }

  unfoldable pub remove_node_property :
      ConcurrentGraph V → ℕ → String → Option V × ConcurrentGraph V
  unfolding get_property
  remove_node_property g id key = elim (Map.lookup id g.nodes) [
    | none ↦ (none, g)
    | some n ↦ (
      get_property n key,
      record g {
        nodes = Map.insert id (record n { properties = Map.remove key n.properties }) g.nodes;
      },
    )
  ]

  unfoldable pub remove_edge_property :
      ConcurrentGraph V → ℕ → String → Option V × ConcurrentGraph V
  remove_edge_property g id key = elim (Map.lookup id g.edges) [
    | none ↦ (none, g)
    | some e ↦ (
      Map.lookup key e.properties,
      record g {
        edges = Map.insert id (record e { properties = Map.remove key e.properties }) g.edges;
      },
    )
  ]

  unfoldable pub get_outgoing_edges : ConcurrentGraph V → ℕ → List ℕ
  get_outgoing_edges g node_id = sets_of (Map.lookup node_id g.outgoing)

  unfoldable pub get_incoming_edges : ConcurrentGraph V → ℕ → List ℕ
  get_incoming_edges g node_id = sets_of (Map.lookup node_id g.incoming)
