-- ===== src/Concurrent/History.antt =====
-- concurrent_graph.rs: any calls, one after another, and the numbers that they give.
use maharit_db.Base.{
  ℕ, ◌+◌, ◌^◌, ◌<◌, ◌≤◌, String, false, none, List, ◌≡◌, refl, ap, arith, inl, inr, Bool-cases,
  Option-cases,
}
use maharit_db.Base.Eq.{◌==◌, nat_eq, string_eq}
use maharit_db.Base.Map
use maharit_db.Base.Set
use maharit_db.Graph.{is_filled}
use maharit_db.Graph.WellFormed.{keyed, labelled}
use maharit_db.Concurrent.{ConcurrentGraph, advanced}
use maharit_db.Concurrent.Calls.{
  insert_edge, new, create_node_with_labels, create_node_with_id_and_labels, create_edge,
  create_edge_with_id, contains_node, delete_node, delete_edge, add_node_label, remove_node_label,
  set_node_property, set_edge_property, remove_node_property, remove_edge_property,
}
use maharit_db.Concurrent.Sets.{listed}
use maharit_db.Concurrent.Consistent.{IsConsistent}
use maharit_db.Concurrent.NodeDeletion.{delete_node-Deleted, delete_node_counters}
use maharit_db.Concurrent.Changes.{
  add_node_label-IsConsistent, remove_node_label-IsConsistent, set_node_property-IsConsistent,
  remove_node_property-IsConsistent,
}
use maharit_db.Concurrent.EdgeChanges.{
  delete_edge-IsConsistent, set_edge_property-IsConsistent, remove_edge_property-IsConsistent,
}
use maharit_db.Concurrent.Steps.{
  advanced_lem, advanced_past_lem, create_node-IsConsistent, restore_node-IsConsistent,
  insert_edge-IsConsistent,
}

module _ {V : Type 0} where
  -- One call. Counters do not wrap round, a call under a given number gets a number that is not
  -- in use, and the empty string is not added as a label.
  pub data Call (g : ConcurrentGraph V) : ConcurrentGraph V → Type 0 where
    add_node :
        (labels : List String)
        → g.next_node_id + 1 < 2 ^ 64
        → Call g (create_node_with_labels g labels).1
    restore_node :
        (id : ℕ) (labels : List String)
        → Map.lookup id g.nodes ≡ none
        → id + 1 < 2 ^ 64
        → Call g (create_node_with_id_and_labels g id labels).1
    drop_node : (id : ℕ) → Call g (delete_node g id).1
    add_edge :
        (from to : ℕ) (label : String)
        → g.next_edge_id + 1 < 2 ^ 64
        → Call g (create_edge g from to label).1
    restore_edge :
        (id from to : ℕ) (label : String)
        → Map.lookup id g.edges ≡ none
        → id + 1 < 2 ^ 64
        → Call g (create_edge_with_id g id from to label).1
    drop_edge : (id : ℕ) → Call g (delete_edge g id).1
    name_node :
        (id : ℕ) (label : String) → (label == "") ≡ false → Call g (add_node_label g id label)
    unname_node : (id : ℕ) (label : String) → Call g (remove_node_label g id label)
    set_value : (id : ℕ) (key : String) (value : V) → Call g (set_node_property g id key value)
    set_edge_value : (id : ℕ) (key : String) (value : V) → Call g (set_edge_property g id key value)
    drop_value : (id : ℕ) (key : String) → Call g (remove_node_property g id key).1
    drop_edge_value : (id : ℕ) (key : String) → Call g (remove_edge_property g id key).1

  pub data Calls (g : ConcurrentGraph V) : ConcurrentGraph V → Type 0 where
    none_yet : Calls g g
    further : {h k : ConcurrentGraph V} → Calls g h → Call h k → Calls g k

  next_edge_unused :
      (g : ConcurrentGraph V) → IsConsistent g → Map.lookup g.next_edge_id g.edges ≡ none
  next_edge_unused g c = elim (Option-cases (Map.lookup g.next_edge_id g.edges)) [
    | inl miss ↦ miss
    | inr (e, found) ↦
        let below = c.edges_fit.edge_issued g.next_edge_id (ap is_filled found) in
        absurd (omega (arith, below))
  ]

  create_edge-IsConsistent :
      (g : ConcurrentGraph V) (from to : ℕ) (label : String)
      → g.next_edge_id + 1 < 2 ^ 64
      → IsConsistent g
      → IsConsistent (create_edge g from to label).1
  unfolding create_edge contains_node
  create_edge-IsConsistent g from to label room c =
      let e = advanced_lem g.next_edge_id room in
      elim (Bool-cases (is_filled (Map.lookup from g.nodes))) [
        | inl a ↦ elim (Bool-cases (is_filled (Map.lookup to g.nodes))) [
          | inl b ↦
              rw (a, b)
                (insert_edge-IsConsistent g g.next_edge_id from to (advanced g.next_edge_id) label
                  (next_edge_unused g c) a b (omega (arith, e)) (omega (arith, e)) c)
          | inr b ↦ rw (a, b) c
        ]
        | inr a ↦ rw a c
      ]

  restore_edge-IsConsistent :
      (g : ConcurrentGraph V) (id from to : ℕ) (label : String)
      → Map.lookup id g.edges ≡ none
      → id + 1 < 2 ^ 64
      → IsConsistent g
      → IsConsistent (create_edge_with_id g id from to label).1
  unfolding create_edge_with_id contains_node
  restore_edge-IsConsistent g id from to label free room c =
      let (le, lt) = advanced_past_lem g.next_edge_id id room in
      elim (Bool-cases (is_filled (Map.lookup from g.nodes))) [
        | inl a ↦ elim (Bool-cases (is_filled (Map.lookup to g.nodes))) [
          | inl b ↦ rw (a, b) (insert_edge-IsConsistent g id from to _ label free a b le lt c)
          | inr b ↦ rw (a, b) c
        ]
        | inr a ↦ rw a c
      ]

  Call-IsConsistent : {g h : ConcurrentGraph V} → Call g h → IsConsistent g → IsConsistent h
  Call-IsConsistent {g} (add_node labels room) c = create_node-IsConsistent g labels room c
  Call-IsConsistent {g} (restore_node id labels free room) c =
      restore_node-IsConsistent g id labels free room c
  Call-IsConsistent {g} (drop_node id) c = let (_, d) = delete_node-Deleted g id c in d.0
  Call-IsConsistent {g} (add_edge from to label room) c =
      create_edge-IsConsistent g from to label room c
  Call-IsConsistent {g} (restore_edge id from to label free room) c =
      restore_edge-IsConsistent g id from to label free room c
  Call-IsConsistent {g} (drop_edge id) c = delete_edge-IsConsistent g id c
  Call-IsConsistent {g} (name_node id label named) c =
      add_node_label-IsConsistent g id label named c
  Call-IsConsistent {g} (unname_node id label) c = remove_node_label-IsConsistent g id label c
  Call-IsConsistent {g} (set_value id key value) c = set_node_property-IsConsistent g id key value c
  Call-IsConsistent {g} (set_edge_value id key value) c =
      set_edge_property-IsConsistent g id key value c
  Call-IsConsistent {g} (drop_value id key) c = remove_node_property-IsConsistent g id key c
  Call-IsConsistent {g} (drop_edge_value id key) c = remove_edge_property-IsConsistent g id key c

  -- The counters do not go back.
  abbrev pub Later : ConcurrentGraph V → ConcurrentGraph V → Type 0
  Later g h = (g.next_node_id ≤ h.next_node_id) × (g.next_edge_id ≤ h.next_edge_id)

  create_edge-Later :
      (g : ConcurrentGraph V) (from to : ℕ) (label : String)
      → g.next_edge_id + 1 < 2 ^ 64
      → Later g (create_edge g from to label).1
  unfolding create_edge insert_edge contains_node
  create_edge-Later g from to label room =
      let e = advanced_lem g.next_edge_id room in (ground arith, ground arith)

  restore_edge-Later :
      (g : ConcurrentGraph V) (id from to : ℕ) (label : String)
      → id + 1 < 2 ^ 64
      → Later g (create_edge_with_id g id from to label).1
  unfolding create_edge_with_id insert_edge contains_node
  restore_edge-Later g id from to label room =
      let (le, _) = advanced_past_lem g.next_edge_id id room in (ground arith, ground arith)

  Call-Later : {g h : ConcurrentGraph V} → Call g h → IsConsistent g → Later g h
  unfolding create_node_with_labels create_node_with_id_and_labels delete_edge add_node_label
      remove_node_label set_node_property set_edge_property remove_node_property
      remove_edge_property
  Call-Later {g} (add_node labels room) c =
      let e = advanced_lem g.next_node_id room in (omega (arith, e), omega arith)
  Call-Later {g} (restore_node id labels free room) c =
      ((advanced_past_lem g.next_node_id id room).0, omega arith)
  Call-Later {g} (drop_node id) c =
      let (a, b) = delete_node_counters g id c in (omega (arith, a), omega (arith, b))
  Call-Later {g} (add_edge from to label room) c = create_edge-Later g from to label room
  Call-Later {g} (restore_edge id from to label free room) c =
      restore_edge-Later g id from to label room
  Call-Later {g} (drop_edge id) c = (ground arith, ground arith)
  Call-Later {g} (name_node id label named) c = (ground arith, ground arith)
  Call-Later {g} (unname_node id label) c = (ground arith, ground arith)
  Call-Later {g} (set_value id key value) c = (omega arith, omega arith)
  Call-Later {g} (set_edge_value id key value) c = (omega arith, omega arith)
  Call-Later {g} (drop_value id key) c = (ground arith, ground arith)
  Call-Later {g} (drop_edge_value id key) c = (ground arith, ground arith)

  -- Whatever calls follow, one after another, on a consistent graph, such as a new one, while the
  -- counters do not wrap round, as long as the calls under a given number get one that is not in
  -- use and below the last of 64 bits, and the labels added to nodes are not the empty string:
  -- the sets of outgoing and incoming edges hold exactly the edges that leave and enter a node,
  -- edges join nodes that exist, the label index lists exactly the nodes with a label, and all
  -- numbers in use lie below the counters, which never go back.
  pub Calls-IsConsistent :
      {g h : ConcurrentGraph V} → Calls g h → IsConsistent g → IsConsistent h × Later g h
  Calls-IsConsistent none_yet c = (c, (omega arith, omega arith))
  Calls-IsConsistent (further r st) c =
      let (c', earlier) = Calls-IsConsistent r c in
      let later = Call-Later st c' in
      (
        Call-IsConsistent st c',
        (omega (arith, earlier.0, later.0), omega (arith, earlier.1, later.1)),
      )

  pub new-IsConsistent : IsConsistent (new {V = V})
  unfolding new listed keyed labelled Map.lookup Set.contains
  new-IsConsistent = record {
    nodes_fit = record { node_id = λ i n h. cc; node_issued = λ i h. cc; indexed = λ l i. refl };
    edges_fit = record {
      edge_id = λ i e h. cc;
      edge_from = λ i e h. cc;
      edge_to = λ i e h. cc;
      edge_issued = λ i h. cc;
    };
    leaving = λ n i. refl;
    entering = λ n i. refl;
  }
