-- ===== src/Graph/Restoring.antt =====
-- graph.rs: what the calls that restore a node or an edge under a given number do to a graph
-- whose invariant holds.
use maharit_db.Base.{
  ℕ, ◌+◌, ◌%◌, ◌^◌, ◌<◌, ◌≤◌, String, true, ◌⊎◌, Option, none, some, List, [], ◌≡◌, refl, sym, ap,
  ◌∙◌, length, leb, leb→le, arith, inl, inr, Bool-cases,
}
use maharit_db.Base.Eq.{nat_eq, string_eq}
use maharit_db.Base.Set
use maharit_db.Base.Vec
use maharit_db.Base.Vec.{at, at-set, length-set, write_in}
use maharit_db.Graph.{Graph, Node, Edge, is_filled, empty_node, get_node, label_index_add_node}
use maharit_db.Graph.Restore.{resize, create_node_with_id_and_labels}
use maharit_db.Graph.WellFormed.{WellFormed, SlotsFit, Exact}
use maharit_db.Graph.Slots.{at-resize, length-resize, SlotsFit-assign, SlotsFit-resize}
use maharit_db.Graph.NodeLaws.{NodeCreated, clear_same, Exact-same, label_index_add_node-filled}
use maharit_db.Graph.NodeCreation.{grown, grown-NodeCreated, same_set}
use maharit_db.Graph.EdgeCreation.{unfilled}

module _ {V : Type 0} where
  -- the vectors of a graph, perhaps grown, with the same content and a slot `id`
  pub record Grown (g : Graph V) (id : ℕ) (nodes : List (Option (Node V)))
      (outgoing incoming : List (List ℕ)) : Type 0 where
    pub room : id < length nodes
    pub nodes_same : (j : ℕ) → at none nodes j ≡ at none g.nodes j
    pub outgoing_same : (j : ℕ) → at [] outgoing j ≡ at [] g.outgoing_edges j
    pub incoming_same : (j : ℕ) → at [] incoming j ≡ at [] g.incoming_edges j
    pub slots : SlotsFit nodes g.node_free_list g.node_count
    pub outgoing_length : length outgoing ≡ length nodes
    pub incoming_length : length incoming ≡ length nodes

  Grown-at :
      (g : Graph V) (id : ℕ)
      → WellFormed g
      → id < length g.nodes
      → Grown g id g.nodes g.outgoing_edges g.incoming_edges
  Grown-at g id w inside = record {
    room = inside;
    nodes_same = λ j. refl;
    outgoing_same = λ j. refl;
    incoming_same = λ j. refl;
    slots = w.node_slots;
    outgoing_length = w.outgoing_length;
    incoming_length = w.incoming_length;
  }

  Grown-resize :
      (g : Graph V) (id : ℕ)
      → WellFormed g
      → length g.nodes ≤ id
      → Grown g id
          (resize none (id + 1) g.nodes)
          (resize [] (id + 1) g.outgoing_edges)
          (resize [] (id + 1) g.incoming_edges)
  Grown-resize g id w beyond =
      let (_, _, n) = length-resize none (id + 1) g.nodes in
      let (_, _, o) = length-resize [] (id + 1) g.outgoing_edges in
      let (_, _, i) = length-resize [] (id + 1) g.incoming_edges in
      let n' = n (omega arith) in
      record {
        room = omega arith;
        nodes_same = at-resize none (id + 1) g.nodes;
        outgoing_same = at-resize [] (id + 1) g.outgoing_edges;
        incoming_same = at-resize [] (id + 1) g.incoming_edges;
        slots = SlotsFit-resize g.nodes g.node_free_list g.node_count (id + 1) w.node_slots;
        outgoing_length = o (omega (arith, w.outgoing_length)) ∙ sym n';
        incoming_length = i (omega (arith, w.incoming_length)) ∙ sym n';
      }

  abbrev restored :
      Graph V → ℕ → List String → List (Option (Node V)) → List (List ℕ) → List (List ℕ) → Graph V
  restored g id labels nodes outgoing incoming =
      grown g labels id (Vec.set nodes id (some (empty_node id labels))) (Vec.set outgoing id [])
        (Vec.set incoming id []) (Set.remove id g.node_free_list)

  -- a set of the grown vector, cleared at the empty slot, reads as before
  cleared_same :
      (end : Edge V → ℕ) (g : Graph V) (sets sets' : List (List ℕ)) (id : ℕ)
      → at none g.nodes id ≡ none
      → ((i : ℕ) (e : Edge V)
          → at none g.edges i ≡ some e
          → is_filled (at none g.nodes (end e)) ≡ true)
      → id < length sets'
      → ((j : ℕ) → at [] sets' j ≡ at [] sets j)
      → Exact end g.edges sets
      → (n i : ℕ) → Set.contains i (at [] (Vec.set sets' id []) n) ≡ Set.contains i (at [] sets n)
  cleared_same end g sets sets' id empty ends room same exact n i =
      clear_same end g.nodes g.edges sets' id empty ends room
        (Exact-same end g.edges sets sets' (λ n i. ap (Set.contains i) (same n)) exact) n i
      ∙ ap (Set.contains i) (same n)

  restored-NodeCreated :
      (g : Graph V) (id : ℕ) (labels : List String) (nodes : List (Option (Node V)))
      (outgoing incoming : List (List ℕ))
      → WellFormed g
      → at none g.nodes id ≡ none
      → Grown g id nodes outgoing incoming
      → NodeCreated g labels id (restored g id labels nodes outgoing incoming)
  restored-NodeCreated g id labels nodes outgoing incoming w empty b =
      let node : Option (Node V) = some (empty_node id labels) in
      grown-NodeCreated g labels id (Vec.set nodes id node) (Vec.set outgoing id [])
        (Vec.set incoming id []) (Set.remove id g.node_free_list) w
        (record {
          slot_empty = empty;
          wrote = λ j. at-set none nodes id j node b.room ∙ ground (arith, b.nodes_same j);
          slots =
              SlotsFit-assign nodes g.node_free_list g.node_count id (empty_node id labels) b.room
                (b.nodes_same id ∙ empty) b.slots;
          outgoing_length = same_set outgoing nodes id node b.outgoing_length;
          incoming_length = same_set incoming nodes id node b.incoming_length;
          outgoing_same =
              cleared_same (λ e. e.from) g g.outgoing_edges outgoing id empty w.edges_fit.edge_from
                (omega (arith, b.room, b.outgoing_length)) b.outgoing_same w.outgoing_exact;
          incoming_same =
              cleared_same (λ e. e.to) g g.incoming_edges incoming id empty w.edges_fit.edge_to
                (omega (arith, b.room, b.incoming_length)) b.incoming_same w.incoming_exact;
        })

  -- the graph before the label index is written
  abbrev raw :
      Graph V → ℕ → List String → List (Option (Node V)) → List (List ℕ) → List (List ℕ) → Graph V
  raw g id labels nodes outgoing incoming = record g {
    nodes = Vec.set nodes id (some (empty_node id labels));
    outgoing_edges = Vec.set outgoing id [];
    incoming_edges = Vec.set incoming id [];
    node_free_list = Set.remove id g.node_free_list;
    node_count = g.node_count + 1;
  }

  indexed :
      (g : Graph V) (id : ℕ) (labels : List String) (nodes : List (Option (Node V)))
      (outgoing incoming : List (List ℕ))
      → id < length nodes
      → label_index_add_node (raw g id labels nodes outgoing incoming) id
        ≡ restored g id labels nodes outgoing incoming
  indexed g id labels nodes outgoing incoming room =
      label_index_add_node-filled (raw g id labels nodes outgoing incoming) id labels
        (at-set none nodes id id (some (empty_node id labels)) room ∙ ground arith)

  -- What `create_node_with_id_and_labels` gives back.
  abbrev pub NodeRestored : Graph V → List String → ℕ → Graph V → Type 0
  NodeRestored g labels id g' =
      ((g' ≡ g) × (is_filled (get_node g id) ≡ true)) ⊎ NodeCreated g labels id g'

  -- In a well-formed graph and for a number below the last of 64 bits,
  -- `create_node_with_id_and_labels` never panics. It changes nothing if the
  -- number has a node; else it makes a node of that number, with the labels and no property, and
  -- leaves every other node and every edge as it is, and the graph well-formed.
  pub create_node_with_id-NodeRestored :
      (g : Graph V) (id : ℕ) (labels : List String)
      → id + 1 < 2 ^ 64
      → WellFormed g
      → (g' : Graph V) × (create_node_with_id_and_labels g id labels ≡ some (id, g'))
        × NodeRestored g labels id g'
  create_node_with_id-NodeRestored g id labels below w =
      elim (Bool-cases (is_filled (get_node g id))) [
        | inl f ↦ (g, unfold create_node_with_id_and_labels in rw f, inl (refl, f))
        | inr e ↦
            let empty : at none g.nodes id ≡ none = unfold get_node in unfilled (get_node g id) e in
            elim (Bool-cases (leb (length g.nodes) id)) [
              | inl beyond ↦
                  let nodes = resize none (id + 1) g.nodes in
                  let out = resize [] (id + 1) g.outgoing_edges in
                  let inc = resize [] (id + 1) g.incoming_edges in
                  let b = Grown-resize g id w (leb→le (length g.nodes) id beyond) in
                  let kept : (id + 1) % 2 ^ 64 ≡ id + 1 = omega arith in
                  (
                    restored g id labels nodes out inc,
                    unfold create_node_with_id_and_labels in
                        rw (e, beyond)
                          (rw
                            (
                              kept,
                              write_in nodes id (some (empty_node id labels)) b.room,
                              write_in out id [] (omega (arith, b.room, b.outgoing_length)),
                              write_in inc id [] (omega (arith, b.room, b.incoming_length)),
                              indexed g id labels nodes out inc b.room,
                            )
                            refl),
                    inr (restored-NodeCreated g id labels nodes out inc w empty b),
                  )
              | inr within ↦
                  let b = Grown-at g id w (ground arith) in
                  (
                    restored g id labels g.nodes g.outgoing_edges g.incoming_edges,
                    unfold create_node_with_id_and_labels in
                        rw (e, within)
                          (rw
                            (
                              write_in g.nodes id (some (empty_node id labels)) b.room,
                              write_in g.outgoing_edges id []
                                  (omega (arith, b.room, b.outgoing_length)),
                              write_in g.incoming_edges id []
                                  (omega (arith, b.room, b.incoming_length)),
                              indexed g id labels g.nodes g.outgoing_edges g.incoming_edges b.room,
                            )
                            refl),
                    inr (
                        restored-NodeCreated g id labels g.nodes g.outgoing_edges g.incoming_edges w
                          empty b),
                  )
            ]
      ]
