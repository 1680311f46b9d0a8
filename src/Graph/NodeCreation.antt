-- ===== src/Graph/NodeCreation.antt =====
-- graph.rs: `create_node_with_labels` in a graph whose invariant holds.
use mathlib.Core.Path.{subst}
use maharit_db.Base.{
  ℕ, ◌+◌, ◌<◌, String, Option, none, some, List, [], ◌∷◌, ◌++◌, ◌≡◌, refl, sym, ◌∙◌, length,
  length-append, if◌then◌else◌, arith, inl, inr, List-cases,
}
use maharit_db.Base.Eq.{◌==◌, nat_eq, string_eq}
use maharit_db.Base.Set
use maharit_db.Base.Vec
use maharit_db.Base.Vec.{at, at-set, at-push, at_beyond, length-set, some_in, write_in}
use maharit_db.Graph.{
  Graph, Node, empty_node, get_node, get_edge, create_node_with_labels, index_insert_all,
}
use maharit_db.Graph.WellFormed.{WellFormed, SlotsFit}
use maharit_db.Graph.Adjacency.{SlotsFit-reuse, SlotsFit-push}
use maharit_db.Graph.NodeLaws.{
  EdgesFit-nodes, NodesFit-fill, filled_more, Exact-same, push_same, clear_same, NodeCreated,
}

same_push :
    {A : Type 0} (sets : List (List ℕ)) (slots : List A) (a : A)
    → length sets ≡ length slots
    → length (sets ++ [] ∷ []) ≡ length (slots ++ a ∷ [])
same_push sets slots a h =
    omega (arith, length-append sets ([] ∷ []), length-append slots (a ∷ []), h)

pub same_set :
    {A : Type 0} (sets : List (List ℕ)) (slots : List A) (i : ℕ) (a : A)
    → length sets ≡ length slots
    → length (Vec.set sets i []) ≡ length (Vec.set slots i a)
same_set sets slots i a h = length-set sets i [] ∙ h ∙ sym (length-set slots i a)

module _ {V : Type 0} where
  abbrev pub grown :
      Graph V
      → List String
      → ℕ
      → List (Option (Node V))
      → List (List ℕ)
      → List (List ℕ)
      → List ℕ
      → Graph V
  grown g labels id nodes outgoing incoming free = record g {
    nodes = nodes;
    outgoing_edges = outgoing;
    incoming_edges = incoming;
    node_free_list = free;
    node_count = g.node_count + 1;
    label_index = index_insert_all id labels g.label_index;
  }

  -- the new node's slot, and the vectors beside it
  pub record Slotted (g : Graph V) (labels : List String) (id : ℕ) (nodes : List (Option (Node V)))
      (outgoing incoming : List (List ℕ)) (free : List ℕ) : Type 0 where
    pub slot_empty : at none g.nodes id ≡ none
    pub wrote :
        (j : ℕ)
        → at none nodes j ≡ (if id == j then some (empty_node id labels) else at none g.nodes j)
    pub slots : SlotsFit nodes free (g.node_count + 1)
    pub outgoing_length : length outgoing ≡ length nodes
    pub incoming_length : length incoming ≡ length nodes
    pub outgoing_same :
        (n i : ℕ) → Set.contains i (at [] outgoing n) ≡ Set.contains i (at [] g.outgoing_edges n)
    pub incoming_same :
        (n i : ℕ) → Set.contains i (at [] incoming n) ≡ Set.contains i (at [] g.incoming_edges n)

  pub grown-NodeCreated :
      (g : Graph V) (labels : List String) (id : ℕ) (nodes : List (Option (Node V)))
      (outgoing incoming : List (List ℕ)) (free : List ℕ)
      → WellFormed g
      → Slotted g labels id nodes outgoing incoming free
      → NodeCreated g labels id (grown g labels id nodes outgoing incoming free)
  unfolding get_node get_edge
  grown-NodeCreated g labels id nodes outgoing incoming free w s = (
    record {
      outgoing_length = s.outgoing_length;
      incoming_length = s.incoming_length;
      nodes_fit =
          NodesFit-fill g.nodes nodes g.label_index id labels s.slot_empty s.wrote w.nodes_fit;
      edges_fit =
          EdgesFit-nodes g.nodes nodes g.edges
            (filled_more g.nodes nodes g.label_index id labels s.slot_empty s.wrote) w.edges_fit;
      node_slots = s.slots;
      edge_slots = w.edge_slots;
      outgoing_exact =
          Exact-same (λ x. x.from) g.edges g.outgoing_edges outgoing s.outgoing_same
            w.outgoing_exact;
      incoming_exact =
          Exact-same (λ x. x.to) g.edges g.incoming_edges incoming s.incoming_same w.incoming_exact;
    },
    s.slot_empty,
    s.wrote,
    λ e. refl,
  )

  create-append :
      (g : Graph V) (labels : List String)
      → g.node_free_list ≡ []
      → create_node_with_labels g labels
        ≡ some (
          length g.nodes,
          grown g labels
              (length g.nodes)
              (g.nodes ++ some (empty_node (length g.nodes) labels) ∷ [])
              (g.outgoing_edges ++ [] ∷ [])
              (g.incoming_edges ++ [] ∷ [])
              g.node_free_list,
        )
  unfolding create_node_with_labels
  create-append g labels e =
      let id = length g.nodes in
      ground (arith, at-push none g.nodes id (some (empty_node {V = V} id labels)))

  create-reuse :
      (g : Graph V) (labels : List String) (id : ℕ) (free : List ℕ)
      → g.node_free_list ≡ id ∷ free
      → id < length g.nodes
      → id < length g.outgoing_edges
      → id < length g.incoming_edges
      → create_node_with_labels g labels
        ≡ some (
          id,
          grown g labels id
              (Vec.set g.nodes id (some (empty_node id labels)))
              (Vec.set g.outgoing_edges id [])
              (Vec.set g.incoming_edges id [])
              free,
        )
  unfolding create_node_with_labels
  create-reuse g labels id free e h k l =
      let node : Option (Node V) = some (empty_node id labels) in
      ground (
        arith,
        write_in g.nodes id node h,
        write_in g.outgoing_edges id [] k,
        write_in g.incoming_edges id [] l,
        at-set none g.nodes id id node h,
      )

  -- In a well-formed graph `create_node_with_labels` never panics. The node gets a number that
  -- had no node, has the given labels and no property; every other node and every edge is as
  -- before, and the graph is well-formed.
  pub create_node-NodeCreated :
      (g : Graph V) (labels : List String)
      → WellFormed g
      → (id : ℕ) × (g' : Graph V) × (create_node_with_labels g labels ≡ some (id, g'))
        × NodeCreated g labels id g'
  create_node-NodeCreated g labels w = elim (List-cases g.node_free_list) [
    | inl e ↦
        let id = length g.nodes in
        let node : Option (Node V) = some (empty_node id labels) in
        (
          id,
          grown g labels id (g.nodes ++ node ∷ []) (g.outgoing_edges ++ [] ∷ [])
              (g.incoming_edges ++ [] ∷ []) g.node_free_list,
          create-append g labels e,
          grown-NodeCreated g labels id (g.nodes ++ node ∷ []) (g.outgoing_edges ++ [] ∷ [])
              (g.incoming_edges ++ [] ∷ []) g.node_free_list w
              (record {
                slot_empty = at_beyond none g.nodes id (omega arith);
                wrote = λ j. at-push none g.nodes j node;
                slots =
                    SlotsFit-push g.nodes g.node_free_list g.node_count (empty_node id labels)
                      w.node_slots;
                outgoing_length = same_push g.outgoing_edges g.nodes node w.outgoing_length;
                incoming_length = same_push g.incoming_edges g.nodes node w.incoming_length;
                outgoing_same = push_same g.outgoing_edges;
                incoming_same = push_same g.incoming_edges;
              }),
        )
    | inr (id, free, e) ↦
        let node : Option (Node V) = some (empty_node id labels) in
        let (inside, empty, fit) =
          SlotsFit-reuse g.nodes free g.node_count id (empty_node id labels)
            (subst (λ f. SlotsFit g.nodes f g.node_count) e w.node_slots) in
        let in_out : id < length g.outgoing_edges = omega (arith, inside, w.outgoing_length) in
        let in_in : id < length g.incoming_edges = omega (arith, inside, w.incoming_length) in
        (
          id,
          grown g labels id (Vec.set g.nodes id node) (Vec.set g.outgoing_edges id [])
              (Vec.set g.incoming_edges id []) free,
          create-reuse g labels id free e inside in_out in_in,
          grown-NodeCreated g labels id (Vec.set g.nodes id node) (Vec.set g.outgoing_edges id [])
              (Vec.set g.incoming_edges id []) free w
              (record {
                slot_empty = empty;
                wrote = λ j. at-set none g.nodes id j node inside;
                slots = fit;
                outgoing_length = same_set g.outgoing_edges g.nodes id node w.outgoing_length;
                incoming_length = same_set g.incoming_edges g.nodes id node w.incoming_length;
                outgoing_same =
                    clear_same (λ x. x.from) g.nodes g.edges g.outgoing_edges id empty
                      w.edges_fit.edge_from in_out w.outgoing_exact;
                incoming_same =
                    clear_same (λ x. x.to) g.nodes g.edges g.incoming_edges id empty
                      w.edges_fit.edge_to in_in w.incoming_exact;
              }),
        )
  ]
