-- ===== src/Graph/NodeTaking.antt =====
-- graph.rs: what taking a node at which no edge ends does to a graph whose invariant holds.
use maharit_db.Base.{
  ℕ, ◌-◌, true, false, none, some, ◌∷◌, ◌≡◌, ◌∙◌, sym, refl, arith, inl, inr, Bool-cases,
  if◌then◌else◌, lt→ltb,
}
use maharit_db.Base.Eq.{◌==◌, nat_eq, string_eq}
use maharit_db.Base.Vec
use maharit_db.Base.Vec.{at, at-set, length-set, write_in, some_in}
use maharit_db.Graph.{Graph, Node, Edge, get_node, is_filled, index_remove_all, has_label}
use maharit_db.Graph.Deletion.{take_node}
use maharit_db.Graph.WellFormed.{WellFormed, NodesFit, EdgesFit, labelled}
use maharit_db.Graph.Adjacency.{SlotsFit-clear}
use maharit_db.Graph.Index.{listed-remove_all}

module _ {V : Type 0} where
  -- the label index without the node
  NodesFit-clear :
      (g : Graph V) (id : ℕ) (n : Node V)
      → at none g.nodes id ≡ some n
      → NodesFit g.nodes g.label_index
      → NodesFit (Vec.set g.nodes id none) (index_remove_all id n.labels g.label_index)
  unfolding labelled has_label
  NodesFit-clear g id n here fit =
      let wrote : (j : ℕ)
          → at none (Vec.set g.nodes id none) j ≡ (if id == j then none else at none g.nodes j) =
        λ j. at-set none g.nodes id j none (some_in g.nodes id n here) in
      record {
        node_id = λ i m h. fit.node_id i m (ground (arith, wrote i, h));
        indexed = λ l i.
            rw (listed-remove_all id n.labels g.label_index l i, wrote i)
              (elim (Bool-cases (id == i)) [
                | inl p ↦ ground (arith, fit.indexed l i, here)
                | inr p ↦ ground (arith, fit.indexed l i)
              ]);
      }

  EdgesFit-unnode :
      (g : Graph V) (id : ℕ) (n : Node V)
      → at none g.nodes id ≡ some n
      → ((j : ℕ) (e : Edge V) → at none g.edges j ≡ some e → (e.from == id) ≡ false)
      → ((j : ℕ) (e : Edge V) → at none g.edges j ≡ some e → (e.to == id) ≡ false)
      → EdgesFit g.nodes g.edges
      → EdgesFit (Vec.set g.nodes id none) g.edges
  EdgesFit-unnode g id n here no_from no_to fit = record {
    edge_id = fit.edge_id;
    edge_from = λ i e h. still e.from (no_from i e h) (fit.edge_from i e h);
    edge_to = λ i e h. still e.to (no_to i e h) (fit.edge_to i e h);
  }
    where
      still :
          (f : ℕ)
          → (f == id) ≡ false
          → is_filled (at none g.nodes f) ≡ true
          → is_filled (at none (Vec.set g.nodes id none) f) ≡ true
      still f other filled =
          ground (arith, at-set none g.nodes id f none (some_in g.nodes id n here))

  pub take_node_lem :
      (g : Graph V) (id : ℕ) (n : Node V)
      → WellFormed g
      → at none g.nodes id ≡ some n
      → ((j : ℕ) (e : Edge V) → at none g.edges j ≡ some e → (e.from == id) ≡ false)
      → ((j : ℕ) (e : Edge V) → at none g.edges j ≡ some e → (e.to == id) ≡ false)
      → (g' : Graph V) × (take_node g id ≡ some (some n, g'))
        × WellFormed g'
        × (g'.nodes ≡ Vec.set g.nodes id none)
        × (g'.edges ≡ g.edges)
  take_node_lem g id n w here no_from no_to =
      let (pos, slots) =
        SlotsFit-clear g.nodes g.node_free_list g.node_count id n here w.node_slots in
      (
        record g {
          nodes = Vec.set g.nodes id none;
          label_index = index_remove_all id n.labels g.label_index;
          node_free_list = id ∷ g.node_free_list;
          node_count = g.node_count - 1;
        },
        unfold take_node get_node in rw (here, take_node) (rw (lt→ltb 0 g.node_count pos)),
        record {
          outgoing_length = w.outgoing_length ∙ sym (length-set g.nodes id none);
          incoming_length = w.incoming_length ∙ sym (length-set g.nodes id none);
          nodes_fit = NodesFit-clear g id n here w.nodes_fit;
          edges_fit = EdgesFit-unnode g id n here no_from no_to w.edges_fit;
          node_slots = slots;
          edge_slots = w.edge_slots;
          outgoing_exact = w.outgoing_exact;
          incoming_exact = w.incoming_exact;
        },
        refl,
        refl,
      )
