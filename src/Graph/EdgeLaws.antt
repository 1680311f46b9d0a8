-- ===== src/Graph/EdgeLaws.antt =====
-- graph.rs: what `create_edge` and `delete_edge` do to a graph whose invariant holds.
use maharit_db.Base.{
  ℕ, ◌-◌, ◌<◌, none, some, ◌∷◌, ◌≡◌, refl, ◌∙◌, if◌then◌else◌, arith, inl, inr, Option-cases,
  lt→ltb,
}
use maharit_db.Base.Eq.{◌==◌, nat_eq, string_eq}
use maharit_db.Base.Vec
use maharit_db.Base.Vec.{at, at-set, at-push, at_beyond, length-set, some_in, write_in}
use maharit_db.Graph.{Graph, Edge, get_node, get_edge}
use maharit_db.Graph.Edges.{delete_edge, remove_at}
use maharit_db.Graph.WellFormed.{WellFormed}
use maharit_db.Graph.Adjacency.{Exact-remove, length-remove_at, SlotsFit-clear, EdgesFit-clear}

module _ {V : Type 0} where
  unlinked : Graph V → ℕ → Edge V → Graph V
  unlinked g id e = record g {
    edges = Vec.set g.edges id none;
    outgoing_edges = remove_at g.outgoing_edges e.from id;
    incoming_edges = remove_at g.incoming_edges e.to id;
    edge_free_list = id ∷ g.edge_free_list;
    edge_count = g.edge_count - 1;
  }

  unlinked-WellFormed :
      (g : Graph V) (id : ℕ) (e : Edge V)
      → at none g.edges id ≡ some e
      → WellFormed g
      → WellFormed (unlinked g id e)
  unfolding unlinked
  unlinked-WellFormed g id e here w = record {
    outgoing_length = length-remove_at g.outgoing_edges e.from id ∙ w.outgoing_length;
    incoming_length = length-remove_at g.incoming_edges e.to id ∙ w.incoming_length;
    nodes_fit = w.nodes_fit;
    edges_fit = EdgesFit-clear g.nodes g.edges id e here w.edges_fit;
    node_slots = w.node_slots;
    edge_slots = (SlotsFit-clear g.edges g.edge_free_list g.edge_count id e here w.edge_slots).1;
    outgoing_exact = Exact-remove (λ x. x.from) g.edges g.outgoing_edges id e here w.outgoing_exact;
    incoming_exact = Exact-remove (λ x. x.to) g.edges g.incoming_edges id e here w.incoming_exact;
  }

  delete_edge-unlinked :
      (g : Graph V) (id : ℕ) (e : Edge V)
      → get_edge g id ≡ some e
      → 0 < g.edge_count
      → delete_edge g id ≡ some (some e, unlinked g id e)
  unfolding delete_edge unlinked
  delete_edge-unlinked g id e here pos = rw (here, delete_edge) (rw (lt→ltb 0 g.edge_count pos))

  get_edge-unlinked :
      (g : Graph V) (id j : ℕ) (e : Edge V)
      → at none g.edges id ≡ some e
      → get_edge (unlinked g id e) j ≡ (if id == j then none else get_edge g j)
  unfolding get_edge unlinked
  get_edge-unlinked g id j e here = at-set none g.edges id j none (some_in g.edges id e here)

  -- In a well-formed graph `delete_edge` never panics. It returns the edge that was there, if
  -- any; afterwards that number has no edge, every other edge and every node is as before, and
  -- the graph is well-formed.
  pub delete_edge-WellFormed :
      (g : Graph V) (id : ℕ)
      → WellFormed g
      → (g' : Graph V) × (delete_edge g id ≡ some (get_edge g id, g'))
        × WellFormed g'
        × ((j : ℕ) → get_edge g' j ≡ (if id == j then none else get_edge g j))
        × ((n : ℕ) → get_node g' n ≡ get_node g n)
  delete_edge-WellFormed g id w = elim (Option-cases (get_edge g id)) [
    | inl e ↦ (g, unfold delete_edge in rw (e, delete_edge), w, λ j. missing j e, λ n. refl)
    | inr (e, here) ↦
        let at_id : at none g.edges id ≡ some e = unfold get_edge in here in
        let (pos, _) =
          SlotsFit-clear g.edges g.edge_free_list g.edge_count id e at_id w.edge_slots in
        (
          unlinked g id e,
          rw here (delete_edge-unlinked g id e here pos),
          unlinked-WellFormed g id e at_id w,
          λ j. get_edge-unlinked g id j e at_id,
          λ n. unfold get_node unlinked in refl,
        )
  ]
    where
      missing :
          (j : ℕ) → get_edge g id ≡ none → get_edge g j ≡ (if id == j then none else get_edge g j)
      missing j e = ground arith
