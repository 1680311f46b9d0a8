-- ===== src/Graph/NodeDeletion.antt =====
-- graph.rs: what `delete_node` does to a graph whose invariant holds.
use maharit_db.Base.{
  ℕ, ◌<◌, false, ◌||◌, Option, none, some, [], ◌≡◌, ◌∙◌, sym, refl, length, arith, inl, inr,
  Bool-cases, Option-cases, if◌then◌else◌,
}
use maharit_db.Base.Eq.{◌==◌, nat_eq, string_eq}
use maharit_db.Base.Vec
use maharit_db.Base.Vec.{at, at-set, length-set, write_in, some_in}
use maharit_db.Graph.{Graph, Edge, get_node, get_edge}
use maharit_db.Graph.Deletion.{drop_outgoing, drop_incoming, delete_node}
use maharit_db.Graph.WellFormed.{WellFormed, keyed}
use maharit_db.Graph.NodeLaws.{unkeyed}
use maharit_db.Graph.NodeTaking.{take_node_lem}
use maharit_db.Graph.DropLoops.{unless_keyed, loop}

module _ {V : Type 0} where
  abbrev leaving : Edge V → ℕ
  leaving e = e.from

  abbrev entering : Edge V → ℕ
  entering e = e.to

  -- the loop over one side of the node's edges gives a well-formed graph without them
  abbrev OneSide : (Graph V → ℕ → Option (Graph V)) → (Edge V → ℕ) → Type 0
  OneSide drop end =
      (g : Graph V) (id : ℕ)
      → WellFormed g
      → id < length g.nodes
      → (g' : Graph V) × (drop g id ≡ some g')
        × WellFormed g'
        × (g'.nodes ≡ g.nodes)
        × ((j : ℕ) → at none g'.edges j ≡ unless_keyed end id (at none g.edges j))

  drop_outgoing_lem : OneSide drop_outgoing leaving
  drop_outgoing_lem g id w inside =
      let room : id < length g.outgoing_edges = rw w.outgoing_length inside in
      let (p, run, l) =
        loop leaving entering g.nodes id g.edges g.outgoing_edges g.incoming_edges g.edge_free_list
          g.edge_count w.edges_fit w.edge_slots w.outgoing_exact w.incoming_exact w.incoming_length
          room in
      (
        record g {
          outgoing_edges = Vec.set g.outgoing_edges id [];
          edges = p.edges;
          incoming_edges = p.sets;
          edge_free_list = p.free;
          edge_count = p.count;
        },
        unfold drop_outgoing in rw (write_in g.outgoing_edges id [] room) (rw run),
        record {
          outgoing_length = length-set g.outgoing_edges id [] ∙ w.outgoing_length;
          incoming_length = l.far_length;
          nodes_fit = w.nodes_fit;
          edges_fit = l.edges_fit;
          node_slots = w.node_slots;
          edge_slots = l.slots;
          outgoing_exact = l.near_exact;
          incoming_exact = l.far_exact;
        },
        refl,
        l.same,
      )

  drop_incoming_lem : OneSide drop_incoming entering
  drop_incoming_lem g id w inside =
      let room : id < length g.incoming_edges = rw w.incoming_length inside in
      let (p, run, l) =
        loop entering leaving g.nodes id g.edges g.incoming_edges g.outgoing_edges g.edge_free_list
          g.edge_count w.edges_fit w.edge_slots w.incoming_exact w.outgoing_exact w.outgoing_length
          room in
      (
        record g {
          incoming_edges = Vec.set g.incoming_edges id [];
          edges = p.edges;
          outgoing_edges = p.sets;
          edge_free_list = p.free;
          edge_count = p.count;
        },
        unfold drop_incoming in rw (write_in g.incoming_edges id [] room) (rw run),
        record {
          outgoing_length = l.far_length;
          incoming_length = length-set g.incoming_edges id [] ∙ w.incoming_length;
          nodes_fit = w.nodes_fit;
          edges_fit = l.edges_fit;
          node_slots = w.node_slots;
          edge_slots = l.slots;
          outgoing_exact = l.far_exact;
          incoming_exact = l.near_exact;
        },
        refl,
        l.same,
      )

  -- The slot of the node, and of every edge that has an end there, is emptied.
  abbrev pub without : ℕ → Option (Edge V) → Option (Edge V)
  without id slot = if keyed leaving slot id || keyed entering slot id then none else slot

  kept_edge :
      (end : Edge V → ℕ) (id : ℕ) (slot : Option (Edge V)) (e : Edge V)
      → unless_keyed end id slot ≡ some e
      → (slot ≡ some e) × ((end e == id) ≡ false)
  unfolding keyed
  kept_edge end id none e h = cc
  kept_edge end id (some x) e h = elim (Bool-cases (end x == id)) [
    | inl p ↦ absurd (ground (arith, h, p))
    | inr p ↦ let q : some x ≡ some e = rw p at h in (q, ground (arith, p, q))
  ]

  without-two :
      (id : ℕ) (slot : Option (Edge V))
      → unless_keyed entering id (unless_keyed leaving id slot) ≡ without id slot
  unfolding keyed
  without-two id none = refl
  without-two id (some e) = ground arith

  -- In a well-formed graph `delete_node` never panics. It returns the node that was there, if
  -- any; afterwards the graph is well-formed, that number has no node, every other node is as
  -- before, and of the edges exactly those with an end at the node are gone.
  pub delete_node-WellFormed :
      (g : Graph V) (id : ℕ)
      → WellFormed g
      → (g' : Graph V) × (delete_node g id ≡ some (get_node g id, g'))
        × WellFormed g'
        × ((n : ℕ) → get_node g' n ≡ (if id == n then none else get_node g n))
        × ((j : ℕ) → get_edge g' j ≡ without id (get_edge g j))
  unfolding get_node get_edge
  delete_node-WellFormed g id w = elim (Option-cases (at none g.nodes id)) [
    | inl e ↦ (
      g,
      unfold delete_node in rw (e, delete_node),
      w,
      λ n. ground (arith, e),
      λ j.
          rw
            (
              unkeyed leaving g.nodes g.edges id j e w.edges_fit.edge_from,
              unkeyed entering g.nodes g.edges id j e w.edges_fit.edge_to,
            )
            refl,
    )
    | inr (n, here) ↦
        let (g₁, run₁, w₁, nodes₁, edges₁) = drop_outgoing_lem g id w (some_in g.nodes id n here) in
        let here₁ : at none g₁.nodes id ≡ some n = rw (nodes₁, here) in
        let (g₂, run₂, w₂, nodes₂, edges₂) =
          drop_incoming_lem g₁ id w₁ (some_in g₁.nodes id n here₁) in
        let here₂ : at none g₂.nodes id ≡ some n = rw (nodes₂, here₁) in
        let entered : (j : ℕ) (e : Edge V)
            → at none g₂.edges j ≡ some e
            → (at none g₁.edges j ≡ some e) × ((e.to == id) ≡ false) =
          λ j e h. kept_edge entering id (at none g₁.edges j) e (sym (edges₂ j) ∙ h) in
        let (g₃, run₃, w₃, nodes₃, edges₃) =
          take_node_lem g₂ id n w₂ here₂
            (λ j e h.
              (kept_edge leaving id (at none g.edges j) e (sym (edges₁ j) ∙ (entered j e h).0)).1)
            (λ j e h. (entered j e h).1) in
        (
          g₃,
          unfold delete_node in rw (here, delete_node) (rw run₁ (rw run₂ run₃)),
          w₃,
          λ k.
              rw (nodes₃, nodes₂, nodes₁)
                (at-set none g.nodes id k none (some_in g.nodes id n here)),
          λ j. rw (edges₃, edges₂ j, edges₁ j) (without-two id (at none g.edges j)),
        )
  ]
