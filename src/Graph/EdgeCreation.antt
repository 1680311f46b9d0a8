-- ===== src/Graph/EdgeCreation.antt =====
-- graph.rs: what `create_edge` does to a graph whose invariant holds.
use mathlib.Core.Path.{subst}
use maharit_db.Base.{
  ℕ, ◌+◌, ◌<◌, String, true, false, Option, none, some, List, [], ◌∷◌, ◌++◌, ◌≡◌, refl, ◌∙◌, length,
  ◌⊎◌, if◌then◌else◌, arith, inl, inr, Bool-cases, Option-cases, List-cases,
}
use maharit_db.Base.Eq.{◌==◌, nat_eq, string_eq}
use maharit_db.Base.Set
use maharit_db.Base.Vec
use maharit_db.Base.Vec.{at, at-set, at-push, at_beyond, length-set, some_in, write_in}
use maharit_db.Graph.{
  Graph, Edge, node_not_found, edge_not_found, Outcome, ok, err, is_filled, empty_edge, get_node,
  get_edge,
}
use maharit_db.Graph.Edges.{create_edge, linked, placed}
use maharit_db.Graph.WellFormed.{WellFormed, SlotsFit}
use maharit_db.Graph.Adjacency.{
  Exact-insert, insert_at_in, SlotsFit-reuse, SlotsFit-push, EdgesFit-fill,
}

pub filled_in :
    {A : Type 0} (slots : List (Option A)) (i : ℕ)
    → is_filled (at none slots i) ≡ true
    → i < length slots
filled_in slots i h = elim (Option-cases (at none slots i)) [
  | inl e ↦ cc
  | inr (a, e) ↦ some_in slots i a e
]

pub unfilled : {A : Type 0} (o : Option A) → is_filled o ≡ false → o ≡ none
unfilled none h = refl
unfilled (some a) h = cc

module _ {V : Type 0} where
  -- a slot for the new edge, and what it leaves of the slots
  pub record Placed (g : Graph V) (e : ℕ → Edge V) (id : ℕ) (edges : List (Option (Edge V)))
      (free : List ℕ) : Type 0 where
    pub slot_empty : at none g.edges id ≡ none
    pub wrote : (j : ℕ) → at none edges j ≡ (if id == j then some (e id) else at none g.edges j)
    pub slots : SlotsFit edges free (g.edge_count + 1)

  placed_lem :
      (g : Graph V) (from to : ℕ) (label : String)
      → WellFormed g
      → (id : ℕ) × (edges : List (Option (Edge V))) × (free : List ℕ) × (placed g from to label
          ≡ some (id, record g { edges = edges; edge_free_list = free }))
        × Placed g (λ i. empty_edge i from to label) id edges free
  placed_lem g from to label w = elim (List-cases g.edge_free_list) [
    | inl e ↦
        let id = length g.edges in
        let edge = empty_edge id from to label in
        (
          id,
          g.edges ++ some edge ∷ [],
          g.edge_free_list,
          unfold placed in ground arith,
          record {
            slot_empty = at_beyond none g.edges id (omega arith);
            wrote = λ j. at-push none g.edges j (some edge);
            slots = SlotsFit-push g.edges g.edge_free_list g.edge_count edge w.edge_slots;
          },
        )
    | inr (id, free, e) ↦
        let edge = empty_edge id from to label in
        let (inside, empty, fit) =
          SlotsFit-reuse g.edges free g.edge_count id edge
            (subst (λ f. SlotsFit g.edges f g.edge_count) e w.edge_slots) in
        (
          id,
          Vec.set g.edges id (some edge),
          free,
          unfold placed in rw (e, placed) (rw (write_in g.edges id (some edge) inside)),
          record {
            slot_empty = empty;
            wrote = λ j. at-set none g.edges id j (some edge) inside;
            slots = fit;
          },
        )
  ]

  abbrev pub with_links : ℕ → ℕ → ℕ → Graph V → Graph V
  with_links id from to g = record g {
    outgoing_edges = Vec.set g.outgoing_edges from (Set.insert id (at [] g.outgoing_edges from));
    incoming_edges = Vec.set g.incoming_edges to (Set.insert id (at [] g.incoming_edges to));
    edge_count = g.edge_count + 1;
  }

  pub linked_lem :
      (id from to : ℕ) (g : Graph V)
      → from < length g.outgoing_edges
      → to < length g.incoming_edges
      → linked id from to g ≡ some (ok id, with_links id from to g)
  unfolding linked
  linked_lem id from to g h k =
      rw (insert_at_in g.outgoing_edges from id h, insert_at_in g.incoming_edges to id k)

  -- The graph after an edge `id` has been created, or an end was missing.
  abbrev pub Created : Graph V → ℕ → ℕ → String → Outcome ℕ → Graph V → Type 0
  Created g from to label (ok id) g' =
      WellFormed g'
      × (get_edge g id ≡ none)
      × ((j : ℕ)
          → get_edge g' j ≡ (if id == j then some (empty_edge id from to label) else get_edge g j))
      × ((n : ℕ) → get_node g' n ≡ get_node g n)
  Created g from to label (err (node_not_found n)) g' =
      (g' ≡ g) × (get_node g n ≡ none) × ((n ≡ from) ⊎ (n ≡ to))
  Created g from to label (err (edge_not_found e)) g' = ⊥

  pub linked-WellFormed :
      (g : Graph V) (edges : List (Option (Edge V))) (free : List ℕ) (id from to : ℕ)
      (label : String)
      → WellFormed g
      → Placed g (λ i. empty_edge i from to label) id edges free
      → is_filled (at none g.nodes from) ≡ true
      → is_filled (at none g.nodes to) ≡ true
      → WellFormed (with_links id from to (record g { edges = edges; edge_free_list = free }))
  linked-WellFormed g edges free id from to label w p f t = record {
    outgoing_length = length-set g.outgoing_edges from _ ∙ w.outgoing_length;
    incoming_length = length-set g.incoming_edges to _ ∙ w.incoming_length;
    nodes_fit = w.nodes_fit;
    edges_fit =
        EdgesFit-fill g.nodes g.edges edges id (empty_edge id from to label) p.wrote refl f t
          w.edges_fit;
    node_slots = w.node_slots;
    edge_slots = p.slots;
    outgoing_exact =
        Exact-insert (λ x. x.from) g.edges edges g.outgoing_edges id (empty_edge id from to label)
          p.slot_empty p.wrote (omega (arith, filled_in g.nodes from f, w.outgoing_length))
          w.outgoing_exact;
    incoming_exact =
        Exact-insert (λ x. x.to) g.edges edges g.incoming_edges id (empty_edge id from to label)
          p.slot_empty p.wrote (omega (arith, filled_in g.nodes to t, w.incoming_length))
          w.incoming_exact;
  }

  create_edge-made :
      (g : Graph V) (from to : ℕ) (label : String)
      → WellFormed g
      → is_filled (get_node g from) ≡ true
      → is_filled (get_node g to) ≡ true
      → (r : Outcome ℕ × Graph V) × (create_edge g from to label ≡ some r)
        × Created g from to label r.0 r.1
  unfolding get_node get_edge
  create_edge-made g from to label w f t =
      let (id, edges, free, made, p) = placed_lem g from to label w in
      let in_from : from < length g.outgoing_edges =
        omega (arith, filled_in g.nodes from f, w.outgoing_length) in
      let in_to : to < length g.incoming_edges =
        omega (arith, filled_in g.nodes to t, w.incoming_length) in
      let g' = record g { edges = edges; edge_free_list = free } in
      (
        (ok id, with_links id from to g'),
        unfold create_edge in rw (f, t, made) (linked_lem id from to g' in_from in_to),
        (linked-WellFormed g edges free id from to label w p f t, p.slot_empty, p.wrote, λ n. refl),
      )

  -- In a well-formed graph `create_edge` never panics. If both ends exist it creates an edge
  -- under a number that had none, with the given ends and label; every other edge and every node
  -- is as before and the graph is well-formed. If an end is missing, the error names it and the
  -- graph is unchanged.
  pub create_edge-Created :
      (g : Graph V) (from to : ℕ) (label : String)
      → WellFormed g
      → (r : Outcome ℕ × Graph V) × (create_edge g from to label ≡ some r)
        × Created g from to label r.0 r.1
  create_edge-Created g from to label w = elim (Bool-cases (is_filled (get_node g from))) [
    | inr no_from ↦ (
      (err (node_not_found from), g),
      unfold create_edge in rw no_from,
      (refl, unfilled (get_node g from) no_from, inl refl),
    )
    | inl f ↦ elim (Bool-cases (is_filled (get_node g to))) [
      | inr no_to ↦ (
        (err (node_not_found to), g),
        unfold create_edge in rw (f, no_to),
        (refl, unfilled (get_node g to) no_to, inr refl),
      )
      | inl t ↦ create_edge-made g from to label w f t
    ]
  ]
