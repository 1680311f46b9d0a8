-- ===== src/Concurrent/NodeDeletion.antt =====
-- concurrent_graph.rs: `delete_node`.
use mathlib.Core.Path.{subst}
use maharit_db.Base.{
  ℕ, String, true, false, ◌||◌, Option, none, some, List, ◌≡◌, refl, sym, ◌∙◌, if◌then◌else◌, arith,
  inl, inr, Bool-cases, Option-cases,
}
use maharit_db.Base.Eq.{◌==◌, nat_eq, string_eq, eq_of_==}
use maharit_db.Base.Map
use maharit_db.Base.Map.{Map, lookup-remove}
use maharit_db.Graph.{Node, Edge, is_filled, has_label}
use maharit_db.Graph.WellFormed.{keyed, labelled}
use maharit_db.Concurrent.{ConcurrentGraph, label_index_remove}
use maharit_db.Concurrent.Calls.{take_outgoing, take_incoming, delete_node}
use maharit_db.Concurrent.Sets.{listed-label_index_remove}
use maharit_db.Concurrent.Consistent.{NodesFit, EdgesFit, IsConsistent, no_edge_from, no_edge_to}
use maharit_db.Concurrent.Deletion.{SameNodes}
use maharit_db.Concurrent.Taken.{take_outgoing-Taken, take_incoming-Taken}

module _ {V : Type 0} where
  abbrev pub without : ℕ → Option (Edge V) → Option (Edge V)
  without id none = none
  without id (some e) = if (e.from == id) || (e.to == id) then none else some e

  -- what `delete_node` is to leave of the graph
  abbrev pub Deleted : ConcurrentGraph V → ℕ → ConcurrentGraph V → Type 0
  Deleted g id g' =
      IsConsistent g'
      × ((j : ℕ) → Map.lookup j g'.nodes ≡ (if id == j then none else Map.lookup j g.nodes))
      × ((j : ℕ) → Map.lookup j g'.edges ≡ without id (Map.lookup j g.edges))

  parted_twice :
      (id : ℕ) (e e₁ e₂ : Option (Edge V))
      → e₁ ≡ (if keyed (λ x. x.from) e id then none else e)
      → e₂ ≡ (if keyed (λ x. x.to) e₁ id then none else e₁)
      → e₂ ≡ without id e
  unfolding keyed
  parted_twice id none e₁ e₂ a b = rw (b, a) refl
  parted_twice id (some e) e₁ e₂ a b =
      rw (b, a) (elim (Bool-cases (e.from == id)) [ inl p ↦ rw p refl | inr p ↦ rw p refl ])

  untouched :
      (id : ℕ) (e : Option (Edge V))
      → keyed (λ x. x.from) e id ≡ false
      → keyed (λ x. x.to) e id ≡ false
      → e ≡ without id e
  unfolding keyed
  untouched id none a b = refl
  untouched id (some e) a b = rw (a, b) refl

  moved_nodes :
      (g g₁ g₂ : ConcurrentGraph V)
      → SameNodes g g₁
      → SameNodes g₁ g₂
      → (NodesFit g.nodes g.label_index g.next_node_id
          → NodesFit g₂.nodes g₂.label_index g₂.next_node_id)
        × (EdgesFit g.nodes g₂.edges g.next_edge_id → EdgesFit g₂.nodes g₂.edges g₂.next_edge_id)
        × (g₂.nodes ≡ g.nodes)
  moved_nodes g g₁ g₂ (a, b, c, d) (a', b', c', d') =
      (λ f. rw (a', a, b', b, c', c) f, λ f. rw (a', a, d', d) f, a' ∙ a)

  nodes_left :
      (nodes : Map ℕ (Node V)) (index : Map String (List ℕ)) (next id : ℕ) (n : Node V)
      → Map.lookup id nodes ≡ some n
      → NodesFit nodes index next
      → NodesFit (Map.remove id nodes) (label_index_remove id n.labels index) next
  unfolding labelled has_label
  nodes_left nodes index next id n here f = record {
    node_id = λ i m h. elim (Bool-cases (id == i)) [
      | inl p ↦ absurd (none_some m (rw (lookup-remove, p) at h))
      | inr p ↦ f.node_id i m (rw (lookup-remove, p) at h)
    ];
    node_issued = λ i h. elim (Bool-cases (id == i)) [
      | inl p ↦ absurd (empty_false (rw (lookup-remove, p) at h))
      | inr p ↦ f.node_issued i (rw (lookup-remove, p) at h)
    ];
    indexed = λ l i.
        rw (listed-label_index_remove, f.indexed l i, lookup-remove)
          (elim (Bool-cases (id == i)) [
            | inl p ↦ rw (p, ← eq_of_== id i p, here) (ground arith)
            | inr p ↦ rw p (ground arith)
          ]);
  }
    where
      none_some : (m : Node V) → none ≡ some m → ⊥
      none_some m h = cc

      empty_false : false ≡ true → ⊥
      empty_false h = cc

  edges_left :
      (nodes : Map ℕ (Node V)) (edges edges' : Map ℕ (Edge V)) (next id : ℕ)
      → ((j : ℕ) → Map.lookup j edges' ≡ without id (Map.lookup j edges))
      → EdgesFit nodes edges next
      → EdgesFit (Map.remove id nodes) edges' next
  edges_left nodes edges edges' next id left f = record {
    edge_id = λ i e h. let (old, a, b) = survived i e h in f.edge_id i e old;
    edge_from =
        λ i e h. let (old, a, b) = survived i e h in rw (lookup-remove, a) (f.edge_from i e old);
    edge_to =
        λ i e h. let (old, a, b) = survived i e h in rw (lookup-remove, b) (f.edge_to i e old);
    edge_issued = λ i h. f.edge_issued i (was_filled (Map.lookup i edges) (rw (left i) at h));
  }
    where
      survived_in :
          (o : Option (Edge V)) (e : Edge V)
          → without id o ≡ some e
          → (o ≡ some e) × ((id == e.from) ≡ false) × ((id == e.to) ≡ false)
      survived_in none e h = absurd (cc)
      survived_in (some x) e h = elim (Bool-cases ((x.from == id) || (x.to == id))) [
        | inl p ↦ absurd (ground arith)
        | inr p ↦
            let same : some x ≡ some e = rw p at h in
            let q : x ≡ e = cc in
            (
              same,
              subst (λ z. (id == z.from) ≡ false) q (ground arith),
              subst (λ z. (id == z.to) ≡ false) q (ground arith),
            )
      ]

      survived :
          (i : ℕ) (e : Edge V)
          → Map.lookup i edges' ≡ some e
          → (Map.lookup i edges ≡ some e) × ((id == e.from) ≡ false) × ((id == e.to) ≡ false)
      survived i e h = survived_in (Map.lookup i edges) e (sym (left i) ∙ h)

      was_filled : (o : Option (Edge V)) → is_filled (without id o) ≡ true → is_filled o ≡ true
      was_filled none h = h
      was_filled (some x) h = refl

  -- In a consistent graph `delete_node` returns the node. It removes the node and exactly the
  -- edges that touch it, leaves every other node and edge as it is, and the graph stays
  -- consistent.
  pub delete_node-Deleted :
      (g : ConcurrentGraph V) (id : ℕ)
      → IsConsistent g
      → ((delete_node g id).0 ≡ Map.lookup id g.nodes) × Deleted g id (delete_node g id).1
  unfolding delete_node
  delete_node-Deleted g id c = elim (Option-cases (Map.lookup id g.nodes)) [
    | inl miss ↦
        rw (miss, delete_node)
          (
            refl,
            (
              c,
              λ j. elim (Bool-cases (id == j)) [
                | inl p ↦ rw (p, ← eq_of_== id j p) miss
                | inr p ↦ rw p refl
              ],
              λ j.
                  untouched id (Map.lookup j g.edges)
                    (no_edge_from g.nodes g.edges g.next_edge_id id j c.edges_fit miss)
                    (no_edge_to g.nodes g.edges g.next_edge_id id j c.edges_fit miss),
            ),
          )
    | inr (n, here) ↦
        let g₀ : ConcurrentGraph V = record g {
          nodes = Map.remove id g.nodes;
          label_index = label_index_remove id n.labels g.label_index;
        } in
        let a = take_outgoing-Taken g₀ id c.leaving c.entering in
        let b = take_incoming-Taken (take_outgoing g₀ id) id a.leaving a.entering in
        let left : (j : ℕ)
            → Map.lookup j (take_incoming (take_outgoing g₀ id) id).edges
              ≡ without id (Map.lookup j g.edges) =
          (λ j. parted_twice id _ _ _ (a.parted j) (b.parted j)) in
        let nodes =
          moved_nodes g₀ (take_outgoing g₀ id) (take_incoming (take_outgoing g₀ id) id) a.same
            b.same in
        rw (here, delete_node)
          (
            refl,
            (
              record {
                nodes_fit =
                    nodes.0 (nodes_left g.nodes g.label_index g.next_node_id id n here c.nodes_fit);
                edges_fit = nodes.1 (
                    edges_left g.nodes g.edges (take_incoming (take_outgoing g₀ id) id).edges
                      g.next_edge_id id left c.edges_fit);
                leaving = b.leaving;
                entering = b.entering;
              },
              λ j. rw (nodes.2, lookup-remove) refl,
              left,
            ),
          )
  ]

  -- the counters stay
  pub delete_node_counters :
      (g : ConcurrentGraph V) (id : ℕ)
      → IsConsistent g
      → ((delete_node g id).1.next_node_id ≡ g.next_node_id)
        × ((delete_node g id).1.next_edge_id ≡ g.next_edge_id)
  unfolding delete_node
  delete_node_counters g id c = elim (Option-cases (Map.lookup id g.nodes)) [
    | inl miss ↦ rw (miss, delete_node) (refl, refl)
    | inr (n, here) ↦
        let g₀ : ConcurrentGraph V = record g {
          nodes = Map.remove id g.nodes;
          label_index = label_index_remove id n.labels g.label_index;
        } in
        let a = take_outgoing-Taken g₀ id c.leaving c.entering in
        let b = take_incoming-Taken (take_outgoing g₀ id) id a.leaving a.entering in
        let (_, _, x, y) = a.same in
        let (_, _, x', y') = b.same in rw (here, delete_node) (x' ∙ x, y' ∙ y)
  ]
