-- ===== src/Concurrent/Steps.antt =====
-- concurrent_graph.rs: any calls, one after another, on a consistent graph.
use mathlib.Core.Path.{subst}
use maharit_db.Base.{
  ℕ, ◌+◌, ◌^◌, ◌<◌, ◌≤◌, String, true, none, some, List, ◌≡◌, refl, ap, arith, inl, inr, Bool-cases,
  Option-cases,
}
use maharit_db.Base.Eq.{◌==◌, nat_eq, string_eq, eq_of_==}
use maharit_db.Base.Map
use maharit_db.Base.Map.{Map, lookup-insert, lookup-remove, map_option}
use maharit_db.Graph.{Node, Edge, is_filled, empty_node, empty_edge}
use maharit_db.Concurrent.{ConcurrentGraph, advanced, advanced_past}
use maharit_db.Concurrent.Calls.{
  create_node_with_labels, create_node_with_id_and_labels, insert_edge,
}
use maharit_db.Concurrent.Consistent.{
  EdgesFit, IsConsistent, NodesFit-insert, EdgesFit-kept, Exact-emptied, Exact-default,
  Exact-insert, no_edge_from, no_edge_to,
}

pub advanced_lem : (c : ℕ) → c + 1 < 2 ^ 64 → advanced c ≡ c + 1
unfolding advanced
advanced_lem c h = omega arith

-- the counter goes past the number and never back
pub advanced_past_lem :
    (c id : ℕ) → id + 1 < 2 ^ 64 → (c ≤ advanced_past c id) × (id < advanced_past c id)
unfolding advanced_past
advanced_past_lem c id h = let e = advanced_lem id h in ground arith

module _ {V : Type 0} where
  filled_stays :
      (nodes : Map ℕ (Node V)) (id : ℕ) (n : Node V) (i : ℕ)
      → is_filled (Map.lookup i nodes) ≡ true
      → is_filled (Map.lookup i (Map.insert id n nodes)) ≡ true
  filled_stays nodes id n i h =
      rw lookup-insert (elim (Bool-cases (id == i)) [ inl p ↦ rw p refl | inr p ↦ rw p h ])

  pub create_node-IsConsistent :
      (g : ConcurrentGraph V) (labels : List String)
      → g.next_node_id + 1 < 2 ^ 64
      → IsConsistent g
      → IsConsistent (create_node_with_labels g labels).1
  unfolding create_node_with_labels
  create_node-IsConsistent g labels room c =
      let id = g.next_node_id in
      let e = advanced_lem id room in
      let free = unissued g c in
      record {
        nodes_fit =
            NodesFit-insert g.nodes g.label_index id (advanced id) id labels free (omega (arith, e))
              (omega (arith, e)) c.nodes_fit;
        edges_fit =
            EdgesFit-kept g.nodes (Map.insert id (empty_node id labels) g.nodes) g.edges
              g.next_edge_id (filled_stays g.nodes id (empty_node id labels)) c.edges_fit;
        leaving =
            Exact-emptied (λ e. e.from) g.edges g.outgoing id
              (λ i. no_edge_from g.nodes g.edges g.next_edge_id id i c.edges_fit free) c.leaving;
        entering =
            Exact-emptied (λ e. e.to) g.edges g.incoming id
              (λ i. no_edge_to g.nodes g.edges g.next_edge_id id i c.edges_fit free) c.entering;
      }
    where
      unissued : (g : ConcurrentGraph V) → IsConsistent g → Map.lookup g.next_node_id g.nodes ≡ none
      unissued g c = elim (Option-cases (Map.lookup g.next_node_id g.nodes)) [
        | inl miss ↦ miss
        | inr (n, found) ↦
            let below = c.nodes_fit.node_issued g.next_node_id (ap is_filled found) in
            absurd (omega (arith, below))
      ]

  pub restore_node-IsConsistent :
      (g : ConcurrentGraph V) (id : ℕ) (labels : List String)
      → Map.lookup id g.nodes ≡ none
      → id + 1 < 2 ^ 64
      → IsConsistent g
      → IsConsistent (create_node_with_id_and_labels g id labels).1
  unfolding create_node_with_id_and_labels
  restore_node-IsConsistent g id labels free room c =
      let (le, lt) = advanced_past_lem g.next_node_id id room in
      record {
        nodes_fit =
            NodesFit-insert g.nodes g.label_index g.next_node_id (advanced_past g.next_node_id id)
              id labels free le lt c.nodes_fit;
        edges_fit =
            EdgesFit-kept g.nodes (Map.insert id (empty_node id labels) g.nodes) g.edges
              g.next_edge_id (filled_stays g.nodes id (empty_node id labels)) c.edges_fit;
        leaving = Exact-default (λ e. e.from) g.edges g.outgoing id c.leaving;
        entering = Exact-default (λ e. e.to) g.edges g.incoming id c.entering;
      }

  EdgesFit-insert :
      (nodes : Map ℕ (Node V)) (edges : Map ℕ (Edge V)) (next next' id from to : ℕ) (label : String)
      → is_filled (Map.lookup from nodes) ≡ true
      → is_filled (Map.lookup to nodes) ≡ true
      → next ≤ next'
      → id < next'
      → EdgesFit nodes edges next
      → EdgesFit nodes (Map.insert id (empty_edge id from to label) edges) next'
  EdgesFit-insert nodes edges next next' id from to label a b le lt f = record {
    edge_id = λ i e h. elim (Bool-cases (id == i)) [
      | inl p ↦
          let same : empty_edge id from to label ≡ e = of_some (rw (lookup-insert, p) at h) in
          subst (λ z. z.id ≡ i) same (eq_of_== id i p)
      | inr p ↦ f.edge_id i e (rw (lookup-insert, p) at h)
    ];
    edge_from = λ i e h. elim (Bool-cases (id == i)) [
      | inl p ↦
          let same : empty_edge id from to label ≡ e = of_some (rw (lookup-insert, p) at h) in
          subst (λ z. is_filled (Map.lookup z.from nodes) ≡ true) same a
      | inr p ↦ f.edge_from i e (rw (lookup-insert, p) at h)
    ];
    edge_to = λ i e h. elim (Bool-cases (id == i)) [
      | inl p ↦
          let same : empty_edge id from to label ≡ e = of_some (rw (lookup-insert, p) at h) in
          subst (λ z. is_filled (Map.lookup z.to nodes) ≡ true) same b
      | inr p ↦ f.edge_to i e (rw (lookup-insert, p) at h)
    ];
    edge_issued = λ i h. elim (Bool-cases (id == i)) [
      | inl p ↦ let e = eq_of_== id i p in omega arith
      | inr p ↦ let below = f.edge_issued i (rw (lookup-insert, p) at h) in omega arith
    ];
  }
    where
      of_some : {x y : Edge V} → some x ≡ some y → x ≡ y
      of_some h = cc

  pub insert_edge-IsConsistent :
      (g : ConcurrentGraph V) (id from to next : ℕ) (label : String)
      → Map.lookup id g.edges ≡ none
      → is_filled (Map.lookup from g.nodes) ≡ true
      → is_filled (Map.lookup to g.nodes) ≡ true
      → g.next_edge_id ≤ next
      → id < next
      → IsConsistent g
      → IsConsistent (insert_edge (record g { next_edge_id = next }) id from to label)
  unfolding insert_edge
  insert_edge-IsConsistent g id from to next label free a b le lt c = record {
    nodes_fit = c.nodes_fit;
    edges_fit =
        EdgesFit-insert g.nodes g.edges g.next_edge_id next id from to label a b le lt c.edges_fit;
    leaving =
        Exact-insert (λ e. e.from) g.edges g.outgoing id (empty_edge id from to label) free
          c.leaving;
    entering =
        Exact-insert (λ e. e.to) g.edges g.incoming id (empty_edge id from to label) free
          c.entering;
  }
