-- ===== src/Concurrent/EdgeChanges.antt =====
-- concurrent_graph.rs: the calls that change or remove an edge, on a consistent graph.
use mathlib.Core.Path.{subst}
use maharit_db.Base.{
  ℕ, ◌<◌, String, true, false, none, some, List, ◌≡◌, refl, sym, ap, ◌∙◌, inl, inr, Bool-cases,
  Option-cases,
}
use maharit_db.Base.Eq.{◌==◌, nat_eq, string_eq, eq_of_==}
use maharit_db.Base.Map
use maharit_db.Base.Map.{Map, lookup-insert, lookup-remove, map_option}
use maharit_db.Graph.{Node, Edge, is_filled}
use maharit_db.Graph.WellFormed.{keyed}
use maharit_db.Concurrent.{ConcurrentGraph, alter_at}
use maharit_db.Concurrent.Calls.{delete_edge, set_edge_property, remove_edge_property}
use maharit_db.Concurrent.Consistent.{EdgesFit, Exact, IsConsistent, Exact-remove}

module _ {V : Type 0} where
  edges_removed :
      (nodes : Map ℕ (Node V)) (edges : Map ℕ (Edge V)) (next id : ℕ)
      → EdgesFit nodes edges next
      → EdgesFit nodes (Map.remove id edges) next
  edges_removed nodes edges next id f = record {
    edge_id = λ i e h. f.edge_id i e (was i e h);
    edge_from = λ i e h. f.edge_from i e (was i e h);
    edge_to = λ i e h. f.edge_to i e (was i e h);
    edge_issued = λ i h. elim (Bool-cases (id == i)) [
      | inl p ↦ absurd (empty_false (rw (lookup-remove, p) at h))
      | inr p ↦ f.edge_issued i (rw (lookup-remove, p) at h)
    ];
  }
    where
      none_some : (e : Edge V) → none ≡ some e → ⊥
      none_some e h = cc

      empty_false : false ≡ true → ⊥
      empty_false h = cc

      was :
          (i : ℕ) (e : Edge V)
          → Map.lookup i (Map.remove id edges) ≡ some e
          → Map.lookup i edges ≡ some e
      was i e h = elim (Bool-cases (id == i)) [
        | inl p ↦ absurd (none_some e (rw (lookup-remove, p) at h))
        | inr p ↦ rw (lookup-remove, p) at h
      ]

  pub delete_edge-IsConsistent :
      (g : ConcurrentGraph V) (id : ℕ) → IsConsistent g → IsConsistent (delete_edge g id).1
  unfolding delete_edge
  delete_edge-IsConsistent g id c = elim (Option-cases (Map.lookup id g.edges)) [
    | inl miss ↦ rw (miss, delete_edge) c
    | inr (e, here) ↦
        rw (here, delete_edge)
          (record {
            nodes_fit = c.nodes_fit;
            edges_fit = edges_removed g.nodes g.edges g.next_edge_id id c.edges_fit;
            leaving = Exact-remove (λ x. x.from) g.edges g.outgoing id e here c.leaving;
            entering = Exact-remove (λ x. x.to) g.edges g.incoming id e here c.entering;
          })
  ]

  edge_set :
      (nodes : Map ℕ (Node V)) (edges : Map ℕ (Edge V)) (next id : ℕ) (e : Edge V)
      (properties : Map String V)
      → Map.lookup id edges ≡ some e
      → EdgesFit nodes edges next
      → EdgesFit nodes (Map.insert id (record e { properties = properties }) edges) next
  edge_set nodes edges next id e properties here f = record {
    edge_id = λ i x h. elim (Bool-cases (id == i)) [
      | inl p ↦
          subst (λ z. z.id ≡ i) (of_some (rw (lookup-insert, p) at h))
            (f.edge_id id e here ∙ eq_of_== id i p)
      | inr p ↦ f.edge_id i x (rw (lookup-insert, p) at h)
    ];
    edge_from = λ i x h. elim (Bool-cases (id == i)) [
      | inl p ↦
          subst (λ z. is_filled (Map.lookup z.from nodes) ≡ true)
            (of_some (rw (lookup-insert, p) at h)) (f.edge_from id e here)
      | inr p ↦ f.edge_from i x (rw (lookup-insert, p) at h)
    ];
    edge_to = λ i x h. elim (Bool-cases (id == i)) [
      | inl p ↦
          subst (λ z. is_filled (Map.lookup z.to nodes) ≡ true)
            (of_some (rw (lookup-insert, p) at h)) (f.edge_to id e here)
      | inr p ↦ f.edge_to i x (rw (lookup-insert, p) at h)
    ];
    edge_issued = λ i h. elim (Bool-cases (id == i)) [
      | inl p ↦ subst (λ z. z < next) (eq_of_== id i p) (f.edge_issued id (ap is_filled here))
      | inr p ↦ f.edge_issued i (rw (lookup-insert, p) at h)
    ];
  }
    where
      of_some :
          {x : Edge V}
          → some (record e { properties = properties }) ≡ some x
          → record e { properties = properties } ≡ x
      of_some h = cc

  -- the same edge with other properties
  edge_changed :
      (g : ConcurrentGraph V) (id : ℕ) (e : Edge V) (properties : Map String V)
      → Map.lookup id g.edges ≡ some e
      → IsConsistent g
      → IsConsistent
          (record g { edges = Map.insert id (record e { properties = properties }) g.edges })
  unfolding keyed
  edge_changed g id e properties here c = record {
    nodes_fit = c.nodes_fit;
    edges_fit = edge_set g.nodes g.edges g.next_edge_id id e properties here c.edges_fit;
    leaving = ends (λ x. x.from) g.outgoing refl c.leaving;
    entering = ends (λ x. x.to) g.incoming refl c.entering;
  }
    where
      ends :
          (end : Edge V → ℕ) (sets : Map ℕ (List ℕ))
          → end (record e { properties = properties }) ≡ end e
          → Exact end g.edges sets
          → Exact end (Map.insert id (record e { properties = properties }) g.edges) sets
      ends end sets same exact n i =
          exact n i
          ∙ rw lookup-insert (elim (Bool-cases (id == i)) [
            | inl p ↦ rw (p, ← eq_of_== id i p, here) (ap (λ z. z == n) (sym same))
            | inr p ↦ rw p refl
          ])

  pub set_edge_property-IsConsistent :
      (g : ConcurrentGraph V) (id : ℕ) (key : String) (value : V)
      → IsConsistent g
      → IsConsistent (set_edge_property g id key value)
  unfolding set_edge_property alter_at
  set_edge_property-IsConsistent g id key value c = elim (Option-cases (Map.lookup id g.edges)) [
    | inl miss ↦ rw (miss, alter_at) c
    | inr (e, here) ↦
        rw (here, alter_at) (edge_changed g id e (Map.insert key value e.properties) here c)
  ]

  pub remove_edge_property-IsConsistent :
      (g : ConcurrentGraph V) (id : ℕ) (key : String)
      → IsConsistent g
      → IsConsistent (remove_edge_property g id key).1
  unfolding remove_edge_property
  remove_edge_property-IsConsistent g id key c = elim (Option-cases (Map.lookup id g.edges)) [
    | inl miss ↦ rw (miss, remove_edge_property) c
    | inr (e, here) ↦
        rw (here, remove_edge_property) (edge_changed g id e (Map.remove key e.properties) here c)
  ]
