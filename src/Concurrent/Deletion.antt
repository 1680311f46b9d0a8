-- ===== src/Concurrent/Deletion.antt =====
-- concurrent_graph.rs: the deletion of a node with its edges.
use mathlib.Core.Path.{subst}
use maharit_db.Base.{
  ℕ, Bool, false, not, ◌&&◌, ◌||◌, none, some, List, [], ◌∷◌, ◌≡◌, refl, sym, ◌∙◌, if◌then◌else◌,
  arith, inl, inr, Bool-cases, Option-cases,
}
use maharit_db.Base.Eq.{◌==◌, nat_eq, string_eq, eq_of_==}
use maharit_db.Base.Map
use maharit_db.Base.Map.{Map, lookup-remove}
use maharit_db.Base.Set
use maharit_db.Graph.{Edge}
use maharit_db.Graph.WellFormed.{keyed}
use maharit_db.Concurrent.{ConcurrentGraph, get_remove}
use maharit_db.Concurrent.Calls.{drop_out, drop_outs, drop_in, drop_ins}
use maharit_db.Concurrent.Sets.{listed, listed-get_remove}

-- an entry of another edge
skip :
    (here gone key old : Bool)
    → (not (gone && key) && (not (here && false) && old)) ≡ (not ((false || gone) && key) && old)
skip here gone key old = ground arith

module _ {V : Type 0} where
  -- What a loop over edges leaves alone: all but the edges and one direction's sets.
  abbrev pub SameNodes : ConcurrentGraph V → ConcurrentGraph V → Type 0
  SameNodes g g' =
      (g'.nodes ≡ g.nodes)
      × (g'.label_index ≡ g.label_index)
      × (g'.next_node_id ≡ g.next_node_id)
      × (g'.next_edge_id ≡ g.next_edge_id)

  -- the loop removes the edges of the list, and their entries at the other end
  pub record Dropped (end : Edge V → ℕ) (eids : List ℕ) (edges edges' : Map ℕ (Edge V))
      (sets sets' : Map ℕ (List ℕ)) : Type 0 where
    pub edges_dropped :
        (j : ℕ) → Map.lookup j edges' ≡ (if Set.contains j eids then none else Map.lookup j edges)
    pub sets_dropped :
        (n i : ℕ)
        → listed n i sets'
          ≡ (not (Set.contains i eids && keyed end (Map.lookup i edges) n) && listed n i sets)

  Dropped-none :
      (end : Edge V → ℕ) (edges : Map ℕ (Edge V)) (sets : Map ℕ (List ℕ))
      → Dropped end [] edges edges sets sets
  unfolding Set.contains
  Dropped-none end edges sets = record {
    edges_dropped = λ j. refl;
    sets_dropped = λ n i. ground arith;
  }

  Dropped-miss :
      (end : Edge V → ℕ) (eid : ℕ) (eids : List ℕ) (edges edges' : Map ℕ (Edge V))
      (sets sets' : Map ℕ (List ℕ))
      → Map.lookup eid edges ≡ none
      → Dropped end eids edges edges' sets sets'
      → Dropped end (eid ∷ eids) edges edges' sets sets'
  unfolding Set.contains keyed
  Dropped-miss end eid eids edges edges' sets sets' miss d = record {
    edges_dropped = λ j. d.edges_dropped j ∙ elim (Bool-cases (eid == j)) [
      | inl p ↦ rw (p, ← eq_of_== eid j p, miss) (ground arith)
      | inr p ↦ rw p refl
    ];
    sets_dropped = λ n i. d.sets_dropped n i ∙ elim (Bool-cases (eid == i)) [
      | inl p ↦ rw (p, ← eq_of_== eid i p, miss) (ground arith)
      | inr p ↦ rw p refl
    ];
  }

  Dropped-hit :
      (end : Edge V → ℕ) (eid : ℕ) (eids : List ℕ) (edges edges' : Map ℕ (Edge V))
      (sets sets' : Map ℕ (List ℕ)) (e : Edge V)
      → Map.lookup eid edges ≡ some e
      → Dropped end eids (Map.remove eid edges) edges' (get_remove (end e) eid sets) sets'
      → Dropped end (eid ∷ eids) edges edges' sets sets'
  unfolding Set.contains keyed
  Dropped-hit end eid eids edges edges' sets sets' e found d = record {
    edges_dropped = λ j.
        rw (d.edges_dropped j, lookup-remove)
          (elim (Bool-cases (eid == j)) [ inl p ↦ rw p (ground arith) | inr p ↦ rw p refl ]);
    sets_dropped = λ n i.
        rw (d.sets_dropped n i, lookup-remove, listed-get_remove)
          (elim (Bool-cases (eid == i)) [
            | inl p ↦ rw (p, ← eq_of_== eid i p, found) (ground arith)
            | inr p ↦ rw p (
                skip (end e == n) (Set.contains i eids) (keyed end (Map.lookup i edges) n)
                  (listed n i sets))
          ]);
  }

  drop_out-miss :
      (g : ConcurrentGraph V) (eid : ℕ) → Map.lookup eid g.edges ≡ none → drop_out g eid ≡ g
  unfolding drop_out
  drop_out-miss g eid e = rw (e, drop_out) refl

  drop_out-hit :
      (g : ConcurrentGraph V) (eid : ℕ) (e : Edge V)
      → Map.lookup eid g.edges ≡ some e
      → drop_out g eid
        ≡ record g { edges = Map.remove eid g.edges; incoming = get_remove e.to eid g.incoming }
  unfolding drop_out
  drop_out-hit g eid e h = rw (h, drop_out) refl

  -- the loop from `g`, whose remaining rounds start at `h`
  abbrev OutsDroppedFrom : List ℕ → List ℕ → ConcurrentGraph V → ConcurrentGraph V → Type 0
  OutsDroppedFrom all eids g h =
      Dropped (λ e. e.to) all g.edges (drop_outs eids h).edges g.incoming
        (drop_outs eids h).incoming
      × ((drop_outs eids h).outgoing ≡ g.outgoing)
      × SameNodes g (drop_outs eids h)

  pub drop_outs-Dropped :
      (eids : List ℕ) (g : ConcurrentGraph V)
      → Dropped
          (λ e. e.to)
          eids
          g.edges
          (drop_outs eids g).edges
          g.incoming
          (drop_outs eids g).incoming
        × ((drop_outs eids g).outgoing ≡ g.outgoing)
        × SameNodes g (drop_outs eids g)
  unfolding drop_outs
  drop_outs-Dropped [] g =
      (Dropped-none (λ e. e.to) g.edges g.incoming, refl, (refl, refl, refl, refl))
  drop_outs-Dropped (eid ∷ eids) g = elim (Option-cases (Map.lookup eid g.edges)) [
    | inl miss ↦
        let (d, own, same) = drop_outs-Dropped eids g in
        subst (OutsDroppedFrom (eid ∷ eids) eids g) (sym (drop_out-miss g eid miss)) (
          Dropped-miss (λ e. e.to) eid eids g.edges (drop_outs eids g).edges g.incoming
              (drop_outs eids g).incoming miss d,
          own,
          same,
        )
    | inr (e, found) ↦
        let h : ConcurrentGraph V = record g {
          edges = Map.remove eid g.edges;
          incoming = get_remove e.to eid g.incoming;
        } in
        let (d, own, same) = drop_outs-Dropped eids h in
        subst (OutsDroppedFrom (eid ∷ eids) eids g) (sym (drop_out-hit g eid e found)) (
          Dropped-hit (λ e. e.to) eid eids g.edges (drop_outs eids h).edges g.incoming
              (drop_outs eids h).incoming e found d,
          own,
          same,
        )
  ]

  drop_in-miss :
      (g : ConcurrentGraph V) (eid : ℕ) → Map.lookup eid g.edges ≡ none → drop_in g eid ≡ g
  unfolding drop_in
  drop_in-miss g eid e = rw (e, drop_in) refl

  drop_in-hit :
      (g : ConcurrentGraph V) (eid : ℕ) (e : Edge V)
      → Map.lookup eid g.edges ≡ some e
      → drop_in g eid
        ≡ record g { edges = Map.remove eid g.edges; outgoing = get_remove e.from eid g.outgoing }
  unfolding drop_in
  drop_in-hit g eid e h = rw (h, drop_in) refl

  -- the loop from `g`, whose remaining rounds start at `h`
  abbrev InsDroppedFrom : List ℕ → List ℕ → ConcurrentGraph V → ConcurrentGraph V → Type 0
  InsDroppedFrom all eids g h =
      Dropped (λ e. e.from) all g.edges (drop_ins eids h).edges g.outgoing
        (drop_ins eids h).outgoing
      × ((drop_ins eids h).incoming ≡ g.incoming)
      × SameNodes g (drop_ins eids h)

  pub drop_ins-Dropped :
      (eids : List ℕ) (g : ConcurrentGraph V)
      → Dropped
          (λ e. e.from)
          eids
          g.edges
          (drop_ins eids g).edges
          g.outgoing
          (drop_ins eids g).outgoing
        × ((drop_ins eids g).incoming ≡ g.incoming)
        × SameNodes g (drop_ins eids g)
  unfolding drop_ins
  drop_ins-Dropped [] g =
      (Dropped-none (λ e. e.from) g.edges g.outgoing, refl, (refl, refl, refl, refl))
  drop_ins-Dropped (eid ∷ eids) g = elim (Option-cases (Map.lookup eid g.edges)) [
    | inl miss ↦
        let (d, own, same) = drop_ins-Dropped eids g in
        subst (InsDroppedFrom (eid ∷ eids) eids g) (sym (drop_in-miss g eid miss)) (
          Dropped-miss (λ e. e.from) eid eids g.edges (drop_ins eids g).edges g.outgoing
              (drop_ins eids g).outgoing miss d,
          own,
          same,
        )
    | inr (e, found) ↦
        let h : ConcurrentGraph V = record g {
          edges = Map.remove eid g.edges;
          outgoing = get_remove e.from eid g.outgoing;
        } in
        let (d, own, same) = drop_ins-Dropped eids h in
        subst (InsDroppedFrom (eid ∷ eids) eids g) (sym (drop_in-hit g eid e found)) (
          Dropped-hit (λ e. e.from) eid eids g.edges (drop_ins eids h).edges g.outgoing
              (drop_ins eids h).outgoing e found d,
          own,
          same,
        )
  ]
