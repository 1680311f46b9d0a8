-- ===== src/Concurrent/Taken.antt =====
-- concurrent_graph.rs: the removal of a node's edges in one direction, by `delete_node`.
use maharit_db.Base.{
  ℕ, not, ◌&&◌, none, some, List, ◌≡◌, ap, ◌∙◌, if◌then◌else◌, arith, inl, inr, Bool-cases,
  Option-cases,
}
use maharit_db.Base.Eq.{◌==◌, nat_eq, eq_of_==}
use maharit_db.Base.Map
use maharit_db.Base.Map.{Map}
use maharit_db.Graph.{Edge, sets_of}
use maharit_db.Graph.WellFormed.{keyed}
use maharit_db.Concurrent.{ConcurrentGraph}
use maharit_db.Concurrent.Calls.{drop_outs, drop_ins, take_outgoing, take_incoming}
use maharit_db.Concurrent.Sets.{listed, listed-remove}
use maharit_db.Concurrent.Consistent.{Exact}
use maharit_db.Concurrent.Deletion.{SameNodes, drop_outs-Dropped, drop_ins-Dropped}

module _ {V : Type 0} where
  -- the edges without those whose end is the node
  abbrev pub Parted : (Edge V → ℕ) → ℕ → Map ℕ (Edge V) → Map ℕ (Edge V) → Type 0
  Parted end id edges edges' =
      (j : ℕ)
      → Map.lookup j edges'
        ≡ (if keyed end (Map.lookup j edges) id then none else Map.lookup j edges)

  -- the sets of the node's own direction, once its set is removed
  pub own_side :
      (end : Edge V → ℕ) (id : ℕ) (edges edges' : Map ℕ (Edge V)) (sets : Map ℕ (List ℕ))
      → Exact end edges sets
      → Parted end id edges edges'
      → Exact end edges' (Map.remove id sets)
  unfolding keyed
  own_side end id edges edges' sets exact parted n i =
      rw (listed-remove, exact n i, parted i)
        (elim (Option-cases (Map.lookup i edges)) [
          | inl miss ↦ rw miss (ground arith)
          | inr (e, found) ↦ rw found (side e)
        ])
    where
      side :
          (e : Edge V)
          → (not (id == n) && (end e == n)) ≡ keyed end (if end e == id then none else some e) n
      side e = elim (Bool-cases (end e == id)) [
        | inl p ↦ rw (p, eq_of_== (end e) id p) (ground arith)
        | inr p ↦ rw p (elim (Bool-cases (end e == n)) [
          | inl q ↦ rw (q, ← eq_of_== (end e) n q) (ground arith)
          | inr q ↦ rw q (ground arith)
        ])
      ]

  -- the sets of the other direction, once the loop is through
  pub other_side :
      (end other : Edge V → ℕ) (id : ℕ) (edges edges' : Map ℕ (Edge V))
      (sets sets' : Map ℕ (List ℕ))
      → Exact other edges sets
      → Parted end id edges edges'
      → ((n i : ℕ)
          → listed n i sets' ≡ (
              not (keyed end (Map.lookup i edges) id && keyed other (Map.lookup i edges) n)
              && listed n i sets))
      → Exact other edges' sets'
  unfolding keyed
  other_side end other id edges edges' sets sets' exact parted dropped n i =
      rw (dropped n i, exact n i, parted i)
        (elim (Option-cases (Map.lookup i edges)) [
          | inl miss ↦ rw miss (ground arith)
          | inr (e, found) ↦ rw found (elim (Bool-cases (end e == id)) [
            | inl p ↦ rw p (ground arith)
            | inr p ↦ rw p (ground arith)
          ])
        ])

  -- a removal of the node's edges in one direction
  pub record Taken (end : Edge V → ℕ) (id : ℕ) (g g' : ConcurrentGraph V) : Type 0 where
    pub parted : Parted end id g.edges g'.edges
    pub leaving : Exact (λ e. e.from) g'.edges g'.outgoing
    pub entering : Exact (λ e. e.to) g'.edges g'.incoming
    pub same : SameNodes g g'

  pub take_outgoing-Taken :
      (g : ConcurrentGraph V) (id : ℕ)
      → Exact (λ e. e.from) g.edges g.outgoing
      → Exact (λ e. e.to) g.edges g.incoming
      → Taken (λ e. e.from) id g (take_outgoing g id)
  unfolding take_outgoing
  take_outgoing-Taken g id out inc =
      let eids = sets_of (Map.lookup id g.outgoing) in
      let start : ConcurrentGraph V = record g { outgoing = Map.remove id g.outgoing } in
      let (d, kept, same) = drop_outs-Dropped eids start in
      let parted : Parted (λ e. e.from) id g.edges (drop_outs eids start).edges = (λ j.
        d.edges_dropped j
        ∙ ap (λ b. if b then none else Map.lookup j g.edges) (unfold listed in out id j)) in
      record {
        parted = parted;
        leaving =
            rw kept (
              own_side (λ e. e.from) id g.edges (drop_outs eids start).edges g.outgoing out parted);
        entering =
            other_side (λ e. e.from) (λ e. e.to) id g.edges (drop_outs eids start).edges g.incoming
              (drop_outs eids start).incoming inc parted
              (λ n i.
                d.sets_dropped n i
                ∙ ap
                    (λ b.
                      not (b && keyed (λ e. e.to) (Map.lookup i g.edges) n)
                      && listed n i g.incoming)
                    (unfold listed in out id i));
        same = same;
      }

  pub take_incoming-Taken :
      (g : ConcurrentGraph V) (id : ℕ)
      → Exact (λ e. e.from) g.edges g.outgoing
      → Exact (λ e. e.to) g.edges g.incoming
      → Taken (λ e. e.to) id g (take_incoming g id)
  unfolding take_incoming
  take_incoming-Taken g id out inc =
      let eids = sets_of (Map.lookup id g.incoming) in
      let start : ConcurrentGraph V = record g { incoming = Map.remove id g.incoming } in
      let (d, kept, same) = drop_ins-Dropped eids start in
      let parted : Parted (λ e. e.to) id g.edges (drop_ins eids start).edges = (λ j.
        d.edges_dropped j
        ∙ ap (λ b. if b then none else Map.lookup j g.edges) (unfold listed in inc id j)) in
      record {
        parted = parted;
        leaving =
            other_side (λ e. e.to) (λ e. e.from) id g.edges (drop_ins eids start).edges g.outgoing
              (drop_ins eids start).outgoing out parted
              (λ n i.
                d.sets_dropped n i
                ∙ ap
                    (λ b.
                      not (b && keyed (λ e. e.from) (Map.lookup i g.edges) n)
                      && listed n i g.outgoing)
                    (unfold listed in inc id i));
        entering =
            rw kept
              (own_side (λ e. e.to) id g.edges (drop_ins eids start).edges g.incoming inc parted);
        same = same;
      }
