-- ===== src/Graph/Reading.antt =====
-- graph.rs: what the listings of a node's edges give in a graph whose invariant holds.
use maharit_db.Base.{
  ℕ, Bool, ◌&&◌, Option, none, some, List, [], ◌∷◌, ◌≡◌, ◌∙◌, refl, ap, All, map, arith, inl, inr,
  Option-cases,
}
use maharit_db.Base.Eq.{nat_eq}
use maharit_db.Base.Set
use maharit_db.Base.Vec.{at}
use maharit_db.Graph.{Graph, Edge, get_edge, is_filled}
use maharit_db.Graph.Edges.{edges_at, get_outgoing_edges, get_incoming_edges}
use maharit_db.Graph.WellFormed.{WellFormed, keyed}

module _ {V : Type 0} where
  -- The edges are the stored ones, and those that the test picks, each listed by its number.
  abbrev pub Lists : Graph V → (Option (Edge V) → Bool) → List (Edge V) → Type 0
  Lists g test es =
      All (λ e. get_edge g e.id ≡ some e) es
      × ((i : ℕ) → Set.contains i (map (λ (e : Edge V). e.id) es) ≡ test (get_edge g i))

  edges_at-none :
      (g : Graph V) (id : ℕ) (ids : List ℕ)
      → at none g.edges id ≡ none
      → edges_at g (id ∷ ids) ≡ edges_at g ids
  unfolding edges_at
  edges_at-none g id ids e = rw (e, edges_at)

  edges_at-some :
      (g : Graph V) (id : ℕ) (ids : List ℕ) (x : Edge V)
      → at none g.edges id ≡ some x
      → edges_at g (id ∷ ids) ≡ x ∷ edges_at g ids
  unfolding edges_at
  edges_at-some g id ids x e = rw (e, edges_at)

  edges_at-stored :
      (g : Graph V) (ids : List ℕ)
      → WellFormed g
      → All (λ e. get_edge g e.id ≡ some e) (edges_at g ids)
  unfolding get_edge
  edges_at-stored g [] w = unfold edges_at in tt
  edges_at-stored g (id ∷ ids) w =
      let rest = edges_at-stored g ids w in
      elim (Option-cases (at none g.edges id)) [
        | inl e ↦ rw (edges_at-none g id ids e) rest
        | inr (x, e) ↦
            rw (edges_at-some g id ids x e)
              (ap (at none g.edges) (w.edges_fit.edge_id id x e) ∙ e, rest)
      ]

  edges_at-listed :
      (g : Graph V) (ids : List ℕ) (i : ℕ)
      → WellFormed g
      → Set.contains i (map (λ (e : Edge V). e.id) (edges_at g ids))
        ≡ (Set.contains i ids && is_filled (get_edge g i))
  unfolding get_edge Set.contains
  edges_at-listed g [] i w = unfold edges_at in refl
  edges_at-listed g (id ∷ ids) i w =
      let rest = edges_at-listed g ids i w in
      elim (Option-cases (at none g.edges id)) [
        | inl e ↦ rw (edges_at-none g id ids e) (ground (arith, rest, e))
        | inr (x, e) ↦
            rw (edges_at-some g id ids x e) (ground (arith, rest, e, w.edges_fit.edge_id id x e))
      ]

  keyed-filled :
      (end : Edge V → ℕ) (o : Option (Edge V)) (n : ℕ)
      → (keyed end o n && is_filled o) ≡ keyed end o n
  unfolding keyed
  keyed-filled end none n = refl
  keyed-filled end (some e) n = ground arith

  picked :
      (g : Graph V) (end : Edge V → ℕ) (sets : List (List ℕ)) (n i : ℕ)
      → Set.contains i (at [] sets n) ≡ keyed end (at none g.edges i) n
      → (Set.contains i (at [] sets n) && is_filled (get_edge g i)) ≡ keyed end (get_edge g i) n
  unfolding get_edge
  picked g end sets n i e = rw e (keyed-filled end (at none g.edges i) n)

  -- In a well-formed graph `get_outgoing_edges` lists exactly the edges whose source is the node,
  -- and `get_incoming_edges` exactly those whose target it is, each as it is stored.
  pub get_edges-Lists :
      (g : Graph V) (n : ℕ)
      → WellFormed g
      → Lists g (λ o. keyed (λ e. e.from) o n) (get_outgoing_edges g n)
        × Lists g (λ o. keyed (λ e. e.to) o n) (get_incoming_edges g n)
  unfolding get_outgoing_edges get_incoming_edges
  get_edges-Lists g n w =
      let out = at [] g.outgoing_edges n in
      let in_ = at [] g.incoming_edges n in
      (
        (
          edges_at-stored g out w,
          λ i.
              edges_at-listed g out i w
              ∙ picked g (λ e. e.from) g.outgoing_edges n i (w.outgoing_exact n i),
        ),
        (
          edges_at-stored g in_ w,
          λ i.
              edges_at-listed g in_ i w
              ∙ picked g (λ e. e.to) g.incoming_edges n i (w.incoming_exact n i),
        ),
      )
