-- ===== src/Graph/EdgeRestoring.antt =====
-- graph.rs: what `create_edge_with_id` does to a graph whose invariant holds.
use maharit_db.Base.{
  ℕ, ◌+◌, ◌-◌, ◌<◌, String, true, false, ◌⊎◌, Option, none, some, List, ◌≡◌, refl, ◌∙◌, length,
  if◌then◌else◌, leb, leb→le, arith, inl, inr, Bool-cases,
}
use maharit_db.Base.Eq.{nat_eq, string_eq}
use maharit_db.Base.Set
use maharit_db.Base.Vec
use maharit_db.Base.Vec.{at, at-set, length-set, write_in}
use maharit_db.Graph.{
  Graph, Edge, Outcome, ok, err, node_not_found, is_filled, empty_edge, get_node, get_edge,
}
use maharit_db.Graph.Restore.{resize, push_range, create_edge_with_id}
use maharit_db.Graph.WellFormed.{WellFormed}
use maharit_db.Graph.Slots.{at-resize, length-resize, SlotsFit-assign, SlotsFit-skip}
use maharit_db.Graph.EdgeCreation.{
  Placed, with_links, linked_lem, linked-WellFormed, filled_in, unfilled, Created,
}

module _ {V : Type 0} where
  -- What `create_edge_with_id` gives back.
  abbrev pub EdgeRestored : Graph V → ℕ → ℕ → ℕ → String → Outcome ℕ → Graph V → Type 0
  EdgeRestored g id from to label r g' =
      ((r ≡ ok id)
        × (g' ≡ g)
        × (is_filled (get_edge g id) ≡ true)
        × (is_filled (get_node g from) ≡ true)
        × (is_filled (get_node g to) ≡ true))
      ⊎ (((i : ℕ) → r ≡ ok i → i ≡ id) × Created g from to label r g')

  -- the slot of the edge, in the vector or beyond its end
  slot_for :
      (g : Graph V) (id from to : ℕ) (label : String)
      → WellFormed g
      → at none g.edges id ≡ none
      → (edges : List (Option (Edge V))) × (free : List ℕ) × ((if leb (length g.edges) id
            then resize none (id + 1) g.edges
            else g.edges)
          ≡ edges)
        × ((if leb (length g.edges) id
              then push_range (length g.edges) (id - length g.edges) g.edge_free_list
              else g.edge_free_list)
            ≡ free)
        × (id < length edges)
        × Placed g
            (λ i. empty_edge i from to label)
            id
            (Vec.set edges id (some (empty_edge id from to label)))
            (Set.remove id free)
  slot_for g id from to label w empty =
      let edge : Edge V = empty_edge id from to label in
      elim (Bool-cases (leb (length g.edges) id)) [
        | inl b ↦
            let beyond = leb→le (length g.edges) id b in
            let edges = resize none (id + 1) g.edges in
            let free = push_range (length g.edges) (id - length g.edges) g.edge_free_list in
            let (room, _, _) = length-resize none (id + 1) g.edges in
            let inside : id < length edges = omega arith in
            let same = at-resize none (id + 1) g.edges in
            (
              edges,
              free,
              rw b,
              rw b,
              inside,
              record {
                slot_empty = empty;
                wrote = λ j. at-set none edges id j (some edge) inside ∙ ground (arith, same j);
                slots =
                    SlotsFit-assign edges free g.edge_count id edge inside (same id ∙ empty)
                      (SlotsFit-skip g.edges g.edge_free_list g.edge_count id beyond w.edge_slots);
              },
            )
        | inr b ↦
            let inside : id < length g.edges = ground arith in
            (
              g.edges,
              g.edge_free_list,
              rw b,
              rw b,
              inside,
              record {
                slot_empty = empty;
                wrote = λ j. at-set none g.edges id j (some edge) inside;
                slots =
                    SlotsFit-assign g.edges g.edge_free_list g.edge_count id edge inside empty
                      w.edge_slots;
              },
            )
      ]

  edge_made :
      (g : Graph V) (id from to : ℕ) (label : String)
      → WellFormed g
      → is_filled (get_node g from) ≡ true
      → is_filled (get_node g to) ≡ true
      → is_filled (get_edge g id) ≡ false
      → (r : Outcome ℕ) × (g' : Graph V) × (create_edge_with_id g id from to label ≡ some (r, g'))
        × (r ≡ ok id)
        × Created g from to label r g'
  unfolding get_node get_edge
  edge_made g id from to label w f t e =
      let empty : at none g.edges id ≡ none = unfilled (get_edge g id) e in
      let (edges, free, is_edges, is_free, inside, p) = slot_for g id from to label w empty in
      let edge : Option (Edge V) = some (empty_edge id from to label) in
      let g' = record g { edges = Vec.set edges id edge; edge_free_list = Set.remove id free } in
      let in_from : from < length g.outgoing_edges =
        omega (arith, filled_in g.nodes from f, w.outgoing_length) in
      let in_to : to < length g.incoming_edges =
        omega (arith, filled_in g.nodes to t, w.incoming_length) in
      (
        ok id,
        with_links id from to g',
        unfold create_edge_with_id in
            rw (f, t, e)
              (rw (is_edges, is_free)
                (rw (write_in edges id edge inside) (linked_lem id from to g' in_from in_to))),
        refl,
        (
          linked-WellFormed g (Vec.set edges id edge) (Set.remove id free) id from to label w p f t,
          empty,
          p.wrote,
          λ n. refl,
        ),
      )

  -- In a well-formed graph `create_edge_with_id` never panics. If an end is missing, the error
  -- names it and nothing changes; if the number has an edge, nothing changes; else an edge of
  -- that number is made, with the ends and the label and no property, every other edge and every
  -- node is as before and the graph is well-formed.
  pub create_edge_with_id-EdgeRestored :
      (g : Graph V) (id from to : ℕ) (label : String)
      → WellFormed g
      → (r : Outcome ℕ) × (g' : Graph V) × (create_edge_with_id g id from to label ≡ some (r, g'))
        × EdgeRestored g id from to label r g'
  create_edge_with_id-EdgeRestored g id from to label w =
      elim (Bool-cases (is_filled (get_node g from))) [
        | inr f ↦ (
          err (node_not_found from),
          g,
          unfold create_edge_with_id in rw f,
          inr (λ i e. cc, (refl, unfilled (get_node g from) f, inl refl)),
        )
        | inl f ↦ elim (Bool-cases (is_filled (get_node g to))) [
          | inr t ↦ (
            err (node_not_found to),
            g,
            unfold create_edge_with_id in rw (f, t),
            inr (λ i e. cc, (refl, unfilled (get_node g to) t, inr refl)),
          )
          | inl t ↦ elim (Bool-cases (is_filled (get_edge g id))) [
            | inl e ↦
                (ok id, g, unfold create_edge_with_id in rw (f, t, e), inl (refl, refl, e, f, t))
            | inr e ↦
                let (r, g', run, is_ok, c) = edge_made g id from to label w f t e in
                (r, g', run, inr (λ i q. ground (arith, q, is_ok), c))
          ]
        ]
      ]
