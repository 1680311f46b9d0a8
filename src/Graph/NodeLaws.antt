-- ===== src/Graph/NodeLaws.antt =====
-- graph.rs: what `create_node_with_labels` does to a graph whose invariant holds.
use maharit_db.Base.{
  ℕ, ◌<◌, String, true, false, Option, none, some, List, [], ◌∷◌, ◌++◌, ◌≡◌, refl, ◌∙◌, length,
  if◌then◌else◌, arith, inl, inr, Bool-cases, Option-cases, nat_beq,
}
use maharit_db.Base.Eq.{◌==◌, nat_eq, string_eq, eq_of_==}
use maharit_db.Base.Map.{Map}
use maharit_db.Base.Set
use maharit_db.Base.Vec
use maharit_db.Base.Vec.{at, at-set, at-push, at_beyond, length-set, some_in, write_in}
use maharit_db.Graph.{
  Graph, Node, Edge, is_filled, empty_node, has_label, get_node, get_edge, label_index_add_node,
  index_insert_all,
}
use maharit_db.Graph.WellFormed.{WellFormed, EdgesFit, NodesFit, Exact, keyed, labelled}
use maharit_db.Graph.Index.{listed-insert_all}

pub push_same :
    (sets : List (List ℕ)) (n i : ℕ)
    → Set.contains i (at [] (sets ++ [] ∷ []) n) ≡ Set.contains i (at [] sets n)
push_same sets n i = rw (at-push [] sets n []) (elim (Bool-cases (nat_beq (length sets) n)) [
  | inl e ↦ rw (e, at_beyond [] sets n (ground arith))
  | inr e ↦ rw e
])

module _ {V : Type 0} where
  -- More nodes: every edge still joins two that exist.
  pub EdgesFit-nodes :
      (nodes nodes' : List (Option (Node V))) (edges : List (Option (Edge V)))
      → ((f : ℕ) → is_filled (at none nodes f) ≡ true → is_filled (at none nodes' f) ≡ true)
      → EdgesFit nodes edges
      → EdgesFit nodes' edges
  EdgesFit-nodes nodes nodes' edges more fit = record {
    edge_id = fit.edge_id;
    edge_from = λ i e h. more e.from (fit.edge_from i e h);
    edge_to = λ i e h. more e.to (fit.edge_to i e h);
  }

  module _ (nodes nodes' : List (Option (Node V))) (index : Map String (List ℕ)) (id : ℕ)
      (labels : List String) (empty : at none nodes id ≡ none)
      (wrote : (j : ℕ)
        → at none nodes' j
          ≡ (if id == j then some (empty_node id labels) else at none nodes j)) where
    pub NodesFit-fill : NodesFit nodes index → NodesFit nodes' (index_insert_all id labels index)
    unfolding labelled has_label
    NodesFit-fill fit = record {
      node_id = λ i n h. elim (Bool-cases (id == i)) [
        | inl p ↦ ground (arith, wrote i, h)
        | inr p ↦ fit.node_id i n (ground (arith, wrote i, h))
      ];
      indexed = λ l i.
          rw (listed-insert_all id labels index l i, wrote i)
            (elim (Bool-cases (id == i)) [
              | inl p ↦ ground (arith, fit.indexed l i, empty)
              | inr p ↦ ground (arith, fit.indexed l i)
            ]);
    }

    pub filled_more :
        (f : ℕ) → is_filled (at none nodes f) ≡ true → is_filled (at none nodes' f) ≡ true
    filled_more f h = rw (wrote f) (ground arith)

  -- The adjacency sets are read alike.
  pub Exact-same :
      (end : Edge V → ℕ) (edges : List (Option (Edge V))) (sets sets' : List (List ℕ))
      → ((n i : ℕ) → Set.contains i (at [] sets' n) ≡ Set.contains i (at [] sets n))
      → Exact end edges sets
      → Exact end edges sets'
  Exact-same end edges sets sets' same exact n i = same n i ∙ exact n i

  -- an edge that would end at an empty slot does not exist
  pub unkeyed :
      (end : Edge V → ℕ) (nodes : List (Option (Node V))) (edges : List (Option (Edge V)))
      (id i : ℕ)
      → at none nodes id ≡ none
      → ((i : ℕ) (e : Edge V) → at none edges i ≡ some e → is_filled (at none nodes (end e)) ≡ true)
      → keyed end (at none edges i) id ≡ false
  unfolding keyed
  unkeyed end nodes edges id i empty ends = elim (Option-cases (at none edges i)) [
    | inl e ↦ rw (e, keyed)
    | inr (x, e) ↦
        rw (e, keyed)
          (elim (Bool-cases (end x == id)) [
            | inl p ↦
                let filled = ends i x e in
                let same = eq_of_== (end x) id p in
                let gone : is_filled (at none nodes (end x)) ≡ false = rw (same, empty) refl in cc
            | inr p ↦ p
          ])
  ]

  pub clear_same :
      (end : Edge V → ℕ) (nodes : List (Option (Node V))) (edges : List (Option (Edge V)))
      (sets : List (List ℕ)) (id : ℕ)
      → at none nodes id ≡ none
      → ((i : ℕ) (e : Edge V) → at none edges i ≡ some e → is_filled (at none nodes (end e)) ≡ true)
      → id < length sets
      → Exact end edges sets
      → (n i : ℕ) → Set.contains i (at [] (Vec.set sets id []) n) ≡ Set.contains i (at [] sets n)
  clear_same end nodes edges sets id empty ends room exact n i =
      rw (at-set [] sets id n [] room) (elim (Bool-cases (id == n)) [
        | inl e ↦
            rw (e, exact n i, ← eq_of_== id n e, unkeyed end nodes edges id i empty ends)
              (unfold Set.contains in refl)
        | inr e ↦ rw e
      ])

  -- What `create_node_with_labels` gives back.
  abbrev pub NodeCreated : Graph V → List String → ℕ → Graph V → Type 0
  NodeCreated g labels id g' =
      WellFormed g'
      × (get_node g id ≡ none)
      × ((j : ℕ) → get_node g' j ≡ (if id == j then some (empty_node id labels) else get_node g j))
      × ((e : ℕ) → get_edge g' e ≡ get_edge g e)

  pub label_index_add_node-filled :
      (g : Graph V) (id : ℕ) (labels : List String)
      → at none g.nodes id ≡ some (empty_node id labels)
      → label_index_add_node g id
        ≡ record g { label_index = index_insert_all id labels g.label_index }
  unfolding label_index_add_node
  label_index_add_node-filled g id labels h = ground arith
