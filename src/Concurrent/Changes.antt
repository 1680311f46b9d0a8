-- ===== src/Concurrent/Changes.antt =====
-- concurrent_graph.rs: the calls that change a node, on a consistent graph.
use mathlib.Core.Path.{subst}
use maharit_db.Base.{
  ℕ, ◌<◌, String, true, false, ◌||◌, some, List, [], ◌∷◌, ◌++◌, ◌≡◌, refl, ap, ◌∙◌, if◌then◌else◌,
  arith, inl, inr, Bool-cases, Option-cases,
}
use maharit_db.Base.Eq.{◌==◌, nat_eq, string_eq, eq_of_==}
use maharit_db.Base.Map
use maharit_db.Base.Map.{Map, lookup-insert, lookup-remove, map_option}
use maharit_db.Base.Set
use maharit_db.Base.Set.{contains-remove}
use maharit_db.Graph.{Node, is_filled, has_label, add_label, remove_label, set_property}
use maharit_db.Graph.WellFormed.{labelled}
use maharit_db.Concurrent.{ConcurrentGraph, entry_insert, get_remove, alter_at}
use maharit_db.Concurrent.Calls.{
  add_node_label, remove_node_label, set_node_property, remove_node_property,
}
use maharit_db.Concurrent.Sets.{listed, listed-entry_insert, listed-get_remove}
use maharit_db.Concurrent.Consistent.{NodesFit, IsConsistent, EdgesFit-kept}

contains-push :
    (l label : String) (xs : List String)
    → Set.contains l (xs ++ label ∷ []) ≡ (Set.contains l xs || (label == l))
unfolding Set.contains
contains-push l label [] = ground arith
contains-push l label (x ∷ xs) = rw (contains-push l label xs) (ground arith)

module _ {V : Type 0} where
  -- another node under the same number
  NodesFit-set :
      (nodes : Map ℕ (Node V)) (index index' : Map String (List ℕ)) (next id : ℕ) (n n' : Node V)
      → Map.lookup id nodes ≡ some n
      → n'.id ≡ n.id
      → ((l : String) (i : ℕ)
          → listed l i index' ≡ (if id == i then Set.contains l n'.labels else listed l i index))
      → NodesFit nodes index next
      → NodesFit (Map.insert id n' nodes) index' next
  unfolding labelled has_label
  NodesFit-set nodes index index' next id n n' here same_id same_index f = record {
    node_id = λ i m h. elim (Bool-cases (id == i)) [
      | inl p ↦
          let same : n' ≡ m = of_some (rw (lookup-insert, p) at h) in
          subst (λ z. z.id ≡ i) same (same_id ∙ (f.node_id id n here ∙ eq_of_== id i p))
      | inr p ↦ f.node_id i m (rw (lookup-insert, p) at h)
    ];
    node_issued = λ i h. elim (Bool-cases (id == i)) [
      | inl p ↦ subst (λ z. z < next) (eq_of_== id i p) (f.node_issued id (ap is_filled here))
      | inr p ↦ f.node_issued i (rw (lookup-insert, p) at h)
    ];
    indexed = λ l i.
        same_index l i
        ∙ rw lookup-insert
            (elim (Bool-cases (id == i)) [ inl p ↦ rw p refl | inr p ↦ rw p (f.indexed l i) ]);
  }
    where
      of_some : {x y : Node V} → some x ≡ some y → x ≡ y
      of_some h = cc

  indexed_here :
      (g : ConcurrentGraph V) (id : ℕ) (n : Node V) (l : String) (i : ℕ)
      → IsConsistent g
      → Map.lookup id g.nodes ≡ some n
      → (id == i) ≡ true
      → listed l i g.label_index ≡ Set.contains l n.labels
  unfolding labelled has_label
  indexed_here g id n l i c here p = rw (c.nodes_fit.indexed l i, ← eq_of_== id i p, here) refl

  node_set :
      (g : ConcurrentGraph V) (id : ℕ) (n n' : Node V) (index : Map String (List ℕ))
      → Map.lookup id g.nodes ≡ some n
      → n'.id ≡ n.id
      → ((l : String) (i : ℕ)
          → listed l i index
            ≡ (if id == i then Set.contains l n'.labels else listed l i g.label_index))
      → IsConsistent g
      → IsConsistent (record g { nodes = Map.insert id n' g.nodes; label_index = index })
  node_set g id n n' index here same_id same_index c = record {
    nodes_fit =
        NodesFit-set g.nodes g.label_index index g.next_node_id id n n' here same_id same_index
          c.nodes_fit;
    edges_fit =
        EdgesFit-kept g.nodes (Map.insert id n' g.nodes) g.edges g.next_edge_id
          (λ i h.
            rw lookup-insert (elim (Bool-cases (id == i)) [ inl p ↦ rw p refl | inr p ↦ rw p h ]))
          c.edges_fit;
    leaving = c.leaving;
    entering = c.entering;
  }

  pub add_node_label-IsConsistent :
      (g : ConcurrentGraph V) (id : ℕ) (label : String)
      → (label == "") ≡ false
      → IsConsistent g
      → IsConsistent (add_node_label g id label)
  unfolding add_node_label has_label add_label
  add_node_label-IsConsistent g id label named c = elim (Option-cases (Map.lookup id g.nodes)) [
    | inl miss ↦ rw (miss, add_node_label) c
    | inr (n, here) ↦ elim (Bool-cases (Set.contains label n.labels)) [
      | inl has ↦ rw (here, add_node_label, has) c
      | inr new_one ↦
          rw (here, add_node_label, new_one, named)
            (node_set g id n (record n { labels = n.labels ++ label ∷ [] })
              (entry_insert label id g.label_index) here refl
              (λ l i.
                rw (listed-entry_insert, contains-push)
                  (elim (Bool-cases (id == i)) [
                    | inl p ↦ rw (p, indexed_here g id n l i c here p) (ground arith)
                    | inr p ↦ rw p (ground arith)
                  ]))
              c)
    ]
  ]

  pub remove_node_label-IsConsistent :
      (g : ConcurrentGraph V) (id : ℕ) (label : String)
      → IsConsistent g
      → IsConsistent (remove_node_label g id label)
  unfolding remove_node_label has_label remove_label
  remove_node_label-IsConsistent g id label c = elim (Option-cases (Map.lookup id g.nodes)) [
    | inl miss ↦ rw (miss, remove_node_label) c
    | inr (n, here) ↦ elim (Bool-cases (Set.contains label n.labels)) [
      | inl has ↦
          rw (here, remove_node_label, has)
            (node_set g id n (record n { labels = Set.remove label n.labels })
              (get_remove label id g.label_index) here refl
              (λ l i.
                rw (listed-get_remove, contains-remove)
                  (elim (Bool-cases (id == i)) [
                    | inl p ↦ rw (p, indexed_here g id n l i c here p) (ground arith)
                    | inr p ↦ rw p (ground arith)
                  ]))
              c)
      | inr lacks ↦ rw (here, remove_node_label, lacks) c
    ]
  ]

  pub set_node_property-IsConsistent :
      (g : ConcurrentGraph V) (id : ℕ) (key : String) (value : V)
      → IsConsistent g
      → IsConsistent (set_node_property g id key value)
  unfolding set_node_property alter_at set_property
  set_node_property-IsConsistent g id key value c = elim (Option-cases (Map.lookup id g.nodes)) [
    | inl miss ↦ rw (miss, alter_at) c
    | inr (n, here) ↦
        rw (here, alter_at)
          (node_set g id n (record n { properties = Map.insert key value n.properties })
            g.label_index here refl
            (λ l i. elim (Bool-cases (id == i)) [
              | inl p ↦ rw p (indexed_here g id n l i c here p)
              | inr p ↦ rw p refl
            ])
            c)
  ]

  pub remove_node_property-IsConsistent :
      (g : ConcurrentGraph V) (id : ℕ) (key : String)
      → IsConsistent g
      → IsConsistent (remove_node_property g id key).1
  unfolding remove_node_property
  remove_node_property-IsConsistent g id key c = elim (Option-cases (Map.lookup id g.nodes)) [
    | inl miss ↦ rw (miss, remove_node_property) c
    | inr (n, here) ↦
        rw (here, remove_node_property)
          (node_set g id n (record n { properties = Map.remove key n.properties }) g.label_index
            here refl
            (λ l i. elim (Bool-cases (id == i)) [
              | inl p ↦ rw p (indexed_here g id n l i c here p)
              | inr p ↦ rw p refl
            ])
            c)
  ]
