-- ===== src/Concurrent/Consistent.antt =====
-- concurrent_graph.rs: the invariant of the graph, by its parts, and what writes do to them.
use maharit_db.Base.{
  ℕ, ◌<◌, ◌≤◌, String, true, false, Option, none, some, List, [], ◌≡◌, refl, sym, ap, ◌∙◌, arith,
  inl, inr, Bool-cases, Option-cases,
}
use maharit_db.Base.Eq.{◌==◌, nat_eq, string_eq, eq_of_==}
use maharit_db.Base.Map
use maharit_db.Base.Map.{Map, lookup-insert, lookup-remove, map_option}
use maharit_db.Graph.{Node, Edge, is_filled, has_label, empty_node}
use maharit_db.Graph.WellFormed.{keyed, labelled}
use maharit_db.Concurrent.{
  ConcurrentGraph, entry_insert, get_remove, entry_default, label_index_add,
}
use maharit_db.Concurrent.Sets.{
  listed, listed-entry_insert, listed-get_remove, listed-entry_default, listed-emptied,
  listed-label_index_add,
}

module _ {V : Type 0} where
  -- Every node knows its number, which has been issued, and the index lists the nodes of a label.
  pub record NodesFit (nodes : Map ℕ (Node V)) (index : Map String (List ℕ)) (next : ℕ)
      : Type 0 where
    pub node_id : (i : ℕ) (n : Node V) → Map.lookup i nodes ≡ some n → n.id ≡ i
    pub node_issued : (i : ℕ) → is_filled (Map.lookup i nodes) ≡ true → i < next
    pub indexed : (l : String) (i : ℕ) → listed l i index ≡ labelled (Map.lookup i nodes) l

  -- Every edge knows its number, which has been issued, and joins two nodes that exist.
  pub record EdgesFit (nodes : Map ℕ (Node V)) (edges : Map ℕ (Edge V)) (next : ℕ) : Type 0 where
    pub edge_id : (i : ℕ) (e : Edge V) → Map.lookup i edges ≡ some e → e.id ≡ i
    pub edge_from :
        (i : ℕ) (e : Edge V)
        → Map.lookup i edges ≡ some e
        → is_filled (Map.lookup e.from nodes) ≡ true
    pub edge_to :
        (i : ℕ) (e : Edge V)
        → Map.lookup i edges ≡ some e
        → is_filled (Map.lookup e.to nodes) ≡ true
    pub edge_issued : (i : ℕ) → is_filled (Map.lookup i edges) ≡ true → i < next

  -- The set at a node holds exactly the edges whose end is the node.
  abbrev pub Exact : (Edge V → ℕ) → Map ℕ (Edge V) → Map ℕ (List ℕ) → Type 0
  Exact end edges sets = (n i : ℕ) → listed n i sets ≡ keyed end (Map.lookup i edges) n

  pub record IsConsistent (g : ConcurrentGraph V) : Type 0 where
    pub nodes_fit : NodesFit g.nodes g.label_index g.next_node_id
    pub edges_fit : EdgesFit g.nodes g.edges g.next_edge_id
    pub leaving : Exact (λ e. e.from) g.edges g.outgoing
    pub entering : Exact (λ e. e.to) g.edges g.incoming

  pub NodesFit-insert :
      (nodes : Map ℕ (Node V)) (index : Map String (List ℕ)) (next next' id : ℕ)
      (labels : List String)
      → Map.lookup id nodes ≡ none
      → next ≤ next'
      → id < next'
      → NodesFit nodes index next
      → NodesFit
          (Map.insert id (empty_node id labels) nodes)
          (label_index_add id labels index)
          next'
  unfolding labelled has_label
  NodesFit-insert nodes index next next' id labels free le lt f = record {
    node_id = λ i n h. elim (Bool-cases (id == i)) [
      | inl p ↦
          let same : some (empty_node id labels) ≡ some n = rw (lookup-insert, p) at h in
          ap (λ z. id_of z id) (sym same) ∙ eq_of_== id i p
      | inr p ↦ f.node_id i n (rw (lookup-insert, p) at h)
    ];
    node_issued = λ i h. elim (Bool-cases (id == i)) [
      | inl p ↦ let e = eq_of_== id i p in omega arith
      | inr p ↦ let below = f.node_issued i (rw (lookup-insert, p) at h) in omega arith
    ];
    indexed = λ l i.
        rw (listed-label_index_add, f.indexed l i, lookup-insert)
          (elim (Bool-cases (id == i)) [
            | inl p ↦ rw (p, ← eq_of_== id i p, free) (ground arith)
            | inr p ↦ rw p refl
          ]);
  }
    where
      id_of : Option (Node V) → ℕ → ℕ
      id_of none d = d
      id_of (some n) d = n.id

  -- the nodes of every edge stay
  pub EdgesFit-kept :
      (nodes nodes' : Map ℕ (Node V)) (edges : Map ℕ (Edge V)) (next : ℕ)
      → ((i : ℕ) → is_filled (Map.lookup i nodes) ≡ true → is_filled (Map.lookup i nodes') ≡ true)
      → EdgesFit nodes edges next
      → EdgesFit nodes' edges next
  EdgesFit-kept nodes nodes' edges next more f = record {
    edge_id = f.edge_id;
    edge_from = λ i e h. more e.from (f.edge_from i e h);
    edge_to = λ i e h. more e.to (f.edge_to i e h);
    edge_issued = f.edge_issued;
  }

  -- no edge touches a node that is not there
  pub no_edge_from :
      (nodes : Map ℕ (Node V)) (edges : Map ℕ (Edge V)) (next id i : ℕ)
      → EdgesFit nodes edges next
      → Map.lookup id nodes ≡ none
      → keyed (λ e. e.from) (Map.lookup i edges) id ≡ false
  unfolding keyed
  no_edge_from nodes edges next id i f free = elim (Option-cases (Map.lookup i edges)) [
    | inl miss ↦ rw miss
    | inr (e, found) ↦ rw found (elim (Bool-cases (e.from == id)) [
      | inl p ↦
          let q = eq_of_== e.from id p in
          let there = f.edge_from i e found in
          absurd (clash (Map.lookup e.from nodes) there (ap (λ z. Map.lookup z nodes) q ∙ free))
      | inr p ↦ p
    ])
  ]
    where
      clash : (o : Option (Node V)) → is_filled o ≡ true → o ≡ none → ⊥
      clash none t e = cc
      clash (some n) t e = cc

  pub no_edge_to :
      (nodes : Map ℕ (Node V)) (edges : Map ℕ (Edge V)) (next id i : ℕ)
      → EdgesFit nodes edges next
      → Map.lookup id nodes ≡ none
      → keyed (λ e. e.to) (Map.lookup i edges) id ≡ false
  unfolding keyed
  no_edge_to nodes edges next id i f free = elim (Option-cases (Map.lookup i edges)) [
    | inl miss ↦ rw miss
    | inr (e, found) ↦ rw found (elim (Bool-cases (e.to == id)) [
      | inl p ↦
          let q = eq_of_== e.to id p in
          let there = f.edge_to i e found in
          absurd (clash (Map.lookup e.to nodes) there (ap (λ z. Map.lookup z nodes) q ∙ free))
      | inr p ↦ p
    ])
  ]
    where
      clash : (o : Option (Node V)) → is_filled o ≡ true → o ≡ none → ⊥
      clash none t e = cc
      clash (some n) t e = cc

  pub Exact-emptied :
      (end : Edge V → ℕ) (edges : Map ℕ (Edge V)) (sets : Map ℕ (List ℕ)) (id : ℕ)
      → ((i : ℕ) → keyed end (Map.lookup i edges) id ≡ false)
      → Exact end edges sets
      → Exact end edges (Map.insert id [] sets)
  Exact-emptied end edges sets id free exact n i =
      rw (listed-emptied, exact n i)
        (elim (Bool-cases (id == n)) [
          | inl p ↦ rw (p, ← eq_of_== id n p, free i)
          | inr p ↦ rw p refl
        ])

  pub Exact-default :
      (end : Edge V → ℕ) (edges : Map ℕ (Edge V)) (sets : Map ℕ (List ℕ)) (id : ℕ)
      → Exact end edges sets
      → Exact end edges (entry_default id sets)
  Exact-default end edges sets id exact n i = listed-entry_default id n i sets ∙ exact n i

  pub Exact-insert :
      (end : Edge V → ℕ) (edges : Map ℕ (Edge V)) (sets : Map ℕ (List ℕ)) (id : ℕ) (e : Edge V)
      → Map.lookup id edges ≡ none
      → Exact end edges sets
      → Exact end (Map.insert id e edges) (entry_insert (end e) id sets)
  unfolding keyed
  Exact-insert end edges sets id e free exact n i =
      rw (listed-entry_insert, exact n i, lookup-insert)
        (elim (Bool-cases (id == i)) [
          | inl p ↦ rw (p, ← eq_of_== id i p, free) (ground arith)
          | inr p ↦ rw p (ground arith)
        ])

  pub Exact-remove :
      (end : Edge V → ℕ) (edges : Map ℕ (Edge V)) (sets : Map ℕ (List ℕ)) (id : ℕ) (e : Edge V)
      → Map.lookup id edges ≡ some e
      → Exact end edges sets
      → Exact end (Map.remove id edges) (get_remove (end e) id sets)
  unfolding keyed
  Exact-remove end edges sets id e here exact n i =
      rw (listed-get_remove, exact n i, lookup-remove)
        (elim (Bool-cases (id == i)) [
          | inl p ↦ rw (p, ← eq_of_== id i p, here) (ground arith)
          | inr p ↦ rw p (ground arith)
        ])
