-- ===== src/Graph/WellFormed.antt =====
-- graph.rs: what holds of the fields of a graph between any two calls.
use maharit_db.Base.{
  ℕ, ◌<◌, String, Bool, true, false, Option, none, some, List, [], ◌∷◌, ◌≡◌, length,
}
use maharit_db.Base.Eq.{◌==◌, nat_eq, string_eq}
use maharit_db.Base.Map
use maharit_db.Base.Map.{Map}
use maharit_db.Base.Set
use maharit_db.Base.Vec.{at, count_some}
use maharit_db.Graph.{Graph, Node, Edge, has_label, sets_of, is_filled}

-- No number stands twice.
abbrev pub Distinct : List ℕ → Type 0
Distinct [] = Unit
Distinct (x ∷ xs) = (Set.contains x xs ≡ false) × Distinct xs

-- The free list holds empty slots, none of them twice, and the count is that of the others.
pub record SlotsFit {A : Type 0} (slots : List (Option A)) (free : List ℕ) (count : ℕ)
    : Type 0 where
  pub free_empty :
      (i : ℕ) → Set.contains i free ≡ true → (i < length slots) × (at none slots i ≡ none)
  pub free_distinct : Distinct free
  pub counted : count ≡ count_some slots

module _ {V : Type 0} where
  -- the slot holds an edge whose end, chosen by `end`, is `n`
  unfoldable pub keyed : (Edge V → ℕ) → Option (Edge V) → ℕ → Bool
  keyed end none n = false
  keyed end (some e) n = end e == n

  unfoldable pub labelled : Option (Node V) → String → Bool
  unfolding has_label
  labelled none label = false
  labelled (some n) label = has_label n label

  -- The set at `n` holds exactly the edges whose end is `n`.
  abbrev pub Exact : (Edge V → ℕ) → List (Option (Edge V)) → List (List ℕ) → Type 0
  Exact end edges sets = (n i : ℕ) → Set.contains i (at [] sets n) ≡ keyed end (at none edges i) n

  -- Every edge knows its number and joins two nodes that exist.
  pub record EdgesFit (nodes : List (Option (Node V))) (edges : List (Option (Edge V)))
      : Type 0 where
    pub edge_id : (i : ℕ) (e : Edge V) → at none edges i ≡ some e → e.id ≡ i
    pub edge_from :
        (i : ℕ) (e : Edge V) → at none edges i ≡ some e → is_filled (at none nodes e.from) ≡ true
    pub edge_to :
        (i : ℕ) (e : Edge V) → at none edges i ≡ some e → is_filled (at none nodes e.to) ≡ true

  -- Every node knows its number, and the index lists exactly the nodes that have a label.
  pub record NodesFit (nodes : List (Option (Node V))) (index : Map String (List ℕ)) : Type 0 where
    pub node_id : (i : ℕ) (n : Node V) → at none nodes i ≡ some n → n.id ≡ i
    pub indexed :
        (label : String) (i : ℕ)
        → Set.contains i (sets_of (Map.lookup label index)) ≡ labelled (at none nodes i) label

  pub record WellFormed (g : Graph V) : Type 0 where
    pub outgoing_length : length g.outgoing_edges ≡ length g.nodes
    pub incoming_length : length g.incoming_edges ≡ length g.nodes
    pub nodes_fit : NodesFit g.nodes g.label_index
    pub edges_fit : EdgesFit g.nodes g.edges
    pub node_slots : SlotsFit g.nodes g.node_free_list g.node_count
    pub edge_slots : SlotsFit g.edges g.edge_free_list g.edge_count
    pub outgoing_exact : Exact (λ e. e.from) g.edges g.outgoing_edges
    pub incoming_exact : Exact (λ e. e.to) g.edges g.incoming_edges
