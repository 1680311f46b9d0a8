-- ===== src/Graph/Properties.antt =====
-- graph_backend.rs: what is read of a node after `set_node_property`.
use maharit_db.Base.{
  ℕ, String, ◌&&◌, Option, none, some, List, ◌≡◌, ◌∙◌, refl, ap, arith, inl, inr, Bool-cases,
  Option-cases, if◌then◌else◌,
}
use maharit_db.Base.Eq.{◌==◌, nat_eq, string_eq}
use maharit_db.Base.Map
use maharit_db.Base.Map.{map_option, lookup-insert}
use maharit_db.Graph.{Graph, Node, get_node, get_edge, get_property, set_property, is_filled}
use maharit_db.Graph.Labels.{set_node_property, get_node_property}
use maharit_db.Graph.WellFormed.{WellFormed}
use maharit_db.Graph.Relabel.{set_node_property-NodeChanged}

module _ {V : Type 0} where
  abbrev pub labels_of : Option (Node V) → Option (List String)
  labels_of none = none
  labels_of (some n) = some n.labels

  abbrev property_of : Option (Node V) → String → Option V
  property_of none k = none
  property_of (some n) k = Map.lookup k n.properties

  get_node_property-of :
      (g : Graph V) (j : ℕ) (k : String) → get_node_property g j k ≡ property_of (get_node g j) k
  unfolding get_node_property get_property
  get_node_property-of g j k = elim (Option-cases (get_node g j)) [
    | inl e ↦ rw (e, get_node_property) refl
    | inr (n, e) ↦ rw (e, get_node_property) refl
  ]

  labels_kept :
      (key : String) (value : V) (o : Option (Node V))
      → labels_of (map_option (λ n. set_property n key value) o) ≡ labels_of o
  unfolding set_property
  labels_kept key value none = refl
  labels_kept key value (some n) = refl

  property_set :
      (key k : String) (value : V) (o : Option (Node V))
      → property_of (map_option (λ n. set_property n key value) o) k
        ≡ (if (key == k) && is_filled o then some value else property_of o k)
  unfolding set_property
  property_set key k value none = ground arith
  property_set key k value (some n) = lookup-insert key k value n.properties ∙ ground arith

  -- what `set_node_property` is to make of a graph
  abbrev pub PropertySet : Graph V → ℕ → String → V → Graph V → Type 0
  PropertySet g id key value g' =
      WellFormed g'
      × ((j : ℕ) (k : String)
          → get_node_property g' j k ≡ (
              if (id == j) && ((key == k) && is_filled (get_node g j))
              then some value
              else get_node_property g j k))
      × ((j : ℕ) → labels_of (get_node g' j) ≡ labels_of (get_node g j))
      × ((e : ℕ) → get_edge g' e ≡ get_edge g e)

  -- In a well-formed graph, after `set_node_property` the key of the node, if the node exists,
  -- reads the value; every other key of it and every key of any other node reads as before; the
  -- nodes that exist, their labels and all edges are as before, and the graph is well-formed.
  pub get_node_property-set_node_property :
      (g : Graph V) (id : ℕ) (key : String) (value : V)
      → WellFormed g
      → PropertySet g id key value (set_node_property g id key value)
  get_node_property-set_node_property g id key value w =
      let (w', nodes, edges) = set_node_property-NodeChanged g id key value w in
      (
        w',
        λ j k.
            rw
              (
                get_node_property-of (set_node_property g id key value) j k,
                get_node_property-of g j k,
                nodes j,
              )
              (elim (Bool-cases (id == j)) [
                | inl p ↦ rw p (property_set key k value (get_node g j))
                | inr p ↦ rw p refl
              ]),
        λ j. ap labels_of (nodes j) ∙ elim (Bool-cases (id == j)) [
          | inl p ↦ rw p (labels_kept key value (get_node g j))
          | inr p ↦ rw p refl
        ],
        edges,
      )
