-- ===== src/Graph/Refine.antt =====
-- graph.rs: what the calls on a graph whose invariant holds mean for its view.
use maharit_db.Base.{
  ℕ, String, true, false, Option, none, some, List, ◌≡◌, ◌∙◌, refl, ap, arith, inl, inr, Bool-cases,
  if◌then◌else◌,
}
use maharit_db.Base.Eq.{◌==◌, nat_eq, string_eq, eq_of_==}
use maharit_db.Base.Map
use maharit_db.Base.Map.{Map, map_option, lookup-insert, lookup-remove}
use maharit_db.Base.Set
use maharit_db.Base.Set.{contains-remove}
use maharit_db.Graph.{
  Graph, Node, Edge, get_node, get_edge, add_label, remove_label, set_property, empty_node,
  empty_edge,
}
use maharit_db.Graph.WellFormed.{keyed}
use maharit_db.Graph.Relabel.{NodeChanged, contains-push}
use maharit_db.Graph.PropertyLaws.{EdgeChanged, unset_node, set_edge, unset_edge}
use maharit_db.Graph.NodeDeletion.{without}
use maharit_db.Graph.View.{
  NodeView, EdgeView, node_view, edge_view, see_node, see_edge, view, view_ext, node_ext, edge_ext,
  place, alter, drop_node, drop_edge, alter_node, alter_edge, fresh_node, fresh_edge, node_prop,
  edge_prop, node_label, detached,
}

module _ {V : Type 0} where
  view-node : (g : Graph V) (i : ℕ) → (view g).node i ≡ see_node (get_node g i)
  unfolding view
  view-node g i = refl

  view-edge : (g : Graph V) (i : ℕ) → (view g).edge i ≡ see_edge (get_edge g i)
  unfolding view
  view-edge g i = refl

  see-altered :
      (f : Node V → Node V) (h : NodeView V → NodeView V) (o : Option (Node V))
      → ((n : Node V) → node_view (f n) ≡ h (node_view n))
      → see_node (map_option f o) ≡ map_option h (see_node o)
  see-altered f h none e = refl
  see-altered f h (some n) e = ap some (e n)

  see_edge-altered :
      (f : Edge V → Edge V) (h : EdgeView V → EdgeView V) (o : Option (Edge V))
      → ((n : Edge V) → edge_view (f n) ≡ h (edge_view n))
      → see_edge (map_option f o) ≡ map_option h (see_edge o)
  see_edge-altered f h none e = refl
  see_edge-altered f h (some n) e = ap some (e n)

  pub view-NodeChanged :
      (f : Node V → Node V) (h : NodeView V → NodeView V) (g : Graph V) (id : ℕ) (g' : Graph V)
      → ((n : Node V) → node_view (f n) ≡ h (node_view n))
      → NodeChanged f g id g'
      → view g' ≡ alter_node id h (view g)
  unfolding view alter_node
  view-NodeChanged f h g id g' e (w, nodes, edges) =
      view_ext (view g') (alter_node id h (view g)) (λ j. ap see_node (nodes j) ∙ at_node j)
        (λ j. ap see_edge (edges j))
    where
      at_node :
          (j : ℕ)
          → see_node (if id == j then map_option f (get_node g j) else get_node g j)
            ≡ alter id h (λ i. see_node (get_node g i)) j
      at_node j = elim (Bool-cases (id == j)) [
        | inl p ↦ rw p (see-altered f h (get_node g j) e)
        | inr p ↦ rw p refl
      ]

  pub view-EdgeChanged :
      (f : Edge V → Edge V) (h : EdgeView V → EdgeView V) (g : Graph V) (id : ℕ) (g' : Graph V)
      → ((n : Edge V) → edge_view (f n) ≡ h (edge_view n))
      → EdgeChanged f g id g'
      → view g' ≡ alter_edge id h (view g)
  unfolding view alter_edge
  view-EdgeChanged f h g id g' e (w, edges, nodes) =
      view_ext (view g') (alter_edge id h (view g)) (λ j. ap see_node (nodes j))
        (λ j. ap see_edge (edges j) ∙ at_edge j)
    where
      at_edge :
          (j : ℕ)
          → see_edge (if id == j then map_option f (get_edge g j) else get_edge g j)
            ≡ alter id h (λ i. see_edge (get_edge g i)) j
      at_edge j = elim (Bool-cases (id == j)) [
        | inl p ↦ rw p (see_edge-altered f h (get_edge g j) e)
        | inr p ↦ rw p refl
      ]

  -- what the writes of a node's or edge's own data mean
  pub view-set_property :
      (key : String) (value : V) (n : Node V)
      → node_view (set_property n key value) ≡ node_prop key (some value) (node_view n)
  unfolding set_property
  view-set_property key value n =
      node_ext (node_view (set_property n key value)) (node_prop key (some value) (node_view n))
        (λ l. refl) (λ k. lookup-insert key k value n.properties)

  pub view-unset_node :
      (key : String) (n : Node V) → node_view (unset_node key n) ≡ node_prop key none (node_view n)
  view-unset_node key n =
      node_ext (node_view (unset_node key n)) (node_prop key none (node_view n)) (λ l. refl)
        (λ k. lookup-remove key k n.properties)

  pub view-set_edge :
      (key : String) (value : V) (e : Edge V)
      → edge_view (set_edge key value e) ≡ edge_prop key (some value) (edge_view e)
  view-set_edge key value e =
      edge_ext e.label e.from e.to _ _ (λ k. lookup-insert key k value e.properties)

  pub view-unset_edge :
      (key : String) (e : Edge V) → edge_view (unset_edge key e) ≡ edge_prop key none (edge_view e)
  view-unset_edge key e = edge_ext e.label e.from e.to _ _ (λ k. lookup-remove key k e.properties)

  pub view-add_label :
      (label : String) (n : Node V)
      → (label == "") ≡ false
      → node_view (add_label n label) ≡ node_label label true (node_view n)
  unfolding add_label
  view-add_label label n filled =
      node_ext (node_view (add_label n label)) (node_label label true (node_view n))
        (λ l. elim (Bool-cases (Set.contains label n.labels)) [
          | inl e ↦ rw (filled, e) (ground (arith, e, eq_of_== label l))
          | inr e ↦ rw (filled, e) (ground (arith, contains-push l label n.labels))
        ])
        (λ k. elim (Bool-cases (Set.contains label n.labels)) [
          | inl e ↦ rw (filled, e) refl
          | inr e ↦ rw (filled, e) refl
        ])

  pub view-remove_label :
      (label : String) (n : Node V)
      → node_view (remove_label n label) ≡ node_label label false (node_view n)
  unfolding remove_label
  view-remove_label label n =
      node_ext (node_view (remove_label n label)) (node_label label false (node_view n))
        (λ l. contains-remove label l n.labels ∙ ground arith) (λ k. refl)

  -- deleting
  pub view-deleted_node :
      (g : Graph V) (id : ℕ) (g' : Graph V)
      → ((n : ℕ) → get_node g' n ≡ (if id == n then none else get_node g n))
      → ((j : ℕ) → get_edge g' j ≡ without id (get_edge g j))
      → view g' ≡ drop_node id (view g)
  unfolding view drop_node keyed
  view-deleted_node g id g' nodes edges =
      view_ext (view g') (drop_node id (view g)) (λ j. ap see_node (nodes j) ∙ at_node j)
        (λ j. ap see_edge (edges j) ∙ at_edge (get_edge g j))
    where
      at_node :
          (j : ℕ)
          → see_node (if id == j then none else get_node g j)
            ≡ place id none (λ i. see_node (get_node g i)) j
      at_node j = ground arith

      at_edge : (o : Option (Edge V)) → see_edge (without id o) ≡ detached id (see_edge o)
      at_edge none = refl
      at_edge (some e) = ground arith

  pub view-deleted_edge :
      (g : Graph V) (id : ℕ) (g' : Graph V)
      → ((j : ℕ) → get_edge g' j ≡ (if id == j then none else get_edge g j))
      → ((n : ℕ) → get_node g' n ≡ get_node g n)
      → view g' ≡ drop_edge id (view g)
  unfolding view drop_edge
  view-deleted_edge g id g' edges nodes =
      view_ext (view g') (drop_edge id (view g)) (λ j. ap see_node (nodes j))
        (λ j. ap see_edge (edges j) ∙ at_edge j)
    where
      at_edge :
          (j : ℕ)
          → see_edge (if id == j then none else get_edge g j)
            ≡ place id none (λ i. see_edge (get_edge g i)) j
      at_edge j = ground arith

  pub view-created_node :
      (g : Graph V) (id : ℕ) (labels : List String) (g' : Graph V)
      → ((j : ℕ) → get_node g' j ≡ (if id == j then some (empty_node id labels) else get_node g j))
      → ((e : ℕ) → get_edge g' e ≡ get_edge g e)
      → view g' ≡ record (view g) { node = place id (some (fresh_node labels)) (view g).node }
  unfolding view Map.lookup
  view-created_node g id labels g' nodes edges =
      view_ext (view g')
        (record (view g) { node = place id (some (fresh_node labels)) (view g).node })
        (λ j. ap see_node (nodes j) ∙ at_node j) (λ j. ap see_edge (edges j))
    where
      at_node :
          (j : ℕ)
          → see_node (if id == j then some (empty_node id labels) else get_node g j)
            ≡ place id (some (fresh_node labels)) (λ i. see_node (get_node g i)) j
      at_node j = ground arith

  pub view-created_edge :
      (g : Graph V) (id from to : ℕ) (label : String) (g' : Graph V)
      → ((j : ℕ)
          → get_edge g' j ≡ (if id == j then some (empty_edge id from to label) else get_edge g j))
      → ((n : ℕ) → get_node g' n ≡ get_node g n)
      → view g'
        ≡ record (view g) { edge = place id (some (fresh_edge from to label)) (view g).edge }
  unfolding view Map.lookup
  view-created_edge g id from to label g' edges nodes =
      view_ext (view g')
        (record (view g) { edge = place id (some (fresh_edge from to label)) (view g).edge })
        (λ j. ap see_node (nodes j)) (λ j. ap see_edge (edges j) ∙ at_edge j)
    where
      at_edge :
          (j : ℕ)
          → see_edge (if id == j then some (empty_edge id from to label) else get_edge g j)
            ≡ place id (some (fresh_edge from to label)) (λ i. see_edge (get_edge g i)) j
      at_edge j = ground arith
