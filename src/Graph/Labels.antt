-- ===== src/Graph/Labels.antt =====
-- graph.rs: labels of nodes and their index; properties, as graph_backend.rs sets them.
use maharit_db.Base.{ℕ, String, Option, none, some, if◌then◌else◌}
use maharit_db.Base.Eq.{nat_eq, string_eq}
use maharit_db.Base.Map
use maharit_db.Base.Vec
use maharit_db.Graph.{
  Graph, has_label, add_label, remove_label, set_property, get_property, get_node, get_edge,
  index_insert, index_remove,
}

module _ {V : Type 0} where
  unfoldable pub add_node_label : Graph V → ℕ → String → Graph V
  unfolding get_node has_label add_label index_insert
  add_node_label g id label = elim (get_node g id) [
    | none ↦ g
    | some node ↦ if has_label node label then g else record g {
      nodes = Vec.set g.nodes id (some (add_label node label));
      label_index = index_insert id label g.label_index;
    }
  ]

  unfoldable pub remove_node_label : Graph V → ℕ → String → Graph V
  unfolding get_node has_label remove_label index_remove
  remove_node_label g id label = elim (get_node g id) [
    | none ↦ g
    | some node ↦
        if has_label node label
        then record g {
          nodes = Vec.set g.nodes id (some (remove_label node label));
          label_index = index_remove id label g.label_index;
        }
        else g
  ]

  unfoldable pub set_node_property : Graph V → ℕ → String → V → Graph V
  unfolding get_node set_property
  set_node_property g id key value = elim (get_node g id) [
    | none ↦ g
    | some node ↦ record g { nodes = Vec.set g.nodes id (some (set_property node key value)) }
  ]

  unfoldable pub get_node_property : Graph V → ℕ → String → Option V
  unfolding get_node get_property
  get_node_property g id key = elim (get_node g id) [
    | none ↦ none
    | some node ↦ get_property node key
  ]

  unfoldable pub remove_node_property : Graph V → ℕ → String → Option V × Graph V
  unfolding get_node get_property
  remove_node_property g id key = elim (get_node g id) [
    | none ↦ (none, g)
    | some node ↦ (
      get_property node key,
      record g {
        nodes =
            Vec.set g.nodes id (some (record node { properties = Map.remove key node.properties }));
      },
    )
  ]

  unfoldable pub set_edge_property : Graph V → ℕ → String → V → Graph V
  unfolding get_edge
  set_edge_property g id key value = elim (get_edge g id) [
    | none ↦ g
    | some edge ↦ record g {
      edges =
          Vec.set g.edges id
            (some (record edge { properties = Map.insert key value edge.properties }));
    }
  ]

  unfoldable pub remove_edge_property : Graph V → ℕ → String → Option V × Graph V
  unfolding get_edge
  remove_edge_property g id key = elim (get_edge g id) [
    | none ↦ (none, g)
    | some edge ↦ (
      Map.lookup key edge.properties,
      record g {
        edges =
            Vec.set g.edges id (some (record edge { properties = Map.remove key edge.properties }));
      },
    )
  ]
