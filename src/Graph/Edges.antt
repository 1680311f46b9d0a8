-- ===== src/Graph/Edges.antt =====
-- graph.rs: creating, deleting and listing edges.
use maharit_db.Base.{
  ℕ, ◌+◌, String, Option, none, some, List, [], ◌∷◌, ◌++◌, if◌then◌else◌, ltb, length,
}
use maharit_db.Base.Eq.{nat_eq}
use maharit_db.Base.Set
use maharit_db.Base.Vec
use maharit_db.Base.Vec.{at}
use maharit_db.Graph.{
  Graph, Node, Edge, node_not_found, Outcome, ok, err, ◌>>=◌, decrement, is_filled, empty_edge,
  get_node, get_edge,
}

-- `sets[i].insert(id)`, which panics out of bounds
unfoldable pub insert_at : List (List ℕ) → ℕ → ℕ → Option (List (List ℕ))
insert_at sets i id = Vec.write sets i (Set.insert id (at [] sets i))

-- `if i < sets.len() { sets[i].remove(&id) }`
unfoldable pub remove_at : List (List ℕ) → ℕ → ℕ → List (List ℕ)
remove_at sets i id =
    if ltb i (length sets) then Vec.set sets i (Set.remove id (at [] sets i)) else sets

module _ {V : Type 0} where
  -- the end of `create_edge`: the adjacency sets and the count
  unfoldable pub linked : ℕ → ℕ → ℕ → Graph V → Option (Outcome ℕ × Graph V)
  unfolding insert_at
  linked id from to g = do
    outgoing ← insert_at g.outgoing_edges from id
    incoming ← insert_at g.incoming_edges to id
    some (
      ok id,
      record g {
        outgoing_edges = outgoing;
        incoming_edges = incoming;
        edge_count = g.edge_count + 1;
      },
    )

  -- the slot of the new edge
  unfoldable pub placed : Graph V → ℕ → ℕ → String → Option (ℕ × Graph V)
  placed g from to label = elim g.edge_free_list [
    | freed ∷ rest ↦ do
      edges ← Vec.write g.edges freed (some (empty_edge freed from to label))
      some (freed, record g { edges = edges; edge_free_list = rest })
    | [] ↦
        let id = length g.edges in
        some (id, record g { edges = g.edges ++ some (empty_edge id from to label) ∷ [] })
  ]

  unfoldable pub create_edge : Graph V → ℕ → ℕ → String → Option (Outcome ℕ × Graph V)
  unfolding get_node linked placed
  create_edge g from to label =
      if is_filled (get_node g from)
      then if is_filled (get_node g to)
        then (do (id, g') ← placed g from to label; linked id from to g')
        else some (err (node_not_found to), g)
      else some (err (node_not_found from), g)

  unfoldable pub delete_edge : Graph V → ℕ → Option (Option (Edge V) × Graph V)
  unfolding get_edge remove_at
  delete_edge g id = elim (get_edge g id) [
    | none ↦ some (none, g)
    | some edge ↦ do
      edge_count ← decrement g.edge_count
      some (
        some edge,
        record g {
          edges = Vec.set g.edges id none;
          outgoing_edges = remove_at g.outgoing_edges edge.from id;
          incoming_edges = remove_at g.incoming_edges edge.to id;
          edge_free_list = id ∷ g.edge_free_list;
          edge_count = edge_count;
        },
      )
  ]

  -- `filter_map(|id| self.edges.get(id)?.as_ref())`
  unfoldable pub edges_at : Graph V → List ℕ → List (Edge V)
  unfolding get_edge
  edges_at g [] = []
  edges_at g (id ∷ ids) =
      let rest = edges_at g ids in elim (get_edge g id) [ none ↦ rest | some e ↦ e ∷ rest ]

  unfoldable pub get_outgoing_edges : Graph V → ℕ → List (Edge V)
  unfolding edges_at
  get_outgoing_edges g node_id = edges_at g (at [] g.outgoing_edges node_id)

  unfoldable pub get_incoming_edges : Graph V → ℕ → List (Edge V)
  unfolding edges_at
  get_incoming_edges g node_id = edges_at g (at [] g.incoming_edges node_id)

  nodes_at : Graph V → List (Edge V) → List (Node V)
  unfolding get_node
  nodes_at g [] = []
  nodes_at g (e ∷ es) =
      let rest = nodes_at g es in elim (get_node g e.to) [ none ↦ rest | some n ↦ n ∷ rest ]

  unfoldable pub get_neighbors : Graph V → ℕ → List (Node V)
  unfolding nodes_at get_outgoing_edges
  get_neighbors g node_id = nodes_at g (get_outgoing_edges g node_id)
