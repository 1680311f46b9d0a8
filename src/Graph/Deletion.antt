-- ===== src/Graph/Deletion.antt =====
-- graph.rs: `delete_node`, which deletes the node's edges with it.
use maharit_db.Base.{ℕ, Option, none, some, List, [], ◌∷◌}
use maharit_db.Base.Eq.{nat_eq, string_eq}
use maharit_db.Base.Vec
use maharit_db.Base.Vec.{at}
use maharit_db.Graph.{Graph, Node, Edge, ◌>>=◌, decrement, get_node, index_remove_all}
use maharit_db.Graph.Edges.{remove_at}

-- What a loop over a node's edges writes: the edges, the adjacency sets at the far ends, the free
-- list and the count.
pub record Parts (V : Type 0) : Type 0 where
  pub edges : List (Option (Edge V))
  pub sets : List (List ℕ)
  pub free : List ℕ
  pub count : ℕ

module _ {V : Type 0} where
  -- The two loops of `delete_node` differ in the end at which the other node stands: `far` is
  -- `to` for the edges that leave the node, and `from` for those that enter it.
  unfoldable pub drop_edges : (Edge V → ℕ) → List ℕ → Parts V → Option (Parts V)
  unfolding remove_at
  drop_edges far [] p = some p
  drop_edges far (edge_id ∷ rest) p = elim (at none p.edges edge_id) [
    | none ↦ drop_edges far rest p
    | some edge ↦ do
      count ← decrement p.count
      drop_edges far rest (record {
        edges = Vec.set p.edges edge_id none;
        sets = remove_at p.sets (far edge) edge_id;
        free = edge_id ∷ p.free;
        count = count;
      })
  ]

  -- `self.nodes[id].take()` and what follows it
  unfoldable pub take_node : Graph V → ℕ → Option (Option (Node V) × Graph V)
  unfolding get_node index_remove_all
  take_node g id = elim (get_node g id) [
    | none ↦ some (none, g)
    | some n ↦ do
      node_count ← decrement g.node_count
      some (
        some n,
        record g {
          nodes = Vec.set g.nodes id none;
          label_index = index_remove_all id n.labels g.label_index;
          node_free_list = id ∷ g.node_free_list;
          node_count = node_count;
        },
      )
  ]

  -- the loop over the edges that leave the node
  unfoldable pub drop_outgoing : Graph V → ℕ → Option (Graph V)
  unfolding drop_edges
  drop_outgoing g id = do
    cleared ← Vec.write g.outgoing_edges id []
    p ←
        drop_edges (λ e. e.to) (at [] g.outgoing_edges id)
          (record {
            edges = g.edges;
            sets = g.incoming_edges;
            free = g.edge_free_list;
            count = g.edge_count;
          })
    some (record g {
      outgoing_edges = cleared;
      edges = p.edges;
      incoming_edges = p.sets;
      edge_free_list = p.free;
      edge_count = p.count;
    })

  -- the loop over the edges that enter the node
  unfoldable pub drop_incoming : Graph V → ℕ → Option (Graph V)
  unfolding drop_edges
  drop_incoming g id = do
    cleared ← Vec.write g.incoming_edges id []
    p ←
        drop_edges (λ e. e.from) (at [] g.incoming_edges id)
          (record {
            edges = g.edges;
            sets = g.outgoing_edges;
            free = g.edge_free_list;
            count = g.edge_count;
          })
    some (record g {
      incoming_edges = cleared;
      edges = p.edges;
      outgoing_edges = p.sets;
      edge_free_list = p.free;
      edge_count = p.count;
    })

  unfoldable pub delete_node : Graph V → ℕ → Option (Option (Node V) × Graph V)
  unfolding get_node drop_outgoing drop_incoming take_node
  delete_node g id = elim (get_node g id) [
    | none ↦ some (none, g)
    | some _ ↦ do g₁ ← drop_outgoing g id; g₂ ← drop_incoming g₁ id; take_node g₂ id
  ]
