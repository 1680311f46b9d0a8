-- ===== src/Graph/Restore.antt =====
-- graph.rs: creating nodes and edges under given numbers, for recovery and rollback.
use maharit_db.Base.{
  ℕ, zero, suc, ◌+◌, ◌-◌, ◌%◌, ◌^◌, String, not, Option, none, some, List, [], ◌∷◌, if◌then◌else◌,
  leb, length,
}
use maharit_db.Base.Eq.{nat_eq}
use maharit_db.Base.Set
use maharit_db.Base.Vec
use maharit_db.Graph.{
  Graph, Outcome, ok, err, node_not_found, ◌>>=◌, is_filled, empty_node, empty_edge, get_node,
  get_edge, label_index_add_node,
}
use maharit_db.Graph.Edges.{linked}

-- `resize_with(n, ..)` on a vector of at most `n` elements
unfoldable pub resize {ℓ} : {A : Type ℓ} → A → ℕ → List A → List A
resize d zero xs = xs
resize d (suc n) [] = d ∷ resize d n []
resize d (suc n) (x ∷ xs) = x ∷ resize d n xs

-- `for skipped in from..to { free.push(skipped) }`
unfoldable pub push_range : ℕ → ℕ → List ℕ → List ℕ
push_range from zero free = free
push_range from (suc n) free = push_range (from + 1) n (from ∷ free)

module _ {V : Type 0} where
  unfoldable pub create_node_with_id_and_labels : Graph V → ℕ → List String → Option (ℕ × Graph V)
  unfolding get_node label_index_add_node resize
  create_node_with_id_and_labels g id labels =
      if is_filled (get_node g id) then some (id, g) else do
        let grow = leb (length g.nodes) id
        let new_len = (id + 1) % 2 ^ 64
        nodes ←
            Vec.write (if grow then resize none new_len g.nodes else g.nodes) id
              (some (empty_node id labels))
        outgoing ←
            Vec.write (if grow then resize [] new_len g.outgoing_edges else g.outgoing_edges) id []
        incoming ←
            Vec.write (if grow then resize [] new_len g.incoming_edges else g.incoming_edges) id []
        let g' = record g {
          nodes = nodes;
          outgoing_edges = outgoing;
          incoming_edges = incoming;
          node_free_list = Set.remove id g.node_free_list;
          node_count = g.node_count + 1;
        }
        some (id, label_index_add_node g' id)

  unfoldable pub create_edge_with_id : Graph V → ℕ → ℕ → ℕ → String → Option (Outcome ℕ × Graph V)
  unfolding get_node get_edge resize push_range linked
  create_edge_with_id g id from to label =
      if not (is_filled (get_node g from))
      then some (err (node_not_found from), g)
      else if not (is_filled (get_node g to))
      then some (err (node_not_found to), g)
      else if is_filled (get_edge g id)
      then some (ok id, g)
      else do
        let grow = leb (length g.edges) id
        let free =
            if grow
            then push_range (length g.edges) (id - length g.edges) g.edge_free_list
            else g.edge_free_list
        edges ←
            Vec.write (if grow then resize none (id + 1) g.edges else g.edges) id
              (some (empty_edge id from to label))
        linked id from to (record g { edges = edges; edge_free_list = Set.remove id free })
