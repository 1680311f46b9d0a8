-- ===== src/Concurrent/Tests.antt =====
-- concurrent_graph.rs: the theorems at a concrete graph.
use maharit_db.Base.{ℕ, [], ◌∷◌, ◌≡◌, arith}
use maharit_db.Base.Eq.{nat_eq, string_eq}
use maharit_db.Base.Map
use maharit_db.Concurrent.{ConcurrentGraph, label_index_add, advanced, entry_insert}
use maharit_db.Concurrent.Calls.{
  new, create_node_with_labels, create_edge, delete_node, contains_node, insert_edge,
}
use maharit_db.Concurrent.Consistent.{IsConsistent}
use maharit_db.Concurrent.NodeDeletion.{Deleted, delete_node-Deleted}
use maharit_db.Concurrent.History.{
  Calls, none_yet, further, Later, add_node, add_edge, drop_node, Calls-IsConsistent,
  new-IsConsistent,
}

-- two people, one of whom knows the other and likes herself
abbrev one : ConcurrentGraph ℕ
one = (create_node_with_labels new ("Person" ∷ [])).1

abbrev two : ConcurrentGraph ℕ
two = (create_node_with_labels one ("Person" ∷ "Admin" ∷ [])).1

abbrev three : ConcurrentGraph ℕ
three = (create_edge two 0 1 "KNOWS").1

abbrev people : ConcurrentGraph ℕ
people = (create_edge three 0 0 "LIKES").1

people-Calls : Calls new people
unfolding new create_node_with_labels create_edge label_index_add advanced contains_node insert_edge
    entry_insert Map.insert Map.lookup
people-Calls =
    further
      (further
        (further (further none_yet (add_node ("Person" ∷ []) (omega arith)))
          (add_node ("Person" ∷ "Admin" ∷ []) (omega arith)))
        (add_edge 0 1 "KNOWS" (omega arith)))
      (add_edge 0 0 "LIKES" (omega arith))

people-IsConsistent : IsConsistent people
people-IsConsistent = (Calls-IsConsistent people-Calls new-IsConsistent).0

Calls-IsConsistent_example :
    IsConsistent (delete_node people 0).1 × Later new (delete_node people 0).1
Calls-IsConsistent_example =
    Calls-IsConsistent (further people-Calls (drop_node 0)) new-IsConsistent

delete_node-Deleted_example :
    ((delete_node people 0).0 ≡ Map.lookup 0 people.nodes)
    × Deleted people 0 (delete_node people 0).1
delete_node-Deleted_example = delete_node-Deleted people 0 people-IsConsistent
