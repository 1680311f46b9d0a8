-- ===== src/Graph/Tests.antt =====
-- graph.rs: the theorems at concrete graphs.
use mathlib.Core.Path.{subst}
use maharit_db.Base.{
  arith, sym, ◌∙◌, ℕ, true, false, none, some, List, [], ◌∷◌, ◌≡◌, refl, All, if◌then◌else◌,
}
use maharit_db.Base.Eq.{◌==◌, nat_eq, string_eq}
use maharit_db.Base.Set
use maharit_db.Base.Vec
use maharit_db.Base.Map
use maharit_db.Graph.{
  Graph, Node, Outcome, new, create_node_with_labels, get_node, get_edge, empty_node, empty_edge,
  has_label, add_label, remove_label, nodes_by_label,
}
use maharit_db.Graph.Reading.{Lists, get_edges-Lists}
use maharit_db.Graph.Edges.{get_outgoing_edges, get_incoming_edges, create_edge, delete_edge}
use maharit_db.Graph.Deletion.{delete_node}
use maharit_db.Graph.Labels.{add_node_label, remove_node_label, set_node_property}
use maharit_db.Graph.WellFormed.{keyed, WellFormed}
use maharit_db.Graph.NodeLaws.{NodeCreated}
use maharit_db.Graph.NodeCreation.{create_node-NodeCreated}
use maharit_db.Graph.EdgeCreation.{Created, create_edge-Created}
use maharit_db.Graph.Restore.{create_node_with_id_and_labels, create_edge_with_id}
use maharit_db.Graph.Restoring.{NodeRestored, create_node_with_id-NodeRestored}
use maharit_db.Graph.EdgeRestoring.{EdgeRestored, create_edge_with_id-EdgeRestored}
use maharit_db.Graph.EdgeLaws.{delete_edge-WellFormed}
use maharit_db.Graph.NodeDeletion.{without, delete_node-WellFormed}
use maharit_db.Graph.Relabel.{
  NodeChanged, add_node_label-NodeChanged, remove_node_label-NodeChanged, add_node_label-empty,
}
use maharit_db.Graph.Properties.{PropertySet, get_node_property-set_node_property}
use maharit_db.Graph.History.{
  Call, add_node, add_edge, drop_node, drop_edge, add_label as name_node, drop_label, set_value,
  drop_value, set_edge_value, drop_edge_value, restore_node, restore_edge, Named, apply_all,
  new-WellFormed, apply_all-WellFormed,
}

-- two people who know each other
abbrev calls : List (Call ℕ)
calls =
    add_node ("Person" ∷ [])
    ∷ add_node ("Person" ∷ "Admin" ∷ [])
    ∷ add_edge 0 1 "KNOWS"
    ∷ add_edge 1 0 "KNOWS"
    ∷ add_edge 1 1 "LIKES"
    ∷ []

abbrev calls-Named : All Named calls
calls-Named = (tt, (tt, (tt, (tt, (tt, tt)))))

abbrev person : Node ℕ
person = empty_node 0 ("Person" ∷ [])

abbrev admin : Node ℕ
admin = empty_node 1 ("Person" ∷ "Admin" ∷ [])

abbrev people : Graph ℕ
people = record {
  nodes = some person ∷ some admin ∷ [];
  edges =
      some (empty_edge 0 0 1 "KNOWS")
      ∷ some (empty_edge 1 1 0 "KNOWS")
      ∷ some (empty_edge 2 1 1 "LIKES")
      ∷ [];
  outgoing_edges = (0 ∷ []) ∷ (2 ∷ 1 ∷ []) ∷ [];
  incoming_edges = (1 ∷ []) ∷ (2 ∷ 0 ∷ []) ∷ [];
  node_free_list = [];
  edge_free_list = [];
  node_count = 2;
  edge_count = 3;
  label_index = ("Person", 1 ∷ 0 ∷ []) ∷ ("Admin", 1 ∷ []) ∷ [];
}

people-made : apply_all calls new ≡ some people
unfolding apply_all new create_node_with_labels Vec.at create_edge Vec.write Vec.set Set.insert
    Map.insert Map.lookup
people-made = refl

people-WellFormed : WellFormed people
people-WellFormed =
    let (g, run, w) = apply_all-WellFormed calls new calls-Named new-WellFormed in
    subst WellFormed (some_same g people (sym run ∙ people-made)) w
  where
    some_same : (g h : Graph ℕ) → some g ≡ some h → g ≡ h
    some_same g h e = cc

-- a node and an edge get values, both go and come back
abbrev more_calls : List (Call ℕ)
more_calls =
    set_value 0 "age" 41
    ∷ set_edge_value 0 "since" 7
    ∷ drop_edge 0
    ∷ drop_node 1
    ∷ restore_node 1 ("Person" ∷ [])
    ∷ restore_edge 0 0 1 "KNOWS"
    ∷ name_node 1 "Admin"
    ∷ drop_value 0 "age"
    ∷ drop_edge_value 0 "since"
    ∷ drop_label 1 "Admin"
    ∷ []

abbrev more_calls-Named : All Named more_calls
more_calls-Named = (tt, (tt, (tt, (tt, (omega arith, (tt, (refl, (tt, (tt, (tt, tt))))))))))

apply_all-WellFormed_example : (g : Graph ℕ) × (apply_all more_calls people ≡ some g) × WellFormed g
apply_all-WellFormed_example =
    apply_all-WellFormed more_calls people more_calls-Named people-WellFormed

create_node-NodeCreated_example :
    (id : ℕ) × (g : Graph ℕ) × (create_node_with_labels people ("Robot" ∷ []) ≡ some (id, g))
    × NodeCreated people ("Robot" ∷ []) id g
create_node-NodeCreated_example = create_node-NodeCreated people ("Robot" ∷ []) people-WellFormed

create_edge-Created_example :
    (r : Outcome ℕ × Graph ℕ) × (create_edge people 0 1 "LIKES" ≡ some r)
    × Created people 0 1 "LIKES" r.0 r.1
create_edge-Created_example = create_edge-Created people 0 1 "LIKES" people-WellFormed

delete_edge-WellFormed_example :
    (g : Graph ℕ) × (delete_edge people 0 ≡ some (get_edge people 0, g))
    × WellFormed g
    × ((j : ℕ) → get_edge g j ≡ (if 0 == j then none else get_edge people j))
    × ((n : ℕ) → get_node g n ≡ get_node people n)
delete_edge-WellFormed_example = delete_edge-WellFormed people 0 people-WellFormed

delete_node-WellFormed_example :
    (g : Graph ℕ) × (delete_node people 1 ≡ some (get_node people 1, g))
    × WellFormed g
    × ((n : ℕ) → get_node g n ≡ (if 1 == n then none else get_node people n))
    × ((j : ℕ) → get_edge g j ≡ without 1 (get_edge people j))
delete_node-WellFormed_example = delete_node-WellFormed people 1 people-WellFormed

add_node_label-NodeChanged_example :
    NodeChanged (λ n. add_label n "Admin") people 0 (add_node_label people 0 "Admin")
add_node_label-NodeChanged_example =
    add_node_label-NodeChanged people 0 "Admin" refl people-WellFormed

remove_node_label-NodeChanged_example :
    NodeChanged (λ n. remove_label n "Admin") people 1 (remove_node_label people 1 "Admin")
remove_node_label-NodeChanged_example =
    remove_node_label-NodeChanged people 1 "Admin" people-WellFormed

get_node_property-set_node_property_example :
    PropertySet people 0 "age" 41 (set_node_property people 0 "age" 41)
get_node_property-set_node_property_example =
    get_node_property-set_node_property people 0 "age" 41 people-WellFormed

person_found : get_node people 0 ≡ some person
unfolding get_node Vec.at
person_found = refl

person_unnamed : has_label person "" ≡ false
unfolding has_label Set.contains
person_unnamed = refl

add_node_label-empty_example :
    (get_node (add_node_label people 0 "") 0 ≡ some person)
    × (Set.contains 0 (nodes_by_label (add_node_label people 0 "") "") ≡ true)
add_node_label-empty_example = add_node_label-empty people 0 person person_found person_unnamed

get_edges-Lists_example :
    Lists people (λ o. keyed (λ e. e.from) o 1) (get_outgoing_edges people 1)
    × Lists people (λ o. keyed (λ e. e.to) o 1) (get_incoming_edges people 1)
get_edges-Lists_example = get_edges-Lists people 1 people-WellFormed

create_node_with_id-NodeRestored_example :
    (g : Graph ℕ) × (create_node_with_id_and_labels people 4 ("Robot" ∷ []) ≡ some (4, g))
    × NodeRestored people ("Robot" ∷ []) 4 g
create_node_with_id-NodeRestored_example =
    create_node_with_id-NodeRestored people 4 ("Robot" ∷ []) (omega arith) people-WellFormed

create_edge_with_id-EdgeRestored_example :
    (r : Outcome ℕ) × (g : Graph ℕ) × (create_edge_with_id people 5 0 1 "LIKES" ≡ some (r, g))
    × EdgeRestored people 5 0 1 "LIKES" r g
create_edge_with_id-EdgeRestored_example =
    create_edge_with_id-EdgeRestored people 5 0 1 "LIKES" people-WellFormed
