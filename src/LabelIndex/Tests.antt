-- ===== src/LabelIndex/Tests.antt =====
-- index.rs: the theorems at a concrete index.
use maharit_db.Base.{ℕ, String, true, some, [], ◌∷◌, ◌≡◌, refl}
use maharit_db.Base.Eq.{nat_eq, string_eq}
use maharit_db.Base.Map
use maharit_db.Base.Map.{Map}
use maharit_db.Base.Set
use maharit_db.LabelIndex.{
  LabelIndex, new, insert_at, add_edge, remove_edge, get_node_labels, get_nodes_by_label,
  get_edges_by_type, all_node_labels,
}
use maharit_db.LabelIndex.Relation.{Agree, new-Agree}
use maharit_db.LabelIndex.Calls.{index_labels, index_edge, relabel, apply, nodes_after, edges_after}
use maharit_db.LabelIndex.Listings.{apply-listed, all_node_labels-listed, edge_listed_twice}

-- a node with two labels
abbrev people : LabelIndex
people = apply (index_labels 0 ("Person" ∷ "Admin" ∷ [])) new

people-Agree : Agree people
people-Agree = (apply-listed (index_labels 0 ("Person" ∷ "Admin" ∷ [])) new tt new-Agree).0

apply-listed_example :
    Agree (apply (relabel 0 "Robot") people)
    × ((n : ℕ) (l : String)
        → Set.contains n (get_nodes_by_label (apply (relabel 0 "Robot") people) l)
          ≡ nodes_after
              (relabel 0 "Robot")
              (λ m k. Set.contains m (get_nodes_by_label people k))
              n
              l)
    × ((n : ℕ) (l : String)
        → Set.contains l (get_node_labels (apply (relabel 0 "Robot") people) n)
          ≡ Set.contains n (get_nodes_by_label (apply (relabel 0 "Robot") people) l))
    × ((e : ℕ) (l : String)
        → Set.contains e (get_edges_by_type (apply (relabel 0 "Robot") people) l)
          ≡ edges_after
              (relabel 0 "Robot")
              (λ f k. Set.contains f (get_edges_by_type people k))
              e
              l)
apply-listed_example = apply-listed (relabel 0 "Robot") people tt people-Agree

all_node_labels-listed_example :
    (Set.contains "Admin" (all_node_labels people) ≡ true
      → (n : ℕ) × (Set.contains n (get_nodes_by_label people "Admin") ≡ true))
    × ((n : ℕ)
        → Set.contains n (get_nodes_by_label people "Admin") ≡ true
        → Set.contains "Admin" (all_node_labels people) ≡ true)
all_node_labels-listed_example = all_node_labels-listed people "Admin" people-Agree

-- an edge of one type
abbrev knows : LabelIndex
knows = apply (index_edge 4 "KNOWS") new

knows-Agree : Agree knows
unfolding new Map.lookup
knows-Agree = (apply-listed (index_edge 4 "KNOWS") new nothing new-Agree).0
  where
    nothing : (old : String) → Map.lookup 4 new.edge_to_label ≡ some old → old ≡ "KNOWS"
    nothing old h = cc

knows-typed : Map.lookup 4 knows.edge_to_label ≡ some "KNOWS"
unfolding apply add_edge new insert_at Map.lookup Map.insert
knows-typed = refl

edge_listed_twice_example :
    (Set.contains 4 (get_edges_by_type (add_edge knows 4 "LIKES") "KNOWS") ≡ true)
    × (Set.contains 4 (get_edges_by_type (add_edge knows 4 "LIKES") "LIKES") ≡ true)
    × (Set.contains 4 (get_edges_by_type (remove_edge (add_edge knows 4 "LIKES") 4) "KNOWS") ≡ true)
edge_listed_twice_example =
    edge_listed_twice knows 4 "KNOWS" "LIKES" knows-Agree knows-typed refl refl
