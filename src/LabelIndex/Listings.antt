-- ===== src/LabelIndex/Listings.antt =====
-- index.rs: the listings after any call, and what happens to an edge that is added under a second
-- type.
use maharit_db.Base.{
  ℕ, String, Bool, true, false, none, some, List, [], ◌∷◌, map, ◌≡◌, ◌∙◌, refl, sym, ap, arith, inl,
  inr, Bool-cases, Option-cases,
}
use maharit_db.Base.Eq.{◌==◌, nat_eq, string_eq, eq_of_==, ==_refl}
use maharit_db.Base.Map
use maharit_db.Base.Map.{Map, lookup-insert, lookup-remove}
use maharit_db.Base.Set
use maharit_db.LabelIndex.{
  LabelIndex, or_empty, insert_at, remove_at, new, add_node, add_node_labels, add_edge, remove_edge,
  clear, get_node_labels, get_nodes_by_label, get_edges_by_type, all_node_labels,
}
use maharit_db.LabelIndex.Sets.{member, member-insert_at, member-remove_at}
use maharit_db.LabelIndex.Relation.{
  Agree, is_label, new-Agree, has, Becomes, add_node_labels-Becomes, remove_node-Becomes,
  remove_node_label-Becomes,
}
use maharit_db.LabelIndex.Calls.{
  Call, index_node, index_labels, drop_node, drop_label, relabel, index_edge, drop_edge, wipe,
  apply, nodes_after, edges_after, Addable, typed_edge, BecomesEdges, update_node_label-Becomes,
  add_edge-Becomes, remove_edge-Becomes,
}

abbrev Both : LabelIndex → LabelIndex → (ℕ → String → Bool) → (ℕ → String → Bool) → Type 0
Both i j r s =
    Agree j
    × ((n : ℕ) (l : String) → has j n l ≡ r n l)
    × ((e : ℕ) (l : String) → member l e j.edge_labels ≡ s e l)

abbrev typed_in : LabelIndex → ℕ → String → Bool
typed_in i e l = member l e i.edge_labels

of_nodes : (i j : LabelIndex) (r : ℕ → String → Bool) → Becomes i j r → Both i j r (typed_in i)
of_nodes i j r (a, nodes, edges) = (a, nodes, λ e l. edges l e)

of_edges : (i j : LabelIndex) (s : ℕ → String → Bool) → BecomesEdges i j s → Both i j (has i) s
of_edges i j s (a, nodes, edges) = (a, nodes, λ e l. edges l e)

add_node-one : (i : LabelIndex) (n : ℕ) (l : String) → add_node i n l ≡ add_node_labels i n (l ∷ [])
unfolding add_node add_node_labels
add_node-one i n l = elim (Bool-cases (l == "")) [ inl p ↦ rw p refl | inr p ↦ rw p refl ]

apply-Both :
    (c : Call) (i : LabelIndex)
    → Addable c i
    → Agree i
    → Both i (apply c i) (nodes_after c (has i)) (edges_after c (typed_in i))
unfolding apply
apply-Both (index_node n l) i add a =
    let (b, r, edges) = add_node_labels-Becomes i n (l ∷ []) a in
    rw (add_node-one i n l)
      (b, λ m k. r m k ∙ (unfold Set.contains in ground arith), λ e k. edges k e)
apply-Both (index_labels n ls) i add a = of_nodes i _ _ (add_node_labels-Becomes i n ls a)
apply-Both (drop_node n) i add a = of_nodes i _ _ (remove_node-Becomes i n a)
apply-Both (drop_label n l) i add a = of_nodes i _ _ (remove_node_label-Becomes i n l a)
apply-Both (relabel n l) i add a = of_nodes i _ _ (update_node_label-Becomes i n l a)
apply-Both (index_edge e l) i add a = of_edges i _ _ (add_edge-Becomes i e l add a)
apply-Both (drop_edge e) i add a = of_edges i _ _ (remove_edge-Becomes i e a)
apply-Both wipe i add a =
    unfold clear in
    (
      new-Agree,
      λ m k. unfold new Map.lookup Set.contains in refl,
      λ e k. unfold new Map.lookup Set.contains in refl,
    )

-- A call on an index whose maps agree leaves maps that agree. The nodes listed under a label, the
-- labels listed for a node and the edges listed under a type are then those of the relations that
-- the call is to make: an empty label is never listed, removals take out what they name and
-- nothing else, and a new label of a node replaces all that it had. An edge that has a type
-- already is only added with the same one.
pub apply-listed :
    (c : Call) (i : LabelIndex)
    → Addable c i
    → Agree i
    → Agree (apply c i)
      × ((n : ℕ) (l : String)
          → Set.contains n (get_nodes_by_label (apply c i) l)
            ≡ nodes_after c (λ m k. Set.contains m (get_nodes_by_label i k)) n l)
      × ((n : ℕ) (l : String)
          → Set.contains l (get_node_labels (apply c i) n)
            ≡ Set.contains n (get_nodes_by_label (apply c i) l))
      × ((e : ℕ) (l : String)
          → Set.contains e (get_edges_by_type (apply c i) l)
            ≡ edges_after c (λ f k. Set.contains f (get_edges_by_type i k)) e l)
unfolding get_nodes_by_label get_node_labels get_edges_by_type
apply-listed c i add a =
    let (b, nodes, edges) = apply-Both c i add a in (b, nodes, λ n l. sym (b.both l n), edges)

-- a key is listed if the map has it
contains-keys :
    {A : Type 0} (m : Map String A) (key : String) (x : A)
    → Map.lookup key m ≡ some x
    → Set.contains key (map (λ (entry : String × A). entry.0) m) ≡ true
unfolding Map.lookup Set.contains
contains-keys [] key x h = absurd (ground arith)
contains-keys ((k, y) ∷ m) key x h = elim (Bool-cases (k == key)) [
  | inl p ↦ rw p refl
  | inr p ↦ rw p (contains-keys m key x (ground arith))
]

lookup-keys :
    {A : Type 0} (m : Map String A) (key : String)
    → Set.contains key (map (λ (entry : String × A). entry.0) m) ≡ true
    → (x : A) × (Map.lookup key m ≡ some x)
unfolding Map.lookup Set.contains
lookup-keys [] key h = absurd (ground arith)
lookup-keys ((k, y) ∷ m) key h = elim (Bool-cases (k == key)) [
  | inl p ↦ (y, rw p refl)
  | inr p ↦ let (x, e) = lookup-keys m key (ground arith) in (x, rw p e)
]

-- In an index whose maps agree, the labels that are listed are exactly those of some node.
pub all_node_labels-listed :
    (i : LabelIndex) (l : String)
    → Agree i
    → (Set.contains l (all_node_labels i) ≡ true
        → (n : ℕ) × (Set.contains n (get_nodes_by_label i l) ≡ true))
      × ((n : ℕ)
          → Set.contains n (get_nodes_by_label i l) ≡ true
          → Set.contains l (all_node_labels i) ≡ true)
unfolding all_node_labels get_nodes_by_label
all_node_labels-listed i l a = (
  λ h. let (set, found) = lookup-keys i.node_labels l h in first set found,
  λ n h. elim (Option-cases (Map.lookup l i.node_labels)) [
    | inl e ↦ absurd (nothing n e h)
    | inr (set, e) ↦ contains-keys i.node_labels l set e
  ],
)
  where
    nothing :
        (n : ℕ)
        → Map.lookup l i.node_labels ≡ none
        → Set.contains n (or_empty (Map.lookup l i.node_labels)) ≡ true
        → ⊥
    nothing n e h = let h' : Set.contains n [] ≡ true = rw e at h in unfold Set.contains in cc

    first :
        (set : List ℕ)
        → Map.lookup l i.node_labels ≡ some set
        → (n : ℕ) × (Set.contains n (or_empty (Map.lookup l i.node_labels)) ≡ true)
    first [] found = let full = a.nodes_full l [] found in absurd (ground arith)
    first (n ∷ ns) found =
        (n, rw found (unfold Set.contains in (let s = ==_refl n in ground arith)))

add_edge-typed :
    (i : LabelIndex) (e : ℕ) (l : String) → (l == "") ≡ false → add_edge i e l ≡ typed_edge i e l
unfolding add_edge
add_edge-typed i e l filled = rw filled refl

remove_edge-found :
    (i : LabelIndex) (e : ℕ) (l : String)
    → Map.lookup e i.edge_to_label ≡ some l
    → (remove_edge i e).edge_labels ≡ remove_at l e i.edge_labels
unfolding remove_edge
remove_edge-found i e l found = rw (found, remove_edge) refl

-- An edge that is in the index under one type and is added under another, neither of them empty,
-- is listed under both, and removing it leaves it listed under the first.
pub edge_listed_twice :
    (i : LabelIndex) (e : ℕ) (old later : String)
    → Agree i
    → Map.lookup e i.edge_to_label ≡ some old
    → (old == later) ≡ false
    → (later == "") ≡ false
    → (Set.contains e (get_edges_by_type (add_edge i e later) old) ≡ true)
      × (Set.contains e (get_edges_by_type (add_edge i e later) later) ≡ true)
      × (Set.contains e (get_edges_by_type (remove_edge (add_edge i e later) e) old) ≡ true)
unfolding get_edges_by_type
edge_listed_twice i e old later a found other filled =
    let under : member old e i.edge_labels ≡ true =
      a.typed old e ∙ (ap (is_label old) found ∙ ==_refl old) in
    let apart : (later == old) ≡ false = elim (Bool-cases (later == old)) [
      | inl p ↦ absurd (ground (arith, eq_of_== later old p, ==_refl old, other))
      | inr p ↦ p
    ] in
    let now : Map.lookup e (typed_edge i e later).edge_to_label ≡ some later =
      rw (lookup-insert, ==_refl e) in
    rw (add_edge-typed i e later filled) (
      rw (member-insert_at later old e e i.edge_labels, under) (ground arith),
      rw (member-insert_at later later e e i.edge_labels, ==_refl later, ==_refl e) refl,
      rw (remove_edge-found (typed_edge i e later) e later now) (
          rw
            (
              member-remove_at later old e e (insert_at later e i.edge_labels),
              member-insert_at later old e e i.edge_labels,
              under,
              apart,
            )
            (ground arith)),
    )
