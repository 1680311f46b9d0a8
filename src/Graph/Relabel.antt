-- ===== src/Graph/Relabel.antt =====
-- graph.rs: what a change of a node's labels or properties does to a graph whose invariant holds.
use maharit_db.Base.{
  ℕ, String, true, false, not, ◌&&◌, ◌||◌, none, some, List, [], ◌∷◌, ◌++◌, ◌≡◌, refl, ap, arith,
  inl, inr, Bool-cases, Option-cases, if◌then◌else◌,
}
use maharit_db.Base.Eq.{◌==◌, nat_eq, string_eq}
use maharit_db.Base.Map.{Map, map_option}
use maharit_db.Base.Set
use maharit_db.Base.Set.{contains-remove}
use maharit_db.Base.Vec.{at, at-set, some_in}
use maharit_db.Graph.{
  Graph, Node, get_node, get_edge, has_label, add_label, remove_label, set_property, index_insert,
  index_remove, nodes_by_label,
}
use maharit_db.Graph.Labels.{add_node_label, remove_node_label, set_node_property}
use maharit_db.Graph.WellFormed.{WellFormed, labelled}
use maharit_db.Graph.Index.{listed, listed-insert, listed-remove}
use maharit_db.Graph.Update.{updated, updated-WellFormed}

pub contains-push :
    (l label : String) (ls : List String)
    → Set.contains l (ls ++ label ∷ []) ≡ ((label == l) || Set.contains l ls)
unfolding Set.contains
contains-push l label [] = refl
contains-push l label (x ∷ ls) = ground (arith, contains-push l label ls)

remove-absent :
    (label : String) (ls : List String) → Set.contains label ls ≡ false → Set.remove label ls ≡ ls
unfolding Set.contains Set.remove
remove-absent label [] h = refl
remove-absent label (x ∷ ls) h = elim (Bool-cases (x == label)) [
  | inl e ↦ absurd (ground arith)
  | inr e ↦ rw e (ap (x ∷◌) (remove-absent label ls (ground arith)))
]

module _ {V : Type 0} where
  has_label-add :
      (n : Node V) (label l : String)
      → (label == "") ≡ false
      → has_label n label ≡ false
      → has_label (add_label n label) l ≡ ((label == l) || has_label n l)
  unfolding has_label add_label
  has_label-add n label l filled new = rw (filled, new) (contains-push l label n.labels)

  has_label-remove :
      (n : Node V) (label l : String)
      → has_label (remove_label n label) l ≡ (not (label == l) && has_label n l)
  unfolding has_label remove_label
  has_label-remove n label l = contains-remove label l n.labels

  -- What a call did that changes one node: the graph is well-formed, the node, if it exists, is
  -- changed by `f`, and every other node and every edge is as before.
  abbrev pub NodeChanged : (Node V → Node V) → Graph V → ℕ → Graph V → Type 0
  NodeChanged f g id g' =
      WellFormed g'
      × ((j : ℕ) → get_node g' j ≡ (if id == j then map_option f (get_node g j) else get_node g j))
      × ((e : ℕ) → get_edge g' e ≡ get_edge g e)

  pub unchanged :
      (f : Node V → Node V) (g : Graph V) (id : ℕ)
      → WellFormed g
      → map_option f (get_node g id) ≡ get_node g id
      → NodeChanged f g id g
  unchanged f g id w same = (w, λ j. ground (arith, same), λ e. refl)

  pub changed :
      (f : Node V → Node V) (g : Graph V) (id : ℕ) (n : Node V) (index : Map String (List ℕ))
      → at none g.nodes id ≡ some n
      → (f n).id ≡ n.id
      → ((l : String) (i : ℕ)
          → listed index l i ≡ (if id == i then has_label (f n) l else listed g.label_index l i))
      → WellFormed g
      → NodeChanged f g id (updated g id (f n) index)
  unfolding get_node get_edge
  changed f g id n index here same follows w = (
    updated-WellFormed g id n (f n) index here same follows w,
    λ j. ground (arith, at-set none g.nodes id j (some (f n)) (some_in g.nodes id n here), here),
    λ e. refl,
  )

  pub indexed_at :
      (g : Graph V) (id : ℕ) (n : Node V) (l : String)
      → at none g.nodes id ≡ some n
      → WellFormed g
      → listed g.label_index l id ≡ has_label n l
  unfolding labelled
  indexed_at g id n l here w = rw (w.nodes_fit.indexed l id, here)

  add_node_label-new :
      (g : Graph V) (id : ℕ) (label : String) (n : Node V)
      → at none g.nodes id ≡ some n
      → has_label n label ≡ false
      → add_node_label g id label
        ≡ updated g id (add_label n label) (index_insert id label g.label_index)
  unfolding add_node_label add_label has_label
  add_node_label-new g id label n here new = rw (here, add_node_label) (rw new)

  -- In a well-formed graph, unless the label is the empty string, `add_node_label` adds it to the
  -- labels of the node, if the node exists, and changes no other node and no edge; the graph, and
  -- with it the label index, stays well-formed.
  pub add_node_label-NodeChanged :
      (g : Graph V) (id : ℕ) (label : String)
      → (label == "") ≡ false
      → WellFormed g
      → NodeChanged (λ n. add_label n label) g id (add_node_label g id label)
  unfolding get_node
  add_node_label-NodeChanged g id label filled w = elim (Option-cases (at none g.nodes id)) [
    | inl e ↦
        unfold add_node_label in
        rw (e, add_node_label) (unchanged (λ n. add_label n label) g id w (rw e))
    | inr (n, here) ↦ elim (Bool-cases (has_label n label)) [
      | inl has ↦
          unfold add_node_label add_label has_label in
          rw (here, add_node_label)
            (rw has (
              unchanged (λ m. add_label m label) g id w
                (unfold add_label has_label in ground arith)))
      | inr new ↦ rw (add_node_label-new g id label n here new) (
          (changed (λ m. add_label m label) g id n (index_insert id label g.label_index) here
            (unfold add_label in ground arith)
            (λ l i. ground (
              arith,
              listed-insert id label g.label_index l i,
              has_label-add n label l filled new,
              indexed_at g id n l here w,
            ))
            w))
    ]
  ]

  -- In a well-formed graph `remove_node_label` takes the label from the labels of the node, if
  -- the node exists, and changes no other node and no edge; the graph, and with it the label
  -- index, stays well-formed.
  pub remove_node_label-NodeChanged :
      (g : Graph V) (id : ℕ) (label : String)
      → WellFormed g
      → NodeChanged (λ n. remove_label n label) g id (remove_node_label g id label)
  unfolding get_node
  remove_node_label-NodeChanged g id label w = elim (Option-cases (at none g.nodes id)) [
    | inl e ↦
        unfold remove_node_label in
        rw (e, remove_node_label) (unchanged (λ n. remove_label n label) g id w (rw e))
    | inr (n, here) ↦ elim (Bool-cases (has_label n label)) [
      | inr lacks ↦
          unfold remove_node_label in
          rw (here, remove_node_label)
            (rw lacks (
              unchanged (λ m. remove_label m label) g id w
                (rw here (
                  unfold remove_label has_label in
                  ap (λ ls. some (record n { labels = ls }))
                    (remove-absent label n.labels lacks)))))
      | inl has ↦
          unfold remove_node_label in
          rw (here, remove_node_label)
            (rw has (
              changed (λ m. remove_label m label) g id n (index_remove id label g.label_index) here
                (unfold remove_label in refl)
                (λ l i. ground (
                  arith,
                  listed-remove id label g.label_index l i,
                  has_label-remove n label l,
                  indexed_at g id n l here w,
                ))
                w))
    ]
  ]

  -- In a well-formed graph `set_node_property` sets the property of the node, if the node exists,
  -- and changes no other node and no edge; the graph stays well-formed.
  pub set_node_property-NodeChanged :
      (g : Graph V) (id : ℕ) (key : String) (value : V)
      → WellFormed g
      → NodeChanged (λ n. set_property n key value) g id (set_node_property g id key value)
  unfolding get_node
  set_node_property-NodeChanged g id key value w = elim (Option-cases (at none g.nodes id)) [
    | inl e ↦
        unfold set_node_property in
        rw (e, set_node_property) (unchanged (λ n. set_property n key value) g id w (rw e))
    | inr (n, here) ↦
        unfold set_node_property in
        rw (here, set_node_property)
          (changed (λ m. set_property m key value) g id n g.label_index here
            (unfold set_property in refl)
            (λ l i. unfold set_property has_label in ground (arith, indexed_at g id n l here w)) w)
  ]

  -- Adding the empty label to a node that exists and does not have it writes the label index and
  -- not the node: after it the node is as before and the index lists it under that label.
  pub add_node_label-empty :
      (g : Graph V) (id : ℕ) (n : Node V)
      → get_node g id ≡ some n
      → has_label n "" ≡ false
      → (get_node (add_node_label g id "") id ≡ some n)
        × (Set.contains id (nodes_by_label (add_node_label g id "") "") ≡ true)
  unfolding get_node add_label nodes_by_label
  add_node_label-empty g id n here lacks =
      unfold add_node_label in
      rw (here, add_node_label)
        (rw lacks (
          rw (at-set none g.nodes id id (some n) (some_in g.nodes id n here)) (ground arith),
          rw (listed-insert id "" g.label_index "" id) (ground arith),
        ))
