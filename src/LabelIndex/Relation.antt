-- ===== src/LabelIndex/Relation.antt =====
-- index.rs: the maps from labels and the maps back say the same, and what the calls on nodes do
-- to the relation between nodes and labels.
use maharit_db.Base.{
  ℕ, String, Bool, true, false, not, ◌&&◌, ◌||◌, Option, none, some, List, [], ◌∷◌, ◌≡◌, ◌∙◌, refl,
  sym, ap, arith, inl, inr, Bool-cases, Option-cases,
}
use maharit_db.Base.Eq.{◌==◌, nat_eq, string_eq, eq_of_==}
use maharit_db.Base.Map
use maharit_db.Base.Map.{Map, lookup-insert, lookup-remove}
use maharit_db.Base.Set
use maharit_db.LabelIndex.{
  LabelIndex, or_empty, insert_at, remove_at, remove_each, new, add_node_labels, remove_node,
  remove_node_label,
}
use maharit_db.LabelIndex.Sets.{
  member, NoneEmpty, member-insert_at, member-remove_at, remove-NoneEmpty, insert_at-NoneEmpty,
  remove_at-NoneEmpty,
}

abbrev pub is_label : String → Option String → Bool
is_label label none = false
is_label label (some l) = l == label

-- Each pair of maps holds one relation, with no empty set and no empty label of a node.
pub record Agree (i : LabelIndex) : Type 0 where
  pub both : (l : String) (n : ℕ) → member l n i.node_labels ≡ member n l i.node_to_labels
  pub named : (n : ℕ) → member n "" i.node_to_labels ≡ false
  pub nodes_full : NoneEmpty i.node_labels
  pub labels_full : NoneEmpty i.node_to_labels
  pub typed :
      (l : String) (e : ℕ) → member l e i.edge_labels ≡ is_label l (Map.lookup e i.edge_to_label)
  pub edges_full : NoneEmpty i.edge_labels

pub new-Agree : Agree new
unfolding new Map.lookup Set.contains
new-Agree = record {
  both = λ l n. refl;
  named = λ n. refl;
  nodes_full = λ l s h. cc;
  labels_full = λ n s h. cc;
  typed = λ l e. refl;
  edges_full = λ l s h. cc;
}

-- the node has the label
abbrev pub has : LabelIndex → ℕ → String → Bool
has i n l = member l n i.node_labels

-- The index after a call on nodes, and the relation that it holds.
abbrev pub Becomes : LabelIndex → LabelIndex → (ℕ → String → Bool) → Type 0
Becomes i j r =
    Agree j
    × ((n : ℕ) (l : String) → has j n l ≡ r n l)
    × ((l : String) (e : ℕ) → member l e j.edge_labels ≡ member l e i.edge_labels)

abbrev pub linked : LabelIndex → ℕ → String → LabelIndex
linked i n l = record i {
  node_labels = insert_at l n i.node_labels;
  node_to_labels = insert_at n l i.node_to_labels;
}

pub linked-Becomes :
    (i : LabelIndex) (n : ℕ) (l : String)
    → (l == "") ≡ false
    → Agree i
    → Becomes i (linked i n l) (λ m k. ((n == m) && (l == k)) || has i m k)
linked-Becomes i n l filled a = (
  record {
    both = λ k m.
        rw
          (
            member-insert_at l k n m i.node_labels,
            member-insert_at n m l k i.node_to_labels,
            a.both k m,
          )
          (ground arith);
    named = λ m. rw (member-insert_at n m l "" i.node_to_labels, a.named m, filled) (ground arith);
    nodes_full = insert_at-NoneEmpty l n i.node_labels a.nodes_full;
    labels_full = insert_at-NoneEmpty n l i.node_to_labels a.labels_full;
    typed = a.typed;
    edges_full = a.edges_full;
  },
  λ m k. rw (member-insert_at l k n m i.node_labels) (ground arith),
  λ k e. refl,
)

add_node_labels-skip :
    (i : LabelIndex) (n : ℕ) (l : String) (ls : List String)
    → (l == "") ≡ true
    → add_node_labels i n (l ∷ ls) ≡ add_node_labels i n ls
unfolding add_node_labels
add_node_labels-skip i n l ls e = rw e refl

add_node_labels-next :
    (i : LabelIndex) (n : ℕ) (l : String) (ls : List String)
    → (l == "") ≡ false
    → add_node_labels i n (l ∷ ls) ≡ add_node_labels (linked i n l) n ls
unfolding add_node_labels
add_node_labels-next i n l ls e = rw e refl

pub add_node_labels-Becomes :
    (i : LabelIndex) (n : ℕ) (ls : List String)
    → Agree i
    → Becomes i
        (add_node_labels i n ls)
        (λ m k. ((n == m) && (not (k == "") && Set.contains k ls)) || has i m k)
unfolding Set.contains
add_node_labels-Becomes i n [] a = unfold add_node_labels in (a, λ m k. ground arith, λ k e. refl)
add_node_labels-Becomes i n (l ∷ ls) a = elim (Bool-cases (l == "")) [
  | inl p ↦
      let (b, r, edges) = add_node_labels-Becomes i n ls a in
      rw (add_node_labels-skip i n l ls p)
        (b, λ m k. r m k ∙ (let q = eq_of_== l "" p in ground (arith, eq_of_== l k)), edges)
  | inr p ↦
      let (b, r, edges) = linked-Becomes i n l p a in
      let (c, r', edges') = add_node_labels-Becomes (linked i n l) n ls b in
      rw (add_node_labels-next i n l ls p) (
        c,
        λ m k. r' m k ∙ (let s = r m k in ground (arith, eq_of_== l k)),
        λ k e. edges' k e ∙ edges k e,
      )
]

member-remove_each :
    (n : ℕ) (ls : List String) (m : Map String (List ℕ)) (l : String) (k : ℕ)
    → member l k (remove_each n ls m) ≡ (not ((n == k) && Set.contains l ls) && member l k m)
unfolding remove_each Set.contains
member-remove_each n [] m l k = ground arith
member-remove_each n (x ∷ ls) m l k =
    member-remove_each n ls (remove_at x n m) l k ∙ rw (member-remove_at x l n k m) (ground arith)

remove_each-NoneEmpty :
    (n : ℕ) (ls : List String) (m : Map String (List ℕ))
    → NoneEmpty m
    → NoneEmpty (remove_each n ls m)
unfolding remove_each
remove_each-NoneEmpty n [] m a = a
remove_each-NoneEmpty n (x ∷ ls) m a =
    remove_each-NoneEmpty n ls (remove_at x n m) (remove_at-NoneEmpty x n m a)

member-remove :
    (n k : ℕ) (l : String) (m : Map ℕ (List String))
    → member k l (Map.remove n m) ≡ (not (n == k) && member k l m)
member-remove n k l m =
    rw (lookup-remove n k m) (elim (Bool-cases (n == k)) [
      | inl p ↦ rw p (unfold Set.contains in refl)
      | inr p ↦ rw p refl
    ])

-- what a node of the given number had
had :
    (i : LabelIndex) (n k : ℕ) (l : String)
    → Agree i
    → (n == k) ≡ true
    → has i k l ≡ Set.contains l (or_empty (Map.lookup n i.node_to_labels))
had i n k l a p =
    a.both l k
    ∙ ap (λ z. Set.contains l (or_empty (Map.lookup z i.node_to_labels))) (sym (eq_of_== n k p))

pub remove_node-Becomes :
    (i : LabelIndex) (n : ℕ)
    → Agree i
    → Becomes i (remove_node i n) (λ m k. not (n == m) && has i m k)
remove_node-Becomes i n a = elim (Option-cases (Map.lookup n i.node_to_labels)) [
  | inl e ↦
      unfold remove_node in
      rw (e, remove_node)
        (
          a,
          λ m k. elim (Bool-cases (n == m)) [
            | inl p ↦ rw p (had i n m k a p ∙ rw e (unfold Set.contains in refl))
            | inr p ↦ rw p refl
          ],
          λ k x. refl,
        )
  | inr (ls, e) ↦
      unfold remove_node in
      rw (e, remove_node)
        (
          record {
            both = λ l k.
                rw (member-remove_each n ls i.node_labels l k, member-remove n k l i.node_to_labels)
                  (elim (Bool-cases (n == k)) [
                    | inl p ↦
                        let h : has i k l ≡ Set.contains l ls = had i n k l a p ∙ rw e refl in
                        rw (p, h) (ground arith)
                    | inr p ↦ rw p (a.both l k)
                  ]);
            named = λ k. rw (member-remove n k "" i.node_to_labels, a.named k) (ground arith);
            nodes_full = remove_each-NoneEmpty n ls i.node_labels a.nodes_full;
            labels_full = remove-NoneEmpty n i.node_to_labels a.labels_full;
            typed = a.typed;
            edges_full = a.edges_full;
          },
          λ k l. rw (member-remove_each n ls i.node_labels l k) (elim (Bool-cases (n == k)) [
            | inl p ↦
                let h : has i k l ≡ Set.contains l ls = had i n k l a p ∙ rw e refl in
                rw (p, h) (ground arith)
            | inr p ↦ rw p refl
          ]),
          λ k x. refl,
        )
]

pub remove_node_label-Becomes :
    (i : LabelIndex) (n : ℕ) (l : String)
    → Agree i
    → Becomes i (remove_node_label i n l) (λ m k. not ((n == m) && (l == k)) && has i m k)
unfolding remove_node_label
remove_node_label-Becomes i n l a = (
  record {
    both = λ k m.
        rw
          (
            member-remove_at l k n m i.node_labels,
            member-remove_at n m l k i.node_to_labels,
            a.both k m,
          )
          (ground arith);
    named = λ m. rw (member-remove_at n m l "" i.node_to_labels, a.named m) (ground arith);
    nodes_full = remove_at-NoneEmpty l n i.node_labels a.nodes_full;
    labels_full = remove_at-NoneEmpty n l i.node_to_labels a.labels_full;
    typed = a.typed;
    edges_full = a.edges_full;
  },
  λ m k. rw (member-remove_at l k n m i.node_labels) (ground arith),
  λ k e. refl,
)
