-- ===== src/LabelIndex/Calls.antt =====
-- index.rs: what every call that changes the index does to the listings.
use maharit_db.Base.{
  ℕ, String, Bool, true, false, not, ◌&&◌, ◌||◌, Option, none, some, List, ◌≡◌, ◌∙◌, refl, sym, ap,
  arith, inl, inr, Bool-cases, Option-cases, if◌then◌else◌,
}
use maharit_db.Base.Eq.{◌==◌, nat_eq, string_eq, eq_of_==, ==_refl}
use maharit_db.Base.Map
use maharit_db.Base.Map.{Map, lookup-insert, lookup-remove}
use maharit_db.Base.Set
use maharit_db.LabelIndex.{
  LabelIndex, or_empty, insert_at, add_node, add_node_labels, remove_node, remove_node_label,
  update_node_label, add_edge, remove_edge, clear,
}
use maharit_db.LabelIndex.Sets.{
  member, member-insert_at, member-remove_at, insert_at-NoneEmpty, remove_at-NoneEmpty,
}
use maharit_db.LabelIndex.Relation.{
  Agree, is_label, has, Becomes, linked, linked-Becomes, remove_node-Becomes,
}

pub data Call : Type 0 where
  index_node : ℕ → String → Call
  index_labels : ℕ → List String → Call
  drop_node : ℕ → Call
  drop_label : ℕ → String → Call
  relabel : ℕ → String → Call
  index_edge : ℕ → String → Call
  drop_edge : ℕ → Call
  wipe : Call

-- the call's effect; what it returns is dropped
unfoldable pub apply : Call → LabelIndex → LabelIndex
apply (index_node n l) i = add_node i n l
apply (index_labels n ls) i = add_node_labels i n ls
apply (drop_node n) i = remove_node i n
apply (drop_label n l) i = remove_node_label i n l
apply (relabel n l) i = (update_node_label i n l).1
apply (index_edge e l) i = add_edge i e l
apply (drop_edge e) i = remove_edge i e
apply wipe i = clear i

-- The relation between nodes and labels after a call.
abbrev pub nodes_after : Call → (ℕ → String → Bool) → ℕ → String → Bool
nodes_after (index_node n l) r m k = ((n == m) && (not (k == "") && (l == k))) || r m k
nodes_after (index_labels n ls) r m k = ((n == m) && (not (k == "") && Set.contains k ls)) || r m k
nodes_after (drop_node n) r m k = not (n == m) && r m k
nodes_after (drop_label n l) r m k = not ((n == m) && (l == k)) && r m k
nodes_after (relabel n l) r m k = if n == m then not (k == "") && (l == k) else r m k
nodes_after (index_edge e l) r m k = r m k
nodes_after (drop_edge e) r m k = r m k
nodes_after wipe r m k = false

-- The relation between edges and types after a call.
abbrev pub edges_after : Call → (ℕ → String → Bool) → ℕ → String → Bool
edges_after (index_edge e l) r f k = ((e == f) && (not (k == "") && (l == k))) || r f k
edges_after (drop_edge e) r f k = not (e == f) && r f k
edges_after wipe r f k = false
edges_after _ r f k = r f k

-- An edge that is in the index already is added with its own type only.
abbrev pub Addable : Call → LabelIndex → Type 0
Addable (index_edge e l) i = (old : String) → Map.lookup e i.edge_to_label ≡ some old → old ≡ l
Addable _ i = Unit

gone_after : (i : LabelIndex) (n : ℕ) → Map.lookup n (remove_node i n).node_to_labels ≡ none
gone_after i n = elim (Option-cases (Map.lookup n i.node_to_labels)) [
  | inl e ↦ unfold remove_node in rw (e, remove_node) e
  | inr (ls, e) ↦ unfold remove_node in rw (e, remove_node) (rw (lookup-remove, ==_refl n))
]

relabelled :
    (i : LabelIndex) (n : ℕ) (l : String)
    → (l == "") ≡ false
    → (update_node_label i n l).1 ≡ linked (remove_node i n) n l
unfolding update_node_label insert_at
relabelled i n l e = rw e (
    ap
      (λ (s : Option (List String)). record (remove_node i n) {
        node_labels = insert_at l n (remove_node i n).node_labels;
        node_to_labels = Map.insert n (Set.insert l (or_empty s)) (remove_node i n).node_to_labels;
      })
      (sym (gone_after i n)))

relabelled-empty :
    (i : LabelIndex) (n : ℕ) (l : String)
    → (l == "") ≡ true
    → (update_node_label i n l).1 ≡ remove_node i n
unfolding update_node_label
relabelled-empty i n l e = rw e refl

pub update_node_label-Becomes :
    (i : LabelIndex) (n : ℕ) (l : String)
    → Agree i
    → Becomes i
        (update_node_label i n l).1
        (λ m k. if n == m then not (k == "") && (l == k) else has i m k)
update_node_label-Becomes i n l a = elim (Bool-cases (l == "")) [
  | inl p ↦
      let (b, r, edges) = remove_node-Becomes i n a in
      rw (relabelled-empty i n l p)
        (b, λ m k. r m k ∙ (let q = eq_of_== l "" p in ground (arith, eq_of_== l k)), edges)
  | inr p ↦
      let (b, r, edges) = remove_node-Becomes i n a in
      let (c, r', edges') = linked-Becomes (remove_node i n) n l p b in
      rw (relabelled i n l p) (
        c,
        λ m k. r' m k ∙ (let s = r m k in ground (arith, eq_of_== l k)),
        λ k e. edges' k e ∙ edges k e,
      )
]

-- the same for the calls on edges
abbrev pub BecomesEdges : LabelIndex → LabelIndex → (ℕ → String → Bool) → Type 0
BecomesEdges i j r =
    Agree j
    × ((n : ℕ) (l : String) → has j n l ≡ has i n l)
    × ((l : String) (e : ℕ) → member l e j.edge_labels ≡ r e l)

abbrev pub typed_edge : LabelIndex → ℕ → String → LabelIndex
typed_edge i e l = record i {
  edge_labels = insert_at l e i.edge_labels;
  edge_to_label = Map.insert e l i.edge_to_label;
}

typed_edge-Becomes :
    (i : LabelIndex) (e : ℕ) (l : String)
    → (l == "") ≡ false
    → ((old : String) → Map.lookup e i.edge_to_label ≡ some old → old ≡ l)
    → Agree i
    → BecomesEdges i
        (typed_edge i e l)
        (λ f k. ((e == f) && (not (k == "") && (l == k))) || member k f i.edge_labels)
typed_edge-Becomes i e l filled same a = (
  record {
    both = a.both;
    named = a.named;
    nodes_full = a.nodes_full;
    labels_full = a.labels_full;
    typed = λ k f.
        rw (member-insert_at l k e f i.edge_labels, lookup-insert, a.typed k f)
          (elim (Bool-cases (e == f)) [
            | inl p ↦
                let q = eq_of_== e f p in
                rw p (elim (Option-cases (Map.lookup f i.edge_to_label)) [
                  | inl none_ ↦ rw none_ (ground arith)
                  | inr (old, found) ↦
                      let s = same old (ap (λ z. Map.lookup z i.edge_to_label) q ∙ found) in
                      rw (found, s) (ground arith)
                ])
            | inr p ↦ rw p (ground arith)
          ]);
    edges_full = insert_at-NoneEmpty l e i.edge_labels a.edges_full;
  },
  λ n k. refl,
  λ k f. rw (member-insert_at l k e f i.edge_labels) (ground (arith, eq_of_== l k)),
)

pub add_edge-Becomes :
    (i : LabelIndex) (e : ℕ) (l : String)
    → ((old : String) → Map.lookup e i.edge_to_label ≡ some old → old ≡ l)
    → Agree i
    → BecomesEdges i
        (add_edge i e l)
        (λ f k. ((e == f) && (not (k == "") && (l == k))) || member k f i.edge_labels)
add_edge-Becomes i e l same a = elim (Bool-cases (l == "")) [
  | inl p ↦
      unfold add_edge in
      rw p (a, λ n k. refl, λ k f. (let q = eq_of_== l "" p in ground (arith, eq_of_== l k)))
  | inr p ↦ unfold add_edge in rw p (typed_edge-Becomes i e l p same a)
]

pub remove_edge-Becomes :
    (i : LabelIndex) (e : ℕ)
    → Agree i
    → BecomesEdges i (remove_edge i e) (λ f k. not (e == f) && member k f i.edge_labels)
remove_edge-Becomes i e a = elim (Option-cases (Map.lookup e i.edge_to_label)) [
  | inl none_ ↦
      unfold remove_edge in
      rw (none_, remove_edge)
        (
          a,
          λ n k. refl,
          λ k f. elim (Bool-cases (e == f)) [
            | inl p ↦ rw p (typed_at k f p ∙ rw none_ refl)
            | inr p ↦ rw p refl
          ],
        )
  | inr (old, found) ↦
      unfold remove_edge in
      rw (found, remove_edge)
        (
          record {
            both = a.both;
            named = a.named;
            nodes_full = a.nodes_full;
            labels_full = a.labels_full;
            typed = λ k f.
                rw (member-remove_at old k e f i.edge_labels, lookup-remove)
                  (elim (Bool-cases (e == f)) [
                    | inl p ↦
                        let h : member k f i.edge_labels ≡ (old == k) =
                          typed_at k f p ∙ rw found refl in
                        rw (p, h) (ground arith)
                    | inr p ↦ rw p (ground (arith, a.typed k f))
                  ]);
            edges_full = remove_at-NoneEmpty old e i.edge_labels a.edges_full;
          },
          λ n k. refl,
          λ k f. rw (member-remove_at old k e f i.edge_labels) (elim (Bool-cases (e == f)) [
            | inl p ↦
                let h : member k f i.edge_labels ≡ (old == k) = typed_at k f p ∙ rw found refl in
                rw (p, h) (ground arith)
            | inr p ↦ rw p (ground arith)
          ]),
        )
]
  where
    typed_at :
        (k : String) (f : ℕ)
        → (e == f) ≡ true
        → member k f i.edge_labels ≡ is_label k (Map.lookup e i.edge_to_label)
    typed_at k f p =
        a.typed k f ∙ ap (λ z. is_label k (Map.lookup z i.edge_to_label)) (sym (eq_of_== e f p))
