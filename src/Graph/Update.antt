-- ===== src/Graph/Update.antt =====
-- graph.rs: what a change of a node in its slot does to the invariant.
use maharit_db.Base.{
  ℕ, String, Option, none, some, List, ◌≡◌, ◌∙◌, sym, arith, inl, inr, Bool-cases, if◌then◌else◌,
}
use maharit_db.Base.Eq.{◌==◌, nat_eq, string_eq, eq_of_==}
use maharit_db.Base.Map.{Map}
use maharit_db.Base.Vec
use maharit_db.Base.Vec.{at, at-set, length-set, some_in, count_some-replace}
use maharit_db.Graph.{Graph, Node, has_label}
use maharit_db.Graph.WellFormed.{WellFormed, SlotsFit, labelled}
use maharit_db.Graph.Index.{listed}
use maharit_db.Graph.NodeLaws.{EdgesFit-nodes}

pub SlotsFit-replace :
    {A : Type 0} (slots : List (Option A)) (free : List ℕ) (count i : ℕ) (a b : A)
    → at none slots i ≡ some a
    → SlotsFit slots free count
    → SlotsFit (Vec.set slots i (some b)) free count
SlotsFit-replace slots free count i a b here fit =
    let inside = some_in slots i a here in
    record {
      free_empty = λ j c.
          let (inside_j, empty) = fit.free_empty j c in
          rw (length-set slots i (some b), at-set none slots i j (some b) inside)
            (
              inside_j,
              elim (Bool-cases (i == j)) [
                | inl p ↦ absurd (ground (arith, eq_of_== i j p, here, empty))
                | inr p ↦ rw p empty
              ],
            );
      free_distinct = fit.free_distinct;
      counted = fit.counted ∙ sym (count_some-replace slots i a b here);
    }

module _ {V : Type 0} where
  abbrev pub updated : Graph V → ℕ → Node V → Map String (List ℕ) → Graph V
  updated g id n index = record g { nodes = Vec.set g.nodes id (some n); label_index = index }

  -- A node is replaced by one of the same number, and the index follows its labels.
  pub updated-WellFormed :
      (g : Graph V) (id : ℕ) (n n' : Node V) (index : Map String (List ℕ))
      → at none g.nodes id ≡ some n
      → n'.id ≡ n.id
      → ((l : String) (i : ℕ)
          → listed index l i ≡ (if id == i then has_label n' l else listed g.label_index l i))
      → WellFormed g
      → WellFormed (updated g id n' index)
  unfolding labelled
  updated-WellFormed g id n n' index here same follows w =
      let wrote : (j : ℕ)
          → at none (Vec.set g.nodes id (some n')) j
            ≡ (if id == j then some n' else at none g.nodes j) =
        λ j. at-set none g.nodes id j (some n') (some_in g.nodes id n here) in
      record {
        outgoing_length = w.outgoing_length ∙ sym (length-set g.nodes id (some n'));
        incoming_length = w.incoming_length ∙ sym (length-set g.nodes id (some n'));
        nodes_fit = record {
          node_id = λ i m h. elim (Bool-cases (id == i)) [
            | inl p ↦ ground (arith, wrote i, h, w.nodes_fit.node_id id n here, same)
            | inr p ↦ w.nodes_fit.node_id i m (ground (arith, wrote i, h))
          ];
          indexed = λ l i.
              rw (follows l i, wrote i)
                (elim (Bool-cases (id == i)) [
                  | inl p ↦ rw p
                  | inr p ↦ rw p (w.nodes_fit.indexed l i)
                ]);
        };
        edges_fit =
            EdgesFit-nodes g.nodes (Vec.set g.nodes id (some n')) g.edges
              (λ f h. rw (wrote f) (ground arith)) w.edges_fit;
        node_slots =
            SlotsFit-replace g.nodes g.node_free_list g.node_count id n n' here w.node_slots;
        edge_slots = w.edge_slots;
        outgoing_exact = w.outgoing_exact;
        incoming_exact = w.incoming_exact;
      }
