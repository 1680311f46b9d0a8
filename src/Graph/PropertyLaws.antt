-- ===== src/Graph/PropertyLaws.antt =====
-- graph_backend.rs: what the calls on the properties of nodes and edges, beside
-- `set_node_property`, do to a graph whose invariant holds.
use maharit_db.Base.{
  ℕ, String, none, some, ◌≡◌, ◌∙◌, refl, sym, ap, arith, inl, inr, Bool-cases, Option-cases,
  if◌then◌else◌,
}
use maharit_db.Base.Eq.{◌==◌, nat_eq, string_eq, eq_of_==}
use maharit_db.Base.Map
use maharit_db.Base.Map.{Map, map_option}
use maharit_db.Base.Vec
use maharit_db.Base.Vec.{at, at-set, length-set, some_in}
use maharit_db.Graph.{Graph, Node, Edge, get_node, get_edge, has_label}
use maharit_db.Graph.Labels.{remove_node_property, set_edge_property, remove_edge_property}
use maharit_db.Graph.WellFormed.{WellFormed, keyed}
use maharit_db.Graph.Update.{SlotsFit-replace}
use maharit_db.Graph.Relabel.{NodeChanged, changed, unchanged, indexed_at}

module _ {V : Type 0} where
  abbrev pub unset_node : String → Node V → Node V
  unset_node key n = record n { properties = Map.remove key n.properties }

  abbrev pub set_edge : String → V → Edge V → Edge V
  set_edge key value e = record e { properties = Map.insert key value e.properties }

  abbrev pub unset_edge : String → Edge V → Edge V
  unset_edge key e = record e { properties = Map.remove key e.properties }

  pub remove_node_property-NodeChanged :
      (g : Graph V) (id : ℕ) (key : String)
      → WellFormed g
      → NodeChanged (unset_node key) g id (remove_node_property g id key).1
  unfolding get_node
  remove_node_property-NodeChanged g id key w = elim (Option-cases (at none g.nodes id)) [
    | inl e ↦
        unfold remove_node_property in
        rw (e, remove_node_property) (unchanged (unset_node key) g id w (rw e))
    | inr (n, here) ↦
        unfold remove_node_property in
        rw (here, remove_node_property)
          (changed (unset_node key) g id n g.label_index here refl
            (λ l i. unfold has_label in ground (arith, indexed_at g id n l here w)) w)
  ]

  -- as `NodeChanged`, for the edge of a number
  abbrev pub EdgeChanged : (Edge V → Edge V) → Graph V → ℕ → Graph V → Type 0
  EdgeChanged f g id g' =
      WellFormed g'
      × ((j : ℕ) → get_edge g' j ≡ (if id == j then map_option f (get_edge g j) else get_edge g j))
      × ((n : ℕ) → get_node g' n ≡ get_node g n)

  edge_changed :
      (f : Edge V → Edge V) (g : Graph V) (id : ℕ) (e : Edge V)
      → at none g.edges id ≡ some e
      → ((f e).id ≡ e.id) × ((f e).from ≡ e.from) × ((f e).to ≡ e.to)
      → WellFormed g
      → EdgeChanged f g id (record g { edges = Vec.set g.edges id (some (f e)) })
  unfolding get_node get_edge keyed
  edge_changed f g id e here (same, from, to) w =
      let wrote : (j : ℕ)
          → at none (Vec.set g.edges id (some (f e))) j
            ≡ (if id == j then some (f e) else at none g.edges j) =
        λ j. at-set none g.edges id j (some (f e)) (some_in g.edges id e here) in
      (
        record {
          outgoing_length = w.outgoing_length;
          incoming_length = w.incoming_length;
          nodes_fit = w.nodes_fit;
          edges_fit = record {
            edge_id = λ i x h. elim (Bool-cases (id == i)) [
              | inl p ↦ ground (arith, wrote i, h, w.edges_fit.edge_id id e here, same)
              | inr p ↦ w.edges_fit.edge_id i x (ground (arith, wrote i, h))
            ];
            edge_from = λ i x h. elim (Bool-cases (id == i)) [
              | inl p ↦ ground (arith, wrote i, h, w.edges_fit.edge_from id e here, from)
              | inr p ↦ w.edges_fit.edge_from i x (ground (arith, wrote i, h))
            ];
            edge_to = λ i x h. elim (Bool-cases (id == i)) [
              | inl p ↦ ground (arith, wrote i, h, w.edges_fit.edge_to id e here, to)
              | inr p ↦ w.edges_fit.edge_to i x (ground (arith, wrote i, h))
            ];
          };
          node_slots = w.node_slots;
          edge_slots =
              SlotsFit-replace g.edges g.edge_free_list g.edge_count id e (f e) here w.edge_slots;
          outgoing_exact = λ n i. w.outgoing_exact n i ∙ rekeyed (λ x. x.from) from i (wrote i) n;
          incoming_exact = λ n i. w.incoming_exact n i ∙ rekeyed (λ x. x.to) to i (wrote i) n;
        },
        λ j. ground (arith, wrote j, here),
        λ n. refl,
      )
    where
      rekeyed :
          (end : Edge V → ℕ)
          → end (f e) ≡ end e
          → (i : ℕ)
          → at none (Vec.set g.edges id (some (f e))) i
            ≡ (if id == i then some (f e) else at none g.edges i)
          → (n : ℕ)
          → keyed end (at none g.edges i) n
            ≡ keyed end (at none (Vec.set g.edges id (some (f e))) i) n
      rekeyed end same_end i wrote n = elim (Bool-cases (id == i)) [
        | inl p ↦
            let q = eq_of_== id i p in
            rw (wrote, p) (rw (sym q) (rw here (unfold keyed in ap (λ k. k == n) (sym same_end))))
        | inr p ↦ rw (wrote, p)
      ]

  edge_unchanged :
      (f : Edge V → Edge V) (g : Graph V) (id : ℕ)
      → WellFormed g
      → map_option f (get_edge g id) ≡ get_edge g id
      → EdgeChanged f g id g
  edge_unchanged f g id w same = (w, λ j. ground (arith, same), λ e. refl)

  pub set_edge_property-EdgeChanged :
      (g : Graph V) (id : ℕ) (key : String) (value : V)
      → WellFormed g
      → EdgeChanged (set_edge key value) g id (set_edge_property g id key value)
  unfolding get_edge
  set_edge_property-EdgeChanged g id key value w = elim (Option-cases (at none g.edges id)) [
    | inl e ↦
        unfold set_edge_property in
        rw (e, set_edge_property) (edge_unchanged (set_edge key value) g id w (rw e))
    | inr (x, here) ↦
        unfold set_edge_property in
        rw (here, set_edge_property)
          (edge_changed (set_edge key value) g id x here (refl, refl, refl) w)
  ]

  pub remove_edge_property-EdgeChanged :
      (g : Graph V) (id : ℕ) (key : String)
      → WellFormed g
      → EdgeChanged (unset_edge key) g id (remove_edge_property g id key).1
  unfolding get_edge
  remove_edge_property-EdgeChanged g id key w = elim (Option-cases (at none g.edges id)) [
    | inl e ↦
        unfold remove_edge_property in
        rw (e, remove_edge_property) (edge_unchanged (unset_edge key) g id w (rw e))
    | inr (x, here) ↦
        unfold remove_edge_property in
        rw (here, remove_edge_property)
          (edge_changed (unset_edge key) g id x here (refl, refl, refl) w)
  ]
