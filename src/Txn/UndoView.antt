-- ===== src/Txn/UndoView.antt =====
-- transaction.rs: what undoing a record means for the view of a graph, and that
-- `rollback_backend` undoes each record accordingly.
use mathlib.Core.Path.{subst}
use maharit_db.Base.{
  ℕ, ◌+◌, ◌<◌, ◌^◌, String, true, false, ◌&&◌, Option, none, some, List, [], ◌∷◌, ◌≡◌, ◌∙◌, refl,
  sym, ap, arith, inl, inr, if◌then◌else◌,
}
use maharit_db.Base.Eq.{◌==◌, nat_eq, string_eq, ==_refl}
use maharit_db.Base.Map.{Map}
use maharit_db.Graph.{
  Graph, Node, Edge, Outcome, ok, err, node_not_found, edge_not_found, get_node, get_edge,
  is_filled, empty_edge,
}
use maharit_db.Graph.WellFormed.{WellFormed}
use maharit_db.Graph.EdgeCreation.{Created}
use maharit_db.Graph.Restoring.{NodeRestored}
use maharit_db.Graph.EdgeRestoring.{EdgeRestored}
use maharit_db.Graph.Relabel.{set_node_property-NodeChanged}
use maharit_db.Graph.PropertyLaws.{set_edge_property-EdgeChanged}
use maharit_db.Graph.View.{
  GraphView, see_node, see_edge, view, drop_node, drop_edge, alter_node, alter_edge, put_node,
  put_edge, node_prop, edge_prop as with_edge_prop, node_label,
}
use maharit_db.Graph.Refine.{
  view-NodeChanged, view-EdgeChanged, view-set_property, view-set_edge, view-created_node,
  view-created_edge,
}
use maharit_db.Txn.{
  UndoRecord, create_node, delete_node, set_property, create_edge, delete_edge,
  set_edge_property as edge_property, add_label, remove_label,
}
use maharit_db.Txn.Undo.{edge_restored, set_node_properties, set_edge_properties}

module _ {V : Type 0} where
  unfoldable pub node_props : ℕ → Map String V → GraphView V → GraphView V
  node_props id [] v = v
  node_props id ((key, value) ∷ rest) v =
      alter_node id (node_prop key (some value)) (node_props id rest v)

  unfoldable pub edge_props : ℕ → Map String V → GraphView V → GraphView V
  edge_props id [] v = v
  edge_props id ((key, value) ∷ rest) v =
      alter_edge id (with_edge_prop key (some value)) (edge_props id rest v)

  -- an edge comes back if both its ends are there
  unfoldable pub restore_edge : ℕ → ℕ → ℕ → String → Map String V → GraphView V → GraphView V
  restore_edge id from to label properties v =
      if is_filled (v.node from) && is_filled (v.node to)
      then edge_props id properties (put_edge id from to label v)
      else v

  -- What a record says is to be undone.
  unfoldable pub undone_one : UndoRecord V → GraphView V → GraphView V
  undone_one (create_node id) v = drop_node id v
  undone_one (delete_node id labels properties) v = node_props id properties (put_node id labels v)
  undone_one (set_property id key old) v = alter_node id (node_prop key old) v
  undone_one (create_edge id) v = drop_edge id v
  undone_one (delete_edge id from to label properties) v =
      restore_edge id from to label properties v
  undone_one (edge_property id key old) v = alter_edge id (with_edge_prop key old) v
  undone_one (add_label id label) v = alter_node id (node_label label false) v
  undone_one (remove_label id label) v = alter_node id (node_label label true) v

  -- All records of a log, the last one first.
  unfoldable pub undone : List (UndoRecord V) → GraphView V → GraphView V
  undone [] v = v
  undone (r ∷ rs) v = undone_one r (undone rs v)

  -- The label that is to come back is not the empty string, which `add_label` ignores, and the
  -- number of the node is not the last of 64 bits, which `create_node_with_id_and_labels` cannot
  -- make room for.
  abbrev pub Restorable : UndoRecord V → Type 0
  Restorable (delete_node id labels properties) = id + 1 < 2 ^ 64
  Restorable (remove_label id label) = (label == "") ≡ false
  Restorable _ = Unit

  -- The graph is made, well-formed, and has the view.
  abbrev pub Refines : Option (Graph V) → GraphView V → Type 0
  Refines o v = (g : Graph V) × (o ≡ some g) × WellFormed g × (view g ≡ v)

  pub set_node_properties-Refines :
      (g : Graph V) (id : ℕ) (properties : Map String V)
      → WellFormed g
      → WellFormed (set_node_properties g id properties)
        × (view (set_node_properties g id properties) ≡ node_props id properties (view g))
  unfolding set_node_properties node_props
  set_node_properties-Refines g id [] w = (w, refl)
  set_node_properties-Refines g id ((key, value) ∷ rest) w =
      let (w', e) = set_node_properties-Refines g id rest w in
      let c = set_node_property-NodeChanged (set_node_properties g id rest) id key value w' in
      (
        c.0,
        view-NodeChanged _ (node_prop key (some value)) _ id _ (view-set_property key value) c
            ∙ ap (alter_node id (node_prop key (some value))) e,
      )

  set_edge_properties-Refines :
      (g : Graph V) (id : ℕ) (properties : Map String V)
      → WellFormed g
      → WellFormed (set_edge_properties g id properties)
        × (view (set_edge_properties g id properties) ≡ edge_props id properties (view g))
  unfolding set_edge_properties edge_props
  set_edge_properties-Refines g id [] w = (w, refl)
  set_edge_properties-Refines g id ((key, value) ∷ rest) w =
      let (w', e) = set_edge_properties-Refines g id rest w in
      let c = set_edge_property-EdgeChanged (set_edge_properties g id rest) id key value w' in
      (
        c.0,
        view-EdgeChanged _ (with_edge_prop key (some value)) _ id _ (view-set_edge key value) c
            ∙ ap (alter_edge id (with_edge_prop key (some value))) e,
      )

  filled_node : (o : Option (Node V)) → is_filled (see_node o) ≡ is_filled o
  filled_node none = refl
  filled_node (some n) = refl

  filled_edge : (o : Option (Edge V)) → is_filled (see_edge o) ≡ is_filled o
  filled_edge none = refl
  filled_edge (some e) = refl

  pub node_back :
      (g : Graph V) (id : ℕ) (labels : List String) (g' : Graph V)
      → WellFormed g
      → NodeRestored g labels id g'
      → WellFormed g' × (view g' ≡ put_node id labels (view g))
  unfolding put_node view
  node_back g id labels g' w (inl (same, there)) =
      (subst WellFormed (sym same) w, rw (filled_node (get_node g id), there) (ap view same))
  node_back g id labels g' w (inr (w', empty, nodes, edges)) =
      (w', rw empty (view-created_node g id labels g' nodes edges))

  pub node_there : (g : Graph V) (n : ℕ) → is_filled ((view g).node n) ≡ is_filled (get_node g n)
  unfolding view
  node_there g n = filled_node (get_node g n)

  pub edge_there : (g : Graph V) (n : ℕ) → is_filled ((view g).edge n) ≡ is_filled (get_edge g n)
  unfolding view
  edge_there g n = filled_edge (get_edge g n)

  pub put_edge-kept :
      (g : Graph V) (id from to : ℕ) (label : String)
      → is_filled (get_edge g id) ≡ true
      → put_edge id from to label (view g) ≡ view g
  unfolding put_edge
  put_edge-kept g id from to label e = rw (edge_there g id, e) (ground arith)

  pub ends_there :
      (g : Graph V) (id from to : ℕ) (label : String) (g' : Graph V)
      → Created g from to label (ok id) g'
      → (is_filled (get_node g from) ≡ true) × (is_filled (get_node g to) ≡ true)
  unfolding get_node get_edge
  ends_there g id from to label g' (w', empty, edges, nodes) =
      let here : get_edge g' id ≡ some (empty_edge id from to label) =
        edges id ∙ (let s = ==_refl id in ground arith) in
      (
        ap is_filled (sym (nodes from))
            ∙ w'.edges_fit.edge_from id (empty_edge id from to label) here,
        ap is_filled (sym (nodes to)) ∙ w'.edges_fit.edge_to id (empty_edge id from to label) here,
      )

  pub put_edge-made :
      (g : Graph V) (id from to : ℕ) (label : String) (g' : Graph V)
      → Created g from to label (ok id) g'
      → put_edge id from to label (view g) ≡ view g'
  unfolding put_edge
  put_edge-made g id from to label g' c =
      let (f, t) = ends_there g id from to label g' c in
      let (w', empty, edges, nodes) = c in
      rw (node_there g from, node_there g to, edge_there g id, f, t, empty)
        (sym (view-created_edge g id from to label g' edges nodes))

  pub edge_back :
      (g : Graph V) (id from to : ℕ) (label : String) (properties : Map String V) (r : Outcome ℕ)
      (g' : Graph V)
      → WellFormed g
      → EdgeRestored g id from to label r g'
      → WellFormed (edge_restored id properties r g')
        × (view (edge_restored id properties r g')
            ≡ restore_edge id from to label properties (view g))
  unfolding restore_edge
  edge_back g id from to label properties (ok i) g' w (inl (_, same, e, f, t)) =
      let (w', seen) =
        set_edge_properties-Refines g' id properties (subst WellFormed (sym same) w) in
      (
        w',
        rw (node_there g from, node_there g to, f, t)
            (seen
              ∙ ap (edge_props id properties)
                  (ap view same ∙ sym (put_edge-kept g id from to label e))),
      )
  edge_back g id from to label properties (ok i) g' w (inr (named, c)) =
      let c' : Created g from to label (ok id) g' =
        subst (λ k. Created g from to label (ok k) g') (named i refl) c in
      let (f, t) = ends_there g id from to label g' c' in
      let (w', seen) = set_edge_properties-Refines g' id properties c'.0 in
      (
        w',
        rw (node_there g from, node_there g to, f, t)
            (seen ∙ ap (edge_props id properties) (sym (put_edge-made g id from to label g' c'))),
      )
  edge_back g id from to label properties (err e) g' w (inl (clash, _, _, _, _)) =
      absurd (ground arith)
  edge_back g id from to label properties (err (node_not_found n)) g' w
        (inr (_, (same, missing, inl e))) =
      (
        subst WellFormed (sym same) w,
        (let m : get_node g from ≡ none = subst (λ k. get_node g k ≡ none) e missing in
            rw (node_there g from, m) (ap view same)),
      )
  edge_back g id from to label properties (err (node_not_found n)) g' w
        (inr (_, (same, missing, inr e))) =
      (
        subst WellFormed (sym same) w,
        (let m : get_node g to ≡ none = subst (λ k. get_node g k ≡ none) e missing in
            rw (node_there g to, m) (ap view same ∙ ground arith)),
      )
  edge_back g id from to label properties (err (edge_not_found n)) g' w (inr (_, c)) = absurd c
