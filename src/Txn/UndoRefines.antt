-- ===== src/Txn/UndoRefines.antt =====
-- transaction.rs: `rollback_backend` undoes each record of a log as the record says.
use mathlib.Core.List.{reverse-cons}
use maharit_db.Base.{
  true, false, none, some, List, [], ◌∷◌, ◌++◌, reverse, ◌≡◌, ◌∙◌, refl, ap, inl, inr, All,
  Option-cases,
}
use maharit_db.Base.Eq.{nat_eq, string_eq}
use maharit_db.Graph.{Graph, ◌>>=◌}
use maharit_db.Graph.Labels.{
  set_node_property, remove_node_property, set_edge_property, remove_edge_property, add_node_label,
  remove_node_label,
}
use maharit_db.Graph.WellFormed.{WellFormed}
use maharit_db.Graph.NodeDeletion.{delete_node-WellFormed}
use maharit_db.Graph.EdgeLaws.{delete_edge-WellFormed}
use maharit_db.Graph.Restoring.{create_node_with_id-NodeRestored}
use maharit_db.Graph.EdgeRestoring.{create_edge_with_id-EdgeRestored}
use maharit_db.Graph.Relabel.{
  set_node_property-NodeChanged, add_node_label-NodeChanged, remove_node_label-NodeChanged,
}
use maharit_db.Graph.PropertyLaws.{
  remove_node_property-NodeChanged, set_edge_property-EdgeChanged, remove_edge_property-EdgeChanged,
}
use maharit_db.Graph.View.{GraphView, view, node_prop, edge_prop as with_edge_prop, node_label}
use maharit_db.Graph.Refine.{
  view-NodeChanged, view-EdgeChanged, view-set_property, view-unset_node, view-set_edge,
  view-unset_edge, view-add_label, view-remove_label, view-deleted_node, view-deleted_edge,
}
use maharit_db.Txn.{
  UndoRecord, create_node, delete_node, set_property, create_edge, delete_edge,
  set_edge_property as edge_property, add_label, remove_label,
}
use maharit_db.Txn.Undo.{edge_restored, set_node_properties, undo_one, undo_each}
use maharit_db.Txn.UndoView.{
  Restorable, Refines, node_props, undone_one, undone, set_node_properties-Refines, node_back,
  edge_back,
}

module _ {V : Type 0} where
  -- A record is undone without a panic, the graph stays well-formed, and its view is changed as
  -- the record says.
  undo_one-Refines :
      (r : UndoRecord V) (g : Graph V)
      → Restorable r
      → WellFormed g
      → Refines (undo_one r g) (undone_one r (view g))
  unfolding undo_one undone_one
  undo_one-Refines (create_node id) g ok_ w =
      let (g', run, w', nodes, edges) = delete_node-WellFormed g id w in
      (g', rw run, w', view-deleted_node g id g' nodes edges)
  undo_one-Refines (delete_node id labels properties) g below w =
      let (g', run, made) = create_node_with_id-NodeRestored g id labels below w in
      let (w', e) = node_back g id labels g' w made in
      let (w'', e') = set_node_properties-Refines g' id properties w' in
      (set_node_properties g' id properties, rw run, w'', e' ∙ ap (node_props id properties) e)
  undo_one-Refines (set_property id key (some value)) g ok_ w =
      let c = set_node_property-NodeChanged g id key value w in
      (
        set_node_property g id key value,
        refl,
        c.0,
        view-NodeChanged _ (node_prop key (some value)) g id _ (view-set_property key value) c,
      )
  undo_one-Refines (set_property id key none) g ok_ w =
      let c = remove_node_property-NodeChanged g id key w in
      (
        (remove_node_property g id key).1,
        refl,
        c.0,
        view-NodeChanged _ (node_prop key none) g id _ (view-unset_node key) c,
      )
  undo_one-Refines (create_edge id) g ok_ w =
      let (g', run, w', edges, nodes) = delete_edge-WellFormed g id w in
      (g', rw run, w', view-deleted_edge g id g' edges nodes)
  undo_one-Refines (delete_edge id from to label properties) g ok_ w =
      let (r, g', run, made) = create_edge_with_id-EdgeRestored g id from to label w in
      let (w', e) = edge_back g id from to label properties r g' w made in
      (edge_restored id properties r g', rw run, w', e)
  undo_one-Refines (edge_property id key (some value)) g ok_ w =
      let c = set_edge_property-EdgeChanged g id key value w in
      (
        set_edge_property g id key value,
        refl,
        c.0,
        view-EdgeChanged _ (with_edge_prop key (some value)) g id _ (view-set_edge key value) c,
      )
  undo_one-Refines (edge_property id key none) g ok_ w =
      let c = remove_edge_property-EdgeChanged g id key w in
      (
        (remove_edge_property g id key).1,
        refl,
        c.0,
        view-EdgeChanged _ (with_edge_prop key none) g id _ (view-unset_edge key) c,
      )
  undo_one-Refines (add_label id label) g ok_ w =
      let c = remove_node_label-NodeChanged g id label w in
      (
        remove_node_label g id label,
        refl,
        c.0,
        view-NodeChanged _ (node_label label false) g id _ (view-remove_label label) c,
      )
  undo_one-Refines (remove_label id label) g filled w =
      let c = add_node_label-NodeChanged g id label filled w in
      (
        add_node_label g id label,
        refl,
        c.0,
        view-NodeChanged _ (node_label label true) g id _ (λ n. view-add_label label n filled) c,
      )

  pub undone-append :
      (rs rest : List (UndoRecord V)) (v : GraphView V)
      → undone (rs ++ rest) v ≡ undone rs (undone rest v)
  unfolding undone
  undone-append [] rest v = refl
  undone-append (r ∷ rs) rest v = ap (undone_one r) (undone-append rs rest v)

  undo_each-append :
      (rs rest : List (UndoRecord V)) (g : Graph V)
      → undo_each (rs ++ rest) g ≡ (undo_each rs g >>= undo_each rest)
  unfolding undo_each
  undo_each-append [] rest g = refl
  undo_each-append (r ∷ rs) rest g = elim (Option-cases (undo_one r g)) [
    | inl e ↦ rw e refl
    | inr (g', e) ↦ rw e (undo_each-append rs rest g')
  ]

  -- In a well-formed graph the records of an undo log, from the last to the first, are undone
  -- without a panic, unless one brings back the empty label or a node of the last number of 64
  -- bits; the graph stays well-formed, and what it means to its clients is changed as the records
  -- say.
  pub undo_each-Refines :
      (rs : List (UndoRecord V)) (g : Graph V)
      → All Restorable rs
      → WellFormed g
      → Refines (undo_each (reverse rs) g) (undone rs (view g))
  unfolding undo_each undone
  undo_each-Refines [] g all w = (g, refl, w, refl)
  undo_each-Refines (r ∷ rs) g (ok_, all) w =
      let (g₁, run₁, w₁, e₁) = undo_each-Refines rs g all w in
      let (g₂, run₂, w₂, e₂) = undo_one-Refines r g₁ ok_ w₁ in
      (
        g₂,
        rw (reverse-cons r rs, undo_each-append (reverse rs) (r ∷ []) g, run₁, run₂),
        w₂,
        e₂ ∙ ap (undone_one r) e₁,
      )
