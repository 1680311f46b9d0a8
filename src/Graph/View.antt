-- ===== src/Graph/View.antt =====
-- graph.rs: what a graph means to its clients: which node has which labels and properties, and
-- which edge joins which nodes. The order of a node's labels, the free lists and the place of an
-- entry in a map are forgotten.
use mathlib.Core.Path.{fun_ext}
use maharit_db.Base.{
  ℕ, String, Bool, false, not, ◌&&◌, ◌||◌, Option, none, some, List, ◌≡◌, if◌then◌else◌,
}
use maharit_db.Base.Eq.{◌==◌, nat_eq, string_eq}
use maharit_db.Base.Map
use maharit_db.Base.Map.{Map, map_option}
use maharit_db.Base.Set
use maharit_db.Graph.{Graph, Node, Edge, get_node, get_edge, is_filled}

pub record NodeView (V : Type 0) : Type 0 where
  pub has : String → Bool
  pub prop : String → Option V

pub record EdgeView (V : Type 0) : Type 0 where
  pub label : String
  pub from : ℕ
  pub to : ℕ
  pub prop : String → Option V

pub record GraphView (V : Type 0) : Type 0 where
  pub node : ℕ → Option (NodeView V)
  pub edge : ℕ → Option (EdgeView V)

module _ {V : Type 0} where
  abbrev pub node_view : Node V → NodeView V
  node_view n = record { has = λ l. Set.contains l n.labels; prop = λ k. Map.lookup k n.properties }

  abbrev pub edge_view : Edge V → EdgeView V
  edge_view e = record {
    label = e.label;
    from = e.from;
    to = e.to;
    prop = λ k. Map.lookup k e.properties;
  }

  abbrev pub see_node : Option (Node V) → Option (NodeView V)
  see_node none = none
  see_node (some n) = some (node_view n)

  abbrev pub see_edge : Option (Edge V) → Option (EdgeView V)
  see_edge none = none
  see_edge (some e) = some (edge_view e)

  unfoldable pub view : Graph V → GraphView V
  unfolding get_node get_edge
  view g = record { node = λ i. see_node (get_node g i); edge = λ i. see_edge (get_edge g i) }

  pub view_ext :
      (v w : GraphView V)
      → ((i : ℕ) → v.node i ≡ w.node i)
      → ((i : ℕ) → v.edge i ≡ w.edge i)
      → v ≡ w
  view_ext v w n e = λ i. record { node = fun_ext n i; edge = fun_ext e i }

  pub node_ext :
      (v w : NodeView V)
      → ((l : String) → v.has l ≡ w.has l)
      → ((k : String) → v.prop k ≡ w.prop k)
      → v ≡ w
  node_ext v w h p = λ i. record { has = fun_ext h i; prop = fun_ext p i }

  -- two edges that differ in how they store their properties
  pub edge_ext :
      (label : String) (from to : ℕ) (p q : String → Option V)
      → ((k : String) → p k ≡ q k)
      → ◌≡◌ {A = EdgeView V}
          (record { label = label; from = from; to = to; prop = p })
          (record { label = label; from = from; to = to; prop = q })
  edge_ext label from to p q h =
      λ i. record { label = label; from = from; to = to; prop = fun_ext h i }

abbrev pub place : {A : Type 0} → ℕ → Option A → (ℕ → Option A) → ℕ → Option A
place id x f j = if id == j then x else f j

abbrev pub alter : {A : Type 0} → ℕ → (A → A) → (ℕ → Option A) → ℕ → Option A
alter id h f j = if id == j then map_option h (f j) else f j

-- The operations on views, which say what the graph's calls promise.
module _ {V : Type 0} where
  abbrev pub touches : ℕ → Option (EdgeView V) → Bool
  touches id none = false
  touches id (some e) = (e.from == id) || (e.to == id)

  abbrev pub detached : ℕ → Option (EdgeView V) → Option (EdgeView V)
  detached id slot = if touches id slot then none else slot

  unfoldable pub drop_node : ℕ → GraphView V → GraphView V
  drop_node id v = record { node = place id none v.node; edge = λ j. detached id (v.edge j) }

  unfoldable pub drop_edge : ℕ → GraphView V → GraphView V
  drop_edge id v = record v { edge = place id none v.edge }

  unfoldable pub alter_node : ℕ → (NodeView V → NodeView V) → GraphView V → GraphView V
  alter_node id h v = record v { node = alter id h v.node }

  unfoldable pub alter_edge : ℕ → (EdgeView V → EdgeView V) → GraphView V → GraphView V
  alter_edge id h v = record v { edge = alter id h v.edge }

  abbrev pub fresh_node : List String → NodeView V
  fresh_node labels = record { has = λ l. Set.contains l labels; prop = λ k. none }

  abbrev pub fresh_edge : ℕ → ℕ → String → EdgeView V
  fresh_edge from to label = record { label = label; from = from; to = to; prop = λ k. none }

  unfoldable pub put_node : ℕ → List String → GraphView V → GraphView V
  put_node id labels v =
      if is_filled (v.node id)
      then v
      else record v { node = place id (some (fresh_node labels)) v.node }

  unfoldable pub put_edge : ℕ → ℕ → ℕ → String → GraphView V → GraphView V
  put_edge id from to label v =
      if is_filled (v.node from) && (is_filled (v.node to) && not (is_filled (v.edge id)))
      then record v { edge = place id (some (fresh_edge from to label)) v.edge }
      else v

  abbrev pub with_prop : String → Option V → (String → Option V) → String → Option V
  with_prop key value f k = if key == k then value else f k

  abbrev pub node_prop : String → Option V → NodeView V → NodeView V
  node_prop key value n = record n { prop = with_prop key value n.prop }

  abbrev pub edge_prop : String → Option V → EdgeView V → EdgeView V
  edge_prop key value e = record e { prop = with_prop key value e.prop }

  abbrev pub node_label : String → Bool → NodeView V → NodeView V
  node_label label b n = record n { has = λ l. if label == l then b else n.has l }
