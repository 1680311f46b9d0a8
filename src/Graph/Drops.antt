-- ===== src/Graph/Drops.antt =====
-- graph.rs: what the loops of `delete_node` over a node's edges do.
use maharit_db.Base.{
  refl, [], lt→ltb, Option-cases, inl, inr, if◌then◌else◌, ℕ, ◌-◌, true, false, Option, none, some,
  List, ◌∷◌, ◌≡◌, ◌∙◌, length, arith,
}
use maharit_db.Base.Eq.{◌==◌, nat_eq, string_eq}
use maharit_db.Base.Set
use maharit_db.Base.Vec
use maharit_db.Base.Vec.{at, at-set, at_beyond, length-set, some_in, write_in}
use maharit_db.Graph.{Node, Edge}
use maharit_db.Graph.Edges.{remove_at}
use maharit_db.Graph.Deletion.{Parts, drop_edges}
use maharit_db.Graph.WellFormed.{SlotsFit, EdgesFit, Exact}
use maharit_db.Graph.Adjacency.{Exact-remove, length-remove_at, SlotsFit-clear, EdgesFit-clear}

module _ {V : Type 0} (near far : Edge V → ℕ) (nodes : List (Option (Node V))) (id : ℕ) where
  -- Between two rounds: the edges of the node that are still there are in the list, and of the
  -- others none.
  pub record Dropping (es : List ℕ) (p : Parts V) : Type 0 where
    pub edges_fit : EdgesFit nodes p.edges
    pub slots : SlotsFit p.edges p.free p.count
    pub far_exact : Exact far p.edges p.sets
    pub sets_length : length p.sets ≡ length nodes
    pub sound :
        (i : ℕ) (e : Edge V) → Set.contains i es ≡ true → at none p.edges i ≡ some e → near e ≡ id
    pub complete :
        (i : ℕ) (e : Edge V) → at none p.edges i ≡ some e → near e ≡ id → Set.contains i es ≡ true

  abbrev dropped : ℕ → Edge V → Parts V → Parts V
  dropped i e p = record {
    edges = Vec.set p.edges i none;
    sets = remove_at p.sets (far e) i;
    free = i ∷ p.free;
    count = p.count - 1;
  }

  Dropping-skip :
      (i : ℕ) (es : List ℕ) (p : Parts V)
      → at none p.edges i ≡ none
      → Dropping (i ∷ es) p
      → Dropping es p
  unfolding Set.contains
  Dropping-skip i es p gone d = record {
    edges_fit = d.edges_fit;
    slots = d.slots;
    far_exact = d.far_exact;
    sets_length = d.sets_length;
    sound = λ j e c h. d.sound j e (ground arith) h;
    complete = λ j e h n. let c = d.complete j e h n in ground arith;
  }

  Dropping-drop :
      (i : ℕ) (es : List ℕ) (p : Parts V) (e : Edge V)
      → at none p.edges i ≡ some e
      → Dropping (i ∷ es) p
      → Dropping es (dropped i e p)
  unfolding Set.contains
  Dropping-drop i es p e here d = record {
    edges_fit = EdgesFit-clear nodes p.edges i e here d.edges_fit;
    slots = (SlotsFit-clear p.edges p.free p.count i e here d.slots).1;
    far_exact = Exact-remove far p.edges p.sets i e here d.far_exact;
    sets_length = length-remove_at p.sets (far e) i ∙ d.sets_length;
    sound = λ j f c h. let k = kept j f h in d.sound j f (ground arith) k.1;
    complete = λ j f h n. let k = kept j f h in let c = d.complete j f k.1 n in ground (arith, k.0);
  }
    where
      kept :
          (j : ℕ) (f : Edge V)
          → at none (Vec.set p.edges i none) j ≡ some f
          → ((i == j) ≡ false) × (at none p.edges j ≡ some f)
      kept j f h = ground (arith, at-set none p.edges i j none (some_in p.edges i e here))

  -- The loop ends, and the edges that are gone are those of the list.
  pub Dropping-all :
      (es : List ℕ) (p : Parts V)
      → Dropping es p
      → (p' : Parts V) × (drop_edges far es p ≡ some p')
        × Dropping [] p'
        × ((j : ℕ) → at none p'.edges j ≡ (if Set.contains j es then none else at none p.edges j))
  unfolding Set.contains
  Dropping-all [] p d = (p, unfold drop_edges in refl, d, λ j. refl)
  Dropping-all (i ∷ es) p d = elim (Option-cases (at none p.edges i)) [
    | inl gone ↦
        let (p', run, d', same) = Dropping-all es p (Dropping-skip i es p gone d) in
        let step : drop_edges far (i ∷ es) p ≡ drop_edges far es p =
          unfold drop_edges in rw (gone, drop_edges) in
        (p', step ∙ run, d', λ j. ground (arith, same j, gone))
    | inr (e, here) ↦
        let (p', run, d', same) = Dropping-all es (dropped i e p) (Dropping-drop i es p e here d) in
        let (pos, _) = SlotsFit-clear p.edges p.free p.count i e here d.slots in
        let step : drop_edges far (i ∷ es) p ≡ drop_edges far es (dropped i e p) =
          unfold drop_edges in rw (here, drop_edges) (rw (lt→ltb 0 p.count pos)) in
        (
          p',
          step ∙ run,
          d',
          λ j. ground (arith, same j, at-set none p.edges i j none (some_in p.edges i e here)),
        )
  ]
