-- ===== src/Graph/DropLoops.antt =====
-- graph.rs: a loop of `delete_node` over the edges at a node, begun on a graph whose invariant
-- holds.
use maharit_db.Base.{
  ℕ, ◌<◌, true, Option, none, some, List, [], ◌≡◌, ◌∙◌, sym, refl, length, arith, inl, inr,
  Bool-cases, if◌then◌else◌,
}
use maharit_db.Base.Eq.{◌==◌, nat_eq, string_eq, eq_of_==, ==_refl}
use maharit_db.Base.Set
use maharit_db.Base.Vec
use maharit_db.Base.Vec.{at, at-set, length-set, write_in}
use maharit_db.Graph.{Node, Edge}
use maharit_db.Graph.Deletion.{Parts, drop_edges}
use maharit_db.Graph.WellFormed.{SlotsFit, EdgesFit, Exact, keyed}
use maharit_db.Graph.Drops.{Dropping, Dropping-all}

module _ {V : Type 0} where
  -- the slot, emptied if it holds an edge whose end is the node
  abbrev pub unless_keyed : (Edge V → ℕ) → ℕ → Option (Edge V) → Option (Edge V)
  unless_keyed end id slot = if keyed end slot id then none else slot

module _ {V : Type 0} (near far : Edge V → ℕ) (nodes : List (Option (Node V))) (id : ℕ) where
  keyed-some :
      (slot : Option (Edge V)) (e : Edge V) → slot ≡ some e → keyed near slot id ≡ (near e == id)
  unfolding keyed
  keyed-some slot e h = rw (h, keyed)

  keyed-cases :
      (slot : Option (Edge V)) (n : ℕ)
      → keyed near slot n ≡ true
      → (e : Edge V) × (slot ≡ some e) × (near e ≡ n)
  unfolding keyed
  keyed-cases (some e) n h = (e, refl, eq_of_== (near e) n h)
  keyed-cases none n h = cc

  begin-Dropping :
      (edges : List (Option (Edge V))) (near_sets far_sets : List (List ℕ)) (free : List ℕ)
      (count : ℕ)
      → EdgesFit nodes edges
      → SlotsFit edges free count
      → Exact near edges near_sets
      → Exact far edges far_sets
      → length far_sets ≡ length nodes
      → Dropping near far nodes id
          (at [] near_sets id)
          (record { edges = edges; sets = far_sets; free = free; count = count })
  begin-Dropping edges near_sets far_sets free count fit slots exact far_exact len = record {
    edges_fit = fit;
    slots = slots;
    far_exact = far_exact;
    sets_length = len;
    sound = λ i e c h.
        eq_of_== (near e) id (sym (keyed-some (at none edges i) e h) ∙ sym (exact id i) ∙ c);
    complete = λ i e h same. exact id i ∙ keyed-some (at none edges i) e h ∙ rw same (==_refl id);
  }

  -- no edge has the node at its near end, and the node's own set is cleared
  near-Exact :
      (edges : List (Option (Edge V))) (near_sets : List (List ℕ)) (p : Parts V)
      → id < length near_sets
      → Exact near edges near_sets
      → ((j : ℕ) → at none p.edges j ≡ unless_keyed near id (at none edges j))
      → Exact near p.edges (Vec.set near_sets id [])
  unfolding keyed Set.contains
  near-Exact edges near_sets p room exact same n i =
      rw (at-set [] near_sets id n [] room, same i)
        (elim (Bool-cases (keyed near (at none edges i) id)) [
          | inl k ↦
              let (e, here, end) = keyed-cases (at none edges i) id k in
              rw k (ground (arith, exact n i, here, end))
          | inr k ↦ rw k (ground (arith, exact n i, k))
        ])

  -- What the loop leaves, and the cleared set with it.
  pub record Looped (edges : List (Option (Edge V))) (near_sets : List (List ℕ)) (p : Parts V)
      : Type 0 where
    pub edges_fit : EdgesFit nodes p.edges
    pub slots : SlotsFit p.edges p.free p.count
    pub near_exact : Exact near p.edges (Vec.set near_sets id [])
    pub far_exact : Exact far p.edges p.sets
    pub far_length : length p.sets ≡ length nodes
    pub same : (j : ℕ) → at none p.edges j ≡ unless_keyed near id (at none edges j)

  pub loop :
      (edges : List (Option (Edge V))) (near_sets far_sets : List (List ℕ)) (free : List ℕ)
      (count : ℕ)
      → EdgesFit nodes edges
      → SlotsFit edges free count
      → Exact near edges near_sets
      → Exact far edges far_sets
      → length far_sets ≡ length nodes
      → id < length near_sets
      → (p : Parts V) × (drop_edges far
            (at [] near_sets id)
            (record { edges = edges; sets = far_sets; free = free; count = count })
          ≡ some p)
        × Looped edges near_sets p
  loop edges near_sets far_sets free count fit slots exact far_exact len room =
      let d = begin-Dropping edges near_sets far_sets free count fit slots exact far_exact len in
      let (p, run, d', same) = Dropping-all near far nodes id (at [] near_sets id) _ d in
      let gone : (j : ℕ) → at none p.edges j ≡ unless_keyed near id (at none edges j) =
        λ j. rw (← exact id j) (same j) in
      (
        p,
        run,
        record {
          edges_fit = d'.edges_fit;
          slots = d'.slots;
          near_exact = near-Exact edges near_sets p room exact gone;
          far_exact = d'.far_exact;
          far_length = d'.sets_length;
          same = gone;
        },
      )
