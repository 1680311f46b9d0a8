-- ===== src/Concurrent/Sets.antt =====
-- concurrent_graph.rs: what the writes to a map of sets do to the relation that it holds.
use maharit_db.Base.{
  ℕ, String, Bool, not, ◌&&◌, ◌||◌, List, [], ◌∷◌, ◌≡◌, refl, if◌then◌else◌, arith, inl, inr,
  Bool-cases, Option-cases,
}
use maharit_db.Base.Eq.{HashKey, ◌==◌, nat_eq, string_eq, eq_of_==}
use maharit_db.Base.Map
use maharit_db.Base.Map.{Map, lookup-insert, lookup-remove, map_option}
use maharit_db.Base.Set
use maharit_db.Base.Set.{contains-insert, contains-remove}
use maharit_db.Graph.{sets_of}
use maharit_db.Concurrent.{
  entry_insert, get_remove, entry_default, alter_at, label_index_add, label_index_remove,
}

module _ {K : Type 0} ⦃e : HashKey K⦄ where
  -- is the number in the set of the key?
  unfoldable pub listed : K → ℕ → Map K (List ℕ) → Bool
  listed key id sets = Set.contains id (sets_of (Map.lookup key sets))

  pub listed-entry_insert :
      (key k : K) (id i : ℕ) (sets : Map K (List ℕ))
      → listed k i (entry_insert key id sets) ≡ (((key == k) && (id == i)) || listed k i sets)
  unfolding listed entry_insert
  listed-entry_insert key k id i sets = rw lookup-insert (elim (Bool-cases (key == k)) [
    | inl p ↦ rw (p, contains-insert, eq_of_== key k p)
    | inr p ↦ rw p
  ])

  pub listed-get_remove :
      (key k : K) (id i : ℕ) (sets : Map K (List ℕ))
      → listed k i (get_remove key id sets) ≡ (not ((key == k) && (id == i)) && listed k i sets)
  unfolding listed get_remove
  listed-get_remove key k id i sets = elim (Option-cases (Map.lookup key sets)) [
    | inl miss ↦
        rw (miss, get_remove)
          (elim (Bool-cases (key == k)) [
            | inl p ↦ rw (p, ← eq_of_== key k p, miss) (unfold Set.contains in ground arith)
            | inr p ↦ rw p
          ])
    | inr (set, found) ↦
        rw (found, get_remove, lookup-insert)
          (elim (Bool-cases (key == k)) [
            | inl p ↦ rw (p, contains-remove, ← eq_of_== key k p, found)
            | inr p ↦ rw p
          ])
  ]

  pub listed-entry_default :
      (key k : K) (i : ℕ) (sets : Map K (List ℕ))
      → listed k i (entry_default key sets) ≡ listed k i sets
  unfolding listed entry_default
  listed-entry_default key k i sets = elim (Option-cases (Map.lookup key sets)) [
    | inl miss ↦
        rw (miss, entry_default, lookup-insert)
          (elim (Bool-cases (key == k)) [ inl p ↦ rw (p, ← eq_of_== key k p, miss) | inr p ↦ rw p ])
    | inr (set, found) ↦ rw (found, entry_default)
  ]

  pub listed-remove :
      (key k : K) (i : ℕ) (sets : Map K (List ℕ))
      → listed k i (Map.remove key sets) ≡ (not (key == k) && listed k i sets)
  unfolding listed
  listed-remove key k i sets =
      rw lookup-remove
        (elim (Bool-cases (key == k)) [ inl p ↦ rw p (unfold Set.contains in refl) | inr p ↦ rw p ])

  pub listed-emptied :
      (key k : K) (i : ℕ) (sets : Map K (List ℕ))
      → listed k i (Map.insert key [] sets) ≡ (not (key == k) && listed k i sets)
  unfolding listed
  listed-emptied key k i sets =
      rw lookup-insert
        (elim (Bool-cases (key == k)) [ inl p ↦ rw p (unfold Set.contains in refl) | inr p ↦ rw p ])

  pub lookup-alter_at :
      {A : Type 0} (key k : K) (f : A → A) (m : Map K A)
      → Map.lookup k (alter_at key f m)
        ≡ (if key == k then map_option f (Map.lookup k m) else Map.lookup k m)
  unfolding alter_at
  lookup-alter_at key k f m = elim (Option-cases (Map.lookup key m)) [
    | inl miss ↦
        rw (miss, alter_at)
          (elim (Bool-cases (key == k)) [ inl p ↦ rw (p, ← eq_of_== key k p, miss) | inr p ↦ rw p ])
    | inr (a, found) ↦
        rw (found, alter_at, lookup-insert)
          (elim (Bool-cases (key == k)) [
            | inl p ↦ rw (p, ← eq_of_== key k p, found)
            | inr p ↦ rw p
          ])
  ]

pub listed-label_index_add :
    (id i : ℕ) (labels : List String) (l : String) (index : Map String (List ℕ))
    → listed l i (label_index_add id labels index)
      ≡ (((id == i) && Set.contains l labels) || listed l i index)
unfolding label_index_add Set.contains
listed-label_index_add id i [] l index = ground arith
listed-label_index_add id i (x ∷ labels) l index =
    rw (listed-label_index_add id i labels l (entry_insert x id index), listed-entry_insert)
      (ground arith)

pub listed-label_index_remove :
    (id i : ℕ) (labels : List String) (l : String) (index : Map String (List ℕ))
    → listed l i (label_index_remove id labels index)
      ≡ (not ((id == i) && Set.contains l labels) && listed l i index)
unfolding label_index_remove Set.contains
listed-label_index_remove id i [] l index = ground arith
listed-label_index_remove id i (x ∷ labels) l index =
    rw (listed-label_index_remove id i labels l (get_remove x id index), listed-get_remove)
      (ground arith)
