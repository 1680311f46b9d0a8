-- ===== src/Mvcc/Chain.antt =====
-- What the operations of mvcc.rs do to a node's chain, read from the newest version to the
-- oldest.
use mathlib.Core.List.{reverse-append, reverse-reverse, reverse-cons, append-nil, map-append}
use maharit_db.Base.{
  ℕ, Bool, not, Option, none, some, List, [], ◌∷◌, ◌++◌, map, reverse, ◌≡◌, refl, ap, if◌then◌else◌,
  find, retain, arith, inl, inr, Bool-cases, Option-cases,
}
use maharit_db.Base.Eq.{◌==◌, nat_eq, eq_of_==}
use maharit_db.Base.Map
use maharit_db.Base.Map.{lookup-insert, lookup-map_values}
use maharit_db.Mvcc.{
  MvccManager, NodeVersion, VersionedNode, MvccSnapshot, is_visible, map_data, read_node,
  write_node, delete_node, rollback, mark_deleted, deleted, undelete, rolled_back, pushed,
}

module _ {ℓ} {A : Type ℓ} (p : A → Bool) where
  retain-append : (xs ys : List A) → retain p (xs ++ ys) ≡ retain p xs ++ retain p ys
  retain-append [] ys = refl
  retain-append (x ∷ xs) ys = elim (Bool-cases (p x)) [
    | inl e ↦ rw e (ap (◌∷◌ x) (retain-append xs ys))
    | inr e ↦ rw e (retain-append xs ys)
  ]

  retain-reverse : (xs : List A) → retain p (reverse xs) ≡ reverse (retain p xs)
  retain-reverse [] = refl
  retain-reverse (x ∷ xs) =
      rw (reverse-cons, retain-append, retain-reverse xs)
        (elim (Bool-cases (p x)) [
          | inl e ↦ rw (e, reverse-cons) refl
          | inr e ↦ rw (e, append-nil) refl
        ])

module _ {ℓ} {A : Type ℓ} (f : A → A) where
  map-reverse : (xs : List A) → map f (reverse xs) ≡ reverse (map f xs)
  map-reverse [] = refl
  map-reverse (x ∷ xs) = rw (reverse-cons, map-append, map-reverse xs, reverse-cons) refl

module _ {D : Type 0} where
  abbrev pub versions_of : Option (VersionedNode D) → List (NodeVersion D)
  versions_of none = []
  versions_of (some vn) = reverse vn.versions

  unfoldable pub newest_first : ℕ → MvccManager D → List (NodeVersion D)
  newest_first n m = versions_of (Map.lookup n m.versioned_nodes)

  pub read-newest_first :
      (m : MvccManager D) (n : ℕ) (s : MvccSnapshot)
      → read_node m n s ≡ map_data (find (is_visible s) (newest_first n m))
  unfolding read_node newest_first
  read-newest_first m n s = ground arith

  -- the version that `write_node` stamps
  abbrev pub fresh : ℕ → ℕ → D → NodeVersion D
  fresh ts t d = record {
    txn_id = t;
    created_at = ts;
    deleted_at = none;
    deleter_txn = none;
    node_data = d;
  }

  versions-pushed :
      (n : ℕ) (v : NodeVersion D) (o : Option (VersionedNode D))
      → versions_of (some (pushed n v o)) ≡ v ∷ versions_of o
  unfolding pushed
  versions-pushed n v none = refl
  versions-pushed n v (some vn) = reverse-append vn.versions (v ∷ [])

  pub newest_first-write :
      (m : MvccManager D) (n j t : ℕ) (d : D)
      → newest_first j (write_node m n d t)
        ≡ (if n == j then fresh m.clock t d ∷ newest_first j m else newest_first j m)
  unfolding newest_first write_node
  newest_first-write m n j t d = elim (Bool-cases (n == j)) [
    | inl e ↦
        rw (lookup-insert, e, ← eq_of_== n j e)
          (versions-pushed n (fresh m.clock t d) (Map.lookup n m.versioned_nodes))
    | inr e ↦ rw (lookup-insert, e) refl
  ]

  versions-deleted :
      (ts t : ℕ) (vn : VersionedNode D)
      → versions_of (some (deleted ts t vn)) ≡ mark_deleted ts t (versions_of (some vn))
  unfolding deleted
  versions-deleted ts t vn = reverse-reverse (mark_deleted ts t (reverse vn.versions))

  pub newest_first-delete :
      (m : MvccManager D) (n j t : ℕ)
      → newest_first j (delete_node m n t)
        ≡ (if n == j then mark_deleted m.clock t (newest_first j m) else newest_first j m)
  unfolding newest_first delete_node
  newest_first-delete m n j t = elim (Option-cases (Map.lookup n m.versioned_nodes)) [
    | inl miss ↦
        rw (miss, delete_node)
          (elim (Bool-cases (n == j)) [
            | inl e ↦ rw (e, ← eq_of_== n j e, miss) (unfold mark_deleted in refl)
            | inr e ↦ rw e refl
          ])
    | inr (vn, hit) ↦
        rw (hit, delete_node)
          (elim (Bool-cases (n == j)) [
            | inl e ↦ rw (lookup-insert, e, ← eq_of_== n j e, hit) (versions-deleted m.clock t vn)
            | inr e ↦ rw (lookup-insert, e) refl
          ])
  ]

  -- the versions that a rollback of `t` leaves
  unfoldable pub survivors : ℕ → List (NodeVersion D) → List (NodeVersion D)
  survivors t vs = retain (λ v. not (v.txn_id == t)) (map (undelete t) vs)

  versions-rolled_back :
      (t : ℕ) (o : Option (VersionedNode D))
      → versions_of (Map.map_option (rolled_back t) o) ≡ survivors t (versions_of o)
  unfolding rolled_back survivors
  versions-rolled_back t none = refl
  versions-rolled_back t (some vn) = rw (map-reverse, retain-reverse) refl

  pub newest_first-rollback :
      (m : MvccManager D) (j t : ℕ) → newest_first j (rollback m t) ≡ survivors t (newest_first j m)
  unfolding newest_first rollback
  newest_first-rollback m j t =
      rw lookup-map_values (versions-rolled_back t (Map.lookup j m.versioned_nodes))
