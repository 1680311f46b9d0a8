-- ===== src/Mvcc/Gc/Chains.antt =====
-- What `gc` of mvcc.rs leaves of a chain.
use mathlib.Core.List.{reverse-cons, reverse-reverse}
use maharit_db.Base.{
  ℕ, ◌<◌, Bool, true, false, Option, none, some, List, [], ◌∷◌, ◌++◌, reverse, ◌≡◌, refl, ◌⊎◌,
  if◌then◌else◌, find, arith, inl, inr, Bool-cases, Option-cases, All, ltb-false, lt→ltb,
}
use maharit_db.Base.Eq.{nat_eq}
use maharit_db.Base.Map
use maharit_db.Base.Map.{lookup-map_values, lookup-retain_values, map_option, filter_option}
use maharit_db.Base.Set
use maharit_db.Mvcc.{MvccManager, NodeVersion, VersionedNode, is_visible, deletion_hidden}
use maharit_db.Mvcc.Chain.{newest_first, versions_of}
use maharit_db.Mvcc.Gc.{
  sort_by_stamp, is_live, has_newer, keep, kept, watermark, collected, is_nonempty, gc,
}
use maharit_db.Mvcc.Invariant.{DeletionFits, Fits, IsDescending}

module _ {D : Type 0} where
  -- a chain as it is stored, oldest first
  abbrev pub IsAscending : List (NodeVersion D) → Type 0
  IsAscending [] = Unit
  IsAscending (v ∷ vs) = All (λ w. v.created_at < w.created_at) vs × IsAscending vs

  pub sort-IsAscending : (vs : List (NodeVersion D)) → IsAscending vs → sort_by_stamp vs ≡ vs
  unfolding sort_by_stamp
  sort-IsAscending [] h = refl
  sort-IsAscending (v ∷ []) h = refl
  sort-IsAscending (v ∷ w ∷ ws) h = rw (sort-IsAscending (w ∷ ws) h.1) (ground arith)

  -- the newest version that passes a test, read from the oldest
  unfoldable pub last : (NodeVersion D → Bool) → List (NodeVersion D) → Option (NodeVersion D)
  last p [] = none
  last p (v ∷ vs) = elim (last p vs) [ some w ↦ some w | none ↦ if p v then some v else none ]

  find-append :
      (p : NodeVersion D → Bool) (vs : List (NodeVersion D)) (v : NodeVersion D)
      → find p (vs ++ v ∷ [])
        ≡ elim (find p vs) [ some w ↦ some w | none ↦ if p v then some v else none ]
  find-append p [] v = refl
  find-append p (w ∷ ws) v = ground (arith, find-append p ws v)

  pub find-reverse :
      (p : NodeVersion D → Bool) (vs : List (NodeVersion D)) → find p (reverse vs) ≡ last p vs
  unfolding last
  find-reverse p [] = refl
  find-reverse p (v ∷ vs) = rw (reverse-cons, find-append) (ground (arith, find-reverse p vs))

  is_some : Option (NodeVersion D) → Bool
  is_some none = false
  is_some (some v) = true

  has_newer-last :
      (wm next : ℕ) (vs : List (NodeVersion D))
      → All (Fits wm next) vs
      → has_newer wm vs ≡ is_some (last is_live vs)
  unfolding has_newer is_some last
  has_newer-last wm next [] h = refl
  has_newer-last wm next (v ∷ vs) h =
      rw (lt→ltb v.created_at wm h.0.created, has_newer-last wm next vs h.1)
        (elim (Option-cases (last is_live vs)) [ inl e ↦ ground arith | inr (w, e) ↦ ground arith ])

  -- what is dropped is deleted, or has a newer live version
  dropped :
      (wm next : ℕ) (v : NodeVersion D) (vs : List (NodeVersion D))
      → All (Fits wm next) vs
      → keep wm v vs ≡ false
      → (is_live v ≡ false) ⊎ (is_some (last is_live vs) ≡ true)
  unfolding keep
  dropped wm next v vs h e =
      let newer = has_newer-last wm next vs h in
      elim (Option-cases v.deleted_at) [
        | inl live ↦ inr (ground arith)
        | inr (d, gone) ↦ inl (ground arith)
      ]

  pub last-kept :
      (wm next : ℕ) (vs : List (NodeVersion D))
      → All (Fits wm next) vs
      → last is_live (kept wm vs) ≡ last is_live vs
  unfolding kept last is_some
  last-kept wm next [] h = refl
  last-kept wm next (v ∷ vs) h =
      let ih = last-kept wm next vs h.1 in
      elim (Bool-cases (keep wm v vs)) [
        | inl e ↦ rw e (ground (arith, ih))
        | inr e ↦
            rw (e, ih)
              (elim (dropped wm next v vs h.1 e) [
                | inl dead ↦ ground arith
                | inr newer ↦ ground arith
              ])
      ]

  -- with no transaction running, a new snapshot sees the live versions
  pub is_visible-live :
      (clock next : ℕ) (v : NodeVersion D)
      → Fits clock next v
      → is_visible (record { snapshot_id = clock; active_txns = [] }) v ≡ is_live v
  unfolding is_visible is_live Set.contains
  is_visible-live clock next v h =
      rw (ltb-false clock v.created_at (omega (arith, h.created)))
        (hidden v.deleted_at v.deleter_txn h.deletion)
    where
      hidden :
          (o p : Option ℕ)
          → DeletionFits clock next o p
          → deletion_hidden (record { snapshot_id = clock; active_txns = [] }) o p
            ≡ (elim o [ none ↦ true | some _ ↦ false ])
      hidden none p f = refl
      hidden (some d) none f = absurd f
      hidden (some d) (some t) f = ltb-false clock d (omega arith)

  All-append :
      (P : NodeVersion D → Type 0) (xs ys : List (NodeVersion D))
      → All P (xs ++ ys)
      → All P xs × All P ys
  All-append P [] ys h = (tt, h)
  All-append P (x ∷ xs) ys h = let (a, b) = All-append P xs ys h.1 in ((h.0, a), b)

  pub All-reverse :
      (P : NodeVersion D → Type 0) (xs : List (NodeVersion D)) → All P (reverse xs) → All P xs
  All-reverse P [] h = tt
  All-reverse P (x ∷ xs) h =
      let (a, b) = All-append P (reverse xs) (x ∷ []) (rw reverse-cons at h) in
      (b.0, All-reverse P xs a)

  IsDescending-last :
      (xs : List (NodeVersion D)) (v : NodeVersion D)
      → IsDescending (xs ++ v ∷ [])
      → IsDescending xs × All (λ w. v.created_at < w.created_at) xs
  IsDescending-last [] v h = (tt, tt)
  IsDescending-last (x ∷ xs) v h =
      let (a, b) = All-append (λ w. w.created_at < x.created_at) xs (v ∷ []) h.0 in
      let (c, d) = IsDescending-last xs v h.1 in ((a, c), (b.0, d))

  pub IsAscending-reverse : (vs : List (NodeVersion D)) → IsDescending (reverse vs) → IsAscending vs
  IsAscending-reverse [] h = tt
  IsAscending-reverse (v ∷ vs) h =
      let (a, b) = IsDescending-last (reverse vs) v (rw reverse-cons at h) in
      (All-reverse (λ w. v.created_at < w.created_at) vs b, IsAscending-reverse vs a)

  -- what a collection leaves of a chain, newest first
  unfoldable pub gc_chain : ℕ → List (NodeVersion D) → List (NodeVersion D)
  gc_chain wm vs = reverse (kept wm (sort_by_stamp (reverse vs)))

  versions-retained :
      (vn : VersionedNode D)
      → versions_of (filter_option is_nonempty (some vn)) ≡ reverse vn.versions
  unfolding is_nonempty
  versions-retained vn = ground arith

  versions-collected :
      (wm : ℕ) (o : Option (VersionedNode D))
      → versions_of (filter_option is_nonempty (map_option (collected wm) o))
        ≡ gc_chain wm (versions_of o)
  unfolding gc_chain collected
  versions-collected wm none = refl
  versions-collected wm (some vn) = rw (reverse-reverse, versions-retained (collected wm vn))

  pub newest_first-gc :
      (m : MvccManager D) (n : ℕ)
      → newest_first n (gc m).0 ≡ gc_chain (watermark m) (newest_first n m)
  unfolding newest_first gc
  newest_first-gc m n =
      rw (lookup-retain_values, lookup-map_values)
        (versions-collected (watermark m) (Map.lookup n m.versioned_nodes))
