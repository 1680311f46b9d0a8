-- ===== src/Mvcc/Gc/Collect.antt =====
-- What `gc` of mvcc.rs keeps.
use mathlib.Core.List.{reverse-reverse}
use maharit_db.Base.{
  ℕ, ◌-◌, ◌<◌, List, [], ◌∷◌, reverse, ◌≡◌, refl, sym, ◌∙◌, ap, find, arith, inl, inr, Bool-cases,
  All, All_mono, All_mono,
}
use maharit_db.Base.Eq.{nat_eq}
use maharit_db.Mvcc.{MvccManager, NodeVersion, MvccSnapshot, u64_mod, is_visible, map_data}
use maharit_db.Mvcc.Chain.{newest_first}
use maharit_db.Mvcc.Gc.{sort_by_stamp, is_live, keep, kept, watermark, gc}
use maharit_db.Mvcc.Invariant.{Fits, IsValid}
use maharit_db.Mvcc.Marks.{Fits-mono}
use maharit_db.Mvcc.Seen.{now, read_now, read_now-seen}
use maharit_db.Mvcc.Gc.Chains.{
  IsAscending, sort-IsAscending, last, find-reverse, last-kept, is_visible-live, All-reverse,
  IsAscending-reverse, gc_chain, newest_first-gc,
}

module _ {D : Type 0} where
  last-live :
      (clock next : ℕ) (vs : List (NodeVersion D))
      → All (Fits clock next) vs
      → last (is_visible (record { snapshot_id = clock; active_txns = [] })) vs ≡ last is_live vs
  unfolding last
  last-live clock next [] h = refl
  last-live clock next (v ∷ vs) h =
      ground (arith, last-live clock next vs h.1, is_visible-live clock next v h.0)

  pub All-kept :
      (P : NodeVersion D → Type 0) (wm : ℕ) (vs : List (NodeVersion D))
      → All P vs
      → All P (kept wm vs)
  unfolding kept
  All-kept P wm [] h = tt
  All-kept P wm (v ∷ vs) h = elim (Bool-cases (keep wm v vs)) [
    | inl e ↦ rw e (h.0, All-kept P wm vs h.1)
    | inr e ↦ rw e (All-kept P wm vs h.1)
  ]

  pub IsAscending-kept :
      (wm : ℕ) (vs : List (NodeVersion D)) → IsAscending vs → IsAscending (kept wm vs)
  unfolding kept
  IsAscending-kept wm [] h = tt
  IsAscending-kept wm (v ∷ vs) h = elim (Bool-cases (keep wm v vs)) [
    | inl e ↦
        rw e (All-kept (λ w. v.created_at < w.created_at) wm vs h.0, IsAscending-kept wm vs h.1)
    | inr e ↦ rw e (IsAscending-kept wm vs h.1)
  ]

  -- the newest live version survives
  seen-kept :
      (clock next : ℕ) (vs : List (NodeVersion D))
      → clock < u64_mod
      → IsAscending vs
      → All (Fits clock next) vs
      → last
          (is_visible (record { snapshot_id = clock; active_txns = [] }))
          (kept (u64_mod - 1) (sort_by_stamp vs))
        ≡ last (is_visible (record { snapshot_id = clock; active_txns = [] })) vs
  seen-kept clock next vs room up h =
      let late =
        All_mono (Fits clock next) (Fits (u64_mod - 1) next)
          (Fits-mono clock next (u64_mod - 1) next (omega arith) (omega arith)) vs h in
      rw
        (
          sort-IsAscending vs up,
          last-live clock next vs h,
          last-live clock next (kept (u64_mod - 1) vs)
              (All-kept (Fits clock next) (u64_mod - 1) vs h),
        )
        (last-kept (u64_mod - 1) next vs late)

  watermark-idle : (m : MvccManager D) → m.active_transactions ≡ [] → watermark m ≡ u64_mod - 1
  unfolding watermark
  watermark-idle m e = rw (e, watermark)

  -- the snapshot that is taken with no transaction running
  abbrev idle : MvccManager D → MvccSnapshot
  idle m = record { snapshot_id = m.clock; active_txns = [] }

  now-gc : (m : MvccManager D) → now (gc m).0 ≡ now m
  unfolding gc
  now-gc m = refl

  -- With no transaction running in a valid manager, a collection changes nothing that a new
  -- snapshot reads.
  pub read_now-gc :
      (m : MvccManager D) (n : ℕ)
      → IsValid m
      → m.active_transactions ≡ []
      → read_now (gc m).0 n ≡ read_now m n
  unfolding gc_chain
  read_now-gc m n v e =
      let stored = reverse (newest_first n m) in
      let back = reverse-reverse (newest_first n m) in
      let up = IsAscending-reverse stored (rw back (v.descending n)) in
      let fits = All-reverse (Fits m.clock m.next_txn_id) stored (rw back (v.fits n)) in
      rw (read_now-seen, now-gc, newest_first-gc, read_now-seen, watermark-idle m e, find-reverse)
        (ap map_data (
          simp e (
            seen-kept m.clock m.next_txn_id stored v.clock_fits up fits
            ∙ sym (find-reverse (is_visible (idle m)) stored)
            ∙ ap (find (is_visible (idle m))) back)))
