-- ===== src/Mvcc/Sound.antt =====
-- mvcc.rs: the invariant after any calls of the manager, `gc` among them.
use mathlib.Core.List.{reverse-cons, reverse-reverse}
use maharit_db.Base.{
  ℕ, ◌+◌, ◌<◌, true, List, [], ◌∷◌, ◌++◌, reverse, ◌≡◌, refl, arith, inl, inr, Bool-cases, All,
}
use maharit_db.Base.Eq.{◌==◌, nat_eq, eq_of_==}
use maharit_db.Base.Set
use maharit_db.Base.Set.{contains-insert, contains-remove}
use maharit_db.Mvcc.{
  MvccManager, NodeVersion, u64_mod, init, begin_transaction, begin_snapshot, write_node,
  delete_node, commit, rollback,
}
use maharit_db.Mvcc.Chain.{newest_first}
use maharit_db.Mvcc.Gc.{gc, kept, sort_by_stamp, watermark}
use maharit_db.Mvcc.Gc.Chains.{
  IsAscending, sort-IsAscending, All-reverse, IsAscending-reverse, gc_chain, newest_first-gc,
}
use maharit_db.Mvcc.Gc.Collect.{All-kept, IsAscending-kept}
use maharit_db.Mvcc.Invariant.{
  Fits, IsDescending, IsValid, begin, snapshot, write, delete, end_commit, end_rollback,
}
use maharit_db.Mvcc.Steps.{Step-IsValid, step_counter, clock-write, clock-delete, init-IsValid}

within :
    (t u : ℕ) (xs : List ℕ) → Set.contains u (Set.remove t xs) ≡ true → Set.contains u xs ≡ true
within t u xs h = let e = contains-remove t u xs in ground arith

module _ {D : Type 0} where
  -- Valid, and the running transactions have issued numbers.
  pub record IsSound (m : MvccManager D) : Type 0 where
    pub valid : IsValid m
    pub issued : (t : ℕ) → Set.contains t m.active_transactions ≡ true → t < m.next_txn_id

  -- Any call of a method that changes the manager. A transaction that writes, deletes or is
  -- rolled back is running.
  pub data Call (m : MvccManager D) : MvccManager D → Type 0 where
    begins : m.next_txn_id + 1 < u64_mod → Call m (begin_transaction m).1
    snaps : m.clock + 1 < u64_mod → Call m (begin_snapshot m).1
    writes :
        (n t : ℕ) (d : D)
        → Set.contains t m.active_transactions ≡ true
        → m.clock + 1 < u64_mod
        → Call m (write_node m n d t)
    deletes :
        (n t : ℕ)
        → Set.contains t m.active_transactions ≡ true
        → m.clock + 1 < u64_mod
        → Call m (delete_node m n t)
    commits : (t : ℕ) → Call m (commit m t)
    rolls_back : (t : ℕ) → Set.contains t m.active_transactions ≡ true → Call m (rollback m t)
    collects : Call m (gc m).0

  pub data Calls (m : MvccManager D) : MvccManager D → Type 0 where
    none_yet : Calls m m
    further : {m' m'' : MvccManager D} → Calls m m' → Call m' m'' → Calls m m''

  All-snoc :
      (P : NodeVersion D → Type 0) (xs : List (NodeVersion D)) (v : NodeVersion D)
      → All P xs
      → P v
      → All P (xs ++ v ∷ [])
  All-snoc P [] v h p = (p, tt)
  All-snoc P (x ∷ xs) v h p = (h.0, All-snoc P xs v h.1 p)

  reverse-All :
      (P : NodeVersion D → Type 0) (xs : List (NodeVersion D)) → All P xs → All P (reverse xs)
  reverse-All P xs h = All-reverse P (reverse xs) (rw reverse-reverse h)

  IsDescending-snoc :
      (xs : List (NodeVersion D)) (v : NodeVersion D)
      → IsDescending xs
      → All (λ w. v.created_at < w.created_at) xs
      → IsDescending (xs ++ v ∷ [])
  IsDescending-snoc [] v h a = (tt, tt)
  IsDescending-snoc (x ∷ xs) v h a =
      (All-snoc (λ w. w.created_at < x.created_at) xs v h.0 a.0, IsDescending-snoc xs v h.1 a.1)

  reverse-IsDescending : (vs : List (NodeVersion D)) → IsAscending vs → IsDescending (reverse vs)
  reverse-IsDescending [] h = tt
  reverse-IsDescending (v ∷ vs) h = rw reverse-cons (
      IsDescending-snoc (reverse vs) v (reverse-IsDescending vs h.1)
        (reverse-All (λ w. v.created_at < w.created_at) vs h.0))

  stored-IsAscending : (vs : List (NodeVersion D)) → IsDescending vs → IsAscending (reverse vs)
  stored-IsAscending vs h = IsAscending-reverse (reverse vs) (rw reverse-reverse h)

  gc_chain-Fits :
      (P : NodeVersion D → Type 0) (wm : ℕ) (vs : List (NodeVersion D))
      → IsDescending vs
      → All P vs
      → All P (gc_chain wm vs)
  unfolding gc_chain
  gc_chain-Fits P wm vs d h = reverse-All P (kept wm (sort_by_stamp (reverse vs))) (
      All-kept P wm (sort_by_stamp (reverse vs))
        (rw (sort-IsAscending (reverse vs) (stored-IsAscending vs d)) (reverse-All P vs h)))

  gc_chain-IsDescending :
      (wm : ℕ) (vs : List (NodeVersion D)) → IsDescending vs → IsDescending (gc_chain wm vs)
  unfolding gc_chain
  gc_chain-IsDescending wm vs d =
      let up = stored-IsAscending vs d in
      rw (sort-IsAscending (reverse vs) up)
        (reverse-IsDescending (kept wm (reverse vs)) (IsAscending-kept wm (reverse vs) up))

  gc_fields :
      (m : MvccManager D)
      → ((gc m).0.clock ≡ m.clock)
        × ((gc m).0.next_txn_id ≡ m.next_txn_id)
        × ((gc m).0.active_transactions ≡ m.active_transactions)
  unfolding gc
  gc_fields m = (refl, refl, refl)

  gc-IsValid : (m : MvccManager D) → IsValid m → IsValid (gc m).0
  gc-IsValid m v =
      let (c, i, _) = gc_fields m in
      record {
        clock_fits = rw c v.clock_fits;
        txn_id_fits = rw i v.txn_id_fits;
        fits = λ n.
            simp (c, i, newest_first-gc)
              (gc_chain-Fits (Fits m.clock m.next_txn_id) (watermark m) (newest_first n m)
                (v.descending n) (v.fits n));
        descending = λ n.
            rw newest_first-gc
              (gc_chain-IsDescending (watermark m) (newest_first n m) (v.descending n));
      }

  begin_fields :
      (m : MvccManager D) (t : ℕ)
      → m.next_txn_id + 1 < u64_mod
      → ((u : ℕ) → Set.contains u m.active_transactions ≡ true → u < m.next_txn_id)
      → Set.contains t (begin_transaction m).1.active_transactions ≡ true
      → t < (begin_transaction m).1.next_txn_id
  unfolding begin_transaction
  begin_fields m t room known h =
      let c = step_counter m.next_txn_id room in
      elim (Bool-cases (m.next_txn_id == t)) [
        | inl e ↦ let same = eq_of_== m.next_txn_id t e in omega (arith, c, same)
        | inr e ↦ let below = known t (rw (contains-insert, e) at h) in omega (arith, c, below)
      ]

  ended_fields :
      (m : MvccManager D) (t u : ℕ)
      → (Set.contains u (commit m t).active_transactions ≡ true
          → Set.contains u m.active_transactions ≡ true)
        × (Set.contains u (rollback m t).active_transactions ≡ true
            → Set.contains u m.active_transactions ≡ true)
  unfolding commit rollback
  ended_fields m t u = (within t u m.active_transactions, within t u m.active_transactions)

  Call-IsSound : {m m' : MvccManager D} → Call m m' → IsSound m → IsSound m'
  Call-IsSound {m} (begins room) s = record {
    valid = Step-IsValid (begin room) s.valid;
    issued = λ t. begin_fields m t room s.issued;
  }
  Call-IsSound {m} (snaps room) s = record {
    valid = Step-IsValid (snapshot room) s.valid;
    issued = unfold begin_snapshot in s.issued;
  }
  Call-IsSound {m} (writes n t d a room) s =
      let (_, i, r) = clock-write m n t d room in
      record {
        valid = Step-IsValid (write n t d a (s.issued t a) room) s.valid;
        issued = rw (i, r) s.issued;
      }
  Call-IsSound {m} (deletes n t a room) s =
      let (_, i, r) = clock-delete m n t room in
      record {
        valid = Step-IsValid (delete n t a (s.issued t a) room) s.valid;
        issued = rw (i, r) s.issued;
      }
  Call-IsSound {m} (commits t) s = record {
    valid = Step-IsValid (end_commit t) s.valid;
    issued = λ u h. unfold commit in s.issued u ((ended_fields m t u).0 h);
  }
  Call-IsSound {m} (rolls_back t a) s = record {
    valid = Step-IsValid (end_rollback t a) s.valid;
    issued = λ u h. unfold rollback in s.issued u ((ended_fields m t u).1 h);
  }
  Call-IsSound {m} collects s =
      let (_, i, r) = gc_fields m in
      record { valid = gc-IsValid m s.valid; issued = rw (i, r) s.issued }

  -- Whatever calls follow on a valid manager whose running transactions have issued numbers, such
  -- as a new one, `gc` among them, while the two 64-bit counters do not wrap round and as long as
  -- only running transactions write, delete or are rolled back: every version's stamps lie below
  -- the clock and its transaction numbers below the next one, each chain is ordered by its
  -- stamps, and the running transactions have issued numbers.
  pub Calls-IsSound : {m m' : MvccManager D} → Calls m m' → IsSound m → IsSound m'
  Calls-IsSound none_yet s = s
  Calls-IsSound (further r c) s = Call-IsSound c (Calls-IsSound r s)

  pub init-IsSound : IsSound (init {D = D})
  unfolding init Set.contains
  init-IsSound = record { valid = unfold init in init-IsValid; issued = λ t h. cc }
