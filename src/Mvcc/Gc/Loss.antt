-- ===== src/Mvcc/Gc/Loss.antt =====
-- `gc` of mvcc.rs takes a version for superseded as soon as a newer one has been written, whether
-- or not the writer has committed.
use maharit_db.Base.{ℕ, ◌+◌, ◌<◌, true, none, some, List, [], ◌∷◌, ◌≡◌, refl, ◌∙◌, ap, arith}
use mathlib.Core.Path.{subst}
use maharit_db.Base.{All}
use maharit_db.Base.Eq.{nat_eq, ==_refl}
use maharit_db.Base.Set
use maharit_db.Mvcc.{
  MvccManager, NodeVersion, u64_mod, begin_transaction, write_node, rollback, is_visible,
}
use maharit_db.Mvcc.Chain.{
  newest_first, newest_first-write, newest_first-rollback, survivors, fresh,
}
use maharit_db.Mvcc.Gc.{sort_by_stamp, kept, is_live, watermark, gc}
use maharit_db.Mvcc.Gc.Chains.{gc_chain, newest_first-gc, is_visible-live}
use maharit_db.Mvcc.Invariant.{Fits, IsValid}
use maharit_db.Mvcc.Rollback.{survivors-fresh}
use maharit_db.Mvcc.Steps.{clock-write}
use maharit_db.Mvcc.Seen.{now, read_now, read_now-seen}

insert-empty : (t : ℕ) (ts : List ℕ) → ts ≡ [] → Set.insert t ts ≡ t ∷ []
unfolding Set.insert
insert-empty t ts e = rw e

module _ {D : Type 0} where
  begin_fields :
      (m : MvccManager D)
      → ((begin_transaction m).1.clock ≡ m.clock)
        × ((begin_transaction m).1.active_transactions
            ≡ Set.insert m.next_txn_id m.active_transactions)
        × ((n : ℕ) → newest_first n (begin_transaction m).1 ≡ newest_first n m)
  unfolding begin_transaction newest_first
  begin_fields m = (refl, refl, λ n. refl)

  watermark-running :
      (m : MvccManager D) (t : ℕ) → m.active_transactions ≡ t ∷ [] → watermark m ≡ m.clock
  unfolding watermark
  watermark-running m t e = rw (e, watermark)

  -- the older of two live versions goes
  gc_chain-superseded :
      (clock t : ℕ) (d : D) (v : NodeVersion D)
      → v.deleted_at ≡ none
      → v.created_at < clock
      → gc_chain (clock + 1) (fresh clock t d ∷ v ∷ []) ≡ fresh clock t d ∷ []
  unfolding gc_chain kept sort_by_stamp
  gc_chain-superseded clock t d v live h = ground arith

  live-is_live : (v : NodeVersion D) → v.deleted_at ≡ none → is_live v ≡ true
  unfolding is_live
  live-is_live v e = ground arith

  -- a new snapshot of an idle manager sees a live version
  idle-visible :
      (m : MvccManager D) (v : NodeVersion D)
      → m.active_transactions ≡ []
      → Fits m.clock m.next_txn_id v
      → v.deleted_at ≡ none
      → is_visible (now m) v ≡ true
  idle-visible m v idle fits live =
      ap (λ ts. is_visible (record { snapshot_id = m.clock; active_txns = ts }) v) idle
      ∙ is_visible-live m.clock m.next_txn_id v fits
      ∙ live-is_live v live

  -- the manager after the write of the running transaction
  abbrev written : MvccManager D → ℕ → D → MvccManager D
  written m n d = write_node (begin_transaction m).1 n d m.next_txn_id

  lost_chain :
      (m : MvccManager D) (n : ℕ) (d : D) (v : NodeVersion D)
      → m.active_transactions ≡ []
      → newest_first n m ≡ v ∷ []
      → v.deleted_at ≡ none
      → v.created_at < m.clock
      → m.clock + 1 < u64_mod
      → newest_first n (rollback (gc (written m n d)).0 m.next_txn_id) ≡ []
  unfolding survivors
  lost_chain m n d v idle one live old room =
      let t = m.next_txn_id in
      let (c, a, same) = begin_fields m in
      let (c', _, a') = clock-write (begin_transaction m).1 n t d (rw c room) in
      let running = a' ∙ a ∙ insert-empty t m.active_transactions idle in
      let chain : newest_first n (written m n d) ≡ fresh m.clock t d ∷ v ∷ [] =
        rw (newest_first-write, ==_refl n, same n, one, c) in
      rw
        (newest_first-rollback, newest_first-gc, watermark-running (written m n d) t running, chain)
        (rw (c', c, gc_chain-superseded m.clock t d v live old, survivors-fresh))

  -- A collection can lose committed data. In a valid manager with no transaction running, whose
  -- clock has room for one more stamp, let a node have one version, which is live. A transaction
  -- begins and writes the node, `gc` runs, and the transaction is rolled back. A new snapshot
  -- read the version before, and reads nothing after.
  pub gc_loses_committed :
      (m : MvccManager D) (n : ℕ) (d : D) (v : NodeVersion D)
      → IsValid m
      → m.active_transactions ≡ []
      → newest_first n m ≡ v ∷ []
      → v.deleted_at ≡ none
      → m.clock + 1 < u64_mod
      → (read_now m n ≡ some v.node_data)
        × (read_now
              (rollback (gc (write_node (begin_transaction m).1 n d m.next_txn_id)).0 m.next_txn_id)
              n
            ≡ none)
  gc_loses_committed m n d v valid idle one live room = (before, after)
    where
      fits : Fits m.clock m.next_txn_id v
      fits = (subst (All (Fits m.clock m.next_txn_id)) one (valid.fits n)).0

      before : read_now m n ≡ some v.node_data
      before = rw (read_now-seen, one, idle-visible m v idle fits live)

      after : read_now (rollback (gc (written m n d)).0 m.next_txn_id) n ≡ none
      after = rw (read_now-seen, lost_chain m n d v idle one live fits.created room)
