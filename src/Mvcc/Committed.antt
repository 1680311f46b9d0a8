-- ===== src/Mvcc/Committed.antt =====
-- mvcc.rs: what becomes of a committed write while other nodes are written and other transactions
-- come and go.
use maharit_db.Base.{ℕ, ◌+◌, ◌<◌, false, some, List, ◌∷◌, ◌≡◌, ◌∙◌, ap, arith}
use maharit_db.Base.Eq.{◌==◌, nat_eq, ==_refl}
use maharit_db.Base.Set
use maharit_db.Mvcc.{
  MvccManager, NodeVersion, u64_mod, write_node, commit, rollback, begin_transaction,
  begin_snapshot, undelete,
}
use maharit_db.Mvcc.Chain.{
  newest_first, newest_first-write, newest_first-delete, newest_first-rollback, survivors, fresh,
}
use maharit_db.Mvcc.Invariant.{Step, begin, snapshot, write, delete, end_commit, end_rollback}
use maharit_db.Mvcc.Steps.{clock-write, clock-delete, step_counter}
use maharit_db.Mvcc.Seen.{now, read_now, read_now-seen}
use maharit_db.Mvcc.Reads.{committed-visible}

other_way : (t u : ℕ) → (u == t) ≡ false → (t == u) ≡ false
other_way t u h = ground arith

module _ {D : Type 0} where
  -- A step that neither writes nor deletes the node and is not the rollback of the transaction.
  abbrev pub Spares : ℕ → ℕ → {m m' : MvccManager D} → Step m m' → Type 0
  Spares n t (begin room) = Unit
  Spares n t (snapshot room) = Unit
  Spares n t (write k u d a known room) = (k == n) ≡ false
  Spares n t (delete k u a known room) = (k == n) ≡ false
  Spares n t (end_commit u) = Unit
  Spares n t (end_rollback u a) = (u == t) ≡ false

  pub data Sparing (n t : ℕ) (m : MvccManager D) : MvccManager D → Type 0 where
    here : Sparing n t m m
    next :
        {m' m'' : MvccManager D}
        → Sparing n t m m'
        → (st : Step m' m'') → Spares n t st
        → Sparing n t m m''

  -- the write is the newest version of the node
  abbrev Newest : ℕ → ℕ → D → MvccManager D → Type 0
  Newest n t d m =
      (ts : ℕ) × (vs : List (NodeVersion D)) × (newest_first n m ≡ fresh ts t d ∷ vs)
      × (ts < m.clock)

  written :
      (m : MvccManager D) (n t : ℕ) (d : D)
      → m.clock + 1 < u64_mod
      → Newest n t d (write_node m n d t)
  written m n t d room =
      let (c, _, _) = clock-write m n t d room in
      (m.clock, newest_first n m, rw (newest_first-write, ==_refl n), omega (arith, c))

  survivors-other :
      (ts t u : ℕ) (d : D) (vs : List (NodeVersion D))
      → (u == t) ≡ false
      → survivors u (fresh ts t d ∷ vs) ≡ fresh ts t d ∷ survivors u vs
  unfolding survivors undelete
  survivors-other ts t u d vs other = rw (other_way t u other)

  Step-Newest :
      {m m' : MvccManager D} (n t : ℕ) (d : D) (st : Step m m')
      → Spares n t st
      → Newest n t d m
      → Newest n t d m'
  Step-Newest {m} n t d (begin room) k (ts, vs, e, lt) =
      unfold begin_transaction newest_first in (ts, vs, e, lt)
  Step-Newest {m} n t d (snapshot room) k (ts, vs, e, lt) =
      let c = step_counter m.clock room in
      unfold begin_snapshot newest_first in (ts, vs, e, omega (arith, c))
  Step-Newest {m} n t d (write j u x a known room) k (ts, vs, e, lt) =
      let (c, _, _) = clock-write m j u x room in
      (ts, vs, rw (newest_first-write, k, e), omega (arith, c))
  Step-Newest {m} n t d (delete j u a known room) k (ts, vs, e, lt) =
      let (c, _, _) = clock-delete m j u room in
      (ts, vs, rw (newest_first-delete, k, e), omega (arith, c))
  Step-Newest {m} n t d (end_commit u) k (ts, vs, e, lt) =
      unfold commit newest_first in (ts, vs, e, lt)
  Step-Newest {m} n t d (end_rollback u a) k (ts, vs, e, lt) = (
    ts,
    survivors u vs,
    newest_first-rollback m n u ∙ ap (survivors u) e ∙ survivors-other ts t u d vs k,
    unfold rollback in lt,
  )

  steps-Newest :
      (n t : ℕ) (d : D) (m : MvccManager D) {m' : MvccManager D}
      → Sparing n t m m'
      → Newest n t d m
      → Newest n t d m'
  steps-Newest n t d m here h = h
  steps-Newest n t d m (next r st k) h = Step-Newest n t d st k (steps-Newest n t d m r h)

  -- No lost write. A transaction writes a node while the clock has room for the stamp; any calls
  -- but `gc` follow, by any transactions, that neither write nor delete that node and are not the
  -- rollback of this transaction, where writes, deletions and rollbacks are by running
  -- transactions (with issued numbers) and the counters do not wrap round. Once the transaction
  -- is no longer running, a snapshot that is taken next reads the written value.
  pub committed_write_visible :
      (m m' : MvccManager D) (n t : ℕ) (d : D)
      → m.clock + 1 < u64_mod
      → Sparing n t (write_node m n d t) m'
      → Set.contains t m'.active_transactions ≡ false
      → read_now m' n ≡ some d
  committed_write_visible m m' n t d room r ended =
      let (ts, vs, e, lt) = steps-Newest n t d (write_node m n d t) r (written m n t d room) in
      rw (read_now-seen, e, committed-visible (now m') ts t d lt ended)
