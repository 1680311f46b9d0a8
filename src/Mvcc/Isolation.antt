-- ===== src/Mvcc/Isolation.antt =====
-- Snapshot isolation of mvcc.rs: what a held snapshot reads never changes.
use maharit_db.Base.{ℕ, ◌+◌, ◌<◌, ◌≡◌, refl, ◌∙◌}
use maharit_db.Base.Eq.{nat_eq}
use maharit_db.Mvcc.{MvccManager, MvccSnapshot, u64_mod, begin_snapshot, read_node}
use maharit_db.Mvcc.Chain.{read-newest_first}
use maharit_db.Mvcc.Invariant.{IsValid, snapshot, Reach, here, next}
use maharit_db.Mvcc.Steps.{Step-IsValid}
use maharit_db.Mvcc.Isolated.{Unmoved, Isolated, begin_snapshot-Isolated}
use maharit_db.Mvcc.Unmoved.{Step-Unmoved}

module _ {D : Type 0} where
  Reach-Unmoved :
      {m m' : MvccManager D} (s : MvccSnapshot)
      → Reach m m'
      → IsValid m
      → Isolated s m
      → IsValid m' × Unmoved s m m'
  unfolding Unmoved
  Reach-Unmoved s here v iso = (v, (iso, λ n. refl))
  Reach-Unmoved s (next r st) v iso =
      let (v', (iso', same)) = Reach-Unmoved s r v iso in
      let (iso'', same') = Step-Unmoved s st v' iso' in
      (Step-IsValid st v', (iso'', λ n. same' n ∙ same n))

  -- Snapshot isolation. A snapshot is taken of a valid manager. Whatever calls of
  -- `begin_transaction`, `begin_snapshot`, `write_node`, `delete_node`, `commit` and `rollback`
  -- follow, by any transactions that are running when they call, the snapshot reads of every node
  -- what it read when it was taken. (`gc` is not among the calls, and the two 64-bit counters are
  -- taken not to wrap round on the way.)
  pub snapshot_stable :
      (m m' : MvccManager D) (n : ℕ)
      → IsValid m
      → m.clock + 1 < u64_mod
      → Reach (begin_snapshot m).1 m'
      → read_node m' n (begin_snapshot m).0 ≡ read_node (begin_snapshot m).1 n (begin_snapshot m).0
  unfolding Unmoved
  snapshot_stable m m' n v room r =
      let (_, (_, same)) =
        Reach-Unmoved (begin_snapshot m).0 r (Step-IsValid (snapshot room) v)
          (begin_snapshot-Isolated m room v) in
      rw (read-newest_first m', read-newest_first (begin_snapshot m).1) (same n)
