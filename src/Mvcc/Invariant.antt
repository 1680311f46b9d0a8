-- ===== src/Mvcc/Invariant.antt =====
-- The invariant of the manager of mvcc.rs, and the steps that keep it: every call but `gc`, while
-- the two counters have not come to the end of their 64 bits.
use maharit_db.Base.{ℕ, ◌+◌, ◌<◌, true, Option, none, some, List, [], ◌∷◌, ◌≡◌, All}
use maharit_db.Base.Eq.{nat_eq}
use maharit_db.Base.Set
use maharit_db.Mvcc.{
  MvccManager, NodeVersion, u64_mod, begin_transaction, begin_snapshot, write_node, delete_node,
  commit, rollback,
}
use maharit_db.Mvcc.Chain.{newest_first}

-- A stamp and a transaction for a deletion, or neither.
abbrev pub DeletionFits : ℕ → ℕ → Option ℕ → Option ℕ → Type 0
DeletionFits clock next none none = Unit
DeletionFits clock next (some d) (some t) = (d < clock) × (t < next)
DeletionFits clock next _ _ = ⊥

pub record Fits {D : Type 0} (clock next : ℕ) (v : NodeVersion D) : Type 0 where
  pub created : v.created_at < clock
  pub creator : v.txn_id < next
  pub deletion : DeletionFits clock next v.deleted_at v.deleter_txn

module _ {D : Type 0} where
  -- newest first, with no two stamps the same
  abbrev pub IsDescending : List (NodeVersion D) → Type 0
  IsDescending [] = Unit
  IsDescending (v ∷ vs) = All (λ w. w.created_at < v.created_at) vs × IsDescending vs

  pub record IsValid (m : MvccManager D) : Type 0 where
    pub clock_fits : m.clock < u64_mod
    pub txn_id_fits : m.next_txn_id < u64_mod
    pub fits : (n : ℕ) → All (Fits m.clock m.next_txn_id) (newest_first n m)
    pub descending : (n : ℕ) → IsDescending (newest_first n m)

  -- One call of a method. A transaction that writes, deletes or is rolled back is active.
  pub data Step (m : MvccManager D) : MvccManager D → Type 0 where
    begin : m.next_txn_id + 1 < u64_mod → Step m (begin_transaction m).1
    snapshot : m.clock + 1 < u64_mod → Step m (begin_snapshot m).1
    write :
        (n t : ℕ) (d : D)
        → Set.contains t m.active_transactions ≡ true
        → t < m.next_txn_id
        → m.clock + 1 < u64_mod
        → Step m (write_node m n d t)
    delete :
        (n t : ℕ)
        → Set.contains t m.active_transactions ≡ true
        → t < m.next_txn_id
        → m.clock + 1 < u64_mod
        → Step m (delete_node m n t)
    end_commit : (t : ℕ) → Step m (commit m t)
    end_rollback : (t : ℕ) → Set.contains t m.active_transactions ≡ true → Step m (rollback m t)

  pub data Reach (m : MvccManager D) : MvccManager D → Type 0 where
    here : Reach m m
    next : {m' m'' : MvccManager D} → Reach m m' → Step m' m'' → Reach m m''
