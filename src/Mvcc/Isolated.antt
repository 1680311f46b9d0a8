-- ===== src/Mvcc/Isolated.antt =====
-- What holds of a snapshot of mvcc.rs and a manager as long as the snapshot is held.
use maharit_db.Base.{
  ℕ, ◌+◌, ◌<◌, true, Option, none, some, List, ◌≡◌, refl, arith, inl, inr, Option-cases, All,
  All_mono,
}
use maharit_db.Base.Eq.{nat_eq}
use maharit_db.Base.Set
use maharit_db.Base.Set.{contains-insert, contains-remove}
use maharit_db.Mvcc.{
  MvccManager, NodeVersion, MvccSnapshot, u64_mod, begin_snapshot, deletion_hidden,
}
use maharit_db.Mvcc.Chain.{newest_first}
use maharit_db.Mvcc.Invariant.{DeletionFits, Fits, IsValid}
use maharit_db.Mvcc.Steps.{step_counter}
use maharit_db.Mvcc.Seen.{Settled, seen}

pub deleter_known : (c n t : ℕ) (o p : Option ℕ) → p ≡ some t → DeletionFits c n o p → t < n
deleter_known c n t none none e h = cc
deleter_known c n t none (some u) e h = elim h [ ]
deleter_known c n t (some d) none e h = cc
deleter_known c n t (some d) (some u) e h = ground arith

-- a number that was given out before is not the new one
pub old_member :
    (a n : ℕ) (active : List ℕ)
    → a < n
    → Set.contains a (Set.insert n active) ≡ true
    → Set.contains a active ≡ true
old_member a n active h c = ground (arith, contains-insert n a active)

pub removed_member :
    (t a : ℕ) (active : List ℕ)
    → Set.contains a (Set.remove t active) ≡ true
    → Set.contains a active ≡ true
removed_member t a active c = ground (arith, contains-remove t a active)

module _ {D : Type 0} where
  pub record Isolated (s : MvccSnapshot) (m : MvccManager D) : Type 0 where
    pub past : s.snapshot_id < m.clock
    pub settled : (n : ℕ) → All (Settled s m.active_transactions) (newest_first n m)

  -- A fresh snapshot is settled, since every number in use was given out before.
  fresh-Settled :
      (s : MvccSnapshot) (active : List ℕ)
      → s.active_txns ≡ active
      → (c n : ℕ) (v : NodeVersion D) → Fits c n v
      → Settled s active v
  unfolding deletion_hidden
  fresh-Settled s active e c n v h = record {
    creator = λ running. inl (rw e running);
    deleter = λ t by running. elim (Option-cases v.deleted_at) [
      | inl none_eq ↦ ground arith
      | inr (d, some_eq) ↦ ground arith
    ];
  }

  pub begin_snapshot-Isolated :
      (m : MvccManager D)
      → m.clock + 1 < u64_mod
      → IsValid m
      → Isolated (begin_snapshot m).0 (begin_snapshot m).1
  unfolding begin_snapshot newest_first
  begin_snapshot-Isolated m room v = record {
    past = rw (step_counter m.clock room) (omega arith);
    settled = λ n.
        All_mono (Fits m.clock m.next_txn_id) (Settled (begin_snapshot m).0 m.active_transactions)
          (fresh-Settled (begin_snapshot m).0 m.active_transactions refl m.clock m.next_txn_id)
          (newest_first n m) (v.fits n);
  }

  -- after a step the snapshot is still isolated, and reads what it read
  unfoldable pub Unmoved : MvccSnapshot → MvccManager D → MvccManager D → Type 0
  Unmoved s m m' =
      Isolated s m' × ((n : ℕ) → seen s (newest_first n m') ≡ seen s (newest_first n m))
