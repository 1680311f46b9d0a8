-- ===== src/Mvcc/Steps.antt =====
-- Every call of a method of mvcc.rs but `gc` keeps the invariant.
use maharit_db.Base.{ℕ, ◌+◌, ◌%◌, ◌<◌, ◌≡◌, refl, arith, inl, inr, Bool-cases, All, All_mono}
use maharit_db.Base.Eq.{◌==◌, nat_eq}
use maharit_db.Base.Map
use maharit_db.Mvcc.{
  MvccManager, u64_mod, begin_transaction, begin_snapshot, write_node, delete_node, commit,
  rollback, init,
}
use maharit_db.Mvcc.Chain.{
  newest_first, newest_first-write, newest_first-delete, newest_first-rollback,
}
use maharit_db.Mvcc.Invariant.{
  Fits, IsDescending, IsValid, Step, begin, snapshot, write, delete, end_commit, end_rollback,
  Reach, here, next,
}
use maharit_db.Mvcc.Marks.{
  Fits-mono, Fits-mark, IsDescending-mark, survivors-Fits, IsDescending-survivors,
}

-- a counter that has room advances by one
pub step_counter : (c : ℕ) → c + 1 < u64_mod → (c + 1) % u64_mod ≡ c + 1
step_counter c h = omega arith

module _ {D : Type 0} where
  begin-IsValid :
      (m : MvccManager D)
      → m.next_txn_id + 1 < u64_mod
      → IsValid m
      → IsValid (begin_transaction m).1
  unfolding begin_transaction newest_first
  begin-IsValid m room v = rw (step_counter m.next_txn_id room) (record {
    clock_fits = v.clock_fits;
    txn_id_fits = room;
    fits = λ n.
        All_mono (Fits m.clock m.next_txn_id) (Fits m.clock (m.next_txn_id + 1))
          (Fits-mono m.clock m.next_txn_id m.clock (m.next_txn_id + 1) (omega arith) (omega arith))
          (newest_first n m) (v.fits n);
    descending = v.descending;
  })

  -- what every step that advances the clock needs of the chains it leaves alone
  later-Fits :
      (m : MvccManager D)
      → IsValid m
      → (n : ℕ) → All (Fits (m.clock + 1) m.next_txn_id) (newest_first n m)
  later-Fits m v n =
      All_mono (Fits m.clock m.next_txn_id) (Fits (m.clock + 1) m.next_txn_id)
        (Fits-mono m.clock m.next_txn_id (m.clock + 1) m.next_txn_id (omega arith) (omega arith))
        (newest_first n m) (v.fits n)

  snapshot-IsValid :
      (m : MvccManager D) → m.clock + 1 < u64_mod → IsValid m → IsValid (begin_snapshot m).1
  unfolding begin_snapshot newest_first
  snapshot-IsValid m room v = rw (step_counter m.clock room) (record {
    clock_fits = room;
    txn_id_fits = v.txn_id_fits;
    fits = later-Fits m v;
    descending = v.descending;
  })

  write-Fits :
      (m : MvccManager D) (n t : ℕ) (d : D)
      → t < m.next_txn_id
      → IsValid m
      → (j : ℕ) → All (Fits (m.clock + 1) m.next_txn_id) (newest_first j (write_node m n d t))
  write-Fits m n t d known v j = rw newest_first-write (elim (Bool-cases (n == j)) [
    | inl e ↦
        rw e (record { created = omega arith; creator = known; deletion = tt }, later-Fits m v j)
    | inr e ↦ rw e (later-Fits m v j)
  ])

  write-IsDescending :
      (m : MvccManager D) (n t : ℕ) (d : D)
      → IsValid m
      → (j : ℕ) → IsDescending (newest_first j (write_node m n d t))
  write-IsDescending m n t d v j = rw newest_first-write (elim (Bool-cases (n == j)) [
    | inl e ↦ rw e (
      All_mono (Fits m.clock m.next_txn_id) (λ w. w.created_at < m.clock) (λ w x. x.created)
          (newest_first j m) (v.fits j),
      v.descending j,
    )
    | inr e ↦ rw e (v.descending j)
  ])

  pub clock-write :
      (m : MvccManager D) (n t : ℕ) (d : D)
      → m.clock + 1 < u64_mod
      → ((write_node m n d t).clock ≡ m.clock + 1)
        × ((write_node m n d t).next_txn_id ≡ m.next_txn_id)
        × ((write_node m n d t).active_transactions ≡ m.active_transactions)
  unfolding write_node
  clock-write m n t d room = (step_counter m.clock room, refl, refl)

  write-IsValid :
      (m : MvccManager D) (n t : ℕ) (d : D)
      → t < m.next_txn_id
      → m.clock + 1 < u64_mod
      → IsValid m
      → IsValid (write_node m n d t)
  write-IsValid m n t d known room v =
      let (c, i, _) = clock-write m n t d room in
      record {
        clock_fits = rw c room;
        txn_id_fits = rw i v.txn_id_fits;
        fits = λ j. simp (c, i) (write-Fits m n t d known v j);
        descending = write-IsDescending m n t d v;
      }

  pub clock-delete :
      (m : MvccManager D) (n t : ℕ)
      → m.clock + 1 < u64_mod
      → ((delete_node m n t).clock ≡ m.clock + 1)
        × ((delete_node m n t).next_txn_id ≡ m.next_txn_id)
        × ((delete_node m n t).active_transactions ≡ m.active_transactions)
  unfolding delete_node
  clock-delete m n t room = let e = step_counter m.clock room in ground arith

  delete-Fits :
      (m : MvccManager D) (n t : ℕ)
      → t < m.next_txn_id
      → IsValid m
      → (j : ℕ) → All (Fits (m.clock + 1) m.next_txn_id) (newest_first j (delete_node m n t))
  delete-Fits m n t known v j = rw newest_first-delete (elim (Bool-cases (n == j)) [
    | inl e ↦ rw e (Fits-mark m.clock m.next_txn_id t (newest_first j m) known (v.fits j))
    | inr e ↦ rw e (later-Fits m v j)
  ])

  delete-IsDescending :
      (m : MvccManager D) (n t : ℕ)
      → IsValid m
      → (j : ℕ) → IsDescending (newest_first j (delete_node m n t))
  delete-IsDescending m n t v j = rw newest_first-delete (elim (Bool-cases (n == j)) [
    | inl e ↦ rw e (IsDescending-mark m.clock t (newest_first j m) (v.descending j))
    | inr e ↦ rw e (v.descending j)
  ])

  delete-IsValid :
      (m : MvccManager D) (n t : ℕ)
      → t < m.next_txn_id
      → m.clock + 1 < u64_mod
      → IsValid m
      → IsValid (delete_node m n t)
  delete-IsValid m n t known room v =
      let (c, i, _) = clock-delete m n t room in
      record {
        clock_fits = rw c room;
        txn_id_fits = rw i v.txn_id_fits;
        fits = λ j. simp (c, i) (delete-Fits m n t known v j);
        descending = delete-IsDescending m n t v;
      }

  commit-IsValid : (m : MvccManager D) (t : ℕ) → IsValid m → IsValid (commit m t)
  unfolding commit newest_first
  commit-IsValid m t v = record {
    clock_fits = v.clock_fits;
    txn_id_fits = v.txn_id_fits;
    fits = v.fits;
    descending = v.descending;
  }

  clock-rollback :
      (m : MvccManager D) (t : ℕ)
      → ((rollback m t).clock ≡ m.clock) × ((rollback m t).next_txn_id ≡ m.next_txn_id)
  unfolding rollback
  clock-rollback m t = (refl, refl)

  rollback-IsValid : (m : MvccManager D) (t : ℕ) → IsValid m → IsValid (rollback m t)
  rollback-IsValid m t v =
      let (c, i) = clock-rollback m t in
      record {
        clock_fits = rw c v.clock_fits;
        txn_id_fits = rw i v.txn_id_fits;
        fits = λ j.
            simp (c, i, newest_first-rollback)
              (survivors-Fits t m.clock m.next_txn_id (newest_first j m) (v.fits j));
        descending = λ j.
            rw newest_first-rollback (IsDescending-survivors t (newest_first j m) (v.descending j));
      }

  pub Step-IsValid : {m m' : MvccManager D} → Step m m' → IsValid m → IsValid m'
  Step-IsValid {m} (begin room) v = begin-IsValid m room v
  Step-IsValid {m} (snapshot room) v = snapshot-IsValid m room v
  Step-IsValid {m} (write n t d a known room) v = write-IsValid m n t d known room v
  Step-IsValid {m} (delete n t a known room) v = delete-IsValid m n t known room v
  Step-IsValid {m} (end_commit t) v = commit-IsValid m t v
  Step-IsValid {m} (end_rollback t a) v = rollback-IsValid m t v

  -- Whatever calls but `gc` follow on a valid manager, by transactions that run when they write,
  -- delete or are rolled back, and while the 64-bit counters do not wrap round: every version's
  -- stamps lie below the clock, every transaction number below the next one, and each chain is
  -- ordered by its stamps.
  pub Reach-IsValid : {m m' : MvccManager D} → Reach m m' → IsValid m → IsValid m'
  Reach-IsValid here v = v
  Reach-IsValid (next r st) v = Step-IsValid st (Reach-IsValid r v)

  pub init-IsValid : IsValid (init {D = D})
  unfolding init newest_first Map.lookup
  init-IsValid = record {
    clock_fits = omega arith;
    txn_id_fits = omega arith;
    fits = λ n. tt;
    descending = λ n. tt;
  }
