-- ===== src/Mvcc/Unmoved.antt =====
-- One call of a method of mvcc.rs changes nothing that a held snapshot reads.
use maharit_db.Base.{
  ℕ, ◌+◌, ◌<◌, true, false, ◌≡◌, refl, arith, inl, inr, Bool-cases, All, All_mono, All_zip, lt→ltb,
}
use maharit_db.Base.Eq.{◌==◌, nat_eq}
use maharit_db.Base.Set
use maharit_db.Base.Set.{contains-insert, contains-remove}
use maharit_db.Mvcc.{
  MvccManager, NodeVersion, MvccSnapshot, u64_mod, begin_transaction, begin_snapshot, write_node,
  delete_node, commit, rollback, is_visible, deletion_hidden,
}
use maharit_db.Mvcc.Chain.{
  newest_first, newest_first-write, newest_first-delete, newest_first-rollback, fresh,
}
use maharit_db.Mvcc.Invariant.{
  Fits, IsValid, Step, begin, snapshot, write, delete, end_commit, end_rollback,
}
use maharit_db.Mvcc.Marks.{All-mark, marked}
use maharit_db.Mvcc.Steps.{step_counter, clock-write, clock-delete}
use maharit_db.Mvcc.Seen.{Settled, Settled-mono, seen, seen-mark, seen-survivors, survivors-Settled}
use maharit_db.Mvcc.Isolated.{Isolated, Unmoved, deleter_known, old_member, removed_member}

module _ {D : Type 0} where
  module _ (s : MvccSnapshot) (m : MvccManager D) (iso : Isolated s m) where
    begin-Settled :
        (v : NodeVersion D)
        → Settled s m.active_transactions v × Fits m.clock m.next_txn_id v
        → Settled s (Set.insert m.next_txn_id m.active_transactions) v
    begin-Settled v (h, f) = record {
      creator = λ running.
          h.creator (old_member v.txn_id m.next_txn_id m.active_transactions f.creator running);
      deleter = λ t by running. h.deleter t by (
          old_member t m.next_txn_id m.active_transactions
            (deleter_known m.clock m.next_txn_id t v.deleted_at v.deleter_txn by f.deletion)
            running);
    }

    begin-Unmoved : IsValid m → Unmoved s m (begin_transaction m).1
    unfolding Unmoved begin_transaction newest_first
    begin-Unmoved v = (
      record {
        past = iso.past;
        settled = λ n.
            All_mono (λ w. Settled s m.active_transactions w × Fits m.clock m.next_txn_id w)
              (Settled s (Set.insert m.next_txn_id m.active_transactions)) begin-Settled
              (newest_first n m)
              (All_zip (Settled s m.active_transactions) (Fits m.clock m.next_txn_id)
                (newest_first n m) (iso.settled n) (v.fits n));
      },
      λ n. refl,
    )

    snapshot-Unmoved : m.clock + 1 < u64_mod → Unmoved s m (begin_snapshot m).1
    unfolding Unmoved begin_snapshot newest_first
    snapshot-Unmoved room = (
      record {
        past = rw (step_counter m.clock room) (omega (arith, iso.past));
        settled = iso.settled;
      },
      λ n. refl,
    )

    fresh-unseen : (t : ℕ) (d : D) → is_visible s (fresh m.clock t d) ≡ false
    unfolding is_visible
    fresh-unseen t d = rw (lt→ltb s.snapshot_id m.clock iso.past)

    write-Settled :
        (n t : ℕ) (d : D) (j : ℕ)
        → All (Settled s m.active_transactions) (newest_first j (write_node m n d t))
    write-Settled n t d j = rw newest_first-write (elim (Bool-cases (n == j)) [
      | inl e ↦ rw e (record { creator = λ _. inr iso.past; deleter = λ u by _. cc }, iso.settled j)
      | inr e ↦ rw e (iso.settled j)
    ])

    write-seen :
        (n t : ℕ) (d : D) (j : ℕ)
        → seen s (newest_first j (write_node m n d t)) ≡ seen s (newest_first j m)
    write-seen n t d j =
        rw newest_first-write
          (elim (Bool-cases (n == j)) [ inl e ↦ rw (e, fresh-unseen t d) | inr e ↦ rw e ])

    write-Unmoved : (n t : ℕ) (d : D) → m.clock + 1 < u64_mod → Unmoved s m (write_node m n d t)
    unfolding Unmoved
    write-Unmoved n t d room =
        let (c, _, a) = clock-write m n t d room in
        (
          record {
            past = rw c (omega (arith, iso.past));
            settled = λ j. simp a (write-Settled n t d j);
          },
          write-seen n t d,
        )

    marked-Settled :
        (t : ℕ) (v : NodeVersion D)
        → Settled s m.active_transactions v
        → Settled s m.active_transactions (marked m.clock t v)
    unfolding deletion_hidden
    marked-Settled t v h = record {
      creator = h.creator;
      deleter = λ u by running. let late = lt→ltb s.snapshot_id m.clock iso.past in ground arith;
    }

    delete-Settled :
        (n t j : ℕ) → All (Settled s m.active_transactions) (newest_first j (delete_node m n t))
    delete-Settled n t j = rw newest_first-delete (elim (Bool-cases (n == j)) [
      | inl e ↦ rw e (
          All-mark (Settled s m.active_transactions) (Settled s m.active_transactions) m.clock t
            (newest_first j m) (λ v h. h) (λ v _ h. marked-Settled t v h) (iso.settled j))
      | inr e ↦ rw e (iso.settled j)
    ])

    delete-seen :
        (n t j : ℕ) → seen s (newest_first j (delete_node m n t)) ≡ seen s (newest_first j m)
    delete-seen n t j = rw newest_first-delete (elim (Bool-cases (n == j)) [
      | inl e ↦ rw e (seen-mark s m.clock t (newest_first j m) iso.past)
      | inr e ↦ rw e
    ])

    delete-Unmoved : (n t : ℕ) → m.clock + 1 < u64_mod → Unmoved s m (delete_node m n t)
    unfolding Unmoved
    delete-Unmoved n t room =
        let (c, _, a) = clock-delete m n t room in
        (
          record {
            past = rw c (omega (arith, iso.past));
            settled = λ j. simp a (delete-Settled n t j);
          },
          delete-seen n t,
        )

    commit-Unmoved : (t : ℕ) → Unmoved s m (commit m t)
    unfolding Unmoved commit newest_first
    commit-Unmoved t = (
      record {
        past = iso.past;
        settled = λ n.
            All_mono (Settled s m.active_transactions)
              (Settled s (Set.remove t m.active_transactions))
              (Settled-mono s m.active_transactions (Set.remove t m.active_transactions)
                (λ u. removed_member t u m.active_transactions))
              (newest_first n m) (iso.settled n);
      },
      λ n. refl,
    )

    active-rollback :
        (t : ℕ)
        → ((rollback m t).active_transactions ≡ Set.remove t m.active_transactions)
          × ((rollback m t).clock ≡ m.clock)
    unfolding rollback
    active-rollback t = (refl, refl)

    rollback-Unmoved :
        (t : ℕ) → Set.contains t m.active_transactions ≡ true → Unmoved s m (rollback m t)
    unfolding Unmoved
    rollback-Unmoved t running =
        let (a, c) = active-rollback t in
        (
          record {
            past = rw c iso.past;
            settled = λ n.
                simp (a, newest_first-rollback)
                  (survivors-Settled s m.active_transactions t running
                    (Set.remove t m.active_transactions)
                    (λ u. removed_member t u m.active_transactions) (newest_first n m)
                    (iso.settled n));
          },
          λ n.
              rw newest_first-rollback (
                seen-survivors s m.active_transactions t running (newest_first n m)
                  (iso.settled n)),
        )

  pub Step-Unmoved :
      {m m' : MvccManager D} (s : MvccSnapshot)
      → Step m m'
      → IsValid m
      → Isolated s m
      → Unmoved s m m'
  Step-Unmoved {m} s (begin room) v iso = begin-Unmoved s m iso v
  Step-Unmoved {m} s (snapshot room) v iso = snapshot-Unmoved s m iso room
  Step-Unmoved {m} s (write n t d a known room) v iso = write-Unmoved s m iso n t d room
  Step-Unmoved {m} s (delete n t a known room) v iso = delete-Unmoved s m iso n t room
  Step-Unmoved {m} s (end_commit t) v iso = commit-Unmoved s m iso t
  Step-Unmoved {m} s (end_rollback t running) v iso = rollback-Unmoved s m iso t running
