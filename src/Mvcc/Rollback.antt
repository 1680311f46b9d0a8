-- ===== src/Mvcc/Rollback.antt =====
-- A rollback of mvcc.rs undoes all that its transaction did.
use maharit_db.Base.{
  ℕ, ◌+◌, ◌<◌, true, not, Option, none, some, List, [], ◌∷◌, ◌≡◌, ◌≢◌, refl, sym, ◌∙◌, ap,
  if◌then◌else◌, arith, inl, inr, Bool-cases, Option-cases, All, length,
}
use maharit_db.Base.Eq.{◌==◌, nat_eq, ==_refl, ==_ne}
use maharit_db.Base.Set
use maharit_db.Base.Set.{contains-insert, contains-remove, not-contains-remove}
use maharit_db.Mvcc.{
  MvccManager, NodeVersion, MvccSnapshot, u64_mod, begin_transaction, write_node, delete_node,
  rollback, mark_deleted, undelete, deleted_by, read_node,
}
use maharit_db.Mvcc.Chain.{
  newest_first, newest_first-write, newest_first-delete, newest_first-rollback, survivors, fresh,
  read-newest_first,
}
use maharit_db.Mvcc.Invariant.{DeletionFits, Fits, IsValid, begin, write, delete}
use maharit_db.Mvcc.Steps.{Step-IsValid, step_counter, clock-write, clock-delete}
use maharit_db.Mvcc.Seen.{seen}
use maharit_db.Mvcc.Marks.{marked}

-- What a transaction does to the nodes.
pub data Change (D : Type 0) : Type 0 where
  put : ℕ → D → Change D
  drop : ℕ → Change D

deleter_live : (c n : ℕ) (o p : Option ℕ) → DeletionFits c n o p → o ≡ none → p ≡ none
deleter_live c n none none h e = refl
deleter_live c n none (some t) h e = absurd h
deleter_live c n (some d) p h e = cc

deleter_old : (c n : ℕ) (o p : Option ℕ) → DeletionFits c n o p → p ≢ some n
deleter_old c n none none h e = cc
deleter_old c n none (some t) h e = h
deleter_old c n (some d) none h e = h
deleter_old c n (some d) (some t) h e = ground arith

module _ {D : Type 0} where
  undelete-marked :
      (ts t : ℕ) (v : NodeVersion D)
      → v.deleted_at ≡ none
      → v.deleter_txn ≡ none
      → undelete t (marked ts t v) ≡ v
  unfolding undelete
  undelete-marked ts t v e f =
      rw (==_refl t) (λ i. record v { deleted_at = sym e i; deleter_txn = sym f i })

  undelete-other : (t : ℕ) (v : NodeVersion D) → v.deleter_txn ≢ some t → undelete t v ≡ v
  unfolding undelete
  undelete-other t v h = elim (Bool-cases (deleted_by t v)) [
    | inl e ↦ absurd (ground arith)
    | inr e ↦ rw e
  ]

  mark-live :
      (ts t : ℕ) (v : NodeVersion D) (vs : List (NodeVersion D))
      → v.deleted_at ≡ none
      → mark_deleted ts t (v ∷ vs) ≡ marked ts t v ∷ vs
  unfolding mark_deleted
  mark-live ts t v vs e = rw (e, mark_deleted)

  mark-dead :
      (ts t d : ℕ) (v : NodeVersion D) (vs : List (NodeVersion D))
      → v.deleted_at ≡ some d
      → mark_deleted ts t (v ∷ vs) ≡ v ∷ mark_deleted ts t vs
  unfolding mark_deleted
  mark-dead ts t d v vs e = ground arith

  -- one version more, as a rollback of `t` leaves it
  abbrev join : ℕ → NodeVersion D → List (NodeVersion D) → List (NodeVersion D)
  join t w rest = if not (w.txn_id == t) then w ∷ rest else rest

  survivors-mark :
      (ts t clock next : ℕ) (vs : List (NodeVersion D))
      → All (Fits clock next) vs
      → survivors t (mark_deleted ts t vs) ≡ survivors t vs
  unfolding survivors
  survivors-mark ts t clock next [] h = unfold mark_deleted in refl
  survivors-mark ts t clock next (v ∷ vs) h = elim (Option-cases v.deleted_at) [
    | inl e ↦
        let f = deleter_live clock next v.deleted_at v.deleter_txn h.0.deletion e in
        rw (mark-live ts t v vs e) (
          ap (λ w. join t w (survivors t vs))
            (undelete-marked ts t v e f ∙ sym (undelete-other t v (λ by. cc))))
    | inr (d, e) ↦
        rw (mark-dead ts t d v vs e)
          (ap (join t (undelete t v)) (survivors-mark ts t clock next vs h.1))
  ]

  pub survivors-fresh :
      (ts t : ℕ) (d : D) (vs : List (NodeVersion D))
      → survivors t (fresh ts t d ∷ vs) ≡ survivors t vs
  unfolding survivors undelete
  survivors-fresh ts t d vs = rw (==_refl t)

  -- a transaction that has done nothing has nothing to undo
  survivors-untouched :
      (clock t : ℕ) (vs : List (NodeVersion D)) → All (Fits clock t) vs → survivors t vs ≡ vs
  unfolding survivors
  survivors-untouched clock t [] h = refl
  survivors-untouched clock t (v ∷ vs) h =
      let kept = undelete-other t v (deleter_old clock t v.deleted_at v.deleter_txn h.0.deletion) in
      rw (kept, ==_ne v.txn_id t (λ e. absurd (omega (arith, h.0.creator))))
        (ap (◌∷◌ v) (survivors-untouched clock t vs h.1))

  abbrev pub apply_change : ℕ → MvccManager D → Change D → MvccManager D
  apply_change t m (put n d) = write_node m n d t
  apply_change t m (drop n) = delete_node m n t

  abbrev pub apply_changes : ℕ → MvccManager D → List (Change D) → MvccManager D
  apply_changes t m [] = m
  apply_changes t m (c ∷ cs) = apply_changes t (apply_change t m c) cs

  change-survivors :
      (t : ℕ) (m : MvccManager D) (c : Change D) (j : ℕ)
      → IsValid m
      → survivors t (newest_first j (apply_change t m c)) ≡ survivors t (newest_first j m)
  change-survivors t m (put n d) j v = rw newest_first-write (elim (Bool-cases (n == j)) [
    | inl e ↦ rw e (survivors-fresh m.clock t d (newest_first j m))
    | inr e ↦ rw e
  ])
  change-survivors t m (drop n) j v = rw newest_first-delete (elim (Bool-cases (n == j)) [
    | inl e ↦ rw e (survivors-mark m.clock t m.clock m.next_txn_id (newest_first j m) (v.fits j))
    | inr e ↦ rw e
  ])

  -- A running transaction with a known number, in a valid manager.
  record Running (t : ℕ) (m : MvccManager D) : Type 0 where
    valid : IsValid m
    active : Set.contains t m.active_transactions ≡ true
    known : t < m.next_txn_id

  change-Running :
      (t : ℕ) (m : MvccManager D) (c : Change D)
      → m.clock + 1 < u64_mod
      → Running t m
      → Running t (apply_change t m c) × ((apply_change t m c).clock ≡ m.clock + 1)
  change-Running t m (put n d) room r =
      let (c, i, a) = clock-write m n t d room in
      (
        record {
          valid = Step-IsValid (write n t d r.active r.known room) r.valid;
          active = rw a r.active;
          known = rw i r.known;
        },
        c,
      )
  change-Running t m (drop n) room r =
      let (c, i, a) = clock-delete m n t room in
      (
        record {
          valid = Step-IsValid (delete n t r.active r.known room) r.valid;
          active = rw a r.active;
          known = rw i r.known;
        },
        c,
      )

  changes-survivors :
      (t : ℕ) (cs : List (Change D)) (m : MvccManager D) (j : ℕ)
      → m.clock + length cs < u64_mod
      → Running t m
      → survivors t (newest_first j (apply_changes t m cs)) ≡ survivors t (newest_first j m)
  changes-survivors t [] m j room r = refl
  changes-survivors t (c ∷ cs) m j room r =
      let (r', e) = change-Running t m c (omega arith) r in
      changes-survivors t cs (apply_change t m c) j (omega (arith, e)) r'
      ∙ change-survivors t m c j r.valid

  begin-Running :
      (m : MvccManager D)
      → IsValid m
      → m.next_txn_id + 1 < u64_mod
      → Running m.next_txn_id (begin_transaction m).1
        × ((n : ℕ) → newest_first n (begin_transaction m).1 ≡ newest_first n m)
        × ((begin_transaction m).1.clock ≡ m.clock)
  unfolding begin_transaction newest_first
  begin-Running m v room = (
    record {
      valid = unfold begin_transaction in Step-IsValid (begin room) v;
      active = rw (contains-insert, ==_refl m.next_txn_id);
      known = rw (step_counter m.next_txn_id room) (omega arith);
    },
    λ n. refl,
    refl,
  )

  -- Rollback. A transaction begins in a valid manager, writes and deletes any nodes in any order,
  -- and is rolled back: then every snapshot reads of every node what it would have read had the
  -- transaction never begun. (The two 64-bit counters are taken not to wrap round on the way.)
  pub rollback_restores :
      (m : MvccManager D) (cs : List (Change D)) (n : ℕ) (s : MvccSnapshot)
      → IsValid m
      → m.next_txn_id + 1 < u64_mod
      → m.clock + length cs < u64_mod
      → read_node
          (rollback (apply_changes m.next_txn_id (begin_transaction m).1 cs) m.next_txn_id)
          n
          s
        ≡ read_node m n s
  rollback_restores m cs n s v ids room =
      let t = m.next_txn_id in
      let (r, same, c) = begin-Running m v ids in
      rw (read-newest_first, newest_first-rollback, read-newest_first)
        (ap (seen s) (
          changes-survivors t cs (begin_transaction m).1 n (omega (arith, c)) r
          ∙ ap (survivors t) (same n)
          ∙ survivors-untouched m.clock t (newest_first n m) (v.fits n)))
