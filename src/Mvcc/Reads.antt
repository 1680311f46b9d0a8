-- ===== src/Mvcc/Reads.antt =====
-- What a new snapshot of mvcc.rs sees of running and finished transactions.
use maharit_db.Base.{
  ℕ, ◌+◌, ◌<◌, ◌≤◌, true, false, Option, none, some, List, [], ◌∷◌, ◌≡◌, refl, sym, ◌∙◌, arith, inl,
  inr, Bool-cases, Option-cases, All, ltb-false,
}
use maharit_db.Base.Eq.{◌==◌, nat_eq}
use maharit_db.Base.Set
use maharit_db.Base.Set.{contains-insert, contains-remove, not-contains-remove}
use maharit_db.Mvcc.{
  MvccManager, NodeVersion, MvccSnapshot, u64_mod, write_node, delete_node, mark_deleted,
  is_visible, deletion_hidden,
}
use maharit_db.Mvcc.Chain.{newest_first, newest_first-write, newest_first-delete, fresh}
use maharit_db.Mvcc.Invariant.{DeletionFits, Fits, IsValid}
use maharit_db.Mvcc.Steps.{clock-write, clock-delete}
use maharit_db.Mvcc.Seen.{seen, now, read_now, read_now-seen}

later-deletion :
    (s : MvccSnapshot) (next later : ℕ) (o p : Option ℕ)
    → DeletionFits s.snapshot_id next o p
    → s.snapshot_id ≤ later
    → deletion_hidden (record s { snapshot_id = later }) o p ≡ deletion_hidden s o p
unfolding deletion_hidden
later-deletion s next later none p h le = refl
later-deletion s next later (some d) none h le = elim h [ ]
later-deletion s next later (some d) (some t) h le =
    rw (ltb-false s.snapshot_id d (omega arith), ltb-false later d (omega arith))

module _ {D : Type 0} where
  pub committed-visible :
      (s : MvccSnapshot) (ts t : ℕ) (d : D)
      → ts < s.snapshot_id
      → Set.contains t s.active_txns ≡ false
      → is_visible s (fresh ts t d) ≡ true
  unfolding is_visible deletion_hidden
  committed-visible s ts t d h k = ground arith

  fresh-unseen :
      (s : MvccSnapshot) (ts t : ℕ) (d : D)
      → Set.contains t s.active_txns ≡ true
      → is_visible s (fresh ts t d) ≡ false
  unfolding is_visible
  fresh-unseen s ts t d h = ground arith

  -- the running deleter hides its own mark
  mark-unseen :
      (s : MvccSnapshot) (ts t : ℕ) (vs : List (NodeVersion D))
      → Set.contains t s.active_txns ≡ true
      → seen s (mark_deleted ts t vs) ≡ seen s vs
  unfolding mark_deleted
  mark-unseen s ts t [] h = refl
  mark-unseen s ts t (v ∷ vs) h = elim (Option-cases v.deleted_at) [
    | inl e ↦ rw (e, mark_deleted) (unfold is_visible in ground arith)
    | inr (d, e) ↦ rw (e, mark_deleted) (ground (arith, mark-unseen s ts t vs h))
  ]

  later-visible :
      (s : MvccSnapshot) (next later : ℕ) (v : NodeVersion D)
      → Fits s.snapshot_id next v
      → s.snapshot_id ≤ later
      → is_visible (record s { snapshot_id = later }) v ≡ is_visible s v
  unfolding is_visible
  later-visible s next later v h le = rw (
    later-deletion s next later v.deleted_at v.deleter_txn h.deletion le,
    ltb-false s.snapshot_id v.created_at (omega arith),
    ltb-false later v.created_at (omega arith),
  )

  -- the same chain, seen by the snapshot of a later clock
  later-seen :
      (s : MvccSnapshot) (next later : ℕ) (vs : List (NodeVersion D))
      → All (Fits s.snapshot_id next) vs
      → s.snapshot_id ≤ later
      → seen (record s { snapshot_id = later }) vs ≡ seen s vs
  later-seen s next later [] h le = refl
  later-seen s next later (v ∷ vs) h le =
      rw (later-visible s next later v h.0 le) (elim (Bool-cases (is_visible s v)) [
        | inl vis ↦ rw vis
        | inr hid ↦ rw hid (later-seen s next later vs h.1 le)
      ])

  abbrev later_now : MvccManager D → MvccSnapshot
  later_now m = record { snapshot_id = m.clock + 1; active_txns = m.active_transactions }

  later_now-seen :
      (m : MvccManager D) (j : ℕ) → IsValid m → seen (later_now m) (newest_first j m) ≡ read_now m j
  later_now-seen m j v =
      later-seen (now m) m.next_txn_id (m.clock + 1) (newest_first j m) (v.fits j) (omega arith)
      ∙ sym (read_now-seen m j)

  -- No dirty read. In a valid manager whose clock has room for one more stamp, neither a write
  -- nor a deletion by a running transaction changes what a snapshot that is taken next reads of
  -- any node.
  pub running_unseen :
      (m : MvccManager D) (n t : ℕ) (d : D) (j : ℕ)
      → IsValid m
      → Set.contains t m.active_transactions ≡ true
      → m.clock + 1 < u64_mod
      → (read_now (write_node m n d t) j ≡ read_now m j)
        × (read_now (delete_node m n t) j ≡ read_now m j)
  running_unseen m n t d j v running room = (after_write, after_delete)
    where
      after_write : read_now (write_node m n d t) j ≡ read_now m j
      after_write =
          let (c, _, a) = clock-write m n t d room in
          rw (read_now-seen, newest_first-write, c, a)
            (elim (Bool-cases (n == j)) [
              | inl e ↦
                  rw (e, fresh-unseen (later_now m) m.clock t d running) (later_now-seen m j v)
              | inr e ↦ rw e (later_now-seen m j v)
            ])

      after_delete : read_now (delete_node m n t) j ≡ read_now m j
      after_delete =
          let (c, _, a) = clock-delete m n t room in
          rw (read_now-seen, newest_first-delete, c, a)
            (elim (Bool-cases (n == j)) [
              | inl e ↦
                  rw (e, mark-unseen (later_now m) m.clock t (newest_first j m) running)
                    (later_now-seen m j v)
              | inr e ↦ rw e (later_now-seen m j v)
            ])
