-- ===== src/Mvcc/Seen.antt =====
-- What a snapshot of mvcc.rs sees of a chain after a deletion mark or a rollback.
use maharit_db.Base.{
  ℕ, ◌<◌, true, false, not, Option, some, List, [], ◌∷◌, map, ◌≡◌, refl, sym, ◌∙◌, ap, ◌⊎◌, find,
  arith, inl, inr, Bool-cases, Option-cases, All, All-retain, All-map,
}
use maharit_db.Base.Eq.{◌==◌, nat_eq, eq_of_==}
use maharit_db.Base.Set
use maharit_db.Base.Set.{contains-insert, contains-remove}
use maharit_db.Mvcc.{
  MvccManager, NodeVersion, MvccSnapshot, begin_snapshot, mark_deleted, undelete, deleted_by,
  is_visible, deletion_hidden, read_node, map_data,
}
use maharit_db.Mvcc.Chain.{newest_first, survivors, read-newest_first}

-- A version over which no running transaction can change what the snapshot sees.
pub record Settled {D : Type 0} (s : MvccSnapshot) (active : List ℕ) (v : NodeVersion D)
    : Type 0 where
  pub creator :
      Set.contains v.txn_id active ≡ true
      → (Set.contains v.txn_id s.active_txns ≡ true) ⊎ (s.snapshot_id < v.created_at)
  pub deleter :
      (t : ℕ)
      → v.deleter_txn ≡ some t
      → Set.contains t active ≡ true
      → deletion_hidden s v.deleted_at v.deleter_txn ≡ true

module _ {D : Type 0} where
  -- what the snapshot reads of a chain
  abbrev pub seen : MvccSnapshot → List (NodeVersion D) → Option D
  seen s vs = map_data (find (is_visible s) vs)

  pub seen-mark :
      (s : MvccSnapshot) (ts t : ℕ) (vs : List (NodeVersion D))
      → s.snapshot_id < ts
      → seen s (mark_deleted ts t vs) ≡ seen s vs
  unfolding mark_deleted
  seen-mark s ts t [] h = refl
  seen-mark s ts t (v ∷ vs) h = elim (Option-cases v.deleted_at) [
    | inl e ↦ rw (e, mark_deleted) (unfold is_visible in ground arith)
    | inr (d, e) ↦ rw (e, mark_deleted) (ground (arith, seen-mark s ts t vs h))
  ]

  pub Settled-mono :
      (s : MvccSnapshot) (active after : List ℕ)
      → ((u : ℕ) → Set.contains u after ≡ true → Set.contains u active ≡ true)
      → (v : NodeVersion D) → Settled s active v
      → Settled s after v
  Settled-mono s active after sub v h = record {
    creator = λ c. h.creator (sub v.txn_id c);
    deleter = λ u e c. h.deleter u e (sub u c);
  }

  module _ (s : MvccSnapshot) (active : List ℕ) (t : ℕ)
      (running : Set.contains t active ≡ true) where
    undelete-seen :
        (v : NodeVersion D) → Settled s active v → is_visible s (undelete t v) ≡ is_visible s v
    unfolding undelete is_visible
    undelete-seen v h = elim (Option-cases v.deleter_txn) [
      | inl e ↦ ground arith
      | inr (u, e) ↦ elim (Bool-cases (u == t)) [
        | inl same ↦
            let hidden = h.deleter u e (rw (eq_of_== u t same) running) in ground (arith, hidden)
        | inr other ↦ ground arith
      ]
    ]

    undelete_fields :
        (v : NodeVersion D)
        → ((undelete t v).txn_id ≡ v.txn_id)
          × ((undelete t v).node_data ≡ v.node_data)
          × ((undelete t v).created_at ≡ v.created_at)
    unfolding undelete
    undelete_fields v = ground arith

    -- no version of a running transaction is visible
    creator-unseen :
        (v : NodeVersion D) → Settled s active v → v.txn_id ≡ t → is_visible s v ≡ false
    unfolding is_visible
    creator-unseen v h e = elim (h.creator (rw e running)) [
      | inl hid ↦ ground arith
      | inr later ↦ ground arith
    ]

    pub seen-survivors :
        (vs : List (NodeVersion D))
        → All (Settled s active) vs
        → seen s (survivors t vs) ≡ seen s vs
    unfolding survivors
    seen-survivors [] h = refl
    seen-survivors (v ∷ vs) h = elim (Bool-cases ((undelete t v).txn_id == t)) [
      | inl e ↦
          rw (e, creator-unseen v h.0 (sym (undelete_fields v).0 ∙ eq_of_== _ t e))
            (seen-survivors vs h.1)
      | inr e ↦
          rw (e, undelete-seen v h.0)
            (elim (Bool-cases (is_visible s v)) [
              | inl vis ↦ rw vis (ap some (undelete_fields v).1)
              | inr hid ↦ rw hid (seen-survivors vs h.1)
            ])
    ]

    module _ (after : List ℕ)
        (sub : (u : ℕ) → Set.contains u after ≡ true → Set.contains u active ≡ true) where
      undelete-Settled : (v : NodeVersion D) → Settled s active v → Settled s after (undelete t v)
      unfolding undelete
      undelete-Settled v h = elim (Bool-cases (deleted_by t v)) [
        | inl e ↦
            rw e (record { creator = λ c. h.creator (sub v.txn_id c); deleter = λ u none_eq c. cc })
        | inr e ↦ rw e (Settled-mono s active after sub v h)
      ]

      pub survivors-Settled :
          (vs : List (NodeVersion D))
          → All (Settled s active) vs
          → All (Settled s after) (survivors t vs)
      unfolding survivors
      survivors-Settled vs h =
          All-retain (Settled s after) (λ v. not (v.txn_id == t)) (map (undelete t) vs)
            (All-map (Settled s active) (Settled s after) (undelete t) undelete-Settled vs h)

  abbrev pub now : MvccManager D → MvccSnapshot
  now m = record { snapshot_id = m.clock; active_txns = m.active_transactions }

  -- what a snapshot that is taken now reads
  abbrev pub read_now : MvccManager D → ℕ → Option D
  read_now m n = read_node (begin_snapshot m).1 n (begin_snapshot m).0

  pub read_now-seen : (m : MvccManager D) (n : ℕ) → read_now m n ≡ seen (now m) (newest_first n m)
  unfolding begin_snapshot newest_first
  read_now-seen m n = read-newest_first (begin_snapshot m).1 n (begin_snapshot m).0
