-- ===== src/Mvcc/Marks.antt =====
-- What a deletion mark and a rollback keep of a chain of mvcc.rs.
use maharit_db.Base.{
  ℕ, ◌+◌, ◌<◌, ◌≤◌, not, Option, none, some, List, [], ◌∷◌, map, ◌≡◌, arith, inl, inr, Bool-cases,
  Option-cases, All, All-retain, All_mono, All-map,
}
use maharit_db.Base.Eq.{◌==◌, nat_eq}
use maharit_db.Mvcc.{NodeVersion, mark_deleted, undelete, deleted_by}
use maharit_db.Mvcc.Chain.{survivors}
use maharit_db.Mvcc.Invariant.{DeletionFits, Fits, IsDescending}

DeletionFits-mono :
    (c n c' n' : ℕ) (o p : Option ℕ)
    → c ≤ c'
    → n ≤ n'
    → DeletionFits c n o p
    → DeletionFits c' n' o p
DeletionFits-mono c n c' n' none none h k x = tt
DeletionFits-mono c n c' n' none (some t) h k x = x
DeletionFits-mono c n c' n' (some d) none h k x = x
DeletionFits-mono c n c' n' (some d) (some t) h k x = omega arith

module _ {D : Type 0} where
  abbrev pub marked : ℕ → ℕ → NodeVersion D → NodeVersion D
  marked ts t v = record v { deleted_at = some ts; deleter_txn = some t }

  pub All-mark :
      (P Q : NodeVersion D → Type 0) (ts t : ℕ) (vs : List (NodeVersion D))
      → ((v : NodeVersion D) → P v → Q v)
      → ((v : NodeVersion D) → v.deleted_at ≡ none → P v → Q (marked ts t v))
      → All P vs
      → All Q (mark_deleted ts t vs)
  unfolding mark_deleted
  All-mark P Q ts t [] f g h = tt
  All-mark P Q ts t (v ∷ vs) f g h = elim (Option-cases v.deleted_at) [
    | inl e ↦ rw (e, mark_deleted) (g v e h.0, All_mono P Q f vs h.1)
    | inr (d, e) ↦ rw (e, mark_deleted) (f v h.0, All-mark P Q ts t vs f g h.1)
  ]

  abbrev Before : NodeVersion D → NodeVersion D → Type 0
  Before v w = w.created_at < v.created_at

  pub IsDescending-mark :
      (ts t : ℕ) (vs : List (NodeVersion D)) → IsDescending vs → IsDescending (mark_deleted ts t vs)
  unfolding mark_deleted
  IsDescending-mark ts t [] h = tt
  IsDescending-mark ts t (v ∷ vs) h = elim (Option-cases v.deleted_at) [
    | inl e ↦ rw (e, mark_deleted) h
    | inr (d, e) ↦
        rw (e, mark_deleted)
          (
            All-mark (Before v) (Before v) ts t vs (λ w x. x) (λ w _ x. x) h.0,
            IsDescending-mark ts t vs h.1,
          )
  ]

  undelete-created : (t : ℕ) (v : NodeVersion D) → (undelete t v).created_at ≡ v.created_at
  unfolding undelete
  undelete-created t v = ground arith

  undelete-Fits : (t c n : ℕ) (v : NodeVersion D) → Fits c n v → Fits c n (undelete t v)
  unfolding undelete
  undelete-Fits t c n v h = elim (Bool-cases (deleted_by t v)) [
    | inl e ↦ rw e (record { created = h.created; creator = h.creator; deletion = tt })
    | inr e ↦ rw e h
  ]

  pub survivors-Fits :
      (t c n : ℕ) (vs : List (NodeVersion D)) → All (Fits c n) vs → All (Fits c n) (survivors t vs)
  unfolding survivors
  survivors-Fits t c n vs h =
      All-retain (Fits c n) (λ v. not (v.txn_id == t)) (map (undelete t) vs)
        (All-map (Fits c n) (Fits c n) (undelete t) (undelete-Fits t c n) vs h)

  pub IsDescending-survivors :
      (t : ℕ) (vs : List (NodeVersion D)) → IsDescending vs → IsDescending (survivors t vs)
  unfolding survivors
  IsDescending-survivors t [] h = tt
  IsDescending-survivors t (v ∷ vs) h = elim (Bool-cases (not ((undelete t v).txn_id == t))) [
    | inl e ↦ rw e (
      All-retain (Before (undelete t v)) (λ w. not (w.txn_id == t)) (map (undelete t) vs)
          (All-map (Before v) (Before (undelete t v)) (undelete t)
            (λ w x. rw (undelete-created t w, undelete-created t v) x) vs h.0),
      IsDescending-survivors t vs h.1,
    )
    | inr e ↦ rw e (IsDescending-survivors t vs h.1)
  ]

  pub Fits-mono :
      (c n c' n' : ℕ) → c ≤ c' → n ≤ n' → (v : NodeVersion D) → Fits c n v → Fits c' n' v
  Fits-mono c n c' n' h k v x = record {
    created = omega arith;
    creator = omega arith;
    deletion = DeletionFits-mono c n c' n' v.deleted_at v.deleter_txn h k x.deletion;
  }

  Fits-marked : (c n t : ℕ) (v : NodeVersion D) → t < n → Fits c n v → Fits (c + 1) n (marked c t v)
  Fits-marked c n t v h x = omega arith

  pub Fits-mark :
      (c n t : ℕ) (vs : List (NodeVersion D))
      → t < n
      → All (Fits c n) vs
      → All (Fits (c + 1) n) (mark_deleted c t vs)
  Fits-mark c n t vs h x =
      All-mark (Fits c n) (Fits (c + 1) n) c t vs
        (Fits-mono c n (c + 1) n (omega arith) (omega arith)) (λ v _ y. Fits-marked c n t v h y) x
