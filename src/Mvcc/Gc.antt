-- ===== src/Mvcc/Gc.antt =====
-- `MvccManager::gc` of mvcc.rs.
pub mod Chains
pub mod Collect
pub mod Loss
use maharit_db.Base.{
  ℕ, ◌+◌, ◌-◌, ◌^◌, Bool, true, false, not, ◌||◌, ◌&&◌, Option, none, some, List, [], ◌∷◌,
  if◌then◌else◌, ltb, leb, length,
}
use maharit_db.Base.Eq.{nat_eq}
use maharit_db.Base.Map
use maharit_db.Base.Map.{Map}
use maharit_db.Mvcc.{MvccManager, NodeVersion, VersionedNode, u64_mod}

module _ {D : Type 0} where
  -- `versions.sort_by_key(|v| v.created_at)`, which is stable
  insert_by_stamp : NodeVersion D → List (NodeVersion D) → List (NodeVersion D)
  insert_by_stamp v [] = v ∷ []
  insert_by_stamp v (w ∷ ws) =
      let further = insert_by_stamp v ws in
      if leb v.created_at w.created_at then v ∷ w ∷ ws else w ∷ further

  pub sort_by_stamp : List (NodeVersion D) → List (NodeVersion D)
  unfolding insert_by_stamp
  sort_by_stamp [] = []
  sort_by_stamp (v ∷ vs) = insert_by_stamp v (sort_by_stamp vs)

  pub is_live : NodeVersion D → Bool
  is_live v = elim v.deleted_at [ none ↦ true | some _ ↦ false ]

  -- `versions[i + 1..].iter().any(|nv| nv.deleted_at.is_none() && nv.created_at < watermark)`
  pub has_newer : ℕ → List (NodeVersion D) → Bool
  unfolding is_live
  has_newer watermark [] = false
  has_newer watermark (v ∷ vs) = (is_live v && ltb v.created_at watermark) || has_newer watermark vs

  -- `keep[i]`, from the version and those behind it
  pub keep : ℕ → NodeVersion D → List (NodeVersion D) → Bool
  unfolding has_newer
  keep watermark v newer = elim v.deleted_at [
    | some del_ts ↦ not (ltb del_ts watermark)
    | none ↦ not (has_newer watermark newer)
  ]

  pub kept : ℕ → List (NodeVersion D) → List (NodeVersion D)
  unfolding keep
  kept watermark [] = []
  kept watermark (v ∷ vs) =
      let rest = kept watermark vs in if keep watermark v vs then v ∷ rest else rest

  -- `u64::MAX` if no transaction runs, and else the clock
  unfoldable pub watermark : MvccManager D → ℕ
  watermark m = elim m.active_transactions [ [] ↦ u64_mod - 1 | _ ∷ _ ↦ m.clock ]

  collected : ℕ → VersionedNode D → VersionedNode D
  unfolding kept sort_by_stamp
  collected wm vn = record vn { versions = kept wm (sort_by_stamp vn.versions) }

  is_nonempty : VersionedNode D → Bool
  is_nonempty vn = elim vn.versions [ [] ↦ false | _ ∷ _ ↦ true ]

  -- `removed`, summed over the chains
  count_removed : ℕ → Map ℕ (VersionedNode D) → ℕ
  unfolding collected
  count_removed wm [] = 0
  count_removed wm ((n, vn) ∷ nodes) =
      (length vn.versions - length (collected wm vn).versions) + count_removed wm nodes

  unfoldable pub gc : MvccManager D → MvccManager D × ℕ
  unfolding watermark collected is_nonempty count_removed
  gc m =
      let wm = watermark m in
      (
        record m {
          versioned_nodes =
              Map.retain_values is_nonempty (Map.map_values (collected wm) m.versioned_nodes);
        },
        count_removed wm m.versioned_nodes,
      )
