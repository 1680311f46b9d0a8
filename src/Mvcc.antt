-- ===== src/Mvcc.antt =====
-- crates/maharit-storage/src/mvcc.rs: version chains, snapshots and the manager. The payload of a
-- version is never inspected by the manager and is the type parameter `D`. The counters are
-- `AtomicU64`, whose `fetch_add` wraps. A method on `&mut self` returns the new manager.
mod Chain
pub mod Gc
pub mod Invariant
mod Marks
mod Steps
mod Seen
mod Isolated
mod Unmoved
pub mod Reads
pub mod Committed
pub mod Sound
pub mod Isolation
pub mod Rollback
mod Tests
use maharit_db.Base.{
  ℕ, ◌+◌, ◌%◌, ◌^◌, Bool, true, false, not, ◌||◌, Option, none, some, List, [], ◌∷◌, ◌++◌, map,
  reverse, if◌then◌else◌, ltb, find, retain,
}
use maharit_db.Base.Eq.{◌==◌, nat_eq}
use maharit_db.Base.Map
use maharit_db.Base.Map.{Map}
use maharit_db.Base.Set

abbrev pub u64_mod : ℕ
u64_mod = 2 ^ 64

pub record NodeVersion (D : Type 0) : Type 0 where
  pub txn_id : ℕ
  pub created_at : ℕ
  pub deleted_at : Option ℕ
  pub deleter_txn : Option ℕ
  pub node_data : D

pub record VersionedNode (D : Type 0) : Type 0 where
  pub node_id : ℕ
  pub versions : List (NodeVersion D)

pub record MvccSnapshot : Type 0 where
  pub snapshot_id : ℕ
  pub active_txns : List ℕ

pub record MvccManager (D : Type 0) : Type 0 where
  pub versioned_nodes : Map ℕ (VersionedNode D)
  pub clock : ℕ
  pub active_transactions : List ℕ
  pub next_txn_id : ℕ

-- Rule 3 of `is_visible`, by the two optional fields.
pub deletion_hidden : MvccSnapshot → Option ℕ → Option ℕ → Bool
deletion_hidden s none deleter = true
deletion_hidden s (some del_ts) (some deleter) =
    Set.contains deleter s.active_txns || ltb s.snapshot_id del_ts
deletion_hidden s (some del_ts) none = ltb s.snapshot_id del_ts

module _ {D : Type 0} where
  pub is_visible : MvccSnapshot → NodeVersion D → Bool
  unfolding deletion_hidden
  is_visible s version =
      if ltb s.snapshot_id version.created_at
      then false
      else if Set.contains version.txn_id s.active_txns
      then false
      else deletion_hidden s version.deleted_at version.deleter_txn

  -- `MvccManager::new`
  unfoldable pub init : MvccManager D
  init = record { versioned_nodes = []; clock = 1; active_transactions = []; next_txn_id = 1 }

  -- `clock.fetch_add(1)`: the old value, and the clock advanced
  unfoldable pub tick : MvccManager D → ℕ × MvccManager D
  tick m = (m.clock, record m { clock = (m.clock + 1) % u64_mod })

  unfoldable pub begin_transaction : MvccManager D → ℕ × MvccManager D
  begin_transaction m =
      let txn_id = m.next_txn_id in
      (
        txn_id,
        record m {
          next_txn_id = (m.next_txn_id + 1) % u64_mod;
          active_transactions = Set.insert txn_id m.active_transactions;
        },
      )

  unfoldable pub begin_snapshot : MvccManager D → MvccSnapshot × MvccManager D
  unfolding tick
  begin_snapshot m =
      let active = m.active_transactions in
      let (snapshot_id, m') = tick m in
      (record { snapshot_id = snapshot_id; active_txns = active }, m')

  abbrev pub map_data : Option (NodeVersion D) → Option D
  map_data none = none
  map_data (some v) = some v.node_data

  unfoldable pub read_node : MvccManager D → ℕ → MvccSnapshot → Option D
  read_node m node_id snapshot = elim (Map.lookup node_id m.versioned_nodes) [
    | none ↦ none
    | some versioned ↦ map_data (find (is_visible snapshot) (reverse versioned.versions))
  ]

  -- `entry(node_id).or_insert_with(..).versions.push(version)`
  pushed : ℕ → NodeVersion D → Option (VersionedNode D) → VersionedNode D
  pushed node_id version none = record { node_id = node_id; versions = version ∷ [] }
  pushed node_id version (some vn) = record vn { versions = vn.versions ++ version ∷ [] }

  unfoldable pub write_node : MvccManager D → ℕ → D → ℕ → MvccManager D
  unfolding tick pushed
  write_node m node_id d txn_id =
      let (ts, m') = tick m in
      let version : NodeVersion D = record {
        txn_id = txn_id;
        created_at = ts;
        deleted_at = none;
        deleter_txn = none;
        node_data = d;
      } in
      record m' {
        versioned_nodes =
            Map.insert node_id (pushed node_id version (Map.lookup node_id m'.versioned_nodes))
              m'.versioned_nodes;
      }

  -- `find(|v| v.deleted_at.is_none())` on the versions from the newest, and the two writes
  pub mark_deleted : ℕ → ℕ → List (NodeVersion D) → List (NodeVersion D)
  mark_deleted ts txn_id [] = []
  mark_deleted ts txn_id (v ∷ rest) = elim v.deleted_at [
    | none ↦ record v { deleted_at = some ts; deleter_txn = some txn_id } ∷ rest
    | some _ ↦ v ∷ mark_deleted ts txn_id rest
  ]

  deleted : ℕ → ℕ → VersionedNode D → VersionedNode D
  unfolding mark_deleted
  deleted ts txn_id vn = record vn {
    versions = reverse (mark_deleted ts txn_id (reverse vn.versions));
  }

  unfoldable pub delete_node : MvccManager D → ℕ → ℕ → MvccManager D
  unfolding tick deleted
  delete_node m node_id txn_id =
      let (ts, m') = tick m in
      elim (Map.lookup node_id m'.versioned_nodes) [
        | none ↦ m'
        | some versioned ↦ record m' {
          versioned_nodes = Map.insert node_id (deleted ts txn_id versioned) m'.versioned_nodes;
        }
      ]

  unfoldable pub commit : MvccManager D → ℕ → MvccManager D
  commit m txn_id = record m { active_transactions = Set.remove txn_id m.active_transactions }

  -- `v.deleter_txn == Some(txn_id)`
  pub deleted_by : ℕ → NodeVersion D → Bool
  deleted_by txn_id v = elim v.deleter_txn [ none ↦ false | some t ↦ t == txn_id ]

  pub undelete : ℕ → NodeVersion D → NodeVersion D
  unfolding deleted_by
  undelete txn_id v =
      if deleted_by txn_id v then record v { deleted_at = none; deleter_txn = none } else v

  rolled_back : ℕ → VersionedNode D → VersionedNode D
  unfolding undelete
  rolled_back txn_id vn = record vn {
    versions = retain (λ v. not (v.txn_id == txn_id)) (map (undelete txn_id) vn.versions);
  }

  unfoldable pub rollback : MvccManager D → ℕ → MvccManager D
  unfolding rolled_back
  rollback m txn_id = record m {
    versioned_nodes = Map.map_values (rolled_back txn_id) m.versioned_nodes;
    active_transactions = Set.remove txn_id m.active_transactions;
  }
