-- ===== src/Cluster/Balance.antt =====
-- shard.rs: what the plan of `rebalance_plan` gives to each shard and takes from it.
use maharit_db.Base.{
  ℕ, ◌+◌, ◌-◌, ◌*◌, ◌≤◌, Option, none, some, List, [], ◌∷◌, ◌≡◌, refl, arith, inl, inr, Bool-cases,
  if◌then◌else◌, ltb-false, ◌∙◌, map, retain, length,
}
use maharit_db.Base.Eq.{◌==◌, nat_eq}
use maharit_db.Cluster.{ShardMap, ShardInfo, active_shards, get_shard, is_active}
use maharit_db.Cluster.Shards.{Keyed}
use maharit_db.Cluster.Rebalance.{
  Load, pair_loads, over_loads, under_loads, insert_load, sort_loads, total_nodes, ideal_count,
  rebalance_plan,
}
use maharit_db.Base.Map
use native.Mathlib.Nat.{div-mul-le_self, mul_comm}
use maharit_db.Cluster.Pairing.{
  total, load_of, moves_from, moves_to, pair_loads-from, pair_loads-to,
}

-- Spread evenly, the excesses are enough for the deficits.
balance :
    (ideal : ℕ) (ss : List ShardInfo)
    → total (over_loads ideal ss) + length ss * ideal
      ≡ total_nodes ss + total (under_loads ideal ss)
unfolding over_loads under_loads
balance ideal [] = omega arith
balance ideal (s ∷ ss) = ground (arith, balance ideal ss)

load_of-insert :
    (k : ℕ) (l : Load) (ls : List Load)
    → load_of k (insert_load l ls) ≡ (if l.0 == k then l.1 else 0) + load_of k ls
unfolding insert_load
load_of-insert k l [] = refl
load_of-insert k l (x ∷ ls) = ground (arith, load_of-insert k l ls)

load_of-sort : (k : ℕ) (ls : List Load) → load_of k (sort_loads ls) ≡ load_of k ls
unfolding sort_loads
load_of-sort k [] = refl
load_of-sort k (l ∷ ls) = rw load_of-insert (omega (arith, load_of-sort k ls))

total-insert : (l : Load) (ls : List Load) → total (insert_load l ls) ≡ l.1 + total ls
unfolding insert_load
total-insert l [] = refl
total-insert l (x ∷ ls) = ground (arith, total-insert l ls)

total-sort : (ls : List Load) → total (sort_loads ls) ≡ total ls
unfolding sort_loads
total-sort [] = refl
total-sort (l ∷ ls) = rw total-insert (omega (arith, total-sort ls))

-- how far a shard lies above and below the ideal, if it is registered and active
abbrev pub excess_at : ℕ → Option ShardInfo → ℕ
excess_at ideal none = 0
excess_at ideal (some s) = if is_active s then s.node_count - ideal else 0

abbrev pub deficit_at : ℕ → Option ShardInfo → ℕ
deficit_at ideal none = 0
deficit_at ideal (some s) = if is_active s then ideal - s.node_count else 0

over-at :
    (ideal k : ℕ) (m : ShardMap)
    → Keyed m
    → load_of k (over_loads ideal (retain is_active (map (λ e. e.1) m)))
      ≡ excess_at ideal (Map.lookup k m)
unfolding over_loads Map.lookup
over-at ideal k [] h = refl
over-at ideal k ((j, s) ∷ m) (same, once, h) =
    let rest = over-at ideal k m h in
    elim (Bool-cases (is_active s)) [
      | inl a ↦ rw a (ground (arith, rest, same, once))
      | inr a ↦ rw a (ground (arith, rest, same, once))
    ]

under-at :
    (ideal k : ℕ) (m : ShardMap)
    → Keyed m
    → load_of k (under_loads ideal (retain is_active (map (λ e. e.1) m)))
      ≡ deficit_at ideal (Map.lookup k m)
unfolding under_loads Map.lookup
under-at ideal k [] h = refl
under-at ideal k ((j, s) ∷ m) (same, once, h) =
    let rest = under-at ideal k m h in
    elim (Bool-cases (is_active s)) [
      | inl a ↦ rw a (ground (arith, rest, same, once))
      | inr a ↦ rw a (ground (arith, rest, same, once))
    ]

abbrev over_of : ShardMap → List Load
over_of m = sort_loads (over_loads (ideal_count m) (active_shards m))

abbrev under_of : ShardMap → List Load
under_of m = sort_loads (under_loads (ideal_count m) (active_shards m))

planned :
    (m : ShardMap)
    → 2 ≤ length (active_shards m)
    → rebalance_plan m
      ≡ pair_loads (length (over_of m) + length (under_of m)) (over_of m) (under_of m) 0
unfolding rebalance_plan
planned m two = rw (ltb-false (length (active_shards m)) 2 two)

-- the excesses are enough
covered : (m : ShardMap) → total (under_of m) ≤ total (over_of m)
covered m =
    let ideal = ideal_count m in
    let shards = active_shards m in
    omega (
      arith,
      total-sort (over_loads ideal shards),
      total-sort (under_loads ideal shards),
      balance ideal shards,
      div-mul-le_self (total_nodes shards) (length shards),
      mul_comm (length shards) ideal,
    )

over_of-at :
    (m : ShardMap) (k : ℕ)
    → Keyed m
    → load_of k (over_of m) ≡ excess_at (ideal_count m) (get_shard m k)
unfolding active_shards get_shard
over_of-at m k h =
    load_of-sort k (over_loads (ideal_count m) (active_shards m)) ∙ over-at (ideal_count m) k m h

under_of-at :
    (m : ShardMap) (k : ℕ)
    → Keyed m
    → load_of k (under_of m) ≡ deficit_at (ideal_count m) (get_shard m k)
unfolding active_shards get_shard
under_of-at m k h =
    load_of-sort k (under_loads (ideal_count m) (active_shards m)) ∙ under-at (ideal_count m) k m h

-- With two or more active shards, each registered under its own number, the plan takes from no
-- shard more than its nodes above the ideal count, and gives each active shard exactly the nodes
-- that it has below it; shards that are not active give and get none.
pub rebalance_plan-fills :
    (m : ShardMap) (k : ℕ)
    → Keyed m
    → 2 ≤ length (active_shards m)
    → (moves_from k (rebalance_plan m) ≤ excess_at (ideal_count m) (get_shard m k))
      × (moves_to k (rebalance_plan m) ≡ deficit_at (ideal_count m) (get_shard m k))
rebalance_plan-fills m k keyed two =
    let fuel = length (over_of m) + length (under_of m) in
    rw (planned m two) (
      rw (← over_of-at m k keyed) (pair_loads-from k fuel (over_of m) (under_of m) 0),
      pair_loads-to k fuel (over_of m) (under_of m) 0 (omega arith) (covered m)
          ∙ under_of-at m k keyed,
    )
