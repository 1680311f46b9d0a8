-- ===== src/Cluster/Tests.antt =====
-- The theorems on shards and routing at a cluster of two shards.
use maharit_db.Base.{
  ◌≤◌, length, ℕ, zero, suc, ◌<◌, true, false, List, [], ◌∷◌, ◌≡◌, ◌≢◌, refl, arith,
}
use maharit_db.Base.Eq.{nat_eq, string_eq}
use maharit_db.Base.Map
use maharit_db.Base.Map.{Map}
use maharit_db.Base.Set
use maharit_db.Cluster.{
  active_shards, ShardInfo, ShardMap, RangeEntry, active, get_shard, add_shard, remove_shard,
  hash_sharding, label_sharding, range_sharding, route_all, route_node_query, route_label_query,
  is_active,
}
use maharit_db.Cluster.Shards.{
  Keyed, Added, Removed, active_at, add_shard-Added, remove_shard-Removed, route_all-active,
}
use maharit_db.Cluster.Rebalance.{
  rebalance_plan, ideal_count, over_loads, under_loads, sort_loads, insert_load, pair_loads,
  push_moves,
}
use maharit_db.Cluster.Pairing.{moves_from, moves_to}
use maharit_db.Cluster.Balance.{excess_at, deficit_at, rebalance_plan-fills}
use maharit_db.Cluster.Routing.{Visits, hash-Visits, label-Visits, range_missed}

abbrev shard : ℕ → ShardInfo
shard n = record { id = n; address = "localhost:7000"; status = active; node_count = 10 }

abbrev two : ShardMap
two = (0, shard 0) ∷ (1, shard 1) ∷ []

two-Keyed : Keyed two
unfolding Map.lookup
two-Keyed = (refl, refl, (refl, refl, tt))

two-active : (k : ℕ) → k < 2 → active_at (get_shard two k) ≡ true
unfolding get_shard Map.lookup is_active
two-active zero h = refl
two-active (suc zero) h = refl
two-active (suc (suc k)) h = absurd (omega arith)

add_shard-Added_example :
    Added two (shard 2) (add_shard two (shard 2)).0 (add_shard two (shard 2)).1
add_shard-Added_example = add_shard-Added two (shard 2) two-Keyed

remove_shard-Removed_example : Removed two 1 (remove_shard two 1).0 (remove_shard two 1).1
remove_shard-Removed_example = remove_shard-Removed two 1 two-Keyed

route_all-active_example : Set.contains 1 (route_all two) ≡ active_at (get_shard two 1)
route_all-active_example = route_all-active two 1 two-Keyed

hash-Visits_example : Visits two (hash_sharding 2) "Person" 7
hash-Visits_example = hash-Visits two 2 "Person" 7 (omega arith) (omega arith) two-Keyed two-active

label-Visits_example : Visits two (label_sharding (("Person", 1) ∷ []) 0) "Person" 7
label-Visits_example = label-Visits two (("Person", 1) ∷ []) 0 "Person" 7

-- nodes up to 99 on shard 0, the others on shard 1
abbrev ranges : List RangeEntry
ranges = record { min_id = 0; max_id = 99; shard_id = 0 } ∷ []

ends_alike :
    (range_sharding ranges 1).shard_for_node 0 "Person"
    ≡ (range_sharding ranges 1).shard_for_node 1 "Person"
unfolding range_sharding
ends_alike = refl

beyond :
    route_node_query (range_sharding ranges 1) 100 "Person"
    ≢ (range_sharding ranges 1).shard_for_node 0 "Person"
unfolding range_sharding route_node_query
beyond = ground arith

range_missed_example :
    Set.contains
      (route_node_query (range_sharding ranges 1) 100 "Person")
      (route_label_query two (range_sharding ranges 1) "Person")
    ≡ false
range_missed_example = range_missed two ranges 1 "Person" 100 ends_alike beyond

-- ten nodes on shard 0, two on shard 1, one on shard 2: the ideal count is four
abbrev uneven : ShardMap
uneven =
    (0, record (shard 0) { node_count = 10 })
    ∷ (1, record (shard 1) { node_count = 2 })
    ∷ (2, record (shard 2) { node_count = 1 })
    ∷ []

uneven-Keyed : Keyed uneven
unfolding Map.lookup
uneven-Keyed = (refl, refl, (refl, refl, (refl, refl, tt)))

uneven-active : 2 ≤ length (active_shards uneven)
unfolding active_shards is_active
uneven-active = omega arith

rebalance_plan-fills_example :
    (moves_from 1 (rebalance_plan uneven) ≤ excess_at (ideal_count uneven) (get_shard uneven 1))
    × (moves_to 1 (rebalance_plan uneven) ≡ deficit_at (ideal_count uneven) (get_shard uneven 1))
rebalance_plan-fills_example = rebalance_plan-fills uneven 1 uneven-Keyed uneven-active

two_to_shard_1 : moves_to 1 (rebalance_plan uneven) ≡ 2
unfolding rebalance_plan active_shards is_active over_loads under_loads sort_loads insert_load
    pair_loads push_moves
two_to_shard_1 = refl
