-- ===== src/Cluster/Rebalance.antt =====
-- shard.rs: `rebalance_plan`.
use maharit_db.Base.{
  ℕ, zero, suc, ◌+◌, ◌-◌, ◌/◌, List, [], ◌∷◌, ◌++◌, if◌then◌else◌, ltb, leb, min, length,
}
use maharit_db.Base.Eq.{nat_eq}
use maharit_db.Cluster.{ShardMap, ShardInfo, active_shards}

pub record ShardMove : Type 0 where
  pub node_id : ℕ
  pub from_shard : ℕ
  pub to_shard : ℕ

-- a shard's number, and by how many nodes it is off
abbrev pub Load : Type 0
Load = ℕ × ℕ

-- `for _ in 0..batch`
unfoldable pub push_moves : ℕ → ℕ → ℕ → ℕ → List ShardMove
push_moves zero node_id from to = []
push_moves (suc batch) node_id from to =
    record { node_id = node_id; from_shard = from; to_shard = to }
    ∷ push_moves batch (node_id + 1) from to

-- what is left of the first load after a batch
abbrev pub rest_of : ℕ → Load → List Load → List Load
rest_of batch (id, cap) loads = if ltb batch cap then (id, cap - batch) ∷ loads else loads

-- the loop that pairs the loads; each round ends one of them, so that their number is fuel enough
unfoldable pub pair_loads : ℕ → List Load → List Load → ℕ → List ShardMove
unfolding push_moves
pair_loads zero over under node_id = []
pair_loads (suc fuel) [] under node_id = []
pair_loads (suc fuel) (o ∷ over) [] node_id = []
pair_loads (suc fuel) (o ∷ over) (u ∷ under) node_id =
    let batch = min o.1 u.1 in
    let later = pair_loads fuel (rest_of batch o over) (rest_of batch u under) (node_id + batch) in
    push_moves batch node_id o.0 u.0 ++ later

-- `filter(|s| s.node_count > ideal)` and its counterpart, with the differences
unfoldable pub over_loads : ℕ → List ShardInfo → List Load
over_loads ideal [] = []
over_loads ideal (s ∷ ss) =
    let rest = over_loads ideal ss in
    if ltb ideal s.node_count then (s.id, s.node_count - ideal) ∷ rest else rest

unfoldable pub under_loads : ℕ → List ShardInfo → List Load
under_loads ideal [] = []
under_loads ideal (s ∷ ss) =
    let rest = under_loads ideal ss in
    if ltb s.node_count ideal then (s.id, ideal - s.node_count) ∷ rest else rest

-- `sort_by_key(|&(id, _)| id)`, which is stable
unfoldable pub insert_load : Load → List Load → List Load
insert_load l [] = l ∷ []
insert_load l (k ∷ ks) =
    let further = insert_load l ks in if leb l.0 k.0 then l ∷ k ∷ ks else k ∷ further

unfoldable pub sort_loads : List Load → List Load
unfolding insert_load
sort_loads [] = []
sort_loads (l ∷ ls) = insert_load l (sort_loads ls)

abbrev pub total_nodes : List ShardInfo → ℕ
total_nodes [] = 0
total_nodes (s ∷ ss) = s.node_count + total_nodes ss

-- the nodes of a shard if they were spread evenly, rounded down
abbrev pub ideal_count : ShardMap → ℕ
ideal_count m = total_nodes (active_shards m) / length (active_shards m)

unfoldable pub rebalance_plan : ShardMap → List ShardMove
unfolding over_loads under_loads sort_loads pair_loads
rebalance_plan m =
    let ideal = ideal_count m in
    let over = sort_loads (over_loads ideal (active_shards m)) in
    let under = sort_loads (under_loads ideal (active_shards m)) in
    if ltb (length (active_shards m)) 2
    then []
    else pair_loads (length over + length under) over under 0
