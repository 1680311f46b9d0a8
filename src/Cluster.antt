-- ===== src/Cluster.antt =====
-- crates/maharit-cluster/src: strategy.rs, shard.rs and router.rs. A shard number is 32 bits
-- wide, and a cast to it keeps the low bits. The trait `ShardingStrategy` is a record with its
-- one operation that matters; the name of a strategy is only shown.
pub mod Shards
pub mod Rebalance
pub mod Pairing
pub mod Balance
pub mod Routing
mod Tests
use maharit_db.Base.{
  ℕ, ◌%◌, ◌^◌, String, Bool, true, false, ◌&&◌, Option, none, some, List, [], ◌∷◌, ◌++◌, map,
  if◌then◌else◌, leb, retain,
}
use maharit_db.Base.Eq.{◌==◌, nat_eq, string_eq}
use maharit_db.Base.Map
use maharit_db.Base.Map.{Map}

pub record Strategy : Type 0 where
  pub shard_for_node : ℕ → String → ℕ

-- `as ShardId`
abbrev pub shard_mod : ℕ
shard_mod = 2 ^ 32

-- `HashSharding`, whose constructor refuses a count of zero
unfoldable pub hash_sharding : ℕ → Strategy
hash_sharding shard_count = record {
  shard_for_node = λ node_id label. node_id % shard_count % shard_mod;
}

pub record RangeEntry : Type 0 where
  pub min_id : ℕ
  pub max_id : ℕ
  pub shard_id : ℕ

-- the first range that holds the node, or the default
pub range_shard : List RangeEntry → ℕ → ℕ → ℕ
range_shard [] default_shard node_id = default_shard
range_shard (entry ∷ rest) default_shard node_id =
    let later = range_shard rest default_shard node_id in
    if leb entry.min_id node_id && leb node_id entry.max_id then entry.shard_id else later

unfoldable pub range_sharding : List RangeEntry → ℕ → Strategy
unfolding range_shard
range_sharding ranges default_shard = record {
  shard_for_node = λ node_id label. range_shard ranges default_shard node_id;
}

abbrev or_else : ℕ → Option ℕ → ℕ
or_else d none = d
or_else d (some s) = s

unfoldable pub label_sharding : Map String ℕ → ℕ → Strategy
label_sharding label_map default_shard = record {
  shard_for_node = λ node_id label. or_else default_shard (Map.lookup label label_map);
}

pub data ShardStatus : Type 0 where
  active : ShardStatus
  inactive : ShardStatus
  rebalancing : ShardStatus

pub record ShardInfo : Type 0 where
  pub id : ℕ
  pub address : String
  pub status : ShardStatus
  pub node_count : ℕ

pub data ShardError : Type 0 where
  already_exists : ℕ → ShardError
  not_found : ℕ → ShardError

pub data Reply : Type 0 where
  done : Reply
  failed : ShardError → Reply

abbrev pub ShardMap : Type 0
ShardMap = Map ℕ ShardInfo

unfoldable pub get_shard : ShardMap → ℕ → Option ShardInfo
get_shard m id = Map.lookup id m

unfoldable pub add_shard : ShardMap → ShardInfo → Reply × ShardMap
unfolding get_shard
add_shard m info = elim (get_shard m info.id) [
  | some _ ↦ (failed (already_exists info.id), m)
  | none ↦ (done, Map.insert info.id info m)
]

unfoldable pub remove_shard : ShardMap → ℕ → Reply × ShardMap
unfolding get_shard
remove_shard m id = elim (get_shard m id) [
  | none ↦ (failed (not_found id), m)
  | some _ ↦ (done, Map.remove id m)
]

pub is_active : ShardInfo → Bool
is_active s = elim s.status [ active ↦ true | inactive ↦ false | rebalancing ↦ false ]

-- the values of the map that are active
unfoldable pub active_shards : ShardMap → List ShardInfo
unfolding is_active
active_shards m = retain is_active (map (λ e. e.1) m)

-- `sort_unstable` on numbers
insert_number : ℕ → List ℕ → List ℕ
insert_number n [] = n ∷ []
insert_number n (k ∷ ks) =
    let further = insert_number n ks in if leb n k then n ∷ k ∷ ks else k ∷ further

sort_numbers : List ℕ → List ℕ
unfolding insert_number
sort_numbers [] = []
sort_numbers (n ∷ ns) = insert_number n (sort_numbers ns)

unfoldable pub route_all : ShardMap → List ℕ
unfolding active_shards sort_numbers
route_all m = sort_numbers (map (λ s. s.id) (active_shards m))

unfoldable pub route_node_query : Strategy → ℕ → String → ℕ
route_node_query strategy node_id label = strategy.shard_for_node node_id label

unfoldable pub route_label_query : ShardMap → Strategy → String → List ℕ
unfolding route_all
route_label_query m strategy label =
    if strategy.shard_for_node 0 label == strategy.shard_for_node 1 label
    then strategy.shard_for_node 0 label ∷ []
    else route_all m

pub data EdgeLocation : Type 0 where
  local : ℕ → EdgeLocation
  remote : ℕ → ℕ → EdgeLocation

unfoldable pub classify_edge : ℕ → ℕ → Strategy → String → String → EdgeLocation
unfolding route_node_query
classify_edge src_node_id dst_node_id router src_label dst_label =
    let src_shard = route_node_query router src_node_id src_label in
    let dst_shard = route_node_query router dst_node_id dst_label in
    if src_shard == dst_shard then local src_shard else remote src_shard dst_shard
