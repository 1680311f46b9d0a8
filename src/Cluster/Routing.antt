-- ===== src/Cluster/Routing.antt =====
-- router.rs: which shards a query for a label is sent to, under each strategy.
use native.Mathlib.Nat.{mod-lt, mod-eq_of_lt}
use maharit_db.Base.{
  ℕ, zero, suc, sym, ◌∙◌, ◌%◌, ◌<◌, ◌≤◌, String, true, false, List, [], ◌∷◌, ◌≡◌, ◌≢◌, refl, arith,
  inl, inr, Bool-cases,
}
use maharit_db.Base.Eq.{◌==◌, nat_eq, string_eq, eq_of_==, ==_refl, ==_ne}
use maharit_db.Base.Map.{Map}
use maharit_db.Base.Set
use maharit_db.Cluster.Shards.{Keyed, active_at, route_all-active}
use maharit_db.Cluster.{
  get_shard, Strategy, ShardMap, RangeEntry, shard_mod, hash_sharding, range_sharding,
  label_sharding, route_node_query, route_label_query,
}

-- The query for the label visits the shard of the node.
abbrev pub Visits : ShardMap → Strategy → String → ℕ → Type 0
Visits m strategy label node_id =
    Set.contains (route_node_query strategy node_id label) (route_label_query m strategy label)
    ≡ true

visits_one :
    (m : ShardMap) (strategy : Strategy) (label : String)
    → strategy.shard_for_node 0 label ≡ strategy.shard_for_node 1 label
    → route_label_query m strategy label ≡ strategy.shard_for_node 0 label ∷ []
unfolding route_label_query
visits_one m strategy label e = rw (← e, ==_refl (strategy.shard_for_node 0 label))

contains-one : (s t : ℕ) → Set.contains s (t ∷ []) ≡ (t == s)
unfolding Set.contains
contains-one s t = ground arith

cast_small : (id n : ℕ) → 0 < n → n ≤ shard_mod → id % n % shard_mod ≡ id % n
cast_small id n pos fits = let small = mod-lt id pos in omega arith

-- a count that does not tell 0 and 1 apart is 1
one_shard : (id n : ℕ) → 0 < n → 0 % n ≡ 1 % n → id % n ≡ 0
one_shard id zero pos e = absurd (omega arith)
one_shard id (suc zero) pos e = omega arith
one_shard id (suc (suc n)) pos e =
    let one : 1 % suc (suc n) ≡ 1 = mod-eq_of_lt (omega arith) in
    let none_left : 0 % suc (suc n) ≡ 0 = mod-eq_of_lt (omega arith) in absurd (omega arith)

-- Under hash sharding over one or more shards, each of them registered under its number and
-- active, a query for a label visits the shard of every node.
pub hash-Visits :
    (m : ShardMap) (shard_count : ℕ) (label : String) (node_id : ℕ)
    → 0 < shard_count
    → shard_count ≤ shard_mod
    → Keyed m
    → ((k : ℕ) → k < shard_count → active_at (get_shard m k) ≡ true)
    → Visits m (hash_sharding shard_count) label node_id
unfolding route_node_query hash_sharding
hash-Visits m n label id pos fits keyed all =
    elim (Bool-cases (0 % n % shard_mod == 1 % n % shard_mod)) [
      | inl e ↦
          let same = eq_of_== (0 % n % shard_mod) (1 % n % shard_mod) e in
          let alike : 0 % n ≡ 1 % n =
            sym (cast_small 0 n pos fits) ∙ same ∙ cast_small 1 n pos fits in
          rw
            (
              visits_one m (hash_sharding n) label same,
              contains-one,
              cast_small id n pos fits,
              cast_small 0 n pos fits,
              one_shard id n pos alike,
              one_shard 0 n pos alike,
            )
            refl
      | inr e ↦
          unfold route_label_query in
          rw (e, cast_small id n pos fits)
            (route_all-active m (id % n) keyed ∙ all (id % n) (mod-lt id pos))
    ]

-- Under label sharding a query for a label visits the one shard of all nodes with that label.
pub label-Visits :
    (m : ShardMap) (label_map : Map String ℕ) (default_shard : ℕ) (label : String) (node_id : ℕ)
    → Visits m (label_sharding label_map default_shard) label node_id
unfolding route_node_query label_sharding
label-Visits m label_map d label id =
    rw (visits_one m (label_sharding label_map d) label refl, contains-one)
      (==_refl ((label_sharding label_map d).shard_for_node 0 label))

-- Under range sharding, if nodes 0 and 1 go to one shard, a query for a label misses every node
-- of every other shard, although its label be that of the query.
pub range_missed :
    (m : ShardMap) (ranges : List RangeEntry) (default_shard : ℕ) (label : String) (node_id : ℕ)
    → (range_sharding ranges default_shard).shard_for_node 0 label
      ≡ (range_sharding ranges default_shard).shard_for_node 1 label
    → route_node_query (range_sharding ranges default_shard) node_id label
      ≢ (range_sharding ranges default_shard).shard_for_node 0 label
    → Set.contains
        (route_node_query (range_sharding ranges default_shard) node_id label)
        (route_label_query m (range_sharding ranges default_shard) label)
      ≡ false
unfolding route_node_query
range_missed m ranges d label id same other =
    let strategy = range_sharding ranges d in
    rw (visits_one m strategy label same, contains-one)
      (==_ne (strategy.shard_for_node 0 label) (strategy.shard_for_node id label)
        (λ e. other (sym e)))
