-- ===== src/Cache/Plans.antt =====
-- cache.rs: the cache of plans. `node_count` and `edge_count` read the statistics of a graph.
use maharit_db.Base.{ℕ, String, ◌&&◌, none, some, [], length, if◌then◌else◌, ltb, nat_beq}
use maharit_db.Base.Eq.{string_eq}
use maharit_db.Base.Map
use maharit_db.Base.Map.{Map}
use maharit_db.Cache.{CacheStats, next, store}

pub record PlanCacheEntry (P : Type 0) : Type 0 where
  pub plan : P
  pub node_count : ℕ
  pub edge_count : ℕ
  pub last_accessed : ℕ

pub record PlanCache (P : Type 0) : Type 0 where
  pub entries : Map String (PlanCacheEntry P)
  pub capacity : ℕ
  pub clock : ℕ
  pub total_hits : ℕ
  pub total_misses : ℕ

module _ {P : Type 0} where
  -- `PlanCache::new`
  unfoldable pub plan_cache : ℕ → PlanCache P
  plan_cache capacity = record {
    entries = [];
    capacity = capacity;
    clock = 0;
    total_hits = 0;
    total_misses = 0;
  }

  unfoldable pub stats : PlanCache P → CacheStats
  stats c = record {
    size = length c.entries;
    capacity = c.capacity;
    hits = c.total_hits;
    misses = c.total_misses;
  }

  unfoldable pub clear : PlanCache P → PlanCache P
  clear c = record c { entries = []; total_hits = 0; total_misses = 0; clock = 0 }

module _ {S G P : Type 0} (normalize_query : String → String) (build : S → G → P)
    (node_count edge_count : G → ℕ) where
  -- the plan is built anew, from the entries that are left
  unfoldable pub build_anew :
      PlanCache P → String → S → G → Map String (PlanCacheEntry P) → P × PlanCache P
  unfolding store
  build_anew c normalized stmt stats entries =
      let plan = build stmt stats in
      let missed = record c { total_misses = next c.total_misses; entries = entries } in
      (
        plan,
        if ltb 0 c.capacity
            then record missed {
              clock = next c.clock;
              entries =
                  store (λ (x : PlanCacheEntry P). x.last_accessed) c.capacity normalized
                    (record {
                      plan = plan;
                      node_count = node_count stats;
                      edge_count = edge_count stats;
                      last_accessed = next c.clock;
                    })
                    entries;
            }
            else missed,
      )

  unfoldable pub get_or_build : PlanCache P → String → S → G → P × PlanCache P
  unfolding build_anew
  get_or_build c query stmt stats =
      let normalized = normalize_query query in
      elim (Map.lookup normalized c.entries) [
        | none ↦ build_anew c normalized stmt stats c.entries
        | some entry ↦
            if nat_beq entry.node_count (node_count stats)
              && nat_beq entry.edge_count (edge_count stats)
            then (
              entry.plan,
              record c {
                clock = next c.clock;
                entries =
                    Map.insert normalized (record entry { last_accessed = next c.clock }) c.entries;
                total_hits = next c.total_hits;
              },
            )
            else build_anew c normalized stmt stats (Map.remove normalized c.entries)
      ]
