-- ===== src/Cache.antt =====
-- crates/maharit-query/src/cache.rs: the caches of parsed queries and of plans. The parser, the
-- planner and the text that serves as key belong to other parts: `parse`, `build` and
-- `normalize_query` are parameters, as are the types of statements, errors, plans and statistics.
-- The clock and the counters are 64-bit numbers.
pub mod Plans
pub mod Oldest
pub mod Bounds
mod Tests
use maharit_db.Base.{
  ℕ, ◌+◌, ◌%◌, ◌^◌, String, Bool, true, false, Option, none, some, List, [], ◌∷◌, length,
  if◌then◌else◌, ltb, leb,
}
use maharit_db.Base.Eq.{◌==◌, string_eq}
use maharit_db.Base.Map
use maharit_db.Base.Map.{Map}

pub data Parsed (S E : Type 0) : Type 0 where
  parsed : S → Parsed S E
  failed : E → Parsed S E

pub record CacheEntry (S : Type 0) : Type 0 where
  pub statement : S
  pub hit_count : ℕ
  pub last_accessed : ℕ

pub record QueryCache (S : Type 0) : Type 0 where
  pub entries : Map String (CacheEntry S)
  pub capacity : ℕ
  pub clock : ℕ
  pub total_hits : ℕ
  pub total_misses : ℕ

pub record AstCacheEntry (S : Type 0) : Type 0 where
  pub statement : S
  pub last_accessed : ℕ

pub record AstCache (S : Type 0) : Type 0 where
  pub cache : Map String (AstCacheEntry S)
  pub max_size : ℕ
  pub clock : ℕ
  pub total_hits : ℕ
  pub total_misses : ℕ
  pub parse_count : ℕ

pub record CacheStats : Type 0 where
  pub size : ℕ
  pub capacity : ℕ
  pub hits : ℕ
  pub misses : ℕ

-- a 64-bit counter
abbrev pub next : ℕ → ℕ
next n = (n + 1) % 2 ^ 64

abbrev pub is_some : {A : Type 0} → Option A → Bool
is_some none = false
is_some (some a) = true

module _ {A : Type 0} (stamp : A → ℕ) where
  -- the first of two entries, unless the second is older
  abbrev pub older : String × A → Option (String × A) → Option (String × A)
  older x none = some x
  older x (some y) = if leb (stamp x.1) (stamp y.1) then some x else some y

  -- `min_by_key(last_accessed)`, which gives the first of several
  unfoldable pub oldest : Map String A → Option (String × A)
  oldest [] = none
  oldest (x ∷ m) = older x (oldest m)

  unfoldable pub evict_lru : Map String A → Map String A
  unfolding oldest
  evict_lru m = elim (oldest m) [ none ↦ m | some x ↦ Map.remove x.0 m ]

  -- the entry goes in, and the oldest goes out if there is no room
  unfoldable pub store : ℕ → String → A → Map String A → Map String A
  unfolding evict_lru
  store capacity key new m = Map.insert key new (if leb capacity (length m) then evict_lru m else m)

module _ {S E : Type 0} where
  -- what follows a miss
  unfoldable pub parse_missed : QueryCache S → String → Parsed S E → Parsed S E × QueryCache S
  unfolding store
  parse_missed c normalized (failed e) = (failed e, record c { total_misses = next c.total_misses })
  parse_missed c normalized (parsed statement) = (
    parsed statement,
    if ltb 0 c.capacity
        then record c {
          total_misses = next c.total_misses;
          clock = next c.clock;
          entries =
              store (λ (x : CacheEntry S). x.last_accessed) c.capacity normalized
                (record { statement = statement; hit_count = 0; last_accessed = next c.clock })
                c.entries;
        }
        else record c { total_misses = next c.total_misses },
  )

  unfoldable pub ast_parse_missed : AstCache S → String → Parsed S E → Parsed S E × AstCache S
  unfolding store
  ast_parse_missed c key (failed e) =
      (failed e, record c { total_misses = next c.total_misses; parse_count = next c.parse_count })
  ast_parse_missed c key (parsed statement) = (
    parsed statement,
    if ltb 0 c.max_size
        then record c {
          total_misses = next c.total_misses;
          parse_count = next c.parse_count;
          clock = next c.clock;
          cache =
              store (λ (x : AstCacheEntry S). x.last_accessed) c.max_size key
                (record { statement = statement; last_accessed = next c.clock }) c.cache;
        }
        else record c { total_misses = next c.total_misses; parse_count = next c.parse_count },
  )

module _ {S : Type 0} where
  -- `QueryCache::new`
  unfoldable pub query_cache : ℕ → QueryCache S
  query_cache capacity = record {
    entries = [];
    capacity = capacity;
    clock = 0;
    total_hits = 0;
    total_misses = 0;
  }

  unfoldable pub clear : QueryCache S → QueryCache S
  clear c = record c { entries = []; total_hits = 0; total_misses = 0; clock = 0 }

  unfoldable pub stats : QueryCache S → CacheStats
  stats c = record {
    size = length c.entries;
    capacity = c.capacity;
    hits = c.total_hits;
    misses = c.total_misses;
  }

  -- `AstCache::new`
  unfoldable pub ast_cache : ℕ → AstCache S
  ast_cache max_size = record {
    cache = [];
    max_size = max_size;
    clock = 0;
    total_hits = 0;
    total_misses = 0;
    parse_count = 0;
  }

  unfoldable pub ast_clear : AstCache S → AstCache S
  ast_clear c = record c {
    cache = [];
    total_hits = 0;
    total_misses = 0;
    parse_count = 0;
    clock = 0;
  }

  unfoldable pub ast_stats : AstCache S → CacheStats
  ast_stats c = record {
    size = length c.cache;
    capacity = c.max_size;
    hits = c.total_hits;
    misses = c.total_misses;
  }

module _ {S : Type 0} (normalize_query : String → String) where
  unfoldable pub contains : QueryCache S → String → Bool
  contains c query = is_some (Map.lookup (normalize_query query) c.entries)

  unfoldable pub invalidate : QueryCache S → String → QueryCache S
  invalidate c query = record c { entries = Map.remove (normalize_query query) c.entries }

  unfoldable pub ast_contains : AstCache S → String → Bool
  ast_contains c query = is_some (Map.lookup (normalize_query query) c.cache)

  unfoldable pub ast_invalidate : AstCache S → String → AstCache S
  ast_invalidate c query = record c { cache = Map.remove (normalize_query query) c.cache }

module _ {S E : Type 0} (normalize_query : String → String) (parse : String → Parsed S E) where
  unfoldable pub get_or_parse : QueryCache S → String → Parsed S E × QueryCache S
  unfolding parse_missed
  get_or_parse c query =
      let normalized = normalize_query query in
      elim (Map.lookup normalized c.entries) [
        | some entry ↦ (
          parsed entry.statement,
          record c {
            clock = next c.clock;
            entries =
                Map.insert normalized
                  (record entry { last_accessed = next c.clock; hit_count = next entry.hit_count })
                  c.entries;
            total_hits = next c.total_hits;
          },
        )
        | none ↦ parse_missed c normalized (parse query)
      ]

  unfoldable pub ast_get_or_parse : AstCache S → String → Parsed S E × AstCache S
  unfolding ast_parse_missed
  ast_get_or_parse c query =
      let key = normalize_query query in
      elim (Map.lookup key c.cache) [
        | some entry ↦ (
          parsed entry.statement,
          record c {
            clock = next c.clock;
            cache = Map.insert key (record entry { last_accessed = next c.clock }) c.cache;
            total_hits = next c.total_hits;
          },
        )
        | none ↦ ast_parse_missed c key (parse query)
      ]
