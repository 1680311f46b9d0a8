-- ===== src/Cache/Tests.antt =====
-- cache.rs: the theorems at concrete caches, with texts that parse to their own length.
use maharit_db.Base.{
  ℕ, ◌≤◌, ◌+◌, String, some, [], ◌∷◌, ◌≡◌, ◌⊎◌, refl, arith, length, if◌then◌else◌,
}
use maharit_db.Base.Eq.{◌==◌, string_eq}
use maharit_db.Base.Map
use maharit_db.Base.Map.{Map}
use maharit_db.Cache.{
  Parsed, parsed, failed, QueryCache, CacheEntry, AstCache, evict_lru, get_or_parse,
  ast_get_or_parse,
}
use maharit_db.Cache.Plans.{PlanCache, get_or_build}
use maharit_db.Cache.Oldest.{Keyed, evict_lru-oldest}
use maharit_db.Cache.Bounds.{
  Fits, Counted, get_or_parse-Fits, ast_get_or_parse-Fits, get_or_build-Fits,
}

abbrev as_it_is : String → String
as_it_is query = query

-- one statement only parses
abbrev read_it : String → Parsed ℕ String
read_it query = if query == "RETURN 1" then parsed 1 else failed query

-- a full cache of two queries
abbrev two : Map String (CacheEntry ℕ)
two =
    ("RETURN 2", record { statement = 2; hit_count = 0; last_accessed = 1 })
    ∷ ("RETURN 3", record { statement = 3; hit_count = 1; last_accessed = 3 })
    ∷ []

two-Keyed : Keyed two
unfolding Map.lookup
two-Keyed = (refl, (refl, tt))

abbrev full : QueryCache ℕ
full = record { entries = two; capacity = 2; clock = 3; total_hits = 1; total_misses = 2 }

get_or_parse-Fits_example : Fits 2 (get_or_parse as_it_is read_it full "RETURN 1").1.entries
get_or_parse-Fits_example =
    get_or_parse-Fits as_it_is read_it full "RETURN 1" (two-Keyed, omega arith)

abbrev stamp : CacheEntry ℕ → ℕ
stamp e = e.last_accessed

evict_lru-oldest_example :
    ((two ≡ []) × (evict_lru stamp two ≡ two))
    ⊎ ((key : String) × (entry : CacheEntry ℕ) × (Map.lookup key two ≡ some entry)
        × (evict_lru stamp two ≡ Map.remove key two)
        × (length (evict_lru stamp two) + 1 ≤ length two)
        × ((other : String) (e : CacheEntry ℕ)
            → Map.lookup other two ≡ some e
            → stamp entry ≤ stamp e))
evict_lru-oldest_example = evict_lru-oldest stamp two two-Keyed

abbrev parsed_one : AstCache ℕ
parsed_one = record {
  cache = ("RETURN 2", record { statement = 2; last_accessed = 1 }) ∷ [];
  max_size = 1;
  clock = 1;
  total_hits = 0;
  total_misses = 1;
  parse_count = 1;
}

parsed_one-Keyed : Keyed parsed_one.cache
unfolding Map.lookup
parsed_one-Keyed = (refl, tt)

ast_get_or_parse-Fits_example :
    Fits 1 (ast_get_or_parse as_it_is read_it parsed_one "RETURN 1").1.cache
    × Counted (ast_get_or_parse as_it_is read_it parsed_one "RETURN 1").1
ast_get_or_parse-Fits_example =
    ast_get_or_parse-Fits as_it_is read_it parsed_one "RETURN 1" (parsed_one-Keyed, omega arith)
      refl

-- a plan is the number of nodes that it was built for
abbrev build : ℕ → ℕ → ℕ
build statement nodes = nodes

abbrev no_edges : ℕ → ℕ
no_edges nodes = 0

abbrev same_count : ℕ → ℕ
same_count nodes = nodes

abbrev planned : PlanCache ℕ
planned = record {
  entries =
      ("RETURN 2", record { plan = 5; node_count = 5; edge_count = 0; last_accessed = 1 }) ∷ [];
  capacity = 1;
  clock = 1;
  total_hits = 0;
  total_misses = 1;
}

planned-Keyed : Keyed planned.entries
unfolding Map.lookup
planned-Keyed = (refl, tt)

get_or_build-Fits_example :
    Fits 1 (get_or_build as_it_is build same_count no_edges planned "RETURN 2" 2 6).1.entries
get_or_build-Fits_example =
    get_or_build-Fits as_it_is build same_count no_edges planned "RETURN 2" 2 6
      (planned-Keyed, omega arith)
