-- ===== src/Cache/Bounds.antt =====
-- cache.rs: the size of each cache.
use mathlib.Core.Path.{subst}
use maharit_db.Base.{
  ℕ, ◌≤◌, ◌<◌, ◌+◌, String, true, ◌&&◌, some, ◌≡◌, ap, arith, inl, inr, Bool-cases, Option-cases,
  leb, ltb, length, nat_beq,
}
use maharit_db.Base.Eq.{string_eq}
use maharit_db.Base.Map
use maharit_db.Base.Map.{Map}
use maharit_db.Cache.{
  Parsed, parsed, failed, QueryCache, AstCache, next, evict_lru, store, parse_missed,
  ast_parse_missed, get_or_parse, ast_get_or_parse,
}
use maharit_db.Cache.Plans.{PlanCache, PlanCacheEntry, build_anew, get_or_build}
use maharit_db.Cache.Oldest.{
  Keyed, remove-Keyed, insert-Keyed, length-insert, length-replace, length-remove, evict_lru-oldest,
}

module _ {A : Type 0} where
  -- no key stands twice, and there are no more entries than there is room for
  abbrev pub Fits : ℕ → Map String A → Type 0
  Fits capacity m = Keyed m × (length m ≤ capacity)

  remove-Fits :
      (capacity : ℕ) (key : String) (m : Map String A)
      → Fits capacity m
      → Fits capacity (Map.remove key m)
  remove-Fits capacity key m (k, le) =
      (remove-Keyed key m k, (let l = length-remove key m in omega arith))

  replace-Fits :
      (capacity : ℕ) (key : String) (x y : A) (m : Map String A)
      → Map.lookup key m ≡ some y
      → Fits capacity m
      → Fits capacity (Map.insert key x m)
  replace-Fits capacity key x y m found (k, le) =
      (insert-Keyed key x m k, rw (length-replace key x y m found) le)

  evict-Keyed : (stamp : A → ℕ) (m : Map String A) → Keyed m → Keyed (evict_lru stamp m)
  evict-Keyed stamp m k = elim (evict_lru-oldest stamp m k) [
    | inl (e, same) ↦ rw same k
    | inr (key, x, found, gone, shorter, least) ↦ rw gone (remove-Keyed key m k)
  ]

  evict-length :
      (stamp : A → ℕ) (m : Map String A)
      → Keyed m
      → 0 < length m
      → length (evict_lru stamp m) + 1 ≤ length m
  evict-length stamp m k pos = elim (evict_lru-oldest stamp m k) [
    | inl (e, same) ↦
        let none_left : 0 < 0 = subst (λ (w : Map String A). 0 < length w) e pos in
        absurd (omega arith)
    | inr (key, x, found, gone, shorter, least) ↦ shorter
  ]

  store-Fits :
      (stamp : A → ℕ) (capacity : ℕ) (key : String) (x : A) (m : Map String A)
      → ltb 0 capacity ≡ true
      → Fits capacity m
      → Fits capacity (store stamp capacity key x m)
  unfolding store
  store-Fits stamp capacity key x m room (k, le) = elim (Bool-cases (leb capacity (length m))) [
    | inl full ↦
        let shorter = evict-length stamp m k (ground arith) in
        let l = length-insert key x (evict_lru stamp m) in
        rw full (insert-Keyed key x (evict_lru stamp m) (evict-Keyed stamp m k), omega arith)
    | inr space ↦ let l = length-insert key x m in rw space (insert-Keyed key x m k, ground arith)
  ]

module _ {S : Type 0} where
  abbrev pub Counted : AstCache S → Type 0
  Counted c = c.parse_count ≡ c.total_misses

module _ {S E : Type 0} where
  parse_missed-Fits :
      (c : QueryCache S) (normalized : String) (p : Parsed S E)
      → Fits c.capacity c.entries
      → Fits c.capacity (parse_missed c normalized p).1.entries
  unfolding parse_missed
  parse_missed-Fits c normalized (failed e) fits = fits
  parse_missed-Fits c normalized (parsed statement) fits = elim (Bool-cases (ltb 0 c.capacity)) [
    | inl room ↦ rw room (store-Fits _ c.capacity normalized _ c.entries room fits)
    | inr e ↦ rw e fits
  ]

  ast_parse_missed-Fits :
      (c : AstCache S) (key : String) (p : Parsed S E)
      → Fits c.max_size c.cache
      → Counted c
      → Fits c.max_size (ast_parse_missed c key p).1.cache × Counted (ast_parse_missed c key p).1
  unfolding ast_parse_missed
  ast_parse_missed-Fits c key (failed e) fits same = (fits, ap next same)
  ast_parse_missed-Fits c key (parsed statement) fits same = elim (Bool-cases (ltb 0 c.max_size)) [
    | inl room ↦ rw room (store-Fits _ c.max_size key _ c.cache room fits, ap next same)
    | inr e ↦ rw e (fits, ap next same)
  ]

module _ {S E : Type 0} (normalize_query : String → String) (parse : String → Parsed S E) where
  -- `get_or_parse` keeps a `QueryCache` within its capacity and no key in it twice, whether the
  -- query is there, is parsed and stored, with the oldest entry removed where there is no room,
  -- or does not parse.
  pub get_or_parse-Fits :
      (c : QueryCache S) (query : String)
      → Fits c.capacity c.entries
      → Fits c.capacity (get_or_parse normalize_query parse c query).1.entries
  get_or_parse-Fits c query fits =
      elim (Option-cases (Map.lookup (normalize_query query) c.entries)) [
        | inr (entry, found) ↦
            unfold get_or_parse in
            rw (found, get_or_parse)
              (replace-Fits c.capacity (normalize_query query) _ entry c.entries found fits)
        | inl missing ↦
            unfold get_or_parse in
            rw (missing, get_or_parse)
              (parse_missed-Fits c (normalize_query query) (parse query) fits)
      ]

  -- `get_or_parse` keeps an `AstCache` within its size and no key in it twice, and the number of
  -- parses stays that of the misses.
  pub ast_get_or_parse-Fits :
      (c : AstCache S) (query : String)
      → Fits c.max_size c.cache
      → Counted c
      → Fits c.max_size (ast_get_or_parse normalize_query parse c query).1.cache
        × Counted (ast_get_or_parse normalize_query parse c query).1
  ast_get_or_parse-Fits c query fits same =
      elim (Option-cases (Map.lookup (normalize_query query) c.cache)) [
        | inr (entry, found) ↦
            unfold ast_get_or_parse in
            rw (found, ast_get_or_parse)
              (replace-Fits c.max_size (normalize_query query) _ entry c.cache found fits, same)
        | inl missing ↦
            unfold ast_get_or_parse in
            rw (missing, ast_get_or_parse)
              (ast_parse_missed-Fits c (normalize_query query) (parse query) fits same)
      ]

module _ {S G P : Type 0} (normalize_query : String → String) (build : S → G → P)
    (node_count edge_count : G → ℕ) where
  build_anew-Fits :
      (c : PlanCache P) (key : String) (stmt : S) (stats : G)
      (entries : Map String (PlanCacheEntry P))
      → Fits c.capacity entries
      → Fits c.capacity
          (build_anew normalize_query build node_count edge_count c key stmt stats
            entries).1.entries
  unfolding build_anew
  build_anew-Fits c key stmt stats entries fits = elim (Bool-cases (ltb 0 c.capacity)) [
    | inl room ↦ rw room (store-Fits _ c.capacity key _ entries room fits)
    | inr e ↦ rw e fits
  ]

  -- `get_or_build` keeps a `PlanCache` within its capacity and no key in it twice, whether it
  -- uses a plan that is there, replaces one that was built for another number of nodes or edges,
  -- or stores a new one.
  pub get_or_build-Fits :
      (c : PlanCache P) (query : String) (stmt : S) (stats : G)
      → Fits c.capacity c.entries
      → Fits c.capacity
          (get_or_build normalize_query build node_count edge_count c query stmt stats).1.entries
  get_or_build-Fits c query stmt stats fits =
      elim (Option-cases (Map.lookup (normalize_query query) c.entries)) [
        | inl missing ↦
            unfold get_or_build in
            rw (missing, get_or_build)
              (build_anew-Fits c (normalize_query query) stmt stats c.entries fits)
        | inr (entry, found) ↦
            elim (Bool-cases (
              nat_beq entry.node_count (node_count stats)
              && nat_beq entry.edge_count (edge_count stats))) [
                | inl same ↦
                    unfold get_or_build in
                    rw (found, get_or_build)
                      (rw same (
                        replace-Fits c.capacity (normalize_query query) _ entry c.entries found
                          fits))
                | inr stale ↦
                    unfold get_or_build in
                    rw (found, get_or_build)
                      (rw stale (
                        build_anew-Fits c (normalize_query query) stmt stats _
                          (remove-Fits c.capacity (normalize_query query) c.entries fits)))
              ]
      ]
