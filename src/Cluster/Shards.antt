-- ===== src/Cluster/Shards.antt =====
-- shard.rs: the map of shards, and the list of active ones that router.rs sends a broadcast to.
use maharit_db.Base.{
  ℕ, Bool, false, ◌||◌, Option, none, some, List, [], ◌∷◌, ◌≡◌, refl, ◌∙◌, arith, inl, inr,
  Bool-cases, Option-cases, if◌then◌else◌, map, retain,
}
use maharit_db.Base.Eq.{◌==◌, nat_eq}
use maharit_db.Base.Map
use maharit_db.Base.Map.{Map, lookup-insert, lookup-remove}
use maharit_db.Base.Set
use maharit_db.Cluster.{
  ShardMap, ShardInfo, Reply, done, failed, already_exists, not_found, get_shard, add_shard,
  remove_shard, is_active, active_shards, insert_number, sort_numbers, route_all,
}

-- Every shard is registered under its own number, and no number twice.
abbrev pub Keyed : ShardMap → Type 0
Keyed [] = Unit
Keyed ((k, s) ∷ m) = (s.id ≡ k) × (Map.lookup k m ≡ none) × Keyed m

Keyed-insert :
    (id : ℕ) (s : ShardInfo) (m : ShardMap)
    → s.id ≡ id
    → Map.lookup id m ≡ none
    → Keyed m
    → Keyed (Map.insert id s m)
unfolding Map.insert Map.lookup
Keyed-insert id s [] e free k = (e, refl, tt)
Keyed-insert id s ((j, t) ∷ m) e free (same, once, k) = elim (Bool-cases (j == id)) [
  | inl p ↦ absurd (ground arith)
  | inr p ↦
      let later : Map.lookup id m ≡ none = ground arith in
      let rest = Keyed-insert id s m e later k in
      rw p (same, lookup-insert id j s m ∙ ground (arith, once), rest)
]

Keyed-remove : (id : ℕ) (m : ShardMap) → Keyed m → Keyed (Map.remove id m)
unfolding Map.remove
Keyed-remove id [] k = tt
Keyed-remove id ((j, t) ∷ m) (same, once, k) =
    let rest = Keyed-remove id m k in
    elim (Bool-cases (j == id)) [
      | inl p ↦ rw p rest
      | inr p ↦ rw p (same, lookup-remove id j m ∙ ground (arith, once), rest)
    ]

-- What `add_shard` gives back.
abbrev pub Added : ShardMap → ShardInfo → Reply → ShardMap → Type 0
Added m info done m' =
    Keyed m'
    × (get_shard m info.id ≡ none)
    × ((j : ℕ) → get_shard m' j ≡ (if info.id == j then some info else get_shard m j))
Added m info (failed (already_exists id)) m' =
    (id ≡ info.id) × (m' ≡ m) × ((s : ShardInfo) × (get_shard m id ≡ some s))
Added m info (failed (not_found id)) m' = ⊥

-- `add_shard` registers a shard whose number is free, leaves every other number as it is, and
-- keeps each shard under its own number. If the number is taken, the error names it and nothing
-- changes.
pub add_shard-Added :
    (m : ShardMap) (info : ShardInfo)
    → Keyed m
    → Added m info (add_shard m info).0 (add_shard m info).1
unfolding get_shard
add_shard-Added m info k = elim (Option-cases (get_shard m info.id)) [
  | inl free ↦
      unfold add_shard in
      rw (free, add_shard)
        (Keyed-insert info.id info m refl free k, free, λ j. lookup-insert info.id j info m)
  | inr (s, taken) ↦ unfold add_shard in rw (taken, add_shard) (refl, refl, (s, taken))
]

-- What `remove_shard` gives back.
abbrev pub Removed : ShardMap → ℕ → Reply → ShardMap → Type 0
Removed m id done m' =
    Keyed m'
    × ((s : ShardInfo) × (get_shard m id ≡ some s))
    × ((j : ℕ) → get_shard m' j ≡ (if id == j then none else get_shard m j))
Removed m id (failed (already_exists other)) m' = ⊥
Removed m id (failed (not_found other)) m' = (other ≡ id) × (m' ≡ m) × (get_shard m id ≡ none)

-- `remove_shard` takes out the shard of the given number, leaves every other number as it is, and
-- keeps each shard under its own number. If there is none, the error names the number and nothing
-- changes.
pub remove_shard-Removed :
    (m : ShardMap) (id : ℕ) → Keyed m → Removed m id (remove_shard m id).0 (remove_shard m id).1
unfolding get_shard
remove_shard-Removed m id k = elim (Option-cases (get_shard m id)) [
  | inl free ↦ unfold remove_shard in rw (free, remove_shard) (refl, refl, free)
  | inr (s, taken) ↦
      unfold remove_shard in
      rw (taken, remove_shard) (Keyed-remove id m k, (s, taken), λ j. lookup-remove id j m)
]

contains-insert_number :
    (k n : ℕ) (ns : List ℕ) → Set.contains k (insert_number n ns) ≡ ((n == k) || Set.contains k ns)
unfolding insert_number Set.contains
contains-insert_number k n [] = refl
contains-insert_number k n (x ∷ ns) = ground (arith, contains-insert_number k n ns)

contains-sort_numbers : (k : ℕ) (ns : List ℕ) → Set.contains k (sort_numbers ns) ≡ Set.contains k ns
unfolding sort_numbers Set.contains
contains-sort_numbers k [] = refl
contains-sort_numbers k (n ∷ ns) =
    contains-insert_number k n (sort_numbers ns) ∙ ground (arith, contains-sort_numbers k ns)

abbrev pub active_at : Option ShardInfo → Bool
active_at none = false
active_at (some s) = is_active s

listed-active :
    (k : ℕ) (m : ShardMap)
    → Keyed m
    → Set.contains k (map (λ s. s.id) (retain is_active (map (λ e. e.1) m)))
      ≡ active_at (Map.lookup k m)
unfolding Map.lookup Set.contains
listed-active k [] h = refl
listed-active k ((j, s) ∷ m) (same, once, h) =
    let rest = listed-active k m h in
    elim (Bool-cases (is_active s)) [
      | inl a ↦ rw a (ground (arith, rest, same, once))
      | inr a ↦ rw a (ground (arith, rest, same, once))
    ]

-- A broadcast goes exactly to the numbers under which an active shard is registered, if every
-- shard is registered under its own number.
pub route_all-active :
    (m : ShardMap) (k : ℕ) → Keyed m → Set.contains k (route_all m) ≡ active_at (get_shard m k)
unfolding route_all active_shards get_shard
route_all-active m k h =
    contains-sort_numbers k (map (λ s. s.id) (retain is_active (map (λ e. e.1) m)))
    ∙ listed-active k m h
