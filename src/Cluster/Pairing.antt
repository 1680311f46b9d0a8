-- ===== src/Cluster/Pairing.antt =====
-- shard.rs: the loop of `rebalance_plan` that pairs excesses with deficits.
use maharit_db.Base.{
  ℕ, zero, suc, ◌+◌, ◌≤◌, List, [], ◌∷◌, ◌++◌, ◌≡◌, refl, arith, if◌then◌else◌, min, length,
}
use maharit_db.Base.Eq.{◌==◌, nat_eq}
use maharit_db.Cluster.Rebalance.{ShardMove, Load, push_moves, rest_of, pair_loads}

abbrev pub total : List Load → ℕ
total [] = 0
total (l ∷ ls) = l.1 + total ls

-- what the loads of one shard come to
abbrev pub load_of : ℕ → List Load → ℕ
load_of k [] = 0
load_of k (l ∷ ls) = (if l.0 == k then l.1 else 0) + load_of k ls

abbrev pub moves_from : ℕ → List ShardMove → ℕ
moves_from k [] = 0
moves_from k (m ∷ ms) = (if m.from_shard == k then 1 else 0) + moves_from k ms

abbrev pub moves_to : ℕ → List ShardMove → ℕ
moves_to k [] = 0
moves_to k (m ∷ ms) = (if m.to_shard == k then 1 else 0) + moves_to k ms

from-push :
    (k batch node_id from to : ℕ) (ms : List ShardMove)
    → moves_from k (push_moves batch node_id from to ++ ms)
      ≡ (if from == k then batch else 0) + moves_from k ms
unfolding push_moves
from-push k zero i f t ms = ground arith
from-push k (suc b) i f t ms = ground (arith, from-push k b (i + 1) f t ms)

to-push :
    (k batch node_id from to : ℕ) (ms : List ShardMove)
    → moves_to k (push_moves batch node_id from to ++ ms)
      ≡ (if to == k then batch else 0) + moves_to k ms
unfolding push_moves
to-push k zero i f t ms = ground arith
to-push k (suc b) i f t ms = ground (arith, to-push k b (i + 1) f t ms)

total-rest :
    (b : ℕ) (l : Load) (ls : List Load) → b ≤ l.1 → total (rest_of b l ls) + b ≡ l.1 + total ls
total-rest b l ls h = ground arith

load_of-rest :
    (k b : ℕ) (l : Load) (ls : List Load)
    → b ≤ l.1
    → load_of k (rest_of b l ls) + (if l.0 == k then b else 0)
      ≡ (if l.0 == k then l.1 else 0) + load_of k ls
load_of-rest k b l ls h = ground arith

length-rest :
    (fuel : ℕ) (o u : Load) (over under : List Load)
    → suc (length over) + suc (length under) ≤ suc fuel
    → length (rest_of (min o.1 u.1) o over) + length (rest_of (min o.1 u.1) u under) ≤ fuel
length-rest fuel o u over under h = ground arith

-- No shard gives more than its loads come to.
pub pair_loads-from :
    (k fuel : ℕ) (over under : List Load) (node_id : ℕ)
    → moves_from k (pair_loads fuel over under node_id) ≤ load_of k over
unfolding pair_loads
pair_loads-from k zero over under i = omega arith
pair_loads-from k (suc fuel) [] under i = omega arith
pair_loads-from k (suc fuel) (o ∷ over) [] i = omega arith
pair_loads-from k (suc fuel) (o ∷ over) (u ∷ under) i =
    let b = min o.1 u.1 in
    let ih = pair_loads-from k fuel (rest_of b o over) (rest_of b u under) (i + b) in
    let left = load_of-rest k b o over (omega arith) in rw from-push (omega (arith, ih, left))

load_of-total : (k : ℕ) (ls : List Load) → load_of k ls ≤ total ls
load_of-total k [] = omega arith
load_of-total k (l ∷ ls) = ground (arith, load_of-total k ls)

-- If the first loads are enough for the second, every shard is given what its second loads come
-- to.
pub pair_loads-to :
    (k fuel : ℕ) (over under : List Load) (node_id : ℕ)
    → length over + length under ≤ fuel
    → total under ≤ total over
    → moves_to k (pair_loads fuel over under node_id) ≡ load_of k under
unfolding pair_loads
pair_loads-to k zero [] [] i enough fits = refl
pair_loads-to k zero [] (u ∷ under) i enough fits = absurd (omega arith)
pair_loads-to k zero (o ∷ over) under i enough fits = absurd (omega arith)
pair_loads-to k (suc fuel) [] under i enough fits = omega (arith, load_of-total k under)
pair_loads-to k (suc fuel) (o ∷ over) [] i enough fits = refl
pair_loads-to k (suc fuel) (o ∷ over) (u ∷ under) i enough fits =
    let b = min o.1 u.1 in
    let given = total-rest b o over (omega arith) in
    let taken = total-rest b u under (omega arith) in
    let ih =
      pair_loads-to k fuel (rest_of b o over) (rest_of b u under) (i + b)
        (length-rest fuel o u over under enough) (omega (arith, given, taken)) in
    let left = load_of-rest k b u under (omega arith) in rw to-push (omega (arith, ih, left))
