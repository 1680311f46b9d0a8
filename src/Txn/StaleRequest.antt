-- ===== src/Txn/StaleRequest.antt =====
-- transaction.rs: a request that is granted by `acquire_lock` stays in the queue.
use maharit_db.Base.{ℕ, String, true, false, some, List, [], ◌∷◌, ◌≡◌, refl, ap, ◌∙◌, arith}
use maharit_db.Base.Eq.{◌==◌, nat_eq, string_eq, ==_refl}
use maharit_db.Base.Map
use maharit_db.Base.Map.{Map, lookup-insert}
use maharit_db.Base.Set
use maharit_db.Txn.{LockInfo, LockMode, read}
use maharit_db.Txn.Locks.{
  got_lock, granted_or_queued, can_grant, granted, released, handed_on, release_in,
}

-- `a` reads, and `b` is queued to read, as when both have waited for the same writer
abbrev pub reading : ℕ → ℕ → List (ℕ × LockMode) → LockInfo
reading a b queue = record { mode = read; holders = a ∷ []; waiting = (b, read) ∷ queue }

grant-reading :
    (a b : ℕ) (queue : List (ℕ × LockMode))
    → (a == b) ≡ false
    → (can_grant (reading a b queue) read b ≡ true)
      × (granted (reading a b queue) read b
          ≡ record { mode = read; holders = b ∷ a ∷ []; waiting = (b, read) ∷ queue })
unfolding can_grant granted Set.insert Set.contains
grant-reading a b queue apart = (ground arith, ground arith)

release-reading :
    (a b : ℕ) (queue : List (ℕ × LockMode))
    → (a == b) ≡ false
    → released (record { mode = read; holders = b ∷ a ∷ []; waiting = (b, read) ∷ queue }) b
      ≡ reading a b queue
unfolding released handed_on Set.remove
release-reading a b queue apart = rw (==_refl b, apart) refl

release-last :
    (a b : ℕ) (queue : List (ℕ × LockMode))
    → released (reading a b queue) a ≡ record { mode = read; holders = b ∷ []; waiting = queue }
unfolding released handed_on Set.remove Set.insert Set.contains
release-last a b queue = rw (==_refl a) refl

release_in-at :
    (t : ℕ) (resource : String) (info : LockInfo) (locks : Map String LockInfo)
    → Map.lookup resource locks ≡ some info
    → Map.lookup resource (release_in t resource locks) ≡ some (released info t)
unfolding release_in
release_in-at t resource info locks e = rw (e, release_in) (rw (lookup-insert, ==_refl resource))

-- A lock is granted to a transaction that has given it back. `a` reads a resource and `b` is
-- queued to read it: the next round of `b` grants it the lock at once and leaves its request in
-- the queue. When `b` and then `a` give the lock back, `b` holds it again.
pub granted_again :
    (a b : ℕ) (resource : String) (locks : Map String LockInfo) (queue : List (ℕ × LockMode))
    → (a == b) ≡ false
    → Map.lookup resource locks ≡ some (reading a b queue)
    → ((granted_or_queued locks b resource read).0 ≡ got_lock)
      × (Map.lookup resource (
            release_in a resource
              (release_in b resource (granted_or_queued locks b resource read).1))
          ≡ some (record { mode = read; holders = b ∷ []; waiting = queue }))
granted_again a b resource locks queue apart found =
    let (can, made) = grant-reading a b queue apart in
    let l : Map String LockInfo = (granted_or_queued locks b resource read).1 in
    let now : Map.lookup resource l
        ≡ some (record { mode = read; holders = b ∷ a ∷ []; waiting = (b, read) ∷ queue }) =
      unfold granted_or_queued in rw (found, can, made) (rw (lookup-insert, ==_refl resource)) in
    let then_b : Map.lookup resource (release_in b resource l) ≡ some (reading a b queue) =
      release_in-at b resource _ l now ∙ ap some (release-reading a b queue apart) in
    (
      unfold granted_or_queued in rw (found, can) refl,
      release_in-at a resource _ (release_in b resource l) then_b
          ∙ ap some (release-last a b queue),
    )
