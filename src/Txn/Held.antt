-- ===== src/Txn/Held.antt =====
-- transaction.rs: a lock that a transaction holds alone for writing, and what the calls of others
-- do to it.
use mathlib.Core.Path.{subst}
use maharit_db.Base.{
  ℕ, String, Bool, true, false, not, ◌++◌, ◌&&◌, ◌||◌, Option, none, some, List, [], ◌∷◌, ◌≡◌, ◌≢◌,
  ◌∙◌, refl, sym, ap, arith, inl, inr, Bool-cases, Option-cases, if◌then◌else◌,
}
use maharit_db.Base.Eq.{◌==◌, nat_eq, string_eq, eq_of_==, ==_refl}
use maharit_db.Base.Map
use maharit_db.Base.Map.{Map, lookup-insert}
use maharit_db.Base.Set
use maharit_db.Txn.{LockInfo, LockMode, read, write}
use maharit_db.Txn.Locks.{
  is_write, none_left, single, compatible, can_grant, granted, queued, unqueued, released,
  handed_on, granted_or_queued, release_in, unqueue_in, waits, lock_attempt, Attempt, got_lock,
  found_deadlock, must_wait, would_cause_deadlock, lock_or_new, release_each,
}

-- the transaction is the only holder, for writing
abbrev pub Alone : ℕ → LockInfo → Type 0
Alone t info = (info.mode ≡ write) × (info.holders ≡ t ∷ [])

abbrev pub HeldAlone : ℕ → String → Map String LockInfo → Type 0
HeldAlone t resource locks =
    (info : LockInfo) × (Map.lookup resource locks ≡ some info) × Alone t info

granted-Alone :
    (info : LockInfo) (t : ℕ) → can_grant info write t ≡ true → Alone t (granted info write t)
unfolding can_grant granted Set.insert Set.contains
granted-Alone info t can = (refl, sole info.holders info.mode can)
  where
    sole :
        (hs : List ℕ) (mode : LockMode)
        → (if none_left hs
            then true
            else if Set.contains t hs
            then single hs
            else compatible mode write)
          ≡ true
        → Set.insert t hs ≡ t ∷ []
    sole [] mode can = refl
    sole (h ∷ []) read can = elim (Bool-cases (h == t)) [
      | inl e ↦ let q = eq_of_== h t e in rw e (ap (λ z. z ∷ []) q)
      | inr e ↦ absurd (ground arith)
    ]
    sole (h ∷ []) write can = elim (Bool-cases (h == t)) [
      | inl e ↦ let q = eq_of_== h t e in rw e (ap (λ z. z ∷ []) q)
      | inr e ↦ absurd (ground arith)
    ]
    sole (h ∷ k ∷ hs) read can = absurd (ground arith)
    sole (h ∷ k ∷ hs) write can = absurd (ground arith)

-- a request for a lock that is held alone
request-Alone :
    (info : LockInfo) (t u : ℕ) (mode : LockMode)
    → Alone t info
    → Alone t (if can_grant info mode u then granted info mode u else queued info mode u)
unfolding can_grant granted queued Set.insert Set.contains
request-Alone info t u mode (w, h) = go info.holders info.mode mode w h
  where
    go :
        (hs : List ℕ) (had want : LockMode)
        → had ≡ write
        → hs ≡ t ∷ []
        → Alone t (
            if (if none_left hs
              then true
              else if Set.contains u hs
              then not (is_write want) || single hs
              else compatible had want)
            then record info {
              mode = if is_write want || none_left hs then want else had;
              holders = Set.insert u hs;
            }
            else if waits u info.waiting
            then record info { mode = had; holders = hs }
            else record info { mode = had; holders = hs; waiting = info.waiting ++ (u, want) ∷ [] })
    go hs read want w h = absurd (cc)
    go [] write want w h = absurd (cc)
    go (x ∷ y ∷ hs) write want w h = absurd (cc)
    go (x ∷ []) write read w h = ground arith
    go (x ∷ []) write write w h = ground arith

released-Alone :
    (info : LockInfo) (t u : ℕ) → (t == u) ≡ false → Alone t info → Alone t (released info u)
unfolding released handed_on Set.remove
released-Alone info t u other (w, h) = rw (h, other) (w, refl)

HeldAlone-insert :
    (t : ℕ) (resource r : String) (info : LockInfo) (locks : Map String LockInfo)
    → ((r == resource) ≡ true → Alone t info)
    → HeldAlone t resource locks
    → HeldAlone t resource (Map.insert r info locks)
HeldAlone-insert t resource r info locks alone (i, found, a) = elim (Bool-cases (r == resource)) [
  | inl e ↦ (info, lookup-insert r resource info locks ∙ rw e refl, alone e)
  | inr e ↦ (i, lookup-insert r resource info locks ∙ rw e found, a)
]

-- the resource's own entry, whatever its key is called
found-Alone :
    (t : ℕ) (resource r : String) (i : LockInfo) (locks : Map String LockInfo)
    → HeldAlone t resource locks
    → Map.lookup r locks ≡ some i
    → (r == resource) ≡ true
    → Alone t i
found-Alone t resource r i locks (j, found, a) h e =
    let q = eq_of_== r resource e in let same : i ≡ j = cc in subst (Alone t) (sym same) a

entry-Alone :
    (t : ℕ) (resource r : String) (locks : Map String LockInfo)
    → HeldAlone t resource locks
    → (r == resource) ≡ true
    → (i : LockInfo) × (Map.lookup r locks ≡ some i) × Alone t i
entry-Alone t resource r locks (i, found, a) e =
    (i, ap (λ z. Map.lookup z locks) (eq_of_== r resource e) ∙ found, a)

asked-Alone :
    (t : ℕ) (resource r : String) (u : ℕ) (mode : LockMode) (locks : Map String LockInfo)
    → HeldAlone t resource locks
    → HeldAlone t resource (granted_or_queued locks u r mode).1
unfolding granted_or_queued
asked-Alone t resource r u mode locks held =
    let info = lock_or_new (Map.lookup r locks) in
    let asked = if can_grant info mode u then granted info mode u else queued info mode u in
    let alone : ((r == resource) ≡ true → Alone t asked) = (λ e.
      let (i, at, a) = entry-Alone t resource r locks held e in
      request-Alone info t u mode (rw at a)) in
    elim (Bool-cases (can_grant info mode u)) [
      | inl e ↦
          rw e (HeldAlone-insert t resource r (granted info mode u) locks (rw e at alone) held)
      | inr e ↦ rw e (HeldAlone-insert t resource r (queued info mode u) locks (rw e at alone) held)
    ]

attempt_none :
    (locks : Map String LockInfo) (t : ℕ) (resource : String) (mode : LockMode) (a : Attempt)
    (locks' : Map String LockInfo)
    → would_cause_deadlock t resource locks ≡ none
    → lock_attempt locks t resource mode ≢ some (a, locks')
unfolding lock_attempt
attempt_none locks t resource mode a locks' e = rw (e, lock_attempt) (λ h. cc)

attempt_deadlock :
    (locks : Map String LockInfo) (t : ℕ) (resource : String) (mode : LockMode) (a : Attempt)
    (locks' : Map String LockInfo)
    → would_cause_deadlock t resource locks ≡ some true
    → lock_attempt locks t resource mode ≡ some (a, locks')
    → (found_deadlock ≡ a) × (locks ≡ locks')
unfolding lock_attempt
attempt_deadlock locks t resource mode a locks' e = rw (e, lock_attempt) (λ h. (cc, cc))

attempt_made :
    (locks : Map String LockInfo) (t : ℕ) (resource : String) (mode : LockMode) (a : Attempt)
    (locks' : Map String LockInfo)
    → would_cause_deadlock t resource locks ≡ some false
    → lock_attempt locks t resource mode ≡ some (a, locks')
    → granted_or_queued locks t resource mode ≡ (a, locks')
unfolding lock_attempt
attempt_made locks t resource mode a locks' e = rw (e, lock_attempt) (λ h. cc)

pub lock_attempt-Alone :
    (t : ℕ) (resource r : String) (u : ℕ) (mode : LockMode) (a : Attempt)
    (locks locks' : Map String LockInfo)
    → lock_attempt locks u r mode ≡ some (a, locks')
    → HeldAlone t resource locks
    → HeldAlone t resource locks'
lock_attempt-Alone t resource r u mode a locks locks' h held =
    go (would_cause_deadlock u r locks) refl
  where
    go : (o : Option Bool) → would_cause_deadlock u r locks ≡ o → HeldAlone t resource locks'
    go none e = absurd (attempt_none locks u r mode a locks' e h)
    go (some true) e =
        subst (HeldAlone t resource) (attempt_deadlock locks u r mode a locks' e h).1 held
    go (some false) e =
        subst (HeldAlone t resource) (ap (λ z. z.1) (attempt_made locks u r mode a locks' e h))
          (asked-Alone t resource r u mode locks held)

deadlock_not_got : found_deadlock ≢ got_lock
deadlock_not_got h = cc

wait_not_got : must_wait ≢ got_lock
wait_not_got h = cc

-- a round in which the lock is granted for writing
taken-Alone :
    (t : ℕ) (r : String) (locks locks' : Map String LockInfo)
    → granted_or_queued locks t r write ≡ (got_lock, locks')
    → HeldAlone t r locks'
unfolding granted_or_queued
taken-Alone t r locks locks' h =
    let info = lock_or_new (Map.lookup r locks) in
    elim (Bool-cases (can_grant info write t)) [
      | inl e ↦
          let same : Map.insert r (granted info write t) locks ≡ locks' =
            ap (λ z. z.1) (rw (e, granted_or_queued) at h) in
          (
            granted info write t,
            rw (sym same, lookup-insert r r (granted info write t) locks, ==_refl r),
            granted-Alone info t e,
          )
      | inr e ↦ absurd (wait_not_got (ap (λ z. z.0) (rw (e, granted_or_queued) at h)))
    ]

pub write_granted-Alone :
    (t : ℕ) (r : String) (locks locks' : Map String LockInfo)
    → lock_attempt locks t r write ≡ some (got_lock, locks')
    → HeldAlone t r locks'
write_granted-Alone t r locks locks' h = go (would_cause_deadlock t r locks) refl
  where
    go : (o : Option Bool) → would_cause_deadlock t r locks ≡ o → HeldAlone t r locks'
    go none e = absurd (attempt_none locks t r write got_lock locks' e h)
    go (some true) e =
        absurd (deadlock_not_got (attempt_deadlock locks t r write got_lock locks' e h).0)
    go (some false) e =
        taken-Alone t r locks locks' (attempt_made locks t r write got_lock locks' e h)

pub release_in-Alone :
    (t : ℕ) (resource : String) (u : ℕ) (r : String) (locks : Map String LockInfo)
    → ((t == u) && (r == resource)) ≡ false
    → HeldAlone t resource locks
    → HeldAlone t resource (release_in u r locks)
unfolding release_in
release_in-Alone t resource u r locks other held = elim (Option-cases (Map.lookup r locks)) [
  | inl e ↦ rw (e, release_in) held
  | inr (info, e) ↦
      rw (e, release_in)
        (HeldAlone-insert t resource r (released info u) locks
          (λ q.
            released-Alone info t u (ground (arith, q, other))
              (found-Alone t resource r info locks held e q))
          held)
]

pub unqueue_in-Alone :
    (t : ℕ) (resource : String) (u : ℕ) (r : String) (locks : Map String LockInfo)
    → HeldAlone t resource locks
    → HeldAlone t resource (unqueue_in u r locks)
unfolding unqueue_in unqueued
unqueue_in-Alone t resource u r locks held = elim (Option-cases (Map.lookup r locks)) [
  | inl e ↦ rw (e, unqueue_in) held
  | inr (info, e) ↦
      rw (e, unqueue_in)
        (HeldAlone-insert t resource r (unqueued info u) locks
          (λ q. found-Alone t resource r info locks held e q) held)
]

pub release_each-Alone :
    (t : ℕ) (resource : String) (u : ℕ) (rs : List String) (locks : Map String LockInfo)
    → (t == u) ≡ false
    → HeldAlone t resource locks
    → HeldAlone t resource (release_each u rs locks)
unfolding release_each
release_each-Alone t resource u [] locks other held = held
release_each-Alone t resource u (r ∷ rs) locks other held =
    release_each-Alone t resource u rs (release_in u r locks) other
      (release_in-Alone t resource u r locks (rw other) held)
