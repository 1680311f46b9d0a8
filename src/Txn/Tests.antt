-- ===== src/Txn/Tests.antt =====
-- transaction.rs: the theorems at concrete lock tables.
use maharit_db.Base.{
  arith, List, none, reverse, All, ℕ, String, Bool, true, false, some, [], ◌∷◌, ◌≡◌, refl,
}
use maharit_db.Base.Eq.{◌==◌, nat_eq, string_eq}
use maharit_db.Base.Map
use maharit_db.Base.Map.{Map}
use maharit_db.Base.Set
use maharit_db.Graph.{new}
use maharit_db.Graph.View.{view}
use maharit_db.Graph.History.{new-WellFormed}
use maharit_db.Txn.{
  TransactionManager, LockInfo, read, write, UndoRecord, add_label, set_property, delete_edge,
  delete_node,
}
use maharit_db.Txn.Undo.{undo_each}
use maharit_db.Txn.UndoView.{Restorable, Refines, undone}
use maharit_db.Txn.UndoRefines.{undo_each-Refines}
use maharit_db.Txn.Locks.{
  got_lock, must_wait, lock_attempt, would_cause_deadlock, others, search, can_grant, lock_or_new,
  granted, queued, granted_or_queued, release_in,
}
use maharit_db.Txn.Held.{HeldAlone}
use maharit_db.Txn.History.{Keeping, here, next, round, write_lock-alone}
use maharit_db.Txn.Deadlock.{
  Decided, WouldDeadlock, contested, would_cause_deadlock-Decided, upgrade_undetected,
}
use maharit_db.Txn.StaleRequest.{reading, granted_again}

-- 1 writes `a` and waits for `b`, which 2 writes
abbrev crossed : Map String LockInfo
crossed =
    ("a", record { mode = write; holders = 1 ∷ []; waiting = [] })
    ∷ ("b", record { mode = write; holders = 2 ∷ []; waiting = (1, write) ∷ [] })
    ∷ []

-- the request of 2 for `a` closes the cycle
crossed-deadlock : would_cause_deadlock 2 "a" crossed ≡ some true
unfolding would_cause_deadlock Map.lookup others search Set.contains Set.insert
crossed-deadlock = refl

would_cause_deadlock-Decided_example :
    (b : Bool) × (would_cause_deadlock 2 "a" crossed ≡ some b)
    × Decided b (WouldDeadlock 2 "a" crossed)
would_cause_deadlock-Decided_example = would_cause_deadlock-Decided 2 "a" crossed

abbrev fresh : TransactionManager ℕ
fresh = record { next_tx_id = 1; transactions = []; locks = [] }

-- 1 writes `a`
abbrev one_lock : Map String LockInfo
one_lock = ("a", record { mode = write; holders = 1 ∷ []; waiting = [] }) ∷ []

-- 2 waits for it
abbrev one_waits : Map String LockInfo
one_waits = ("a", record { mode = write; holders = 1 ∷ []; waiting = (2, read) ∷ [] }) ∷ []

first_round : lock_attempt [] 1 "a" write ≡ some (got_lock, one_lock)
unfolding lock_attempt would_cause_deadlock granted_or_queued can_grant granted Map.lookup
    Map.insert Set.insert Set.contains
first_round = refl

second_round : lock_attempt one_lock 2 "a" read ≡ some (must_wait, one_waits)
unfolding lock_attempt would_cause_deadlock granted_or_queued can_grant queued Map.lookup Map.insert
    Set.insert Set.contains search others
second_round = refl

-- the second round follows the first
second_follows :
    Keeping 1 "a" (record fresh { locks = one_lock }) (record fresh { locks = one_waits })
second_follows = next here (round 2 "a" read must_wait one_waits second_round) tt

write_lock-alone_example : HeldAlone 1 "a" one_waits
write_lock-alone_example =
    write_lock-alone fresh (record fresh { locks = one_waits }) 1 "a" one_lock first_round
      second_follows

abbrev same : ℕ → ℕ → Bool
same a b = a == b

apart : same 1 2 ≡ false
apart = refl

-- 1 and 2 read `a`, and 1 is queued to write it
abbrev upgrading : Map String LockInfo
upgrading = ("a", contested 1 2 []) ∷ []

upgrading-at : Map.lookup "a" upgrading ≡ some (contested 1 2 [])
unfolding Map.lookup
upgrading-at = refl

upgrade_undetected_example :
    (would_cause_deadlock 2 "a" upgrading ≡ some false)
    × (can_grant (lock_or_new (Map.lookup "a" upgrading)) write 1 ≡ false)
    × (can_grant (lock_or_new (Map.lookup "a" upgrading)) write 2 ≡ false)
upgrade_undetected_example =
    upgrade_undetected 1 2 "a" upgrading [] apart upgrading-at (λ e. refl, tt)

abbrev read_table : Map String LockInfo
read_table = ("a", reading 1 2 []) ∷ []

read_table-at : Map.lookup "a" read_table ≡ some (reading 1 2 [])
unfolding Map.lookup
read_table-at = refl

granted_again_example :
    ((granted_or_queued read_table 2 "a" read).0 ≡ got_lock)
    × (Map.lookup "a"
          (release_in 1 "a" (release_in 2 "a" (granted_or_queued read_table 2 "a" read).1))
        ≡ some (record { mode = read; holders = 2 ∷ []; waiting = [] }))
granted_again_example = granted_again 1 2 "a" read_table [] apart read_table-at

-- a person who likes herself is gone, after she has got an age and a label
abbrev log : List (UndoRecord ℕ)
log =
    add_label 0 "Admin"
    ∷ set_property 0 "age" none
    ∷ delete_edge 2 0 0 "LIKES" (("since", 7) ∷ [])
    ∷ delete_node 0 ("Person" ∷ "Admin" ∷ []) (("age", 41) ∷ [])
    ∷ []

abbrev log-Restorable : All Restorable log
log-Restorable = (tt, (tt, (tt, (omega arith, tt))))

undo_each-Refines_example : Refines (undo_each (reverse log) new) (undone log (view new))
undo_each-Refines_example = undo_each-Refines log new log-Restorable new-WellFormed
