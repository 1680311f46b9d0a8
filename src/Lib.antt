-- ===== src/Lib.antt =====
-- MaharitDB is a graph database: an in-memory graph of labelled nodes and edges, a storage layer with
-- transactions, a log and multi-version snapshots, a query language, a cluster layer and a server.
-- This library models seven of its parts.
--
-- Mvcc (crates/maharit-storage/src/mvcc.rs). `MvccManager` keeps a chain of versions for each node, a
-- logical clock, the running transactions and the next transaction number. The methods of the same
-- names (`begin_transaction`, `begin_snapshot`, `read_node`, `write_node`, `delete_node`, `commit`,
-- `rollback`; `init` for `new`; `gc` in Mvcc/Gc) take the manager and return it changed. The node data
-- are a type parameter, since the manager never looks into them; a `NodeVersion`'s field `data` is
-- called `node_data`. The clock and the transaction number are 64-bit counters, and their wrap-around
-- is in the model. The mutex and the atomic counters are one state that each call changes in one step,
-- since every method that changes a chain has the manager to itself.
--   Mvcc/Chain: a node's versions from the newest, and what each call does to them
--   Mvcc/Invariant, Mvcc/Steps: the invariant, the calls as steps, their preservation
--   Mvcc/Marks, Mvcc/Seen: what a deletion marks, what a snapshot sees of a chain
--   Mvcc/Isolated, Mvcc/Unmoved, Mvcc/Isolation: snapshot isolation
--   Mvcc/Reads, Mvcc/Committed, Mvcc/Rollback: reads after writes, deletions, commits and rollbacks
--   Mvcc/Sound: the invariant after all calls, collections among them
--   Mvcc/Gc: the collection of old versions
--
-- Graph (crates/maharit-core/src/graph.rs, with the property calls of graph_backend.rs beside it). A
-- graph is vectors of slots for nodes and edges, the adjacency sets of both directions, a free list
-- for each kind of slot, the two counts and an index of nodes by label. A call that could panic (an
-- index out of bounds, a count below zero) returns `none` there, so that a theorem that it returns
-- `some` says that it does not panic. Property values are a type parameter. A hash set is a list
-- without repetitions and a hash map is an association list; no theorem depends on their order.
--   Graph/Edges, Graph/Deletion, Graph/Labels, Graph/Restore: the operations
--   Graph/WellFormed: the invariant
--   Graph/Adjacency, Graph/Index, Graph/Update: what a write does to its parts
--   Graph/NodeCreation, Graph/EdgeCreation, Graph/EdgeLaws, Graph/NodeDeletion, Graph/Relabel: each
--   call's laws, with Graph/NodeLaws, Graph/Drops, Graph/DropLoops and Graph/NodeTaking for their lemmas
--   Graph/Restoring, Graph/EdgeRestoring: the calls under a given number, with Graph/Slots
--   Graph/PropertyLaws, Graph/Properties: the calls on properties of nodes and edges
--   Graph/View: the abstract view of a graph, as functions from numbers to nodes and edges, and the
--   operations on views; Graph/Refine: the calls as operations on views
--   Graph/Reading: the listings of a node's edges; Graph/History: sequences of calls
--
-- Concurrent (crates/maharit-core/src/concurrent_graph.rs). `ConcurrentGraph`, the graph of the server, is
-- maps from numbers to nodes and edges, sets of edges for both directions, an index of nodes by label
-- and two counters, the numbers that come next. The methods of the same names stand in
-- Concurrent/Calls, and each is one step: what other threads do inside a call is not modelled. Nodes
-- and edges are those of Graph.
--   Concurrent/Sets: maps of sets; Concurrent/Consistent: the invariant, by its parts
--   Concurrent/Deletion, Concurrent/Taken, Concurrent/NodeDeletion: the loops of `delete_node`, and
--   what it leaves
--   Concurrent/Steps, Concurrent/Changes, Concurrent/EdgeChanges: the other calls
--   Concurrent/History: sequences of calls
--
-- Txn (crates/maharit-storage/src/transaction.rs). `TransactionManager` is the transactions, the lock
-- table and the next number; its methods have the same names (`init` for `new`). A method that fails
-- returns `refused` with the error. `acquire_lock` is a loop whose rounds are `lock_attempt`; what other
-- threads do while it sleeps is a list of arbitrary functions on the manager, one for each sleep before
-- the timeout, and in Txn/History an arbitrary sequence of steps.
--   Txn/Locks: the lock table, the deadlock check, acquiring and releasing
--   Txn/Undo, Txn/Calls: commits, rollbacks, and the calls that change a graph within a transaction
--   Txn/Held, Txn/History: who holds a write lock
--   Txn/WaitGraph, Txn/WaitClosed, Txn/WaitFuel, Txn/Deadlock: the waits-for search
--   Txn/StaleRequest: a request that stays in the queue
--   Txn/UndoView: what each undo record says is to be undone, as an operation on views
--   Txn/UndoRefines: `undo_one` and `undo_each` do that to the graph. The graph of `rollback_backend`
--   is any `GraphBackend`; the model has the one that `rollback` passes, that of graph.rs.
--
-- Cluster (crates/maharit-cluster/src: strategy.rs, shard.rs, router.rs). The trait of the sharding
-- strategies is a record, and hash, range and label sharding are its values; the shard map is an
-- association list; the router's functions take the map and the strategy as they are at the call.
--   Cluster/Shards: registering shards, and the broadcast to the active ones
--   Cluster/Rebalance: the plan of moves; Cluster/Pairing, Cluster/Balance: what it moves
--   Cluster/Routing: the shards that a query for a label visits
--
-- LabelIndex (crates/maharit-core/src/index.rs). The four maps of `LabelIndex` are one record, and its
-- methods have the same names.
--   LabelIndex/Sets: maps of sets; LabelIndex/Relation, LabelIndex/Calls: the relations that the maps
--   hold and what each call does to them; LabelIndex/Listings: the listings
--
-- Cache (crates/maharit-query/src/cache.rs). `QueryCache`, `AstCache` and `PlanCache` are records; the
-- methods of `AstCache` begin with `ast_`, those of `PlanCache` stand in Cache/Plans. The parser, the
-- planner and `normalize_query` are parameters. The clock and the counters wrap at 64 bits.
--   Cache/Oldest: the entry that makes room; Cache/Bounds: the size of each cache
--
-- Base has what they share: tests on numbers, lists, maps, sets and vectors.
--
-- Bounds: node and edge numbers and the two counts of a graph are unbounded numbers here, as they
-- are bounded by the memory that the vectors take. The exception is the number that a caller gives
-- to `create_node_with_id_and_labels`: there `id + 1` wraps at 64 bits. The counters of
-- `ConcurrentGraph` wrap too. Every loop of the source that is modelled runs
-- over a list, but for two. The loop of `rebalance_plan` ends a load in each round: its fuel is the
-- number of loads, and it is proved that the plan is then complete. The search of the deadlock
-- check pushes the holders that a visited transaction waits for: its fuel is `search_fuel`, all
-- holders once and once more for each holder that can be visited, and it is proved that the search
-- then ends. Node counts and their sum are unbounded numbers too.
--
-- Not modelled: the age of a transaction and the instants at which requests were queued, the
-- write-ahead log, backups, the query language but for its caches, constraints, property and
-- full-text indexes, graph algorithms, the cluster's coordinator, replication, authentication, the
-- server and the clients. Of graph.rs the iterators over all nodes and edges, the statistics and
-- the traversal entry points are left out. Of
-- concurrent_graph.rs the iterators and counts are left out, and its wrapper mutation_log.rs.
mod Base
pub mod Mvcc
pub mod Graph
pub mod Cluster
pub mod Txn
pub mod Concurrent
pub mod LabelIndex
pub mod Cache
