-- ===== src/Lib.antt =====
-- A verification of the core of TollMesh Store, a replicated in-memory store written in Go: rate
-- limits, replay protection and a cache that are made durable by a write-ahead log and snapshots
-- and replicated by gossip; beside them transactions, streams with consumer groups, job queues,
-- publish and subscribe, sorted sets, a sharding ring, ranking configurations and pipelines.
--
-- The parts, and where they are modelled:
-- - core/crdt.go: Core/Crdt. `GCounter`, `GSet` and `ExpiringSet` are records over maps; a method that
--   writes returns the new value. `Counter` has the counter, `Sets` the two sets.
-- - metrics/metrics.go: Metrics. The rings of latency samples keep slots, cursor and count as the
--   code does; Metrics/Window gives their samples in the order of their age.
-- - persistence/persistence.go: Persistence. The log, the logs set aside and the snapshot directory
--   are lists; Persistence/Log is about reading back what was written.
-- - store/mesh_store.go: Store has the record and the calls of a client (`consume_key` is Consume,
--   `seen_key` Seen, `get` Get, `set_key` Set), the replay of the log and the cleanup.
--   Store/Limiter and Store/State are about those calls, Store/Recovery about a restart from the log,
--   Store/Snapshots about CreateSnapshot and recovery from it, Store/Gossip about GetState and
--   MergeState, whose wire state is the part of core/types.go that is used here.
-- - transactions/transactions.go: Transactions, over any type of values. Transactions/Lifecycle is
--   about any calls of one node, Transactions/Committing about a transaction from its begin to its
--   commit, Transactions/Gossip about merging a peer's transactions.
-- - stream/entry.go: Stream, with Stream/Retention, Stream/Range and Stream/Reading, Stream/Index (the list
--   beside the map by id), Stream/Merging and Stream/Order (MergeSnapshot).
-- - stream/consumer_group.go: Stream/Groups, with Groups/Members and Groups/Assignment.
-- - queue/job.go: Queue, with Queue/Claiming and Queue/Finishing for the calls of a worker and
--   Queue/Gossip for the reads and the merge. Queue/Claims, Queue/Retries, Queue/Order, Queue/Panic and
--   Queue/Enqueueing are about the calls, Queue/Entries, Queue/Found, Queue/Merging and Queue/Stale
--   about the merge. Jobs stand in a heap under addresses, and a call may panic.
-- - queue/job_manager.go: Manager has the table of queues and its calls, Manager/Cleanup the cleanup.
--   Manager/Eviction, Manager/Loops and Manager/Active are about the cleanup, Manager/Calls about
--   the replay of dead letters.
-- - core/sharding.go: Sharding. Sharding/Search is about the binary search, Sharding/Owner about
--   GetNode, Sharding/Changes about nodes that join and leave, Sharding/Nodes about GetNodes.
-- - pubsub/pubsub.go: Pubsub has the broker and its calls, Pubsub/Gossip its snapshot and merge.
--   Pubsub/Valid says what a valid broker is; Pubsub/Subscribing, Pubsub/Unsubscribing, Pubsub/Addresses,
--   Pubsub/Sending and Pubsub/Running show that the calls keep it and what they deliver, Pubsub/Merging
--   is about the merge of histories and Pubsub/Calls about sequences of calls.
-- - sortedset/sorted_set.go and sortedset/skiplist.go: SortedSet has the set and its calls,
--   SortedSet/Nodes and SortedSet/Skip the skip list, with its nodes in a heap under addresses.
--   SortedSet/Merging is about the merge of members, SortedSet/Clock about writes that it takes back.
-- - ranking/registry.go: Ranking has the registry and its calls, Ranking/Merging and Ranking/Converge
--   are about its merge.
-- - scripting/pipeline.go: Scripting has the engine, over any handlers, and Scripting/Calls is about
--   sequences of calls. The timer of a run is the number of steps that end before it fires.
-- Common holds what they share: Boolean tests, maps, lists, texts, versions, UTF-8, the clock, decimal
-- numerals and sorting.
--
-- How the code is modelled. A call is one step, since a method holds its lock over what it does.
-- CreateSnapshot, which writes to disk without the lock, is also given as its two writes. Two other
-- gaps are left out: GetState stamps the metrics under a lock of its own, and a transaction method
-- lets go of the manager's lock before it takes the transaction's. Each
-- reading of the clock is an argument, since two readings in one call differ; instants and
-- durations are natural numbers, and so are counts and limits, which the code keeps in 64-bit
-- integers far from their bound. A Go map is an association list in which a key stands once (the
-- hypotheses Unique and UniqueIn); a loop over a map takes the order of the list, which Go leaves
-- open. Byte strings are lists of numbers where they pass through JSON. `sort.Slice` is insertion
-- sort. Loops are structural recursion on the list they run through, or on
-- the positions that are left. Three are on fuel: decimal numerals, 20 digits, which every 64-bit
-- number has room in; the binary search of the ring, whose fuel is the length of the list and one,
-- which Sharding/Search shows to be enough; and the walks of the skip list, whose fuel is the size of
-- the heap, a step for each node, which is enough where the links have no cycle. Scores are a type
-- with a comparison, and the limits and ranks of a range are not negative. Hashes are FNV-1a modulo
-- 2 ^ 64, on the UTF-8 bytes of a text. Regular expressions are a parameter: what each pattern
-- compiles to, as a test.
--
-- Not modelled: errors of the disk and of JSON (a write succeeds), goroutines and timers (the work
-- of one tick is a function), locks (two methods of the broker take two locks in a different order),
-- and the rest of the repository: WebAssembly scripts, search, the rankers, replication,
-- the transport, the HTTP interface and the SDKs. The store's snapshot and gossip state have only
-- the limiters, the replay protection, the cache and the metrics. A negative time to live is as
-- one of 0.
mod Common
pub mod Core
pub mod Persistence
pub mod Manager
pub mod Metrics
pub mod Pubsub
pub mod Queue
pub mod Scripting
pub mod Ranking
pub mod SortedSet
pub mod Store
pub mod Sharding
pub mod Stream
pub mod Transactions
