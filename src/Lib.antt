-- ===== src/Lib.antt =====
-- Vsector is a vector database whose shards live on the nodes of a cluster. This library models
-- the part that decides who owns a shard and where a request goes: the cluster membership, the
-- lifecycle of a shard, its migration from one node to another, the router, the
-- replication of writes, and the storage of a shard with its recovery.
--
-- The parts and their files:
--   Cluster      `ClusterNode` and `ClusterMembershipManager` (vsector/cluster/node.py,
--                vsector/cluster/membership.py), with `bootstrap_local_node`.
--   Shard        `Shard` and `ShardState` (vsector/sharding/shard.py).
--   Etcd         `InMemoryEtcd`, the store of shards, members and migrations
--                (vsector/sharding/etcd.py): Documents and Durable are what it persists and loads,
--                with `to_dict` of the records, Reloading and RoundTrip what a restart gives back.
--   Lifecycle    `ShardLifecycleManager` (vsector/sharding/lifecycle.py).
--   Migration    `ShardMigrationManager` (vsector/sharding/migration.py): State and Record are the
--                record, Checks and Migration the calls' common parts, Copy and Commit the steps,
--                Boundary the storage that they call.
--   HashRing     `RendezvousHash` (vsector/sharding/hash_ring.py).
--   Placement    `RoutingDecision` (vsector/sharding/placement.py) and how one shard is decided.
--   Router       `ShardRouter` (vsector/sharding/router.py): the caches, the selection, the routing
--                calls, and in Split the split of a shard.
--   Replication  `InProcessReplicaTransport` (vsector/sharding/replication.py): delivery, health and,
--                in Aggregate, the summary of a request.
--   Storage      `SegmentStore`, the write-ahead log and `recover` (vsector/storage/segment.py,
--                vsector/storage/wal.py, vsector/storage/recovery.py); Segments is the log in segments.
--   Transfer     `ShardTransferProvider` (vsector/sharding/transfer.py) over the storage roots of the
--                nodes: Contents and Copying are the steps, Resolving what a recovery of an
--                imported root finds, Exchange the whole transfer, Provision the migration over it.
--   Index        what a shard asks of its index, `FlatIndex` (vsector/index/flat.py) and
--                `IndexLifecycleManager` (vsector/index/lifecycle.py).
--   Context      `ShardContext` (vsector/ingest/service.py), what the primary does to it, and
--                `apply_replicated_upsert` and `apply_replicated_delete`
--                (vsector/sharding/replication.py): Reading and Puts are the store, Sound the
--                invariant, Reopening a start, Histories and Restarts whole runs.
--   Gateway      the rate limiter and the circuit breaker (vsector/gateway/auth.py): Limits and
--                Breaker are what a caller can rely on.
--   Ingest       `IngestService` (vsector/ingest/service.py), which composes Router, Context and
--                Replication: Contexts is what calls leave of the contexts, Deletion, Counts and
--                Reading are a delete by ids and the reads after it, Upserts, Counting and
--                Accounting an upsert and what it answers.
--   Errors       the exceptions of these, as one type.
--   Exec         a call over a state that may raise; the state comes back on both ways out.
--   Dict, Base   Python's `dict`, and what all modules share.
-- The managers share the store: the membership reads and writes its members, the migration reads
-- shards and members and writes shards and migrations. A call is one atomic step over the store;
-- the locks of the source are not modelled. The clock, `uuid4` and the hashes are arguments.
--
-- The state of a call is a value, so an object that the source mutates in place is one that is
-- put back. In `Lifecycle` the caller's shard object and the store are two parts of the state, since
-- the source rolls the object back when the store refuses it.
--
-- The migration takes its storage as a record `Transfer` of the five calls of
-- `ShardTransferProvider` on a state of any type, with one law: a verification against a given
-- digest returns that digest or raises. `Transfer.Provision.provided` fills it from
-- vsector/sharding/transfer.py. There the digest of the canonical JSON is a parameter of which
-- nothing is assumed, and the names that the clock gives to tables are an argument. No loop needs
-- fuel.
--
-- The log of a shard is one list of entries in all parts but `Storage.Segments`, where it is in
-- segments, with the condition under which the two read back alike. The router's cached lists are
-- copies of what the store had, where the in-memory store of the source hands out its own objects.
-- What a manager restores after a write to the store has raised is left out for members and
-- migrations, whose writes do not raise. Storage roots are compared as texts.
--
-- Not modelled: the texts of messages, the bytes of JSON, the etcd client, the filters of a delete,
-- threads, and the components that are not named above.
pub mod Base
pub mod Cluster
pub mod Context
pub mod Dict
pub mod Errors
pub mod Etcd
pub mod Exec
pub mod Gateway
pub mod HashRing
pub mod Index
pub mod Ingest
pub mod Lifecycle
pub mod Migration
pub mod Placement
pub mod Replication
pub mod Router
pub mod Shard
pub mod Storage
pub mod Transfer
