-- ===== src/Etcd.antt =====
-- `InMemoryEtcd` (vsector/sharding/etcd.py): the metadata store that holds shards, cluster members
-- and migrations. The store hands out its own objects; since each manager writes an object back
-- under its own key at once, a write to the object and the write to the store are one here.
pub mod Documents
pub mod Durable
pub mod Reloading
pub mod RoundTrip
mod Examples
use vsector.Base.{String, Option, List, [], ◌==◌, select}
use vsector.Dict.{Dict, lookup, insert, erase, values}
use vsector.Cluster.{ClusterNode}
use vsector.Shard.{Shard}
use vsector.Migration.Record.{ShardMigration}

pub record Etcd : Type 0 where
  pub shards : Dict Shard
  pub nodes : Dict ClusterNode
  pub migrations : Dict ShardMigration

abbrev pub empty : Etcd
empty = record { shards = []; nodes = []; migrations = [] }

abbrev pub put : Shard → Etcd → Etcd
put s e = record e { shards = insert s.id s e.shards }

abbrev pub get : String → Etcd → Option Shard
get k e = lookup k e.shards

abbrev pub list_by_namespace : String → Etcd → List Shard
list_by_namespace ns e = select (λ s. s.namespace == ns) (values e.shards)

abbrev pub delete : String → Etcd → Etcd
delete k e = record e { shards = erase k e.shards }

abbrev pub all : Etcd → List Shard
all e = values e.shards

abbrev pub put_node : ClusterNode → Etcd → Etcd
put_node n e = record e { nodes = insert n.node_id n e.nodes }

abbrev pub get_node : String → Etcd → Option ClusterNode
get_node k e = lookup k e.nodes

abbrev pub list_nodes : Etcd → List ClusterNode
list_nodes e = values e.nodes

abbrev pub delete_node : String → Etcd → Etcd
delete_node k e = record e { nodes = erase k e.nodes }

abbrev pub put_migration : ShardMigration → Etcd → Etcd
put_migration m e = record e { migrations = insert m.migration_id m e.migrations }

abbrev pub get_migration : String → Etcd → Option ShardMigration
get_migration k e = lookup k e.migrations

abbrev pub list_migrations : Etcd → List ShardMigration
list_migrations e = values e.migrations

abbrev pub delete_migration : String → Etcd → Etcd
delete_migration k e = record e { migrations = erase k e.migrations }
