-- ===== src/Etcd/Examples.antt =====
-- A store with one record of each kind, persisted and loaded.
use Prim.Native.String.{◌++◌ as ◌+++◌}
use vsector.Base.{◌≡◌, refl, true, none, some, [], ◌∷◌, eq_false_of_ne}
use vsector.Dict.{lookup}
use vsector.Cluster.State.{NodeMembershipState}
use vsector.Shard.{Shard}
use vsector.Shard.State.{ShardState}
use vsector.Migration.State.{MigrationState}
use vsector.Migration.Record.{FailureNote}
use vsector.Etcd
use vsector.Etcd.{Etcd}
use vsector.Etcd.Durable.{cluster_key_prefix, migration_key_prefix, cut, document, load}
use vsector.Etcd.Reloading.{not_cut}
use vsector.Etcd.RoundTrip.{IsStored, reloaded, load-document}

abbrev shard : Shard
shard = record {
  id = "s";
  namespace = "ns";
  node_id = "n1";
  state = ShardState.draining;
  vector_count = 3;
  max_vectors = 10;
  replicas = "n2" ∷ [];
  created_at = 5;
  version = 4;
}

abbrev store : Etcd
store = record {
  shards = ("s", shard) ∷ [];
  nodes =
      (
        "n1",
        record {
          node_id = "n1";
          cluster_id = "c";
          state = NodeMembershipState.draining;
          version = 3;
        },
      )
      ∷ [];
  migrations =
      (
        "m",
        record {
          migration_id = "m";
          namespace = "ns";
          shard_id = "s";
          source_node_id = "n1";
          target_node_id = "n2";
          state = MigrationState.failed;
          source_version = 4;
          cluster_id = "c";
          created_at = 7;
          updated_at = 8;
          error = some (FailureNote.forced "stop");
          version = 2;
          source_digest = some "d";
          target_digest = none;
          finalized = true;
        },
      )
      ∷ [];
}

free : cut migration_key_prefix "s" ≡ none
unfolding cut
free = refl

free_of_cluster : cut cluster_key_prefix "s" ≡ none
unfolding cut
free_of_cluster = refl

store-IsStored : IsStored store
unfolding lookup
store-IsStored = record {
  shards = (refl, refl, tt);
  nodes = (refl, refl, tt);
  migrations = (refl, refl, tt);
  no_migration_key = λ i.
      rw (eq_false_of_ne "s" (migration_key_prefix +++ i) (not_cut migration_key_prefix "s" i free))
        refl;
  no_cluster_key = λ i.
      rw
        (eq_false_of_ne "s" (cluster_key_prefix +++ i)
          (not_cut cluster_key_prefix "s" i free_of_cluster))
        refl;
}

load-document_example :
    (Etcd.get_migration "s" (load 9 (document store)) ≡ Etcd.get_migration "s" store)
    × (Etcd.get_node "s" (load 9 (document store)) ≡ Etcd.get_node "s" store)
    × (Etcd.get "s" (load 9 (document store)) ≡ reloaded 9 (Etcd.get "s" store))
load-document_example = load-document 9 store store-IsStored "s"

-- A shard that was created at 5 has, after a restart at 9, the creation time 9.
created_anew : reloaded 9 (Etcd.get "s" store) ≡ some (record shard { created_at = 9 })
unfolding lookup
created_anew = refl
