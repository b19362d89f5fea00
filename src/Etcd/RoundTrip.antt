-- ===== src/Etcd/RoundTrip.antt =====
-- The store after a restart is the store before it.
use Prim.Native.String.{◌++◌ as ◌+++◌}
use vsector.Base.{
  String, ℕ, ◌≡◌, refl, sym, ap, ◌∙◌, Bool, true, false, Option, none, some, [], ◌∷◌, ◌==◌,
  if◌then◌else◌, first_some, first_some-none, inl, inr,
}
use vsector.Dict.{Dict, lookup, values}
use vsector.Cluster.{ClusterNode}
use vsector.Shard.{Shard}
use vsector.Migration.Record.{ShardMigration}
use vsector.Etcd
use vsector.Etcd.{Etcd}
use vsector.Etcd.Documents.{
  Object, shard_to_dict, node_to_dict, migration_to_dict, shard_from_dict, node_from_dict,
  migration_from_dict, shard_from_dict-shard_to_dict, node_from_dict-node_to_dict,
  migration_from_dict-migration_to_dict,
}
use vsector.Etcd.Durable.{
  Document, cluster_key_prefix, migration_key_prefix, shard_entries, update, document, cut, load,
  found, IsUnique, IsKeyedBy, apart_lem, cut_sound, lookup-update, lookup-update_other,
  update-IsUnique,
}
use vsector.Etcd.Reloading.{
  migration_entry, node_entry, shard_entry, load-component, not_cut, reserved_entry,
  load_from-keeps,
}

lookup-shard_entries :
    (k : String) (d : Dict Shard) → lookup k (shard_entries d) ≡ found shard_to_dict (lookup k d)
unfolding lookup
lookup-shard_entries k [] = refl
lookup-shard_entries k ((j, s) ∷ d) =
    ap (λ o. if j == k then some (shard_to_dict s) else o) (lookup-shard_entries k d)
    ∙ found_if (j == k) (lookup k d)
  where
    found_if :
        (b : Bool) (o : Option Shard)
        → (if b then some (shard_to_dict s) else found shard_to_dict o)
          ≡ found shard_to_dict (if b then some s else o)
    found_if true o = refl
    found_if false o = refl

shard_entries-IsUnique : (d : Dict Shard) → IsKeyedBy Shard.id d → IsUnique (shard_entries d)
shard_entries-IsUnique [] h = tt
shard_entries-IsUnique ((k, s) ∷ d) (own, alone, h) =
    (lookup-shard_entries k d ∙ ap (found shard_to_dict) alone, shard_entries-IsUnique d h)

-- Each record stands under its own id, and no shard's id begins with a reserved prefix.
pub record IsStored (e : Etcd) : Type 0 where
  pub shards : IsKeyedBy Shard.id e.shards
  pub nodes : IsKeyedBy ClusterNode.node_id e.nodes
  pub migrations : IsKeyedBy ShardMigration.migration_id e.migrations
  pub no_migration_key : (i : String) → Etcd.get (migration_key_prefix +++ i) e ≡ none
  pub no_cluster_key : (i : String) → Etcd.get (cluster_key_prefix +++ i) e ≡ none

-- `created_at` is not written, so a shard is loaded with the time of the load.
abbrev pub reloaded : ℕ → Option Shard → Option Shard
reloaded now none = none
reloaded now (some s) = some (record s { created_at = now })

read_back :
    {V : Type 0} (to_dict : V → Object) (from_dict : Object → V)
    → ((v : V) → from_dict (to_dict v) ≡ v)
    → (o : Option V) → found from_dict (found to_dict o) ≡ o
read_back to_dict from_dict back none = refl
read_back to_dict from_dict back (some v) = ap (λ x. some x) (back v)

module _ (now : ℕ) (e : Etcd) (stored : IsStored e) where
  abbrev with_nodes : Document
  with_nodes =
      update cluster_key_prefix ClusterNode.node_id node_to_dict (values e.nodes)
        (shard_entries e.shards)

  document-IsUnique : IsUnique (document e)
  unfolding document
  document-IsUnique =
      update-IsUnique migration_key_prefix ShardMigration.migration_id migration_to_dict
        (values e.migrations) with_nodes
        (update-IsUnique cluster_key_prefix ClusterNode.node_id node_to_dict (values e.nodes)
          (shard_entries e.shards) (shard_entries-IsUnique e.shards stored.shards))

  migration_in :
      (j : String)
      → lookup (migration_key_prefix +++ j) (document e)
        ≡ found migration_to_dict (Etcd.get_migration j e)
  unfolding document
  migration_in j =
      lookup-update migration_key_prefix ShardMigration.migration_id migration_to_dict j
        e.migrations with_nodes stored.migrations
      ∙ ap (first_some (found migration_to_dict (Etcd.get_migration j e))) (
          lookup-update_other cluster_key_prefix ClusterNode.node_id node_to_dict
            (migration_key_prefix +++ j) (values e.nodes) (shard_entries e.shards)
            (λ i same. apart_lem j i (sym same))
          ∙ lookup-shard_entries (migration_key_prefix +++ j) e.shards
          ∙ ap (found shard_to_dict) (stored.no_migration_key j))
      ∙ first_some-none (found migration_to_dict (Etcd.get_migration j e))

  node_in :
      (j : String)
      → lookup (cluster_key_prefix +++ j) (document e) ≡ found node_to_dict (Etcd.get_node j e)
  unfolding document
  node_in j =
      lookup-update_other migration_key_prefix ShardMigration.migration_id migration_to_dict
        (cluster_key_prefix +++ j) (values e.migrations) with_nodes (λ i same. apart_lem i j same)
      ∙ lookup-update cluster_key_prefix ClusterNode.node_id node_to_dict j e.nodes
          (shard_entries e.shards) stored.nodes
      ∙ ap (first_some (found node_to_dict (Etcd.get_node j e))) (
          lookup-shard_entries (cluster_key_prefix +++ j) e.shards
          ∙ ap (found shard_to_dict) (stored.no_cluster_key j))
      ∙ first_some-none (found node_to_dict (Etcd.get_node j e))

  shard_in :
      (j : String)
      → cut migration_key_prefix j ≡ none
      → cut cluster_key_prefix j ≡ none
      → lookup j (document e) ≡ found shard_to_dict (Etcd.get j e)
  unfolding document
  shard_in j free free' =
      lookup-update_other migration_key_prefix ShardMigration.migration_id migration_to_dict j
        (values e.migrations) with_nodes
        (λ i same. not_cut migration_key_prefix j i free (sym same))
      ∙ lookup-update_other cluster_key_prefix ClusterNode.node_id node_to_dict j (values e.nodes)
          (shard_entries e.shards) (λ i same. not_cut cluster_key_prefix j i free' (sym same))
      ∙ lookup-shard_entries j e.shards

  reloaded_lem :
      (o : Option Shard) → found (shard_from_dict now) (found shard_to_dict o) ≡ reloaded now o
  reloaded_lem none = refl
  reloaded_lem (some s) = ap (λ x. some x) (shard_from_dict-shard_to_dict now s)

  -- A shard's id that no prefix takes, and one that a prefix takes, which no shard has.
  shard_back :
      (j : String) (a b : Option String)
      → cut migration_key_prefix j ≡ a
      → cut cluster_key_prefix j ≡ b
      → Etcd.get j (load now (document e)) ≡ reloaded now (Etcd.get j e)
  unfolding lookup load
  shard_back j none none h g =
      load-component now (Etcd.get j) j (shard_from_dict now)
        (λ k v e'. shard_entry now k v e' j h g _ _ refl refl) (document e) document-IsUnique refl
      ∙ ap (found (shard_from_dict now)) (shard_in j h g)
      ∙ reloaded_lem (Etcd.get j e)
  shard_back j (some i) b h g =
      load_from-keeps now (Etcd.get j)
        (λ k v e'. reserved_entry now k v e' j i _ _ refl refl (inl h)) (document e) Etcd.empty
      ∙ sym (
          ap (reloaded now) (
            ap (λ x. Etcd.get x e) (cut_sound migration_key_prefix j i h)
            ∙ stored.no_migration_key i))
  shard_back j none (some i) h g =
      load_from-keeps now (Etcd.get j)
        (λ k v e'. reserved_entry now k v e' j i _ _ refl refl (inr g)) (document e) Etcd.empty
      ∙ sym (
          ap (reloaded now)
            (ap (λ x. Etcd.get x e) (cut_sound cluster_key_prefix j i g) ∙ stored.no_cluster_key i))

  -- Loading what was persisted gives every migration and every member back as it was, and every
  -- shard but for `created_at`, which becomes the time of the load; what the store did not have is
  -- not there. In the store that was persisted each record stands under its own id and no shard's
  -- id begins with a reserved prefix.
  pub load-document :
      (j : String)
      → (Etcd.get_migration j (load now (document e)) ≡ Etcd.get_migration j e)
        × (Etcd.get_node j (load now (document e)) ≡ Etcd.get_node j e)
        × (Etcd.get j (load now (document e)) ≡ reloaded now (Etcd.get j e))
  unfolding lookup
  load-document j = (
    load-component now (Etcd.get_migration j) (migration_key_prefix +++ j) migration_from_dict
          (λ k v e'. migration_entry now k v e' j (cut migration_key_prefix k) _ refl) (document e)
          document-IsUnique refl
        ∙ ap (found migration_from_dict) (migration_in j)
        ∙ read_back migration_to_dict migration_from_dict migration_from_dict-migration_to_dict _,
    load-component now (Etcd.get_node j) (cluster_key_prefix +++ j) node_from_dict
          (λ k v e'. node_entry now k v e' j _ _ refl refl) (document e) document-IsUnique refl
        ∙ ap (found node_from_dict) (node_in j)
        ∙ read_back node_to_dict node_from_dict node_from_dict-node_to_dict _,
    shard_back j _ _ refl refl,
  )
