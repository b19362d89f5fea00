-- ===== src/Transfer/Provision.antt =====
-- The provider as the storage of the migration manager, and the copy of a migration over it.
use mathlib.Core.Logic.{◌≢◌}
use vsector.Base.{String, ℕ, ◌≡◌, refl, not, some, List, arith, ◌==◌, eq_iff, ◌||◌, All}
use vsector.Errors.{Error}
use vsector.Exec.{ok, pure, raise_if, ◌>>=◌, ◌>>◌, try_except}
use vsector.Shard.{Shard}
use vsector.Etcd
use vsector.Storage.{VectorRecord}
use vsector.Migration.Boundary.{Transfer}
use vsector.Migration.Checks.{World}
use vsector.Migration.Record.{ShardMigration}
use vsector.Migration.{on_disk}
use vsector.Migration.Copy.{copy_data}
use vsector.Transfer.{
  ShardExport, Disk, Provider, node_base_dir, export_shard, import_shard, verify_shard,
  finalize_source, discard_target,
}
use vsector.Transfer.Contents.{IsReadable}
use vsector.Transfer.Copying.{IsClock}
use vsector.Transfer.Exchange.{Transferred, transfer_roundtrip}

checked_digest :
    (expected actual durable : String) (e : Error) (disk : Disk) (found : String)
    → ((raise_if (not (actual == expected) || not (durable == expected)) e >> pure actual) disk).0
      ≡ ok found
    → found ≡ expected
unfolding ◌>>=◌
checked_digest expected actual durable e disk found h = ground (arith, eq_iff actual expected)

-- A copy whose three calls of the storage return.
copy_data_ok :
    {Disk Payload : Type 0} (transfer : Transfer Disk Payload) (m : ShardMigration) (shard : Shard)
    (w : World Disk) (export : Payload) (d d' d'' : Disk) (actual : String)
    → transfer.export_shard m.source_node_id shard w.disk ≡ (ok export, d)
    → transfer.import_shard m.target_node_id shard export d ≡ (ok tt, d')
    → transfer.verify_shard m.target_node_id shard (some (transfer.digest export)) d'
      ≡ (ok actual, d'')
    → let done : ShardMigration = record m {
      source_digest = some (transfer.digest export);
      target_digest = some actual;
    } in
      copy_data transfer m shard w
      ≡ (ok done, record w { disk = d''; etcd = Etcd.put_migration done w.etcd })
unfolding copy_data ◌>>=◌ try_except on_disk
copy_data_ok transfer m shard w export d d' d'' actual exports imports verifies =
    rw (exports, imports, verifies) refl

module _ (sha256 : List VectorRecord → List String → String) (p : Provider)
    (clock : ℕ → String) where
  pub verify_shard_expected :
      (node_id : String) (s : Shard) (expected actual : String) (d : Disk)
      → (verify_shard sha256 p node_id s (some expected) d).0 ≡ ok actual
      → actual ≡ expected
  unfolding ◌>>=◌ verify_shard
  verify_shard_expected node_id s expected actual d h = checked_digest expected _ _ _ d actual h

  -- `ShardTransferProvider` as the manager calls it.
  abbrev pub provided : Transfer Disk ShardExport
  provided = record {
    digest = ShardExport.digest;
    export_shard = export_shard sha256 p;
    import_shard = import_shard sha256 p clock;
    verify_shard = verify_shard sha256 p;
    finalize_source = finalize_source sha256 p;
    discard_target = discard_target sha256 p;
    verify_expected = verify_shard_expected;
  }

  -- The copy of a migration over the provider: it returns the record with the digest of the export
  -- on both sides, stores it, and the disk is that of the transfer.
  pub record CopySucceeds (m : ShardMigration) (shard : Shard) (w : World Disk) : Type 0 where
    transferred : Transferred sha256 p clock m.source_node_id m.target_node_id shard w.disk
    copies :
        let done : ShardMigration = record m {
          source_digest = some transferred.export.digest;
          target_digest = some transferred.export.digest;
        } in
        copy_data provided m shard w
        ≡ (ok done, record w { disk = transferred.after; etcd = Etcd.put_migration done w.etcd })

  -- Over the provider the copy step never fails: it returns the record with the digest of what was
  -- exported as both its digests, stores that record, and the target holds what the source holds
  -- and held. The source and the target have different storage roots, the log of the source has no
  -- delete of the empty id, and the clock names the tables in the order of time.
  pub copy_data-CopySucceeds :
      (m : ShardMigration) (shard : Shard) (w : World Disk)
      → IsClock clock
      → node_base_dir p m.source_node_id ≢ node_base_dir p m.target_node_id
      → All IsReadable (w.disk (node_base_dir p m.source_node_id) shard.id).log
      → CopySucceeds m shard w
  copy_data-CopySucceeds m shard w in_order apart readable = record {
    transferred = t;
    copies = chain;
  }
    where
      t : Transferred sha256 p clock m.source_node_id m.target_node_id shard w.disk
      t =
          transfer_roundtrip sha256 p clock m.source_node_id m.target_node_id shard w.disk in_order
            apart readable

      done : ShardMigration
      done = record m { source_digest = some t.export.digest; target_digest = some t.export.digest }

      chain :
          copy_data provided m shard w
          ≡ (ok done, record w { disk = t.after; etcd = Etcd.put_migration done w.etcd })
      chain =
          copy_data_ok provided m shard w t.export w.disk t.after t.after t.export.digest t.exports
            t.imports t.verifies
