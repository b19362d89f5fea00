-- ===== src/Transfer/Exchange.antt =====
-- A transfer as the migration manager makes it: export, import, verify.
use mathlib.Core.Logic.{◌≢◌}
use vsector.Base.{
  String, ℕ, ◌≡◌, refl, ap, ◌∙◌, some, List, eq_refl, All, sort_by, sort_by_twice, eq_false_of_ne,
}
use vsector.Dict.{values}
use vsector.Exec.{Result, ok, pure, raise_if, ◌>>=◌, ◌>>◌}
use vsector.Errors.{Error}
use vsector.Shard.{Shard}
use vsector.Storage.{VectorRecord, RecoveryResult, durable_records_by_id, recover}
use vsector.Transfer.{
  ShardExport, Root, Disk, Provider, no_root, open_store, open_log, imported, replace,
  node_base_dir, export_of, export_shard, import_shard, verify_shard, discard_target,
  compute_digest, differs,
}
use vsector.Transfer.Contents.{IsReadable}
use vsector.Transfer.Copying.{IsClock}
use vsector.Transfer.Resolving.{IsExport, Recovers, export_of-IsExport, imported-Recovers}

module _ (sha256 : List VectorRecord → List String → String) (p : Provider) where
  replace_same :
      (base shard_id : String) (root : Root) (disk : Disk)
      → replace base shard_id root disk base shard_id ≡ root
  replace_same base shard_id root disk = rw (eq_refl base, eq_refl shard_id) refl

  replace_other :
      (base other shard_id : String) (root : Root) (disk : Disk)
      → other ≢ base
      → replace base shard_id root disk other shard_id ≡ disk other shard_id
  replace_other base other shard_id root disk apart = rw (eq_false_of_ne other base apart) refl

  -- The calls on a root that is known.
  export_at :
      (node_id : String) (shard : Shard) (disk : Disk) (root : Root)
      → disk (node_base_dir p node_id) shard.id ≡ root
      → export_shard sha256 p node_id shard disk
        ≡ (ok (export_of sha256 p shard (recover (open_log root) (open_store root)).0), disk)
  unfolding ◌>>=◌ export_shard
  export_at node_id shard disk root at_root =
      ap (λ r. (ok (export_of sha256 p shard (recover (open_log r) (open_store r)).0), disk))
        at_root

  import_at :
      (clock : ℕ → String) (node_id : String) (shard : Shard) (export : ShardExport) (disk : Disk)
      → (after : Disk) × (import_shard sha256 p clock node_id shard export disk ≡ (ok tt, after))
        × (after (node_base_dir p node_id) shard.id ≡ imported clock export no_root)
        × ((other : String)
            → other ≢ node_base_dir p node_id
            → after other shard.id ≡ disk other shard.id)
  unfolding ◌>>=◌ import_shard discard_target
  import_at clock node_id shard export disk = (
    replace there shard.id (imported clock export (emptied there shard.id)) emptied,
    refl,
    replace_same there shard.id (imported clock export (emptied there shard.id)) emptied
        ∙ ap (imported clock export) (replace_same there shard.id no_root disk),
    λ other apart.
        replace_other there other shard.id (imported clock export (emptied there shard.id)) emptied
          apart
        ∙ replace_other there other shard.id no_root disk apart,
  )
    where
      there : String
      there = node_base_dir p node_id

      emptied : Disk
      emptied = replace there shard.id no_root disk

  checked_at :
      (shard : Shard) (disk : Disk) (expected actual durable : String)
      → actual ≡ expected
      → durable ≡ expected
      → (raise_if
              (differs sha256 p (some expected) actual durable)
              (Error.verification_failed shard.namespace shard.id expected actual)
            >> pure actual)
          disk
        ≡ (ok expected, disk)
  unfolding ◌>>=◌
  checked_at shard disk expected actual durable same durable_same =
      rw (same, durable_same, eq_refl expected) refl

  same_digest :
      (export : ShardExport) (records : List VectorRecord) (ids : List String)
      → IsExport export
      → records ≡ sort_by VectorRecord.id export.records
      → ids ≡ sort_by (λ i. i) export.deleted_ids
      → compute_digest sha256 p records ids
        ≡ compute_digest sha256 p export.records export.deleted_ids
  same_digest export records ids sound same same_ids =
      ap (λ rs. compute_digest sha256 p rs ids) same
      ∙ ap (compute_digest sha256 p (sort_by VectorRecord.id export.records)) same_ids
      ∙ ap (λ rs. sha256 rs (sort_by (λ i. i) (sort_by (λ i. i) export.deleted_ids)))
          (sort_by_twice VectorRecord.id export.records sound.own)
      ∙ ap (sha256 (sort_by VectorRecord.id export.records))
          (sort_by_twice (λ i. i) export.deleted_ids sound.ids)

  verify_at :
      (node_id : String) (shard : Shard) (export : ShardExport) (disk : Disk) (root : Root)
      → disk (node_base_dir p node_id) shard.id ≡ root
      → IsExport export
      → Recovers sha256 p export root
      → compute_digest sha256 p export.records export.deleted_ids ≡ export.digest
      → verify_shard sha256 p node_id shard (some export.digest) disk ≡ (ok export.digest, disk)
  unfolding ◌>>=◌ verify_shard
  verify_at node_id shard export disk root at_root sound found digested =
      ap body at_root
      ∙ checked_at shard disk digest (actual root) (durable root)
          (same_digest export _ _ sound found.records found.deleted_ids ∙ digested)
          (same_digest export _ _ sound found.durable found.deleted_ids ∙ digested)
    where
      digest : String
      digest = export.digest

      actual : Root → String
      actual r =
          let out = recover (open_log r) (open_store r) in
          compute_digest sha256 p out.0.records out.0.deleted_ids

      durable : Root → String
      durable r =
          let out = recover (open_log r) (open_store r) in
          compute_digest sha256 p (values (durable_records_by_id out.1.1)) out.0.deleted_ids

      body : Root → Result String × Disk
      body r =
          (raise_if (differs sha256 p (some digest) (actual r) (durable r))
                (Error.verification_failed shard.namespace shard.id digest (actual r))
              >> pure (actual r))
            disk

  export_of-digest :
      (shard : Shard) (result : RecoveryResult)
      → let export = export_of sha256 p shard result in
        compute_digest sha256 p export.records export.deleted_ids ≡ export.digest
  unfolding export_of
  export_of-digest shard result = refl

  export_same :
      (shard : Shard) (result : RecoveryResult) (root : Root)
      → let export = export_of sha256 p shard result in
        IsExport export
        → Recovers sha256 p export root
        → export_of sha256 p shard (recover (open_log root) (open_store root)).0
          ≡ record export { records = sort_by VectorRecord.id export.records }
  unfolding export_of
  export_same shard result root sound found = λ i. record {
    namespace = shard.namespace;
    shard_id = shard.id;
    records = found.records i;
    deleted_ids = (twice ∙ sound.sorted) i;
    digest = same_digest (export_of sha256 p shard result) _ _ sound found.records twice i;
  }
    where
      ids : List String
      ids = sort_by (λ i. i) result.deleted_ids

      twice :
          sort_by (λ i. i) (recover (open_log root) (open_store root)).0.deleted_ids
          ≡ sort_by (λ i. i) ids
      twice = ap (sort_by (λ i. i)) found.deleted_ids ∙ sort_by_twice (λ i. i) ids sound.ids

  -- A transfer of the shard from `source` to `target`: the calls return, the target is found to
  -- hold what was exported, and the source is left as it was.
  pub record Transferred (clock : ℕ → String) (source target : String) (shard : Shard) (disk : Disk)
      : Type 0 where
    pub export : ShardExport
    pub after : Disk
    pub exports : export_shard sha256 p source shard disk ≡ (ok export, disk)
    pub imports : import_shard sha256 p clock target shard export disk ≡ (ok tt, after)
    pub verifies :
        verify_shard sha256 p target shard (some export.digest) after ≡ (ok export.digest, after)
    pub target_has :
        export_shard sha256 p target shard after
        ≡ (ok (record export { records = sort_by VectorRecord.id export.records }), after)
    pub source_keeps : export_shard sha256 p source shard after ≡ (ok export, after)

  -- A transfer between two nodes with different storage roots always succeeds: exporting the
  -- source, importing into the target and verifying against the digest of the export return; the
  -- target then exports the same records, sorted by id, the same tombstones and the same digest,
  -- and the source exports what it did before. The log of the source has no delete of the empty id,
  -- and the names that the clock gives to the tables are in the order of time. Nothing is assumed
  -- of the digest.
  pub transfer_roundtrip :
      (clock : ℕ → String) (source target : String) (shard : Shard) (disk : Disk)
      → IsClock clock
      → node_base_dir p source ≢ node_base_dir p target
      → All IsReadable (disk (node_base_dir p source) shard.id).log
      → Transferred clock source target shard disk
  transfer_roundtrip clock source target shard disk in_order apart readable = record {
    export = export;
    after = moved.0;
    exports = export_at source shard disk root refl;
    imports = moved.1;
    verifies =
        verify_at target shard export moved.0 _ moved.2 sound found (export_of-digest shard _);
    target_has =
        export_at target shard moved.0 _ moved.2
        ∙ ap (λ e. (ok e, moved.0)) (export_same shard _ _ sound found);
    source_keeps = export_at source shard moved.0 root (moved.3 (node_base_dir p source) apart);
  }
    where
      root : Root
      root = disk (node_base_dir p source) shard.id

      export : ShardExport
      export = export_of sha256 p shard (recover (open_log root) (open_store root)).0

      sound : IsExport export
      sound = export_of-IsExport sha256 p shard root readable

      found : Recovers sha256 p export (imported clock export no_root)
      found = imported-Recovers sha256 p clock export in_order sound

      moved :
          (after : Disk) × (import_shard sha256 p clock target shard export disk ≡ (ok tt, after))
          × (after (node_base_dir p target) shard.id ≡ imported clock export no_root)
          × ((other : String)
              → other ≢ node_base_dir p target
              → after other shard.id ≡ disk other shard.id)
      moved = import_at clock target shard export disk
