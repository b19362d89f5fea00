-- ===== src/Migration.antt =====
-- `ShardMigrationManager` (vsector/sharding/migration.py) over the store, the cluster membership
-- and a storage boundary, which is the interface `Transfer`. The store's puts do not raise, so the
-- rollbacks around a transition have nothing to undo; a mutated object is one that is put back.
pub mod State
pub mod Record
pub mod Boundary
pub mod Checks
pub mod Copy
pub mod Outcomes
pub mod Writes
pub mod DataSteps
pub mod Digests
pub mod Operations
pub mod Exclusion
pub mod Histories
pub mod OwnerWrites
pub mod Ownership
pub mod DataSound
pub mod Endings
pub mod Commit
pub mod Stale
pub mod Progress
mod Examples
use vsector.Base.{String, false, not, Option, none, some, ◌==◌, if◌then◌else◌}
use vsector.Errors.{InvalidReason, Error, Side, MemberReason}
use vsector.Exec.{
  Done, Result, ok, err, Exec, pure, lift, gets, modify, raise, raise_if, or_raise, ◌>>=◌, ◌>>◌,
}
use vsector.Shard
use vsector.Shard.{Shard}
use vsector.Shard.State.{is_readable}
use vsector.Etcd
use vsector.Etcd.{Etcd}
use vsector.Migration.State.{MigrationState, same}
use vsector.Migration.Record.{ShardMigration, FailureNote, transition}
use vsector.Migration.Checks.{
  World, Manager, source_check, in_progress, failed_record, validate_member,
}

module _ {Disk : Type 0} where
  -- A call of the storage boundary.
  unfoldable pub on_disk : {A : Type 0} → Exec Disk A → Exec (World Disk) A
  on_disk m w = let (r, d) = m w.disk in (r, record w { disk = d })

  -- `self._store.put_migration(m)` and `self._store.put(shard)`
  abbrev pub put_migration : ShardMigration → Exec (World Disk) Done
  put_migration m = modify (λ w. record w { etcd = Etcd.put_migration m w.etcd })

  abbrev pub put_shard : Shard → Exec (World Disk) Done
  put_shard s = modify (λ w. record w { etcd = Etcd.put s w.etcd })

  -- `_require`
  unfoldable pub require : String → Exec (World Disk) ShardMigration
  require migration_id = do
    found ← gets (λ w. Etcd.get_migration migration_id w.etcd)
    or_raise found (Error.migration_not_found migration_id)

  -- `_require_state`
  abbrev pub require_state : ShardMigration → MigrationState → Exec (World Disk) Done
  require_state m expected =
      raise_if (not (same m.state expected)) (Error.wrong_state m.migration_id expected m.state)

  -- `_fail`
  unfoldable pub fail_with : FailureNote → ShardMigration → Exec (World Disk) ShardMigration
  fail_with note m = do
    now ← gets (λ w. w.now)
    put_migration (failed_record now note m)
    pure (failed_record now note m)

  -- `self._fail(m, ..); raise e`
  unfoldable pub fail_and_raise :
      {A : Type 0} → FailureNote → Error → ShardMigration → Exec (World Disk) A
  fail_and_raise note e m = do fail_with note m; raise e

  -- `_assert_source_valid`
  unfoldable pub assert_source_valid : ShardMigration → Exec (World Disk) Shard
  assert_source_valid m = do
    found ← gets (λ w. Etcd.get m.shard_id w.etcd)
    elim (source_check m found) [
      | ok s ↦ pure s
      | err e ↦ fail_and_raise (FailureNote.source_invalid e) e m
    ]

  -- `m.transition(to); self._store.put_migration(m)`
  unfoldable pub advance : MigrationState → ShardMigration → Exec (World Disk) ShardMigration
  advance to m = do
    now ← gets (λ w. w.now)
    m' ← lift (transition now to m)
    put_migration m'
    pure m'

  -- The common start of the steps: the record in the expected state, and its shard.
  unfoldable pub begin : MigrationState → String → Exec (World Disk) (ShardMigration × Shard)
  begin expected migration_id = do
    m ← require migration_id
    require_state m expected
    shard ← assert_source_valid m
    pure (m, shard)

  unfoldable pub prepare : String → Exec (World Disk) ShardMigration
  prepare migration_id = do
    started ← begin MigrationState.pending migration_id
    advance MigrationState.preparing started.0

abbrev pub not_running : String → String → Option ShardMigration → Result Done
not_running namespace shard_id none = ok tt
not_running namespace shard_id (some r) =
    err (Error.migration_conflict namespace shard_id r.migration_id)

module _ {Disk : Type 0} (manager : Manager) where
  -- `uuid.uuid4().hex` is the argument `fresh`.
  unfoldable pub create_migration :
      String → String → String → String → Exec (World Disk) ShardMigration
  unfolding Shard.require_owner validate_member in_progress
  create_migration namespace shard_id target fresh = do
    w ← gets (λ w. w)
    shard ←
        or_raise (Etcd.get shard_id w.etcd)
          (Error.invalid_migration shard_id InvalidReason.unknown_shard)
    raise_if (not (shard.namespace == namespace))
        (Error.invalid_migration shard_id (InvalidReason.other_namespace shard.namespace namespace))
    raise_if (not (is_readable shard.state)) (
        Error.member_error Side.source (if shard.node_id == "" then "?" else shard.node_id)
          (MemberReason.not_migratable shard.state))
    source ← lift (Shard.require_owner shard)
    lift (validate_member manager.membership_cluster_id Side.source source w.etcd)
    lift (validate_member manager.membership_cluster_id Side.target target w.etcd)
    raise_if (target == source) (Error.member_error Side.target target MemberReason.must_differ)
    lift (not_running namespace shard_id (in_progress shard_id (Etcd.list_migrations w.etcd)))
    let m : ShardMigration = record {
      migration_id = fresh;
      namespace = namespace;
      shard_id = shard_id;
      source_node_id = source;
      target_node_id = target;
      state = MigrationState.pending;
      source_version = shard.version;
      cluster_id = manager.cluster_id;
      created_at = w.now;
      updated_at = w.now;
      error = none;
      version = 1;
      source_digest = none;
      target_digest = none;
      finalized = false;
    }
    put_migration m
    pure m
