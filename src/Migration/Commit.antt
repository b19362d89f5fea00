-- ===== src/Migration/Commit.antt =====
-- The ownership boundary `commit`, and the ends `cancel` and `fail`
-- (vsector/sharding/migration.py).
use vsector.Base.{
  String, ◌+◌, Bool, true, false, not, Option, none, some, ◌==◌, select, if◌then◌else◌,
}
use vsector.Errors.{Error, Side, is_migration_error}
use vsector.Exec.{Done, Exec, pure, lift, gets, raise, raise_if, ◌>>=◌, ◌>>◌, try_except}
use vsector.Shard
use vsector.Shard.{Shard}
use vsector.Etcd
use vsector.Cluster.Membership.{validate_replicas}
use vsector.Migration.State.{MigrationState, cancelable}
use vsector.Migration.Record.{ShardMigration, FailureNote, is_terminal}
use vsector.Migration.Boundary.{Transfer}
use vsector.Migration.Checks.{World, Manager, validate_member}
use vsector.Migration.{on_disk, put_shard, require, fail_with, fail_and_raise, begin, advance}

-- The shard as `commit` hands it to the target: no longer a replica of itself.
abbrev pub handed_over : ShardMigration → Shard → Shard
handed_over m s = record s {
  node_id = m.target_node_id;
  replicas = select (λ r. not (r == m.target_node_id)) s.replicas;
  version = s.version + 1;
}

module _ {Disk : Type 0} where
  -- The `try` around the ownership change: the checks, then the authoritative write.
  unfoldable pub write_owner : Shard → Exec (World Disk) Done
  unfolding Shard.validate_ownership validate_replicas
  write_owner moved = do
    lift (Shard.validate_ownership moved)
    e ← gets (λ w. w.etcd)
    lift (validate_replicas moved.replicas e)
    put_shard moved

  -- Its `except` clauses: a `MigrationError` passes, any other error fails the migration.
  unfoldable pub commit_fails : ShardMigration → Error → Exec (World Disk) ShardMigration
  unfolding is_migration_error
  commit_fails m e =
      if is_migration_error e
      then raise e
      else fail_and_raise (FailureNote.commit_error e)
          (Error.commit_failed m.namespace m.shard_id m.target_node_id e) m

module _ {Disk Payload : Type 0} (transfer : Transfer Disk Payload) (manager : Manager) where
  -- The cleanup of the source, whose failure is recorded, and the last transition.
  unfoldable pub finalize : ShardMigration → Shard → Exec (World Disk) ShardMigration
  finalize m moved =
      try_except (on_disk (transfer.finalize_source m.source_node_id moved))
        (λ e.
          advance MigrationState.completed
            (record m { error = some (FailureNote.finalize_error e); finalized = false }))
        (λ _. advance MigrationState.completed (record m { finalized = true }))

  unfoldable pub commit : String → Exec (World Disk) ShardMigration
  unfolding validate_member
  commit migration_id = do
    started ← begin MigrationState.verifying migration_id
    w ← gets (λ w. w)
    lift (validate_member manager.membership_cluster_id Side.target started.0.target_node_id w.etcd)
    m ← advance MigrationState.committing started.0
    let moved = handed_over m started.1
    try_except (write_owner moved) (commit_fails m) (λ _. finalize m moved)

abbrev pub has_target_data : MigrationState → Bool
has_target_data MigrationState.copying = true
has_target_data MigrationState.verifying = true
has_target_data _ = false

module _ {Disk Payload : Type 0} (transfer : Transfer Disk Payload) where
  -- The best-effort cleanup in `cancel`, of which an error is only logged.
  unfoldable pub discard : ShardMigration → Option Shard → Exec (World Disk) Done
  discard m none = pure tt
  discard m (some shard) =
      if has_target_data m.state
      then try_except (on_disk (transfer.discard_target m.target_node_id shard)) (λ _. pure tt)
          (λ _. pure tt)
      else pure tt

  unfoldable pub cancel : String → Exec (World Disk) ShardMigration
  unfolding discard cancelable
  cancel migration_id = do
    m ← require migration_id
    raise_if (not (cancelable m.state)) (Error.cannot_cancel m.migration_id m.state)
    shard ← gets (λ w. Etcd.get m.shard_id w.etcd)
    discard m shard
    advance MigrationState.cancelled m

module _ {Disk : Type 0} where
  unfoldable pub fail : String → String → Exec (World Disk) ShardMigration
  unfolding is_terminal
  fail migration_id reason = do
    m ← require migration_id
    raise_if (is_terminal m) (Error.cannot_fail m.migration_id m.state)
    fail_with (FailureNote.forced reason) m
