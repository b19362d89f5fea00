-- ===== src/Migration/Copy.antt =====
-- The steps that move and check data: `start_copy` and `verify` (vsector/sharding/migration.py).
use vsector.Base.{String, some, ◌||◌, if◌then◌else◌}
use vsector.Errors.{Error, is_migration_state_error, is_verification_error}
use vsector.Exec.{Exec, pure, raise, ◌>>=◌, ◌>>◌, try_except}
use vsector.Shard.{Shard}
use vsector.Migration.State.{MigrationState}
use vsector.Migration.Record.{ShardMigration, FailureNote}
use vsector.Migration.Boundary.{Transfer}
use vsector.Migration.Checks.{World}
use vsector.Migration.{on_disk, put_migration, fail_and_raise, begin, advance}

-- The `except` clauses of `start_copy`: what is noted, and what is raised.
abbrev pub copy_note : Error → FailureNote
copy_note e =
    if is_migration_state_error e
    then FailureNote.copy_lifecycle_failure
    else if is_verification_error e
    then FailureNote.verify_failed e
    else FailureNote.copy_error e

abbrev pub copy_raised : ShardMigration → Error → Error
copy_raised m e =
    if is_migration_state_error e || is_verification_error e
    then e
    else Error.copy_failed m.migration_id e

unfoldable pub copy_fails : {Disk A : Type 0} → ShardMigration → Error → Exec (World Disk) A
unfolding is_migration_state_error is_verification_error
copy_fails m e = fail_and_raise (copy_note e) (copy_raised m e) m

-- The `except` clause of `verify`: only a `MigrationVerificationError` fails the migration.
unfoldable pub verify_fails : {Disk A : Type 0} → ShardMigration → Error → Exec (World Disk) A
unfolding is_verification_error
verify_fails m e =
    if is_verification_error e
    then fail_and_raise (FailureNote.verification_error e) e m
    else raise e

module _ {Disk Payload : Type 0} (transfer : Transfer Disk Payload) where
  -- The second `try` of `start_copy`; `source_digest` is set before the verification may raise.
  unfoldable pub copy_data : ShardMigration → Shard → Exec (World Disk) ShardMigration
  copy_data m shard =
      try_except (on_disk (transfer.export_shard m.source_node_id shard)) (copy_fails m) λ export.
        try_except (on_disk (transfer.import_shard m.target_node_id shard export)) (copy_fails m)
          λ _.
            let exported : ShardMigration = record m {
              source_digest = some (transfer.digest export);
            } in
            try_except
              (on_disk
                (transfer.verify_shard m.target_node_id shard (some (transfer.digest export))))
              (copy_fails exported)
              λ actual. do
                put_migration (record exported { target_digest = some actual })
                pure (record exported { target_digest = some actual })

  unfoldable pub start_copy : String → Exec (World Disk) ShardMigration
  start_copy migration_id = do
    started ← begin MigrationState.preparing migration_id
    m ← advance MigrationState.copying started.0
    copy_data m started.1

  -- The second `try` of `verify`.
  unfoldable pub verify_data : ShardMigration → Shard → Exec (World Disk) ShardMigration
  verify_data m shard =
      try_except (on_disk (transfer.verify_shard m.target_node_id shard m.source_digest))
        (verify_fails m)
        λ actual. do
          put_migration (record m { target_digest = some actual })
          pure (record m { target_digest = some actual })

  unfoldable pub verify : String → Exec (World Disk) ShardMigration
  verify migration_id = do
    started ← begin MigrationState.copying migration_id
    m ← advance MigrationState.verifying started.0
    verify_data m started.1
