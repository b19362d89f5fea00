-- ===== src/Migration/Record.antt =====
-- `ShardMigration` (vsector/sharding/migration.py): the durable record of one migration.
use vsector.Base.{String, ℕ, ◌+◌, Bool, Option, if◌then◌else◌}
use vsector.Errors.{Error}
use vsector.Exec.{Result, ok, err}
use vsector.Migration.State.{MigrationState, may_move, terminal}

-- What the field `error` reports, for each text that the manager writes there.
pub data FailureNote : Type 0 where
  source_invalid : Error → FailureNote
  copy_lifecycle_failure : FailureNote
  verify_failed copy_error verification_error commit_error finalize_error : Error → FailureNote
  forced : String → FailureNote

pub record ShardMigration : Type 0 where
  pub migration_id : String
  pub namespace : String
  pub shard_id : String
  pub source_node_id : String
  pub target_node_id : String
  pub state : MigrationState
  pub source_version : ℕ
  pub cluster_id : String
  pub created_at : ℕ
  pub updated_at : ℕ
  pub error : Option FailureNote
  pub version : ℕ
  pub source_digest : Option String
  pub target_digest : Option String
  pub finalized : Bool

-- `ShardMigration.transition`; `now` is the reading of `time.time()`.
unfoldable pub transition : ℕ → MigrationState → ShardMigration → Result ShardMigration
unfolding may_move
transition now to m =
    if may_move m.state to
    then ok (record m { state = to; version = m.version + 1; updated_at = now })
    else err (Error.migration_state m.migration_id m.state to)

-- `ShardMigration.is_terminal`
unfoldable pub is_terminal : ShardMigration → Bool
unfolding terminal
is_terminal m = terminal m.state
