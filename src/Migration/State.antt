-- ===== src/Migration/State.antt =====
-- `MigrationState`, the table `ShardMigration.TRANSITIONS` and the sets of states that
-- vsector/sharding/migration.py tests.
use vsector.Base.{Bool, true, false}

pub data MigrationState : Type 0 where
  pending preparing copying verifying committing completed failed cancelled : MigrationState

-- `to in TRANSITIONS.get(state, frozenset())`
unfoldable pub may_move : MigrationState → MigrationState → Bool
may_move MigrationState.pending MigrationState.preparing = true
may_move MigrationState.pending MigrationState.cancelled = true
may_move MigrationState.pending MigrationState.failed = true
may_move MigrationState.preparing MigrationState.copying = true
may_move MigrationState.preparing MigrationState.cancelled = true
may_move MigrationState.preparing MigrationState.failed = true
may_move MigrationState.copying MigrationState.verifying = true
may_move MigrationState.copying MigrationState.cancelled = true
may_move MigrationState.copying MigrationState.failed = true
may_move MigrationState.verifying MigrationState.committing = true
may_move MigrationState.verifying MigrationState.cancelled = true
may_move MigrationState.verifying MigrationState.failed = true
may_move MigrationState.committing MigrationState.completed = true
may_move MigrationState.committing MigrationState.failed = true
may_move _ _ = false

-- `_TERMINAL`
unfoldable pub terminal : MigrationState → Bool
terminal MigrationState.completed = true
terminal MigrationState.failed = true
terminal MigrationState.cancelled = true
terminal _ = false

-- `_CANCELABLE`
unfoldable pub cancelable : MigrationState → Bool
cancelable MigrationState.pending = true
cancelable MigrationState.preparing = true
cancelable MigrationState.copying = true
cancelable MigrationState.verifying = true
cancelable _ = false

-- `a is b` on states
unfoldable pub same : MigrationState → MigrationState → Bool
same MigrationState.pending MigrationState.pending = true
same MigrationState.preparing MigrationState.preparing = true
same MigrationState.copying MigrationState.copying = true
same MigrationState.verifying MigrationState.verifying = true
same MigrationState.committing MigrationState.committing = true
same MigrationState.completed MigrationState.completed = true
same MigrationState.failed MigrationState.failed = true
same MigrationState.cancelled MigrationState.cancelled = true
same _ _ = false
