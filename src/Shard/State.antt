-- ===== src/Shard/State.antt =====
-- `ShardState` and the table `Shard.TRANSITIONS` (vsector/sharding/shard.py).
use vsector.Base.{Bool, true, false}

pub data ShardState : Type 0 where
  creating active draining offline splitting retired : ShardState

-- `to in TRANSITIONS.get(state, frozenset())`
unfoldable pub may_move : ShardState → ShardState → Bool
may_move ShardState.creating ShardState.active = true
may_move ShardState.creating ShardState.offline = true
may_move ShardState.active ShardState.draining = true
may_move ShardState.active ShardState.offline = true
may_move ShardState.draining ShardState.active = true
may_move ShardState.draining ShardState.offline = true
may_move ShardState.splitting ShardState.retired = true
may_move ShardState.splitting ShardState.active = true
may_move _ _ = false

-- The states in which a shard is read (`READABLE_STATES` of vsector/sharding/router.py), which are
-- those in which it may migrate (`MIGRATABLE_STATES` of vsector/sharding/migration.py).
unfoldable pub is_readable : ShardState → Bool
is_readable ShardState.active = true
is_readable ShardState.draining = true
is_readable _ = false
