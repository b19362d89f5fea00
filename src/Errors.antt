-- ===== src/Errors.antt =====
-- The exceptions of vsector/cluster/exceptions.py, vsector/sharding/exceptions.py and
-- vsector/sharding/migration.py as one type of values. A constructor carries what the message is
-- made of; the text of a message is not modelled, and a `reason` is the case that it stands for.
use vsector.Base.{String, ℕ, Bool, true, false}
use vsector.Cluster.State.{NodeMembershipState}
use vsector.Shard.State.{ShardState}
use vsector.Migration.State.{MigrationState}

-- The reasons of `MigrationSourceError` and `MigrationTargetError`.
pub data MemberReason : Type 0 where
  not_known has_been_removed other_cluster must_differ : MemberReason
  shard_gone : MemberReason
  not_migratable : ShardState → MemberReason
  now_owned_by : String → MemberReason
  version_changed : ℕ → ℕ → MemberReason

-- The reasons of `InvalidMigrationError`; `other_namespace` has that of the shard and the given one.
pub data InvalidReason : Type 0 where
  unknown_shard : InvalidReason
  other_namespace : String → String → InvalidReason

-- The two sides that `_validate_member` names.
pub data Side : Type 0 where
  source target : Side

pub data Error : Type 0 where
  -- vsector/cluster/exceptions.py
  unknown_node removed_node duplicate_node : String → Error
  invalid_membership : String → NodeMembershipState → NodeMembershipState → Error
  cluster_id_mismatch : String → String → String → Error
  -- vsector/sharding/exceptions.py: namespace and shard id first
  shard_creating shard_draining no_primary_owner : String → String → Error
  shard_offline : String → String → ShardState → Error
  ownership_mismatch : String → String → String → String → Error
  ownership_conflict : String → String → String → Error
  invalid_lifecycle : String → String → ShardState → ShardState → Error
  -- `change_owner` outside DRAINING
  not_draining : String → String → ShardState → Error
  placement_error : String → Error
  -- vsector/sharding/migration.py
  migration_not_found : String → Error
  invalid_migration : String → InvalidReason → Error
  migration_conflict : String → String → String → Error
  -- from and to of a refused transition; the expected and the actual state of a step
  migration_state wrong_state : String → MigrationState → MigrationState → Error
  cannot_cancel cannot_fail : String → MigrationState → Error
  copy_failed : String → Error → Error
  member_error : Side → String → MemberReason → Error
  verification_failed : String → String → String → String → Error
  commit_failed : String → String → String → Error → Error
  -- `ReplicaUnavailableError` of vsector/sharding/replication.py
  replica_unavailable : String → Error
  -- `KeyError`, and whatever else a call may raise, such as an `OSError`
  key_error : String → Error
  other_error : String → Error

-- The class tests of the `except` clauses in vsector/sharding/migration.py.
unfoldable pub is_migration_state_error : Error → Bool
is_migration_state_error (Error.migration_state _ _ _) = true
is_migration_state_error (Error.wrong_state _ _ _) = true
is_migration_state_error (Error.cannot_cancel _ _) = true
is_migration_state_error (Error.cannot_fail _ _) = true
is_migration_state_error (Error.copy_failed _ _) = true
is_migration_state_error _ = false

unfoldable pub is_verification_error : Error → Bool
is_verification_error (Error.verification_failed _ _ _ _) = true
is_verification_error _ = false

-- `isinstance(e, MigrationError)`
unfoldable pub is_migration_error : Error → Bool
is_migration_error (Error.migration_not_found _) = true
is_migration_error (Error.invalid_migration _ _) = true
is_migration_error (Error.migration_conflict _ _ _) = true
is_migration_error (Error.migration_state _ _ _) = true
is_migration_error (Error.wrong_state _ _ _) = true
is_migration_error (Error.cannot_cancel _ _) = true
is_migration_error (Error.cannot_fail _ _) = true
is_migration_error (Error.copy_failed _ _) = true
is_migration_error (Error.member_error _ _ _) = true
is_migration_error (Error.verification_failed _ _ _ _) = true
is_migration_error (Error.commit_failed _ _ _ _) = true
is_migration_error _ = false
