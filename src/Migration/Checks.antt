-- ===== src/Migration/Checks.antt =====
-- What a migration call works on, and the checks of `ShardMigrationManager` that only read
-- (vsector/sharding/migration.py).
use vsector.Base.{String, ℕ, not, Option, none, some, List, [], ◌∷◌, ◌==◌, ◌&&◌, eqb, if◌then◌else◌}
use vsector.Errors.{Error, Side, MemberReason}
use vsector.Exec.{Done, Result, ok, err}
use vsector.Shard.{Shard}
use vsector.Shard.State.{is_readable}
use vsector.Etcd.{Etcd}
use vsector.Cluster.Membership.{validate_node, validate_cluster_id, then_check}
use vsector.Migration.State.{MigrationState}
use vsector.Migration.Record.{ShardMigration, FailureNote, transition, is_terminal}

-- What a call works on: the metadata, the storage of all nodes, and the reading of the clock.
pub record World (Disk : Type 0) : Type 0 where
  pub etcd : Etcd
  pub disk : Disk
  pub now : ℕ

-- `self.cluster_id` and `self._membership.cluster_id`
pub record Manager : Type 0 where
  pub cluster_id : String
  pub membership_cluster_id : String

-- The `except` clauses of `_validate_member`.
abbrev pub as_member_error : Side → String → Error → Error
as_member_error side node_id (Error.unknown_node _) =
    Error.member_error side node_id MemberReason.not_known
as_member_error side node_id (Error.removed_node _) =
    Error.member_error side node_id MemberReason.has_been_removed
as_member_error side node_id (Error.cluster_id_mismatch _ _ _) =
    Error.member_error side node_id MemberReason.other_cluster
as_member_error side node_id e = e

abbrev pub map_err : (Error → Error) → Result Done → Result Done
map_err f (ok u) = ok u
map_err f (err e) = err (f e)

-- The checks of `_assert_source_valid` on what the store has for the shard.
abbrev pub source_check : ShardMigration → Option Shard → Result Shard
source_check m none = err (Error.member_error Side.source m.source_node_id MemberReason.shard_gone)
source_check m (some s) =
    if not (is_readable s.state)
    then err (Error.member_error Side.source m.source_node_id (MemberReason.not_migratable s.state))
    else if not (s.node_id == m.source_node_id)
    then err (Error.member_error Side.source m.source_node_id (MemberReason.now_owned_by s.node_id))
    else if not (eqb s.version m.source_version)
    then err (
        Error.member_error Side.source m.source_node_id
          (MemberReason.version_changed m.source_version s.version))
    else ok s

-- The first migration of the shard that is still in progress.
unfoldable pub in_progress : String → List ShardMigration → Option ShardMigration
unfolding is_terminal
in_progress shard_id [] = none
in_progress shard_id (m ∷ ms) =
    if m.shard_id == shard_id && not (is_terminal m) then some m else in_progress shard_id ms

-- `m` or the failed record that `_fail` makes of it
unfoldable pub failed_record : ℕ → FailureNote → ShardMigration → ShardMigration
unfolding transition
failed_record now note m = elim (transition now MigrationState.failed m) [
  | ok m' ↦ record m' { error = some note }
  | err _ ↦ record m { error = some note }
]

-- `_validate_member`: a known member, not REMOVED, of the membership's cluster
unfoldable pub validate_member : String → Side → String → Etcd → Result Done
unfolding validate_node validate_cluster_id
validate_member membership_cluster_id side node_id e =
    map_err (as_member_error side node_id)
      (then_check (validate_node node_id e) (validate_cluster_id membership_cluster_id node_id e))
