-- ===== src/Migration/Stale.antt =====
-- What the check of a migration's source refuses (vsector/sharding/migration.py).
use vsector.Base.{
  ◌≢◌, ◌⊎◌, inl, inr, eq_iff, eq_false_of_ne, false, ◌≡◌, refl, ap, true, Option, none, some, arith,
}
use vsector.Errors.{Error, Side, MemberReason}
use vsector.Exec.{err}
use vsector.Shard.{Shard}
use vsector.Shard.State.{ShardState, is_readable}
use vsector.Migration.State.{same}
use vsector.Migration.Record.{ShardMigration}
use vsector.Migration.Checks.{source_check}

-- Why the shard of a migration is not what the migration captured, with the error that says so.
pub data Stale (m : ShardMigration) : Option Shard → Error → Type 0 where
  gone : Stale m none (Error.member_error Side.source m.source_node_id MemberReason.shard_gone)
  closed :
      (s : Shard)
      → s.state ≢ ShardState.active
      → s.state ≢ ShardState.draining
      → Stale m
          (some s)
          (Error.member_error Side.source m.source_node_id (MemberReason.not_migratable s.state))
  moved :
      (s : Shard)
      → (s.state ≡ ShardState.active) ⊎ (s.state ≡ ShardState.draining)
      → s.node_id ≢ m.source_node_id
      → Stale m
          (some s)
          (Error.member_error Side.source m.source_node_id (MemberReason.now_owned_by s.node_id))
  renumbered :
      (s : Shard)
      → (s.state ≡ ShardState.active) ⊎ (s.state ≡ ShardState.draining)
      → s.node_id ≡ m.source_node_id
      → s.version ≢ m.source_version
      → Stale m (some s) (
          Error.member_error Side.source m.source_node_id
            (MemberReason.version_changed m.source_version s.version))

closed_lem :
    (st : ShardState) → st ≢ ShardState.active → st ≢ ShardState.draining → is_readable st ≡ false
unfolding is_readable
closed_lem ShardState.active h k = absurd (h refl)
closed_lem ShardState.draining h k = absurd (k refl)
closed_lem ShardState.creating h k = refl
closed_lem ShardState.offline h k = refl
closed_lem ShardState.splitting h k = refl
closed_lem ShardState.retired h k = refl

open_lem :
    (s : Shard)
    → (s.state ≡ ShardState.active) ⊎ (s.state ≡ ShardState.draining)
    → is_readable s.state ≡ true
unfolding is_readable
open_lem s (inl h) = ap is_readable h
open_lem s (inr h) = ap is_readable h

pub Stale-source_check :
    (m : ShardMigration) (o : Option Shard) (x : Error) → Stale m o x → source_check m o ≡ err x
Stale-source_check m none x gone = refl
Stale-source_check m (some _) x (closed s h k) = rw (closed_lem s.state h k) refl
Stale-source_check m (some _) x (moved s h away) =
    rw (open_lem s h, eq_false_of_ne s.node_id m.source_node_id away) refl
Stale-source_check m (some _) x (renumbered s h same differs) =
    rw (open_lem s h) (ground (arith, eq_iff s.node_id m.source_node_id))
