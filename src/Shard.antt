-- ===== src/Shard.antt =====
-- The record of a shard: its lifecycle transition, and the checks of its primary owner
-- (vsector/sharding/shard.py). The empty text stands for a missing owner, as in the source.
pub mod State
use vsector.Base.{
  String, ℕ, ◌+◌, ◌≡◌, Bool, Option, none, some, List, ◌==◌, if◌then◌else◌, ltb, contains,
}
use vsector.Errors.{Error}
use vsector.Exec.{Result, ok, err}
use vsector.Shard.State.{ShardState, may_move}

pub record Shard : Type 0 where
  pub id : String
  pub namespace : String
  pub node_id : String
  pub state : ShardState
  pub vector_count : ℕ
  pub max_vectors : ℕ
  pub replicas : List String
  pub created_at : ℕ
  pub version : ℕ

-- `Shard.should_split`
unfoldable pub should_split : Shard → Bool
should_split s = ltb s.max_vectors s.vector_count

-- `Shard.transition`
unfoldable pub transition : ShardState → Shard → Result Shard
unfolding may_move
transition to s =
    if may_move s.state to
    then ok (record s { state = to; version = s.version + 1 })
    else err (Error.invalid_lifecycle s.namespace s.id s.state to)

-- `Shard.require_owner`
unfoldable pub require_owner : Shard → Result String
require_owner s =
    if s.node_id == "" then err (Error.no_primary_owner s.namespace s.id) else ok s.node_id

-- `Shard.validate_ownership` with its defaults
unfoldable pub validate_ownership : Shard → Result (Unit {0})
validate_ownership s =
    if s.node_id == ""
    then err (Error.no_primary_owner s.namespace s.id)
    else if contains s.node_id s.replicas
    then err (Error.ownership_conflict s.namespace s.id s.node_id)
    else ok tt
