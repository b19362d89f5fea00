-- ===== src/Cluster.antt =====
-- The record of a cluster member and its membership lifecycle (vsector/cluster/node.py). The
-- manager over the store, `ClusterMembershipManager`, is the child `Membership`.
pub mod State
pub mod Moves
pub mod Membership
mod Examples
use vsector.Base.{String, ℕ, ◌+◌, Bool, true, false, if◌then◌else◌}
use vsector.Errors.{Error}
use vsector.Exec.{Result, ok, err}
use vsector.Cluster.State.{NodeMembershipState, may_move}

pub record ClusterNode : Type 0 where
  pub node_id : String
  pub cluster_id : String
  pub state : NodeMembershipState
  pub version : ℕ

-- `ClusterNode.transition`
unfoldable pub transition : NodeMembershipState → ClusterNode → Result ClusterNode
unfolding may_move
transition to node =
    if may_move node.state to
    then ok (record node { state = to; version = node.version + 1 })
    else err (Error.invalid_membership node.node_id node.state to)

abbrev available_in : NodeMembershipState → Bool
available_in NodeMembershipState.active = true
available_in NodeMembershipState.draining = true
available_in _ = false

-- `ClusterNode.is_available`
unfoldable pub is_available : ClusterNode → Bool
is_available node = available_in node.state
