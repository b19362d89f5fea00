-- ===== src/Cluster/State.antt =====
-- `NodeMembershipState` and the table `ClusterNode.TRANSITIONS` (vsector/cluster/node.py).
use vsector.Base.{Bool, true, false}

pub data NodeMembershipState : Type 0 where
  joining active draining removed : NodeMembershipState

-- `to in TRANSITIONS.get(state, frozenset())`
unfoldable pub may_move : NodeMembershipState → NodeMembershipState → Bool
may_move NodeMembershipState.joining NodeMembershipState.active = true
may_move NodeMembershipState.joining NodeMembershipState.removed = true
may_move NodeMembershipState.active NodeMembershipState.draining = true
may_move NodeMembershipState.active NodeMembershipState.removed = true
may_move NodeMembershipState.draining NodeMembershipState.active = true
may_move NodeMembershipState.draining NodeMembershipState.removed = true
may_move _ _ = false
