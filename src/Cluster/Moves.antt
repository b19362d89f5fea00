-- ===== src/Cluster/Moves.antt =====
-- What an accepted transition of a member's record is.
use vsector.Base.{◌+◌, ◌≡◌, true, arith}
use vsector.Exec.{ok}
use vsector.Cluster.{ClusterNode, transition}
use vsector.Cluster.State.{NodeMembershipState, may_move}

pub transition-eq-ok :
    (to : NodeMembershipState) (n n' : ClusterNode)
    → transition to n ≡ ok n'
    → (may_move n.state to ≡ true) × (record n { state = to; version = n.version + 1 } ≡ n')
unfolding transition
transition-eq-ok to n n' h = ground arith
