-- ===== src/Cluster/Membership.antt =====
-- `ClusterMembershipManager` and `bootstrap_local_node` (vsector/cluster/membership.py) over the
-- store; `cluster_id` is the manager's field. The store's `put_node` does not raise, so the
-- rollback in `_transition` has nothing to undo.
pub mod Invariant
pub mod Removal
pub mod Outcomes
use vsector.Base.{String, Bool, Option, none, some, List, [], ◌∷◌, ◌==◌, if◌then◌else◌, is_some}
use vsector.Errors.{Error}
use vsector.Exec.{Result, ok, err, Exec, pure, raise_if, or_raise, lift, gets, modify, ◌>>=◌, ◌>>◌}
use vsector.Cluster
use vsector.Cluster.{ClusterNode}
use vsector.Cluster.State.{NodeMembershipState}
use vsector.Etcd.{Etcd, get_node, put_node}

-- `contains`
unfoldable pub is_member : String → Etcd → Bool
is_member node_id e = is_some (get_node node_id e)

unfoldable pub membership_state : String → Etcd → Option NodeMembershipState
membership_state node_id e = elim (get_node node_id e) [ none ↦ none | some n ↦ some n.state ]

-- `validate_node`, on the record that the store has
abbrev pub validate_found : String → Option ClusterNode → Result (Unit {0})
validate_found node_id none = err (Error.unknown_node node_id)
validate_found node_id (some n) = elim n.state [
  | NodeMembershipState.removed ↦ err (Error.removed_node node_id)
  | _ ↦ ok tt
]

unfoldable pub validate_node : String → Etcd → Result (Unit {0})
validate_node node_id e = validate_found node_id (get_node node_id e)

abbrev pub then_check : Result (Unit {0}) → Result (Unit {0}) → Result (Unit {0})
then_check (ok _) r = r
then_check (err x) r = err x

unfoldable pub validate_replicas : List String → Etcd → Result (Unit {0})
unfolding validate_node
validate_replicas [] e = ok tt
validate_replicas (r ∷ rs) e = then_check (validate_node r e) (validate_replicas rs e)

-- `cluster_id or self.cluster_id`
abbrev pub or_default : Option String → String → String
or_default none d = d
or_default (some s) d = if s == "" then d else s

module _ (cluster_id : String) where
  abbrev pub check_cluster : String → Option ClusterNode → Result (Unit {0})
  check_cluster node_id none = ok tt
  check_cluster node_id (some n) =
      if n.cluster_id == cluster_id
      then ok tt
      else err (Error.cluster_id_mismatch node_id cluster_id n.cluster_id)

  unfoldable pub validate_cluster_id : String → Etcd → Result (Unit {0})
  validate_cluster_id node_id e = check_cluster node_id (get_node node_id e)

  unfoldable pub validate_cluster_id_for : String → Result (Unit {0})
  validate_cluster_id_for given =
      if given == cluster_id
      then ok tt
      else err (Error.cluster_id_mismatch "<new node>" cluster_id given)

  unfoldable pub register : String → Option String → Exec Etcd ClusterNode
  unfolding is_member validate_cluster_id_for
  register node_id given = do
    known ← gets (is_member node_id)
    raise_if known (Error.duplicate_node node_id)
    lift (validate_cluster_id_for (or_default given cluster_id))
    let node : ClusterNode = record {
      node_id = node_id;
      cluster_id = cluster_id;
      state = NodeMembershipState.joining;
      version = 1;
    }
    modify (put_node node)
    pure node

  -- `_transition`
  unfoldable pub move : String → NodeMembershipState → Exec Etcd ClusterNode
  unfolding validate_cluster_id Cluster.transition
  move node_id to = do
    found ← gets (get_node node_id)
    node ← or_raise found (Error.unknown_node node_id)
    checked ← gets (validate_cluster_id node_id)
    lift checked
    moved ← lift (Cluster.transition to node)
    modify (put_node moved)
    pure moved

  unfoldable pub activate : String → Exec Etcd ClusterNode
  unfolding move
  activate node_id = move node_id NodeMembershipState.active

  unfoldable pub begin_drain : String → Exec Etcd ClusterNode
  unfolding move
  begin_drain node_id = move node_id NodeMembershipState.draining

  unfoldable pub remove : String → Exec Etcd ClusterNode
  unfolding move
  remove node_id = move node_id NodeMembershipState.removed

  -- the two halves of `bootstrap_local_node`: the lookup or registration, and what follows it
  unfoldable pub found_or_registered : String → Option ClusterNode → Exec Etcd ClusterNode
  unfolding register
  found_or_registered node_id none = register node_id none
  found_or_registered node_id (some node) = pure node

  unfoldable pub restore : String → ClusterNode → Exec Etcd ClusterNode
  unfolding activate
  restore node_id node = elim node.state [
    | NodeMembershipState.joining ↦ activate node_id
    | _ ↦ pure node
  ]

  unfoldable pub bootstrap_local_node : String → Exec Etcd ClusterNode
  unfolding restore found_or_registered
  bootstrap_local_node node_id = do
    found ← gets (get_node node_id)
    node ← found_or_registered node_id found
    restore node_id node
