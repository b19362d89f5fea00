-- ===== src/Placement.antt =====
-- `RoutingDecision` (vsector/sharding/placement.py) and how `ShardRouter` decides about one shard
-- (`_decision_for` and `shard_placement` of vsector/sharding/router.py).
use vsector.Base.{String, Bool, true, false, Option, none, some, List, ◌==◌, if◌then◌else◌}
use vsector.Errors.{Error}
use vsector.Exec.{Result, ok, err}
use vsector.Shard.{Shard}
use vsector.Shard.State.{ShardState, is_readable}
use vsector.Cluster.State.{NodeMembershipState}
use vsector.Cluster.Membership.{validate_node, membership_state}
use vsector.Etcd.{Etcd}

pub data RouteType : Type 0 where
  local remote unavailable : RouteType

pub data Mode : Type 0 where
  any read write : Mode

-- `owner_membership_state`: a state, or the text "unknown"
pub data OwnerState : Type 0 where
  in_state : NodeMembershipState → OwnerState
  unknown : OwnerState

pub data Reason : Type 0 where
  not_readable not_writable : ShardState → Reason
  no_owner : Reason
  owner_unknown owner_removed : String → Reason

pub record RoutingDecision : Type 0 where
  pub namespace : String
  pub shard_id : String
  pub shard_state : ShardState
  pub owner_node_id : Option String
  pub local_node_id : Option String
  pub target : Option String
  pub route_type : RouteType
  pub owner_membership_state : Option OwnerState
  pub reason : Option Reason

abbrev pub is_active : ShardState → Bool
is_active ShardState.active = true
is_active _ = false

-- The check of the lifecycle, which `mode` asks for.
abbrev pub state_reason : Mode → ShardState → Option Reason
state_reason Mode.any s = none
state_reason Mode.read s = if is_readable s then none else some (Reason.not_readable s)
state_reason Mode.write s = if is_active s then none else some (Reason.not_writable s)

-- `shard.node_id or None`
abbrev pub owner_of : Shard → Option String
owner_of s = if s.node_id == "" then none else some s.node_id

abbrev pub known_state : Option NodeMembershipState → Option OwnerState
known_state none = none
known_state (some s) = some (OwnerState.in_state s)

-- The `try` around the check of the owner: its state, and what speaks against it.
abbrev pub owner_check :
    String → Result (Unit {0}) → Option NodeMembershipState → Option OwnerState × Option Reason
owner_check owner (ok _) s = (known_state s, none)
owner_check owner (err (Error.removed_node _)) s =
    (some (OwnerState.in_state NodeMembershipState.removed), some (Reason.owner_removed owner))
owner_check owner (err _) s = (some OwnerState.unknown, some (Reason.owner_unknown owner))

-- `membership` is whether the router has one, over the store.
unfoldable pub owner_reason : Bool → Option String → Etcd → Option OwnerState × Option Reason
unfolding validate_node membership_state
owner_reason membership none e = (none, some Reason.no_owner)
owner_reason false (some owner) e = (none, none)
owner_reason true (some owner) e =
    owner_check owner (validate_node owner e) (membership_state owner e)

-- The checks in order: the first reason counts, and the owner is looked up only without one.
abbrev pub checks :
    Option Reason → Option OwnerState × Option Reason → Option OwnerState × Option Reason
checks none owner = owner
checks (some r) owner = (none, some r)

abbrev pub is_owner : Option String → Option String → Bool
is_owner (some owner) (some node) = owner == node
is_owner _ _ = false

abbrev pub route_type_of : Option Reason → Option String → Option String → RouteType
route_type_of (some _) owner local_node_id = RouteType.unavailable
route_type_of none owner local_node_id =
    if is_owner owner local_node_id then RouteType.local else RouteType.remote

-- `_decision_for`
unfoldable pub decision_for : Bool → String → Shard → Option String → Mode → Etcd → RoutingDecision
unfolding owner_reason is_readable
decision_for membership namespace s local_node_id mode e =
    let owner = owner_of s in
    let (owner_state, reason) =
      checks (state_reason mode s.state) (owner_reason membership owner e) in
    record {
      namespace = namespace;
      shard_id = s.id;
      shard_state = s.state;
      owner_node_id = owner;
      local_node_id = local_node_id;
      target = owner;
      route_type = route_type_of reason owner local_node_id;
      owner_membership_state = owner_state;
      reason = reason;
    }

-- What `shard_placement` returns.
pub record ShardPlacement : Type 0 where
  pub shard_id : String
  pub state : ShardState
  pub primary_owner : Option String
  pub replicas : List String
  pub owner_membership_state : Option OwnerState
  pub route_type : RouteType
  pub target : Option String
  pub reason : Option Reason

-- Without a membership a missing owner is no reason here.
abbrev pub placed : Bool → Option String → Etcd → Option OwnerState × Option Reason
placed false owner e = (none, none)
placed true owner e = owner_reason true owner e

unfoldable pub shard_placement : Bool → Shard → Option String → Etcd → ShardPlacement
unfolding owner_reason
shard_placement membership s local_node_id e =
    let owner = owner_of s in
    let (owner_state, reason) = placed membership owner e in
    record {
      shard_id = s.id;
      state = s.state;
      primary_owner = owner;
      replicas = s.replicas;
      owner_membership_state = owner_state;
      route_type = route_type_of reason owner local_node_id;
      target = owner;
      reason = reason;
    }
