-- ===== src/Replication.antt =====
-- `InProcessReplicaTransport` (vsector/sharding/replication.py): delivery to the replicas of a
-- shard, and the health that is read off from it. `apply` is what an endpoint does with the
-- operation: it works on the state of all endpoints and may raise. The table of health records is
-- a function of namespace, shard and node, since the source only looks up and sets single keys.
pub mod Delivery
pub mod Readiness
pub mod Aggregate
mod Examples
use vsector.Base.{
  String, ℕ, ◌+◌, Bool, true, false, not, Option, none, some, List, [], ◌∷◌, ◌++◌, map, ◌==◌, ◌&&◌,
  ◌||◌, leb, if◌then◌else◌, select, any_of, contains, length,
}
use vsector.Dict.{Dict, insert}
use vsector.Errors.{Error}
use vsector.Exec.{Done, Result, ok, err, Exec}
use vsector.Shard.{Shard}

pub record ReplicationResult : Type 0 where
  pub primary : String
  pub attempted_replicas : List String
  pub acknowledged_replicas : List String
  pub failed_replicas : List String
  pub failures : Dict Error
  pub required_acks : ℕ
  pub success : Bool
  pub degraded : Bool

pub record ReplicaHealth : Type 0 where
  pub replica_id : String
  pub healthy : Bool
  pub available : Bool
  pub last_error : Option Error
  pub last_success : Option ℕ
  pub last_failure : Option ℕ
  pub successes : ℕ
  pub failures : ℕ

pub record ReplicationHealth : Type 0 where
  pub primary : String
  pub configured_replicas : ℕ
  pub healthy_replicas : ℕ
  pub available_replicas : ℕ
  pub required_acks : ℕ
  pub ready : Bool
  pub degraded : Bool
  pub replicas : List ReplicaHealth
  pub last_success : Option ℕ
  pub last_failure : Option (Dict Error)

-- The transport, the endpoints, and the reading of the clock.
pub record Transport (St : Type 0) : Type 0 where
  pub faults : List String
  pub health : String → String → String → Option ReplicaHealth
  pub shard_last_success : String → String → Option ℕ
  pub shard_last_failure : String → String → Option (Dict Error)
  pub endpoints : St
  pub now : ℕ

-- `d[key] = v` for a table with pairs and one with triples as keys
abbrev pub set_pair {ℓ} :
    {V : Type ℓ} → String → String → V → (String → String → Option V) → String → String → Option V
set_pair a b v d x y = if a == x && b == y then some v else d x y

abbrev pub set_triple {ℓ} :
    {V : Type ℓ}
    → String
    → String
    → String
    → V
    → (String → String → String → Option V)
    → String
    → String
    → String
    → Option V
set_triple a b c v d x y z = if a == x && (b == y && c == z) then some v else d x y z

-- `a or b` for texts
abbrev pub text_or : String → String → String
text_or a b = if a == "" then b else a

abbrev pub is_empty {ℓ} : {A : Type ℓ} → List A → Bool
is_empty [] = true
is_empty (_ ∷ _) = false

-- `sum(1 for r in replicas if p(r))`
abbrev pub count : {A : Type 0} → (A → Bool) → List A → ℕ
count p rs = length (select p rs)

abbrev pub new_result : Shard → ℕ → ReplicationResult
new_result s required_acks = record {
  primary = text_or s.node_id s.id;
  attempted_replicas = [];
  acknowledged_replicas = [];
  failed_replicas = [];
  failures = [];
  required_acks = required_acks;
  success = true;
  degraded = false;
}

abbrev pub noted : String → Result Done → ReplicationResult → ReplicationResult
noted node_id (ok _) res = record res {
  attempted_replicas = res.attempted_replicas ++ (node_id ∷ []);
  acknowledged_replicas = res.acknowledged_replicas ++ (node_id ∷ []);
}
noted node_id (err e) res = record res {
  attempted_replicas = res.attempted_replicas ++ (node_id ∷ []);
  failed_replicas = res.failed_replicas ++ (node_id ∷ []);
  failures = insert node_id e res.failures;
}

abbrev pub decided : ReplicationResult → ReplicationResult
decided res = record res {
  success = leb res.required_acks (1 + length res.acknowledged_replicas);
  degraded = not (is_empty res.failed_replicas);
}

module _ {St : Type 0} where
  unfoldable pub fail_node : String → Transport St → Transport St
  fail_node node_id t = record t {
    faults = if contains node_id t.faults then t.faults else node_id ∷ t.faults;
  }

  unfoldable pub heal_node : String → Transport St → Transport St
  heal_node node_id t = record t { faults = select (λ n. not (n == node_id)) t.faults }

  abbrev pub is_faulted : String → Transport St → Bool
  is_faulted node_id t = contains node_id t.faults

  abbrev new_health : String → Transport St → ReplicaHealth
  new_health node_id t = record {
    replica_id = node_id;
    healthy = true;
    available = not (is_faulted node_id t);
    last_error = none;
    last_success = none;
    last_failure = none;
    successes = 0;
    failures = 0;
  }

  abbrev pub known_health : String → Transport St → Option ReplicaHealth → ReplicaHealth
  known_health node_id t none = new_health node_id t
  known_health node_id t (some rec) = rec

  -- `_record_node` on the record, by how the delivery ended
  abbrev pub observed : String → Transport St → Result Done → ReplicaHealth → ReplicaHealth
  observed node_id t (ok _) rec = record rec {
    healthy = true;
    available = true;
    last_error = none;
    last_success = some t.now;
    successes = rec.successes + 1;
  }
  observed node_id t (err e) rec = record rec {
    healthy = false;
    available = not (is_faulted node_id t);
    last_error = some e;
    last_failure = some t.now;
    failures = rec.failures + 1;
  }

  -- `_record_node`
  unfoldable pub record_node : String → String → String → Result Done → Transport St → Transport St
  record_node namespace shard_id node_id r t = record t {
    health =
        set_triple namespace shard_id node_id
          (observed node_id t r (known_health node_id t (t.health namespace shard_id node_id)))
          t.health;
  }

  abbrev pub stamped : String → String → ReplicationResult → Transport St → Transport St
  stamped namespace shard_id res t = record t {
    shard_last_success =
        if is_empty res.acknowledged_replicas
        then t.shard_last_success
        else set_pair namespace shard_id t.now t.shard_last_success;
    shard_last_failure =
        if is_empty res.failures
        then t.shard_last_failure
        else set_pair namespace shard_id res.failures t.shard_last_failure;
  }

  module _ (apply : String → Exec St Done) where
    -- The `try` of `_deliver`, up to its outcome.
    unfoldable pub attempt : String → Transport St → Result Done × Transport St
    attempt node_id t =
        if is_faulted node_id t
        then (err (Error.replica_unavailable node_id), t)
        else let (r, e) = apply node_id t.endpoints in (r, record t { endpoints = e })

    -- The loop of `_deliver` over the replicas.
    unfoldable pub deliver_from :
        String
        → String
        → List String
        → ReplicationResult
        → Transport St
        → ReplicationResult × Transport St
    unfolding attempt record_node
    deliver_from namespace shard_id [] res t = (res, t)
    deliver_from namespace shard_id (n ∷ nodes) res t =
        let (r, u) = attempt n t in
        deliver_from namespace shard_id nodes (noted n r res) (record_node namespace shard_id n r u)

    -- `_deliver`
    unfoldable pub deliver : String → Shard → ℕ → Transport St → ReplicationResult × Transport St
    unfolding deliver_from
    deliver namespace s required_acks t =
        let (res, u) = deliver_from namespace s.id s.replicas (new_result s required_acks) t in
        (decided res, stamped namespace s.id res u)

  -- One entry of `replication_health`: the record with the current fault state.
  abbrev pub current_health : String → String → Transport St → String → ReplicaHealth
  current_health namespace shard_id t node_id =
      record (known_health node_id t (t.health namespace shard_id node_id)) {
        available = not (is_faulted node_id t);
      }

  -- `replication_health`
  unfoldable pub replication_health : String → Shard → ℕ → Bool → Transport St → ReplicationHealth
  replication_health namespace s required_acks primary_available t =
      let replicas = map (current_health namespace s.id t) s.replicas in
      let healthy = count (λ (r : ReplicaHealth). r.healthy) replicas in
      record {
        primary = text_or s.node_id s.id;
        configured_replicas = length replicas;
        healthy_replicas = healthy;
        available_replicas = count (λ (r : ReplicaHealth). r.available) replicas;
        required_acks = required_acks;
        ready = primary_available && leb required_acks (1 + healthy);
        degraded = any_of (λ (r : ReplicaHealth). not r.healthy || not r.available) replicas;
        replicas = replicas;
        last_success = t.shard_last_success namespace s.id;
        last_failure = t.shard_last_failure namespace s.id;
      }
