-- ===== src/Replication/Examples.antt =====
-- Replication to two replicas, of which one is faulted.
use vsector.Base.{String, ◌≡◌, refl, true, false, none, List, [], ◌∷◌, length}
use vsector.Exec.{Done, ok, Exec}
use vsector.Shard.{Shard}
use vsector.Shard.State.{ShardState}
use vsector.Replication.{Transport, deliver, replication_health}
use vsector.Replication.Delivery.{Delivered, deliver-Delivered}
use vsector.Replication.Readiness.{deliver-ready}

abbrev shard : Shard
shard = record {
  id = "s";
  namespace = "ns";
  node_id = "a";
  state = ShardState.active;
  vector_count = 3;
  max_vectors = 10;
  replicas = "b" ∷ "c" ∷ [];
  created_at = 0;
  version = 2;
}

abbrev transport : Transport (List String)
transport = record {
  faults = "c" ∷ [];
  health = λ _ _ _. none;
  shard_last_success = λ _ _. none;
  shard_last_failure = λ _ _. none;
  endpoints = [];
  now = 5;
}

abbrev apply : String → Exec (List String) Done
apply node st = (ok tt, node ∷ st)

deliver-Delivered_example : Delivered apply shard 2 transport (deliver apply "ns" shard 2 transport)
deliver-Delivered_example = deliver-Delivered apply "ns" shard 2 transport

deliver-ready_example :
    let out = deliver apply "ns" shard 2 transport in
    let health = replication_health "ns" shard 2 true out.1 in
    (health.healthy_replicas ≡ length out.0.acknowledged_replicas) × (health.ready ≡ out.0.success)
deliver-ready_example = deliver-ready "ns" apply shard 2 transport (refl, (refl, tt))

-- A shard whose replicas are all faulted is ready for three acknowledgements, and the delivery
-- that asks for them then fails.
abbrev all_down : Transport (List String)
all_down = record transport { faults = "b" ∷ "c" ∷ [] }

ready_but_fails :
    ((replication_health "ns" shard 3 true all_down).ready ≡ true)
    × ((deliver apply "ns" shard 3 all_down).0.success ≡ false)
unfolding replication_health deliver
ready_but_fails = (refl, refl)
