-- ===== src/Replication/Readiness.antt =====
-- The health of a shard against the deliveries: what a delivery leaves, and what faults change.
use vsector.Base.{
  String, ℕ, ◌+◌, ◌≡◌, refl, sym, ap, ◌∙◌, Bool, true, false, Option, none, some, List, [], ◌∷◌,
  map, ◌==◌, ◌&&◌, arith, leb, eq_iff, eq_refl, contains, length, length-append,
}
use vsector.Exec.{Done, Result, ok, err, Exec}
use vsector.Shard.{Shard}
use vsector.Replication.{
  ReplicationResult, ReplicaHealth, Transport, record_node, attempt, noted, deliver_from, deliver,
  current_health, count, replication_health, fail_node, heal_node, new_result, stamped,
}
use vsector.Replication.Delivery.{Looped, deliver_from-Looped}

-- No replica is named twice.
abbrev pub Distinct : List String → Type 0
Distinct [] = Unit {0}
Distinct (n ∷ ns) = (contains n ns ≡ false) × Distinct ns

abbrev is_ok : Result Done → Bool
is_ok (ok _) = true
is_ok (err _) = false

abbrev healthy_of : Option ReplicaHealth → Bool
healthy_of none = true
healthy_of (some rec) = rec.healthy

abbrev one : Bool → ℕ
one true = 1
one false = 0

-- How many of the nodes are healthy in a table.
abbrev healthy_in : (String → Option ReplicaHealth) → List String → ℕ
healthy_in table [] = 0
healthy_in table (n ∷ ns) = one (healthy_of (table n)) + healthy_in table ns

module _ {St : Type 0} (namespace shard_id : String) where
  counted :
      (t : Transport St) (nodes : List String)
      → count (λ (r : ReplicaHealth). r.healthy) (map (current_health namespace shard_id t) nodes)
        ≡ healthy_in (t.health namespace shard_id) nodes
  counted t [] = refl
  counted t (n ∷ nodes) = ground (arith, counted t nodes)

  record_node_self :
      (n : String) (r : Result Done) (t : Transport St)
      → healthy_of ((record_node namespace shard_id n r t).health namespace shard_id n) ≡ is_ok r
  unfolding record_node
  record_node_self n (ok _) t = rw (eq_refl namespace, eq_refl shard_id, eq_refl n) refl
  record_node_self n (err e) t = rw (eq_refl namespace, eq_refl shard_id, eq_refl n) refl

  record_node_other :
      (n k : String) (r : Result Done) (t : Transport St)
      → (n == k) ≡ false
      → (record_node namespace shard_id n r t).health namespace shard_id k
        ≡ t.health namespace shard_id k
  unfolding record_node
  record_node_other n k r t other = ground arith

  module _ (apply : String → Exec St Done) where
    attempt-health : (n : String) (t : Transport St) → (attempt apply n t).1.health ≡ t.health
    unfolding attempt
    attempt-health n t = ground arith

    -- A delivery does not touch the health of a node that it is not for.
    deliver_from_other :
        (k : String) (nodes : List String) (res : ReplicationResult) (t : Transport St)
        → contains k nodes ≡ false
        → (deliver_from apply namespace shard_id nodes res t).1.health namespace shard_id k
          ≡ t.health namespace shard_id k
    unfolding deliver_from
    deliver_from_other k [] res t h = refl
    deliver_from_other k (n ∷ nodes) res t h =
        let (r, u) = attempt apply n t in
        deliver_from_other k nodes (noted n r res) (record_node namespace shard_id n r u)
          (ground arith)
        ∙ record_node_other n k r u (ground (arith, eq_iff n k, eq_iff k n))
        ∙ ap (λ h. h namespace shard_id k) (attempt-health n t)

    noted-length :
        (n : String) (r : Result Done) (res : ReplicationResult)
        → length (noted n r res).acknowledged_replicas
          ≡ length res.acknowledged_replicas + one (is_ok r)
    noted-length n (ok _) res = length-append res.acknowledged_replicas (n ∷ [])
    noted-length n (err e) res = omega arith

    -- The replicas that are healthy after the loop are those that it acknowledged.
    deliver_from-healthy :
        (nodes : List String) (res : ReplicationResult) (t : Transport St)
        → Distinct nodes
        → let out = deliver_from apply namespace shard_id nodes res t in
          length res.acknowledged_replicas + healthy_in (out.1.health namespace shard_id) nodes
          ≡ length out.0.acknowledged_replicas
    unfolding deliver_from
    deliver_from-healthy [] res t d = omega arith
    deliver_from-healthy (n ∷ nodes) res t (alone, d) =
        let (r, u) = attempt apply n t in
        let v = record_node namespace shard_id n r u in
        let rest = deliver_from-healthy nodes (noted n r res) v d in
        let here =
          ap healthy_of (deliver_from_other n nodes (noted n r res) v alone)
          ∙ record_node_self n r u in
        omega (arith, rest, noted-length n r res, ap one here)

-- After a delivery to distinct replicas, the healthy ones are as many as were acknowledged, and
-- the shard, with its primary available, is ready for the same number of acknowledgements exactly
-- when the delivery was a success.
pub deliver-ready :
    {St : Type 0} (namespace : String) (apply : String → Exec St Done) (s : Shard)
    (required_acks : ℕ) (t : Transport St)
    → Distinct s.replicas
    → let out = deliver apply namespace s required_acks t in
      let health = replication_health namespace s required_acks true out.1 in
      (health.healthy_replicas ≡ length out.0.acknowledged_replicas)
      × (health.ready ≡ out.0.success)
unfolding deliver replication_health
deliver-ready {St} namespace apply s required_acks t d = (
  healthy,
  ap (λ n. leb required_acks (1 + n)) healthy
      ∙ ap (λ q. leb q (1 + length out.0.acknowledged_replicas)) (sym l.required),
)
  where
    start : ReplicationResult
    start = new_result s required_acks

    out : ReplicationResult × Transport St
    out = deliver_from apply namespace s.id s.replicas start t

    end : Transport St
    end = stamped namespace s.id out.0 out.1

    l : Looped apply namespace s.id s.replicas start t out
    l = deliver_from-Looped apply namespace s.id s.replicas start t

    healthy :
        count
          (λ (r : ReplicaHealth). r.healthy)
          (map (current_health namespace s.id end) s.replicas)
        ≡ length out.0.acknowledged_replicas
    healthy = omega (
      arith,
      counted namespace s.id end s.replicas,
      deliver_from-healthy namespace s.id apply s.replicas start t d,
    )

-- Injecting a fault at a node or healing it changes neither the number of healthy replicas nor
-- whether the shard is ready.
pub fail_node-ready :
    {St : Type 0} (namespace node : String) (s : Shard) (required_acks : ℕ)
    (primary_available : Bool) (t : Transport St)
    → let before = replication_health namespace s required_acks primary_available t in
      let failed =
        replication_health namespace s required_acks primary_available (fail_node node t) in
      let healed =
        replication_health namespace s required_acks primary_available (heal_node node t) in
      (failed.healthy_replicas ≡ before.healthy_replicas)
      × (failed.ready ≡ before.ready)
      × (healed.healthy_replicas ≡ before.healthy_replicas)
      × (healed.ready ≡ before.ready)
unfolding replication_health fail_node heal_node
fail_node-ready {St} namespace node s required_acks primary_available t = (
  failed,
  ap (λ n. primary_available && leb required_acks (1 + n)) failed,
  healed,
  ap (λ n. primary_available && leb required_acks (1 + n)) healed,
)
  where
    healthy_at : Transport St → ℕ
    healthy_at u =
        count (λ (r : ReplicaHealth). r.healthy) (map (current_health namespace s.id u) s.replicas)

    failed : healthy_at (fail_node node t) ≡ healthy_at t
    failed =
        counted namespace s.id (fail_node node t) s.replicas
        ∙ sym (counted namespace s.id t s.replicas)

    healed : healthy_at (heal_node node t) ≡ healthy_at t
    healed =
        counted namespace s.id (heal_node node t) s.replicas
        ∙ sym (counted namespace s.id t s.replicas)
