-- ===== src/Router/Routes.antt =====
-- The routing calls against the routing decisions: the decision tells what the call will do.
use vsector.Base.{String, ℕ, ◌≡◌, ◌≢◌, ◌↔◌, refl, Bool, true, false, Option, some, arith}
use vsector.Exec.{Result, ok, err, ◌>>=◌, try_except}
use vsector.Shard
use vsector.Shard.{Shard}
use vsector.Cluster.Membership.{validate_node}
use vsector.Etcd.{Etcd}
use vsector.Placement.{RouteType, Mode, RoutingDecision, decision_for, owner_reason}
use vsector.Router.{
  Router, validate_owner, readable_check, writable_check, route, route_write, decide,
  select_or_raise, select_shard,
}

abbrev pub IsOk : Result Shard → Type 0
IsOk (ok _) = Unit
IsOk (err _) = ⊥

abbrev pub IsLocal : Result RoutingDecision → Type 0
IsLocal (ok d) = d.route_type ≡ RouteType.local
IsLocal (err _) = ⊥

abbrev pub IsServed : Result RoutingDecision → Type 0
IsServed (ok d) = d.route_type ≢ RouteType.unavailable
IsServed (err _) = ⊥

writable_check-local :
    (membership : Bool) (namespace node : String) (s : Shard) (e : Etcd)
    → IsOk (writable_check membership namespace (some node) s e) ↔ (
        (decision_for membership namespace s (some node) Mode.write e).route_type ≡ RouteType.local)
unfolding writable_check validate_owner validate_node Shard.require_owner decision_for owner_reason
writable_check-local false namespace node s e = ground arith
writable_check-local true namespace node s e = ground arith

readable_check-served :
    (namespace : String) (node : Option String) (s : Shard) (e : Etcd)
    → IsOk (readable_check true s e)
      ↔ ((decision_for true namespace s node Mode.read e).route_type ≢ RouteType.unavailable)
unfolding readable_check validate_owner validate_node Shard.require_owner decision_for owner_reason
readable_check-served namespace _ s e = ground arith

module _ (hash : String → ℕ) (sha256 : String → String) (cache_ttl : ℕ) where
  -- From the same state, `route_write` for a node succeeds exactly when `route_write_decision` for
  -- that node answers LOCAL.
  pub route_write-IsLocal :
      (membership : Bool) (namespace record_id node : String) (r : Router)
      → IsOk (route_write hash sha256 cache_ttl membership namespace record_id (some node) r).0
        ↔ IsLocal
            (decide hash sha256 cache_ttl membership Mode.write namespace record_id (some node) r).0
  unfolding route_write decide select_or_raise ◌>>=◌ try_except
  route_write-IsLocal membership namespace record_id node r =
      go (select_shard hash sha256 cache_ttl namespace record_id r) refl
    where
      go :
          (x : Result Shard × Router)
          → select_shard hash sha256 cache_ttl namespace record_id r ≡ x
          → IsOk (route_write hash sha256 cache_ttl membership namespace record_id (some node) r).0
            ↔ IsLocal
                (decide hash sha256 cache_ttl membership Mode.write namespace record_id
                  (some node)
                  r).0
      go (ok s, t) h = rw h (writable_check-local membership namespace node s t.etcd)
      go (err e, t) h = rw h (λ x. x, λ x. x)

  -- From the same state, and with a cluster membership, `route` succeeds exactly when
  -- `route_read_decision` does not answer UNAVAILABLE, for any local node.
  pub route-IsServed :
      (namespace record_id : String) (node : Option String) (r : Router)
      → IsOk (route hash sha256 cache_ttl true namespace record_id r).0
        ↔ IsServed (decide hash sha256 cache_ttl true Mode.read namespace record_id node r).0
  unfolding route decide select_or_raise ◌>>=◌ try_except
  route-IsServed namespace record_id node r =
      go (select_shard hash sha256 cache_ttl namespace record_id r) refl
    where
      go :
          (x : Result Shard × Router)
          → select_shard hash sha256 cache_ttl namespace record_id r ≡ x
          → IsOk (route hash sha256 cache_ttl true namespace record_id r).0
            ↔ IsServed (decide hash sha256 cache_ttl true Mode.read namespace record_id node r).0
      go (ok s, t) h = rw h (readable_check-served namespace node s t.etcd)
      go (err e, t) h = rw h (λ x. x, λ x. x)
