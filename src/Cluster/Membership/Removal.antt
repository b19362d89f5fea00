-- ===== src/Cluster/Membership/Removal.antt =====
-- What the membership operations can never do to a member that the store knows.
use vsector.Base.{
  String, ◌+◌, ◌≤◌, ◌≡◌, ◌≢◌, refl, true, some, List, arith, String-cases, ne_of_eq_false, ap, sym,
  ◌∙◌, inl, inr,
}
use mathlib.Core.Path.{subst}
use vsector.Dict.{lookup-insert_ne, lookup-insert_self}
use vsector.Cluster.{ClusterNode}
use vsector.Cluster.State.{NodeMembershipState, may_move}
use vsector.Etcd.{Etcd, get_node, put_node}
use vsector.Cluster.Membership.Invariant.{
  Op, IsWellFormed, Step, kept, joined, moved, Reach, here, next, run, run-Reach,
  Reach-IsWellFormed,
}

-- The store has a record under `k` that is at least as new as `n`, of the same node.
pub record Succeeds (k : String) (n : ClusterNode) (e : Etcd) : Type 0 where
  pub node : ClusterNode
  pub found : get_node k e ≡ some node
  pub newer : n.version ≤ node.version
  pub frozen : n.state ≡ NodeMembershipState.removed → node ≡ n

module _ (cluster_id : String) where
  removed_is_terminal :
      (s to : NodeMembershipState) → may_move s to ≡ true → s ≢ NodeMembershipState.removed
  unfolding may_move
  removed_is_terminal s to h = ground arith

  put_node-Succeeds_ne :
      (k : String) (n m : ClusterNode) (e : Etcd)
      → m.node_id ≢ k
      → Succeeds k n e
      → Succeeds k n (put_node m e)
  put_node-Succeeds_ne k n m e other s = record {
    node = s.node;
    found = lookup-insert_ne m.node_id k m e.nodes other ∙ s.found;
    newer = s.newer;
    frozen = s.frozen;
  }

  -- The member itself moves, which it could not do after its removal.
  moved-Succeeds :
      (n m : ClusterNode) (to : NodeMembershipState) (e : Etcd)
      → may_move m.state to ≡ true
      → get_node m.node_id e ≡ some m
      → Succeeds m.node_id n e
      → Succeeds m.node_id n (put_node (record m { state = to; version = m.version + 1 }) e)
  moved-Succeeds n m to e allowed found s =
      let same : s.node ≡ m = cc (s.found, found) in
      record {
        node = record m { state = to; version = m.version + 1 };
        found = lookup-insert_self m.node_id _ e.nodes;
        newer = omega (arith, s.newer, ap ClusterNode.version same);
        frozen = λ gone.
            absurd (removed_is_terminal m.state to allowed (cc (same, s.frozen gone, gone)));
      }

  Step-Succeeds :
      (k : String) (n : ClusterNode) {e t : Etcd}
      → Step cluster_id e t
      → IsWellFormed cluster_id e
      → Succeeds k n e
      → Succeeds k n t
  Step-Succeeds k n kept w s = s
  Step-Succeeds k n {e} (joined i new) w s =
      put_node-Succeeds_ne k n _ e (λ same. absurd (cc (ap (λ j. get_node j e) same, s.found))) s
  Step-Succeeds k n {e} (moved i m to at_i own allowed) w s = elim (String-cases m.node_id k) [
    | inl same ↦
        subst (λ j. Succeeds j n (put_node (record m { state = to; version = m.version + 1 }) e))
          same
          (moved-Succeeds n m to e allowed
            (subst (λ j. get_node j e ≡ some m) (sym (w.own_key i m at_i)) at_i)
            (subst (λ j. Succeeds j n e) (sym same) s))
    | inr other ↦ put_node-Succeeds_ne k n _ e (ne_of_eq_false m.node_id k other) s
  ]

  Reach-Succeeds :
      (k : String) (n : ClusterNode) {e t : Etcd}
      → Reach cluster_id e t
      → IsWellFormed cluster_id e
      → Succeeds k n e
      → Succeeds k n t
  Reach-Succeeds k n here w s = s
  Reach-Succeeds k n (next r st) w s =
      Step-Succeeds k n st (Reach-IsWellFormed cluster_id r w) (Reach-Succeeds k n r w s)

  -- Whatever calls follow, in any order and whether or not they raise: a member that the store
  -- knows stays known, under the same id and with a version that does not fall, and a member that
  -- is REMOVED keeps its whole record. At the start the store holds each member under its own id and
  -- in the manager's cluster.
  pub run-Succeeds :
      (ops : List Op) (e : Etcd) (k : String) (n : ClusterNode)
      → IsWellFormed cluster_id e
      → get_node k e ≡ some n
      → Succeeds k n (run cluster_id ops e)
  run-Succeeds ops e k n w found =
      Reach-Succeeds k n (run-Reach cluster_id ops e) w
        (record { node = n; found = found; newer = omega arith; frozen = λ _. refl })

  -- Whatever calls follow, raising or not: where each member is stored under its own id and belongs
  -- to the manager's cluster, this stays so.
  pub run-IsWellFormed :
      (ops : List Op) (e : Etcd)
      → IsWellFormed cluster_id e
      → IsWellFormed cluster_id (run cluster_id ops e)
  run-IsWellFormed ops e w = Reach-IsWellFormed cluster_id (run-Reach cluster_id ops e) w
