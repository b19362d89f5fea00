-- ===== src/Cluster/Examples.antt =====
-- The theorems of the cluster membership at concrete members.
use vsector.Base.{String, ◌≡◌, refl, sym, ap, ◌∙◌, none, some, List, [], ◌∷◌, arith, eq_iff}
use vsector.Dict.{lookup}
use vsector.Cluster.{ClusterNode}
use vsector.Cluster.State.{NodeMembershipState}
use vsector.Etcd.{Etcd, get_node}
use vsector.Cluster.Membership.{register}
use vsector.Cluster.Membership.Invariant.{
  Op, registers, activates, removes, bootstraps, IsWellFormed, run,
}
use vsector.Cluster.Membership.Removal.{Succeeds, run-Succeeds, run-IsWellFormed}
use vsector.Cluster.Membership.Outcomes.{Registered, register-Registered}

abbrev gone : ClusterNode
gone = record { node_id = "a"; cluster_id = "c"; state = NodeMembershipState.removed; version = 4 }

abbrev one_member : Etcd
one_member = record { shards = []; nodes = ("a", gone) ∷ []; migrations = [] }

abbrev calls : List Op
calls = activates "a" ∷ registers "b" none ∷ bootstraps "a" ∷ removes "b" ∷ []

only_member :
    (k : String) (n : ClusterNode) → get_node k one_member ≡ some n → ("a" ≡ k) × (gone ≡ n)
unfolding lookup
only_member k n h = ground (arith, eq_iff "a" k)

one_member-IsWellFormed : IsWellFormed "c" one_member
one_member-IsWellFormed = record {
  own_key = λ k n found.
      sym (ap ClusterNode.node_id (only_member k n found).1) ∙ (only_member k n found).0;
  own_cluster = λ k n found. sym (ap ClusterNode.cluster_id (only_member k n found).1);
}

run-Succeeds_example : Succeeds "a" gone (run "c" calls one_member)
unfolding lookup
run-Succeeds_example = run-Succeeds "c" calls one_member "a" gone one_member-IsWellFormed refl

run-IsWellFormed_example : IsWellFormed "c" (run "c" calls one_member)
run-IsWellFormed_example = run-IsWellFormed "c" calls one_member one_member-IsWellFormed

register-Registered_example :
    Registered "c" "b" one_member (some "") (register "c" "b" (some "") one_member)
register-Registered_example = register-Registered "c" "b" one_member (some "")
