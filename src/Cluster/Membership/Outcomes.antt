-- ===== src/Cluster/Membership/Outcomes.antt =====
-- What registration and the start of the local node return and store, branch by branch.
use vsector.Base.{
  Bool, false, sym, ◌⊎◌, ◌↔◌, inl, inr, Bool-cases, true, refl, String, ◌+◌, ◌≡◌, ◌≢◌, Option, none,
  some, arith, eq_iff, ◌==◌, if◌then◌else◌,
}
use mathlib.Core.Path.{subst}
use vsector.Dict.{lookup-insert, lookup-insert_self}
use vsector.Errors.{Error}
use vsector.Exec.{Result, ok, err, ◌>>=◌}
use vsector.Cluster.{ClusterNode}
use vsector.Cluster.State.{NodeMembershipState, may_move}
use vsector.Etcd.{Etcd, get_node, put_node}
use vsector.Cluster.Membership.{
  register, move, bootstrap_local_node, or_default, found_or_registered,
}

abbrev pub new_node : String → String → ClusterNode
new_node cluster_id i = record {
  node_id = i;
  cluster_id = cluster_id;
  state = NodeMembershipState.joining;
  version = 1;
}

module _ (cluster_id : String) (i : String) (e : Etcd) where
  -- The steps of `register`, by what the store knew of the id and which cluster was given.
  abbrev Branch : Option String → Option ClusterNode → Result ClusterNode × Etcd → Type 0
  Branch c (some n) r = r ≡ (err (Error.duplicate_node i), e)
  Branch c none r = r ≡ (
      if or_default c cluster_id == cluster_id
      then (ok (new_node cluster_id i), put_node (new_node cluster_id i) e)
      else (err (Error.cluster_id_mismatch "<new node>" cluster_id (or_default c cluster_id)), e))

  register-Branch :
      (c : Option String) (o : Option ClusterNode)
      → get_node i e ≡ o
      → Branch c o (register cluster_id i c e)
  unfolding register ◌>>=◌
  register-Branch c none h = ground arith
  register-Branch c (some n) h = ground arith

  -- No cluster is named, or the manager's own.
  abbrev pub IsOwn : Option String → Type 0
  IsOwn none = Unit
  IsOwn (some c) = (c ≡ "") ⊎ (c ≡ cluster_id)

  -- What `register` has done: a new member alone was stored, or nothing was.
  abbrev pub Registered : Option String → Result ClusterNode × Etcd → Type 0
  Registered c (ok n, t) =
      (get_node i e ≡ none)
      × IsOwn c
      × (n ≡ record {
        node_id = i;
        cluster_id = cluster_id;
        state = NodeMembershipState.joining;
        version = 1;
      })
      × ((k : String) → get_node k t ≡ (if i == k then some n else get_node k e))
      × (t.shards ≡ e.shards)
      × (t.migrations ≡ e.migrations)
  Registered c (err x, t) =
      (t ≡ e)
      × (((n : ClusterNode) × (get_node i e ≡ some n) × (x ≡ Error.duplicate_node i))
          ⊎ ((get_node i e ≡ none) × (IsOwn c → ⊥)))

  IsOwn-or_default :
      (c : Option String) → IsOwn c ↔ ((or_default c cluster_id == cluster_id) ≡ true)
  IsOwn-or_default none = ground (arith, eq_iff cluster_id cluster_id)
  IsOwn-or_default (some c) =
      ground (arith, eq_iff c "", eq_iff c cluster_id, eq_iff cluster_id cluster_id)

  -- `register` returns exactly when the store does not know the id and no cluster is named but the
  -- manager's own, where none and the empty text name none. It then returns the JOINING member in
  -- the manager's cluster with version 1, which a lookup of its id now finds; every other lookup,
  -- the shards and the migrations are as before. Otherwise it raises, for a known id as a
  -- duplicate, and the store is unchanged.
  pub register-Registered : (c : Option String) → Registered c (register cluster_id i c e)
  register-Registered c = go (get_node i e) refl
    where
      apart : {b : Bool} → b ≡ true → b ≡ false → ⊥
      apart h k = cc

      fresh :
          get_node i e ≡ none
          → ((or_default c cluster_id == cluster_id) ≡ true)
            ⊎ ((or_default c cluster_id == cluster_id) ≡ false)
          → Registered c (
              if or_default c cluster_id == cluster_id
              then (ok (new_node cluster_id i), put_node (new_node cluster_id i) e)
              else (
                err (Error.cluster_id_mismatch "<new node>" cluster_id (or_default c cluster_id)),
                e,
              ))
      fresh unknown (inl own) = rw own (
        unknown,
        (IsOwn-or_default c).1 own,
        refl,
        λ k. lookup-insert i k (new_node cluster_id i) e.nodes,
        refl,
        refl,
      )
      fresh unknown (inr foreign) =
          rw foreign (refl, inr (unknown, λ own. apart ((IsOwn-or_default c).0 own) foreign))

      go : (o : Option ClusterNode) → get_node i e ≡ o → Registered c (register cluster_id i c e)
      go none unknown =
          subst (Registered c) (sym (register-Branch c none unknown))
            (fresh unknown (Bool-cases (or_default c cluster_id == cluster_id)))
      go (some n) known =
          subst (Registered c) (sym (register-Branch c (some n) known)) (refl, inl (n, known, refl))

  -- A local node that the store has in any state but JOINING is returned as it is, and nothing is
  -- written: a DRAINING or REMOVED node stays so over a restart.
  pub bootstrap_restores :
      (n : ClusterNode)
      → get_node i e ≡ some n
      → n.state ≢ NodeMembershipState.joining
      → bootstrap_local_node cluster_id i e ≡ (ok n, e)
  unfolding bootstrap_local_node ◌>>=◌
  bootstrap_restores n found h = ground arith

  -- An allowed move of a member of the manager's cluster, which writes the record back.
  move_allowed :
      (to : NodeMembershipState) (n : ClusterNode) (t : Etcd)
      → get_node i t ≡ some n
      → n.cluster_id ≡ cluster_id
      → may_move n.state to ≡ true
      → let n' : ClusterNode = record n { state = to; version = n.version + 1 } in
        move cluster_id i to t ≡ (ok n', put_node n' t)
  unfolding move ◌>>=◌
  move_allowed to n t found own allowed = ground (arith, eq_iff n.cluster_id cluster_id)

  register_new :
      get_node i e ≡ none
      → register cluster_id i none e
        ≡ (ok (new_node cluster_id i), put_node (new_node cluster_id i) e)
  register_new new = ground (arith, register-Branch none none new, eq_iff cluster_id cluster_id)

  -- A local node that was never seen is registered, activated and stored, and the call returns it.
  pub bootstrap_new :
      get_node i e ≡ none
      → let active : ClusterNode = record (new_node cluster_id i) {
        state = NodeMembershipState.active;
        version = 2;
      } in
        bootstrap_local_node cluster_id i e
        ≡ (ok active, put_node active (put_node (new_node cluster_id i) e))
  unfolding bootstrap_local_node ◌>>=◌ may_move
  bootstrap_new new =
      rw (new, found_or_registered, register_new new)
        (move_allowed NodeMembershipState.active (new_node cluster_id i)
          (put_node (new_node cluster_id i) e) (lookup-insert_self i _ e.nodes) refl refl)
