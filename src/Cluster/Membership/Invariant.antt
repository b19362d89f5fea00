-- ===== src/Cluster/Membership/Invariant.antt =====
-- What every membership operation keeps: each member is stored under its own id and belongs to
-- the manager's cluster. The operations are read as steps of a transition system.
use vsector.Base.{
  String, ◌+◌, ◌≡◌, refl, true, false, Option, none, some, List, [], ◌∷◌, arith, eq_iff, is_some,
}
use mathlib.Core.Path.{subst}
use vsector.Dict.{lookup-insert}
use vsector.Exec.{ok, Exec, pure}
use vsector.Exec.Ends.{
  Ends, Ends-bind-gets, Ends-bind-lift, Ends-bind-modify, Ends-bind, Ends-pure, found_or-eq-ok,
  unless-eq-ok,
}
use vsector.Cluster.Moves.{transition-eq-ok}
use vsector.Cluster.{ClusterNode}
use vsector.Cluster.State.{NodeMembershipState, may_move}
use vsector.Etcd.{Etcd, get_node, put_node}
use vsector.Cluster.Membership.{
  register, move, activate, begin_drain, remove, restore, bootstrap_local_node, is_member,
  validate_cluster_id, found_or_registered,
}

-- The calls that change the membership.
pub data Op : Type 0 where
  registers : String → Option String → Op
  activates begins_drain removes bootstraps : String → Op

is_some-eq-false {ℓ} : {A : Type ℓ} (o : Option A) → is_some o ≡ false → o ≡ none
is_some-eq-false none h = refl
is_some-eq-false (some a) h = cc

module _ (cluster_id : String) where
  pub record IsWellFormed (e : Etcd) : Type 0 where
    pub own_key : (k : String) (n : ClusterNode) → get_node k e ≡ some n → n.node_id ≡ k
    pub own_cluster :
        (k : String) (n : ClusterNode) → get_node k e ≡ some n → n.cluster_id ≡ cluster_id

  -- The changes that a call can make: none, a new JOINING member, or one allowed move.
  pub data Step (e : Etcd) : Etcd → Type 0 where
    kept : Step e e
    joined :
        (i : String)
        → get_node i e ≡ none
        → Step e (
            put_node
              (record {
                node_id = i;
                cluster_id = cluster_id;
                state = NodeMembershipState.joining;
                version = 1;
              })
              e)
    moved :
        (i : String) (n : ClusterNode) (to : NodeMembershipState)
        → get_node i e ≡ some n
        → n.cluster_id ≡ cluster_id
        → may_move n.state to ≡ true
        → Step e (put_node (record n { state = to; version = n.version + 1 }) e)

  pub data Reach (e : Etcd) : Etcd → Type 0 where
    here : Reach e e
    next : {t u : Etcd} → Reach e t → Step t u → Reach e u

  pub perform : Op → Exec Etcd ClusterNode
  perform (registers i c) = register cluster_id i c
  perform (activates i) = activate cluster_id i
  perform (begins_drain i) = begin_drain cluster_id i
  perform (removes i) = remove cluster_id i
  perform (bootstraps i) = bootstrap_local_node cluster_id i

  -- A caller goes on after an error, with the state that the call left.
  unfoldable pub run : List Op → Etcd → Etcd
  run [] e = e
  run (op ∷ ops) e = run ops (perform op e).1

  same_cluster :
      (i : String) (n : ClusterNode) (e : Etcd) {u : Unit {0}}
      → get_node i e ≡ some n
      → validate_cluster_id cluster_id i e ≡ ok u
      → n.cluster_id ≡ cluster_id
  unfolding validate_cluster_id
  same_cluster i n e found h = ground (arith, eq_iff n.cluster_id cluster_id)

  register-Step :
      (i : String) (c : Option String) (e : Etcd)
      → Ends (register cluster_id i c) e (λ r. Step e r.1)
  unfolding register is_member
  register-Step i c e = Ends-bind-gets _ _ e (
      Ends-bind-lift _ _ e (λ _ _. kept)
        λ _ new.
          Ends-bind-lift _ _ e (λ _ _. kept)
            λ _ _.
              Ends-bind-modify _ _ e
                (Ends-pure _ _ (joined i (is_some-eq-false _ (unless-eq-ok _ _ new)))))

  move-Step :
      (i : String) (to : NodeMembershipState) (e : Etcd)
      → Ends (move cluster_id i to) e (λ r. Step e r.1)
  unfolding move
  move-Step i to e = Ends-bind-gets _ _ e (
      Ends-bind-lift _ _ e (λ _ _. kept)
        λ n found. Ends-bind-gets _ _ e (
          Ends-bind-lift _ _ e (λ _ _. kept)
            λ _ same.
              Ends-bind-lift _ _ e (λ _ _. kept)
                λ n' accepted.
                  let at_i = found_or-eq-ok _ _ found in
                  let (allowed, result) = transition-eq-ok to n n' accepted in
                  Ends-bind-modify _ _ e (
                    Ends-pure _ _ (
                      subst (λ m. Step e (put_node m e)) result
                        (moved i n to at_i (same_cluster i n e at_i same) allowed)))))

  -- A restored record: the local node is activated only from JOINING.
  restore-Step :
      (i : String) (n : ClusterNode) (e : Etcd) → Ends (restore cluster_id i n) e (λ r. Step e r.1)
  unfolding restore activate
  restore-Step i n e = go n.state
    where
      go :
          (s : NodeMembershipState)
          → Ends
              (elim s [
                | NodeMembershipState.joining ↦ move cluster_id i NodeMembershipState.active
                | _ ↦ pure n
              ])
              e
              (λ r. Step e r.1)
      go NodeMembershipState.joining = move-Step i NodeMembershipState.active e
      go _ = Ends-pure n e kept

  found_or_registered-Step :
      (i : String) (o : Option ClusterNode) (e : Etcd)
      → Ends (found_or_registered cluster_id i o) e (λ r. Step e r.1)
  unfolding found_or_registered
  found_or_registered-Step i none e = register-Step i none e
  found_or_registered-Step i (some n) e = Ends-pure n e kept

  bootstrap-Reach :
      (i : String) (e : Etcd) → Ends (bootstrap_local_node cluster_id i) e (λ r. Reach e r.1)
  unfolding bootstrap_local_node
  bootstrap-Reach i e = Ends-bind-gets _ _ e (
      Ends-bind _ _ e (found_or_registered-Step i _ e) (λ _ t st. next here st)
        λ n t st. record { outcome = next (next here st) (restore-Step i n t).outcome })

  perform-Reach : (op : Op) (e : Etcd) → Reach e (perform op e).1
  unfolding perform activate begin_drain remove
  perform-Reach (registers i c) e = next here (register-Step i c e).outcome
  perform-Reach (activates i) e = next here (move-Step i NodeMembershipState.active e).outcome
  perform-Reach (begins_drain i) e = next here (move-Step i NodeMembershipState.draining e).outcome
  perform-Reach (removes i) e = next here (move-Step i NodeMembershipState.removed e).outcome
  perform-Reach (bootstraps i) e = (bootstrap-Reach i e).outcome

  Reach-trans : {e t u : Etcd} → Reach e t → Reach t u → Reach e u
  Reach-trans r here = r
  Reach-trans r (next q st) = next (Reach-trans r q) st

  pub run-Reach : (ops : List Op) (e : Etcd) → Reach e (run ops e)
  unfolding run
  run-Reach [] e = here
  run-Reach (op ∷ ops) e = Reach-trans (perform-Reach op e) (run-Reach ops (perform op e).1)

  put_node-IsWellFormed :
      (n : ClusterNode) (e : Etcd)
      → IsWellFormed e
      → n.cluster_id ≡ cluster_id
      → IsWellFormed (put_node n e)
  put_node-IsWellFormed n e h c = record {
    own_key = λ k m p.
        ground (arith, h.own_key k m, lookup-insert n.node_id k n e.nodes, eq_iff n.node_id k);
    own_cluster = λ k m p. ground (arith, h.own_cluster k m, lookup-insert n.node_id k n e.nodes);
  }

  Step-IsWellFormed : {e t : Etcd} → Step e t → IsWellFormed e → IsWellFormed t
  Step-IsWellFormed kept h = h
  Step-IsWellFormed {e} (joined i new) h = put_node-IsWellFormed _ e h refl
  Step-IsWellFormed {e} (moved i n to found own allowed) h = put_node-IsWellFormed _ e h own

  pub Reach-IsWellFormed : {e t : Etcd} → Reach e t → IsWellFormed e → IsWellFormed t
  Reach-IsWellFormed here h = h
  Reach-IsWellFormed (next r st) h = Step-IsWellFormed st (Reach-IsWellFormed r h)
