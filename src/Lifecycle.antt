-- ===== src/Lifecycle.antt =====
-- `ShardLifecycleManager` (vsector/sharding/lifecycle.py). The state of a call is the caller's
-- shard object and the store. The store's `put` may raise here, as `Etcd3Store.put` does when its
-- client is down; `membership` is the optional check `validate_node` of the cluster membership.
pub mod Transitions
pub mod Ownership
pub mod Traces
mod Examples
use vsector.Base.{
  String, ℕ, ◌+◌, Bool, Option, none, some, List, ◌==◌, contains, if◌then◌else◌, not,
}
use vsector.Errors.{Error}
use vsector.Exec.{
  Done, Result, ok, err, Exec, pure, lift, gets, modify, raise, raise_if, ◌>>=◌, ◌>>◌, try_except,
}
use vsector.Shard
use vsector.Shard.{Shard}
use vsector.Shard.State.{ShardState, is_readable}

pub record Held (St : Type 0) : Type 0 where
  pub shard : Shard
  pub store : St

abbrev pub is_draining : ShardState → Bool
is_draining ShardState.draining = Bool.true
is_draining _ = Bool.false

-- `given if given is not None else current`
abbrev pub given_or {ℓ} : {A : Type ℓ} → Option A → A → A
given_or none a = a
given_or (some b) a = b

module _ {St : Type 0} where
  abbrev pub set_shard : Shard → Exec (Held St) Done
  set_shard s = modify (λ h. record h { shard = s })

  module _ (put : Shard → St → Result Done × St)
      (membership : Option (String → St → Result Done)) where
    -- `self._store.put(shard)`
    unfoldable pub put_shard : Exec (Held St) Done
    put_shard h = let (r, t) = put h.shard h.store in (r, record h { store = t })

    -- `if self._membership is not None: self._membership.validate_node(node_id)`
    unfoldable pub check_member : String → Held St → Result Done
    check_member node_id h = elim membership [
      | none ↦ ok tt
      | some validate ↦ validate node_id h.store
    ]

    unfoldable pub create : Option String → Option (List String) → Exec (Held St) Shard
    unfolding put_shard check_member Shard.validate_ownership
    create owner replicas = do
      h ← gets (λ h. h)
      let s = h.shard
      set_shard
          (record s { node_id = given_or owner s.node_id; replicas = given_or replicas s.replicas })
      owned ← gets (λ h. Shard.validate_ownership h.shard)
      lift owned
      member ← gets (λ h. check_member h.shard.node_id h)
      lift member
      modify (λ h. record h { shard = record (h.shard) { state = ShardState.creating } })
      put_shard
      gets (λ h. h.shard)

    -- The body of the `try` in `transition`.
    unfoldable pub apply_transition : ShardState → Exec (Held St) Done
    unfolding put_shard Shard.transition
    apply_transition to = do
      h ← gets (λ h. h)
      s ← lift (Shard.transition to h.shard)
      set_shard s
      put_shard

    unfoldable pub transition : ShardState → Exec (Held St) Shard
    unfolding apply_transition
    transition to = do
      old ← gets (λ h. h.shard)
      try_except (apply_transition to)
          (λ e. do
            modify (λ h. record h {
              shard = record (h.shard) { state = old.state; version = old.version };
            })
            raise e)
          (λ _. gets (λ h. h.shard))

    unfoldable pub activate : Exec (Held St) Shard
    unfolding transition
    activate = transition ShardState.active

    unfoldable pub begin_drain : Exec (Held St) Shard
    unfolding transition
    begin_drain = transition ShardState.draining

    unfoldable pub retire : Exec (Held St) Shard
    unfolding transition
    retire = transition ShardState.offline

    -- The body of the `try` in `change_owner`.
    unfoldable pub apply_owner : String → List String → Exec (Held St) Done
    unfolding put_shard
    apply_owner new_owner new_replicas = do
      s ← gets (λ h. h.shard)
      set_shard (record s { node_id = new_owner; replicas = new_replicas; version = s.version + 1 })
      put_shard

    unfoldable pub change_owner : String → Option (List String) → Exec (Held St) Shard
    unfolding check_member apply_owner
    change_owner new_owner replicas = do
      h ← gets (λ h. h)
      let s = h.shard
      raise_if (not (is_draining s.state)) (Error.not_draining s.namespace s.id s.state)
      raise_if (new_owner == "") (Error.no_primary_owner s.namespace s.id)
      lift (check_member new_owner h)
      let new_replicas = given_or replicas s.replicas
      raise_if (contains new_owner new_replicas)
          (Error.ownership_conflict s.namespace s.id new_owner)
      try_except (apply_owner new_owner new_replicas)
          (λ e. do
            modify (λ h. record h {
              shard = record (h.shard) { node_id = s.node_id; replicas = s.replicas };
            })
            raise e)
          (λ _. gets (λ h. h.shard))
