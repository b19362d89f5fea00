-- ===== src/Lifecycle/Ownership.antt =====
-- Changes of the primary owner, on every branch, and what a created shard is.
use vsector.Base.{◌+◌, ◌≡◌, false, arith, Option, String, List, ◌==◌, contains, ◌⊎◌}
use vsector.Exec.{Done, Result, ok, err, ◌>>=◌, try_except}
use vsector.Shard
use vsector.Shard.{Shard}
use vsector.Shard.State.{ShardState}
use vsector.Lifecycle.{Held, given_or, check_member, create, change_owner}

module _ {St : Type 0} (put : Shard → St → Result Done × St)
    (membership : Option (String → St → Result Done)) where
  -- the guards of `change_owner`
  pub record MayOwn (new_owner : String) (replicas : List String) (h : Held St) : Type 0 where
    pub draining : h.shard.state ≡ ShardState.draining
    pub named : (new_owner == "") ≡ false
    pub a_member : check_member put membership new_owner h ≡ ok tt
    pub no_replica : contains new_owner replicas ≡ false

  abbrev reassigned : String → List String → Shard → Shard
  reassigned new_owner replicas s = record s {
    node_id = new_owner;
    replicas = replicas;
    version = s.version + 1;
  }

  abbrev pub OwnerChanged : String → List String → Held St → Result Shard × Held St → Type 0
  OwnerChanged new_owner replicas h (ok s, t) =
      MayOwn new_owner replicas h
      × (s ≡ reassigned new_owner replicas h.shard)
      × (t.shard ≡ s)
      × (put s h.store ≡ (ok tt, t.store))
  OwnerChanged new_owner replicas h (err e, t) =
      (t ≡ h)
      ⊎ (MayOwn new_owner replicas h
          × (put (reassigned new_owner replicas h.shard) h.store ≡ (err e, t.store))
          × (t.shard ≡ record (h.shard) { version = h.shard.version + 1 }))

  -- `change_owner` on every branch. It returns only a DRAINING shard, with a named new owner that
  -- is a member and no replica; the version is one higher and the store has taken the shard. A
  -- check that fails changes nothing. A store that refuses leaves the shard with its old owner and
  -- replicas, but with a version that is one higher.
  pub change_owner-OwnerChanged :
      (new_owner : String) (replicas : Option (List String)) (h : Held St)
      → OwnerChanged new_owner
          (given_or replicas h.shard.replicas)
          h
          (change_owner put membership new_owner replicas h)
  unfolding change_owner ◌>>=◌ try_except
  change_owner-OwnerChanged new_owner replicas h = ground arith

  -- what `create` has done when it returns: `s` is the shard that it was asked to register
  abbrev pub Created : Shard → Held St → Result Shard × Held St → Type 0
  Created s h (ok c, t) =
      (Shard.validate_ownership s ≡ ok tt)
      × (check_member put membership s.node_id h ≡ ok tt)
      × (c ≡ record s { state = ShardState.creating })
      × (t.shard ≡ c)
      × (put c h.store ≡ (ok tt, t.store))
  Created s h (err e, t) =
      ((Shard.validate_ownership s ≡ err e) × (t ≡ record h { shard = s }))
      ⊎ ((Shard.validate_ownership s ≡ ok tt)
          × (check_member put membership s.node_id h ≡ err e)
          × (t ≡ record h { shard = s }))
      ⊎ ((put (record s { state = ShardState.creating }) h.store ≡ (err e, t.store))
          × (t.shard ≡ record s { state = ShardState.creating }))

  -- `create` on every branch: the shard gets the given owner and replicas, is CREATING and stored
  -- when the owner is valid and a member, and the error is that of the first check that fails or of
  -- the store.
  pub create-Created :
      (owner : Option String) (replicas : Option (List String)) (h : Held St)
      → Created
          (record (h.shard) {
            node_id = given_or owner h.shard.node_id;
            replicas = given_or replicas h.shard.replicas;
          })
          h
          (create put membership owner replicas h)
  unfolding create ◌>>=◌ check_member
  create-Created owner replicas h = ground arith
