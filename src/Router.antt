-- ===== src/Router.antt =====
-- `ShardRouter` (vsector/sharding/router.py) and its decisions (vsector/sharding/placement.py) over
-- the store. `hash` is `mmh3` of the rendezvous hashing, `sha256` the hash of a record's key. What
-- the cache of a namespace holds is the list as it was read, as with a store that hands out copies.
pub mod Split
pub mod Caching
pub mod Selection
pub mod Routes
pub mod Lists
mod Examples
use vsector.Base.{
  String, ℕ, ◌+◌, Bool, true, false, not, Option, none, some, List, [], ◌∷◌, map, ◌==◌, ◌&&◌, ltb,
  if◌then◌else◌, select, all_of, contains,
}
use Prim.Native.String.{◌++◌ as ◌+++◌}
use vsector.Dict.{Dict, lookup, insert, erase}
use vsector.Errors.{Error}
use vsector.Exec.{
  Done, Result, ok, err, Exec, pure, lift, gets, modify, raise, raise_if, ◌>>=◌, ◌>>◌, try_except,
}
use vsector.Shard
use vsector.Shard.{Shard}
use vsector.Shard.State.{ShardState, is_readable}
use vsector.Cluster.Membership.{validate_node}
use vsector.Etcd
use vsector.Etcd.{Etcd}
use vsector.Placement.{
  Mode, RoutingDecision, ShardPlacement, decision_for, shard_placement, is_active,
}
use vsector.HashRing.{RendezvousHash, get_node}

-- The store, the two caches, and the reading of the clock.
pub record Router : Type 0 where
  pub etcd : Etcd
  pub cache : Dict (ℕ × List Shard)
  pub hrw_cache : Dict RendezvousHash
  pub now : ℕ

-- `_state_error`
abbrev pub state_error : Shard → Error
state_error s = elim s.state [
  | ShardState.creating ↦ Error.shard_creating s.namespace s.id
  | ShardState.draining ↦ Error.shard_draining s.namespace s.id
  | _ ↦ Error.shard_offline s.namespace s.id s.state
]

-- `set(xs) == set(ys)`
abbrev pub same_set : List String → List String → Bool
same_set xs ys = all_of (λ x. contains x ys) xs && all_of (λ y. contains y xs) ys

abbrev pub ids : List Shard → List String
ids ss = map (λ s. s.id) ss

-- `[s for s in shards if s.id]`
abbrev pub with_id : List Shard → List Shard
with_id ss = select (λ s. not (s.id == "")) ss

-- The ring to use, by what the cache holds for the namespace.
abbrev pub synced : Option RendezvousHash → List String → RendezvousHash
synced none current = current
synced (some nodes) current = if same_set current nodes then nodes else current

-- `for s in active: if s.id == shard_id: return s`, and `active[0]` after the loop
unfoldable pub first_with : String → List Shard → Option Shard
first_with shard_id [] = none
first_with shard_id (s ∷ ss) = if s.id == shard_id then some s else first_with shard_id ss

abbrev pub found_in : List Shard → Option Shard → Result Shard
found_in active (some s) = ok s
found_in [] none = err (Error.other_error "list index out of range")
found_in (s ∷ _) none = ok s

-- `now - ts < self.cache_ttl`
abbrev pub fresh_entry : ℕ → ℕ → Option (ℕ × List Shard) → Option (List Shard)
fresh_entry now cache_ttl none = none
fresh_entry now cache_ttl (some (ts, shards)) =
    if ltb now (ts + cache_ttl) then some shards else none

-- `_get_shards_cached`
unfoldable pub get_shards_cached : ℕ → String → Exec Router (List Shard)
get_shards_cached cache_ttl namespace = do
  r ← gets (λ r. r)
  elim (fresh_entry r.now cache_ttl (lookup namespace r.cache)) [
    | some shards ↦ pure shards
    | none ↦ do
      let shards = Etcd.list_by_namespace namespace r.etcd
      modify (λ r. record r { cache = insert namespace (r.now, shards) r.cache })
      pure shards
  ]

unfoldable pub invalidate : String → Exec Router Done
invalidate namespace =
    modify
      (λ r. record r { cache = erase namespace r.cache; hrw_cache = erase namespace r.hrw_cache })

-- `namespace` and `record_id` to a key, by `hashlib.sha256`
abbrev pub shard_key : (String → String) → String → String → String
shard_key sha256 namespace record_id = sha256 (namespace +++ (":" +++ record_id))

-- `_validate_owner`, which checks nothing without a membership
unfoldable pub validate_owner : Bool → Shard → Etcd → Result Done
unfolding Shard.require_owner validate_node
validate_owner false s e = ok tt
validate_owner true s e = elim (Shard.require_owner s) [
  | ok owner ↦ validate_node owner e
  | err x ↦ err x
]

abbrev pub owned_by : Option String → String → Shard → Result String → Result Shard
owned_by owner_node_id namespace s (err x) = err x
owned_by none namespace s (ok owner) = ok s
owned_by (some node) namespace s (ok owner) =
    if owner == node then ok s else err (Error.ownership_mismatch namespace s.id owner node)

-- The two checks of `route`, and the three of `route_write`.
unfoldable pub readable_check : Bool → Shard → Etcd → Result Shard
unfolding validate_owner is_readable
readable_check membership s e =
    if not (is_readable s.state)
    then err (state_error s)
    else elim (validate_owner membership s e) [ ok _ ↦ ok s | err x ↦ err x ]

unfoldable pub writable_check : Bool → String → Option String → Shard → Etcd → Result Shard
unfolding validate_owner Shard.require_owner
writable_check membership namespace owner_node_id s e =
    if not (is_active s.state) then err (state_error s) else elim (validate_owner membership s e) [
      | ok _ ↦ owned_by owner_node_id namespace s (Shard.require_owner s)
      | err x ↦ err x
    ]

-- `_select_or_raise`
abbrev pub placement_error : String → Error → Error
placement_error namespace (Error.key_error _) = Error.placement_error namespace
placement_error namespace e = e

module _ (hash : String → ℕ) (sha256 : String → String) where
  -- `_select`, after the list of shards is known
  unfoldable pub select_from : String → String → List Shard → Exec Router Shard
  unfolding get_node first_with
  select_from namespace record_id shards = do
    let active = with_id shards
    r ← gets (λ r. r)
    let hrw = synced (lookup namespace r.hrw_cache) (ids active)
    modify (λ r. record r { hrw_cache = insert namespace hrw r.hrw_cache })
    shard_id ← lift (get_node hash (shard_key sha256 namespace record_id) hrw)
    lift (found_in active (first_with shard_id active))

module _ (hash : String → ℕ) (sha256 : String → String) (cache_ttl : ℕ) where
  -- `_select`
  unfoldable pub select_shard : String → String → Exec Router Shard
  unfolding get_shards_cached select_from
  select_shard namespace record_id = do
    shards ← get_shards_cached cache_ttl namespace
    elim shards [
      | [] ↦ raise (Error.key_error namespace)
      | s ∷ ss ↦ select_from hash sha256 namespace record_id (s ∷ ss)
    ]

  module _ (membership : Bool) where
    unfoldable pub route : String → String → Exec Router Shard
    unfolding select_shard readable_check
    route namespace record_id = do
      s ← select_shard namespace record_id
      checked ← gets (λ r. readable_check membership s r.etcd)
      lift checked

    unfoldable pub route_write : String → String → Option String → Exec Router Shard
    unfolding select_shard writable_check
    route_write namespace record_id owner_node_id = do
      s ← select_shard namespace record_id
      checked ← gets (λ r. writable_check membership namespace owner_node_id s r.etcd)
      lift checked

    unfoldable pub select_or_raise : String → String → Exec Router Shard
    unfolding select_shard
    select_or_raise namespace record_id =
        try_except (select_shard namespace record_id) (λ e. raise (placement_error namespace e))
          pure

    -- `place`, `route_read_decision` and `route_write_decision`, which differ in the mode
    unfoldable pub decide : Mode → String → String → Option String → Exec Router RoutingDecision
    unfolding select_or_raise decision_for
    decide mode namespace record_id local_node_id = do
      s ← select_or_raise namespace record_id
      gets (λ r. decision_for membership namespace s local_node_id mode r.etcd)

module _ (cache_ttl : ℕ) where
  unfoldable pub route_for_query : String → Exec Router (List Shard)
  unfolding get_shards_cached is_readable
  route_for_query namespace = do
    shards ← get_shards_cached cache_ttl namespace
    pure (select (λ s. is_readable s.state) shards)

  module _ (membership : Bool) where
    unfoldable pub query_route : String → Option String → Exec Router (List RoutingDecision)
    unfolding get_shards_cached is_readable decision_for
    query_route namespace local_node_id = do
      shards ← get_shards_cached cache_ttl namespace
      r ← gets (λ r. r)
      pure (
          map (λ s. decision_for membership namespace s local_node_id Mode.read r.etcd)
            (select (λ s. is_readable s.state) shards))

-- The shards of `placement_view`, read from the store.
unfoldable pub placement_view : Bool → String → Option String → Router → List ShardPlacement
unfolding shard_placement
placement_view membership namespace local_node_id r =
    map (λ s. shard_placement membership s local_node_id r.etcd)
      (Etcd.list_by_namespace namespace r.etcd)

-- The loop of `writable`: the first shard that is not writable raises.
unfoldable pub writable_from : Option String → String → List Shard → Result (List Shard)
unfolding Shard.require_owner
writable_from owner_node_id namespace [] = ok []
writable_from owner_node_id namespace (s ∷ ss) =
    let rest = writable_from owner_node_id namespace ss in
    if not (is_active s.state)
    then err (state_error s)
    else elim (owned_by owner_node_id namespace s (Shard.require_owner s)) [
      | ok t ↦ elim rest [ ok ts ↦ ok (t ∷ ts) | err x ↦ err x ]
      | err x ↦ err x
    ]

unfoldable pub writable : ℕ → String → Option String → Exec Router (List Shard)
unfolding get_shards_cached writable_from
writable cache_ttl namespace owner_node_id = do
  shards ← get_shards_cached cache_ttl namespace
  lift (writable_from owner_node_id namespace shards)

unfoldable pub register_shard : Shard → Exec Router Done
unfolding invalidate
register_shard s = do modify (λ r. record r { etcd = Etcd.put s r.etcd }); invalidate s.namespace
