-- ===== src/Ingest.antt =====
-- `IngestService` (vsector/ingest/service.py) over the router, the contexts of the shards and the
-- replication transport: its reads and its deletes by id; `Upserts` has the upserts. `disk` has
-- what is stored when the process starts, by base directory and shard id, `new_index` makes an
-- index for a namespace, and `metadata` has the namespaces.
pub mod Contexts
pub mod Deletion
pub mod Counts
pub mod Reading
pub mod Upserts
pub mod Counting
pub mod Keys
pub mod Accounting
mod Examples
use Prim.Native.String.{◌++◌ as ◌+++◌}
use vsector.Base.{
  String, ℕ, ◌+◌, Bool, true, Option, none, some, List, [], ◌∷◌, ◌++◌, map, length, if◌then◌else◌,
}
use vsector.Dict.{Dict, lookup, insert}
use vsector.Errors.{Error}
use vsector.Exec.{Done, Result, Exec, pure, gets, modify, or_raise, ◌>>=◌, ◌>>◌}
use vsector.Shard.{Shard}
use vsector.Router.{Router, route, writable}
use vsector.Index.{Index}
use vsector.Storage.{VectorRecord}
use vsector.Transfer.{Root}
use vsector.Context.{ShardContext, local_delete, apply_replicated_delete, flush_wal, visible}
use vsector.Context.Reopening.{opened}
use vsector.Replication.{
  ReplicationResult, ReplicationHealth, Transport, deliver, replication_health,
}
use vsector.Replication.Aggregate.{Summary, aggregate_replication}

-- What the service reads of a namespace.
pub record Namespace : Type 0 where
  pub dimension : ℕ
  pub required_acks : ℕ

pub record ReplicationStats : Type 0 where
  pub attempts : ℕ
  pub acks : ℕ
  pub failures : ℕ
  pub degraded : ℕ

-- A context with the shard that it was created for.
pub record Hosted (Idx : Type 0) : Type 0 where
  pub shard : Shard
  pub ctx : ShardContext Idx

pub record Service (Idx : Type 0) : Type 0 where
  pub router : Router
  pub replicator : Transport (Dict (ShardContext Idx))
  pub shards : Dict (Hosted Idx)
  pub replication_stats : Dict ReplicationStats

pub record DeleteResult : Type 0 where
  pub deleted : ℕ
  pub replication : Summary
  pub health : Dict ReplicationHealth

abbrev pub context_key : String → String → String
context_key namespace shard_id = namespace +++ (":" +++ shard_id)

abbrev pub or_new_stats : Option ReplicationStats → ReplicationStats
or_new_stats none = record { attempts = 0; acks = 0; failures = 0; degraded = 0 }
or_new_stats (some stats) = stats

abbrev pub counted : ReplicationResult → ReplicationStats → ReplicationStats
counted repl stats = record {
  attempts = stats.attempts + length repl.attempted_replicas;
  acks = stats.acks + length repl.acknowledged_replicas;
  failures = stats.failures + length repl.failed_replicas;
  degraded = if repl.degraded then stats.degraded + 1 else stats.degraded;
}

module _ {Idx : Type 0} (f : ShardContext Idx → ShardContext Idx) (key : String) where
  abbrev pub changed : Dict (Hosted Idx) → Option (Hosted Idx) → Dict (Hosted Idx)
  changed shards none = shards
  changed shards (some h) = insert key (record h { ctx = f h.ctx }) shards

  -- What happens to the context object behind a key.
  unfoldable pub on_context : Dict (Hosted Idx) → Dict (Hosted Idx)
  on_context shards = changed shards (lookup key shards)

-- `rec and _id not in ctx.tombstones`, and the list that `fetch` makes of it
abbrev pub found : Option VectorRecord → List VectorRecord → List VectorRecord
found none rest = rest
found (some r) rest = r ∷ rest

abbrev pub first : List VectorRecord → Option VectorRecord
first [] = none
first (r ∷ _) = some r

-- A call of the router.
unfoldable pub on_router : {Idx A : Type 0} → Exec Router A → Exec (Service Idx) A
on_router m svc = let (r, router) = m svc.router in (r, record svc { router = router })

-- `_record_replication_stats`
unfoldable pub record_replication_stats :
    {Idx : Type 0} → String → Shard → ReplicationResult → Service Idx → Service Idx
record_replication_stats namespace s repl svc =
    let key = context_key namespace s.id in
    record svc {
      replication_stats =
          insert key (counted repl (or_new_stats (lookup key svc.replication_stats)))
            svc.replication_stats;
    }

module _ {Idx : Type 0} (index : Index Idx) where
  -- `for ctx in touched.values(): ctx.wal.flush()`
  unfoldable pub flush_touched : List String → Service Idx → Service Idx
  unfolding on_context
  flush_touched [] svc = svc
  flush_touched (key ∷ keys) svc =
      flush_touched keys (record svc { shards = on_context (flush_wal index) key svc.shards })

-- `_replication_health_map`, as one table: the contexts behind the keys.
unfoldable pub replication_health_map :
    {Idx : Type 0} → String → Namespace → List String → Service Idx → Dict ReplicationHealth
unfolding replication_health
replication_health_map namespace ns [] svc = []
replication_health_map namespace ns (key ∷ keys) svc =
    let rest = replication_health_map namespace ns keys svc in
    elim (lookup key svc.shards) [
      | none ↦ rest
      | some h ↦
          (key, replication_health namespace h.shard ns.required_acks true svc.replicator) ∷ rest
    ]

-- The keys of `touched`.
abbrev pub touched : String → List String → List Shard → List String
touched namespace [] shards = []
touched namespace (_ ∷ _) shards = map (λ (s : Shard). context_key namespace s.id) shards

module _ {Idx : Type 0} (index : Index Idx) (new_index : String → Idx)
    (disk : String → String → Root) (base_dir : String) (metadata : Dict Namespace) where
  abbrev pub namespace_of : {S : Type 0} → String → Exec S Namespace
  namespace_of namespace =
      or_raise (lookup namespace metadata) (Error.other_error "namespace not found")

  abbrev pub new_context : ℕ → String → Shard → Hosted Idx
  new_context now namespace s = record {
    shard = s;
    ctx = opened index now (new_index namespace) (disk base_dir s.id);
  }

  abbrev pub context_or_new :
      ℕ → String → Shard → Option (Hosted Idx) → Exec (Service Idx) (Hosted Idx)
  context_or_new now namespace s (some h) = pure h
  context_or_new now namespace s none = do
    _ ← namespace_of namespace
    let h = new_context now namespace s
    modify (λ svc. record svc { shards = insert (context_key namespace s.id) h svc.shards })
    pure h

  -- `_get_or_create_ctx`
  unfoldable pub get_or_create_ctx : String → Shard → Exec (Service Idx) (Hosted Idx)
  get_or_create_ctx namespace s = do
    svc ← gets (λ x. x)
    context_or_new svc.router.now namespace s (lookup (context_key namespace s.id) svc.shards)

  -- `_get_or_create_replica_endpoint`
  unfoldable pub get_or_create_replica_endpoint :
      ℕ → String → Shard → String → Exec (Dict (ShardContext Idx)) (ShardContext Idx)
  get_or_create_replica_endpoint now namespace s node_id = do
    endpoints ← gets (λ x. x)
    let key = context_key namespace (s.id +++ (":" +++ node_id))
    elim (lookup key endpoints) [
      | some ctx ↦ pure ctx
      | none ↦ do
        _ ← namespace_of namespace
        let ctx =
            opened index now (new_index namespace)
              (disk (base_dir +++ "/replicas") (s.id +++ ("#replica-" +++ node_id)))
        modify (insert key ctx)
        pure ctx
    ]

  -- What `replicate_delete` has an endpoint do.
  unfoldable pub apply_delete :
      ℕ → String → Shard → String → String → Exec (Dict (ShardContext Idx)) Done
  unfolding get_or_create_replica_endpoint
  apply_delete now namespace s id node_id = do
    ctx ← get_or_create_replica_endpoint now namespace s node_id
    modify (
        insert (context_key namespace (s.id +++ (":" +++ node_id)))
          (apply_replicated_delete index id ctx))

  -- The body of the loop of `delete` over the ids.
  unfoldable pub delete_one :
      String → ℕ → Shard → String → Service Idx → ReplicationResult × Service Idx
  unfolding on_context record_replication_stats
  delete_one namespace required_acks s id svc =
      let shards = on_context (local_delete index id) (context_key namespace s.id) svc.shards in
      let (repl, replicator) =
        deliver (apply_delete svc.router.now namespace s id) namespace s required_acks
          svc.replicator in
      (
        repl,
        record_replication_stats namespace s repl
            (record svc { shards = shards; replicator = replicator }),
      )

  unfoldable pub delete_ids :
      String → ℕ → Shard → List String → Service Idx → List ReplicationResult × Service Idx
  unfolding delete_one
  delete_ids namespace required_acks s [] svc = ([], svc)
  delete_ids namespace required_acks s (id ∷ ids) svc =
      let (repl, svc') = delete_one namespace required_acks s id svc in
      let (rest, svc'') = delete_ids namespace required_acks s ids svc' in (repl ∷ rest, svc'')

  -- The loop of `delete` over the shards.
  unfoldable pub delete_from :
      String → ℕ → List String → List Shard → Exec (Service Idx) (List ReplicationResult)
  unfolding get_or_create_ctx delete_ids
  delete_from namespace required_acks ids [] = pure []
  delete_from namespace required_acks ids (s ∷ ss) = do
    _ ← get_or_create_ctx namespace s
    results ←
        λ svc. let (rs, svc') = delete_ids namespace required_acks s ids svc in (Result.ok rs, svc')
    rest ← delete_from namespace required_acks ids ss
    pure (results ++ rest)

  module _ (cache_ttl : ℕ) (node_id : Option String) where
    -- `delete` with ids
    unfoldable pub delete : String → List String → Exec (Service Idx) DeleteResult
    unfolding on_router delete_from flush_touched replication_health_map
    delete namespace ids = do
      ns ← namespace_of namespace
      shards ← on_router (writable cache_ttl namespace node_id)
      results ← delete_from namespace ns.required_acks ids shards
      modify (flush_touched index (touched namespace ids shards))
      svc ← gets (λ x. x)
      pure (record {
        deleted = length results;
        replication = aggregate_replication results ns.required_acks;
        health = replication_health_map namespace ns (touched namespace ids shards) svc;
      })

  module _ (hash : String → ℕ) (sha256 : String → String) (cache_ttl : ℕ) (membership : Bool) where
    unfoldable pub fetch : String → List String → Exec (Service Idx) (List VectorRecord)
    unfolding on_router get_or_create_ctx
    fetch namespace [] = pure []
    fetch namespace (id ∷ ids) = do
      s ← on_router (route hash sha256 cache_ttl membership namespace id)
      h ← get_or_create_ctx namespace s
      rest ← fetch namespace ids
      pure (found (visible id h.ctx) rest)

    unfoldable pub get_one : String → String → Exec (Service Idx) (Option VectorRecord)
    unfolding fetch
    get_one namespace id = do r ← fetch namespace (id ∷ []); pure (first r)
