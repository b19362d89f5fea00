-- ===== src/Ingest/Upserts.antt =====
-- `IngestService.upsert` (vsector/ingest/service.py). `Number` is what a vector is made of, and
-- `to_record` makes the record of a namespace of what a request has, which may raise. `table_name`
-- names a flushed table by the clock, `new_ids` the halves of a shard that is split, and `compacts`
-- is how a compaction of an index ends.
use Prim.Native.String.{◌++◌ as ◌+++◌}
use vsector.Base.{
  String, ℕ, ◌+◌, Bool, false, Option, none, some, List, [], ◌∷◌, ◌++◌, eqb, leb, ltb, length,
  if◌then◌else◌, ◌==◌,
}
use vsector.Dict.{Dict, lookup, insert}
use vsector.Errors.{Error}
use vsector.Exec.{
  Done, Result, ok, err, Exec, pure, lift, gets, modify, raise_if, ◌>>=◌, ◌>>◌, try_except,
}
use vsector.Shard.{Shard}
use vsector.Router.{route_write}
use vsector.Router.Split.{maybe_split}
use vsector.Index.{Index, maybe_compact}
use vsector.Storage.{VectorRecord, flush, add_id}
use vsector.Transfer.{Root}
use vsector.Context.{ShardContext, local_upsert, apply_replicated_upsert}
use vsector.Replication.{ReplicationResult, ReplicationHealth, is_empty, deliver}
use vsector.Replication.Aggregate.{Summary, aggregate_replication}
use vsector.Ingest.{
  Namespace, Hosted, Service, context_key, on_context, on_router, record_replication_stats,
  get_or_create_ctx, get_or_create_replica_endpoint, namespace_of, flush_touched,
  replication_health_map,
}

pub record RawRecord (Number : Type 0) : Type 0 where
  pub id : Option String
  pub vector : Option (List Number)
  pub rest : String

pub record UpsertResult : Type 0 where
  pub upserted : ℕ
  pub ids : List String
  pub errors : List (Option String × Error)
  pub replication : Summary
  pub health : Dict ReplicationHealth

-- What the loop of `upsert` collects.
pub record Batch : Type 0 where
  pub upserted : List String
  pub errors : List (Option String × Error)
  pub touched : List String
  pub replication_results : List ReplicationResult

abbrev pub empty_batch : Batch
empty_batch = record { upserted = []; errors = []; touched = []; replication_results = [] }

-- The service within the loop.
pub record Progress (Idx : Type 0) : Type 0 where
  pub service : Service Idx
  pub batch : Batch

-- The service with the results that it keeps by idempotency key.
pub record Keeping (Idx : Type 0) : Type 0 where
  pub service : Service Idx
  pub idempotency : Dict UpsertResult

-- A call of the service within the loop.
unfoldable pub on_service : {Idx A : Type 0} → Exec (Service Idx) A → Exec (Progress Idx) A
on_service m p = let (r, svc) = m p.service in (r, record p { service = svc })

-- A call of the service outside the loop.
unfoldable pub on_kept : {Idx A : Type 0} → Exec (Service Idx) A → Exec (Keeping Idx) A
on_kept m i = let (r, svc) = m i.service in (r, record i { service = svc })

-- `len(vec) != ns.dimension`, and a vector that is missing
abbrev pub vector_of : {Number : Type 0} → ℕ → Option (List Number) → Result (List Number)
vector_of dimension none = err (Error.other_error "vector missing")
vector_of dimension (some vec) =
    if eqb (length vec) dimension then ok vec else err (Error.other_error "dimension mismatch")

-- `if errors: repl_summary["success"] = False`
abbrev pub without_success : Bool → Summary → Summary
without_success clean summary = if clean then summary else record summary { success = false }

-- `idempotency_key and idempotency_key in self._idempotency`
abbrev pub stored : Option String → Dict UpsertResult → Option UpsertResult
stored none d = none
stored (some key) d = if key == "" then none else lookup key d

abbrev pub stored_or : {S A : Type 0} → Exec S A → Option A → Exec S A
stored_or m none = m
stored_or m (some result) = pure result

-- `if idempotency_key: self._idempotency[idempotency_key] = result`
abbrev pub keep : Option String → UpsertResult → Dict UpsertResult → Dict UpsertResult
keep none result d = d
keep (some key) result d = if key == "" then d else insert key result d

abbrev pub upsert_result : {Idx : Type 0} → String → Namespace → Batch → Service Idx → UpsertResult
upsert_result namespace ns b svc = record {
  upserted = length b.upserted;
  ids = b.upserted;
  errors = b.errors;
  replication =
      without_success (is_empty b.errors)
        (aggregate_replication b.replication_results ns.required_acks);
  health = replication_health_map namespace ns b.touched svc;
}

module _ {Idx Number : Type 0} (index : Index Idx) (new_index : String → Idx)
    (disk : String → String → Root) (base_dir : String) (metadata : Dict Namespace)
    (hash : String → ℕ) (sha256 : String → String) (cache_ttl : ℕ) (membership : Bool)
    (node_id : Option String) (to_record : String → RawRecord Number → Result VectorRecord)
    (table_name : ℕ → String) (new_ids : Shard → String × String) (compacts : Result Done) where
  -- What `replicate_upsert` has an endpoint do.
  unfoldable pub apply_upsert :
      ℕ → String → Shard → VectorRecord → String → Exec (Dict (ShardContext Idx)) Done
  unfolding get_or_create_replica_endpoint
  apply_upsert now namespace s rec node = do
    ctx ← get_or_create_replica_endpoint index new_index disk base_dir metadata now namespace s node
    modify (
        insert (context_key namespace (s.id +++ (":" +++ node)))
          (apply_replicated_upsert index (table_name now) rec ctx))

  -- `shard` with the count that the context has added to
  abbrev pub with_count : Shard → Option (Hosted Idx) → Shard
  with_count s none = s
  with_count s (some h) = record s { vector_count = h.shard.vector_count + h.ctx.vector_count }

  -- `self.replicator.replicate_upsert(..)`
  unfoldable pub replicate_upsert :
      String → ℕ → Shard → VectorRecord → Exec (Service Idx) ReplicationResult
  unfolding apply_upsert
  replicate_upsert namespace required_acks s rec svc =
      let (repl, replicator) =
        deliver (apply_upsert svc.router.now namespace s rec) namespace s required_acks
          svc.replicator in
      (ok repl, record svc { replicator = replicator })

  -- The context takes the record, and is one of the touched.
  unfoldable pub stored_locally : String → Shard → VectorRecord → Progress Idx → Progress Idx
  unfolding on_context
  stored_locally namespace s rec p =
      let key = context_key namespace s.id in
      record p {
        service = record p.service {
          shards =
              on_context (local_upsert index (table_name p.service.router.now) rec) key
                p.service.shards;
        };
        batch = record p.batch { touched = add_id key p.batch.touched };
      }

  abbrev pub replicated : String → Shard → ReplicationResult → Progress Idx → Progress Idx
  replicated namespace s repl p = record p {
    service = record_replication_stats namespace s repl p.service;
    batch = record p.batch { replication_results = p.batch.replication_results ++ (repl ∷ []) };
  }

  -- The `try` of one record, up to the id that it gives.
  unfoldable pub upsert_record : String → Namespace → RawRecord Number → Exec (Progress Idx) String
  unfolding on_service on_router get_or_create_ctx stored_locally replicate_upsert
      record_replication_stats
  upsert_record namespace ns raw = do
    _ ← lift (vector_of ns.dimension raw.vector)
    rec ← lift (to_record namespace raw)
    s ←
        on_service
          (on_router (route_write hash sha256 cache_ttl membership namespace rec.id node_id))
    _ ← on_service (get_or_create_ctx index new_index disk base_dir metadata namespace s)
    modify (stored_locally namespace s rec)
    p ← gets (λ p. p)
    let counted = with_count s (lookup (context_key namespace s.id) p.service.shards)
    repl ← on_service (replicate_upsert namespace ns.required_acks counted rec)
    modify (replicated namespace s repl)
    _ ←
        on_service
          (on_router (maybe_split (new_ids counted).0 (new_ids counted).1 (λ _ _ _. ok tt) counted))
    pure rec.id

  -- One turn of the loop.
  unfoldable pub upsert_one : String → Namespace → RawRecord Number → Exec (Progress Idx) Done
  unfolding upsert_record
  upsert_one namespace ns raw =
      try_except (upsert_record namespace ns raw)
        (λ e. modify (λ p. record p {
          batch = record p.batch { errors = p.batch.errors ++ ((raw.id, e) ∷ []) };
        }))
        (λ id.
          modify
            (λ p. record p { batch = record p.batch { upserted = p.batch.upserted ++ (id ∷ []) } }))

  unfoldable pub upsert_all :
      String → Namespace → List (RawRecord Number) → Exec (Progress Idx) Done
  unfolding upsert_one
  upsert_all namespace ns [] = pure tt
  upsert_all namespace ns (raw ∷ records) = do
    upsert_one namespace ns raw
    upsert_all namespace ns records

  -- The loop over the touched contexts that flushes what is full.
  unfoldable pub flush_full : List String → Exec (Service Idx) Done
  unfolding on_context flush maybe_compact
  flush_full [] = pure tt
  flush_full (key ∷ keys) = do
    svc ← gets (λ x. x)
    elim (lookup key svc.shards) [
      | none ↦ pure tt
      | some h ↦
          if leb h.ctx.segments.flush_threshold (length h.ctx.segments.memtable)
          then (do
            let (r, l) = maybe_compact compacts svc.router.now h.ctx.lifecycle
            modify (λ svc. record svc {
              shards =
                  on_context
                    (λ c. record c {
                      segments = flush (table_name svc.router.now) c.segments;
                      lifecycle = l;
                    })
                    key svc.shards;
            })
            lift r)
          else pure tt
    ]
    flush_full keys

  -- The loop of a request, from nothing collected.
  unfoldable pub run_batch : String → Namespace → List (RawRecord Number) → Exec (Keeping Idx) Batch
  unfolding upsert_all
  run_batch namespace ns records i =
      let (_, p) =
        upsert_all namespace ns records (record { service = i.service; batch = empty_batch }) in
      (ok p.batch, record i { service = p.service })

  abbrev pub upsert_new :
      String → List (RawRecord Number) → Option String → Exec (Keeping Idx) UpsertResult
  upsert_new namespace records idempotency_key = do
    ns ← namespace_of index new_index disk base_dir metadata namespace
    raise_if (ltb 10000 (length records)) (Error.other_error "Max batch size 10,000")
    b ← run_batch namespace ns records
    on_kept (modify (flush_touched index b.touched))
    on_kept (flush_full b.touched)
    i ← gets (λ i. i)
    let result = upsert_result namespace ns b i.service
    modify (λ i. record i { idempotency = keep idempotency_key result i.idempotency })
    pure result

  unfoldable pub upsert :
      String → List (RawRecord Number) → Option String → Exec (Keeping Idx) UpsertResult
  unfolding on_kept run_batch flush_full
  upsert namespace records idempotency_key = do
    i ← gets (λ i. i)
    stored_or (upsert_new namespace records idempotency_key) (stored idempotency_key i.idempotency)
