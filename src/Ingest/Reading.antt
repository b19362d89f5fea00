-- ===== src/Ingest/Reading.antt =====
-- What a read finds after a delete by ids.
use mathlib.Core.Path.{subst}
use vsector.Base.{
  String, ℕ, ◌≡◌, refl, sym, ap, Bool, true, Option, none, some, List, [], contains, Among,
  Among-map,
}
use vsector.Dict.{Dict, lookup}
use vsector.Exec.{Result, ok, err, pure}
use vsector.Exec.Ends.{Ends, Ends-pure, Ends-bind, Ends-bind-ok}
use vsector.Shard.{Shard}
use vsector.Router.{ids as router_ids, Router, get_shards_cached, route}
use vsector.Router.Lists.{Routed, route-Routed}
use vsector.Storage.{VectorRecord}
use vsector.Index.{Index}
use vsector.Transfer.{Root}
use vsector.Context.{visible}
use vsector.Ingest.{
  Namespace, Hosted, Service, DeleteResult, context_key, on_router, delete, first, found, fetch,
  get_one,
}
use vsector.Ingest.Contexts.{hides, Follows, get_or_create_ctx-Gotten}
use vsector.Ingest.Deletion.{IsDone, Hidden, Ended, delete-Ended}

-- A read that raises or finds nothing.
abbrev pub Missing : Result (Option VectorRecord) → Type 0
Missing (err e) = Unit
Missing (ok o) = o ≡ none

-- The ids of one list of shards are among those of another.
abbrev pub Within : Result (List Shard) → Result (List Shard) → Type 0
Within (err e) before = Unit
Within (ok later) (err e) = ⊥
Within (ok later) (ok before) =
    (shard_id : String) → Among shard_id (router_ids later) → Among shard_id (router_ids before)

module _ {Idx : Type 0} (index : Index Idx) (new_index : String → Idx)
    (disk : String → String → Root) (base_dir : String) (metadata : Dict Namespace)
    (namespace : String) where
  module _ (cache_ttl : ℕ) where
    module _ (hash : String → ℕ) (sha256 : String → String) (membership : Bool) where
      on_router-Routed :
          (k : String) (svc : Service Idx)
          → Ends (on_router (route hash sha256 cache_ttl membership namespace k)) svc (λ x.
            Routed cache_ttl namespace svc.router (x.0, x.1.router) × (x.1.shards ≡ svc.shards))
      unfolding on_router
      on_router-Routed k svc = record {
        outcome =
            ((route-Routed cache_ttl namespace hash sha256 k membership svc.router).outcome, refl);
      }

      get_one-Missing :
          (ids : List String) (k : String) (before : Router) (t : Service Idx)
          → Among k ids
          → Hidden cache_ttl namespace ids before t
          → Within
              (get_shards_cached cache_ttl namespace t.router).0
              (get_shards_cached cache_ttl namespace before).0
          → Ends
              (get_one index new_index disk base_dir metadata hash sha256 cache_ttl membership
                namespace k)
              t
              (λ x. Missing x.0)
      unfolding get_one fetch pure visible
      get_one-Missing ids k before t at_k (ss, listed, hidden) within =
          Ends-bind {Q = None} _ _ t
            (Ends-bind _ _ t (on_router-Routed k t) (λ e u h. tt)
              (λ s u (routed, same).
                Ends-bind _ _ u
                  (get_or_create_ctx-Gotten index new_index disk base_dir metadata namespace s u)
                  (λ e v h. tt)
                  (λ h v (follows, at).
                    Ends-bind-ok _ _ v v [] refl
                      (Ends-pure _ v (missing s u v h routed same follows at)))))
            (λ e u h. tt) (λ rs u none_found. Ends-pure _ u (ap first none_found))
        where
          None : Result (List VectorRecord) × Service Idx → Type 0
          None (err e, u) = Unit
          None (ok rs, u) = rs ≡ []

          in_the_list :
              (ss' : List Shard) (s : Shard)
              → (get_shards_cached cache_ttl namespace t.router).0 ≡ ok ss'
              → Among s ss'
              → Among s.id (router_ids ss)
          in_the_list ss' s listed' at_s =
              subst (λ x. Within (ok ss') x) listed
                (subst (λ x. Within x (get_shards_cached cache_ttl namespace before).0) listed'
                  within)
                s.id (Among-map (λ (x : Shard). x.id) s ss' at_s)

          missing :
              (s : Shard) (u v : Service Idx) (h : Hosted Idx)
              → Routed cache_ttl namespace t.router (ok s, u.router)
              → u.shards ≡ t.shards
              → Follows u v
              → lookup (context_key namespace s.id) v.shards ≡ some h
              → found (visible k h.ctx) [] ≡ []
          missing s u v h (ss', listed', at_s) same follows at = rw gone refl
            where
              gone : contains k h.ctx.tombstones ≡ true
              gone =
                  subst (λ o. hides k o ≡ true) at
                    (follows.hidden k (context_key namespace s.id) (
                      subst (λ d. hides k (lookup (context_key namespace s.id) d) ≡ true) (sym same)
                        (hidden k s.id at_k (in_the_list ss' s listed' at_s))))

      -- When a delete by ids returns, a read of one of the ids raises or finds nothing. The read
      -- may come at any later time, with other caches and another store of shards, as long as the
      -- shards that the router lists for the namespace then are among those that it listed when the
      -- delete began; nothing else of the service has changed in between.
      pub delete-Missing :
          (node_id : Option String) (ids : List String) (k : String) (svc : Service Idx)
          (later : Router)
          → Among k ids
          → Within
              (get_shards_cached cache_ttl namespace later).0
              (get_shards_cached cache_ttl namespace svc.router).0
          → let (r, t) =
              delete index new_index disk base_dir metadata cache_ttl node_id namespace ids svc in
            IsDone r
            → Missing
                (get_one index new_index disk base_dir metadata hash sha256 cache_ttl membership
                  namespace k
                  (record t { router = later })).0
      delete-Missing node_id ids k svc later at_k within done =
          go (delete index new_index disk base_dir metadata cache_ttl node_id namespace ids svc)
            (delete-Ended index new_index disk base_dir metadata namespace cache_ttl node_id ids
              svc).outcome
            done
        where
          go :
              (x : Result DeleteResult × Service Idx)
              → Ended cache_ttl namespace ids svc.router x
              → IsDone x.0
              → Missing
                  (get_one index new_index disk base_dir metadata hash sha256 cache_ttl membership
                    namespace k
                    (record x.1 { router = later })).0
          go (ok r, t) ended done =
              (get_one-Missing ids k svc.router (record t { router = later }) at_k ended
                within).outcome
          go (err e, t) ended done = absurd done
