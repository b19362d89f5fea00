-- ===== src/Ingest/Deletion.antt =====
-- A delete by ids, through the router and the contexts.
use mathlib.Core.Path.{subst}
use vsector.Base.{
  String, ℕ, ◌≡◌, refl, sym, ap, true, Option, List, [], ◌∷◌, is_some, Among, inl, inr,
}
use vsector.Dict.{Dict, lookup}
use vsector.Exec.{Result, ok, err}
use vsector.Exec.Ends.{
  Ends, Ends-pure, Ends-bind, Ends-bind-lift, Ends-bind-gets, Ends-bind-modify, Ends-bind-ok,
}
use vsector.Shard.{Shard}
use vsector.Router.{ids as router_ids, Router, get_shards_cached, writable}
use vsector.Router.Lists.{Writable, writable-Writable, writable-cache}
use vsector.Index.{Index}
use vsector.Transfer.{Root}
use vsector.Context.{flush_wal}
use vsector.Replication.{ReplicationResult}
use vsector.Ingest.{
  Namespace, Service, DeleteResult, context_key, on_router, delete_ids, delete_from, touched,
  flush_touched, delete,
}
use vsector.Ingest.Contexts.{
  hides, Follows, stays, after, on_context-present, on_context-hidden, delete_ids-Follows,
  delete_ids-hides, get_or_create_ctx-Gotten,
}

-- What the loop over the shards leaves.
abbrev pub Deleted :
    {Idx : Type 0}
    → String
    → List String
    → List Shard
    → Service Idx
    → Result (List ReplicationResult) × Service Idx
    → Type 0
Deleted namespace ids ss svc (err e, t) = Unit
Deleted namespace ids ss svc (ok results, t) =
    Follows svc t
    × ((k : String) (s : Shard)
        → Among k ids
        → Among s ss
        → hides k (lookup (context_key namespace s.id) t.shards) ≡ true)

abbrev pub IsDone : Result DeleteResult → Type 0
IsDone (ok _) = Unit
IsDone (err _) = ⊥

-- After a delete with the router `r`: the list of the namespace that the router had, and the ids
-- are hidden in the context of each shard of it.
abbrev pub Hidden : {Idx : Type 0} → ℕ → String → List String → Router → Service Idx → Type 0
Hidden cache_ttl namespace ids r t =
    (ss : List Shard) × ((get_shards_cached cache_ttl namespace r).0 ≡ ok ss)
    × ((k shard_id : String)
        → Among k ids
        → Among shard_id (router_ids ss)
        → hides k (lookup (context_key namespace shard_id) t.shards) ≡ true)

abbrev pub Ended :
    {Idx : Type 0} → ℕ → String → List String → Router → Result DeleteResult × Service Idx → Type 0
Ended cache_ttl namespace ids r (err e, t) = Unit
Ended cache_ttl namespace ids r (ok _, t) = Hidden cache_ttl namespace ids r t

-- What holds of every shard of a list holds by their ids.
by_id :
    (P : String → Type 0) (ss : List Shard)
    → ((s : Shard) → Among s ss → P s.id)
    → (i : String) → Among i (router_ids ss)
    → P i
by_id P [] h i at_i = absurd at_i
by_id P (s ∷ ss) h i (inl same) = subst P (sym same) (h s (inl refl))
by_id P (s ∷ ss) h i (inr later) = by_id P ss (λ x at_x. h x (inr at_x)) i later

module _ {Idx : Type 0} (index : Index Idx) (new_index : String → Idx)
    (disk : String → String → Root) (base_dir : String) (metadata : Dict Namespace)
    (namespace : String) where
  hidden_in :
      (acks : ℕ) (ids : List String) (s : Shard) (ss : List Shard) (t u : Service Idx)
      → is_some (lookup (context_key namespace s.id) t.shards) ≡ true
      → Follows (delete_ids index new_index disk base_dir metadata namespace acks s ids t).1 u
      → ((k : String) (x : Shard)
          → Among k ids
          → Among x ss
          → hides k (lookup (context_key namespace x.id) u.shards) ≡ true)
      → (k : String) (x : Shard) → Among k ids
      → Among x (s ∷ ss)
      → hides k (lookup (context_key namespace x.id) u.shards) ≡ true
  hidden_in acks ids s ss t u there rest hidden k x at_k (inr later) = hidden k x at_k later
  hidden_in acks ids s ss t u there rest hidden k x at_k (inl same) =
      subst (λ (y : Shard). hides k (lookup (context_key namespace y.id) u.shards) ≡ true)
        (sym same)
        (rest.hidden k (context_key namespace s.id) (
          delete_ids-hides index new_index disk base_dir metadata namespace acks s ids k t at_k
            there))

  pub delete_from-Deleted :
      (acks : ℕ) (ids : List String) (ss : List Shard) (svc : Service Idx)
      → Ends
          (delete_from index new_index disk base_dir metadata namespace acks ids ss)
          svc
          (Deleted namespace ids ss svc)
  unfolding delete_from
  delete_from-Deleted acks ids [] svc = Ends-pure [] svc (stays svc, λ k s at_k at_s. absurd at_s)
  delete_from-Deleted acks ids (s ∷ ss) svc =
      Ends-bind _ _ svc
        (get_or_create_ctx-Gotten index new_index disk base_dir metadata namespace s svc)
        (λ e t _. tt)
        (λ h t (gotten, at). Ends-bind-ok _ _ t _ _ refl (
          Ends-bind _ _ _ (delete_from-Deleted acks ids ss _) (λ e u _. tt)
            (λ rs u (rest, hidden). Ends-pure _ u (
              after svc t u gotten (
                  after t _ u
                    (delete_ids-Follows index new_index disk base_dir metadata namespace acks s ids
                      t)
                    rest),
              hidden_in acks ids s ss t u (rw at refl) rest hidden,
            ))))

  pub flush_touched-Follows :
      (keys : List String) (svc : Service Idx) → Follows svc (flush_touched index keys svc)
  unfolding flush_touched flush_wal
  flush_touched-Follows [] svc = stays svc
  flush_touched-Follows (key ∷ keys) svc =
      after svc _ _
        (record {
          present = λ j. on_context-present (flush_wal index) key j svc.shards;
          hidden = λ k j. on_context-hidden (flush_wal index) key k j svc.shards (λ c h. h);
          same_router = refl;
        })
        (flush_touched-Follows keys _)

  module _ (cache_ttl : ℕ) where
    pub on_router-Writable :
        (node_id : Option String) (svc : Service Idx)
        → Ends (on_router (writable cache_ttl namespace node_id)) svc (λ x.
          Writable cache_ttl namespace svc.router (x.0, x.1.router)
          × (x.1 ≡ record svc { router = record svc.router { cache = x.1.router.cache } }))
    unfolding on_router
    on_router-Writable node_id svc = record {
      outcome = (
        writable-Writable cache_ttl namespace node_id svc.router,
        ap (λ r. record svc { router = r }) (writable-cache cache_ttl namespace node_id svc.router),
      );
    }

    pub delete-Ended :
        (node_id : Option String) (ids : List String) (svc : Service Idx)
        → Ends
            (delete index new_index disk base_dir metadata cache_ttl node_id namespace ids)
            svc
            (Ended cache_ttl namespace ids svc.router)
    unfolding delete
    delete-Ended node_id ids svc =
        Ends-bind-lift _ _ svc (λ e h. tt)
          (λ ns h.
            Ends-bind _ _ svc (on_router-Writable node_id svc) (λ e t h. tt)
              (λ ss t ((_, listed), _).
                Ends-bind _ _ t (delete_from-Deleted ns.required_acks ids ss t) (λ e u h. tt)
                  (λ results u (follows, hidden). Ends-bind-modify _ _ u (
                    Ends-bind-gets _ _ _ (
                      Ends-pure _ _ (
                        ended ss t u _ listed hidden
                          (flush_touched-Follows (touched namespace ids ss) u)))))))
      where
        ended :
            (ss : List Shard) (t u v : Service Idx)
            → (get_shards_cached cache_ttl namespace svc.router).0 ≡ ok ss
            → ((k : String) (s : Shard)
                → Among k ids
                → Among s ss
                → hides k (lookup (context_key namespace s.id) u.shards) ≡ true)
            → Follows u v
            → Hidden cache_ttl namespace ids svc.router v
        ended ss t u v listed hidden flushed = (
          ss,
          listed,
          λ k i at_k at_i.
              by_id (λ j. hides k (lookup (context_key namespace j) v.shards) ≡ true) ss
                (λ s at_s. flushed.hidden k (context_key namespace s.id) (hidden k s at_k at_s)) i
                at_i,
        )
