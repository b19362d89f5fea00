-- ===== src/Ingest/Counts.antt =====
-- How a delete by ids ends: what it counts, and what it leaves where it raises.
use vsector.Base.{
  String, ℕ, ◌*◌, length, length-append, ◌≡◌, refl, sym, ap, ◌∙◌, Option, none, some, List, [], ◌∷◌,
  arith,
}
use vsector.Dict.{Dict, lookup}
use vsector.Errors.{Error}
use vsector.Exec.{Result, ok, err, found_or}
use vsector.Exec.Ends.{
  Ends, Ends-pure, Ends-bind, Ends-bind-lift, Ends-bind-gets, Ends-bind-modify, Ends-bind-ok,
  found_or-eq-ok,
}
use vsector.Shard.{Shard}
use vsector.Router.{get_shards_cached}
use vsector.Index.{Index}
use vsector.Transfer.{Root}
use vsector.Replication.{ReplicationResult}
use vsector.Ingest.{
  Namespace, Hosted, Service, DeleteResult, context_key, context_or_new, get_or_create_ctx,
  delete_ids, delete_from, touched, delete,
}
use vsector.Ingest.Deletion.{
  Deleted, on_router-Writable, flush_touched-Follows, delete_from-Deleted,
}

-- The call does not raise.
abbrev Returns : {Idx : Type 0} → Result (Hosted Idx) × Service Idx → Type 0
Returns (ok h, t) = Unit
Returns (err e, t) = ⊥

not_raised :
    {x : Error} {ns : Namespace} (o : Option Namespace) (e : Error)
    → o ≡ some ns
    → found_or o e ≡ err x
    → ⊥
not_raised o e known raised = apart (sym raised ∙ ap (λ o. found_or o e) known)
  where
    apart : {x : Error} {ns : Namespace} → err x ≡ ok ns → ⊥
    apart h = cc

-- A result for each id and each shard.
abbrev Counted :
    {Idx : Type 0}
    → List String
    → List Shard
    → Result (List ReplicationResult) × Service Idx
    → Type 0
Counted ids ss (err e, t) = ⊥
Counted ids ss (ok results, t) = length results ≡ length ids * length ss

-- A delete that returns has counted each id once for each shard of the namespace, and one that
-- raises leaves all but the router's cached lists as it was.
abbrev pub Accounted :
    {Idx : Type 0}
    → ℕ
    → String
    → List String
    → Service Idx
    → Result DeleteResult × Service Idx
    → Type 0
Accounted cache_ttl namespace ids svc (err e, t) =
    t ≡ record svc { router = record svc.router { cache = t.router.cache } }
Accounted cache_ttl namespace ids svc (ok r, t) =
    (ss : List Shard) × ((get_shards_cached cache_ttl namespace t.router).0 ≡ ok ss)
    × (r.deleted ≡ length ids * length ss)

module _ {Idx : Type 0} (index : Index Idx) (new_index : String → Idx)
    (disk : String → String → Root) (base_dir : String) (metadata : Dict Namespace)
    (namespace : String) where
  length-delete_ids :
      (acks : ℕ) (s : Shard) (ids : List String) (svc : Service Idx)
      → length (delete_ids index new_index disk base_dir metadata namespace acks s ids svc).0
        ≡ length ids
  unfolding delete_ids
  length-delete_ids acks s [] svc = refl
  length-delete_ids acks s (id ∷ ids) svc = omega (arith, length-delete_ids acks s ids _)

  get_or_create_ctx-Returns :
      (ns : Namespace) (s : Shard) (svc : Service Idx)
      → lookup namespace metadata ≡ some ns
      → Ends (get_or_create_ctx index new_index disk base_dir metadata namespace s) svc Returns
  unfolding get_or_create_ctx
  get_or_create_ctx-Returns ns s svc known =
      Ends-bind-gets _ _ svc (go (lookup (context_key namespace s.id) svc.shards))
    where
      go :
          (o : Option (Hosted Idx))
          → Ends
              (context_or_new index new_index disk base_dir metadata svc.router.now namespace s o)
              svc
              Returns
      go (some h) = Ends-pure h svc tt
      go none =
          Ends-bind-lift _ _ svc (λ e h. absurd (not_raised (lookup namespace metadata) _ known h))
            (λ ns h. Ends-bind-modify _ _ svc (Ends-pure _ _ tt))

  delete_from-Counted :
      (ns : Namespace) (acks : ℕ) (ids : List String) (ss : List Shard) (svc : Service Idx)
      → lookup namespace metadata ≡ some ns
      → Ends
          (delete_from index new_index disk base_dir metadata namespace acks ids ss)
          svc
          (Counted ids ss)
  unfolding delete_from
  delete_from-Counted ns acks ids [] svc known = Ends-pure [] svc (omega arith)
  delete_from-Counted ns acks ids (s ∷ ss) svc known =
      Ends-bind _ _ svc (get_or_create_ctx-Returns ns s svc known) (λ e t bad. absurd bad)
        (λ h t _. Ends-bind-ok _ _ t _ _ refl (
          Ends-bind _ _ _ (delete_from-Counted ns acks ids ss _ known) (λ e u bad. absurd bad)
            (λ rs u count. Ends-pure _ u (
              omega (
                arith,
                length-append
                    (delete_ids index new_index disk base_dir metadata namespace acks s ids t).0 rs,
                length-delete_ids acks s ids t,
                count,
              )))))

  both :
      (ns : Namespace) (ids : List String) (ss : List Shard) (svc : Service Idx)
      → lookup namespace metadata ≡ some ns
      → Ends
          (delete_from index new_index disk base_dir metadata namespace ns.required_acks ids ss)
          svc
          (λ x. Counted ids ss x × Deleted namespace ids ss svc x)
  both ns ids ss svc known = record {
    outcome = (
      (delete_from-Counted ns ns.required_acks ids ss svc known).outcome,
      (delete_from-Deleted index new_index disk base_dir metadata namespace ns.required_acks ids ss
          svc).outcome,
    );
  }

  module _ (cache_ttl : ℕ) where
    -- A delete by ids that returns has counted every id that it was given once for each shard that
    -- the router lists for the namespace, whether the shard had it or not. One that raises has
    -- changed nothing but the shard lists that the router has cached.
    pub delete-Accounted :
        (node_id : Option String) (ids : List String) (svc : Service Idx)
        → Accounted cache_ttl namespace ids svc
            (delete index new_index disk base_dir metadata cache_ttl node_id namespace ids svc)
    unfolding delete
    delete-Accounted node_id ids svc = ended.outcome
      where
        ended :
            Ends
              (delete index new_index disk base_dir metadata cache_ttl node_id namespace ids)
              svc
              (Accounted cache_ttl namespace ids svc)
        ended =
            Ends-bind-lift _ _ svc (λ e h. refl)
              (λ ns h.
                Ends-bind _ _ svc
                  (on_router-Writable index new_index disk base_dir metadata namespace cache_ttl
                    node_id svc)
                  (λ e t (_, same). same)
                  (λ ss t ((listed, _), _).
                    Ends-bind _ _ t (both ns ids ss t (found_or-eq-ok _ _ h))
                      (λ e u (bad, _). absurd bad)
                      (λ results u (count, (follows, _)). Ends-bind-modify _ _ u (
                        Ends-bind-gets _ _ _ (
                          Ends-pure _ _ (
                            ss,
                            ap (λ r. (get_shards_cached cache_ttl namespace r).0)
                                  ((flush_touched-Follows index new_index disk base_dir metadata
                                      namespace (touched namespace ids ss) u).same_router
                                    ∙ follows.same_router)
                                ∙ listed,
                            count,
                          ))))))
