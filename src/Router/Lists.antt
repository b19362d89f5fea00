-- ===== src/Router/Lists.antt =====
-- The list of a namespace's shards, as the calls of the router use it.
use mathlib.Core.Path.{subst}
use vsector.Base.{
  String, ℕ, ◌≡◌, refl, sym, Bool, true, false, not, Option, none, some, List, [], ◌∷◌, arith,
  Among, Bool-cases, inl, inr,
}
use vsector.Dict.{lookup, lookup-insert_self}
use vsector.Errors.{Error}
use vsector.Exec.{Result, ok, err, raise, ◌>>=◌}
use vsector.Exec.Ends.{Ends, Ends-lift, Ends-bind, Ends-bind-gets}
use vsector.Shard
use vsector.Shard.{Shard}
use vsector.Etcd
use vsector.Etcd.{Etcd}
use vsector.Placement.{is_active}
use vsector.Cluster.Membership.{validate_node}
use vsector.Router.{
  Router, get_shards_cached, select_shard, select_from, route, writable, writable_from, owned_by,
  readable_check, validate_owner,
}
use vsector.Router.Caching.{Listed, get_shards_cached-Listed}
use vsector.Router.Selection.{Selected, select_from-Selected}

-- The list of a namespace is the same when it is asked for again.
pub get_shards_cached-again :
    (cache_ttl : ℕ) (namespace : String) (r : Router)
    → (get_shards_cached cache_ttl namespace (get_shards_cached cache_ttl namespace r).1).0
      ≡ (get_shards_cached cache_ttl namespace r).0
unfolding get_shards_cached ◌>>=◌
get_shards_cached-again cache_ttl namespace r = go _ refl
  where
    go :
        (o : Option (ℕ × List Shard))
        → lookup namespace r.cache ≡ o
        → (get_shards_cached cache_ttl namespace (get_shards_cached cache_ttl namespace r).1).0
          ≡ (get_shards_cached cache_ttl namespace r).0
    go none h = ground (
      arith,
      lookup-insert_self namespace (r.now, Etcd.list_by_namespace namespace r.etcd) r.cache,
    )
    go (some (ts, shards)) h = ground (
      arith,
      lookup-insert_self namespace (r.now, Etcd.list_by_namespace namespace r.etcd) r.cache,
    )

-- A check gives back the shard that it was given.
abbrev Same : Shard → Result Shard → Type 0
Same s (ok t) = t ≡ s
Same s (err e) = Unit

readable_check-Same :
    (membership : Bool) (s : Shard) (e : Etcd) → Same s (readable_check membership s e)
unfolding readable_check validate_owner validate_node Shard.require_owner
readable_check-Same true s e = ground arith
readable_check-Same false s e = ground arith

owned_by-Same :
    (owner_node_id : Option String) (namespace : String) (s : Shard) (r : Result String)
    → Same s (owned_by owner_node_id namespace s r)
owned_by-Same none namespace s (err e) = tt
owned_by-Same (some node) namespace s (err e) = tt
owned_by-Same none namespace s (ok owner) = refl
owned_by-Same (some node) namespace s (ok owner) = ground arith

-- What was found writable is the whole list.
abbrev Whole : List Shard → Result (List Shard) → Type 0
Whole ss (ok ts) = ts ≡ ss
Whole ss (err e) = Unit

writable_from-Whole :
    (owner_node_id : Option String) (namespace : String) (ss : List Shard)
    → Whole ss (writable_from owner_node_id namespace ss)
unfolding writable_from Shard.require_owner
writable_from-Whole owner_node_id namespace [] = refl
writable_from-Whole owner_node_id namespace (s ∷ ss) = elim (Bool-cases (not (is_active s.state))) [
  | inl refused ↦ rw refused tt
  | inr accepted ↦ rw accepted (
      go _ _ (owned_by-Same owner_node_id namespace s (Shard.require_owner s))
        (writable_from-Whole owner_node_id namespace ss))
]
  where
    go :
        (o : Result Shard) (r : Result (List Shard))
        → Same s o
        → Whole ss r
        → Whole
            (s ∷ ss)
            (elim o [ ok t ↦ elim r [ ok ts ↦ ok (t ∷ ts) | err x ↦ err x ] | err x ↦ err x ])
    go (err e) r same whole = tt
    go (ok t) (err e) same whole = tt
    go (ok t) (ok ts) same whole = cc

module _ (cache_ttl : ℕ) (namespace : String) where
  abbrev pub Writable : Router → Result (List Shard) × Router → Type 0
  Writable r (err e, t) = Unit
  Writable r (ok ts, t) =
      ((get_shards_cached cache_ttl namespace t).0 ≡ ok ts)
      × ((get_shards_cached cache_ttl namespace r).0 ≡ ok ts)

  pub writable-Writable :
      (owner_node_id : Option String) (r : Router)
      → Writable r (writable cache_ttl namespace owner_node_id r)
  unfolding writable ◌>>=◌
  writable-Writable owner_node_id r =
      go (get_shards_cached cache_ttl namespace r) refl
        (get_shards_cached-again cache_ttl namespace r)
    where
      check :
          (ss : List Shard) (t : Router) (w : Result (List Shard))
          → Whole ss w
          → (get_shards_cached cache_ttl namespace t).0 ≡ ok ss
          → (get_shards_cached cache_ttl namespace r).0 ≡ ok ss
          → Writable r (w, t)
      check ss t (ok ts) same again before = rw same (again, before)
      check ss t (err e) same again before = tt

      go :
          (x : Result (List Shard) × Router)
          → get_shards_cached cache_ttl namespace r ≡ x
          → (get_shards_cached cache_ttl namespace x.1).0 ≡ x.0
          → Writable r (writable cache_ttl namespace owner_node_id r)
      go (ok ss, t) h again = rw h (
          check ss t (writable_from owner_node_id namespace ss)
            (writable_from-Whole owner_node_id namespace ss) again (rw h refl))
      go (err e, t) h again = rw h tt

  -- Only the cached lists change.
  get_shards_cached-cache :
      (r : Router)
      → let t = (get_shards_cached cache_ttl namespace r).1 in t ≡ record r { cache = t.cache }
  get_shards_cached-cache r =
      go (get_shards_cached cache_ttl namespace r) (get_shards_cached-Listed cache_ttl namespace r)
    where
      go :
          (x : Result (List Shard) × Router)
          → Listed cache_ttl namespace r x
          → x.1 ≡ record r { cache = x.1.cache }
      go (err e, t) bad = absurd bad
      go (ok ss, t) (inl (_, _, _, same)) = rw same refl
      go (ok ss, t) (inr (_, same)) = rw same refl

  pub writable-cache :
      (owner_node_id : Option String) (r : Router)
      → let t = (writable cache_ttl namespace owner_node_id r).1 in t ≡ record r { cache = t.cache }
  unfolding writable
  writable-cache owner_node_id r = kept.outcome
    where
      kept :
          Ends
            (writable cache_ttl namespace owner_node_id)
            r
            (λ x. x.1 ≡ record r { cache = x.1.cache })
      kept =
          Ends-bind {Q = λ x. x.1 ≡ record r { cache = x.1.cache }} _ _ r
            (record { outcome = get_shards_cached-cache r }) (λ e t h. h)
            (λ ss t h. Ends-lift _ t h)

  -- A record is sent to a shard of the list.
  abbrev pub Routed : Router → Result Shard × Router → Type 0
  Routed r (err e, t) = Unit
  Routed r (ok s, t) =
      (ss : List Shard) × ((get_shards_cached cache_ttl namespace r).0 ≡ ok ss) × Among s ss

  module _ (hash : String → ℕ) (sha256 : String → String) (record_id : String) where
    select_shard-Routed :
        (r : Router) → Ends (select_shard hash sha256 cache_ttl namespace record_id) r (Routed r)
    unfolding select_shard
    select_shard-Routed r =
        Ends-bind {Q = λ x. (get_shards_cached cache_ttl namespace r).0 ≡ x.0} _ _ r
          (record { outcome = refl }) (λ e t h. tt) go
      where
        from_list :
            (ss : List Shard) (t : Router) (x : Result Shard × Router)
            → (get_shards_cached cache_ttl namespace r).0 ≡ ok ss
            → Selected hash sha256 namespace record_id ss t x
            → Routed r x
        from_list ss t (ok s, u) h (at_s, _, _, _) = (ss, h, at_s)
        from_list ss t (err e, u) h selected = tt

        go :
            (ss : List Shard) (t : Router)
            → (get_shards_cached cache_ttl namespace r).0 ≡ ok ss
            → Ends
                (elim ss [
                  | [] ↦ raise (Error.key_error namespace)
                  | s ∷ rest ↦ select_from hash sha256 namespace record_id (s ∷ rest)
                ])
                t
                (Routed r)
        go [] t h = Ends-lift _ t tt
        go (s ∷ ss) t h = record {
          outcome =
              from_list (s ∷ ss) t _ h
                (select_from-Selected hash sha256 namespace record_id (s ∷ ss) t);
        }

    pub route-Routed :
        (membership : Bool) (r : Router)
        → Ends (route hash sha256 cache_ttl membership namespace record_id) r (Routed r)
    unfolding route
    route-Routed membership r =
        Ends-bind _ _ r (select_shard-Routed r) (λ e t h. tt)
          (λ s t routed. Ends-bind-gets _ _ t (
            Ends-lift _ t (
              checked s t routed (readable_check membership s t.etcd)
                (readable_check-Same membership s t.etcd))))
      where
        checked :
            (s : Shard) (t : Router)
            → Routed r (ok s, t)
            → (x : Result Shard) → Same s x
            → Routed r (x, t)
        checked s t (ss, listed, at_s) (ok y) same =
            (ss, listed, subst (λ z. Among z ss) (sym same) at_s)
        checked s t routed (err e) same = tt
