-- ===== src/Router/Caching.antt =====
-- The cached list of a namespace's shards, and what makes it new again.
use vsector.Base.{
  String, ℕ, ◌+◌, ◌<◌, ◌≡◌, refl, Option, none, some, List, [], ◌∷◌, ◌==◌, arith, eq_refl, ◌⊎◌, inl,
  Among, Among-select,
}
use vsector.Dict.{Dict, lookup, insert, values, lookup-erase_self}
use vsector.Exec.{Result, ok, err, ◌>>=◌}
use vsector.Shard.{Shard}
use vsector.Etcd
use vsector.Router.{Router, get_shards_cached, invalidate, register_shard}

Among-values-insert : (k : String) (s : Shard) (d : Dict Shard) → Among s (values (insert k s d))
unfolding insert
Among-values-insert k s [] = inl refl
Among-values-insert k s ((j, x) ∷ d) = ground (arith, Among-values-insert k s d)

module _ (cache_ttl : ℕ) (namespace : String) where
  -- The list that a call gets is the cached one, if that was read less than `cache_ttl` ago, and
  -- else what the store has now, which the cache then holds with the time of the reading.
  abbrev pub Listed : Router → Result (List Shard) × Router → Type 0
  Listed r (err e, t) = ⊥
  Listed r (ok shards, t) =
      ((ts : ℕ) × (lookup namespace r.cache ≡ some (ts, shards))
        × (r.now < ts + cache_ttl)
        × (t ≡ r))
      ⊎ ((shards ≡ Etcd.list_by_namespace namespace r.etcd)
          × (t ≡ record r { cache = insert namespace (r.now, shards) r.cache }))

  read_anew :
      (r : Router)
      → lookup namespace r.cache ≡ none
      → (get_shards_cached cache_ttl namespace r).0 ≡ ok (Etcd.list_by_namespace namespace r.etcd)
  unfolding get_shards_cached ◌>>=◌
  read_anew r h = ground arith

  listed :
      (r : Router) (o : Option (ℕ × List Shard))
      → lookup namespace r.cache ≡ o
      → Listed r (get_shards_cached cache_ttl namespace r)
  unfolding get_shards_cached ◌>>=◌
  listed r none h = ground arith
  listed r (some (ts, shards)) h = ground arith

  -- The list of a namespace is the cached one, if that was read less than `cache_ttl` ago, and else
  -- what the store has now, which the cache then holds with the time of the reading; the call does
  -- not raise.
  pub get_shards_cached-Listed : (r : Router) → Listed r (get_shards_cached cache_ttl namespace r)
  get_shards_cached-Listed r = listed r _ refl

-- A shard that was registered is in the next list of its namespace, which is the store's, however
-- fresh the cached list was.
pub register_shard-visible :
    (cache_ttl : ℕ) (s : Shard) (r : Router)
    → let t = (register_shard s r).1 in
      ((get_shards_cached cache_ttl s.namespace t).0
        ≡ ok (Etcd.list_by_namespace s.namespace t.etcd))
      × Among s (Etcd.list_by_namespace s.namespace t.etcd)
unfolding register_shard invalidate ◌>>=◌
register_shard-visible cache_ttl s r = (
  read_anew cache_ttl s.namespace _ (lookup-erase_self s.namespace r.cache),
  (Among-select (λ x. x.namespace == s.namespace) s _).1
      (Among-values-insert s.id s r.etcd.shards, eq_refl s.namespace),
)
