-- ===== src/Router/Split.antt =====
-- The split of a shard (`ShardRouter.maybe_split` of vsector/sharding/router.py).
use vsector.Base.{
  String, ℕ, ◌+◌, ◌-◌, ◌/◌, ◌≤◌, ◌<◌, ◌≡◌, ◌≢◌, refl, Bool, true, false, Option, none, some, [],
  arith, eq_iff,
}
use Prim.Native.String.{◌++◌ as ◌+++◌}
use vsector.Dict.{insert, lookup-insert, lookup-insert_self, lookup-erase, lookup-erase_self}
use vsector.Exec.{Done, Result, ok, err, Exec, pure, lift, gets, modify, ◌>>=◌, ◌>>◌}
use vsector.Shard
use vsector.Shard.{Shard}
use vsector.Shard.State.{ShardState}
use vsector.Etcd
use vsector.Etcd.{Etcd}
use vsector.Router.{Router, invalidate}

-- The two halves of `maybe_split`, with new ids and the time of their creation.
abbrev pub half : String → String → ℕ → ℕ → Shard → Shard
half fresh suffix now count s = record {
  id = fresh;
  namespace = s.namespace;
  node_id = s.node_id +++ suffix;
  state = ShardState.active;
  vector_count = count;
  max_vectors = s.max_vectors;
  replicas = [];
  created_at = now;
  version = 1;
}

abbrev pub halves : String → String → ℕ → Shard → Shard × Shard
halves fresh_a fresh_b now s = (
  half fresh_a "-a" now (s.vector_count / 2) s,
  half fresh_b "-b" now (s.vector_count - s.vector_count / 2) s,
)

-- `maybe_split`, where `on_split` is a callback that may raise
unfoldable pub maybe_split :
    String
    → String
    → (Shard → Shard → Shard → Result Done)
    → Shard
    → Exec Router (Option (Shard × Shard))
unfolding Shard.should_split invalidate
maybe_split fresh_a fresh_b on_split s = do
  r ← gets (λ r. r)
  let (a, b) = halves fresh_a fresh_b r.now s
  elim (Shard.should_split s) [
    | false ↦ pure none
    | true ↦ do
      lift (on_split s a b)
      modify (λ r. record r { etcd = Etcd.delete s.id (Etcd.put b (Etcd.put a r.etcd)) })
      invalidate s.namespace
      pure (some (a, b))
  ]

shares : (n : ℕ) → n / 2 + (n - n / 2) ≡ n
shares n = omega arith

big_lem : (s : Shard) → Shard.should_split s ≡ true → s.max_vectors < s.vector_count
unfolding Shard.should_split
big_lem s h = ground arith

whole_lem : (s : Shard) → Shard.should_split s ≡ false → s.vector_count ≤ s.max_vectors
unfolding Shard.should_split
whole_lem s h = ground arith

-- The store after a split.
abbrev replaced : String → Shard → Shard → Etcd → Etcd
replaced old a b e = Etcd.delete old (Etcd.put b (Etcd.put a e))

module _ (old : String) (a b : Shard) (e : Etcd) where
  found_a : a.id ≢ b.id → a.id ≢ old → Etcd.get a.id (replaced old a b e) ≡ some a
  found_a ab new = ground (
    arith,
    lookup-erase old a.id (insert b.id b (insert a.id a e.shards)),
    lookup-insert b.id a.id b (insert a.id a e.shards),
    lookup-insert_self a.id a e.shards,
    eq_iff old a.id,
    eq_iff b.id a.id,
  )

  found_b : b.id ≢ old → Etcd.get b.id (replaced old a b e) ≡ some b
  found_b new = ground (
    arith,
    lookup-erase old b.id (insert b.id b (insert a.id a e.shards)),
    lookup-insert_self b.id b (insert a.id a e.shards),
    eq_iff old b.id,
  )

  others :
      (k : String) → k ≢ old → k ≢ a.id → k ≢ b.id → Etcd.get k (replaced old a b e) ≡ Etcd.get k e
  others k not_old not_a not_b = ground (
    arith,
    lookup-erase old k (insert b.id b (insert a.id a e.shards)),
    lookup-insert b.id k b (insert a.id a e.shards),
    lookup-insert a.id k a e.shards,
    eq_iff old k,
    eq_iff b.id k,
    eq_iff a.id k,
  )

module _ (fresh_a fresh_b : String) (on_split : Shard → Shard → Shard → Result Done)
    (s : Shard) where
  -- What a split has done, by how it ended.
  abbrev pub Split : Router → Result (Option (Shard × Shard)) × Router → Type 0
  Split r (ok none, t) = (s.vector_count ≤ s.max_vectors) × (t ≡ r)
  Split r (ok (some (a, b)), t) =
      (s.max_vectors < s.vector_count)
      × (a.vector_count + b.vector_count ≡ s.vector_count)
      × (Etcd.get fresh_a t.etcd ≡ some a)
      × (Etcd.get fresh_b t.etcd ≡ some b)
      × (Etcd.get s.id t.etcd ≡ none)
      × ((k : String)
          → k ≢ s.id
          → k ≢ fresh_a
          → k ≢ fresh_b
          → Etcd.get k t.etcd ≡ Etcd.get k r.etcd)
  Split r (err x, t) = (s.max_vectors < s.vector_count) × (t ≡ r)

  -- Once the new ids are new and differ, a shard that has more vectors than it may is replaced in
  -- the store by two that share its vectors out, and no other shard changes; any other shard, and
  -- one for which the callback raises, is left as it is.
  pub maybe_split-Split :
      (r : Router)
      → fresh_a ≢ fresh_b
      → fresh_a ≢ s.id
      → fresh_b ≢ s.id
      → Split r (maybe_split fresh_a fresh_b on_split s r)
  unfolding maybe_split invalidate ◌>>=◌
  maybe_split-Split r ab a_new b_new = go _ refl _ refl
    where
      a : Shard
      a = (halves fresh_a fresh_b r.now s).0

      b : Shard
      b = (halves fresh_a fresh_b r.now s).1

      go :
          (c : Bool)
          → Shard.should_split s ≡ c
          → (o : Result Done) → on_split s a b ≡ o
          → Split r (maybe_split fresh_a fresh_b on_split s r)
      go false whole o at_o = rw whole (whole_lem s whole, refl)
      go true too_big (err x) at_o = rw (too_big, at_o) (big_lem s too_big, refl)
      go true too_big (ok _) at_o =
          rw (too_big, at_o)
            (
              big_lem s too_big,
              shares s.vector_count,
              found_a s.id a b r.etcd ab a_new,
              found_b s.id a b r.etcd b_new,
              lookup-erase_self s.id _,
              others s.id a b r.etcd,
            )
