-- ===== src/Router/Examples.antt =====
-- Routing at a namespace with two shards.
use vsector.Base.{
  String, ℕ, ◌≡◌, ◌↔◌, refl, true, none, some, List, [], ◌∷◌, ne_of_eq_false, ◌==◌, if◌then◌else◌,
  Among,
}
use vsector.Exec.{ok}
use vsector.Shard.{Shard}
use vsector.Shard.State.{ShardState}
use vsector.Cluster.State.{NodeMembershipState}
use vsector.Etcd
use vsector.Placement.{Mode}
use vsector.Router.{
  Router, select_from, route, route_write, decide, get_shards_cached, register_shard,
}
use vsector.Router.Split.{Split, maybe_split, maybe_split-Split}
use vsector.Router.Selection.{Selected, select_from-Selected}
use vsector.Router.Caching.{register_shard-visible}
use vsector.Router.Routes.{IsOk, IsLocal, IsServed, route_write-IsLocal, route-IsServed}

abbrev weights : String → ℕ
weights s = if s == "ns:r#s1" then 9 else 5

abbrev shard_at : String → ℕ → Shard
shard_at id count = record {
  id = id;
  namespace = "ns";
  node_id = "a";
  state = ShardState.active;
  vector_count = count;
  max_vectors = 10;
  replicas = "b" ∷ [];
  created_at = 0;
  version = 2;
}

abbrev shards : List Shard
shards = shard_at "s1" 13 ∷ shard_at "s2" 4 ∷ []

abbrev router : Router
router = record {
  etcd = record {
    shards = ("s1", shard_at "s1" 13) ∷ ("s2", shard_at "s2" 4) ∷ [];
    nodes =
        (
          "a",
          record {
            node_id = "a";
            cluster_id = "c";
            state = NodeMembershipState.active;
            version = 2;
          },
        )
        ∷ [];
    migrations = [];
  };
  cache = ("ns", (3, [])) ∷ [];
  hrw_cache = ("ns", "s2" ∷ "gone" ∷ []) ∷ [];
  now = 20;
}

abbrev same_text : String → String
same_text s = s

maybe_split-Split_example :
    Split "h1" "h2"
      (λ _ _ _. ok tt)
      (shard_at "s1" 13)
      router
      (maybe_split "h1" "h2" (λ _ _ _. ok tt) (shard_at "s1" 13) router)
maybe_split-Split_example =
    maybe_split-Split "h1" "h2" (λ _ _ _. ok tt) (shard_at "s1" 13) router
      (ne_of_eq_false "h1" "h2" refl) (ne_of_eq_false "h1" "s1" refl)
      (ne_of_eq_false "h2" "s1" refl)

select_from-Selected_example :
    Selected weights same_text "ns" "r" shards router
      (select_from weights same_text "ns" "r" shards router)
select_from-Selected_example = select_from-Selected weights same_text "ns" "r" shards router

register_shard-visible_example :
    let t = (register_shard (shard_at "s3" 0) router).1 in
    ((get_shards_cached 50 "ns" t).0 ≡ ok (Etcd.list_by_namespace "ns" t.etcd))
    × Among (shard_at "s3" 0) (Etcd.list_by_namespace "ns" t.etcd)
register_shard-visible_example = register_shard-visible 50 (shard_at "s3" 0) router

route_write-IsLocal_example :
    IsOk (route_write weights same_text 5 true "ns" "r" (some "a") router).0
    ↔ IsLocal (decide weights same_text 5 true Mode.write "ns" "r" (some "a") router).0
route_write-IsLocal_example = route_write-IsLocal weights same_text 5 true "ns" "r" "a" router

route-IsServed_example :
    IsOk (route weights same_text 5 true "ns" "r" router).0
    ↔ IsServed (decide weights same_text 5 true Mode.read "ns" "r" none router).0
route-IsServed_example = route-IsServed weights same_text 5 "ns" "r" none router
