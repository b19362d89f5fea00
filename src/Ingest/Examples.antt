-- ===== src/Ingest/Examples.antt =====
-- A namespace with one shard on disk: a delete, a read that follows, and an upsert.
use vsector.Base.{false, String, ℕ, Option, refl, none, some, List, [], ◌∷◌, inl}
use vsector.Dict.{Dict, lookup}
use vsector.Exec.{Result, ok, Exec, ◌>>=◌}
use vsector.Shard
use vsector.Shard.{Shard}
use vsector.Shard.State.{ShardState}
use vsector.Index.{FlatIndex, flat_index}
use vsector.Storage.{VectorRecord, Entry}
use vsector.Transfer.{Root}
use vsector.Router.{Router, get_shards_cached, writable, writable_from}
use vsector.Ingest.{
  Namespace, Service, on_router, get_or_create_ctx, delete_ids, delete_from, delete, get_one,
}
use vsector.Ingest.Upserts.{RawRecord, UpsertResult, Keeping, stored, upsert}
use vsector.Ingest.Accounting.{Outcome, upsert-Outcome}
use vsector.Ingest.Deletion.{IsDone}
use vsector.Ingest.Counts.{Accounted, delete-Accounted}
use vsector.Ingest.Reading.{Within, Missing, delete-Missing}

abbrev root : Root
root = record {
  hot = [];
  log = Entry.upsert (record { id = "r"; version = 1; checksum = "c"; body = "" }) ∷ [];
}

abbrev disk : String → String → Root
disk base shard_id = root

abbrev metadata : Dict Namespace
metadata = ("ns", record { dimension = 2; required_acks = 2 }) ∷ []

abbrev shard : Shard
shard = record {
  id = "s1";
  namespace = "ns";
  node_id = "a";
  state = ShardState.active;
  vector_count = 1;
  max_vectors = 10;
  replicas = "b" ∷ [];
  created_at = 0;
  version = 2;
}

abbrev service : Service FlatIndex
service = record {
  router = record {
    etcd = record { shards = ("s1", shard) ∷ []; nodes = []; migrations = [] };
    cache = [];
    hrw_cache = [];
    now = 20;
  };
  replicator = record {
    faults = [];
    health = λ _ _ _. none;
    shard_last_success = λ _ _. none;
    shard_last_failure = λ _ _. none;
    endpoints = [];
    now = 20;
  };
  shards = [];
  replication_stats = [];
}

abbrev new_index : String → FlatIndex
new_index namespace = []

done : IsDone (delete flat_index new_index disk "data" metadata 5 none "ns" ("r" ∷ []) service).0
unfolding delete on_router writable writable_from get_shards_cached delete_from delete_ids
    get_or_create_ctx Shard.require_owner lookup ◌>>=◌
done = tt

-- The router later, when its cache has expired and the shard has moved on.
abbrev later : Router
later = record service.router {
  etcd = record {
    shards = ("s1", record shard { version = 3; node_id = "b" }) ∷ [];
    nodes = [];
    migrations = [];
  };
  cache = ("ns", (20, shard ∷ [])) ∷ [];
  now = 30;
}

same_ids : Within (get_shards_cached 5 "ns" later).0 (get_shards_cached 5 "ns" service.router).0
unfolding get_shards_cached lookup ◌>>=◌
same_ids i h = h

delete-Missing_example :
    Missing
      (get_one flat_index new_index disk "data" metadata
        (λ _. 7)
        (λ t. t)
        5
        false
        "ns"
        "r"
        (record (delete flat_index new_index disk "data" metadata 5 none "ns"
          ("r" ∷ [])
          service).1 { router = later })).0
delete-Missing_example =
    delete-Missing flat_index new_index disk "data" metadata "ns" 5 (λ _. 7) (λ t. t) false none
      ("r" ∷ []) "r" service later (inl refl) same_ids done

delete-Accounted_example :
    Accounted 5 "ns"
      ("r" ∷ [])
      service
      (delete flat_index new_index disk "data" metadata 5 none "ns" ("r" ∷ []) service)
delete-Accounted_example =
    delete-Accounted flat_index new_index disk "data" metadata "ns" 5 none ("r" ∷ []) service

abbrev to_record : String → RawRecord ℕ → Result VectorRecord
to_record namespace raw = ok (record { id = "x"; version = 1; checksum = "d"; body = raw.rest })

abbrev upsert_here :
    String → List (RawRecord ℕ) → Option String → Exec (Keeping FlatIndex) UpsertResult
upsert_here =
    upsert flat_index new_index disk "data" metadata (λ _. 7) (λ t. t) 5 false none to_record
      (λ _. "sst-20") (λ _. ("h1", "h2")) (ok tt)

-- One record is good, and one has a vector of the wrong length.
abbrev raw_records : List (RawRecord ℕ)
raw_records =
    record { id = some "x"; vector = some (1 ∷ 2 ∷ []); rest = "" }
    ∷ record { id = some "y"; vector = some (1 ∷ []); rest = "" }
    ∷ []

abbrev keeping : Keeping FlatIndex
keeping = record { service = service; idempotency = [] }

upsert-Outcome_example :
    Outcome upsert_here raw_records
      (some "key")
      keeping
      (stored (some "key") keeping.idempotency)
      (upsert_here "ns" raw_records (some "key") keeping)
upsert-Outcome_example =
    upsert-Outcome flat_index new_index disk "data" metadata (λ _. 7) (λ t. t) 5 false none
      to_record (λ _. "sst-20") (λ _. ("h1", "h2")) (ok tt) "ns" raw_records (some "key") keeping
