-- ===== src/Transfer/Examples.antt =====
-- A shard with a table, a newer record in its log and a delete, moved from one node to another.
use Prim.Native.Char.{Char, code}
use Prim.Native.Nat.{suc, zero}
use Prim.Native.String.compare
use Prim.Native.String.{◌∷◌ as ◌at◌, compare, then}
use text.Mathlib.TextPositions.{compare_self}
use vsector.Transfer.Contents.{IsReadable}
use vsector.Base.{
  false, All, sort_by, insert_by, String, ℕ, ◌≡◌, ◌≢◌, refl, ap, ◌∙◌, List, [], ◌∷◌, arith,
  ne_of_eq_false, none,
}
use vsector.Dict.{lookup, insert, erase}
use vsector.Shard.{Shard}
use vsector.Shard.State.{ShardState}
use vsector.Storage.{
  VectorRecord, upsert, delete, replay, recover, read_all, flush_log, durable_records_by_id,
  durable_from,
}
use vsector.Migration.Checks.{World}
use vsector.Migration.Record.{ShardMigration}
use vsector.Migration.State.{MigrationState}
use vsector.Transfer.{
  Root, Disk, Provider, no_root, replace, node_base_dir, export_of, open_log, open_store,
}
use vsector.Transfer.Copying.{IsClock}
use vsector.Transfer.Exchange.{Transferred, transfer_roundtrip}
use vsector.Transfer.Provision.{CopySucceeds, copy_data-CopySucceeds}

-- Names that grow with time.
abbrev letter : Char
letter = "s"

abbrev clock : ℕ → String
clock zero = ""
clock (suc n) = letter at clock n

clock_in_order : IsClock clock
clock_in_order zero zero h = absurd (omega arith)
clock_in_order zero (suc k) h = compare.nil-cons letter (clock k)
clock_in_order (suc n) zero h = absurd (omega arith)
clock_in_order (suc n) (suc k) h =
    compare.cons-cons letter letter (clock n) (clock k)
    ∙ ap (λ o. then o (compare (clock n) (clock k))) (compare_self (code letter))
    ∙ clock_in_order n k (omega arith)

abbrev provider : Provider
provider = record { node_base_dirs = []; default_base_dir = "data" }

abbrev rec : String → ℕ → VectorRecord
rec id version = record { id = id; version = version; checksum = "c"; body = "" }

abbrev root : Root
root = record {
  hot = ("sst-1", rec "b" 1 ∷ rec "a" 1 ∷ []) ∷ [];
  log = upsert (rec "a" 2) ∷ upsert (rec "c" 1) ∷ delete "b" ∷ [];
}

abbrev disk : Disk
disk = replace "data/n1" "s" root (λ _ _. no_root)

-- A digest that tells nothing apart: the theorems ask nothing of it.
abbrev digest : List VectorRecord → List String → String
digest records ids = "digest"

abbrev shard : Shard
shard = record {
  id = "s";
  namespace = "ns";
  node_id = "n1";
  state = ShardState.active;
  vector_count = 3;
  max_vectors = 10;
  replicas = [];
  created_at = 0;
  version = 2;
}

different_roots : node_base_dir provider "n1" ≢ node_base_dir provider "n2"
unfolding node_base_dir lookup
different_roots = ne_of_eq_false "data/n1" "data/n2" refl

readable : All IsReadable (disk (node_base_dir provider "n1") "s").log
unfolding node_base_dir lookup
readable = (tt, (tt, (refl, tt)))

transfer_roundtrip_example : Transferred digest provider clock "n1" "n2" shard disk
transfer_roundtrip_example =
    transfer_roundtrip digest provider clock "n1" "n2" shard disk clock_in_order different_roots
      readable

abbrev job : ShardMigration
job = record {
  migration_id = "m";
  namespace = "ns";
  shard_id = "s";
  source_node_id = "n1";
  target_node_id = "n2";
  state = MigrationState.copying;
  source_version = 2;
  cluster_id = "c";
  created_at = 7;
  updated_at = 7;
  error = none;
  version = 2;
  source_digest = none;
  target_digest = none;
  finalized = false;
}

abbrev world : World Disk
world = record {
  etcd = record { shards = ("s", shard) ∷ []; nodes = []; migrations = ("m", job) ∷ [] };
  disk = disk;
  now = 9;
}

copy_data-CopySucceeds_example : CopySucceeds digest provider clock job shard world
copy_data-CopySucceeds_example =
    copy_data-CopySucceeds digest provider clock job shard world clock_in_order different_roots
      readable

-- The export has the newer record of the log, and the tombstone.
exports_resolved :
    (export_of digest provider shard (recover (open_log root) (open_store root)).0).deleted_ids
    ≡ "b" ∷ []
unfolding export_of recover open_store replay read_all flush_log durable_records_by_id durable_from
    lookup insert erase sort_by insert_by
exports_resolved = refl
