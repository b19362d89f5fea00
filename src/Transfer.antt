-- ===== src/Transfer.antt =====
-- `ShardTransferProvider` (vsector/sharding/transfer.py): the data of a shard between the storage
-- roots of the nodes. A root holds the tables and the log of one shard; a directory that is not
-- there is an empty one. A record of a payload is the record that it is dumped from.
pub mod Contents
pub mod Copying
pub mod Exchange
pub mod Resolving
pub mod Provision
mod Examples
use Prim.Native.String.{◌++◌ as ◌then◌}
use vsector.Base.{
  String, ℕ, ◌+◌, Bool, false, not, Option, none, some, List, [], ◌∷◌, ◌==◌, ◌&&◌, ◌||◌,
  if◌then◌else◌, length, sort_by,
}
use vsector.Dict.{Dict, lookup, keys, values}
use vsector.Errors.{Error}
use vsector.Exec.{Done, Exec, pure, gets, modify, raise_if, ◌>>=◌, ◌>>◌}
use vsector.Shard.{Shard}
use vsector.Storage.{
  VectorRecord, SegmentStore, Entry, Wal, RecoveryResult, append, flush_log, put, flush, recover,
  durable_records_by_id,
}

pub record ShardExport : Type 0 where
  pub namespace : String
  pub shard_id : String
  pub records : List VectorRecord
  pub deleted_ids : List String
  pub digest : String

-- What is on disk for one shard of one node.
pub record Root : Type 0 where
  pub hot : Dict (List VectorRecord)
  pub log : List Entry

-- The roots by the base directory and the shard's id.
abbrev pub Disk : Type 0
Disk = String → String → Root

abbrev pub no_root : Root
no_root = record { hot = []; log = [] }

abbrev pub replace : String → String → Root → Disk → Disk
replace base shard_id root disk b s = if b == base && s == shard_id then root else disk b s

-- `SegmentStore(dir)`: the tables in the order of their names
unfoldable pub open_store : Root → SegmentStore
open_store root = record {
  memtable = [];
  flush_threshold = 10000;
  files = root.hot;
  sstables = sort_by (λ name. name) (keys root.hot);
}

-- `WAL(dir)`
abbrev pub open_log : Root → Wal
open_log root = record { written = root.log; buffer = [] }

abbrev pub closed : SegmentStore → Wal → Root
closed seg wal = record { hot = seg.files; log = wal.written }

-- The entry of a delete, as a recovery reads it: one of the empty id is skipped.
abbrev pub delete_entry : String → Entry
delete_entry i = if i == "" then Entry.unreadable else Entry.delete i

-- The first loop of `import_shard`; `clock n` names a table that is flushed at the `n`-th record.
unfoldable pub copy_records :
    (ℕ → String) → ℕ → List VectorRecord → SegmentStore → Wal → SegmentStore × Wal
unfolding put
copy_records clock n [] seg wal = (seg, wal)
copy_records clock n (r ∷ rs) seg wal =
    copy_records clock (n + 1) rs (put (clock n) r seg) (append (Entry.upsert r) wal)

-- The second loop.
unfoldable pub copy_deletes : List String → Wal → Wal
copy_deletes [] wal = wal
copy_deletes (i ∷ ids) wal = copy_deletes ids (append (delete_entry i) wal)

unfoldable pub imported : (ℕ → String) → ShardExport → Root → Root
unfolding open_store copy_records copy_deletes flush flush_log
imported clock export root =
    let rs = sort_by VectorRecord.id export.records in
    let (seg, wal) = copy_records clock 0 rs (open_store root) (open_log root) in
    closed (flush (clock (length rs)) seg)
      (flush_log (copy_deletes (sort_by (λ i. i) export.deleted_ids) wal))

pub record Provider : Type 0 where
  pub node_base_dirs : Dict String
  pub default_base_dir : String

abbrev dir_or : Option String → String → String
dir_or none path = path
dir_or (some dir) path = dir

unfoldable pub node_base_dir : Provider → String → String
node_base_dir p node_id =
    dir_or (lookup node_id p.node_base_dirs) (p.default_base_dir then ("/" then node_id))

-- `sha256` is the digest of the canonical JSON of the records and the ids.
module _ (sha256 : List VectorRecord → List String → String) (p : Provider) where
  abbrev pub compute_digest : List VectorRecord → List String → String
  compute_digest records deleted_ids =
      sha256 (sort_by VectorRecord.id records) (sort_by (λ i. i) deleted_ids)

  unfoldable pub export_of : Shard → RecoveryResult → ShardExport
  export_of shard result = record {
    namespace = shard.namespace;
    shard_id = shard.id;
    records = result.records;
    deleted_ids = sort_by (λ i. i) result.deleted_ids;
    digest = compute_digest result.records (sort_by (λ i. i) result.deleted_ids);
  }

  unfoldable pub export_shard : String → Shard → Exec Disk ShardExport
  unfolding export_of recover open_store
  export_shard node_id shard = do
    root ← gets (λ disk. disk (node_base_dir p node_id) shard.id)
    pure (export_of shard (recover (open_log root) (open_store root)).0)

  abbrev pub remove_root : String → Shard → Exec Disk Done
  remove_root node_id shard = modify (replace (node_base_dir p node_id) shard.id no_root)

  unfoldable pub finalize_source : String → Shard → Exec Disk Done
  finalize_source node_id shard = remove_root node_id shard

  unfoldable pub discard_target : String → Shard → Exec Disk Done
  discard_target node_id shard = remove_root node_id shard

  unfoldable pub import_shard : (ℕ → String) → String → Shard → ShardExport → Exec Disk Done
  unfolding imported discard_target
  import_shard clock node_id shard export = do
    discard_target node_id shard
    root ← gets (λ disk. disk (node_base_dir p node_id) shard.id)
    modify (replace (node_base_dir p node_id) shard.id (imported clock export root))

  -- `expected is not None and (actual != expected or durable != expected)`
  abbrev pub differs : Option String → String → String → Bool
  differs none actual durable = false
  differs (some expected) actual durable = not (actual == expected) || not (durable == expected)

  abbrev named : Option String → String
  named none = ""
  named (some expected) = expected

  unfoldable pub verify_shard : String → Shard → Option String → Exec Disk String
  unfolding recover open_store durable_records_by_id
  verify_shard node_id shard expected_digest = do
    root ← gets (λ disk. disk (node_base_dir p node_id) shard.id)
    let (result, (wal, seg)) = recover (open_log root) (open_store root)
    let actual = compute_digest result.records result.deleted_ids
    let durable = compute_digest (values (durable_records_by_id seg)) result.deleted_ids
    raise_if (differs expected_digest actual durable)
        (Error.verification_failed shard.namespace shard.id (named expected_digest) actual)
    pure actual
