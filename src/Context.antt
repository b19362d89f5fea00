-- ===== src/Context.antt =====
-- The state of one shard in a process: `ShardContext` (vsector/ingest/service.py) over its log,
-- store and index, what the primary does to it, and what a replica does (`apply_replicated_upsert`
-- and `apply_replicated_delete` of vsector/sharding/replication.py).
pub mod Reading
pub mod Puts
pub mod Sound
pub mod Reopening
pub mod Histories
pub mod Restarts
mod Examples
use vsector.Base.{
  String, ℕ, ◌+◌, Bool, true, false, Option, none, some, List, [], ◌∷◌, ◌==◌, ◌&&◌, eqb,
  if◌then◌else◌, contains, reverse, first_some,
}
use vsector.Dict.{Dict, lookup, erase}
use vsector.Index.{Index, IndexState, IndexLifecycle, notify_write, notify_delete, mark_ready}
use vsector.Storage.{
  VectorRecord, SegmentStore, Entry, Wal, append, flush_log, put, recover, scan, add_id, discard_id,
}
use vsector.Transfer.{delete_entry}

abbrev pub first_by_id : String → List VectorRecord → Option VectorRecord
first_by_id k [] = none
first_by_id k (r ∷ rs) = if r.id == k then some r else first_by_id k rs

-- The loop of `SegmentStore.get` over the tables, from the newest.
unfoldable pub get_from : String → List String → Dict (List VectorRecord) → Option VectorRecord
get_from k [] files = none
get_from k (n ∷ names) files = first_some (first_by_id k (scan n files)) (get_from k names files)

-- `SegmentStore.get`
unfoldable pub get : String → SegmentStore → Option VectorRecord
unfolding get_from
get k s = first_some (lookup k s.memtable) (get_from k (reverse s.sstables) s.files)

abbrev pub memtable_delete : String → SegmentStore → SegmentStore
memtable_delete k s = record s { memtable = erase k s.memtable }

pub record ShardContext (Idx : Type 0) : Type 0 where
  pub wal : Wal
  pub segments : SegmentStore
  pub index : Idx
  pub lifecycle : IndexLifecycle
  pub tombstones : List String
  pub vector_count : ℕ

-- The test of `apply_replicated_upsert` for a record that is there already.
abbrev pub is_applied : Option VectorRecord → VectorRecord → Bool
is_applied none r = false
is_applied (some existing) r = existing.checksum == r.checksum && eqb existing.version r.version

module _ {Idx : Type 0} (index : Index Idx) where
  -- What `upsert` of the ingest service does to the primary, up to the replication; the log is
  -- flushed at the end of the request. `name` is the name that a flush of the memtable would take.
  unfoldable pub local_upsert : String → VectorRecord → ShardContext Idx → ShardContext Idx
  unfolding put
  local_upsert name r c = record {
    wal = append (Entry.upsert r) c.wal;
    segments = put name r c.segments;
    index = index.add r.id r c.index;
    lifecycle = notify_write c.lifecycle;
    tombstones = discard_id r.id c.tombstones;
    vector_count = c.vector_count + 1;
  }

  -- What `delete` does for one id; the memtable is left alone when the store has no such record.
  unfoldable pub local_delete : String → ShardContext Idx → ShardContext Idx
  unfolding get
  local_delete k c = record {
    wal = append (delete_entry k) c.wal;
    segments = elim (get k c.segments) [
      | none ↦ c.segments
      | some _ ↦ memtable_delete k c.segments
    ];
    index = index.delete k c.index;
    lifecycle = notify_delete c.lifecycle;
    tombstones = add_id k c.tombstones;
    vector_count = c.vector_count;
  }

  unfoldable pub flush_wal : ShardContext Idx → ShardContext Idx
  unfolding flush_log
  flush_wal c = record c { wal = flush_log c.wal }

  unfoldable pub apply_replicated_upsert :
      String → VectorRecord → ShardContext Idx → ShardContext Idx
  unfolding get local_upsert flush_wal
  apply_replicated_upsert name r c =
      if is_applied (get r.id c.segments) r then c else flush_wal (local_upsert name r c)

  unfoldable pub apply_replicated_delete : String → ShardContext Idx → ShardContext Idx
  unfolding flush_wal
  apply_replicated_delete k c = flush_wal (record {
    wal = append (delete_entry k) c.wal;
    segments = memtable_delete k c.segments;
    index = index.delete k c.index;
    lifecycle = notify_delete c.lifecycle;
    tombstones = add_id k c.tombstones;
    vector_count = c.vector_count;
  })

  -- The loop of `ShardContext.__init__` over the recovered records.
  unfoldable pub add_records : List VectorRecord → ShardContext Idx → ShardContext Idx
  add_records [] c = c
  add_records (r ∷ rs) c = add_records rs (record c {
    index = index.add r.id r c.index;
    lifecycle = notify_write c.lifecycle;
    vector_count = c.vector_count + 1;
  })

  -- `ShardContext(..)` over a log and a store that are just opened, and a new index
  unfoldable pub open_context : ℕ → Idx → Wal → SegmentStore → ShardContext Idx
  unfolding recover add_records
  open_context now new_index wal segments =
      let (result, (wal', segments')) = recover wal segments in
      let c = add_records result.records (record {
        wal = wal';
        segments = segments';
        index = new_index;
        lifecycle = record {
          state = IndexState.building;
          delete_count = 0;
          total_count = 0;
          last_compaction = now;
        };
        tombstones = result.deleted_ids;
        vector_count = 0;
      }) in
      record c { lifecycle = mark_ready c.lifecycle }

-- What a read finds for an id: `contains` of a replica endpoint, and `fetch`.
unfoldable pub visible : {Idx : Type 0} → String → ShardContext Idx → Option VectorRecord
unfolding get
visible k c = if contains k c.tombstones then none else get k c.segments
