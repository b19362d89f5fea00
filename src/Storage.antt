-- ===== src/Storage.antt =====
-- The storage of one shard: `MemTable` and `SegmentStore` (vsector/storage/segment.py), the
-- write-ahead log (vsector/storage/wal.py) as the list of its entries, and `recover`
-- (vsector/storage/recovery.py). An SSTable is a file under a name; the cold tier, the threads and
-- the checksums of the log are not modelled. The log in segments is in `Segments`: it is this list
-- as long as it fits in one segment whenever it is opened again.
pub mod Recovery
pub mod Tables
pub mod Segments
mod Examples
use vsector.Base.{
  String, ℕ, ◌+◌, Bool, true, false, not, Option, none, some, List, [], ◌∷◌, ◌++◌, ◌==◌, ◌&&◌, eqb,
  leb, if◌then◌else◌, select, contains, length,
}
use vsector.Dict.{Dict, lookup, insert, erase, values}

-- What the storage reads of a `VectorRecord`; `body` is the rest of it.
pub record VectorRecord : Type 0 where
  pub id : String
  pub version : ℕ
  pub checksum : String
  pub body : String

-- `files` are the SSTables on disk, `sstables` the names that the store has loaded, in order.
pub record SegmentStore : Type 0 where
  pub memtable : Dict VectorRecord
  pub flush_threshold : ℕ
  pub files : Dict (List VectorRecord)
  pub sstables : List String

-- An entry of the log, as `_parse_payload` reads it; an entry that it skips is `unreadable`.
pub data Entry : Type 0 where
  upsert : VectorRecord → Entry
  delete : String → Entry
  unreadable : Entry

-- The log: what is written and what is still in the buffer.
pub record Wal : Type 0 where
  pub written : List Entry
  pub buffer : List Entry

abbrev pub append : Entry → Wal → Wal
append e w = record w { buffer = w.buffer ++ (e ∷ []) }

unfoldable pub flush_log : Wal → Wal
flush_log w = record { written = w.written ++ w.buffer; buffer = [] }

-- `read_all`, which flushes first
unfoldable pub read_all : Wal → List Entry × Wal
unfolding flush_log
read_all w = let u = flush_log w in (u.written, u)

-- `SegmentStore.flush`, where `name` is the name that the clock and the process give the file
unfoldable pub flush : String → SegmentStore → SegmentStore
flush name s = elim s.memtable [
  | [] ↦ s
  | (k, v) ∷ d ↦ record s {
    memtable = [];
    files = insert name (values ((k, v) ∷ d)) s.files;
    sstables = s.sstables ++ (name ∷ []);
  }
]

abbrev pub memtable_put : VectorRecord → SegmentStore → SegmentStore
memtable_put r s = record s { memtable = insert r.id r s.memtable }

-- `SegmentStore.put`
unfoldable pub put : String → VectorRecord → SegmentStore → SegmentStore
unfolding flush
put name r s =
    let t = memtable_put r s in
    if leb t.flush_threshold (length t.memtable) then flush name t else t

-- `SSTable.scan`
abbrev pub scan_found : Option (List VectorRecord) → List VectorRecord
scan_found none = []
scan_found (some rs) = rs

abbrev pub scan : String → Dict (List VectorRecord) → List VectorRecord
scan name files = scan_found (lookup name files)

abbrev pub insert_all : List VectorRecord → Dict VectorRecord → Dict VectorRecord
insert_all [] d = d
insert_all (r ∷ rs) d = insert_all rs (insert r.id r d)

-- The loop of `durable_records_by_id` over the tables.
unfoldable pub durable_from :
    List String → Dict (List VectorRecord) → Dict VectorRecord → Dict VectorRecord
durable_from [] files latest = latest
durable_from (n ∷ names) files latest = durable_from names files (insert_all (scan n files) latest)

unfoldable pub durable_records_by_id : SegmentStore → Dict VectorRecord
unfolding durable_from
durable_records_by_id s = durable_from s.sstables s.files []

-- A set of ids, in the order in which they came.
abbrev pub add_id : String → List String → List String
add_id i ids = if contains i ids then ids else ids ++ (i ∷ [])

abbrev pub discard_id : String → List String → List String
discard_id i ids = select (λ j. not (j == i)) ids

-- The loop of `recover` over the entries: the records and the tombstones.
unfoldable pub replay :
    List Entry → Dict VectorRecord → List String → Dict VectorRecord × List String
replay [] records tombstones = (records, tombstones)
replay (Entry.upsert r ∷ es) records tombstones =
    replay es (insert r.id r records) (discard_id r.id tombstones)
replay (Entry.delete i ∷ es) records tombstones = replay es (erase i records) (add_id i tombstones)
replay (Entry.unreadable ∷ es) records tombstones = replay es records tombstones

-- `(cached.version, cached.checksum) != (rec.version, rec.checksum)`, or no such record
abbrev pub is_new : Option VectorRecord → VectorRecord → Bool
is_new none r = true
is_new (some c) r = not (eqb c.version r.version && c.checksum == r.checksum)

abbrev pub restore : List VectorRecord → SegmentStore → SegmentStore
restore [] s = s
restore (r ∷ rs) s = restore rs (memtable_put r s)

pub record RecoveryResult : Type 0 where
  pub records : List VectorRecord
  pub deleted_ids : List String
  pub recovered_from_wal : ℕ
  pub wal_entries_read : ℕ

abbrev pub recovered : Dict VectorRecord → Dict VectorRecord → List VectorRecord
recovered sstable records = select (λ r. is_new (lookup r.id sstable) r) (values records)

-- `recover`; the ids of the tombstones are a set here, which the source returns sorted
unfoldable pub recover : Wal → SegmentStore → RecoveryResult × (Wal × SegmentStore)
unfolding read_all durable_records_by_id replay
recover wal s =
    let sstable = durable_records_by_id s in
    let (entries, wal') = read_all wal in
    let (records, tombstones) = replay entries sstable [] in
    let fresh = recovered sstable records in
    (
      record {
        records = values records;
        deleted_ids = tombstones;
        recovered_from_wal = length fresh;
        wal_entries_read = length entries;
      },
      (wal', restore fresh s),
    )
