-- ===== src/Storage/Examples.antt =====
-- A small shard: one table, one record in memory, and a log with a delete.
use vsector.Base.{
  String, ℕ, ◌≡◌, refl, true, false, none, some, List, [], ◌∷◌, ◌==◌, contains, if◌then◌else◌,
}
use vsector.Dict.{lookup, insert, erase}
use vsector.Storage.{
  VectorRecord, SegmentStore, Entry, upsert, delete, unreadable, Wal, replay, flush, put, recover,
  read_all, flush_log, durable_records_by_id, durable_from,
}
use vsector.Storage.Recovery.{replay-resolved, resolved, entombed, last_word}
use vsector.Storage.Tables.{latest, put-latest}

abbrev rec : String → ℕ → VectorRecord
rec id version = record { id = id; version = version; checksum = "c"; body = "" }

abbrev store : SegmentStore
store = record {
  memtable = ("b", rec "b" 2) ∷ [];
  flush_threshold = 2;
  files = ("sst-1", rec "a" 1 ∷ rec "b" 1 ∷ []) ∷ [];
  sstables = "sst-1" ∷ [];
}

abbrev entries : List Entry
entries = upsert (rec "c" 1) ∷ delete "c" ∷ unreadable ∷ upsert (rec "a" 2) ∷ []

replay-resolved_example :
    let out = replay entries (("a", rec "a" 1) ∷ []) [] in
    (lookup "c" out.0 ≡ resolved (last_word "c" entries) (lookup "c" (("a", rec "a" 1) ∷ [])))
    × (contains "c" out.1 ≡ entombed (last_word "c" entries) false)
    × (contains "c" out.1 ≡ true → lookup "c" out.0 ≡ none)
replay-resolved_example = replay-resolved entries (("a", rec "a" 1) ∷ []) "c"

put-latest_example :
    latest "a" (put "sst-2" (rec "c" 1) store)
    ≡ (if "c" == "a" then some (rec "c" 1) else latest "a" store)
unfolding lookup
put-latest_example = put-latest "sst-2" (rec "c" 1) store "a" (refl, refl, tt) refl

-- A recovery brings the newer record of the log back into the memtable.
abbrev log : Wal
log = record { written = entries; buffer = [] }

recovers : lookup "a" (recover log store).1.1.memtable ≡ some (rec "a" 2)
unfolding recover read_all flush_log durable_records_by_id durable_from replay lookup insert erase
recovers = refl

-- Two flushes under one name: the second file takes the place of the first.
loses_table :
    (latest "x" (
        put "sst-9" (rec "y" 1) (
          flush "sst-9"
            (put "sst-9" (rec "x" 1) (record store { memtable = []; flush_threshold = 1 }))))
      ≡ none)
unfolding put flush durable_records_by_id durable_from lookup insert
loses_table = refl
