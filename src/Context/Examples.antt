-- ===== src/Context/Examples.antt =====
-- A shard with one table and a log, and what the source's tests of equality miss.
use vsector.Base.{
  String, ℕ, ◌≡◌, refl, false, none, some, [], ◌∷◌, sort_by, insert_by, contains, ◌==◌, Bool-cases,
  inl, inr, if◌then◌else◌,
}
use vsector.Dict.{lookup, insert, erase, keys}
use vsector.Index.{flat_index, FlatIndex}
use vsector.Storage.{
  VectorRecord, upsert, replay, recover, read_all, flush_log, durable_records_by_id, durable_from,
  put, flush,
}
use vsector.Transfer.{Root, open_store, closed}
use vsector.Context.{
  ShardContext, get, get_from, visible, local_upsert, flush_wal, apply_replicated_upsert,
  apply_replicated_delete, add_records, open_context,
}
use vsector.Context.Reading.{IsDistinctTables}
use vsector.Context.Sound.{IsSound, Alike}
use vsector.Context.Reopening.{opened}
use vsector.Context.Histories.{
  Applied, apply_replicated_delete-hides, apply_replicated_upsert-Applied,
}
use vsector.Context.Restarts.{History, opens, upserts, flushes, History-IsSound, restart-Alike}

abbrev rec : String → ℕ → String → VectorRecord
rec id version body = record { id = id; version = version; checksum = "c"; body = body }

abbrev root : Root
root = record {
  hot = ("sst-1", rec "a" 1 "old" ∷ []) ∷ [];
  log = upsert (rec "a" 1 "old") ∷ upsert (rec "b" 1 "") ∷ [];
}

abbrev no_ids : FlatIndex
no_ids = []

abbrev start : ShardContext FlatIndex
start = opened flat_index 0 no_ids root

one_table : IsDistinctTables root.hot
unfolding lookup
one_table n = elim (Bool-cases ("sst-1" == n)) [
  | inl same ↦ rw same (tt, tt)
  | inr other ↦ rw other tt
]

started : History flat_index no_ids start
started = opens 0 root one_table

History-IsSound_example : IsSound flat_index (flush_wal flat_index start)
History-IsSound_example = History-IsSound flat_index no_ids (λ k. refl) (flushes started)

new_name : contains "sst-2" start.segments.sstables ≡ false
unfolding opened open_context recover add_records open_store sort_by insert_by read_all flush_log
    replay durable_records_by_id durable_from lookup insert
new_name = refl

apply_replicated_upsert-Applied_example :
    let d = apply_replicated_upsert flat_index "sst-2" (rec "a" 2 "new") start in
    Applied (rec "a" 2 "new") start d × IsSound flat_index d
apply_replicated_upsert-Applied_example =
    apply_replicated_upsert-Applied flat_index "sst-2" (rec "a" 2 "new") start new_name
      (History-IsSound flat_index no_ids (λ k. refl) started)

apply_replicated_delete-hides_example :
    let d = apply_replicated_delete flat_index "a" start in
    ((j : String) → visible j d ≡ (if "a" == j then none else visible j start))
    × (d.wal.buffer ≡ [])
    × IsSound flat_index d
apply_replicated_delete-hides_example =
    apply_replicated_delete-hides flat_index "a" start refl
      (History-IsSound flat_index no_ids (λ k. refl) started)

-- A metadata-only update leaves version and checksum as they are.
abbrev updated : ShardContext FlatIndex
updated = flush_wal flat_index (local_upsert flat_index "sst-2" (rec "a" 1 "new") start)

updated_flushed : updated.wal.buffer ≡ []
unfolding flush_wal flush_log local_upsert
updated_flushed = refl

updated_in_order : sort_by (λ name. name) (keys updated.segments.files) ≡ updated.segments.sstables
unfolding flush_wal local_upsert put flush opened open_context recover add_records open_store
    sort_by insert_by read_all flush_log replay durable_records_by_id durable_from lookup insert
updated_in_order = refl

restart-Alike_example :
    Alike
      (visible "a" (opened flat_index 9 no_ids (closed updated.segments updated.wal)))
      (visible "a" updated)
restart-Alike_example =
    restart-Alike flat_index no_ids (λ k. refl) 9 "a"
      (flushes (upserts "sst-2" (rec "a" 1 "new") new_name started)) updated_flushed
      updated_in_order

-- The primary reads the new metadata until it restarts, and the old ones from then on.
reads_new : visible "a" updated ≡ some (rec "a" 1 "new")
unfolding flush_wal local_upsert put flush opened open_context recover add_records open_store
    sort_by insert_by read_all flush_log replay durable_records_by_id durable_from lookup insert
    visible get get_from
reads_new = refl

restarts_to_old :
    visible "a" (opened flat_index 9 no_ids (closed updated.segments updated.wal))
    ≡ some (rec "a" 1 "old")
unfolding flush_wal local_upsert put flush opened open_context recover add_records open_store
    sort_by insert_by read_all flush_log replay durable_records_by_id durable_from lookup insert
    visible get get_from
restarts_to_old = refl

-- A replica acknowledges such an update and keeps the old metadata.
replica_keeps_old :
    visible "a" (apply_replicated_upsert flat_index "sst-2" (rec "a" 1 "new") start)
    ≡ some (rec "a" 1 "old")
unfolding flush_wal local_upsert put flush opened open_context recover add_records open_store
    sort_by insert_by read_all flush_log replay durable_records_by_id durable_from lookup insert
    visible get get_from apply_replicated_upsert
replica_keeps_old = refl

-- A replica acknowledges the upsert of a record that it has deleted and keeps it hidden, since a
-- table still has it.
replica_keeps_hidden :
    visible "a" (
      apply_replicated_upsert flat_index "sst-2"
        (rec "a" 1 "old")
        (apply_replicated_delete flat_index "a" start))
    ≡ none
unfolding flush_wal local_upsert put flush opened open_context recover add_records open_store
    sort_by insert_by read_all flush_log replay durable_records_by_id durable_from lookup insert
    erase visible get get_from apply_replicated_upsert apply_replicated_delete
replica_keeps_hidden = refl
