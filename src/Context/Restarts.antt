-- ===== src/Context/Restarts.antt =====
-- Histories of a shard's state with restarts, and what a restart preserves.
use mathlib.Core.Path.{subst}
use vsector.Base.{
  String, ℕ, ◌≡◌, refl, sym, ap, ◌∙◌, true, false, none, some, [], ◌++◌, ◌==◌, contains, sort_by,
  first_some,
}
use vsector.Dict.{lookup, keys}
use vsector.Index.{Index}
use vsector.Storage.{VectorRecord, SegmentStore, Wal, durable_records_by_id, durable_from}
use vsector.Storage.Recovery.{Verdict, silent, gone, there, last_word}
use vsector.Storage.Tables.{latest}
use vsector.Transfer.{Root, open_store, closed}
use vsector.Context.{
  ShardContext, visible, local_upsert, local_delete, flush_wal, apply_replicated_upsert,
  apply_replicated_delete,
}
use vsector.Context.Reading.{IsDistinctTables}
use vsector.Context.Sound.{
  Alike, Said, IsSound, entries, visible-latest, local_upsert-IsSound, flush_wal-IsSound,
}
use vsector.Context.Reopening.{opened, opened-IsSound, opened_durable, opened_word}
use vsector.Context.Histories.{
  Alike-refl, Alike-join, local_delete-IsSound, apply_replicated_delete-hides,
  apply_replicated_upsert-Applied,
}

module _ {Idx : Type 0} {index : Index Idx} (k : String) (c : ShardContext Idx)
    (sound : IsSound index c) where
  shown : contains k c.tombstones ≡ false → visible k c ≡ latest k c.segments
  shown alive = visible-latest k c sound.tables ∙ rw alive refl

  hidden : contains k c.tombstones ≡ true → visible k c ≡ none
  hidden dead = visible-latest k c sound.tables ∙ rw dead refl

-- The tables that are loaded again are the ones that were loaded.
reopened_durable :
    (k : String) (s : SegmentStore) (wal : Wal)
    → sort_by (λ name. name) (keys s.files) ≡ s.sstables
    → lookup k (durable_records_by_id (open_store (closed s wal)))
      ≡ lookup k (durable_records_by_id s)
unfolding open_store durable_records_by_id
reopened_durable k s wal ordered = ap (λ names. lookup k (durable_from names s.files [])) ordered

module _ {Idx : Type 0} (index : Index Idx) (new_index : Idx) where
  -- A shard that is opened on some disk, worked on, and at times opened again on what is on disk,
  -- without what was in the buffer of its log. The tables that it is first opened on have distinct
  -- ids, the name of a table that is flushed is new, and a deleted id is not empty. The log is one
  -- list of entries: a log in segments reads back in order only if it fits in one segment whenever
  -- it is opened again.
  pub data History : ShardContext Idx → Type 0 where
    opens :
        (now : ℕ) (root : Root)
        → IsDistinctTables root.hot
        → History (opened index now new_index root)
    upserts :
        {c : ShardContext Idx} (name : String) (r : VectorRecord)
        → contains name c.segments.sstables ≡ false
        → History c
        → History (local_upsert index name r c)
    deletes :
        {c : ShardContext Idx} (k : String)
        → (k == "") ≡ false
        → History c
        → History (local_delete index k c)
    flushes : {c : ShardContext Idx} → History c → History (flush_wal index c)
    replica_upserts :
        {c : ShardContext Idx} (name : String) (r : VectorRecord)
        → contains name c.segments.sstables ≡ false
        → History c
        → History (apply_replicated_upsert index name r c)
    replica_deletes :
        {c : ShardContext Idx} (k : String)
        → (k == "") ≡ false
        → History c
        → History (apply_replicated_delete index k c)
    restarts :
        {c : ShardContext Idx} (now : ℕ)
        → History c
        → History (opened index now new_index (closed c.segments c.wal))

  module _ (is_empty : (k : String) → index.has k new_index ≡ false) where
    -- In every `History` the state is sound: the index has exactly the ids that a read finds, an id
    -- whose last entry in the log is a delete has a tombstone, one whose last entry is an upsert
    -- has a record with its version and checksum, and the memtable has only ids that are in the
    -- log. In a history each table of the first opening has distinct ids, every table that an
    -- upsert may flush has a new name, no deleted id is empty, and the log reads back in the order
    -- in which it was written, as a log does that fits in one segment. A new index has no ids.
    pub History-IsSound : {c : ShardContext Idx} → History c → IsSound index c
    History-IsSound (opens now root tables) =
        opened-IsSound index now new_index root is_empty tables
    History-IsSound (upserts {c} name r fresh h) =
        (local_upsert-IsSound index name r c fresh (History-IsSound h)).1
    History-IsSound (deletes {c} k named h) =
        (local_delete-IsSound index k c named (History-IsSound h)).1
    History-IsSound (flushes {c} h) = flush_wal-IsSound index c (History-IsSound h)
    History-IsSound (replica_upserts {c} name r fresh h) =
        (apply_replicated_upsert-Applied index name r c fresh (History-IsSound h)).1
    History-IsSound (replica_deletes {c} k named h) =
        (apply_replicated_delete-hides index k c named (History-IsSound h)).2
    History-IsSound (restarts {c} now h) =
        opened-IsSound index now new_index (closed c.segments c.wal) is_empty
          (History-IsSound h).tables

    -- A restart preserves what a read finds: for each id there is a record after it exactly when
    -- there was one before, with the same version and checksum. This is said of a state with a
    -- `History`: at its first opening each table had distinct ids, every table that an upsert may
    -- have flushed had a new name, no deleted id was empty, and the log reads back in the order in
    -- which it was written, as a log does that fits in one segment. The log is flushed, the names
    -- of the tables are in the order in which they were flushed, and a new index has no ids.
    pub restart-Alike :
        {c : ShardContext Idx} (now : ℕ) (k : String)
        → History c
        → c.wal.buffer ≡ []
        → sort_by (λ name. name) (keys c.segments.files) ≡ c.segments.sstables
        → Alike (visible k (opened index now new_index (closed c.segments c.wal))) (visible k c)
    restart-Alike {c = c} now k h flushed ordered = go (last_word k (entries c)) after before
      where
        root : Root
        root = closed c.segments c.wal

        d : ShardContext Idx
        d = opened index now new_index root

        sound : IsSound index c
        sound = History-IsSound h

        sound_after : IsSound index d
        sound_after = opened-IsSound index now new_index root is_empty sound.tables

        before : Said k (last_word k (entries c)) c
        before = sound.said k

        after : Said k (last_word k (entries c)) d
        after =
            subst (λ v. Said k v d)
              (opened_word index now new_index root k
                ∙ ap (λ b. last_word k (c.wal.written ++ b)) (sym flushed))
              (sound_after.said k)

        same_durable :
            lookup k (durable_records_by_id d.segments)
            ≡ lookup k (durable_records_by_id c.segments)
        same_durable =
            opened_durable index now new_index root k ∙ reopened_durable k c.segments c.wal ordered

        go : (v : Verdict) → Said k v d → Said k v c → Alike (visible k d) (visible k c)
        go silent (alive, absent) (alive', absent') =
            subst (λ o. Alike o (visible k c))
              (shown k c sound alive'
                ∙ ap (λ o. first_some o (lookup k (durable_records_by_id c.segments))) absent'
                ∙ sym same_durable
                ∙ ap (λ o. first_some o (lookup k (durable_records_by_id d.segments))) (sym absent)
                ∙ sym (shown k d sound_after alive))
              (Alike-refl (visible k c))
        go gone dead dead' =
            subst (λ o. Alike o (visible k c)) (sym (hidden k d sound_after dead))
              (subst (Alike none) (sym (hidden k c sound dead')) tt)
        go (there r) (alive, alike) (alive', alike') =
            Alike-join (visible k d) (visible k c) r
              (subst (λ o. Alike o (some r)) (sym (shown k d sound_after alive)) alike)
              (subst (λ o. Alike o (some r)) (sym (shown k c sound alive')) alike')
