-- ===== src/Transfer/Resolving.antt =====
-- What a recovery finds in a root that a payload was imported into.
use mathlib.Core.Logic.{◌≢◌}
use mathlib.Core.List.{append-nil}
use vsector.Base.{
  String, ℕ, ◌≡◌, refl, sym, ap, ◌∙◌, false, some, none, List, [], ◌∷◌, ◌++◌, ◌==◌, eq_refl,
  contains, map, All, All-map, All-append, All-both, All-sort_by, Distinct, sort_by, sort_by_twice,
  sort_by-Distinct, eq_false_of_ne,
}
use vsector.Dict.{Dict, lookup, values, insert_same, erase_absent}
use vsector.Shard.{Shard}
use vsector.Storage.{
  VectorRecord, SegmentStore, Entry, durable_records_by_id, replay, recover, read_all, flush_log,
  restore, memtable_put, add_id, recovered,
}
use vsector.Storage.Tables.{IsKeyed}
use vsector.Storage.Recovery.{replay-resolved, contains-append}
use vsector.Transfer.{
  ShardExport, Root, Provider, no_root, open_store, open_log, delete_entry, imported, export_of,
}
use vsector.Transfer.Contents.{
  pairs, values-pairs, replay-IsKeyed, durable_from-IsKeyed, absent-values, values-Distinct, Ids,
  replay-Ids, IsReadable, replay-named, All-contains,
}
use vsector.Transfer.Copying.{IsClock, imported-contents, append_one}

not_among :
    (k : String) (rs : List VectorRecord)
    → All (λ (r : VectorRecord). r.id ≢ k) rs
    → lookup k (pairs rs) ≡ none
unfolding lookup
not_among k [] h = refl
not_among k (r ∷ rs) (other, h) = rw (eq_false_of_ne r.id k other) (not_among k rs h)

found_own :
    (rs : List VectorRecord)
    → Distinct VectorRecord.id rs
    → All (λ (r : VectorRecord). lookup r.id (pairs rs) ≡ some r) rs
unfolding lookup
found_own [] h = tt
found_own (r ∷ rs) (first, h) = (
  rw (eq_refl r.id) refl,
  All-map rs (λ s h. rw (eq_false_of_ne r.id s.id (λ e. h.0 (sym e))) h.1)
      (All-both _ _ rs first (found_own rs h)),
)

replay_upserts :
    (rs : List VectorRecord) (es : List Entry) (d : Dict VectorRecord)
    → All (λ (r : VectorRecord). lookup r.id d ≡ some r) rs
    → replay (map Entry.upsert rs ++ es) d [] ≡ replay es d []
unfolding replay
replay_upserts [] es d h = refl
replay_upserts (r ∷ rs) es d (found, h) =
    ap (λ e. replay (map Entry.upsert rs ++ es) e []) (insert_same r.id r d found)
    ∙ replay_upserts rs es d h

replay_deletes :
    (ids known : List String) (d : Dict VectorRecord)
    → All (λ i. lookup i d ≡ none) ids
    → All (λ i. (i == "") ≡ false) ids
    → Ids ids
    → All (λ i. contains i known ≡ false) ids
    → replay (map delete_entry ids) d known ≡ (d, known ++ ids)
unfolding replay
replay_deletes [] known d absent named h new = ap (λ l. (d, l)) (sym (append-nil known))
replay_deletes (i ∷ ids) known d (no_i, absent) (named_i, named) (first, h) (new_i, new) =
    rw named_i (
      ap (λ e. replay (map delete_entry ids) e (add_id i known)) (erase_absent i d no_i)
      ∙ ap (replay (map delete_entry ids) d) added
      ∙ replay_deletes ids (known ++ (i ∷ [])) d absent named h newer
      ∙ ap (λ l. (d, l)) (append_one known i ids))
  where
    added : add_id i known ≡ known ++ (i ∷ [])
    added = rw new_i refl

    newer : All (λ j. contains j (known ++ (i ∷ [])) ≡ false) ids
    newer =
        All-map ids
          (λ j h. contains-append j known (i ∷ []) ∙ rw (h.1, eq_false_of_ne j i h.0) refl)
          (All-both _ _ ids first new)

-- What a payload has that an export made: each id once, and no id among both the records and the
-- tombstones.
pub record IsExport (export : ShardExport) : Type 0 where
  pub own : Distinct VectorRecord.id export.records
  pub ids : Ids export.deleted_ids
  pub sorted : sort_by (λ i. i) export.deleted_ids ≡ export.deleted_ids
  pub named : All (λ i. (i == "") ≡ false) export.deleted_ids
  pub apart : All (λ i. All (λ (r : VectorRecord). r.id ≢ i) export.records) export.deleted_ids

pub durable-restore :
    (rs : List VectorRecord) (s : SegmentStore)
    → durable_records_by_id (restore rs s) ≡ durable_records_by_id s
unfolding durable_records_by_id
durable-restore [] s = refl
durable-restore (r ∷ rs) s = durable-restore rs (memtable_put r s)

pub durable_records_by_id-IsKeyed : (s : SegmentStore) → IsKeyed (durable_records_by_id s)
unfolding durable_records_by_id
durable_records_by_id-IsKeyed s = durable_from-IsKeyed s.sstables s.files [] tt

replay_import :
    (export : ShardExport)
    → IsExport export
    → let rs = sort_by VectorRecord.id export.records in
      let ids = sort_by (λ i. i) export.deleted_ids in
      replay (map Entry.upsert rs ++ map delete_entry ids) (pairs rs) [] ≡ (pairs rs, ids)
replay_import export sound =
    replay_upserts rs (map delete_entry ids) (pairs rs)
      (found_own rs (sort_by-Distinct VectorRecord.id export.records sound.own))
    ∙ replay_deletes ids [] (pairs rs)
        (All-sort_by (λ i. i) _ export.deleted_ids
          (All-map export.deleted_ids
            (λ i others. not_among i rs (All-sort_by VectorRecord.id _ export.records others))
            sound.apart))
        (All-sort_by (λ i. i) _ export.deleted_ids sound.named)
        (sort_by-Distinct (λ i. i) export.deleted_ids sound.ids) (everywhere ids)
  where
    rs : List VectorRecord
    rs = sort_by VectorRecord.id export.records

    ids : List String
    ids = sort_by (λ i. i) export.deleted_ids

    everywhere : (is : List String) → All (λ i. contains i [] ≡ false) is
    everywhere [] = tt
    everywhere (i ∷ is) = (refl, everywhere is)

module _ (sha256 : List VectorRecord → List String → String) (p : Provider) where
  pub export_of-IsExport :
      (shard : Shard) (root : Root)
      → All IsReadable root.log
      → IsExport (export_of sha256 p shard (recover (open_log root) (open_store root)).0)
  unfolding export_of recover read_all flush_log
  export_of-IsExport shard root readable = record {
    own = values-Distinct records keyed;
    ids = sort_by-Distinct (λ i. i) tombstones (replay-Ids es base [] tt);
    sorted = sort_by_twice (λ i. i) tombstones (replay-Ids es base [] tt);
    named =
        All-sort_by (λ i. i) _ tombstones
          (replay-named es base [] (All-append IsReadable root.log [] readable tt) tt);
    apart =
        All-sort_by (λ i. i) _ tombstones
          (All-contains tombstones
            (λ i h. absent-values i records keyed ((replay-resolved es base i).2 h)));
  }
    where
      base : Dict VectorRecord
      base = durable_records_by_id (open_store root)

      es : List Entry
      es = root.log ++ []

      records : Dict VectorRecord
      records = (replay es base []).0

      tombstones : List String
      tombstones = (replay es base []).1

      keyed : IsKeyed records
      keyed = replay-IsKeyed es base [] (durable_records_by_id-IsKeyed (open_store root))

  -- The root after an import is recovered to what was exported, and so are its tables alone.
  pub record Recovers (export : ShardExport) (root : Root) : Type 0 where
    pub records :
        (recover (open_log root) (open_store root)).0.records
        ≡ sort_by VectorRecord.id export.records
    pub deleted_ids :
        (recover (open_log root) (open_store root)).0.deleted_ids
        ≡ sort_by (λ i. i) export.deleted_ids
    pub durable :
        values (durable_records_by_id (recover (open_log root) (open_store root)).1.1)
        ≡ sort_by VectorRecord.id export.records

  pub imported-Recovers :
      (clock : ℕ → String) (export : ShardExport)
      → IsClock clock
      → IsExport export
      → Recovers export (imported clock export no_root)
  unfolding recover read_all flush_log
  imported-Recovers clock export in_order sound = record {
    records = ap (λ (x : Dict VectorRecord × List String). values x.0) replayed ∙ values-pairs rs;
    deleted_ids = ap (λ (x : Dict VectorRecord × List String). x.1) replayed;
    durable = ap values (durable-restore fresh (open_store root) ∙ contents.0) ∙ values-pairs rs;
  }
    where
      root : Root
      root = imported clock export no_root

      rs : List VectorRecord
      rs = sort_by VectorRecord.id export.records

      ids : List String
      ids = sort_by (λ i. i) export.deleted_ids

      fresh : List VectorRecord
      fresh =
          recovered (durable_records_by_id (open_store root))
            (replay (root.log ++ []) (durable_records_by_id (open_store root)) []).0

      contents :
          (durable_records_by_id (open_store root) ≡ pairs rs)
          × (root.log ≡ map Entry.upsert rs ++ map delete_entry ids)
      contents = imported-contents clock export in_order sound.own

      replayed :
          replay (root.log ++ []) (durable_records_by_id (open_store root)) [] ≡ (pairs rs, ids)
      replayed =
          ap (λ es. replay es (durable_records_by_id (open_store root)) [])
            (append-nil root.log ∙ contents.1)
          ∙ ap (λ d. replay (map Entry.upsert rs ++ map delete_entry ids) d []) contents.0
          ∙ replay_import export sound
