-- ===== src/Context/Reopening.antt =====
-- A shard that is opened on what its last process left on disk.
use mathlib.Core.Path.{subst}
use mathlib.Core.List.{append-nil}
use vsector.Base.{
  String, ℕ, ◌≡◌, refl, sym, ap, ◌∙◌, Bool, true, false, Option, none, some, List, [], ◌∷◌, ◌++◌,
  ◌==◌, eqb, arith, eq_iff, eq_refl, if◌then◌else◌, contains, is_some, Bool-cases, String-cases,
  inl, inr, ◌⊎◌, first_some, first_some-none, select, All-select, Distinct,
}
use vsector.Dict.{Dict, lookup, values}
use vsector.Index.{Index}
use vsector.Storage.{
  VectorRecord, SegmentStore, Entry, Wal, durable_records_by_id, replay, recovered, restore, is_new,
  insert_all, recover, memtable_put, read_all, flush_log,
}
use vsector.Storage.Tables.{latest, IsKeyed}
use vsector.Storage.Recovery.{
  Verdict, silent, gone, there, last_word, resolved, entombed, replay-resolved,
}
use vsector.Transfer.{Root, open_store, open_log}
use vsector.Transfer.Contents.{insert_all-IsKeyed, pairs-values, replay-IsKeyed, values-Distinct}
use vsector.Transfer.Resolving.{durable-restore, durable_records_by_id-IsKeyed}
use vsector.Context.{ShardContext, first_by_id, visible, add_records, open_context}
use vsector.Context.Reading.{IsDistinctTables, lookup-insert_all-Distinct, first_by_id-lookup}
use vsector.Context.Sound.{Alike, Said, IsSound, entries, visible-latest}

restored :
    (rs : List VectorRecord) (s : SegmentStore) → (restore rs s).memtable ≡ insert_all rs s.memtable
restored [] s = refl
restored (r ∷ rs) s = restored rs (memtable_put r s)

restored_tables : (rs : List VectorRecord) (s : SegmentStore) → (restore rs s).files ≡ s.files
restored_tables [] s = refl
restored_tables (r ∷ rs) s = restored_tables rs (memtable_put r s)

select-Distinct :
    (p : VectorRecord → Bool) (rs : List VectorRecord)
    → Distinct VectorRecord.id rs
    → Distinct VectorRecord.id (select p rs)
select-Distinct p [] h = tt
select-Distinct p (r ∷ rs) (first, h) = elim (Bool-cases (p r)) [
  | inl keep ↦ rw keep (All-select _ p rs first, select-Distinct p rs h)
  | inr drop ↦ rw drop (select-Distinct p rs h)
]

-- The record of an id that a recovery puts back, by what the tables have of the id.
abbrev kept : Option VectorRecord → Option VectorRecord → Option VectorRecord
kept in_tables none = none
kept in_tables (some r) = if is_new in_tables r then some r else none

kept_record :
    (k : String) (base d : Dict VectorRecord)
    → IsKeyed d
    → first_by_id k (recovered base d) ≡ kept (lookup k base) (lookup k d)
unfolding lookup
kept_record k base [] keyed = refl
kept_record k base ((j, r) ∷ d) (own, alone, keyed) =
    pick (String-cases j k) (Bool-cases (is_new (lookup r.id base) r)) (kept_record k base d keyed)
  where
    pick :
        (j ≡ k) ⊎ ((j == k) ≡ false)
        → (is_new (lookup r.id base) r ≡ true) ⊎ (is_new (lookup r.id base) r ≡ false)
        → first_by_id k (recovered base d) ≡ kept (lookup k base) (lookup k d)
        → first_by_id k (recovered base ((j, r) ∷ d))
          ≡ kept (lookup k base) (if j == k then some r else lookup k d)
    pick (inl same) (inl fresh) later =
        let at_k = own ∙ same in
        let r_same = subst (λ i. (i == k) ≡ true) (sym at_k) (eq_refl k) in
        let j_same = subst (λ i. (i == k) ≡ true) (sym same) (eq_refl k) in
        let fresh_k = subst (λ i. is_new (lookup i base) r ≡ true) at_k fresh in
        rw (fresh, r_same, j_same, fresh_k) refl
    pick (inl same) (inr old) later =
        let j_same = subst (λ i. (i == k) ≡ true) (sym same) (eq_refl k) in
        let old_k = subst (λ i. is_new (lookup i base) r ≡ false) (own ∙ same) old in
        rw (old, j_same, old_k)
          (later ∙ ap (kept (lookup k base)) (subst (λ i. lookup i d ≡ none) same alone))
    pick (inr other) (inl fresh) later =
        let r_other = subst (λ i. (i == k) ≡ false) (sym own) other in
        rw (fresh, r_other, other) later
    pick (inr other) (inr old) later = rw (old, other) later

eqb_self : (n : ℕ) → eqb n n ≡ true
eqb_self n = ground arith

old_record : (r : VectorRecord) → is_new (some r) r ≡ false
old_record r = rw (eqb_self r.version, eq_refl r.checksum) refl

not_new : (o : Option VectorRecord) (r : VectorRecord) → is_new o r ≡ false → Alike o (some r)
not_new none r h = cc
not_new (some c) r h = (ground arith, ground (arith, eq_iff c.checksum r.checksum))

kept_silent : (b : Option VectorRecord) → kept b b ≡ none
kept_silent none = refl
kept_silent (some r) = rw (old_record r) refl

kept_there :
    (b : Option VectorRecord) (r : VectorRecord) → Alike (first_some (kept b (some r)) b) (some r)
kept_there b r = elim (Bool-cases (is_new b r)) [
  | inl fresh ↦ rw fresh (refl, refl)
  | inr old ↦ rw old (not_new b r old)
]

Alike-some : (o : Option VectorRecord) (r : VectorRecord) → Alike o (some r) → is_some o ≡ true
Alike-some none r h = absurd h
Alike-some (some a) r h = refl

same_truth : (b : Bool) → (if b then true else false) ≡ b
same_truth true = refl
same_truth false = refl

true_either : (b : Bool) → (if b then true else true) ≡ true
true_either true = refl
true_either false = refl

module _ {Idx : Type 0} (index : Index Idx) where
  add_records-rest :
      (rs : List VectorRecord) (c : ShardContext Idx)
      → ((add_records index rs c).segments ≡ c.segments)
        × ((add_records index rs c).wal ≡ c.wal)
        × ((add_records index rs c).tombstones ≡ c.tombstones)
  unfolding add_records
  add_records-rest [] c = (refl, refl, refl)
  add_records-rest (r ∷ rs) c = add_records-rest rs _

  add_records-has :
      (k : String) (rs : List VectorRecord) (c : ShardContext Idx)
      → index.has k (add_records index rs c).index
        ≡ (if is_some (first_by_id k rs) then true else index.has k c.index)
  unfolding add_records
  add_records-has k [] c = refl
  add_records-has k (r ∷ rs) c =
      add_records-has k rs _
      ∙ ap (λ b. if is_some (first_by_id k rs) then true else b) (index.has_add r.id k r c.index)
      ∙ either (Bool-cases (r.id == k))
    where
      either :
          ((r.id == k) ≡ true) ⊎ ((r.id == k) ≡ false)
          → (if is_some (first_by_id k rs)
              then true
              else (if r.id == k then true else index.has k c.index))
            ≡ (if is_some (if r.id == k then some r else first_by_id k rs)
                then true
                else index.has k c.index)
      either (inl same) = rw same (true_either (is_some (first_by_id k rs)))
      either (inr other) = rw other refl

  -- The state of a shard that is opened on a root.
  unfoldable pub opened : ℕ → Idx → Root → ShardContext Idx
  unfolding open_context
  opened now x root = open_context index now x (open_log root) (open_store root)

  module _ (now : ℕ) (x : Idx) (root : Root) where
    abbrev store : SegmentStore
    store = open_store root

    -- The entries that the recovery reads, what the tables have, and what it resolves.
    abbrev read : List Entry
    read = root.log ++ []

    abbrev base : Dict VectorRecord
    base = durable_records_by_id store

    abbrev records : Dict VectorRecord
    records = (replay read base []).0

    opened_segments : (opened now x root).segments ≡ restore (recovered base records) store
    unfolding opened open_context recover read_all flush_log
    opened_segments = (add_records-rest (values records) _).0

    opened_wal : (opened now x root).wal ≡ record { written = read; buffer = [] }
    unfolding opened open_context recover read_all flush_log
    opened_wal = (add_records-rest (values records) _).1

    opened_tombstones : (opened now x root).tombstones ≡ (replay read base []).1
    unfolding opened open_context recover read_all flush_log
    opened_tombstones = (add_records-rest (values records) _).2

    records-IsKeyed : IsKeyed records
    records-IsKeyed = replay-IsKeyed read base [] (durable_records_by_id-IsKeyed store)

    opened_has :
        ((k : String) → index.has k x ≡ false)
        → (k : String) → index.has k (opened now x root).index ≡ is_some (lookup k records)
    unfolding opened open_context recover read_all flush_log
    opened_has new_index k =
        add_records-has k (values records) _
        ∙ ap (λ b. if is_some (first_by_id k (values records)) then true else b) (new_index k)
        ∙ same_truth (is_some (first_by_id k (values records)))
        ∙ ap is_some (
            sym (first_by_id-lookup k (values records))
            ∙ ap (lookup k) (pairs-values records records-IsKeyed))

    opened_memtable :
        (k : String)
        → lookup k (opened now x root).segments.memtable ≡ kept (lookup k base) (lookup k records)
    unfolding open_store lookup
    opened_memtable k =
        ap (λ (s : SegmentStore). lookup k s.memtable) opened_segments
        ∙ ap (lookup k) (restored (recovered base records) store)
        ∙ lookup-insert_all-Distinct k (recovered base records) []
            (select-Distinct _ (values records) (values-Distinct records records-IsKeyed))
        ∙ first_some-none (first_by_id k (recovered base records))
        ∙ kept_record k base records records-IsKeyed

    opened_newest :
        (k : String)
        → latest k (opened now x root).segments
          ≡ first_some (kept (lookup k base) (lookup k records)) (lookup k base)
    opened_newest k =
        ap (λ o. first_some o (lookup k (durable_records_by_id (opened now x root).segments)))
          (opened_memtable k)
        ∙ ap (λ d. first_some (kept (lookup k base) (lookup k records)) (lookup k d))
            (ap durable_records_by_id opened_segments
              ∙ durable-restore (recovered base records) store)

    opened_tables : IsDistinctTables root.hot → IsDistinctTables (opened now x root).segments.files
    unfolding open_store
    opened_tables tables =
        subst IsDistinctTables
          (sym (
            ap SegmentStore.files opened_segments ∙ restored_tables (recovered base records) store))
          tables

    opened_tomb :
        (k : String) → contains k (opened now x root).tombstones ≡ entombed (last_word k read) false
    opened_tomb k = ap (contains k) opened_tombstones ∙ (replay-resolved read base k).1

    found :
        (k : String) {v : Verdict}
        → last_word k read ≡ v
        → lookup k records ≡ resolved v (lookup k base)
    found k at_v = (replay-resolved read base k).0 ∙ ap (λ w. resolved w (lookup k base)) at_v

    pub opened_word : (k : String) → last_word k (entries (opened now x root)) ≡ last_word k read
    opened_word k =
        ap (λ (w : Wal). last_word k (w.written ++ w.buffer)) opened_wal
        ∙ ap (last_word k) (append-nil read)

    pub opened_durable :
        (k : String) → lookup k (durable_records_by_id (opened now x root).segments) ≡ lookup k base
    opened_durable k =
        ap (lookup k) (
          ap durable_records_by_id opened_segments ∙ durable-restore (recovered base records) store)

    opened_empty : IsKeyed store.memtable
    unfolding open_store
    opened_empty = tt

    visible-opened :
        IsDistinctTables root.hot
        → (k : String)
        → visible k (opened now x root) ≡ (
            if entombed (last_word k read) false
            then none
            else first_some (kept (lookup k base) (lookup k records)) (lookup k base))
    visible-opened tables k =
        visible-latest k (opened now x root) (opened_tables tables)
        ∙ ap (λ b. if b then none else latest k (opened now x root).segments) (opened_tomb k)
        ∙ ap (λ o. if entombed (last_word k read) false then none else o) (opened_newest k)

    opened-Said :
        (k : String) (v : Verdict)
        → last_word k read ≡ v
        → Said k v (opened now x root)
          × (is_some (
                if entombed v false
                then none
                else first_some (kept (lookup k base) (lookup k records)) (lookup k base))
              ≡ is_some (lookup k records))
    opened-Said k silent at_v = (
      (opened_tomb k ∙ rw at_v refl, opened_memtable k ∙ none_kept),
      ap is_some (ap (λ o. first_some o (lookup k base)) none_kept ∙ sym (found k at_v)),
    )
      where
        none_kept : kept (lookup k base) (lookup k records) ≡ none
        none_kept = ap (kept (lookup k base)) (found k at_v) ∙ kept_silent (lookup k base)
    opened-Said k gone at_v = (opened_tomb k ∙ rw at_v refl, ap is_some (sym (found k at_v)))
    opened-Said k (there r) at_v = (
      (opened_tomb k ∙ rw at_v refl, subst (λ o. Alike o (some r)) (sym (opened_newest k)) alike),
      Alike-some _ r alike ∙ ap is_some (sym (found k at_v)),
    )
      where
        alike :
            Alike (first_some (kept (lookup k base) (lookup k records)) (lookup k base)) (some r)
        alike =
            subst (λ o. Alike (first_some (kept (lookup k base) o) (lookup k base)) (some r))
              (sym (found k at_v)) (kept_there (lookup k base) r)

    -- A shard that is opened on a root is sound: for each id it has what the log says last, or else
    -- what the tables have, up to version and checksum.
    pub opened-IsSound :
        ((k : String) → index.has k x ≡ false)
        → IsDistinctTables root.hot
        → IsSound index (opened now x root)
    opened-IsSound new_index tables = record {
      tables = opened_tables tables;
      keyed =
          subst IsKeyed
            (sym
              (ap SegmentStore.memtable opened_segments ∙ restored (recovered base records) store))
            (insert_all-IsKeyed (recovered base records) store.memtable opened_empty);
      said = λ k.
          subst (λ v. Said k v (opened now x root)) (sym (opened_word k))
            (opened-Said k (last_word k read) refl).0;
      indexed = λ k.
          opened_has new_index k
          ∙ sym (ap is_some (visible-opened tables k) ∙ (opened-Said k (last_word k read) refl).1);
    }
