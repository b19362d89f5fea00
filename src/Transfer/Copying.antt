-- ===== src/Transfer/Copying.antt =====
-- What `import_shard` leaves on disk: the tables hold the records in order, and the log has an entry
-- for each record and then one for each tombstone.
use Prim.Native.Nat.{Ordering}
use Prim.Native.String.{compare}
use text.Mathlib.TextPositions.{compare_refl}
use mathlib.Core.Path.{subst}
use mathlib.Core.Logic.{◌≢◌}
use mathlib.Core.List.{append-nil, append_assoc}
use vsector.Base.{
  String, ℕ, suc, ◌+◌, ◌≤◌, ◌<◌, ◌≡◌, refl, sym, ap, ◌∙◌, Bool, true, false, List, [], ◌∷◌, ◌++◌,
  ◌==◌, arith, eq_iff, if◌then◌else◌, contains, leb, length, map, All, All-append, Distinct,
  Ascending, sort_by, sort_by_sorted, sort_by-Distinct, eq_false_of_ne,
}
use vsector.Dict.{Dict, insert, values, keys}
use vsector.Storage.{
  VectorRecord, SegmentStore, Entry, Wal, insert_all, durable_from, durable_records_by_id, flush,
  put, memtable_put, append, flush_log,
}
use vsector.Storage.Tables.{flushed}
use vsector.Transfer.{
  ShardExport, Root, no_root, open_store, open_log, copy_records, copy_deletes, delete_entry,
  imported,
}
use vsector.Transfer.Contents.{pairs, values-pairs}

pub append_one {ℓ} :
    {A : Type ℓ} (xs : List A) (a : A) (ys : List A) → (xs ++ (a ∷ [])) ++ ys ≡ xs ++ (a ∷ ys)
append_one [] a ys = refl
append_one (x ∷ xs) a ys = ap (λ l. x ∷ l) (append_one xs a ys)

abbrev Own : List VectorRecord → Type 0
Own rs = Distinct VectorRecord.id rs

abbrev Others : VectorRecord → List VectorRecord → Type 0
Others r rs = All (λ (s : VectorRecord). s.id ≢ r.id) rs

All-left {ℓ κ} : {A : Type ℓ} (P : A → Type κ) (xs ys : List A) → All P (xs ++ ys) → All P xs
All-left P [] ys h = tt
All-left P (x ∷ xs) ys (px, h) = (px, All-left P xs ys h)

pub All-right {ℓ κ} : {A : Type ℓ} (P : A → Type κ) (xs ys : List A) → All P (xs ++ ys) → All P ys
All-right P [] ys h = h
All-right P (x ∷ xs) ys (px, h) = All-right P xs ys h

Own-left : (xs ys : List VectorRecord) → Own (xs ++ ys) → Own xs
Own-left [] ys h = tt
Own-left (x ∷ xs) ys (first, h) = (All-left _ xs ys first, Own-left xs ys h)

Own-middle :
    (xs : List VectorRecord) (r : VectorRecord) (ys : List VectorRecord)
    → Own (xs ++ (r ∷ ys))
    → Others r xs
Own-middle [] r ys h = tt
Own-middle (x ∷ xs) r ys (first, h) =
    (λ same. (All-right _ xs (r ∷ ys) first).0 (sym same), Own-middle xs r ys h)

insert_new :
    (r : VectorRecord) (xs : List VectorRecord)
    → Others r xs
    → insert r.id r (pairs xs) ≡ pairs (xs ++ (r ∷ []))
unfolding insert
insert_new r [] h = refl
insert_new r (x ∷ xs) (other, h) =
    rw (eq_false_of_ne x.id r.id other) (ap (λ d. (x.id, x) ∷ d) (insert_new r xs h))

insert_all_new :
    (ys xs : List VectorRecord) → Own (xs ++ ys) → insert_all ys (pairs xs) ≡ pairs (xs ++ ys)
insert_all_new [] xs h = ap pairs (sym (append-nil xs))
insert_all_new (r ∷ ys) xs h =
    ap (insert_all ys) (insert_new r xs (Own-middle xs r ys h))
    ∙ insert_all_new ys (xs ++ (r ∷ [])) (subst Own (sym (append_one xs r ys)) h)
    ∙ ap pairs (append_one xs r ys)

keys-insert {ℓ} :
    {V : Type ℓ} (k : String) (v : V) (d : Dict V)
    → contains k (keys d) ≡ false
    → keys (insert k v d) ≡ keys d ++ (k ∷ [])
unfolding insert
keys-insert k v [] h = refl
keys-insert k v ((j, w) ∷ d) h = rw (other) (ap (λ l. j ∷ l) (keys-insert k v d (ground arith)))
  where
    other : (j == k) ≡ false
    other = ground (arith, eq_iff j k, eq_iff k j)

abbrev Before : String → String → Type 0
Before m n = compare m n ≡ Ordering.lt

eq_is_not-lt : Ordering.eq ≡ Ordering.lt → ⊥
eq_is_not-lt h = cc

new_name : (x : String) (xs : List String) → All (λ m. Before m x) xs → contains x xs ≡ false
new_name x [] h = refl
new_name x (m ∷ xs) (before, h) = rw (eq_false_of_ne x m apart) (new_name x xs h)
  where
    apart : x ≢ m
    apart same = eq_is_not-lt (sym (compare_refl x) ∙ ap (λ n. compare n x) same ∙ before)

Ascending-append :
    (x : String) (xs : List String)
    → All (λ m. Before m x) xs
    → Ascending (λ n. n) xs
    → Ascending (λ n. n) (xs ++ (x ∷ []))
Ascending-append x [] h a = (tt, tt)
Ascending-append x (m ∷ xs) (before, h) (first, a) =
    (All-append _ xs (x ∷ []) first (before, tt), Ascending-append x xs h a)

-- The names that the clock gives are in the order of time.
abbrev pub IsClock : (ℕ → String) → Type 0
IsClock clock = (n k : ℕ) → n < k → Before (clock n) (clock k)

-- The store holds `done`: the records that are flushed and then those that are in memory.
record Copied (clock : ℕ → String) (n : ℕ) (done : List VectorRecord) (seg : SegmentStore)
    : Type 0 where
  stored : List VectorRecord
  pending : List VectorRecord
  split : stored ++ pending ≡ done
  in_memory : seg.memtable ≡ pairs pending
  on_disk : durable_from seg.sstables seg.files [] ≡ pairs stored
  listed : keys seg.files ≡ seg.sstables
  ascending : Ascending (λ name. name) seg.sstables
  earlier : (k : ℕ) → n ≤ k → All (λ m. Before m (clock k)) seg.sstables

later-Copied :
    (clock : ℕ → String) (n m : ℕ) (done : List VectorRecord) (seg : SegmentStore)
    → n ≤ m
    → Copied clock n done seg
    → Copied clock m done seg
later-Copied clock n m done seg le c = record {
  stored = c.stored;
  pending = c.pending;
  split = c.split;
  in_memory = c.in_memory;
  on_disk = c.on_disk;
  listed = c.listed;
  ascending = c.ascending;
  earlier = λ k h. c.earlier k (omega arith);
}

start-Copied : (clock : ℕ → String) → Copied clock 0 [] (open_store no_root)
unfolding open_store sort_by durable_from
start-Copied clock = record {
  stored = [];
  pending = [];
  split = refl;
  in_memory = refl;
  on_disk = refl;
  listed = refl;
  ascending = tt;
  earlier = λ k h. tt;
}

module _ (clock : ℕ → String) (in_order : IsClock clock) where
  flush-Copied :
      (n : ℕ) (done : List VectorRecord) (seg : SegmentStore)
      → Own done
      → Copied clock n done seg
      → (durable_from (flush (clock n) seg).sstables (flush (clock n) seg).files [] ≡ pairs done)
        × Copied clock (n + 1) done (flush (clock n) seg)
  unfolding flush
  flush-Copied n done seg own c = go c.pending c.split c.in_memory
    where
      fresh : contains (clock n) seg.sstables ≡ false
      fresh = new_name (clock n) seg.sstables (c.earlier n (omega arith))

      durable :
          (written : List VectorRecord)
          → c.stored ++ written ≡ done
          → durable_from
              (seg.sstables ++ (clock n ∷ []))
              (insert (clock n) (values (pairs written)) seg.files)
              []
            ≡ pairs done
      durable written split =
          flushed seg.sstables (clock n) (values (pairs written)) seg.files fresh
          ∙ ap (insert_all (values (pairs written))) c.on_disk
          ∙ ap (λ rs. insert_all rs (pairs c.stored)) (values-pairs written)
          ∙ insert_all_new written c.stored (subst Own (sym split) own)
          ∙ ap pairs split

      go :
          (pending : List VectorRecord)
          → c.stored ++ pending ≡ done
          → seg.memtable ≡ pairs pending
          → (durable_from (flush (clock n) seg).sstables (flush (clock n) seg).files []
              ≡ pairs done)
            × Copied clock (n + 1) done (flush (clock n) seg)
      go [] split in_memory = rw in_memory (
        c.on_disk ∙ ap pairs (sym (append-nil c.stored) ∙ split),
        record {
          stored = done;
          pending = [];
          split = append-nil done;
          in_memory = refl;
          on_disk = c.on_disk ∙ ap pairs (sym (append-nil c.stored) ∙ split);
          listed = c.listed;
          ascending = c.ascending;
          earlier = λ k h. c.earlier k (omega arith);
        },
      )
      go (r ∷ pending) split in_memory = rw in_memory (
        durable (r ∷ pending) split,
        record {
          stored = done;
          pending = [];
          split = append-nil done;
          in_memory = refl;
          on_disk = durable (r ∷ pending) split;
          listed =
              keys-insert (clock n) (values (pairs (r ∷ pending))) seg.files (rw c.listed fresh)
              ∙ ap (λ names. names ++ (clock n ∷ [])) c.listed;
          ascending =
              Ascending-append (clock n) seg.sstables (c.earlier n (omega arith)) c.ascending;
          earlier = λ k h.
              All-append (λ m. Before m (clock k)) seg.sstables (clock n ∷ [])
                (c.earlier k (omega arith)) (in_order n k (omega arith), tt);
        },
      )

  put-Copied :
      (n : ℕ) (done : List VectorRecord) (r : VectorRecord) (seg : SegmentStore)
      → Own (done ++ (r ∷ []))
      → Copied clock n done seg
      → Copied clock (n + 1) (done ++ (r ∷ [])) (put (clock n) r seg)
  unfolding put
  put-Copied n done r seg own c = go (leb seg.flush_threshold (length (insert r.id r seg.memtable)))
    where
      others : Others r c.pending
      others =
          All-right _ c.stored c.pending (subst (Others r) (sym c.split) (Own-middle done r [] own))

      in_mem : Copied clock n (done ++ (r ∷ [])) (memtable_put r seg)
      in_mem = record {
        stored = c.stored;
        pending = c.pending ++ (r ∷ []);
        split = sym (append_assoc c.stored c.pending (r ∷ [])) ∙ ap (λ l. l ++ (r ∷ [])) c.split;
        in_memory = ap (insert r.id r) c.in_memory ∙ insert_new r c.pending others;
        on_disk = c.on_disk;
        listed = c.listed;
        ascending = c.ascending;
        earlier = c.earlier;
      }

      go :
          (b : Bool)
          → Copied clock
              (n + 1)
              (done ++ (r ∷ []))
              (if b then flush (clock n) (memtable_put r seg) else memtable_put r seg)
      go true = (flush-Copied n (done ++ (r ∷ [])) (memtable_put r seg) own in_mem).1
      go false =
          later-Copied clock n (n + 1) (done ++ (r ∷ [])) (memtable_put r seg) (omega arith) in_mem

  copy_records-Copied :
      (rs done : List VectorRecord) (n : ℕ) (seg : SegmentStore) (wal : Wal)
      → Own (done ++ rs)
      → Copied clock n done seg
      → Copied clock (n + length rs) (done ++ rs) (copy_records clock n rs seg wal).0
  unfolding copy_records
  copy_records-Copied [] done n seg wal own c =
      subst (λ l. Copied clock (n + 0) l seg) (sym (append-nil done))
        (later-Copied clock n (n + 0) done seg (omega arith) c)
  copy_records-Copied (r ∷ rs) done n seg wal own c =
      subst (λ l. Copied clock (n + suc (length rs)) l end) (append_one done r rs)
        (later-Copied clock (n + 1 + length rs) (n + suc (length rs)) ((done ++ (r ∷ [])) ++ rs) end
          (omega arith)
          (copy_records-Copied rs (done ++ (r ∷ [])) (n + 1) (put (clock n) r seg)
            (append (Entry.upsert r) wal) longer
            (put-Copied n done r seg (Own-left (done ++ (r ∷ [])) rs longer) c)))
    where
      end : SegmentStore
      end = (copy_records clock (n + 1) rs (put (clock n) r seg) (append (Entry.upsert r) wal)).0

      longer : Own ((done ++ (r ∷ [])) ++ rs)
      longer = subst Own (sym (append_one done r rs)) own

copy_records-log :
    (clock : ℕ → String) (rs : List VectorRecord) (n : ℕ) (seg : SegmentStore) (wal : Wal)
    → (copy_records clock n rs seg wal).1
      ≡ record wal { buffer = wal.buffer ++ map Entry.upsert rs }
unfolding copy_records
copy_records-log clock [] n seg wal =
    ap (λ b. record wal { buffer = b }) (sym (append-nil wal.buffer))
copy_records-log clock (r ∷ rs) n seg wal =
    copy_records-log clock rs (n + 1) (put (clock n) r seg) (append (Entry.upsert r) wal)
    ∙ ap (λ b. record wal { buffer = b })
        (append_one wal.buffer (Entry.upsert r) (map Entry.upsert rs))

copy_deletes-log :
    (ids : List String) (wal : Wal)
    → copy_deletes ids wal ≡ record wal { buffer = wal.buffer ++ map delete_entry ids }
unfolding copy_deletes
copy_deletes-log [] wal = ap (λ b. record wal { buffer = b }) (sym (append-nil wal.buffer))
copy_deletes-log (i ∷ ids) wal =
    copy_deletes-log ids (append (delete_entry i) wal)
    ∙ ap (λ b. record wal { buffer = b })
        (append_one wal.buffer (delete_entry i) (map delete_entry ids))

-- The root after an import into an empty one.
pub imported-contents :
    (clock : ℕ → String) (export : ShardExport)
    → IsClock clock
    → Distinct VectorRecord.id export.records
    → let rs = sort_by VectorRecord.id export.records in
      let ids = sort_by (λ i. i) export.deleted_ids in
      let root = imported clock export no_root in
      (durable_records_by_id (open_store root) ≡ pairs rs)
      × (root.log ≡ map Entry.upsert rs ++ map delete_entry ids)
unfolding imported open_store durable_records_by_id flush_log
imported-contents clock export in_order own = (
  ap (λ names. durable_from names root.hot []) in_sequence ∙ written.0,
  ap (λ (w : Wal). w.written ++ w.buffer)
      (copy_deletes-log ids copied.1
        ∙ ap (λ (w : Wal). record w { buffer = w.buffer ++ map delete_entry ids })
            (copy_records-log clock rs 0 (open_store no_root) (open_log no_root))),
)
  where
    rs : List VectorRecord
    rs = sort_by VectorRecord.id export.records

    ids : List String
    ids = sort_by (λ i. i) export.deleted_ids

    copied : SegmentStore × Wal
    copied = copy_records clock 0 rs (open_store no_root) (open_log no_root)

    root : Root
    root = imported clock export no_root

    sorted_own : Own rs
    sorted_own = sort_by-Distinct VectorRecord.id export.records own

    written :
        (durable_from
            (flush (clock (length rs)) copied.0).sstables
            (flush (clock (length rs)) copied.0).files
            []
          ≡ pairs rs)
        × Copied clock (length rs + 1) rs (flush (clock (length rs)) copied.0)
    written = flush-Copied clock in_order (length rs) rs copied.0 sorted_own (
        later-Copied clock (0 + length rs) (length rs) rs copied.0 (omega arith) (
          copy_records-Copied clock in_order rs [] 0 (open_store no_root) (open_log no_root)
            sorted_own (start-Copied clock)))

    in_sequence :
        sort_by (λ name. name) (keys root.hot) ≡ (flush (clock (length rs)) copied.0).sstables
    in_sequence =
        ap (sort_by (λ name. name)) written.1.listed
        ∙ sort_by_sorted (λ name. name) _ written.1.ascending
