-- ===== src/Storage/Tables.antt =====
-- What a segment store holds for an id, over the memtable and the SSTables, and what its writes do
-- to that.
use mathlib.Core.Path.{subst}
use vsector.Base.{
  String, ◌≡◌, refl, ap, ◌∙◌, Bool, true, false, Option, none, some, List, [], ◌∷◌, ◌++◌, ◌==◌, leb,
  arith, eq_iff, eq_refl, if◌then◌else◌, contains, inl, inr, ◌⊎◌, String-cases, Bool-cases, length,
  ne_of_eq_false, first_some,
}
use vsector.Dict.{Dict, lookup, insert, values, lookup-insert, lookup-insert_ne, lookup-insert_self}
use vsector.Storage.{
  VectorRecord, SegmentStore, flush, put, memtable_put, scan, scan_found, insert_all, durable_from,
  durable_records_by_id,
}

-- The newest record of an id.
abbrev pub latest : String → SegmentStore → Option VectorRecord
latest k s = first_some (lookup k s.memtable) (lookup k (durable_records_by_id s))

-- Each record stands under its own id, once.
abbrev pub IsKeyed : Dict VectorRecord → Type 0
IsKeyed [] = Unit {0}
IsKeyed ((k, r) ∷ d) = (r.id ≡ k) × (lookup k d ≡ none) × IsKeyed d

pub insert-IsKeyed :
    (r : VectorRecord) (d : Dict VectorRecord) → IsKeyed d → IsKeyed (insert r.id r d)
unfolding insert lookup
insert-IsKeyed r [] h = (refl, refl, tt)
insert-IsKeyed r ((k, x) ∷ d) (own, alone, h) = elim (String-cases k r.id) [
  | inl same ↦ rw (same, eq_refl r.id) (refl, subst (λ j. lookup j d ≡ none) same alone, h)
  | inr other ↦ rw other (
    own,
    lookup-insert r.id k r d ∙ ground (arith, eq_iff r.id k, eq_iff k r.id),
    insert-IsKeyed r d h,
  )
]

pub lookup-insert_all :
    (k : String) (mem d : Dict VectorRecord)
    → IsKeyed mem
    → lookup k (insert_all (values mem) d) ≡ first_some (lookup k mem) (lookup k d)
unfolding lookup
lookup-insert_all k [] d h = refl
lookup-insert_all k ((j, r) ∷ mem) d (own, alone, h) = ground (
  arith,
  lookup-insert_all k mem (insert r.id r d) h,
  lookup-insert r.id k r d,
  eq_iff j k,
  eq_iff r.id k,
)

durable_from-append :
    (names : List String) (n : String) (files : Dict (List VectorRecord)) (d : Dict VectorRecord)
    → durable_from (names ++ (n ∷ [])) files d
      ≡ insert_all (scan n files) (durable_from names files d)
unfolding durable_from
durable_from-append [] n files d = refl
durable_from-append (m ∷ names) n files d =
    durable_from-append names n files (insert_all (scan m files) d)

-- A new file does not change what the other tables hold.
durable_from-insert :
    (names : List String) (name : String) (rs : List VectorRecord)
    (files : Dict (List VectorRecord)) (d : Dict VectorRecord)
    → contains name names ≡ false
    → durable_from names (insert name rs files) d ≡ durable_from names files d
unfolding durable_from
durable_from-insert [] name rs files d new = refl
durable_from-insert (m ∷ names) name rs files d new =
    durable_from-insert names name rs files (insert_all (scan m (insert name rs files)) d)
      (ground arith)
    ∙ ap (λ l. durable_from names files (insert_all l d)) same_scan
  where
    same_scan : scan m (insert name rs files) ≡ scan m files
    same_scan =
        ap scan_found
          (lookup-insert_ne name m rs files (ne_of_eq_false name m (ground (arith, eq_iff name m))))

pub flushed :
    (names : List String) (name : String) (rs : List VectorRecord)
    (files : Dict (List VectorRecord))
    → contains name names ≡ false
    → durable_from (names ++ (name ∷ [])) (insert name rs files) []
      ≡ insert_all rs (durable_from names files [])
flushed names name rs files new =
    durable_from-append names name (insert name rs files) []
    ∙ ap (λ l. insert_all l (durable_from names (insert name rs files) []))
        (ap scan_found (lookup-insert_self name rs files))
    ∙ ap (insert_all rs) (durable_from-insert names name rs files [] new)

no_memtable : (k : String) (o : Option VectorRecord) → first_some (lookup k []) o ≡ o
unfolding lookup
no_memtable k o = refl

-- The memtable's part of `latest` after one record was put.
memtable_put-latest :
    (k : String) (r : VectorRecord) (s : SegmentStore)
    → latest k (memtable_put r s) ≡ (if r.id == k then some r else latest k s)
unfolding durable_records_by_id
memtable_put-latest k r s = rw (lookup-insert r.id k r s.memtable) (either (Bool-cases (r.id == k)))
  where
    either :
        ((r.id == k) ≡ true) ⊎ ((r.id == k) ≡ false)
        → first_some
            (if r.id == k then some r else lookup k s.memtable)
            (lookup k (durable_from s.sstables s.files []))
          ≡ (if r.id == k then some r else latest k s)
    either (inl same) = rw same refl
    either (inr other) = rw other refl

-- `flush` changes no newest record, where the memtable is keyed and the name of the new file is not
-- one that is loaded.
pub flush-latest :
    (name : String) (s : SegmentStore) (k : String)
    → IsKeyed s.memtable
    → contains name s.sstables ≡ false
    → latest k (flush name s) ≡ latest k s
unfolding flush durable_records_by_id
flush-latest name s k keyed new = go s.memtable refl keyed
  where
    go :
        (mem : Dict VectorRecord)
        → s.memtable ≡ mem
        → IsKeyed mem
        → latest k (flush name s) ≡ latest k s
    go [] at_s h = rw at_s refl
    go ((j, r) ∷ mem) at_s h = rw at_s (
        no_memtable k _
        ∙ ap (lookup k) (flushed s.sstables name (r ∷ values mem) s.files new)
        ∙ lookup-insert_all k ((j, r) ∷ mem) (durable_from s.sstables s.files []) h)

-- `put` makes its record the newest of its id and leaves every other id as it was, whether or not
-- the memtable is flushed; the memtable is keyed and the name that a flush would take is new.
pub put-latest :
    (name : String) (r : VectorRecord) (s : SegmentStore) (k : String)
    → IsKeyed s.memtable
    → contains name s.sstables ≡ false
    → latest k (put name r s) ≡ (if r.id == k then some r else latest k s)
unfolding put
put-latest name r s k keyed new = go _ refl
  where
    go :
        (b : Bool)
        → leb s.flush_threshold (length (insert r.id r s.memtable)) ≡ b
        → latest k (if b then flush name (memtable_put r s) else memtable_put r s)
          ≡ (if r.id == k then some r else latest k s)
    go true h =
        flush-latest name (memtable_put r s) k (insert-IsKeyed r s.memtable keyed) new
        ∙ memtable_put-latest k r s
    go false h = memtable_put-latest k r s
