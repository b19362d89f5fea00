-- ===== src/Context/Puts.antt =====
-- What a put leaves in the memtable and in the tables.
use mathlib.Core.Path.{subst}
use vsector.Base.{
  String, ◌≡◌, refl, sym, ap, ◌∙◌, Bool, true, false, none, List, [], ◌∷◌, ◌++◌, ◌==◌, leb, length,
  if◌then◌else◌, Bool-cases, inl, inr,
}
use vsector.Dict.{Dict, lookup, insert, values, lookup-insert}
use vsector.Storage.{VectorRecord, SegmentStore, flush, put, memtable_put}
use vsector.Storage.Tables.{IsKeyed, insert-IsKeyed}
use vsector.Storage.Recovery.{Verdict, silent, gone, there, or_before, says, last_word}
use vsector.Storage.{Entry}
use vsector.Transfer.Contents.{values-Distinct}
use vsector.Context.Reading.{IsDistinctTables}

flush-memtable : (name : String) (s : SegmentStore) → (flush name s).memtable ≡ []
unfolding flush
flush-memtable name s = go s.memtable refl
  where
    go : (mem : Dict VectorRecord) → s.memtable ≡ mem → (flush name s).memtable ≡ []
    go [] at_s = rw at_s refl
    go ((k, r) ∷ mem) at_s = rw at_s refl

flush-tables :
    (name : String) (s : SegmentStore)
    → IsKeyed s.memtable
    → IsDistinctTables s.files
    → IsDistinctTables (flush name s).files
unfolding flush
flush-tables name s keyed tables = go s.memtable refl keyed
  where
    go :
        (mem : Dict VectorRecord)
        → s.memtable ≡ mem
        → IsKeyed mem
        → IsDistinctTables (flush name s).files
    go [] at_s h = rw at_s tables
    go ((k, r) ∷ mem) at_s h = rw at_s λ n.
        rw (lookup-insert name n (r ∷ values mem) s.files) (elim (Bool-cases (name == n)) [
          | inl same ↦ rw same (values-Distinct ((k, r) ∷ mem) h)
          | inr other ↦ rw other (tables n)
        ])

-- A put either flushes or does not.
put_cases {κ} :
    (P : SegmentStore → Type κ) (name : String) (r : VectorRecord) (s : SegmentStore)
    → P (flush name (memtable_put r s))
    → P (memtable_put r s)
    → P (put name r s)
unfolding put
put_cases P name r s flushes keeps = go (leb s.flush_threshold (length (insert r.id r s.memtable)))
  where
    go : (b : Bool) → P (if b then flush name (memtable_put r s) else memtable_put r s)
    go true = flushes
    go false = keeps

pub put-tables :
    (name : String) (r : VectorRecord) (s : SegmentStore)
    → IsKeyed s.memtable
    → IsDistinctTables s.files
    → IsDistinctTables (put name r s).files
put-tables name r s keyed tables =
    put_cases (λ t. IsDistinctTables t.files) name r s
      (flush-tables name (memtable_put r s) (insert-IsKeyed r s.memtable keyed) tables) tables

pub put-IsKeyed :
    (name : String) (r : VectorRecord) (s : SegmentStore)
    → IsKeyed s.memtable
    → IsKeyed (put name r s).memtable
put-IsKeyed name r s keyed =
    put_cases (λ t. IsKeyed t.memtable) name r s
      (subst IsKeyed (sym (flush-memtable name (memtable_put r s))) tt)
      (insert-IsKeyed r s.memtable keyed)

pub put-memtable :
    (name : String) (r : VectorRecord) (s : SegmentStore) (k : String)
    → (r.id == k) ≡ false
    → lookup k s.memtable ≡ none
    → lookup k (put name r s).memtable ≡ none
unfolding lookup
put-memtable name r s k other absent =
    put_cases (λ t. lookup k t.memtable ≡ none) name r s
      (ap (lookup k) (flush-memtable name (memtable_put r s)))
      (lookup-insert r.id k r s.memtable ∙ rw other absent)

or_before_assoc : (u v w : Verdict) → or_before u (or_before v w) ≡ or_before (or_before u v) w
or_before_assoc silent v w = refl
or_before_assoc gone v w = refl
or_before_assoc (there r) v w = refl

-- One more entry in the log.
pub last_word-append :
    (k : String) (es : List Entry) (e : Entry)
    → last_word k (es ++ (e ∷ [])) ≡ or_before (says k e) (last_word k es)
unfolding last_word
last_word-append k [] e = before_nothing (says k e)
  where
    before_nothing : (v : Verdict) → or_before silent v ≡ or_before v silent
    before_nothing silent = refl
    before_nothing gone = refl
    before_nothing (there r) = refl
last_word-append k (x ∷ es) e =
    ap (λ v. or_before v (says k x)) (last_word-append k es e)
    ∙ sym (or_before_assoc (says k e) (last_word k es) (says k x))
