-- ===== src/Context/Reading.antt =====
-- A read of a store finds the newest record of its id, where no table has an id twice.
use mathlib.Core.Logic.{◌≢◌}
use mathlib.Core.List.{reverse_aux-eq}
use vsector.Base.{
  String, ◌≡◌, refl, sym, ap, ◌∙◌, none, some, List, [], ◌∷◌, ◌++◌, ◌==◌, reverse, first_some,
  first_some_assoc, first_some-none, if◌then◌else◌, Distinct, All, eq_false_of_ne,
}
use vsector.Dict.{Dict, lookup}
use vsector.Storage.{
  VectorRecord, SegmentStore, scan, insert_all, durable_from, durable_records_by_id,
}
use vsector.Storage.Tables.{latest, IsKeyed, lookup-insert_all}
use vsector.Transfer.Contents.{pairs, values-pairs}
use vsector.Context.{first_by_id, get_from, get}

-- No table has an id twice.
abbrev pub IsDistinctTables : Dict (List VectorRecord) → Type 0
IsDistinctTables files = (n : String) → Distinct VectorRecord.id (scan n files)

pub first_by_id-lookup :
    (k : String) (rs : List VectorRecord) → lookup k (pairs rs) ≡ first_by_id k rs
unfolding lookup
first_by_id-lookup k [] = refl
first_by_id-lookup k (r ∷ rs) = ap (λ o. if r.id == k then some r else o) (first_by_id-lookup k rs)

not_in_pairs :
    (k : String) (rs : List VectorRecord)
    → All (λ (r : VectorRecord). r.id ≢ k) rs
    → lookup k (pairs rs) ≡ none
unfolding lookup
not_in_pairs k [] h = refl
not_in_pairs k (r ∷ rs) (other, h) = rw (eq_false_of_ne r.id k other) (not_in_pairs k rs h)

pub pairs-IsKeyed : (rs : List VectorRecord) → Distinct VectorRecord.id rs → IsKeyed (pairs rs)
pairs-IsKeyed [] h = tt
pairs-IsKeyed (r ∷ rs) (first, h) = (refl, not_in_pairs r.id rs first, pairs-IsKeyed rs h)

pub lookup-insert_all-Distinct :
    (k : String) (rs : List VectorRecord) (d : Dict VectorRecord)
    → Distinct VectorRecord.id rs
    → lookup k (insert_all rs d) ≡ first_some (first_by_id k rs) (lookup k d)
lookup-insert_all-Distinct k rs d h =
    ap (λ l. lookup k (insert_all l d)) (sym (values-pairs rs))
    ∙ lookup-insert_all k (pairs rs) d (pairs-IsKeyed rs h)
    ∙ ap (λ o. first_some o (lookup k d)) (first_by_id-lookup k rs)

get_from-append :
    (k : String) (names : List String) (n : String) (files : Dict (List VectorRecord))
    → get_from k (names ++ (n ∷ [])) files
      ≡ first_some (get_from k names files) (first_by_id k (scan n files))
unfolding get_from
get_from-append k [] n files = first_some-none (first_by_id k (scan n files))
get_from-append k (m ∷ names) n files =
    ap (first_some (first_by_id k (scan m files))) (get_from-append k names n files)
    ∙ sym (first_some_assoc (first_by_id k (scan m files)) _ _)

get_from-durable :
    (k : String) (names : List String) (files : Dict (List VectorRecord)) (d : Dict VectorRecord)
    → IsDistinctTables files
    → lookup k (durable_from names files d)
      ≡ first_some (get_from k (reverse names) files) (lookup k d)
unfolding durable_from get_from
get_from-durable k [] files d h = refl
get_from-durable k (n ∷ names) files d h =
    get_from-durable k names files (insert_all (scan n files) d) h
    ∙ ap (first_some (get_from k (reverse names) files))
        (lookup-insert_all-Distinct k (scan n files) d (h n))
    ∙ sym (first_some_assoc (get_from k (reverse names) files) _ _)
    ∙ ap (λ o. first_some o (lookup k d))
        (sym (
          ap (λ l. get_from k l files) (reverse_aux-eq names (n ∷ []))
          ∙ get_from-append k (reverse names) n files))

pub get-latest : (k : String) (s : SegmentStore) → IsDistinctTables s.files → get k s ≡ latest k s
unfolding get durable_records_by_id lookup
get-latest k s h = ap (first_some (lookup k s.memtable)) (
    sym (
      get_from-durable k s.sstables s.files [] h
      ∙ first_some-none (get_from k (reverse s.sstables) s.files)))
