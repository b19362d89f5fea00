-- ===== src/Transfer/Contents.antt =====
-- What a recovery yields: records under their own ids, each once, and tombstones of other ids.
use mathlib.Core.Path.{subst}
use mathlib.Core.Logic.{◌≢◌}
use vsector.Base.{
  String, ◌≡◌, refl, sym, ap, ◌∙◌, true, false, none, some, List, [], ◌∷◌, ◌++◌, ◌==◌, arith,
  eq_iff, eq_refl, if◌then◌else◌, contains, inl, inr, String-cases, Bool-cases, All, All-map,
  Distinct, ne_of_eq_false, not, All-append, All-select,
}
use vsector.Dict.{Dict, lookup, insert, erase, values, lookup-erase}
use vsector.Storage.{
  VectorRecord, Entry, insert_all, durable_from, replay, add_id, discard_id, scan,
}
use vsector.Storage.Tables.{IsKeyed, insert-IsKeyed}

-- The dictionary of the records under their ids.
abbrev pub pairs : List VectorRecord → Dict VectorRecord
pairs [] = []
pairs (r ∷ rs) = (r.id, r) ∷ pairs rs

pub values-pairs : (rs : List VectorRecord) → values (pairs rs) ≡ rs
values-pairs [] = refl
values-pairs (r ∷ rs) = ap (λ l. r ∷ l) (values-pairs rs)

pub pairs-values : (d : Dict VectorRecord) → IsKeyed d → pairs (values d) ≡ d
pairs-values [] h = refl
pairs-values ((k, r) ∷ d) (own, alone, h) = rw (own, pairs-values d h) refl

pub erase-IsKeyed : (k : String) (d : Dict VectorRecord) → IsKeyed d → IsKeyed (erase k d)
unfolding erase
erase-IsKeyed k [] h = tt
erase-IsKeyed k ((j, r) ∷ d) (own, alone, h) = elim (Bool-cases (j == k)) [
  | inl same ↦ rw same (erase-IsKeyed k d h)
  | inr other ↦ rw other (own, ground (arith, lookup-erase k j d, eq_iff k j), erase-IsKeyed k d h)
]

pub insert_all-IsKeyed :
    (rs : List VectorRecord) (d : Dict VectorRecord) → IsKeyed d → IsKeyed (insert_all rs d)
insert_all-IsKeyed [] d h = h
insert_all-IsKeyed (r ∷ rs) d h = insert_all-IsKeyed rs (insert r.id r d) (insert-IsKeyed r d h)

pub durable_from-IsKeyed :
    (names : List String) (files : Dict (List VectorRecord)) (d : Dict VectorRecord)
    → IsKeyed d
    → IsKeyed (durable_from names files d)
unfolding durable_from
durable_from-IsKeyed [] files d h = h
durable_from-IsKeyed (n ∷ names) files d h =
    durable_from-IsKeyed names files (insert_all (scan n files) d)
      (insert_all-IsKeyed (scan n files) d h)

pub replay-IsKeyed :
    (es : List Entry) (d : Dict VectorRecord) (ids : List String)
    → IsKeyed d
    → IsKeyed (replay es d ids).0
unfolding replay
replay-IsKeyed [] d ids h = h
replay-IsKeyed (Entry.upsert r ∷ es) d ids h =
    replay-IsKeyed es (insert r.id r d) (discard_id r.id ids) (insert-IsKeyed r d h)
replay-IsKeyed (Entry.delete i ∷ es) d ids h =
    replay-IsKeyed es (erase i d) (add_id i ids) (erase-IsKeyed i d h)
replay-IsKeyed (Entry.unreadable ∷ es) d ids h = replay-IsKeyed es d ids h

-- An id that a dictionary does not have is the id of none of its records.
pub absent-values :
    (k : String) (d : Dict VectorRecord)
    → IsKeyed d
    → lookup k d ≡ none
    → All (λ (r : VectorRecord). r.id ≢ k) (values d)
unfolding lookup
absent-values k [] h absent = tt
absent-values k ((j, r) ∷ d) (own, alone, h) absent = elim (String-cases j k) [
  | inl same ↦ absurd (found same absent)
  | inr other ↦ (
    λ at_k. ne_of_eq_false j k other (sym own ∙ at_k),
    absent-values k d h (subst (λ b. (if b then some r else lookup k d) ≡ none) other absent),
  )
]
  where
    found : j ≡ k → (if j == k then some r else lookup k d) ≡ none → ⊥
    found same absent = ground (arith, eq_iff j k)

pub values-Distinct : (d : Dict VectorRecord) → IsKeyed d → Distinct VectorRecord.id (values d)
values-Distinct [] h = tt
values-Distinct ((k, r) ∷ d) (own, alone, h) = (
  All-map (values d) (λ s other at_r. other (at_r ∙ own)) (absent-values k d h alone),
  values-Distinct d h,
)

-- Tombstones.
abbrev pub Ids : List String → Type 0
Ids ids = Distinct (λ i. i) ids

pub not_contained : (k : String) (xs : List String) → contains k xs ≡ false → All (λ i. i ≢ k) xs
not_contained k [] h = tt
not_contained k (x ∷ xs) h = (λ same. ground (arith, eq_iff k x), not_contained k xs (ground arith))

pub Ids-append :
    (i : String) (xs : List String) → All (λ j. j ≢ i) xs → Ids xs → Ids (xs ++ (i ∷ []))
Ids-append i [] other h = (tt, tt)
Ids-append i (x ∷ xs) (apart, other) (first, h) =
    (All-append _ xs (i ∷ []) first (λ e. apart (sym e), tt), Ids-append i xs other h)

discard_id-Ids : (k : String) (xs : List String) → Ids xs → Ids (discard_id k xs)
discard_id-Ids k [] h = tt
discard_id-Ids k (x ∷ xs) (first, h) = elim (Bool-cases (x == k)) [
  | inl same ↦ rw same (discard_id-Ids k xs h)
  | inr other ↦ rw other (All-select _ (λ j. not (j == k)) xs first, discard_id-Ids k xs h)
]

pub replay-Ids :
    (es : List Entry) (d : Dict VectorRecord) (ids : List String)
    → Ids ids
    → Ids (replay es d ids).1
unfolding replay
replay-Ids [] d ids h = h
replay-Ids (Entry.upsert r ∷ es) d ids h =
    replay-Ids es (insert r.id r d) (discard_id r.id ids) (discard_id-Ids r.id ids h)
replay-Ids (Entry.delete i ∷ es) d ids h =
    replay-Ids es (erase i d) (add_id i ids) (elim (Bool-cases (contains i ids)) [
      | inl known ↦ rw known h
      | inr new ↦ rw new (Ids-append i ids (not_contained i ids new) h)
    ])
replay-Ids (Entry.unreadable ∷ es) d ids h = replay-Ids es d ids h

-- A log as `_parse_payload` reads it has no delete of the empty id.
abbrev pub IsReadable : Entry → Type 0
IsReadable (Entry.delete i) = (i == "") ≡ false
IsReadable _ = Unit {0}

pub replay-named :
    (es : List Entry) (d : Dict VectorRecord) (ids : List String)
    → All IsReadable es
    → All (λ i. (i == "") ≡ false) ids
    → All (λ i. (i == "") ≡ false) (replay es d ids).1
unfolding replay
replay-named [] d ids readable h = h
replay-named (Entry.upsert r ∷ es) d ids (_, readable) h =
    replay-named es (insert r.id r d) (discard_id r.id ids) readable
      (All-select _ (λ j. not (j == r.id)) ids h)
replay-named (Entry.delete i ∷ es) d ids (named, readable) h =
    replay-named es (erase i d) (add_id i ids) readable (elim (Bool-cases (contains i ids)) [
      | inl known ↦ rw known h
      | inr new ↦ rw new (All-append _ ids (i ∷ []) h (named, tt))
    ])
replay-named (Entry.unreadable ∷ es) d ids (_, readable) h = replay-named es d ids readable h

pub All-contains {κ} :
    {P : String → Type κ} (xs : List String)
    → ((i : String) → contains i xs ≡ true → P i)
    → All P xs
All-contains [] f = tt
All-contains (x ∷ xs) f = (f x (rw (eq_refl x) refl), All-contains xs (λ i h. f i (ground arith)))
