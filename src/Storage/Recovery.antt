-- ===== src/Storage/Recovery.antt =====
-- What a recovery resolves: for each id, the last entry of the log, or else the newest SSTable.
use mathlib.Core.Path.{subst}
use vsector.Base.{
  String, ◌≡◌, refl, sym, ◌++◌, ◌||◌, ◌∙◌, Bool, true, false, Option, none, some, List, [], ◌∷◌,
  ◌==◌, arith, eq_iff, eq_refl, if◌then◌else◌, contains, inl, inr, ◌⊎◌, String-cases, Bool-cases,
}
use vsector.Dict.{Dict, lookup, insert, erase, lookup-insert, lookup-erase}
use vsector.Storage.{VectorRecord, Entry, replay, add_id, discard_id}

-- What the log says of an id last.
pub data Verdict : Type 0 where
  silent gone : Verdict
  there : VectorRecord → Verdict

abbrev pub or_before : Verdict → Verdict → Verdict
or_before silent before = before
or_before v before = v

-- What one entry says of an id.
abbrev pub says : String → Entry → Verdict
says k (Entry.upsert r) = if r.id == k then there r else silent
says k (Entry.delete i) = if i == k then gone else silent
says k Entry.unreadable = silent

unfoldable pub last_word : String → List Entry → Verdict
last_word k [] = silent
last_word k (e ∷ es) = or_before (last_word k es) (says k e)

abbrev pub resolved : Verdict → Option VectorRecord → Option VectorRecord
resolved silent base = base
resolved gone base = none
resolved (there r) base = some r

abbrev pub entombed : Verdict → Bool → Bool
entombed silent before = before
entombed gone before = true
entombed (there _) before = false

pub contains-append :
    (k : String) (xs ys : List String) → contains k (xs ++ ys) ≡ contains k xs || contains k ys
contains-append k [] ys = refl
contains-append k (x ∷ xs) ys = ground (arith, contains-append k xs ys)

pub contains-add_id :
    (k i : String) (ids : List String)
    → contains k (add_id i ids) ≡ (if i == k then true else contains k ids)
contains-add_id k i ids = elim (Bool-cases (contains i ids)) [
  | inl known ↦ rw known (same (String-cases i k) known)
  | inr new ↦ rw new (ground (arith, eq_iff i k, eq_iff k i, contains-append k ids (i ∷ [])))
]
  where
    same :
        (i ≡ k) ⊎ ((i == k) ≡ false)
        → contains i ids ≡ true
        → contains k ids ≡ (if i == k then true else contains k ids)
    same (inl eq) known = rw (eq, eq_refl k) (subst (λ x. contains x ids ≡ true) eq known)
    same (inr other) known = rw other refl

pub contains-discard_id :
    (k i : String) (ids : List String)
    → contains k (discard_id i ids) ≡ (if i == k then false else contains k ids)
contains-discard_id k i [] = ground arith
contains-discard_id k i (j ∷ ids) =
    ground (arith, contains-discard_id k i ids, eq_iff j i, eq_iff k j, eq_iff i k)

replay-lookup :
    (k : String) (es : List Entry) (d : Dict VectorRecord) (ids : List String)
    → lookup k (replay es d ids).0 ≡ resolved (last_word k es) (lookup k d)
unfolding replay last_word
replay-lookup k [] d ids = refl
replay-lookup k (Entry.upsert r ∷ es) d ids =
    ground
      (arith, replay-lookup k es (insert r.id r d) (discard_id r.id ids), lookup-insert r.id k r d)
replay-lookup k (Entry.delete i ∷ es) d ids =
    ground (arith, replay-lookup k es (erase i d) (add_id i ids), lookup-erase i k d)
replay-lookup k (Entry.unreadable ∷ es) d ids = ground (arith, replay-lookup k es d ids)

replay-contains :
    (k : String) (es : List Entry) (d : Dict VectorRecord) (ids : List String)
    → contains k (replay es d ids).1 ≡ entombed (last_word k es) (contains k ids)
unfolding replay last_word
replay-contains k [] d ids = refl
replay-contains k (Entry.upsert r ∷ es) d ids = ground (
  arith,
  replay-contains k es (insert r.id r d) (discard_id r.id ids),
  contains-discard_id k r.id ids,
)
replay-contains k (Entry.delete i ∷ es) d ids =
    ground (arith, replay-contains k es (erase i d) (add_id i ids), contains-add_id k i ids)
replay-contains k (Entry.unreadable ∷ es) d ids = ground (arith, replay-contains k es d ids)

-- Replaying the log over the SSTables gives each id what its last entry says, and what the tables
-- have where no entry names it; an id has a tombstone exactly when its last entry is a delete, and
-- then no record.
pub replay-resolved :
    (es : List Entry) (sstable : Dict VectorRecord) (k : String)
    → let out = replay es sstable [] in
      (lookup k out.0 ≡ resolved (last_word k es) (lookup k sstable))
      × (contains k out.1 ≡ entombed (last_word k es) false)
      × (contains k out.1 ≡ true → lookup k out.0 ≡ none)
replay-resolved es sstable k =
    let records = replay-lookup k es sstable [] in
    let ids = replay-contains k es sstable [] in
    (records, ids, λ dead. apart (last_word k es) (lookup k sstable) records (sym ids ∙ dead))
  where
    apart :
        (v : Verdict) (base : Option VectorRecord) {o : Option VectorRecord}
        → o ≡ resolved v base
        → entombed v false ≡ true
        → o ≡ none
    apart silent base h dead = cc
    apart gone base h dead = h
    apart (there r) base h dead = cc
