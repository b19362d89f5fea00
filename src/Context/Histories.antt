-- ===== src/Context/Histories.antt =====
-- The histories of a shard's state: what the primary and the replicas do, and restarts.
use mathlib.Core.Path.{subst}
use vsector.Base.{
  String, Bool, ◌↔◌, arith, eq_iff, ◌≡◌, refl, sym, ap, ◌∙◌, true, false, Option, none, some, [],
  ◌==◌, if◌then◌else◌, contains, Bool-cases, inl, inr, ◌⊎◌, first_some,
}
use vsector.Dict.{erase_absent}
use vsector.Index.{Index}
use vsector.Storage.{VectorRecord}
use vsector.Context.{
  ShardContext, get, visible, local_upsert, local_delete, flush_wal, apply_replicated_upsert,
  apply_replicated_delete, is_applied,
}
use vsector.Context.Sound.{
  Alike, IsSound, local_upsert-IsSound, flush_wal-IsSound, flush_wal-visible, deleted,
  deleted-IsSound,
}

pub Alike-refl : (o : Option VectorRecord) → Alike o o
Alike-refl none = tt
Alike-refl (some r) = (refl, refl)

pub Alike-join :
    (a b : Option VectorRecord) (r : VectorRecord) → Alike a (some r) → Alike b (some r) → Alike a b
Alike-join none b r h k = absurd h
Alike-join (some a) none r h k = absurd k
Alike-join (some a) (some b) r h k = (h.0 ∙ sym k.0, h.1 ∙ sym k.1)

flushed_buffer :
    {Idx : Type 0} (index : Index Idx) (c : ShardContext Idx) → (flush_wal index c).wal.buffer ≡ []
unfolding flush_wal
flushed_buffer index c = refl

-- The store holds a record with the version and the checksum of `r`.
abbrev pub Holds : VectorRecord → Option VectorRecord → Type 0
Holds r none = ⊥
Holds r (some existing) = (existing.version ≡ r.version) × (existing.checksum ≡ r.checksum)

is_applied-Holds :
    (o : Option VectorRecord) (r : VectorRecord) → (is_applied o r ≡ true) ↔ Holds r o
is_applied-Holds none r = ground arith
is_applied-Holds (some existing) r = ground (arith, eq_iff existing.checksum r.checksum)

-- How a replica has applied an upsert. Where its store holds a record of the id with that version
-- and checksum, nothing changes; where it holds none, it shows the record now, every other id is as
-- it was, and its log is flushed.
abbrev pub Applied : {Idx : Type 0} → VectorRecord → ShardContext Idx → ShardContext Idx → Type 0
Applied r c d =
    (Holds r (get r.id c.segments) × (d ≡ c))
    ⊎ ((Holds r (get r.id c.segments) → ⊥)
        × ((k : String) → visible k d ≡ (if r.id == k then some r else visible k c))
        × (d.wal.buffer ≡ []))

module _ {Idx : Type 0} (index : Index Idx) where
  local_delete-deleted :
      (k : String) (c : ShardContext Idx) → local_delete index k c ≡ deleted index k c
  unfolding local_delete get
  local_delete-deleted k c = go (get k c.segments) refl
    where
      nothing : (o p : Option VectorRecord) → first_some o p ≡ none → o ≡ none
      nothing none p h = refl
      nothing (some a) p h = cc

      go :
          (o : Option VectorRecord)
          → get k c.segments ≡ o
          → local_delete index k c ≡ deleted index k c
      go none at_o = rw at_o (
          ap (λ m. record (deleted index k c) { segments = record c.segments { memtable = m } })
            (sym (erase_absent k c.segments.memtable (nothing _ _ at_o))))
      go (some r) at_o = rw at_o refl

  -- `local_delete` and `apply_replicated_delete`, like the deletes that they are, hide the id and
  -- leave the others.
  pub local_delete-IsSound :
      (k : String) (c : ShardContext Idx)
      → (k == "") ≡ false
      → IsSound index c
      → ((j : String) → visible j (local_delete index k c) ≡ (if k == j then none else visible j c))
        × IsSound index (local_delete index k c)
  local_delete-IsSound k c named sound =
      subst
        (λ d.
          ((j : String) → visible j d ≡ (if k == j then none else visible j c)) × IsSound index d)
        (sym (local_delete-deleted k c)) (deleted-IsSound index k c named sound)

  -- A replica that applies a delete hides the id and leaves the others, its log is flushed, and it
  -- stays sound. The state is sound before, and the id is not empty.
  pub apply_replicated_delete-hides :
      (k : String) (c : ShardContext Idx)
      → (k == "") ≡ false
      → IsSound index c
      → let d = apply_replicated_delete index k c in
        ((j : String) → visible j d ≡ (if k == j then none else visible j c))
        × (d.wal.buffer ≡ [])
        × IsSound index d
  unfolding apply_replicated_delete flush_wal
  apply_replicated_delete-hides k c named sound =
      let (sees, after) = deleted-IsSound index k c named sound in
      (
        λ j. flush_wal-visible index j (deleted index k c) ∙ sees j,
        refl,
        flush_wal-IsSound index (deleted index k c) after,
      )

  -- A replica that applies an upsert stays sound. Where its store holds a record of the id with the
  -- version and checksum of the new one, hidden by a tombstone or not and whatever its metadata,
  -- nothing changes; where it does not, the replica shows the new record, every other id is as it
  -- was, and its log is flushed. The state is sound before, and the name that a flush would take is
  -- new.
  pub apply_replicated_upsert-Applied :
      (name : String) (r : VectorRecord) (c : ShardContext Idx)
      → contains name c.segments.sstables ≡ false
      → IsSound index c
      → let d = apply_replicated_upsert index name r c in Applied r c d × IsSound index d
  unfolding apply_replicated_upsert
  apply_replicated_upsert-Applied name r c fresh sound =
      either (Bool-cases (is_applied (get r.id c.segments) r))
    where
      d : ShardContext Idx
      d = local_upsert index name r c

      apart : {b : Bool} → b ≡ true → b ≡ false → ⊥
      apart h i = cc

      either :
          (is_applied (get r.id c.segments) r ≡ true) ⊎ (is_applied (get r.id c.segments) r ≡ false)
          → Applied r c (apply_replicated_upsert index name r c)
            × IsSound index (apply_replicated_upsert index name r c)
      either (inl has) =
          rw has (inl ((is_applied-Holds (get r.id c.segments) r).0 has, refl), sound)
      either (inr lacks) =
          let (sees, after) = local_upsert-IsSound index name r c fresh sound in
          rw lacks (
            inr (
              λ holds. apart ((is_applied-Holds (get r.id c.segments) r).1 holds) lacks,
              λ k. flush_wal-visible index k d ∙ sees k,
              flushed_buffer index d,
            ),
            flush_wal-IsSound index d after,
          )
