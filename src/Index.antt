-- ===== src/Index.antt =====
-- What a shard asks of its index, the flat index (vsector/index/flat.py) without its search, and the
-- counters of `IndexLifecycleManager` (vsector/index/lifecycle.py). The parallel lists of the flat
-- index are one list of entries; the fragmentation, which nothing sets, stays at zero.

use vsector.Base.{
  String, ℕ, ◌+◌, ◌-◌, ◌*◌, ◌≡◌, refl, Bool, true, false, not, List, [], ◌∷◌, ◌++◌, ◌==◌, ◌||◌,
  ◌&&◌, ltb, eqb, arith, eq_iff, if◌then◌else◌, select, any_of,
}
use vsector.Exec.{Done, Result, ok, err}
use vsector.Storage.{VectorRecord}

-- The calls of an index that change it, and whether it has an id.
pub record Index (Idx : Type 0) : Type 0 where
  pub add : String → VectorRecord → Idx → Idx
  pub delete : String → Idx → Idx
  pub has : String → Idx → Bool
  pub has_add :
      (i k : String) (r : VectorRecord) (x : Idx)
      → has k (add i r x) ≡ (if i == k then true else has k x)
  pub has_delete :
      (i k : String) (x : Idx) → has k (delete i x) ≡ (if i == k then false else has k x)

abbrev pub FlatIndex : Type 0
FlatIndex = List (String × VectorRecord)

unfoldable pub flat_add : String → VectorRecord → FlatIndex → FlatIndex
flat_add i r x = x ++ ((i, r) ∷ [])

unfoldable pub flat_delete : String → FlatIndex → FlatIndex
flat_delete i x = select (λ (e : String × VectorRecord). not (e.0 == i)) x

abbrev pub flat_has : String → FlatIndex → Bool
flat_has k x = any_of (λ (e : String × VectorRecord). e.0 == k) x

pub flat_has-flat_add :
    (i k : String) (r : VectorRecord) (x : FlatIndex)
    → flat_has k (flat_add i r x) ≡ (if i == k then true else flat_has k x)
unfolding flat_add
flat_has-flat_add i k r [] = refl
flat_has-flat_add i k r ((j, s) ∷ x) = ground (arith, flat_has-flat_add i k r x)

pub flat_has-flat_delete :
    (i k : String) (x : FlatIndex)
    → flat_has k (flat_delete i x) ≡ (if i == k then false else flat_has k x)
unfolding flat_delete
flat_has-flat_delete i k [] = ground arith
flat_has-flat_delete i k ((j, s) ∷ x) =
    ground (arith, flat_has-flat_delete i k x, eq_iff j i, eq_iff j k, eq_iff i k)

abbrev pub flat_index : Index FlatIndex
flat_index = record {
  add = flat_add;
  delete = flat_delete;
  has = flat_has;
  has_add = flat_has-flat_add;
  has_delete = flat_has-flat_delete;
}

pub data IndexState : Type 0 where
  building ready degraded compacting : IndexState

pub record IndexLifecycle : Type 0 where
  pub state : IndexState
  pub delete_count : ℕ
  pub total_count : ℕ
  pub last_compaction : ℕ

abbrev pub notify_write : IndexLifecycle → IndexLifecycle
notify_write l = record l { total_count = l.total_count + 1 }

abbrev pub notify_delete : IndexLifecycle → IndexLifecycle
notify_delete l = record l { delete_count = l.delete_count + 1; total_count = l.total_count - 1 }

abbrev pub mark_ready : IndexLifecycle → IndexLifecycle
mark_ready l = record l { state = IndexState.ready }

-- `should_compact` with the default thresholds: a tenth deleted, or six hours passed
unfoldable pub should_compact : ℕ → IndexLifecycle → Bool
should_compact now l =
    if eqb l.total_count 0
    then false
    else ltb (l.total_count + l.delete_count) (10 * l.delete_count)
      || ltb (l.last_compaction + 6 * 3600) now

abbrev is_ready : IndexState → Bool
is_ready IndexState.ready = true
is_ready _ = false

-- `maybe_compact`, where `compacts` is how the index's own compaction ends; the state is COMPACTING
-- only while that runs.
unfoldable pub maybe_compact : Result Done → ℕ → IndexLifecycle → Result Done × IndexLifecycle
unfolding should_compact
maybe_compact compacts now l =
    if should_compact now l && is_ready l.state
    then (elim compacts [
      | ok _ ↦
          (ok tt, record l { state = IndexState.ready; delete_count = 0; last_compaction = now })
      | err e ↦ (err e, record l { state = IndexState.ready })
    ])
    else (ok tt, l)
