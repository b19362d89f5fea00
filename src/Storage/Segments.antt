-- ===== src/Storage/Segments.antt =====
-- The log in segments (`WAL` of vsector/storage/wal.py): rotation, and the opening at segment 0. The
-- files of a directory are the list of their entries in the order of their names. `size` is how many
-- bytes an entry takes with its header. The flush of the group commit is `flush` at another time;
-- the removal of old segments is not modelled. `Flat` has the log as the one list of entries that
-- vsector.Storage works on.
pub mod Agreement
pub mod Flat
mod Examples
use Prim.Native.Nat.{zero, suc}
use vsector.Base.{ℕ, ◌+◌, List, [], ◌∷◌, ◌++◌, ltb, length, if◌then◌else◌}
use vsector.Storage.{Entry}

pub record Segments : Type 0 where
  pub segment_bytes : ℕ
  pub files : List (List Entry)
  pub segment_id : ℕ
  pub segment_written : ℕ
  pub buffer : List Entry

abbrev pub file : ℕ → List (List Entry) → List Entry
file n [] = []
file zero (f ∷ fs) = f
file (suc n) (f ∷ fs) = file n fs

-- `open(path, "ab")`, which creates a file that is not there: the next one
abbrev pub created : ℕ → List (List Entry) → List (List Entry)
created n fs = if ltb n (length fs) then fs else fs ++ ([] ∷ [])

-- A write at the end of a file.
abbrev pub written_to : ℕ → Entry → List (List Entry) → List (List Entry)
written_to n e [] = []
written_to zero e (f ∷ fs) = (f ++ (e ∷ [])) ∷ fs
written_to (suc n) e (f ∷ fs) = f ∷ written_to n e fs

-- The entries of all files, in the order of the names.
abbrev pub all_entries : List (List Entry) → List Entry
all_entries [] = []
all_entries (f ∷ fs) = f ++ all_entries fs

abbrev pub append : Entry → Segments → Segments
append e w = record w { buffer = w.buffer ++ (e ∷ []) }

module _ (size : Entry → ℕ) where
  abbrev pub total : List Entry → ℕ
  total [] = 0
  total (e ∷ es) = size e + total es

  -- `_open_segment`
  unfoldable pub open_segment : ℕ → Segments → Segments
  open_segment n w =
      let files = created n w.files in
      record w { files = files; segment_id = n; segment_written = total (file n files) }

  -- `WAL(dir)`
  unfoldable pub open_wal : ℕ → List (List Entry) → Segments
  unfolding open_segment
  open_wal segment_bytes files = open_segment 0 (record {
    segment_bytes = segment_bytes;
    files = files;
    segment_id = 0;
    segment_written = 0;
    buffer = [];
  })

  unfoldable pub rotate_if_needed : ℕ → Segments → Segments
  unfolding open_segment
  rotate_if_needed entry_size w =
      if ltb w.segment_bytes (w.segment_written + entry_size)
      then open_segment (w.segment_id + 1) w
      else w

  abbrev pub put_entry : Entry → Segments → Segments
  put_entry e w = record w {
    files = written_to w.segment_id e w.files;
    segment_written = w.segment_written + size e;
  }

  -- One entry of `_flush_batch`.
  unfoldable pub write : Entry → Segments → Segments
  unfolding rotate_if_needed
  write e w = put_entry e (rotate_if_needed (size e) w)

  unfoldable pub flush_batch : List Entry → Segments → Segments
  unfolding write
  flush_batch [] w = w
  flush_batch (e ∷ es) w = flush_batch es (write e w)

  unfoldable pub flush : Segments → Segments
  unfolding flush_batch
  flush w = flush_batch w.buffer (record w { buffer = [] })

  unfoldable pub read_all : Segments → List Entry × Segments
  unfolding flush
  read_all w = let u = flush w in (all_entries u.files, u)
