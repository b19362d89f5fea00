-- ===== src/Storage/Segments/Flat.antt =====
-- Runs of the log in segments against the log as one list of entries (vsector/storage/wal.py).
use vsector.Base.{ℕ, ◌≤◌, List, [], ◌∷◌}
use vsector.Storage
use vsector.Storage.{Entry, Wal, flush_log}
use vsector.Storage.Segments.{Segments, total, open_wal, append, flush}

-- What happens to a log: an entry is appended, the buffer is flushed, or the process ends without a
-- flush and the directory is opened again.
pub data LogEvent : Type 0 where
  appends : Entry → LogEvent
  flushes reopens : LogEvent

unfoldable pub happens_flat : LogEvent → Wal → Wal
unfolding flush_log
happens_flat (appends e) v = Storage.append e v
happens_flat flushes v = flush_log v
happens_flat reopens v = record v { buffer = [] }

unfoldable pub run_flat : List LogEvent → Wal → Wal
unfolding happens_flat
run_flat [] v = v
run_flat (e ∷ es) v = run_flat es (happens_flat e v)

module _ (size : Entry → ℕ) where
  unfoldable pub happens : LogEvent → Segments → Segments
  unfolding flush open_wal
  happens (appends e) w = append e w
  happens flushes w = flush size w
  happens reopens w = open_wal size w.segment_bytes w.files

  unfoldable pub run : List LogEvent → Segments → Segments
  unfolding happens
  run [] w = w
  run (e ∷ es) w = run es (happens e w)

  -- Whenever the directory is opened again, all that is written fits in one segment.
  unfoldable pub ReopensInOne : ℕ → List LogEvent → Wal → Type 0
  unfolding happens_flat
  ReopensInOne bytes [] v = Unit
  ReopensInOne bytes (reopens ∷ es) v =
      (total size v.written ≤ bytes) × ReopensInOne bytes es (happens_flat reopens v)
  ReopensInOne bytes (e ∷ es) v = ReopensInOne bytes es (happens_flat e v)
