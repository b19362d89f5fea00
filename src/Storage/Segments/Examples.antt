-- ===== src/Storage/Segments/Examples.antt =====
-- A log that is opened again in one segment, and one that is opened again in two.
use vsector.Base.{ℕ, ◌≡◌, refl, List, [], ◌∷◌}
use vsector.Storage
use vsector.Storage.{Entry}
use vsector.Storage.Segments.{
  flush, flush_batch, write, rotate_if_needed, open_segment, open_wal, read_all,
}
use vsector.Storage.Segments.Flat.{LogEvent, appends, flushes, reopens, happens, run}

-- The bytes of an entry.
abbrev size : Entry → ℕ
size (Entry.upsert _) = 10
size (Entry.delete _) = 3
size Entry.unreadable = 10

abbrev first : Entry
first = Entry.upsert (record { id = "a"; version = 1; checksum = "c"; body = "" })

abbrev events : List LogEvent
events =
    appends first ∷ flushes ∷ reopens ∷ appends first ∷ appends (Entry.delete "a") ∷ flushes ∷ []

-- After a rotation and a restart, a delete is written before the record that it deletes.
out_of_order :
    (read_all size (
      run size
        (appends (Entry.unreadable)
          ∷ appends first
          ∷ flushes
          ∷ reopens
          ∷ appends (Entry.delete "a")
          ∷ [])
        (open_wal size 15 []))).0
    ≡ Entry.unreadable ∷ Entry.delete "a" ∷ first ∷ []
unfolding read_all run happens flush flush_batch write rotate_if_needed open_wal open_segment
out_of_order = refl
