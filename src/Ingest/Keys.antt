-- ===== src/Ingest/Keys.antt =====
-- The answers of `IngestService.upsert` (vsector/ingest/service.py) by idempotency key, and what may
-- come between two requests.
use vsector.Base.{String, ◌≡◌, refl, false, Option, none, some, List, [], ◌∷◌, ◌==◌, arith, eq_iff}
use vsector.Dict.{Dict, lookup-insert, lookup-insert_self}
use vsector.Exec.{Exec}
use vsector.Ingest.{Service}
use vsector.Ingest.Upserts.{RawRecord, UpsertResult, Keeping, stored, keep}

-- A key that is a text with something in it.
abbrev pub IsKey : Option String → Type 0
IsKey none = ⊥
IsKey (some key) = (key == "") ≡ false

pub stored-keep :
    (key : Option String) (r : UpsertResult) (d : Dict UpsertResult)
    → IsKey key
    → stored key (keep key r d) ≡ some r
stored-keep none r d h = absurd h
stored-keep (some key) r d h = rw (h, lookup-insert_self key r d) refl

-- An answer stays where another, under a key that had none, is kept.
pub stored-keep_other :
    (key new : Option String) (r s : UpsertResult) (d : Dict UpsertResult)
    → stored key d ≡ some r
    → stored new d ≡ none
    → stored key (keep new s d) ≡ some r
stored-keep_other none new r s d h fresh = cc
stored-keep_other (some k) none r s d h fresh = h
stored-keep_other (some k) (some n) r s d h fresh =
    ground (arith, lookup-insert n k s d, eq_iff n k)

-- What may happen to the service: a request to upsert, or any other work, which leaves the answers
-- alone.
pub data Event (Idx Number : Type 0) : Type 0 where
  request : String → List (RawRecord Number) → Option String → Event Idx Number
  work : (Service Idx → Service Idx) → Event Idx Number

abbrev pub after :
    {Idx Number : Type 0}
    → (String → List (RawRecord Number) → Option String → Exec (Keeping Idx) UpsertResult)
    → List (Event Idx Number)
    → Keeping Idx
    → Keeping Idx
after upsert [] i = i
after upsert (request namespace records key ∷ events) i =
    after upsert events (upsert namespace records key i).1
after upsert (work f ∷ events) i = after upsert events (record i { service = f i.service })
