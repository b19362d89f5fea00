-- ===== src/Ingest/Accounting.antt =====
-- What an upsert answers: every record of the request is counted once, and a request that is
-- repeated with its key gets the answer that was given.
use mathlib.Core.Path.{subst}
use vsector.Base.{
  String, ℕ, ◌+◌, ◌≡◌, refl, sym, ap, ◌∙◌, Bool, true, Option, none, some, List, [], ◌∷◌, length,
}
use vsector.Dict.{Dict}
use vsector.Errors.{Error}
use vsector.Exec.{Done, Result, ok, err, Exec, pure, ◌>>=◌}
use vsector.Exec.Ends.{Ends, Ends-pure, Ends-bind, Ends-bind-lift, Ends-bind-gets, Ends-bind-modify}
use vsector.Shard.{Shard}
use vsector.Index.{Index}
use vsector.Storage.{VectorRecord}
use vsector.Transfer.{Root}
use vsector.Replication.{is_empty}
use vsector.Replication.Aggregate.{Summary}
use vsector.Ingest.{Namespace, Service}
use vsector.Ingest.Upserts.{
  RawRecord, UpsertResult, Keeping, on_kept, stored, stored_or, keep, without_success, upsert_new,
  upsert_result, upsert,
}
use vsector.Ingest.Keys.{IsKey, Event, request, work, after, stored-keep, stored-keep_other}
use vsector.Ingest.Counting.{run_batch-Ran}

on_kept-idempotency :
    {Idx A : Type 0} (m : Exec (Service Idx) A) (i : Keeping Idx)
    → Ends (on_kept m) i (λ x. x.1.idempotency ≡ i.idempotency)
unfolding on_kept
on_kept-idempotency m i = record { outcome = refl }

-- The answer to `n` records: each is an id or an error, and a success has no errors.
abbrev pub Answers : ℕ → UpsertResult → Type 0
Answers n r =
    (r.upserted + length r.errors ≡ n)
    × (r.upserted ≡ length r.ids)
    × (r.replication.success ≡ true → r.errors ≡ [])

-- A request that had no answer yet.
abbrev Anew :
    {Idx : Type 0} → ℕ → Option String → Keeping Idx → Result UpsertResult × Keeping Idx → Type 0
Anew n key i (err e, t) = t.idempotency ≡ i.idempotency
Anew n key i (ok r, t) = Answers n r × (t.idempotency ≡ keep key r i.idempotency)

-- What `upsert` does with a request, by whether its key has an answer.
abbrev pub Outcome :
    {Idx Number : Type 0}
    → (String → List (RawRecord Number) → Option String → Exec (Keeping Idx) UpsertResult)
    → List (RawRecord Number)
    → Option String
    → Keeping Idx
    → Option UpsertResult
    → Result UpsertResult × Keeping Idx
    → Type 0
Outcome upsert records key i (some kept) (r, t) = (r ≡ ok kept) × (t ≡ i)
Outcome upsert records key i none (err e, t) = t.idempotency ≡ i.idempotency
Outcome {Idx = Idx} {Number = Number} upsert records key i none (ok r, t) =
    Answers (length records) r
    × (IsKey key
        → (events : List (Event Idx Number)) (namespace : String) (again : List (RawRecord Number))
        → let u = after upsert events t in upsert namespace again key u ≡ (ok r, u))

without_success-clean :
    (errors : List (Option String × Error)) (summary : Summary)
    → (without_success (is_empty errors) summary).success ≡ true
    → errors ≡ []
without_success-clean [] summary h = refl
without_success-clean (_ ∷ _) summary h = cc

module _ {Idx Number : Type 0} (index : Index Idx) (new_index : String → Idx)
    (disk : String → String → Root) (base_dir : String) (metadata : Dict Namespace)
    (hash : String → ℕ) (sha256 : String → String) (cache_ttl : ℕ) (membership : Bool)
    (node_id : Option String) (to_record : String → RawRecord Number → Result VectorRecord)
    (table_name : ℕ → String) (new_ids : Shard → String × String) (compacts : Result Done) where
  upsert_new-Anew :
      (namespace : String) (records : List (RawRecord Number)) (key : Option String)
      (i : Keeping Idx)
      → Ends
          (upsert_new index new_index disk base_dir metadata hash sha256 cache_ttl membership
            node_id to_record table_name new_ids compacts namespace records key)
          i
          (Anew (length records) key i)
  upsert_new-Anew namespace records key i =
      Ends-bind-lift _ _ i (λ e h. refl)
        (λ ns h.
          Ends-bind-lift _ _ i (λ e h. refl)
            (λ u h.
              Ends-bind _ _ i
                (run_batch-Ran index new_index disk base_dir metadata hash sha256 cache_ttl
                  membership node_id to_record table_name new_ids compacts namespace ns records i)
                (λ e t bad. absurd bad)
                (λ b t (count, same).
                  Ends-bind _ _ t (on_kept-idempotency _ t) (λ e v k. k ∙ same)
                    (λ u v k.
                      Ends-bind _ _ v (on_kept-idempotency _ v) (λ e w l. l ∙ k ∙ same)
                        (λ u w l. Ends-bind-gets _ _ w (
                          Ends-bind-modify _ _ w (
                            Ends-pure _ _ (
                              (count, refl, without_success-clean b.errors _),
                              ap (keep key (upsert_result namespace ns b w.service)) (l ∙ k ∙ same),
                            ))))))))

  abbrev upsert_of :
      String → List (RawRecord Number) → Option String → Exec (Keeping Idx) UpsertResult
  upsert_of =
      upsert index new_index disk base_dir metadata hash sha256 cache_ttl membership node_id
        to_record table_name new_ids compacts

  answer_kept :
      (namespace : String) (records : List (RawRecord Number)) (key : Option String)
      (i : Keeping Idx) (r : UpsertResult)
      → stored key i.idempotency ≡ some r
      → upsert_of namespace records key i ≡ (ok r, i)
  unfolding upsert ◌>>=◌ pure
  answer_kept namespace records key i r h =
      ap
        (λ o.
          stored_or
            (upsert_new index new_index disk base_dir metadata hash sha256 cache_ttl membership
              node_id to_record table_name new_ids compacts namespace records key)
            o i)
        h

  answer_new :
      (namespace : String) (records : List (RawRecord Number)) (key : Option String)
      (i : Keeping Idx)
      → stored key i.idempotency ≡ none
      → upsert_of namespace records key i
        ≡ upsert_new index new_index disk base_dir metadata hash sha256 cache_ttl membership node_id
            to_record table_name new_ids compacts namespace records key i
  unfolding upsert ◌>>=◌ pure
  answer_new namespace records key i h =
      ap
        (λ o.
          stored_or
            (upsert_new index new_index disk base_dir metadata hash sha256 cache_ttl membership
              node_id to_record table_name new_ids compacts namespace records key)
            o i)
        h

  request_keeps :
      (namespace : String) (records : List (RawRecord Number)) (new key : Option String)
      (i : Keeping Idx) (r : UpsertResult)
      → stored key i.idempotency ≡ some r
      → stored key (upsert_of namespace records new i).1.idempotency ≡ some r
  request_keeps namespace records new key i r h = go (stored new i.idempotency) refl
    where
      anew :
          (x : Result UpsertResult × Keeping Idx)
          → stored new i.idempotency ≡ none
          → Anew (length records) new i x
          → stored key x.1.idempotency ≡ some r
      anew (err e, t) fresh same = ap (stored key) same ∙ h
      anew (ok s, t) fresh (answers, kept) =
          ap (stored key) kept ∙ stored-keep_other key new r s i.idempotency h fresh

      go :
          (o : Option UpsertResult)
          → stored new i.idempotency ≡ o
          → stored key (upsert_of namespace records new i).1.idempotency ≡ some r
      go (some s) at =
          ap (λ (x : Result UpsertResult × Keeping Idx). stored key x.1.idempotency)
            (answer_kept namespace records new i s at)
          ∙ h
      go none at =
          ap (λ (x : Result UpsertResult × Keeping Idx). stored key x.1.idempotency)
            (answer_new namespace records new i at)
          ∙ anew _ at (upsert_new-Anew namespace records new i).outcome

  answer_stays :
      (key : Option String) (r : UpsertResult) (events : List (Event Idx Number)) (i : Keeping Idx)
      → stored key i.idempotency ≡ some r
      → stored key (after upsert_of events i).idempotency ≡ some r
  answer_stays key r [] i h = h
  answer_stays key r (request namespace records new ∷ events) i h =
      answer_stays key r events _ (request_keeps namespace records new key i r h)
  answer_stays key r (work f ∷ events) i h = answer_stays key r events _ h

  -- A request whose key has an answer gets that answer and changes nothing. Another that is
  -- answered counts every record once, as an id or as an error, and is a success only without
  -- errors; where it has a key that is not empty, a request with that key, for any namespace and
  -- records and after any other requests and any work of the service that leaves the kept answers
  -- alone, gets the same answer and changes nothing. One that raises keeps no answer.
  pub upsert-Outcome :
      (namespace : String) (records : List (RawRecord Number)) (key : Option String)
      (i : Keeping Idx)
      → Outcome
          (upsert_of)
          records
          key
          i
          (stored key i.idempotency)
          (upsert_of namespace records key i)
  upsert-Outcome namespace records key i =
      go (stored key i.idempotency) (upsert_of namespace records key i) refl refl
    where
      go :
          (o : Option UpsertResult) (x : Result UpsertResult × Keeping Idx)
          → stored key i.idempotency ≡ o
          → upsert_of namespace records key i ≡ x
          → Outcome upsert_of records key i o x
      go (some kept) x h at =
          let same = sym at ∙ answer_kept namespace records key i kept h in
          (
            ap (λ (y : Result UpsertResult × Keeping Idx). y.0) same,
            ap (λ (y : Result UpsertResult × Keeping Idx). y.1) same,
          )
      go none (err e, t) h at =
          subst (Anew (length records) key i) (sym (answer_new namespace records key i h) ∙ at)
            (upsert_new-Anew namespace records key i).outcome
      go none (ok r, t) h at =
          let (answers, kept) =
            subst (Anew (length records) key i) (sym (answer_new namespace records key i h) ∙ at)
              (upsert_new-Anew namespace records key i).outcome in
          (
            answers,
            λ named events other again. answer_kept other again key (after upsert_of events t) r (
                answer_stays key r events t
                  (ap (stored key) kept ∙ stored-keep key r i.idempotency named)),
          )
