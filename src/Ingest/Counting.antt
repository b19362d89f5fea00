-- ===== src/Ingest/Counting.antt =====
-- The loop of an upsert: every record of the request is counted once.
use mathlib.Core.Path.{subst}
use vsector.Base.{
  String, ℕ, ◌+◌, ◌≡◌, refl, ◌∙◌, Bool, Option, List, [], ◌∷◌, arith, length, length-append,
}
use vsector.Dict.{Dict}
use vsector.Exec.{Done, Result, ok, err, Exec, modify}
use vsector.Exec.Ends.{
  Ends, Ends-pure, Ends-bind, Ends-bind-lift, Ends-bind-gets, Ends-bind-modify, Ends-try_except,
}
use vsector.Shard.{Shard}
use vsector.Index.{Index}
use vsector.Storage.{VectorRecord}
use vsector.Transfer.{Root}
use vsector.Ingest.{Namespace, Service}
use vsector.Ingest.Upserts.{
  RawRecord, Batch, empty_batch, Progress, Keeping, on_service, upsert_record, upsert_one,
  upsert_all, run_batch,
}

-- The records that were counted.
abbrev pub total : Batch → ℕ
total b = length b.upserted + length b.errors

on_service-total :
    {Idx A : Type 0} (m : Exec (Service Idx) A) (p : Progress Idx)
    → Ends (on_service m) p (λ x. total x.1.batch ≡ total p.batch)
unfolding on_service
on_service-total m p = record { outcome = refl }

-- A loop that does not raise and counts `n` records.
abbrev Counts : {Idx : Type 0} → ℕ → Result Done × Progress Idx → Type 0
Counts n (err e, q) = ⊥
Counts n (ok _, q) = total q.batch ≡ n

-- What the loop of a request gives.
abbrev pub Ran : {Idx : Type 0} → ℕ → Keeping Idx → Result Batch × Keeping Idx → Type 0
Ran n i (err e, t) = ⊥
Ran n i (ok b, t) = (total b ≡ n) × (t.idempotency ≡ i.idempotency)

module _ {Idx Number : Type 0} (index : Index Idx) (new_index : String → Idx)
    (disk : String → String → Root) (base_dir : String) (metadata : Dict Namespace)
    (hash : String → ℕ) (sha256 : String → String) (cache_ttl : ℕ) (membership : Bool)
    (node_id : Option String) (to_record : String → RawRecord Number → Result VectorRecord)
    (table_name : ℕ → String) (new_ids : Shard → String × String) (compacts : Result Done) where
  upsert_record-total :
      (namespace : String) (ns : Namespace) (raw : RawRecord Number) (p : Progress Idx)
      → Ends
          (upsert_record index new_index disk base_dir metadata hash sha256 cache_ttl membership
            node_id to_record table_name new_ids compacts namespace ns raw)
          p
          (λ x. total x.1.batch ≡ total p.batch)
  unfolding upsert_record
  upsert_record-total namespace ns raw p =
      Ends-bind-lift _ _ p (λ e h. refl)
        (λ vec h.
          Ends-bind-lift _ _ p (λ e h. refl)
            (λ rec h.
              Ends-bind _ _ p (on_service-total _ p) (λ e q k. k)
                (λ s q k.
                  Ends-bind _ _ q (on_service-total _ q) (λ e r l. l ∙ k)
                    (λ h r l. Ends-bind-modify _ _ r (
                      Ends-bind-gets _ _ _ (
                        Ends-bind _ _ _ (on_service-total _ _) (λ e u m. m ∙ l ∙ k)
                          (λ repl u m. Ends-bind-modify _ _ u (
                            Ends-bind _ _ _ (on_service-total _ _) (λ e v n. n ∙ m ∙ l ∙ k)
                              (λ halves v n. Ends-pure _ v (n ∙ m ∙ l ∙ k))))))))))

  upsert_one-Counts :
      (namespace : String) (ns : Namespace) (raw : RawRecord Number) (p : Progress Idx)
      → Ends
          (upsert_one index new_index disk base_dir metadata hash sha256 cache_ttl membership
            node_id to_record table_name new_ids compacts namespace ns raw)
          p
          (Counts (total p.batch + 1))
  unfolding upsert_one modify
  upsert_one-Counts namespace ns raw p =
      Ends-try_except _ _ _ p (upsert_record-total namespace ns raw p)
        (λ e q k. record {
          outcome = omega (arith, k, length-append q.batch.errors ((raw.id, e) ∷ []));
        })
        (λ id q k. record { outcome = omega (arith, k, length-append q.batch.upserted (id ∷ [])) })

  upsert_all-Counts :
      (namespace : String) (ns : Namespace) (records : List (RawRecord Number)) (p : Progress Idx)
      → Ends
          (upsert_all index new_index disk base_dir metadata hash sha256 cache_ttl membership
            node_id to_record table_name new_ids compacts namespace ns records)
          p
          (Counts (total p.batch + length records))
  unfolding upsert_all
  upsert_all-Counts namespace ns [] p = Ends-pure _ p (omega arith)
  upsert_all-Counts namespace ns (raw ∷ records) p =
      Ends-bind _ _ p (upsert_one-Counts namespace ns raw p) (λ e q bad. absurd bad)
        (λ u q one.
          subst
            (λ n.
              Ends
                (upsert_all index new_index disk base_dir metadata hash sha256 cache_ttl membership
                  node_id to_record table_name new_ids compacts namespace ns records)
                q (Counts n))
            (more p.batch q.batch one) (upsert_all-Counts namespace ns records q))
    where
      more :
          (b c : Batch)
          → total c ≡ total b + 1
          → total c + length records ≡ total b + length (raw ∷ records)
      more b c h = omega arith

  pub run_batch-Ran :
      (namespace : String) (ns : Namespace) (records : List (RawRecord Number)) (i : Keeping Idx)
      → Ends
          (run_batch index new_index disk base_dir metadata hash sha256 cache_ttl membership node_id
            to_record table_name new_ids compacts namespace ns records)
          i
          (Ran (length records) i)
  unfolding run_batch
  run_batch-Ran namespace ns records i = record {
    outcome = go _ (upsert_all-Counts namespace ns records start).outcome;
  }
    where
      start : Progress Idx
      start = record { service = i.service; batch = empty_batch }

      go :
          (x : Result Done × Progress Idx)
          → Counts (total empty_batch + length records) x
          → Ran (length records) i (ok x.1.batch, record i { service = x.1.service })
      go (ok u, q) h = (omega (arith, h), refl)
      go (err e, q) bad = absurd bad
