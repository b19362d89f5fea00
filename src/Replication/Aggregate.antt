-- ===== src/Replication/Aggregate.antt =====
-- `aggregate_replication` (vsector/sharding/replication.py): the results of the records of one
-- request as one summary. A sorted set of texts is a list in the order of `compare`.
use Prim.Native.Nat.{Ordering}
use Prim.Native.String.{compare}
use vsector.Base.{
  String, ℕ, ◌≡◌, ◌↔◌, refl, Bool, true, false, not, List, [], ◌∷◌, ◌++◌, ◌&&◌, ◌||◌, arith, eq_iff,
  all_of, any_of, length, Among, ◌⊎◌,
}
use vsector.Replication.{ReplicationResult, is_empty}

abbrev placed : Ordering → String → String → List String → List String → List String
placed Ordering.lt s x xs rest = s ∷ x ∷ xs
placed Ordering.eq s x xs rest = x ∷ xs
placed Ordering.gt s x xs rest = x ∷ rest

unfoldable pub insert_sorted : String → List String → List String
insert_sorted s [] = s ∷ []
insert_sorted s (x ∷ xs) = placed (compare s x) s x xs (insert_sorted s xs)

-- `sorted(set(..))`
unfoldable pub sorted_set : List String → List String
unfolding insert_sorted
sorted_set [] = []
sorted_set (x ∷ xs) = insert_sorted x (sorted_set xs)

-- `[r for res in results for r in f(res)]`
abbrev pub collect : (ReplicationResult → List String) → List ReplicationResult → List String
collect f [] = []
collect f (res ∷ results) = f res ++ collect f results

pub record Summary : Type 0 where
  pub success : Bool
  pub degraded : Bool
  pub attempted : ℕ
  pub acknowledged : ℕ
  pub required_acks : ℕ
  pub failed_replicas : List String

unfoldable pub aggregate_replication : List ReplicationResult → ℕ → Summary
unfolding sorted_set
aggregate_replication results required_acks = record {
  success = not (is_empty results) && all_of (λ (res : ReplicationResult). res.success) results;
  degraded = any_of (λ (res : ReplicationResult). res.degraded || not res.success) results;
  attempted = length (sorted_set (collect ReplicationResult.attempted_replicas results));
  acknowledged = length (sorted_set (collect ReplicationResult.acknowledged_replicas results));
  required_acks = required_acks;
  failed_replicas = sorted_set (collect ReplicationResult.failed_replicas results);
}

insert_sorted-Among :
    (n s : String) (xs : List String) → Among n (insert_sorted s xs) ↔ ((n ≡ s) ⊎ Among n xs)
unfolding insert_sorted
insert_sorted-Among n s [] = (λ h. h, λ h. h)
insert_sorted-Among n s (x ∷ xs) = ground (arith, insert_sorted-Among n s xs, eq_iff s x)

sorted_set-Among : (n : String) (xs : List String) → Among n (sorted_set xs) ↔ Among n xs
unfolding sorted_set
sorted_set-Among n [] = (λ h. h, λ h. h)
sorted_set-Among n (x ∷ xs) =
    ground (arith, insert_sorted-Among n x (sorted_set xs), sorted_set-Among n xs)

-- `n` failed in one of the results.
abbrev pub FailedIn : String → List ReplicationResult → Type 0
FailedIn n [] = ⊥
FailedIn n (res ∷ results) = Among n res.failed_replicas ⊎ FailedIn n results

Among-append : (n : String) (xs ys : List String) → Among n (xs ++ ys) ↔ (Among n xs ⊎ Among n ys)
Among-append n [] ys = ground arith
Among-append n (x ∷ xs) ys = ground (arith, Among-append n xs ys)

collect-FailedIn :
    (n : String) (results : List ReplicationResult)
    → Among n (collect ReplicationResult.failed_replicas results) ↔ FailedIn n results
collect-FailedIn n [] = (λ h. h, λ h. h)
collect-FailedIn n (res ∷ results) = ground (
  arith,
  Among-append n res.failed_replicas (collect ReplicationResult.failed_replicas results),
  collect-FailedIn n results,
)

undegraded :
    (results : List ReplicationResult)
    → any_of (λ (res : ReplicationResult). res.degraded || not res.success) results ≡ false
    → all_of (λ (res : ReplicationResult). res.success) results ≡ true
undegraded [] h = refl
undegraded (res ∷ results) h = ground (arith, undegraded results)

-- The summary lists as failed exactly the nodes that some result lists, and a request with results
-- is a success where it is not degraded.
pub aggregate_replication-FailedIn :
    (results : List ReplicationResult) (required_acks : ℕ)
    → let summary = aggregate_replication results required_acks in
      ((n : String) → Among n summary.failed_replicas ↔ FailedIn n results)
      × (summary.degraded ≡ false → is_empty results ≡ false → summary.success ≡ true)
unfolding aggregate_replication
aggregate_replication-FailedIn results required_acks = (
  λ n. (
    λ h. (collect-FailedIn n results).0 ((sorted_set-Among n _).0 h),
    λ h. (sorted_set-Among n _).1 ((collect-FailedIn n results).1 h),
  ),
  λ d e. ground (arith, undegraded results d),
)
