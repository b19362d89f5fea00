-- ===== src/Migration/Exclusion.antt =====
-- Two migrations of one shard are never in progress at once, and other facts of the table of
-- migrations that each write keeps.
use mathlib.Core.Path.{subst}
use vsector.Base.{
  String, ◌≡◌, ◌≢◌, sym, ap, ◌∙◌, true, false, none, some, [], ◌∷◌, arith, eq_iff, inl, inr,
  String-cases, ne_of_eq_false,
}
use mathlib.Core.Bool.{false≢true}
use vsector.Dict.{lookup, values, lookup-insert_cases, lookup-insert_self, lookup-insert_ne}
use vsector.Migration.State.{terminal}
use vsector.Migration.Record.{ShardMigration, is_terminal}
use vsector.Migration.Checks.{in_progress}
use vsector.Migration.Writes.{
  SameJob, Table, put_record, Write, created, updated, Writes, written, more,
}
use vsector.Migration.DataSteps.{SameJob-trans}
use vsector.Migration.Operations.{IsKeyed}

-- No two records in progress are for one shard.
pub record IsExclusive (d : Table) : Type 0 where
  pub alone :
      (j k : String) (m n : ShardMigration)
      → lookup j d ≡ some m
      → lookup k d ≡ some n
      → terminal m.state ≡ false
      → terminal n.state ≡ false
      → m.shard_id ≡ n.shard_id
      → j ≡ k

-- The search of `create_migration` sees every record.
in_progress-none :
    (k shard_id : String) (d : Table) (m : ShardMigration)
    → in_progress shard_id (values d) ≡ none
    → lookup k d ≡ some m
    → m.shard_id ≡ shard_id
    → terminal m.state ≡ true
unfolding in_progress is_terminal lookup
in_progress-none k shard_id [] m free found same = cc
in_progress-none k shard_id ((j, n) ∷ d) m free found same =
    ground (arith, in_progress-none k shard_id d m, eq_iff n.shard_id shard_id)

put_record-IsKeyed : (n : ShardMigration) (d : Table) → IsKeyed d → IsKeyed (put_record n d)
put_record-IsKeyed n d h = record {
  own_key = λ k m found. elim (lookup-insert_cases n.migration_id k n d m found) [
    | inl (at_k, same) ↦ sym (ap ShardMigration.migration_id same) ∙ at_k
    | inr (_, old) ↦ h.own_key k m old
  ];
}

pub Write-IsKeyed : {d t : Table} → Write d t → IsKeyed d → IsKeyed t
Write-IsKeyed {d} (created n _ _ _ _) h = put_record-IsKeyed n d h
Write-IsKeyed {d} (updated m n _ _ _ _) h = put_record-IsKeyed n d h

-- A record may be put if whatever is in progress for its shard is the record that it replaces.
put_record-IsExclusive :
    (n : ShardMigration) (d : Table)
    → ((j : String) (x : ShardMigration)
        → lookup j d ≡ some x
        → terminal x.state ≡ false
        → x.shard_id ≡ n.shard_id
        → j ≡ n.migration_id)
    → IsExclusive d
    → IsExclusive (put_record n d)
put_record-IsExclusive n d only h = record {
  alone = λ j k x y at_j at_k live_x live_y same.
      elim (lookup-insert_cases n.migration_id j n d x at_j) [
        | inl (is_j, new_x) ↦ elim (lookup-insert_cases n.migration_id k n d y at_k) [
          | inl (is_k, _) ↦ sym is_j ∙ is_k
          | inr (_, old_y) ↦
              sym (only k y old_y live_y (sym same ∙ sym (ap ShardMigration.shard_id new_x)) ∙ is_j)
        ]
        | inr (_, old_x) ↦ elim (lookup-insert_cases n.migration_id k n d y at_k) [
          | inl (is_k, new_y) ↦
              only j x old_x live_x (same ∙ sym (ap ShardMigration.shard_id new_y)) ∙ is_k
          | inr (_, old_y) ↦ h.alone j k x y old_x old_y live_x live_y same
        ]
      ];
}

pub Write-IsExclusive : {d t : Table} → Write d t → IsExclusive d → IsExclusive t
Write-IsExclusive {d} (created n new free _ _) h =
    put_record-IsExclusive n d
      (λ j x found live same.
        absurd (false≢true (sym live ∙ in_progress-none j n.shard_id d x free found same)))
      h
Write-IsExclusive {d} (updated m n at_id job live _) h =
    put_record-IsExclusive n d
      (λ j x found live_x same.
        h.alone j m.migration_id x m found at_id live_x live (same ∙ job.shard_id)
        ∙ sym job.migration_id)
      h

-- The record under `k` still does the job of `m`, and is `m` itself once `m` has ended.
pub record Succeeds (k : String) (m : ShardMigration) (d : Table) : Type 0 where
  pub successor : ShardMigration
  pub found : lookup k d ≡ some successor
  pub job : SameJob m successor
  pub ended : terminal m.state ≡ true → successor ≡ m

put_record-Succeeds_ne :
    (k : String) (m n : ShardMigration) (d : Table)
    → n.migration_id ≢ k
    → Succeeds k m d
    → Succeeds k m (put_record n d)
put_record-Succeeds_ne k m n d other s = record {
  successor = s.successor;
  found = lookup-insert_ne n.migration_id k n d other ∙ s.found;
  job = s.job;
  ended = s.ended;
}

pub Write-Succeeds :
    (k : String) (m : ShardMigration) {d t : Table} → Write d t → Succeeds k m d → Succeeds k m t
Write-Succeeds k m {d} (created n new _ _ _) s =
    put_record-Succeeds_ne k m n d (λ same. absurd (cc (ap (λ j. lookup j d) same, new, s.found))) s
Write-Succeeds k m {d} (updated x n at_id job live step) s = elim (String-cases n.migration_id k) [
  | inl same ↦
      let is_x : s.successor ≡ x =
        cc (sym s.found ∙ ap (λ j. lookup j d) (sym same ∙ job.migration_id) ∙ at_id) in
      record {
        successor = n;
        found =
            ap (λ j. lookup j (put_record n d)) (sym same) ∙ lookup-insert_self n.migration_id n d;
        job = SameJob-trans s.job (subst (λ y. SameJob y n) (sym is_x) job);
        ended = λ over. absurd (
            false≢true (
              sym live
              ∙ ap (λ (y : ShardMigration). terminal y.state) (sym is_x ∙ s.ended over)
              ∙ over));
      }
  | inr other ↦ put_record-Succeeds_ne k m n d (ne_of_eq_false n.migration_id k other) s
]

-- The facts together, along any chain of writes.
pub Writes-IsKeyed : {d t : Table} → Writes d t → IsKeyed d → IsKeyed t
Writes-IsKeyed written h = h
Writes-IsKeyed (more r w) h = Write-IsKeyed w (Writes-IsKeyed r h)

pub Writes-IsExclusive : {d t : Table} → Writes d t → IsExclusive d → IsExclusive t
Writes-IsExclusive written h = h
Writes-IsExclusive (more r w) h = Write-IsExclusive w (Writes-IsExclusive r h)

pub Writes-Succeeds :
    (k : String) (m : ShardMigration) {d t : Table} → Writes d t → Succeeds k m d → Succeeds k m t
Writes-Succeeds k m written s = s
Writes-Succeeds k m (more r w) s = Write-Succeeds k m w (Writes-Succeeds k m r s)
