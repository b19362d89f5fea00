-- ===== src/Migration/Ownership.antt =====
-- `commit` is the only call that changes an owner: what it does on every branch.
use mathlib.Core.Path.{subst}
use vsector.Base.{String, ℕ, ◌≡◌, refl, sym, ap, ◌∙◌, Bool, true, false, some, arith, inr}
use vsector.Dict.{lookup, insert, lookup-insert_self}
use vsector.Errors.{Error, Side, is_migration_error}
use vsector.Exec.{Result, ok, err}
use vsector.Exec.Ends.{
  Ends, Ends-try_except, Ends-at, Ends-bind, Ends-bind-gets, Ends-bind-lift, Ends-bind-ok,
  Ends-weaken,
}
use vsector.Shard
use vsector.Shard.{Shard}
use vsector.Etcd
use vsector.Etcd.{Etcd}
use vsector.Cluster.Membership.{validate_replicas}
use vsector.Migration.State.{MigrationState, may_move, terminal}
use vsector.Migration.Record.{ShardMigration, FailureNote}
use vsector.Migration.Boundary.{Transfer}
use vsector.Migration.Checks.{World, Manager, failed_record, validate_member}
use vsector.Migration.Commit.{handed_over, commit_fails, commit}
use vsector.Migration.Outcomes.{stored, moved_to, advance_ok, IsCurrent, begin-Begun}
use vsector.Migration.Writes.{
  Table, Stored, put_record, Writes, more, written, Write-failed, failed_record-SameJob,
  failed_record-state, updated,
}
use vsector.Migration.Digests.{
  past_copy, Agreed, Agrees, Agrees-early, IsVerified, IsVerified-put, Sound, Sound-eq,
  Sound-put_twice,
}
use vsector.Migration.DataSound.{moved_to-Agreed}
use vsector.Migration.Operations.{IsKeyed, found-Stored, moved_to-Write, begin_error}
use vsector.Migration.OwnerWrites.{
  Finished, write_owner-OwnerWritten, commit_fails_lem, Finalized, finalize-Finalized,
  validate_replicas-put_migration,
}

abbrev may_commit : MigrationState → Bool
may_commit s = may_move s MigrationState.committing

module _ {Disk Payload : Type 0} (transfer : Transfer Disk Payload) (manager : Manager) where
  -- What a commit that returned has done: the shard that the migration was created for, unchanged
  -- since, is written with its new owner, and the record is COMPLETED.
  pub record Committed (id : String) (w : World Disk) (n : ShardMigration) (t : World Disk)
      : Type 0 where
    pub migration : ShardMigration
    pub shard : Shard
    pub found : Etcd.get_migration id w.etcd ≡ some migration
    pub verifying : migration.state ≡ MigrationState.verifying
    pub at_shard : Etcd.get migration.shard_id w.etcd ≡ some shard
    pub current : IsCurrent migration shard
    pub target_member :
        validate_member manager.membership_cluster_id Side.target migration.target_node_id w.etcd
        ≡ ok tt
    pub owned : Shard.validate_ownership (handed_over migration shard) ≡ ok tt
    pub replicas : validate_replicas (handed_over migration shard).replicas w.etcd ≡ ok tt
    pub finished : Finished migration n
    pub shards : t.etcd.shards ≡ insert shard.id (handed_over migration shard) w.etcd.shards
    pub nodes : t.etcd.nodes ≡ w.etcd.nodes
    pub recorded : lookup n.migration_id t.etcd.migrations ≡ some n
    pub writes : Writes w.etcd.migrations t.etcd.migrations
    pub verified : IsVerified w.etcd.migrations → IsVerified t.etcd.migrations

  -- A commit that raised has changed no shard and no member.
  abbrev pub CommitOutcome : String → World Disk → Result ShardMigration × World Disk → Type 0
  CommitOutcome id w (ok n, t) = Committed id w n t
  CommitOutcome id w (err x, t) = Sound w.etcd t.etcd

  -- The rollback: the record goes from COMMITTING to FAILED, and nothing else changes.
  rolls_back :
      (id : String) (m : ShardMigration) (w u : World Disk) (x : Error)
      → Stored m w.etcd.migrations
      → may_move m.state MigrationState.committing ≡ true
      → is_migration_error x ≡ false
      → u ≡ stored (moved_to MigrationState.committing w.now m) w
      → Ends (commit_fails (moved_to MigrationState.committing w.now m) x) u (CommitOutcome id w)
  unfolding terminal past_copy
  rolls_back id m w u x at_id allowed other at_u =
      let moved = moved_to MigrationState.committing w.now m in
      let note = FailureNote.commit_error x in
      Ends-at at_u (record {
        outcome =
            subst (CommitOutcome id w) (sym (commit_fails_lem moved x (stored moved w) other)) (
              Sound-put_twice moved (failed_record w.now note moved)
                (moved_to-Write MigrationState.committing w.now m _ at_id allowed)
                (Write-failed w.now note moved _
                  (lookup-insert_self m.migration_id moved w.etcd.migrations) refl)
                (failed_record-SameJob w.now note moved).migration_id
                (λ _. Agrees-early _ (ap past_copy (failed_record-state w.now note moved refl)))
                refl);
      })

  Finished-Agrees : (m n : ShardMigration) → Agreed m → Finished m n → Agrees n
  Finished-Agrees m n had fin past = record {
    digest = had.digest;
    source = fin.source_digest ∙ had.source;
    target = fin.target_digest ∙ had.target;
  }

  -- The two records that a commit writes.
  commit-Writes :
      (m n : ShardMigration) (now : ℕ) (d : Table)
      → Stored m d
      → m.state ≡ MigrationState.verifying
      → Finished (moved_to MigrationState.committing now m) n
      → let moved = moved_to MigrationState.committing now m in
        Writes d (put_record n (put_record moved d))
        × (IsVerified d → IsVerified (put_record n (put_record moved d)))
  unfolding terminal may_move past_copy
  commit-Writes m n now d at_id state fin =
      let moved = moved_to MigrationState.committing now m in
      let had = λ (v : IsVerified d). v.agrees m.migration_id m at_id (ap past_copy state) in
      let again = λ (v : IsVerified d). moved_to-Agreed MigrationState.committing now m (had v) in
      (
        more
            (more written
              (moved_to-Write MigrationState.committing now m d at_id (ap may_commit state)))
            (updated moved n (lookup-insert_self m.migration_id moved d) fin.job refl
              (inr (ap (λ s. may_move MigrationState.committing s) fin.completed))),
        λ v.
            IsVerified-put n _ (Finished-Agrees moved n (again v) fin)
              (IsVerified-put moved d (λ _. again v) v),
      )

  finished_commit :
      (id : String) (m : ShardMigration) (s : Shard) (w : World Disk)
      → IsKeyed w.etcd.migrations
      → Etcd.get_migration id w.etcd ≡ some m
      → m.state ≡ MigrationState.verifying
      → Etcd.get m.shard_id w.etcd ≡ some s
      → IsCurrent m s
      → validate_member manager.membership_cluster_id Side.target m.target_node_id w.etcd ≡ ok tt
      → Shard.validate_ownership (handed_over m s) ≡ ok tt
      → validate_replicas (handed_over m s).replicas w.etcd ≡ ok tt
      → (r : Result ShardMigration × World Disk)
      → Finalized
          (moved_to MigrationState.committing w.now m)
          (Etcd.put
            (handed_over m s)
            (Etcd.put_migration (moved_to MigrationState.committing w.now m) w.etcd))
          r
      → CommitOutcome id w r
  finished_commit id m s w keyed found state at_shard current member owned replicas (ok n, t)
        (fin, result) =
      let (writes, verified) =
        commit-Writes m n w.now w.etcd.migrations (found-Stored id m _ keyed found) state fin in
      let table = ap (λ (e : Etcd). e.migrations) result in
      record {
        migration = m;
        shard = s;
        found = found;
        verifying = state;
        at_shard = at_shard;
        current = current;
        target_member = member;
        owned = owned;
        replicas = replicas;
        finished = ground (arith, fin);
        shards = ap (λ (e : Etcd). e.shards) result;
        nodes = ap (λ (e : Etcd). e.nodes) result;
        recorded = ap (lookup n.migration_id) table ∙ lookup-insert_self n.migration_id n _;
        writes = subst (Writes w.etcd.migrations) (sym table) writes;
        verified = λ v. subst (λ d. IsVerified d) (sym table) (verified v);
      }
  finished_commit id m s w keyed found state at_shard current member owned replicas (err x, t) h =
      absurd h

  -- `commit` on every branch, where each record is stored under its own id. A commit that returned
  -- had a VERIFYING record, its shard unchanged since the migration was created, a target that is
  -- a member, and a valid owner and known replicas after the move; it wrote that shard with its new
  -- owner and nothing else of the shards and members, and the record is COMPLETED. A commit that
  -- raised changed no shard and no member, and wrote the migration by the rules.
  pub commit-CommitOutcome :
      (id : String) (w : World Disk)
      → IsKeyed w.etcd.migrations
      → Ends (commit transfer manager id) w (CommitOutcome id w)
  unfolding commit terminal may_move past_copy
  commit-CommitOutcome id w keyed =
      Ends-bind _ _ w (begin-Begun MigrationState.verifying id w)
        (λ x t q. begin_error MigrationState.verifying id w x t refl keyed q)
        λ started t q. Ends-at q.4 (
          Ends-bind-gets _ _ w (
            Ends-bind-lift _ _ w (λ _ _. Sound-eq refl)
              λ _ member.
                Ends-bind-ok _ _ w _ _
                  (advance_ok MigrationState.committing started.0 w (ap may_commit q.1))
                  (Ends-try_except _ _ _ _ (write_owner-OwnerWritten _ _)
                    (λ x u o.
                      rolls_back id started.0 w u x (found-Stored id _ _ keyed q.0)
                        (ap may_commit q.1) o.0 o.1)
                    (λ _ u o. Ends-at o.2 (
                      Ends-weaken
                        (finished_commit id started.0 started.1 w keyed q.0 q.1 q.2 q.3 member o.0
                          (sym (validate_replicas-put_migration _ _ w.etcd) ∙ o.1))
                        (finalize-Finalized transfer manager _ _ _ refl))))))
