-- ===== src/Migration/OwnerWrites.antt =====
-- The parts of `commit`: the write of the owner, its failure, and the end.
use mathlib.Core.Path.{subst}
use vsector.Base.{String, ◌≡◌, refl, sym, ap, false, List, [], ◌∷◌, arith}
use vsector.Errors.{Error, is_migration_error}
use vsector.Exec.{Done, modify, Result, ok, err}
use vsector.Exec.Ends.{Ends, Ends-try_except, Ends-bind-gets, Ends-bind-lift}
use vsector.Shard
use vsector.Shard.{Shard}
use vsector.Etcd
use vsector.Etcd.{Etcd}
use vsector.Cluster.Membership.{then_check, validate_node, validate_replicas}
use vsector.Migration.State.{MigrationState, may_move}
use vsector.Migration.Record.{ShardMigration, FailureNote}
use vsector.Migration.Boundary.{Transfer}
use vsector.Migration.Checks.{World, Manager, failed_record}
use vsector.Migration.{advance, put_shard}
use vsector.Migration.Commit.{write_owner, commit_fails, finalize}
use vsector.Migration.Outcomes.{stored, moved_to, advance_ok}
use vsector.Migration.Writes.{SameJob, fail_and_raise_lem}
use vsector.Migration.DataSteps.{on_disk-DiskOnly}

-- The checks of the ownership change raise no `MigrationError`, so its handler rolls back.
validate_ownership_error :
    (s : Shard) (x : Error) → Shard.validate_ownership s ≡ err x → is_migration_error x ≡ false
unfolding Shard.validate_ownership is_migration_error
validate_ownership_error s x h = ground arith

validate_node_error :
    (i : String) (e : Etcd) (x : Error) → validate_node i e ≡ err x → is_migration_error x ≡ false
unfolding validate_node is_migration_error
validate_node_error i e x h = ground arith

validate_replicas_error :
    (rs : List String) (e : Etcd) (x : Error)
    → validate_replicas rs e ≡ err x
    → is_migration_error x ≡ false
unfolding validate_replicas
validate_replicas_error [] e x h = cc
validate_replicas_error (r ∷ rs) e x h =
    ground (arith, validate_node_error r e x, validate_replicas_error rs e x)

-- The check of the replicas reads no migration.
pub validate_replicas-put_migration :
    (rs : List String) (m : ShardMigration) (e : Etcd)
    → validate_replicas rs (Etcd.put_migration m e) ≡ validate_replicas rs e
unfolding validate_replicas
validate_replicas-put_migration [] m e = refl
validate_replicas-put_migration (r ∷ rs) m e =
    ap (then_check (validate_node r e)) (validate_replicas-put_migration rs m e)

-- The finished record of a commit.
pub record Finished (m n : ShardMigration) : Type 0 where
  pub job : SameJob m n
  pub completed : n.state ≡ MigrationState.completed
  pub source_digest : n.source_digest ≡ m.source_digest
  pub target_digest : n.target_digest ≡ m.target_digest

module _ {Disk : Type 0} where
  -- The checks of the ownership change passed, and the shard is written; or nothing is.
  abbrev pub OwnerWritten : Shard → World Disk → Result Done × World Disk → Type 0
  OwnerWritten s w (ok _, t) =
      (Shard.validate_ownership s ≡ ok tt)
      × (validate_replicas s.replicas w.etcd ≡ ok tt)
      × (t ≡ record w { etcd = Etcd.put s w.etcd })
  OwnerWritten s w (err x, t) = (is_migration_error x ≡ false) × (t ≡ w)

  pub write_owner-OwnerWritten :
      (s : Shard) (w : World Disk) → Ends (write_owner s) w (OwnerWritten s w)
  unfolding write_owner
  write_owner-OwnerWritten s w =
      Ends-bind-lift _ _ w (λ x h. (validate_ownership_error s x h, refl))
        λ _ owned. Ends-bind-gets _ _ w (
          Ends-bind-lift _ _ w (λ x h. (validate_replicas_error s.replicas w.etcd x h, refl))
            λ _ members. put_ends owned members)
    where
      put_ends :
          Shard.validate_ownership s ≡ ok tt
          → validate_replicas s.replicas w.etcd ≡ ok tt
          → Ends (put_shard s) w (OwnerWritten s w)
      put_ends owned members = unfold modify in record { outcome = (owned, members, refl) }

  -- The failure of the ownership change.
  pub commit_fails_lem :
      (m : ShardMigration) (x : Error) (w : World Disk)
      → is_migration_error x ≡ false
      → commit_fails m x w ≡ (
        err (Error.commit_failed m.namespace m.shard_id m.target_node_id x),
        stored (failed_record w.now (FailureNote.commit_error x) m) w,
      )
  unfolding commit_fails
  commit_fails_lem m x w other = rw other (fail_and_raise_lem _ _ m w)

  abbrev pub Finalized : ShardMigration → Etcd → Result ShardMigration × World Disk → Type 0
  Finalized m e (ok n, t) = Finished m n × (t.etcd ≡ Etcd.put_migration n e)
  Finalized m e (err x, t) = ⊥

module _ {Disk Payload : Type 0} (transfer : Transfer Disk Payload) (manager : Manager) where
  -- The end of a commit does not raise, whatever the storage does.
  completes :
      (m n : ShardMigration) (e : Etcd) (t : World Disk)
      → n.state ≡ MigrationState.committing
      → t.etcd ≡ e
      → Finished m (moved_to MigrationState.completed t.now n)
      → Ends (advance MigrationState.completed n) t (Finalized m e)
  unfolding may_move
  completes m n e t state same fin = record {
    outcome =
        subst (Finalized m e)
          (sym (
            advance_ok MigrationState.completed n t
              (ap (λ s. may_move s MigrationState.completed) state)))
          (fin, ap (Etcd.put_migration (moved_to MigrationState.completed t.now n)) same);
  }

  pub finalize-Finalized :
      (m : ShardMigration) (s : Shard) (w : World Disk)
      → m.state ≡ MigrationState.committing
      → Ends (finalize transfer manager m s) w (Finalized m w.etcd)
  unfolding finalize
  finalize-Finalized m s w state =
      Ends-try_except _ _ _ w (on_disk-DiskOnly _ w)
        (λ x t q. completes m _ w.etcd t state q.1 (ground arith))
        (λ _ t q. completes m _ w.etcd t state q.1 (ground arith))
