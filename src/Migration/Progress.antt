-- ===== src/Migration/Progress.antt =====
-- When the migration steps raise and when they return, from what the store holds.
use vsector.Base.{
  String, ℕ, ◌+◌, sym, Bool, ◌≡◌, refl, ap, ◌∙◌, true, not, Option, none, some, arith,
  if◌then◌else◌,
}
use vsector.Errors.{Error, Side, is_verification_error}
use vsector.Exec.{Result, ok, err, pure, found_or, unless, ◌>>=◌, try_except}
use vsector.Shard
use vsector.Shard.{Shard}
use vsector.Etcd
use vsector.Cluster.Membership.{validate_replicas}
use vsector.Migration.State.{MigrationState, same, may_move}
use vsector.Migration.Record.{ShardMigration, FailureNote}
use vsector.Migration.Boundary.{Transfer}
use vsector.Migration.Checks.{World, Manager, source_check, failed_record, validate_member}
use vsector.Migration.OwnerWrites.{Finalized, finalize-Finalized, validate_replicas-put_migration}
use vsector.Migration.{
  on_disk, begin, require, assert_source_valid, fail_and_raise, fail_with, prepare,
}
use vsector.Migration.Copy.{start_copy, verify, verify_data, verify_fails}
use vsector.Migration.Commit.{handed_over, write_owner, finalize, commit}
use vsector.Migration.Outcomes.{stored, moved_to, advance_ok, require_lem}
use vsector.Exec.Steps.{bind_ok, bind_err, bind_lift_ok, bind_gets, try_ok}
use vsector.Migration.Stale.{Stale, Stale-source_check}
use vsector.Migration.Histories.{
  Call, prepares, copies, verifies, commits, creates, cancels, fails, perform,
}

same_self : (s : MigrationState) → same s s ≡ true
unfolding same
same_self s = ground arith

-- The state that a step starts from, and the migration that it is for.
abbrev pub starts : Call → Option (MigrationState × String)
starts (prepares id) = some (MigrationState.pending, id)
starts (copies id) = some (MigrationState.preparing, id)
starts (verifies id) = some (MigrationState.copying, id)
starts (commits id) = some (MigrationState.verifying, id)
starts _ = none

failed_lem :
    (now : ℕ) (note : FailureNote) (m : ShardMigration)
    → may_move m.state MigrationState.failed ≡ true
    → failed_record now note m ≡ record m {
      state = MigrationState.failed;
      version = m.version + 1;
      updated_at = now;
      error = some note;
    }
unfolding failed_record
failed_lem now note m h = ground arith

fails_from : Option (MigrationState × String) → Bool
unfolding may_move
fails_from none = true
fails_from (some (st, _)) = may_move st MigrationState.failed

may_fail :
    (c : Call) (expected : MigrationState) (id : String)
    → starts c ≡ some (expected, id)
    → may_move expected MigrationState.failed ≡ true
unfolding may_move fails_from
may_fail c expected id at_c = sym (ap fails_from at_c) ∙ all c
  where
    all : (c : Call) → fails_from (starts c) ≡ true
    all (prepares _) = refl
    all (copies _) = refl
    all (verifies _) = refl
    all (commits _) = refl
    all (creates _ _ _ _) = refl
    all (cancels _) = refl
    all (fails _ _) = refl

in_state :
    (m : ShardMigration) (expected : MigrationState) (x : Error)
    → m.state ≡ expected
    → unless {0} (not (same m.state expected)) x ≡ ok tt
in_state m expected x at_state = ground (arith, same_self expected)

module _ {Disk : Type 0} where
  required :
      (id : String) (m : ShardMigration) (w : World Disk)
      → Etcd.get_migration id w.etcd ≡ some m
      → require id w ≡ (ok m, w)
  required id m w found =
      require_lem id w ∙ ap (λ o. (found_or o (Error.migration_not_found id), w)) found

  asserted_stale :
      (m : ShardMigration) (w : World Disk) (o : Option Shard) (x : Error)
      → Etcd.get m.shard_id w.etcd ≡ o
      → source_check m o ≡ err x
      → assert_source_valid m w
        ≡ (err x, stored (failed_record w.now (FailureNote.source_invalid x) m) w)
  unfolding assert_source_valid fail_and_raise fail_with ◌>>=◌
  asserted_stale m w o x at_shard stale = ground arith

  begin_stale :
      (expected : MigrationState) (id : String) (m : ShardMigration) (w : World Disk) (x : Error)
      → Etcd.get_migration id w.etcd ≡ some m
      → m.state ≡ expected
      → source_check m (Etcd.get m.shard_id w.etcd) ≡ err x
      → begin expected id w
        ≡ (err x, stored (failed_record w.now (FailureNote.source_invalid x) m) w)
  unfolding begin
  begin_stale expected id m w x found at_state stale =
      bind_ok _ _ (required id m w found)
      ∙ bind_lift_ok _ _ w (in_state m expected _ at_state)
      ∙ bind_err _ _ (asserted_stale m w _ x refl stale)

  asserted_current :
      (m : ShardMigration) (w : World Disk) (o : Option Shard) (s : Shard)
      → Etcd.get m.shard_id w.etcd ≡ o
      → source_check m o ≡ ok s
      → assert_source_valid m w ≡ (ok s, w)
  unfolding assert_source_valid ◌>>=◌
  asserted_current m w o s at_shard current = ground arith

  begin_current :
      (expected : MigrationState) (id : String) (m : ShardMigration) (s : Shard) (w : World Disk)
      → Etcd.get_migration id w.etcd ≡ some m
      → m.state ≡ expected
      → source_check m (Etcd.get m.shard_id w.etcd) ≡ ok s
      → begin expected id w ≡ (ok (m, s), w)
  unfolding begin pure
  begin_current expected id m s w found at_state current =
      bind_ok _ _ (required id m w found)
      ∙ bind_lift_ok _ _ w (in_state m expected _ at_state)
      ∙ bind_ok _ _ (asserted_current m w _ s refl current)

  -- What `verify` comes to, by the answer of the storage: `m` is the record in VERIFYING.
  abbrev pub verified_by :
      ShardMigration → World Disk → Result String × Disk → Result ShardMigration × World Disk
  verified_by m w (ok actual, d) =
      let checked : ShardMigration = record m { target_digest = some actual } in
      (ok checked, stored checked (record (stored m w) { disk = d }))
  verified_by m w (err x, d) =
      let t : World Disk = record (stored m w) { disk = d } in
      if is_verification_error x
      then (err x, stored (failed_record w.now (FailureNote.verification_error x) m) t)
      else (err x, t)

module _ {Disk Payload : Type 0} (transfer : Transfer Disk Payload) where
  verify_data_lem :
      (m : ShardMigration) (s : Shard) (w : World Disk)
      → verify_data transfer m s (stored m w)
        ≡ verified_by m w (transfer.verify_shard m.target_node_id s m.source_digest w.disk)
  unfolding verify_data verify_fails on_disk fail_and_raise fail_with try_except ◌>>=◌
  verify_data_lem m s w = ground arith

  -- `verify` of a COPYING migration whose shard is current does what the storage answers: on a
  -- digest it returns the VERIFYING record with that digest, on a verification error the record is
  -- FAILED, and on any other error the record stays VERIFYING. The digest that is compared with is
  -- the one of the record: where the record has none, none is compared.
  pub verify_answers :
      (id : String) (m : ShardMigration) (s : Shard) (w : World Disk)
      → Etcd.get_migration id w.etcd ≡ some m
      → m.state ≡ MigrationState.copying
      → source_check m (Etcd.get m.shard_id w.etcd) ≡ ok s
      → verify transfer id w
        ≡ verified_by
            (moved_to MigrationState.verifying w.now m)
            w
            (transfer.verify_shard m.target_node_id s m.source_digest w.disk)
  unfolding verify may_move
  verify_answers id m s w found at_state current =
      bind_ok _ _ (begin_current _ id m s w found at_state current)
      ∙ bind_ok _ _ (
          advance_ok MigrationState.verifying m w
            (ap (λ st. may_move st MigrationState.verifying) at_state))
      ∙ verify_data_lem (moved_to MigrationState.verifying w.now m) s w

module _ {Disk Payload : Type 0} (transfer : Transfer Disk Payload) (manager : Manager) where
  step_stale :
      (c : Call) (id : String) (expected : MigrationState) (m : ShardMigration) (w : World Disk)
      (x : Error)
      → starts c ≡ some (expected, id)
      → Etcd.get_migration id w.etcd ≡ some m
      → m.state ≡ expected
      → source_check m (Etcd.get m.shard_id w.etcd) ≡ err x
      → perform transfer manager c w
        ≡ (err x, stored (failed_record w.now (FailureNote.source_invalid x) m) w)
  unfolding perform prepare start_copy verify commit
  step_stale (creates _ _ _ _) id expected m w x at_c found at_state stale = cc
  step_stale (prepares j) id expected m w x at_c found at_state stale =
      bind_err _ _ (begin_stale _ j m w x (cc (at_c, found)) (cc (at_c, at_state)) stale)
  step_stale (copies j) id expected m w x at_c found at_state stale =
      bind_err _ _ (begin_stale _ j m w x (cc (at_c, found)) (cc (at_c, at_state)) stale)
  step_stale (verifies j) id expected m w x at_c found at_state stale =
      bind_err _ _ (begin_stale _ j m w x (cc (at_c, found)) (cc (at_c, at_state)) stale)
  step_stale (commits j) id expected m w x at_c found at_state stale =
      bind_err _ _ (begin_stale _ j m w x (cc (at_c, found)) (cc (at_c, at_state)) stale)
  step_stale (cancels _) id expected m w x at_c found at_state stale = cc
  step_stale (fails _ _) id expected m w x at_c found at_state stale = cc

  -- A step whose shard is gone, is not ACTIVE or DRAINING, is owned by another node than the source,
  -- or has another version than the captured one raises the error that says so. All that it changes
  -- is the migration's record, which becomes FAILED, with that error, a new version and the present
  -- time. The step is called on a migration in the state that it starts from.
  pub stale_step :
      (c : Call) (id : String) (expected : MigrationState) (m : ShardMigration) (w : World Disk)
      (x : Error)
      → starts c ≡ some (expected, id)
      → Etcd.get_migration id w.etcd ≡ some m
      → m.state ≡ expected
      → Stale m (Etcd.get m.shard_id w.etcd) x
      → perform transfer manager c w ≡ (
        err x,
        stored
            (record m {
              state = MigrationState.failed;
              version = m.version + 1;
              updated_at = w.now;
              error = some (FailureNote.source_invalid x);
            })
            w,
      )
  stale_step c id expected m w x at_c found at_state stale =
      step_stale c id expected m w x at_c found at_state (Stale-source_check m _ x stale)
      ∙ ap (λ (n : ShardMigration). (err x, stored n w))
          (failed_lem w.now (FailureNote.source_invalid x) m
            (ap (λ st. may_move st MigrationState.failed) at_state ∙ may_fail c expected id at_c))

  finalize_returns :
      (m : ShardMigration) (s : Shard) (w : World Disk)
      → m.state ≡ MigrationState.committing
      → (n : ShardMigration) × ((finalize transfer manager m s w).0 ≡ ok n)
  finalize_returns m s w at_state =
      go _ (finalize-Finalized transfer manager m s w at_state).outcome
    where
      go :
          (r : Result ShardMigration × World Disk)
          → Finalized m w.etcd r
          → (n : ShardMigration) × (r.0 ≡ ok n)
      go (ok n, t) h = (n, refl)
      go (err x, t) h = absurd h

  write_owner_ok :
      (s : Shard) (w : World Disk)
      → Shard.validate_ownership s ≡ ok tt
      → validate_replicas s.replicas w.etcd ≡ ok tt
      → write_owner s w ≡ (ok tt, record w { etcd = Etcd.put s w.etcd })
  unfolding write_owner ◌>>=◌
  write_owner_ok s w owned members = ground arith

  -- `commit` does return: on a VERIFYING migration whose shard is current, with a target that is a
  -- member of the cluster, and with a valid owner and known replicas after the move. No answer of
  -- the storage can stop it.
  pub commit_returns :
      (id : String) (m : ShardMigration) (s : Shard) (w : World Disk)
      → Etcd.get_migration id w.etcd ≡ some m
      → m.state ≡ MigrationState.verifying
      → source_check m (Etcd.get m.shard_id w.etcd) ≡ ok s
      → validate_member manager.membership_cluster_id Side.target m.target_node_id w.etcd ≡ ok tt
      → Shard.validate_ownership (handed_over m s) ≡ ok tt
      → validate_replicas (handed_over m s).replicas w.etcd ≡ ok tt
      → (n : ShardMigration) × ((commit transfer manager id w).0 ≡ ok n)
  unfolding commit may_move
  commit_returns id m s w found at_state current member owned replicas =
      let moving = moved_to MigrationState.committing w.now m in
      let (n, ends) = finalize_returns moving (handed_over m s) _ refl in
      (
        n,
        ap (λ (r : Result ShardMigration × World Disk). r.0)
              (bind_ok _ _ (begin_current _ id m s w found at_state current)
                ∙ bind_gets _ _ w
                ∙ bind_lift_ok _ _ w member
                ∙ bind_ok _ _ (
                    advance_ok MigrationState.committing m w
                      (ap (λ st. may_move st MigrationState.committing) at_state))
                ∙ try_ok _ _ _ (
                    write_owner_ok (handed_over m s) (stored moving w) owned
                      (validate_replicas-put_migration _ moving w.etcd ∙ replicas)))
            ∙ ends,
      )
