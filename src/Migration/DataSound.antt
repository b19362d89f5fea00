-- ===== src/Migration/DataSound.antt =====
-- `start_copy` and `verify` leave shards and members alone, write by the rules, and keep the
-- digests agreeing.
use vsector.Base.{String, ℕ, ◌≡◌, refl, ap, ◌∙◌, Bool, true, false, some, arith, ◌⊎◌, inl, inr}
use vsector.Dict.{lookup-insert_self}
use vsector.Exec.{Result, ok, err}
use vsector.Exec.Ends.{Ends, Ends-at, Ends-bind, Ends-bind-ok, Ends-weaken}
use vsector.Etcd
use vsector.Etcd.{Etcd}
use vsector.Migration.State.{MigrationState, may_move, terminal}
use vsector.Migration.Record.{ShardMigration}
use vsector.Migration.Boundary.{Transfer}
use vsector.Migration.Checks.{World}
use vsector.Migration.Copy.{start_copy, verify}
use vsector.Migration.Outcomes.{moved_to, advance_ok, begin-Begun}
use vsector.Migration.Writes.{SameJob, Table, Stored, put_record, Write, updated}
use vsector.Migration.Digests.{
  past_copy, Agreed, Agrees, Agrees-early, Sound, Sound-put, Sound-put_twice,
}
use vsector.Migration.DataSteps.{
  CopiedOf, CopiedOf-SameJob, VerifiedOf, VerifiedOf-SameJob, Copied, copy_data-Copied, Verified,
  verify_data-Verified,
}
use vsector.Migration.Operations.{IsKeyed, found-Stored, moved_to-Write, begin_error}

-- The step that puts a record with the same state, or a FAILED one, over `m`.
second-Write :
    (m n : ShardMigration) (d : Table)
    → SameJob m n
    → terminal m.state ≡ false
    → (n.state ≡ m.state) ⊎ (may_move m.state n.state ≡ true)
    → Write (put_record m d) (put_record n (put_record m d))
second-Write m n d job live step = updated m n (lookup-insert_self m.migration_id m d) job live step

may_fail :
    (m n : ShardMigration)
    → terminal m.state ≡ false
    → n.state ≡ MigrationState.failed
    → may_move m.state n.state ≡ true
unfolding terminal may_move
may_fail m n live failed = ground arith

CopiedOf-Agrees : (m n : ShardMigration) → CopiedOf m n → Agrees n
CopiedOf-Agrees m n (d, result) past = record {
  digest = d;
  source = ap ShardMigration.source_digest result;
  target = ap ShardMigration.target_digest result;
}

abbrev may_copy : MigrationState → Bool
may_copy s = may_move s MigrationState.copying

module _ {Disk Payload : Type 0} (transfer : Transfer Disk Payload) where
  -- The copy of a migration that has just become COPYING.
  after_copy-Sound :
      (now : ℕ) (m : ShardMigration) (e : Etcd) (r : Result ShardMigration × World Disk)
      → Stored m e.migrations
      → may_move m.state MigrationState.copying ≡ true
      → Copied transfer
          (moved_to MigrationState.copying now m)
          (Etcd.put_migration (moved_to MigrationState.copying now m) e)
          r
      → Sound e r.1.etcd
  unfolding terminal past_copy
  after_copy-Sound now m e (ok n, t) at_id allowed (copied, result) =
      Sound-put_twice (moved_to MigrationState.copying now m) n
        (moved_to-Write MigrationState.copying now m _ at_id allowed)
        (second-Write _ n _ (CopiedOf-SameJob _ n copied) refl
          (inl (ap ShardMigration.state copied.1)))
        (ap ShardMigration.migration_id copied.1)
        (λ _. CopiedOf-Agrees (moved_to MigrationState.copying now m) n copied) result
  after_copy-Sound now m e (err x, t) at_id allowed failed =
      Sound-put_twice (moved_to MigrationState.copying now m) failed.record_put
        (moved_to-Write MigrationState.copying now m _ at_id allowed)
        (second-Write (moved_to MigrationState.copying now m) failed.record_put _ failed.fits.0 refl
          (inr (
            may_fail (moved_to MigrationState.copying now m) failed.record_put refl failed.fits.1)))
        failed.fits.0.migration_id
        (λ _. Agrees-early failed.record_put (ap past_copy failed.fits.1)) failed.result

  pub start_copy-Sound :
      (id : String) (w : World Disk)
      → IsKeyed w.etcd.migrations
      → Ends (start_copy transfer id) w (λ r. Sound w.etcd r.1.etcd)
  unfolding start_copy terminal may_move
  start_copy-Sound id w keyed =
      Ends-bind _ _ w (begin-Begun MigrationState.preparing id w)
        (λ x t q. begin_error MigrationState.preparing id w x t refl keyed q)
        λ started t q. Ends-at q.4 (
          Ends-bind-ok _ _ w _ _ (advance_ok MigrationState.copying started.0 w (ap may_copy q.1)) (
            Ends-weaken
              (λ r c.
                after_copy-Sound w.now started.0 w.etcd r (found-Stored id _ _ keyed q.0)
                  (ap may_copy q.1) c)
              (copy_data-Copied transfer _ started.1 _ refl)))

-- A verification keeps the digests of a record that had them.
VerifiedOf-Agrees : (m n : ShardMigration) → Agreed m → VerifiedOf m n → Agrees n
VerifiedOf-Agrees m n had (d, result, expected) past = record {
  digest = had.digest;
  source = ap ShardMigration.source_digest result ∙ had.source;
  target = ap ShardMigration.target_digest result ∙ ap some (expected had.digest had.source);
}

pub moved_to-Agreed :
    (to : MigrationState) (now : ℕ) (m : ShardMigration) → Agreed m → Agreed (moved_to to now m)
moved_to-Agreed to now m had = record {
  digest = had.digest;
  source = had.source;
  target = had.target;
}

abbrev may_verify : MigrationState → Bool
may_verify s = may_move s MigrationState.verifying

module _ {Disk Payload : Type 0} (transfer : Transfer Disk Payload) where
  -- The verification of a migration that has just become VERIFYING.
  after_check-Sound :
      (now : ℕ) (m : ShardMigration) (e : Etcd) (r : Result ShardMigration × World Disk)
      → Stored m e.migrations
      → m.state ≡ MigrationState.copying
      → may_move m.state MigrationState.verifying ≡ true
      → Verified transfer
          (moved_to MigrationState.verifying now m)
          (Etcd.put_migration (moved_to MigrationState.verifying now m) e)
          r
      → Sound e r.1.etcd
  unfolding terminal past_copy
  after_check-Sound now m e (ok n, t) at_id state allowed (checked, result) =
      let moved = moved_to MigrationState.verifying now m in
      Sound-put_twice moved n (moved_to-Write MigrationState.verifying now m _ at_id allowed)
        (second-Write moved n _ (VerifiedOf-SameJob moved n checked) refl
          (inl (ap ShardMigration.state checked.1)))
        (ap ShardMigration.migration_id checked.1)
        (λ v.
          VerifiedOf-Agrees moved n
            (moved_to-Agreed _ now m (v.agrees m.migration_id m at_id (ap past_copy state)))
            checked)
        result
  after_check-Sound now m e (err x, t) at_id state allowed (inl (_, same)) =
      Sound-put (moved_to MigrationState.verifying now m)
        (moved_to-Write MigrationState.verifying now m _ at_id allowed)
        (λ v _. moved_to-Agreed _ now m (v.agrees m.migration_id m at_id (ap past_copy state))) same
  after_check-Sound now m e (err x, t) at_id state allowed (inr failed) =
      let moved = moved_to MigrationState.verifying now m in
      Sound-put_twice moved failed.record_put
        (moved_to-Write MigrationState.verifying now m _ at_id allowed)
        (second-Write moved failed.record_put _ failed.fits.0 refl
          (inr (may_fail moved failed.record_put refl failed.fits.1)))
        failed.fits.0.migration_id
        (λ _. Agrees-early failed.record_put (ap past_copy failed.fits.1)) failed.result

  pub verify-Sound :
      (id : String) (w : World Disk)
      → IsKeyed w.etcd.migrations
      → Ends (verify transfer id) w (λ r. Sound w.etcd r.1.etcd)
  unfolding verify terminal may_move
  verify-Sound id w keyed =
      Ends-bind _ _ w (begin-Begun MigrationState.copying id w)
        (λ x t q. begin_error MigrationState.copying id w x t refl keyed q)
        λ started t q. Ends-at q.4 (
          Ends-bind-ok _ _ w _ _
            (advance_ok MigrationState.verifying started.0 w (ap may_verify q.1))
            (Ends-weaken
              (λ r c.
                after_check-Sound w.now started.0 w.etcd r (found-Stored id _ _ keyed q.0) q.1
                  (ap may_verify q.1) c)
              (verify_data-Verified transfer _ started.1 _ refl)))
