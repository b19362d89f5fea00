-- ===== src/Migration/Operations.antt =====
-- Every migration call but `commit` leaves shards and members alone and makes only the writes of
-- the relation `Writes`, and keeps the digests agreeing.
use mathlib.Core.Path.{subst}
use vsector.Base.{String, ℕ, ◌≡◌, refl, sym, ap, ◌∙◌, true, false, some, inl, inr}
use vsector.Dict.{lookup}
use vsector.Errors.{Error}
use vsector.Exec.{Result, ok, err}
use vsector.Exec.Ends.{Ends, Ends-at, Ends-bind, Ends-weaken}
use vsector.Etcd
use vsector.Etcd.{Etcd}
use vsector.Migration.State.{MigrationState, may_move, terminal}
use vsector.Migration.Record.{ShardMigration}
use vsector.Migration.Checks.{World}
use vsector.Migration.{advance, prepare}
use vsector.Migration.Outcomes.{moved_to, Begun, begin-Begun, Advanced, advance-Advanced}
use vsector.Migration.Writes.{
  SameJob, Table, Stored, put_record, Write, Write-failed, failed_record-state, updated,
  may_move-terminal,
}
use vsector.Migration.Digests.{past_copy, Agrees-early, Sound, Sound-eq, Sound-put}

-- Each migration is stored under its own id.
pub record IsKeyed (d : Table) : Type 0 where
  pub own_key : (k : String) (m : ShardMigration) → lookup k d ≡ some m → m.migration_id ≡ k

pub found-Stored :
    (id : String) (m : ShardMigration) (d : Table) → IsKeyed d → lookup id d ≡ some m → Stored m d
found-Stored id m d keyed found =
    subst (λ k. lookup k d ≡ some m) (sym (keyed.own_key id m found)) found

moved_to-SameJob :
    (to : MigrationState) (now : ℕ) (m : ShardMigration) → SameJob m (moved_to to now m)
moved_to-SameJob to now m = record {
  migration_id = refl;
  namespace = refl;
  shard_id = refl;
  source = refl;
  target = refl;
  source_version = refl;
}

pub moved_to-Write :
    (to : MigrationState) (now : ℕ) (m : ShardMigration) (d : Table)
    → Stored m d
    → may_move m.state to ≡ true
    → Write d (put_record (moved_to to now m) d)
moved_to-Write to now m d at_id allowed =
    updated m (moved_to to now m) at_id (moved_to-SameJob to now m)
      (may_move-terminal m.state to allowed) (inr allowed)

module _ {Disk : Type 0} where
  pub begin_error :
      (expected : MigrationState) (id : String) (w : World Disk) (x : Error) (t : World Disk)
      → terminal expected ≡ false
      → IsKeyed w.etcd.migrations
      → Begun expected id w (err x, t)
      → Sound w.etcd t.etcd
  unfolding past_copy
  begin_error expected id w x t live keyed (inl same) = Sound-eq (ap World.etcd same)
  begin_error expected id w x t live keyed (inr (m, found, state, _, result)) =
      Sound-put _
        (Write-failed w.now _ m _ (found-Stored id m _ keyed found) (ap terminal state ∙ live))
        (λ _.
          Agrees-early _ (ap past_copy (failed_record-state w.now _ m (ap terminal state ∙ live))))
        (ap World.etcd result)

  -- An advance of a record that is stored is one write, or none.
  pub advance-Sound :
      (to : MigrationState) (m : ShardMigration) (w : World Disk)
      → Stored m w.etcd.migrations
      → past_copy to ≡ false
      → Ends (advance to m) w (λ r. Sound w.etcd r.1.etcd)
  advance-Sound to m w at_id early = Ends-weaken (go to m w at_id early) (advance-Advanced to m w)
    where
      go :
          (to : MigrationState) (m : ShardMigration) (w : World Disk)
          → Stored m w.etcd.migrations
          → past_copy to ≡ false
          → (r : Result ShardMigration × World Disk) → Advanced to m w r
          → Sound w.etcd r.1.etcd
      go to m w at_id early (ok m', t) (allowed, result, writes) =
          Sound-put (moved_to to w.now m) (moved_to-Write to w.now m _ at_id allowed)
            (λ _. Agrees-early _ early)
            (ap World.etcd writes ∙ ap (λ n. Etcd.put_migration n w.etcd) result)
      go to m w at_id early (err x, t) (refused, same) = Sound-eq (ap World.etcd same)

  pub prepare-Sound :
      (id : String) (w : World Disk)
      → IsKeyed w.etcd.migrations
      → Ends (prepare id) w (λ r. Sound w.etcd r.1.etcd)
  unfolding prepare terminal past_copy
  prepare-Sound id w keyed =
      Ends-bind _ _ w (begin-Begun MigrationState.pending id w)
        (λ x t q. begin_error MigrationState.pending id w x t refl keyed q)
        λ started t q.
          Ends-at q.4 (advance-Sound _ started.0 w (found-Stored id _ _ keyed q.0) refl)
