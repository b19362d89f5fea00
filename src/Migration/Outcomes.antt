-- ===== src/Migration/Outcomes.antt =====
-- How the calls that the migration steps share end, on every branch.
use vsector.Base.{
  String, ℕ, ◌+◌, ◌≡◌, refl, Bool, true, false, not, Option, none, some, arith, eq_iff, ◌⊎◌, inl,
  inr,
}
use vsector.Errors.{Error}
use vsector.Exec.{Result, ok, err, ◌>>=◌, found_or}
use vsector.Exec.Ends.{
  Ends, Ends-bind-lift, Ends-bind, Ends-pure, Ends-bind-read, found_or-eq-ok, unless-eq-ok,
}
use vsector.Shard.{Shard}
use vsector.Shard.State.{is_readable}
use vsector.Etcd
use vsector.Migration.State.{MigrationState, may_move, same}
use vsector.Migration.Record.{ShardMigration, FailureNote, transition}
use vsector.Migration.Checks.{World, source_check, failed_record}
use vsector.Migration.{advance, begin, require, assert_source_valid, fail_and_raise, fail_with}

same-eq : (a b : MigrationState) → same a b ≡ true → a ≡ b
unfolding same
same-eq a b h = ground arith

-- The shard is what the migration was created for.
pub record IsCurrent (m : ShardMigration) (s : Shard) : Type 0 where
  pub readable : is_readable s.state ≡ true
  pub owner : s.node_id ≡ m.source_node_id
  pub version : s.version ≡ m.source_version

source_check-ok :
    (m : ShardMigration) (o : Option Shard) (s : Shard)
    → source_check m o ≡ ok s
    → (o ≡ some s) × IsCurrent m s
source_check-ok m none s h = cc
source_check-ok m (some x) s h = ground (arith, eq_iff x.node_id m.source_node_id)

not-eq-false : (b : Bool) → not b ≡ false → b ≡ true
not-eq-false true h = refl
not-eq-false false h = cc

-- The record that `advance` makes of another.
abbrev pub moved_to : MigrationState → ℕ → ShardMigration → ShardMigration
moved_to to now m = record m { state = to; version = m.version + 1; updated_at = now }

module _ {Disk : Type 0} where
  -- `w` with `m` put into the store
  abbrev pub stored : ShardMigration → World Disk → World Disk
  stored m w = record w { etcd = Etcd.put_migration m w.etcd }

  pub advance_ok :
      (to : MigrationState) (m : ShardMigration) (w : World Disk)
      → may_move m.state to ≡ true
      → advance to m w ≡ (ok (moved_to to w.now m), stored (moved_to to w.now m) w)
  unfolding advance ◌>>=◌ transition
  advance_ok to m w allowed = ground arith

  abbrev pub Advanced :
      MigrationState → ShardMigration → World Disk → Result ShardMigration × World Disk → Type 0
  Advanced to m w (ok m', t) =
      (may_move m.state to ≡ true)
      × (m' ≡ record m { state = to; version = m.version + 1; updated_at = w.now })
      × (t ≡ stored m' w)
  Advanced to m w (err e, t) = (may_move m.state to ≡ false) × (t ≡ w)

  pub advance-Advanced :
      (to : MigrationState) (m : ShardMigration) (w : World Disk)
      → Ends (advance to m) w (Advanced to m w)
  unfolding advance ◌>>=◌ transition
  advance-Advanced to m w = record { outcome = ground arith }

  abbrev pub Begun :
      MigrationState → String → World Disk → Result (ShardMigration × Shard) × World Disk → Type 0
  Begun expected id w (ok (m, s), t) =
      (Etcd.get_migration id w.etcd ≡ some m)
      × (m.state ≡ expected)
      × (Etcd.get m.shard_id w.etcd ≡ some s)
      × IsCurrent m s
      × (t ≡ w)
  Begun expected id w (err e, t) =
      (t ≡ w)
      ⊎ ((m : ShardMigration) × (Etcd.get_migration id w.etcd ≡ some m)
          × (m.state ≡ expected)
          × (source_check m (Etcd.get m.shard_id w.etcd) ≡ err e)
          × (t ≡ stored (failed_record w.now (FailureNote.source_invalid e) m) w))

  pub require_lem :
      (id : String) (w : World Disk)
      → require id w ≡ (found_or (Etcd.get_migration id w.etcd) (Error.migration_not_found id), w)
  unfolding require ◌>>=◌
  require_lem id w = refl

  abbrev pub Asserted : ShardMigration → World Disk → Result Shard × World Disk → Type 0
  Asserted m w (ok s, t) = (source_check m (Etcd.get m.shard_id w.etcd) ≡ ok s) × (t ≡ w)
  Asserted m w (err e, t) =
      (source_check m (Etcd.get m.shard_id w.etcd) ≡ err e)
      × (t ≡ stored (failed_record w.now (FailureNote.source_invalid e) m) w)

  assert_source_valid-Asserted :
      (m : ShardMigration) (w : World Disk) → Ends (assert_source_valid m) w (Asserted m w)
  unfolding assert_source_valid fail_and_raise fail_with ◌>>=◌
  assert_source_valid-Asserted m w = record { outcome = ground arith }

  pub begin-Begun :
      (expected : MigrationState) (id : String) (w : World Disk)
      → Ends (begin expected id) w (Begun expected id w)
  unfolding begin
  begin-Begun expected id w =
      Ends-bind-read _ _ _ w (require_lem id w) (λ _ _. inl refl)
        λ m found.
          Ends-bind-lift _ _ w (λ _ _. inl refl)
            λ _ right.
              let at_id = found_or-eq-ok _ _ found in
              let in_state = same-eq m.state expected (not-eq-false _ (unless-eq-ok _ _ right)) in
              Ends-bind _ _ w (assert_source_valid-Asserted m w)
                (λ e u p. inr (m, at_id, in_state, p.0, p.1))
                λ s u p.
                  let (at_shard, current) = source_check-ok m _ s p.0 in
                  Ends-pure _ u (at_id, in_state, at_shard, current, p.1)
