-- ===== src/Migration/Writes.antt =====
-- The writes to the store that migration calls are made of, as a relation: a new PENDING record,
-- or a change of a record that has not ended.
use mathlib.Core.Path.{subst}
use vsector.Base.{ℕ, ◌≡◌, refl, sym, ◌∙◌, true, false, none, some, arith, ◌⊎◌, inr}
use vsector.Dict.{Dict, lookup, insert, values}
use vsector.Errors.{Error}
use vsector.Exec.{ok, err, ◌>>=◌}
use vsector.Etcd
use vsector.Etcd.{Etcd}
use vsector.Migration.State.{MigrationState, may_move, terminal}
use vsector.Migration.Record.{ShardMigration, FailureNote}
use vsector.Migration.Checks.{World, in_progress, failed_record}
use vsector.Migration.{fail_with, fail_and_raise}
use vsector.Migration.Outcomes.{stored}

-- What a migration is for never changes.
pub record SameJob (m m' : ShardMigration) : Type 0 where
  pub migration_id : m'.migration_id ≡ m.migration_id
  pub namespace : m'.namespace ≡ m.namespace
  pub shard_id : m'.shard_id ≡ m.shard_id
  pub source : m'.source_node_id ≡ m.source_node_id
  pub target : m'.target_node_id ≡ m.target_node_id
  pub source_version : m'.source_version ≡ m.source_version

-- The table of migrations, and a record put under its own id.
abbrev pub Table : Type 0
Table = Dict ShardMigration

abbrev pub put_record : ShardMigration → Table → Table
put_record m d = insert m.migration_id m d

abbrev pub Stored : ShardMigration → Table → Type 0
Stored m d = lookup m.migration_id d ≡ some m

pub data Write (d : Table) : Table → Type 0 where
  created :
      (m : ShardMigration)
      → lookup m.migration_id d ≡ none
      → in_progress m.shard_id (values d) ≡ none
      → m.state ≡ MigrationState.pending
      → m.source_digest ≡ none
      → Write d (put_record m d)
  updated :
      (m m' : ShardMigration)
      → Stored m d
      → SameJob m m'
      → terminal m.state ≡ false
      → (m'.state ≡ m.state) ⊎ (may_move m.state m'.state ≡ true)
      → Write d (put_record m' d)

pub data Writes (d : Table) : Table → Type 0 where
  written : Writes d d
  more : {t u : Table} → Writes d t → Write t u → Writes d u

pub Writes-trans : {d t u : Table} → Writes d t → Writes t u → Writes d u
Writes-trans r written = r
Writes-trans r (more q w) = more (Writes-trans r q) w

-- What a call that leaves ownership and membership alone may do to the store.
pub record Keeps (e t : Etcd) : Type 0 where
  pub shards : t.shards ≡ e.shards
  pub nodes : t.nodes ≡ e.nodes
  pub writes : Writes e.migrations t.migrations

pub Keeps-refl : (e : Etcd) → Keeps e e
Keeps-refl e = record { shards = refl; nodes = refl; writes = written }

pub Keeps-trans : {e t u : Etcd} → Keeps e t → Keeps t u → Keeps e u
Keeps-trans h k = record {
  shards = k.shards ∙ h.shards;
  nodes = k.nodes ∙ h.nodes;
  writes = Writes-trans h.writes k.writes;
}

pub Keeps-eq : {e t : Etcd} → t ≡ e → Keeps e t
Keeps-eq {e} same = subst (Keeps e) (sym same) (Keeps-refl e)

-- One write, where the store afterwards is known by an equation.
pub Keeps-put :
    {e t : Etcd} (m : ShardMigration)
    → Write e.migrations (put_record m e.migrations)
    → t ≡ Etcd.put_migration m e
    → Keeps e t
Keeps-put {e} m w same =
    subst (Keeps e) (sym same) (record { shards = refl; nodes = refl; writes = more written w })

pub may_move-terminal : (s to : MigrationState) → may_move s to ≡ true → terminal s ≡ false
unfolding may_move terminal
may_move-terminal s to h = ground arith

pub SameJob-refl : (m : ShardMigration) → SameJob m m
SameJob-refl m = record {
  migration_id = refl;
  namespace = refl;
  shard_id = refl;
  source = refl;
  target = refl;
  source_version = refl;
}

pub failed_record-SameJob :
    (now : ℕ) (note : FailureNote) (m : ShardMigration) → SameJob m (failed_record now note m)
unfolding failed_record
failed_record-SameJob now note m = ground arith

-- A migration that has not ended is FAILED afterwards.
pub failed_record-state :
    (now : ℕ) (note : FailureNote) (m : ShardMigration)
    → terminal m.state ≡ false
    → (failed_record now note m).state ≡ MigrationState.failed
unfolding failed_record terminal may_move
failed_record-state now note m h = ground arith

may_fail : (s : MigrationState) → terminal s ≡ false → may_move s MigrationState.failed ≡ true
unfolding terminal may_move
may_fail s h = ground arith

pub Write-failed :
    (now : ℕ) (note : FailureNote) (m : ShardMigration) (d : Table)
    → Stored m d
    → terminal m.state ≡ false
    → Write d (put_record (failed_record now note m) d)
Write-failed now note m d s live = updated m _ s (failed_record-SameJob now note m) live (
    inr (
      subst (λ to. may_move m.state to ≡ true) (sym (failed_record-state now note m live))
        (may_fail m.state live)))

module _ {Disk : Type 0} where
  pub fail_with_lem :
      (note : FailureNote) (m : ShardMigration) (w : World Disk)
      → fail_with note m w
        ≡ (ok (failed_record w.now note m), stored (failed_record w.now note m) w)
  unfolding fail_with ◌>>=◌
  fail_with_lem note m w = refl

  pub fail_and_raise_lem :
      {A : Type 0} (note : FailureNote) (x : Error) (m : ShardMigration) (w : World Disk)
      → fail_and_raise {A = A} note x m w ≡ (err x, stored (failed_record w.now note m) w)
  unfolding fail_and_raise fail_with ◌>>=◌
  fail_and_raise_lem note x m w = refl
