-- ===== src/Migration/Histories.antt =====
-- Sequences of migration calls, with anything in between that leaves the migrations alone.
use mathlib.Core.Path.{subst}
use vsector.Base.{String, ◌≡◌, ◌≢◌, refl, sym, ap, none, some, ◌⊎◌, inl, inr}
use vsector.Dict.{lookup}
use vsector.Exec.{Result, ok, err, Exec}
use vsector.Etcd
use vsector.Etcd.{Etcd}
use vsector.Migration.Record.{ShardMigration}
use vsector.Migration.Boundary.{Transfer}
use vsector.Migration.Checks.{World, Manager}
use vsector.Migration.{create_migration, prepare}
use vsector.Migration.Copy.{start_copy, verify}
use vsector.Migration.Commit.{commit, cancel, fail}
use vsector.Migration.Writes.{Table, Writes, SameJob-refl}
use vsector.Migration.Digests.{IsVerified, Sound}
use vsector.Migration.Operations.{IsKeyed, prepare-Sound}
use vsector.Migration.DataSound.{start_copy-Sound, verify-Sound}
use vsector.Migration.Endings.{create_migration-Sound, cancel-Sound, fail-Sound}
use vsector.Migration.Ownership.{Committed, CommitOutcome, commit-CommitOutcome}
use vsector.Migration.Exclusion.{
  IsExclusive, Succeeds, Writes-IsKeyed, Writes-IsExclusive, Writes-Succeeds,
}

pub data Call : Type 0 where
  creates : String → String → String → String → Call
  prepares copies verifies commits cancels : String → Call
  fails : String → String → Call

-- The last argument of `creates` is the new id, which must be new.
abbrev pub IsFresh : Call → Table → Type 0
IsFresh (creates _ _ _ fresh) d = lookup fresh d ≡ none
IsFresh _ d = Unit {0}

-- What holds of the migrations at all times.
pub record IsValid (d : Table) : Type 0 where
  pub keyed : IsKeyed d
  pub exclusive : IsExclusive d
  pub verified : IsVerified d

module _ {Disk Payload : Type 0} (transfer : Transfer Disk Payload) (manager : Manager) where
  unfoldable pub perform : Call → Exec (World Disk) ShardMigration
  perform (creates namespace shard_id target fresh) =
      create_migration manager namespace shard_id target fresh
  perform (prepares id) = prepare id
  perform (copies id) = start_copy transfer id
  perform (verifies id) = verify transfer id
  perform (commits id) = commit transfer manager id
  perform (cancels id) = cancel transfer id
  perform (fails id reason) = fail id reason

  -- A call made no commit and is sound, or it is a commit that returned.
  abbrev CallOutcome : Call → World Disk → Result ShardMigration × World Disk → Type 0
  CallOutcome c w r =
      Sound w.etcd r.1.etcd
      ⊎ ((id : String) × (n : ShardMigration) × (c ≡ commits id)
          × (r.0 ≡ ok n)
          × Committed transfer manager id w n r.1)

  commit-cases :
      (id : String) (w : World Disk) (r : Result ShardMigration × World Disk)
      → CommitOutcome transfer manager id w r
      → CallOutcome (commits id) w r
  commit-cases id w (ok n, t) h = inr (id, n, refl, refl, h)
  commit-cases id w (err x, t) h = inl h

  perform-CallOutcome :
      (c : Call) (w : World Disk)
      → IsKeyed w.etcd.migrations
      → IsFresh c w.etcd.migrations
      → CallOutcome c w (perform c w)
  unfolding perform
  perform-CallOutcome (creates namespace shard_id target fresh) w keyed new =
      inl (create_migration-Sound manager namespace shard_id target fresh w new).outcome
  perform-CallOutcome (prepares id) w keyed new = inl (prepare-Sound id w keyed).outcome
  perform-CallOutcome (copies id) w keyed new = inl (start_copy-Sound transfer id w keyed).outcome
  perform-CallOutcome (verifies id) w keyed new = inl (verify-Sound transfer id w keyed).outcome
  perform-CallOutcome (commits id) w keyed new =
      commit-cases id w _ (commit-CommitOutcome transfer manager id w keyed).outcome
  perform-CallOutcome (cancels id) w keyed new = inl (cancel-Sound transfer id w keyed).outcome
  perform-CallOutcome (fails id reason) w keyed new = inl (fail-Sound id reason w keyed).outcome

  -- Where each migration is stored under its own id, and the id of a new one is new: if a migration
  -- call changes the stored record of a shard in any way, it is a commit that returned, with all
  -- that this says.
  pub owner_changes_by_commit :
      (c : Call) (w : World Disk) (k : String)
      → IsKeyed w.etcd.migrations
      → IsFresh c w.etcd.migrations
      → Etcd.get k (perform c w).1.etcd ≢ Etcd.get k w.etcd
      → (id : String) × (n : ShardMigration) × (c ≡ commits id)
        × ((perform c w).0 ≡ ok n)
        × Committed transfer manager id w n (perform c w).1
  owner_changes_by_commit c w k keyed new differs = elim (perform-CallOutcome c w keyed new) [
    | inl sound ↦ absurd (differs (ap (lookup k) sound.keeps.shards))
    | inr committed ↦ committed
  ]

  call-Writes :
      (c : Call) (w : World Disk) (r : Result ShardMigration × World Disk)
      → CallOutcome c w r
      → Writes w.etcd.migrations r.1.etcd.migrations
        × (IsVerified w.etcd.migrations → IsVerified r.1.etcd.migrations)
  call-Writes c w r (inl sound) = (sound.keeps.writes, sound.verified)
  call-Writes c w r (inr (id, n, _, _, done)) = (done.writes, done.verified)

  -- A history: calls, and between them changes of everything but the migrations: the clock, the
  -- storage, shards and members.
  pub data History (w : World Disk) : World Disk → Type 0 where
    start : History w w
    calls :
        {t : World Disk} (c : Call)
        → History w t
        → IsFresh c t.etcd.migrations
        → History w (perform c t).1
    elsewhere :
        {t u : World Disk} → History w t → u.etcd.migrations ≡ t.etcd.migrations → History w u

  -- Between the calls of any history that starts so: every migration is stored under its own id, no
  -- two migrations of one shard are in progress, and the two digests of a record that is COPYING,
  -- VERIFYING, COMMITTING or COMPLETED are there and equal.
  pub History-IsValid :
      {w t : World Disk} → History w t → IsValid w.etcd.migrations → IsValid t.etcd.migrations
  History-IsValid start v = v
  History-IsValid (calls {t} c h new) v =
      let before = History-IsValid h v in
      let (writes, verified) = call-Writes c t _ (perform-CallOutcome c t before.keyed new) in
      record {
        keyed = Writes-IsKeyed writes before.keyed;
        exclusive = Writes-IsExclusive writes before.exclusive;
        verified = verified before.verified;
      }
  History-IsValid (elsewhere h same) v = subst (λ d. IsValid d) (sym same) (History-IsValid h v)

  History-Succeeds :
      (k : String) (m : ShardMigration) {w t : World Disk}
      → History w t
      → IsValid w.etcd.migrations
      → Succeeds k m w.etcd.migrations
      → Succeeds k m t.etcd.migrations
  History-Succeeds k m start v s = s
  History-Succeeds k m (calls {t} c h new) v s =
      Writes-Succeeds k m
        (call-Writes c t _ (perform-CallOutcome c t (History-IsValid h v).keyed new)).0
        (History-Succeeds k m h v s)
  History-Succeeds k m (elsewhere h same) v s =
      subst (λ d. Succeeds k m d) (sym same) (History-Succeeds k m h v s)

  -- Through any history that starts from valid migrations, a migration stays known under its id, for
  -- the same shard, source, target and captured version; once COMPLETED, FAILED or CANCELLED its
  -- record never changes again.
  pub migration_stays :
      (k : String) (m : ShardMigration) {w t : World Disk}
      → History w t
      → IsValid w.etcd.migrations
      → Etcd.get_migration k w.etcd ≡ some m
      → Succeeds k m t.etcd.migrations
  migration_stays k m h v found =
      History-Succeeds k m h v
        (record { successor = m; found = found; job = SameJob-refl m; ended = λ _. refl })
