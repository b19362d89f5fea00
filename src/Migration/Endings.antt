-- ===== src/Migration/Endings.antt =====
-- `create_migration`, `cancel` and `fail` leave shards and members alone and write by the rules.
use mathlib.Core.Path.{subst}
use vsector.Base.{String, ◌≡◌, refl, sym, ap, Option, none, some, inl, inr, Bool-cases}
use vsector.Dict.{lookup}
use vsector.Exec.{Done, Result, ok}
use vsector.Exec.Ends.{
  Ends, Ends-try_except, Ends-bind, Ends-bind-gets, Ends-bind-lift, Ends-bind-read,
  Ends-bind-modify, Ends-pure, Ends-weaken, unless-eq-ok, found_or-eq-ok,
}
use vsector.Shard.{Shard}
use vsector.Migration.State.{MigrationState}
use vsector.Migration.Record.{ShardMigration, FailureNote}
use vsector.Migration.Boundary.{Transfer}
use vsector.Migration.Checks.{World, Manager}
use vsector.Migration.{create_migration, not_running}
use vsector.Migration.Commit.{cancel, fail, discard, has_target_data}
use vsector.Migration.Outcomes.{require_lem}
use vsector.Migration.Record.{is_terminal}
use vsector.Migration.DataSteps.{on_disk-DiskOnly}
use vsector.Migration.Writes.{Stored, Write-failed, failed_record-state, created, fail_with_lem}
use vsector.Migration.Digests.{past_copy, Agrees-early, Sound, Sound-eq, Sound-put, Sound-trans}
use vsector.Migration.Operations.{IsKeyed, found-Stored, advance-Sound}

not_running-eq-ok :
    (namespace shard_id : String) (o : Option ShardMigration) {u : Done}
    → not_running namespace shard_id o ≡ ok u
    → o ≡ none
not_running-eq-ok namespace shard_id none h = refl
not_running-eq-ok namespace shard_id (some m) h = cc

module _ {Disk Payload : Type 0} (transfer : Transfer Disk Payload) where
  -- Whatever the storage does, the store is as it was.
  discard_keeps :
      (m : ShardMigration) (o : Option Shard) (w : World Disk)
      → Ends (discard transfer m o) w (λ r. r.1.etcd ≡ w.etcd)
  unfolding discard
  discard_keeps m none w = Ends-pure _ w refl
  discard_keeps m (some s) w = elim (Bool-cases (has_target_data m.state)) [
    | inl there ↦ rw there (
        Ends-try_except _ _ _ w (on_disk-DiskOnly _ w) (λ x t q. Ends-pure _ t q.1)
          (λ a t q. Ends-pure _ t q.1))
    | inr nothing ↦ rw nothing (Ends-pure _ w refl)
  ]

  pub cancel-Sound :
      (id : String) (w : World Disk)
      → IsKeyed w.etcd.migrations
      → Ends (cancel transfer id) w (λ r. Sound w.etcd r.1.etcd)
  unfolding cancel past_copy
  cancel-Sound id w keyed =
      Ends-bind-read _ _ _ w (require_lem id w) (λ _ _. Sound-eq refl)
        λ m found.
          Ends-bind-lift _ _ w (λ _ _. Sound-eq refl)
            λ _ _. Ends-bind-gets _ _ w (
              Ends-bind _ _ w (discard_keeps m _ w) (λ x t q. Sound-eq q)
                λ _ t q.
                  Ends-weaken (λ r c. Sound-trans (Sound-eq q) c)
                    (advance-Sound MigrationState.cancelled m t
                      (subst (λ e. Stored m e.migrations) (sym q)
                        (found-Stored id m _ keyed (found_or-eq-ok _ _ found)))
                      refl))

module _ {Disk : Type 0} where
  pub fail-Sound :
      (id reason : String) (w : World Disk)
      → IsKeyed w.etcd.migrations
      → Ends (fail id reason) w (λ r. Sound w.etcd r.1.etcd)
  unfolding fail is_terminal past_copy
  fail-Sound id reason w keyed =
      Ends-bind-read _ _ _ w (require_lem id w) (λ _ _. Sound-eq refl)
        λ m found.
          Ends-bind-lift _ _ w (λ _ _. Sound-eq refl)
            λ _ unless_ended.
              let live = unless-eq-ok _ _ unless_ended in
              record {
                outcome =
                    subst (λ (r : Result ShardMigration × World Disk). Sound w.etcd r.1.etcd)
                      (sym (fail_with_lem (FailureNote.forced reason) m w))
                      (Sound-put _
                        (Write-failed w.now _ m _
                          (found-Stored id m _ keyed (found_or-eq-ok _ _ found)) live)
                        (λ _. Agrees-early _ (ap past_copy (failed_record-state w.now _ m live)))
                        refl);
              }

  -- `fresh`, the new id, must be new.
  pub create_migration-Sound :
      (manager : Manager) (namespace shard_id target fresh : String) (w : World Disk)
      → lookup fresh w.etcd.migrations ≡ none
      → Ends
          (create_migration manager namespace shard_id target fresh)
          w
          (λ r. Sound w.etcd r.1.etcd)
  unfolding create_migration past_copy
  create_migration-Sound manager namespace shard_id target fresh w new = Ends-bind-gets _ _ w (
      Ends-bind-lift _ _ w (λ _ _. Sound-eq refl)
        λ s found.
          Ends-bind-lift _ _ w (λ _ _. Sound-eq refl)
            λ _ _.
              Ends-bind-lift _ _ w (λ _ _. Sound-eq refl)
                λ _ _.
                  Ends-bind-lift _ _ w (λ _ _. Sound-eq refl)
                    λ source owned.
                      Ends-bind-lift _ _ w (λ _ _. Sound-eq refl)
                        λ _ _.
                          Ends-bind-lift _ _ w (λ _ _. Sound-eq refl)
                            λ _ _.
                              Ends-bind-lift _ _ w (λ _ _. Sound-eq refl)
                                λ _ _.
                                  Ends-bind-lift _ _ w (λ _ _. Sound-eq refl)
                                    λ _ none_runs. Ends-bind-modify _ _ w (
                                      Ends-pure _ _ (
                                        Sound-put _
                                          (created _ new (not_running-eq-ok _ _ _ none_runs) refl
                                            refl)
                                          (λ _. Agrees-early _ refl) refl)))
