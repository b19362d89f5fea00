-- ===== src/Migration/Examples.antt =====
-- One migration run at concrete values, and the theorems of the migration at its states.
use vsector.Base.{
  inl, arith, String, ◌≡◌, ◌≢◌, refl, sym, ap, ◌∙◌, false, Option, none, some, [], ◌∷◌, arith, ◌==◌,
  eq_iff, if◌then◌else◌,
}
use vsector.Dict.{Dict, lookup, insert, erase}
use vsector.Errors.{Error, Side, MemberReason}
use vsector.Exec.{Result, ok, err, ◌>>=◌, try_except}
use vsector.Exec.Ends.{Ends}
use vsector.Shard
use vsector.Shard.{Shard}
use vsector.Shard.State.{ShardState, is_readable}
use vsector.Cluster.{ClusterNode}
use vsector.Cluster.State.{NodeMembershipState}
use vsector.Cluster.Membership.{validate_node, validate_cluster_id, validate_replicas}
use vsector.Etcd
use vsector.Etcd.{Etcd}
use vsector.Migration.State.{MigrationState, may_move, same}
use vsector.Migration.Record
use vsector.Migration.Record.{ShardMigration, FailureNote, is_terminal}
use vsector.Migration.Boundary.{Transfer}
use vsector.Migration.Checks.{World, Manager, in_progress, validate_member}
use vsector.Migration.{
  on_disk, require, assert_source_valid, advance, begin, prepare, create_migration,
}
use vsector.Migration.Copy.{start_copy, copy_data, verify, verify_data}
use vsector.Migration.Commit.{write_owner, finalize, commit}
use vsector.Migration.Outcomes.{stored, moved_to}
use vsector.Migration.Exclusion.{Succeeds}
use vsector.Migration.Digests.{Agrees}
use mathlib.Core.Path.{subst}
use vsector.Migration.Ownership.{Committed, CommitOutcome, commit-CommitOutcome}
use vsector.Migration.Histories.{
  creates, commits, perform, IsValid, start, calls, owner_changes_by_commit, History-IsValid,
  migration_stays,
}
use vsector.Migration.Stale.{Stale}
use vsector.Migration.Progress.{stale_step, verify_answers, verified_by, commit_returns}

-- A storage that keeps one text for each node, which is its own digest.
abbrev compared : String → String → String → Result String
compared node_id found expected =
    if found == expected
    then ok found
    else err (Error.verification_failed node_id "s" expected found)

abbrev checked : String → Option String → Option String → Result String
checked node_id none expected = err (Error.verification_failed node_id "s" "" "")
checked node_id (some found) none = ok found
checked node_id (some found) (some expected) = compared node_id found expected

abbrev held : Option String → Result String
held none = err (Error.other_error "no data")
held (some found) = ok found

checked_expected :
    (node_id : String) (found : Option String) (expected actual : String)
    → checked node_id found (some expected) ≡ ok actual
    → actual ≡ expected
checked_expected node_id none expected actual h = cc
checked_expected node_id (some found) expected actual h = ground (arith, eq_iff found expected)

abbrev texts : Transfer (Dict String) String
texts = record {
  digest = λ p. p;
  export_shard = λ node_id s d. (held (lookup node_id d), d);
  import_shard = λ node_id s p d. (ok tt, insert node_id p d);
  verify_shard = λ node_id s expected d. (checked node_id (lookup node_id d) expected, d);
  finalize_source = λ node_id s d. (ok tt, erase node_id d);
  discard_target = λ node_id s d. (ok tt, erase node_id d);
  verify_expected = λ node_id s expected actual d h.
      checked_expected node_id (lookup node_id d) expected actual h;
}

abbrev manager : Manager
manager = record { cluster_id = "c"; membership_cluster_id = "c" }

abbrev member : String → ClusterNode
member i = record { node_id = i; cluster_id = "c"; state = NodeMembershipState.active; version = 2 }

abbrev shard : Shard
shard = record {
  id = "s";
  namespace = "ns";
  node_id = "a";
  state = ShardState.active;
  vector_count = 3;
  max_vectors = 10;
  replicas = [];
  created_at = 0;
  version = 2;
}

abbrev fresh_world : World (Dict String)
fresh_world = record {
  etcd = record {
    shards = ("s", shard) ∷ [];
    nodes = ("a", member "a") ∷ ("b", member "b") ∷ [];
    migrations = [];
  };
  disk = ("a", "payload") ∷ [];
  now = 7;
}

-- The record of the migration in a state, with the digest that the copy leaves.
abbrev job : MigrationState → Option String → ShardMigration
job s digest = record {
  migration_id = "m";
  namespace = "ns";
  shard_id = "s";
  source_node_id = "a";
  target_node_id = "b";
  state = s;
  source_version = 2;
  cluster_id = "c";
  created_at = 7;
  updated_at = 7;
  error = none;
  version = 1;
  source_digest = digest;
  target_digest = digest;
  finalized = false;
}

abbrev world_at : ShardMigration → World (Dict String)
world_at m = record {
  etcd = record {
    shards = ("s", shard) ∷ [];
    nodes = ("a", member "a") ∷ ("b", member "b") ∷ [];
    migrations = ("m", m) ∷ [];
  };
  disk = ("a", "payload") ∷ ("b", "payload") ∷ [];
  now = 7;
}

-- The whole run, from the creation to the commit.
abbrev run : World (Dict String) → World (Dict String)
run w0 =
    let w1 = (create_migration manager "ns" "s" "b" "m" w0).1 in
    let w2 = (prepare "m" w1).1 in
    let w3 = (start_copy texts "m" w2).1 in
    let w4 = (verify texts "m" w3).1 in (commit texts manager "m" w4).1

abbrev owner_of : World (Dict String) → Option String
owner_of w = elim (Etcd.get "s" w.etcd) [ none ↦ none | some s ↦ some s.node_id ]

run_hands_over : owner_of (run fresh_world) ≡ some "b"
unfolding create_migration prepare start_copy copy_data verify verify_data commit finalize
    write_owner begin require assert_source_valid advance on_disk lookup insert erase same may_move
    is_readable Shard.require_owner Shard.validate_ownership validate_member validate_node
    validate_cluster_id validate_replicas in_progress Record.transition try_except ◌>>=◌
run_hands_over = refl

only_entry :
    (k : String) (m x : ShardMigration) → lookup k (("m", m) ∷ []) ≡ some x → ("m" ≡ k) × (m ≡ x)
unfolding lookup
only_entry k m x h = ground (arith, eq_iff "m" k)

single-IsValid : (m : ShardMigration) → m.migration_id ≡ "m" → Agrees m → IsValid (("m", m) ∷ [])
single-IsValid m at_m fits = record {
  keyed = record {
    own_key = λ k x found.
        sym (ap ShardMigration.migration_id (only_entry k m x found).1)
        ∙ at_m
        ∙ (only_entry k m x found).0;
  };
  exclusive = record {
    alone = λ j k x y at_j at_k _ _ _. sym (only_entry j m x at_j).0 ∙ (only_entry k m y at_k).0;
  };
  verified = record { agrees = λ k x found. subst Agrees (only_entry k m x found).1 fits };
}

empty-IsValid : IsValid []
unfolding lookup
empty-IsValid = record {
  keyed = record { own_key = λ k x found. cc };
  exclusive = record { alone = λ j k x y at_j _ _ _ _. cc };
  verified = record { agrees = λ k x found. cc };
}

abbrev verifying : World (Dict String)
verifying = world_at (job MigrationState.verifying (some "payload"))

verifying-IsValid : IsValid verifying.etcd.migrations
verifying-IsValid =
    single-IsValid _ refl λ _. record { digest = "payload"; source = refl; target = refl }

History-IsValid_example :
    IsValid (perform texts manager (creates "ns" "s" "b" "m") fresh_world).1.etcd.migrations
unfolding lookup
History-IsValid_example =
    History-IsValid texts manager (calls (creates "ns" "s" "b" "m") start refl) empty-IsValid

commit_changes_owner :
    Etcd.get "s" (perform texts manager (commits "m") verifying).1.etcd
    ≢ Etcd.get "s" verifying.etcd
unfolding perform commit finalize write_owner begin require assert_source_valid advance on_disk
    lookup insert erase same may_move is_readable Shard.validate_ownership validate_member
    validate_node validate_cluster_id validate_replicas Record.transition try_except ◌>>=◌
commit_changes_owner e = absurd (cc e)

owner_changes_by_commit_example :
    (id : String) × (n : ShardMigration) × (commits "m" ≡ commits id)
    × ((perform texts manager (commits "m") verifying).0 ≡ ok n)
    × Committed texts manager id verifying n (perform texts manager (commits "m") verifying).1
owner_changes_by_commit_example =
    owner_changes_by_commit texts manager (commits "m") verifying "s" verifying-IsValid.keyed tt
      commit_changes_owner

commit-CommitOutcome_example :
    Ends (commit texts manager "m") verifying (CommitOutcome texts manager "m" verifying)
commit-CommitOutcome_example =
    commit-CommitOutcome texts manager "m" verifying verifying-IsValid.keyed

commit_returns_example : (n : ShardMigration) × ((commit texts manager "m" verifying).0 ≡ ok n)
unfolding lookup is_readable validate_member validate_node validate_cluster_id validate_replicas
    Shard.validate_ownership
commit_returns_example =
    commit_returns texts manager "m" (job MigrationState.verifying (some "payload")) shard verifying
      refl refl refl refl refl refl

migration_stays_example :
    Succeeds "m"
      (job MigrationState.verifying (some "payload"))
      (perform texts manager (commits "m") verifying).1.etcd.migrations
unfolding lookup
migration_stays_example =
    migration_stays texts manager "m" (job MigrationState.verifying (some "payload"))
      (calls (commits "m") start tt) verifying-IsValid refl

-- A copy that was cut off left no digest, and `verify` accepts what the target holds.
abbrev cut_off : World (Dict String)
cut_off = record (world_at (job MigrationState.copying none)) {
  disk = ("a", "payload") ∷ ("b", "other") ∷ [];
}

verify_answers_example :
    verify texts "m" cut_off
    ≡ verified_by
        (moved_to MigrationState.verifying 7 (job MigrationState.copying none))
        cut_off
        (ok "other", cut_off.disk)
unfolding lookup is_readable
verify_answers_example =
    verify_answers texts "m" (job MigrationState.copying none) shard cut_off refl refl refl

abbrev renumbered : World (Dict String)
renumbered = record verifying {
  etcd = record (verifying.etcd) { shards = ("s", record shard { version = 3 }) ∷ [] };
}

abbrev renumbered_error : Error
renumbered_error = Error.member_error Side.source "a" (MemberReason.version_changed 2 3)

stale_step_example : perform texts manager (commits "m") renumbered ≡ (
  err renumbered_error,
  stored
      (record (job MigrationState.verifying (some "payload")) {
        state = MigrationState.failed;
        version = 2;
        updated_at = 7;
        error = some (FailureNote.source_invalid renumbered_error);
      })
      renumbered,
)
unfolding lookup
stale_step_example =
    stale_step texts manager (commits "m") "m" MigrationState.verifying
      (job MigrationState.verifying (some "payload")) renumbered renumbered_error refl refl refl
      (Stale.renumbered _ (inl refl) refl (λ h. omega (arith, h)))
