-- ===== src/Etcd/Documents.antt =====
-- The records of the store as JSON objects: `to_dict` of the three kinds of records, and the
-- functions of vsector/sharding/etcd.py that read them back. A key that holds a value of another
-- type than the source writes there is read as a missing one, and a missing id as the empty text;
-- the present time is read once for all the values it stands in for. The text of a failure is kept
-- as the note that it reports.
use vsector.Base.{
  String, ℕ, ◌≡◌, refl, Bool, true, false, Option, none, some, List, [], ◌∷◌, ◌==◌, if◌then◌else◌,
}
use vsector.Dict.{Dict, lookup}
use vsector.Cluster.{ClusterNode}
use vsector.Cluster.State.{NodeMembershipState}
use vsector.Shard.{Shard}
use vsector.Shard.State.{ShardState}
use vsector.Migration.State.{MigrationState}
use vsector.Migration.Record.{ShardMigration, FailureNote}

pub data Json : Type 0 where
  null : Json
  text : String → Json
  number : ℕ → Json
  boolean : Bool → Json
  texts : List String → Json
  note : FailureNote → Json

abbrev pub Object : Type 0
Object = Dict Json

-- `d.get(key, default)`, by type
abbrev as_text : String → Option Json → String
as_text d (some (Json.text s)) = s
as_text d _ = d

abbrev as_number : ℕ → Option Json → ℕ
as_number d (some (Json.number n)) = n
as_number d _ = d

abbrev as_boolean : Option Json → Bool
as_boolean (some (Json.boolean b)) = b
as_boolean _ = false

abbrev as_texts : Option Json → List String
as_texts (some (Json.texts ss)) = ss
as_texts _ = []

abbrev as_note : Option Json → Option FailureNote
as_note (some (Json.note n)) = some n
as_note _ = none

abbrev as_text? : Option Json → Option String
as_text? (some (Json.text s)) = some s
as_text? _ = none

abbrev note_or_null : Option FailureNote → Json
note_or_null none = Json.null
note_or_null (some n) = Json.note n

abbrev text_or_null : Option String → Json
text_or_null none = Json.null
text_or_null (some s) = Json.text s

-- The values of the enumerations, and `ShardState(text)` and its like with the default after a
-- `ValueError`.
abbrev shard_state_value : ShardState → String
shard_state_value ShardState.creating = "CREATING"
shard_state_value ShardState.active = "ACTIVE"
shard_state_value ShardState.draining = "DRAINING"
shard_state_value ShardState.offline = "OFFLINE"
shard_state_value ShardState.splitting = "SPLITTING"
shard_state_value ShardState.retired = "RETIRED"

unfoldable pub state_from : String → ShardState
state_from s =
    if s == "CREATING"
    then ShardState.creating
    else if s == "ACTIVE"
    then ShardState.active
    else if s == "DRAINING"
    then ShardState.draining
    else if s == "OFFLINE"
    then ShardState.offline
    else if s == "SPLITTING"
    then ShardState.splitting
    else if s == "RETIRED"
    then ShardState.retired
    else ShardState.active

abbrev node_state_value : NodeMembershipState → String
node_state_value NodeMembershipState.joining = "JOINING"
node_state_value NodeMembershipState.active = "ACTIVE"
node_state_value NodeMembershipState.draining = "DRAINING"
node_state_value NodeMembershipState.removed = "REMOVED"

unfoldable pub node_state_from : String → NodeMembershipState
node_state_from s =
    if s == "JOINING"
    then NodeMembershipState.joining
    else if s == "ACTIVE"
    then NodeMembershipState.active
    else if s == "DRAINING"
    then NodeMembershipState.draining
    else if s == "REMOVED"
    then NodeMembershipState.removed
    else NodeMembershipState.active

abbrev migration_state_value : MigrationState → String
migration_state_value MigrationState.pending = "PENDING"
migration_state_value MigrationState.preparing = "PREPARING"
migration_state_value MigrationState.copying = "COPYING"
migration_state_value MigrationState.verifying = "VERIFYING"
migration_state_value MigrationState.committing = "COMMITTING"
migration_state_value MigrationState.completed = "COMPLETED"
migration_state_value MigrationState.failed = "FAILED"
migration_state_value MigrationState.cancelled = "CANCELLED"

unfoldable pub migration_state_from : String → MigrationState
migration_state_from s =
    if s == "PENDING"
    then MigrationState.pending
    else if s == "PREPARING"
    then MigrationState.preparing
    else if s == "COPYING"
    then MigrationState.copying
    else if s == "VERIFYING"
    then MigrationState.verifying
    else if s == "COMMITTING"
    then MigrationState.committing
    else if s == "COMPLETED"
    then MigrationState.completed
    else if s == "FAILED"
    then MigrationState.failed
    else if s == "CANCELLED"
    then MigrationState.cancelled
    else MigrationState.pending

-- `Shard.to_dict`, `ClusterNode.to_dict`, `ShardMigration.to_dict`
unfoldable pub shard_to_dict : Shard → Object
shard_to_dict s =
    ("id", Json.text s.id)
    ∷ ("namespace", Json.text s.namespace)
    ∷ ("node_id", Json.text s.node_id)
    ∷ ("primary_owner", Json.text s.node_id)
    ∷ ("state", Json.text (shard_state_value s.state))
    ∷ ("vector_count", Json.number s.vector_count)
    ∷ ("max_vectors", Json.number s.max_vectors)
    ∷ ("replicas", Json.texts s.replicas)
    ∷ ("version", Json.number s.version)
    ∷ []

unfoldable pub node_to_dict : ClusterNode → Object
node_to_dict n =
    ("node_id", Json.text n.node_id)
    ∷ ("cluster_id", Json.text n.cluster_id)
    ∷ ("membership_state", Json.text (node_state_value n.state))
    ∷ ("version", Json.number n.version)
    ∷ []

unfoldable pub migration_to_dict : ShardMigration → Object
migration_to_dict m =
    ("migration_id", Json.text m.migration_id)
    ∷ ("namespace", Json.text m.namespace)
    ∷ ("shard_id", Json.text m.shard_id)
    ∷ ("source_node_id", Json.text m.source_node_id)
    ∷ ("target_node_id", Json.text m.target_node_id)
    ∷ ("state", Json.text (migration_state_value m.state))
    ∷ ("source_version", Json.number m.source_version)
    ∷ ("cluster_id", Json.text m.cluster_id)
    ∷ ("created_at", Json.number m.created_at)
    ∷ ("updated_at", Json.number m.updated_at)
    ∷ ("error", note_or_null m.error)
    ∷ ("version", Json.number m.version)
    ∷ ("source_digest", text_or_null m.source_digest)
    ∷ ("target_digest", text_or_null m.target_digest)
    ∷ ("finalized", Json.boolean m.finalized)
    ∷ []

-- `a or b` for texts
abbrev text_or : String → String → String
text_or a b = if a == "" then b else a

-- `_shard_from_dict`, where `now` is the reading of `time.time()`
unfoldable pub shard_from_dict : ℕ → Object → Shard
unfolding state_from
shard_from_dict now d = record {
  id = as_text "" (lookup "id" d);
  namespace = as_text "" (lookup "namespace" d);
  node_id = text_or (as_text "" (lookup "node_id" d)) (as_text "" (lookup "primary_owner" d));
  state = state_from (as_text "ACTIVE" (lookup "state" d));
  vector_count = as_number 0 (lookup "vector_count" d);
  max_vectors = as_number 50000000000 (lookup "max_vectors" d);
  replicas = as_texts (lookup "replicas" d);
  created_at = as_number now (lookup "created_at" d);
  version = as_number 1 (lookup "version" d);
}

-- `_node_from_dict`
unfoldable pub node_from_dict : Object → ClusterNode
unfolding node_state_from
node_from_dict d = record {
  node_id = as_text "" (lookup "node_id" d);
  cluster_id = as_text "" (lookup "cluster_id" d);
  state = node_state_from (as_text "ACTIVE" (lookup "membership_state" d));
  version = as_number 1 (lookup "version" d);
}

-- `_migration_from_dict`
unfoldable pub migration_from_dict : Object → ShardMigration
unfolding migration_state_from
migration_from_dict d = record {
  migration_id = as_text "" (lookup "migration_id" d);
  namespace = as_text "" (lookup "namespace" d);
  shard_id = as_text "" (lookup "shard_id" d);
  source_node_id = as_text "" (lookup "source_node_id" d);
  target_node_id = as_text "" (lookup "target_node_id" d);
  state = migration_state_from (as_text "PENDING" (lookup "state" d));
  source_version = as_number 1 (lookup "source_version" d);
  cluster_id = as_text "vsector-cluster-default" (lookup "cluster_id" d);
  created_at = as_number 0 (lookup "created_at" d);
  updated_at = as_number 0 (lookup "updated_at" d);
  error = as_note (lookup "error" d);
  version = as_number 1 (lookup "version" d);
  source_digest = as_text? (lookup "source_digest" d);
  target_digest = as_text? (lookup "target_digest" d);
  finalized = as_boolean (lookup "finalized" d);
}

same_text : (s : String) → text_or s s ≡ s
same_text s = either (s == "")
  where
    either : (b : Bool) → (if b then s else s) ≡ s
    either true = refl
    either false = refl

shard_state_back : (s : ShardState) → state_from (shard_state_value s) ≡ s
unfolding state_from
shard_state_back ShardState.creating = refl
shard_state_back ShardState.active = refl
shard_state_back ShardState.draining = refl
shard_state_back ShardState.offline = refl
shard_state_back ShardState.splitting = refl
shard_state_back ShardState.retired = refl

node_state_back : (s : NodeMembershipState) → node_state_from (node_state_value s) ≡ s
unfolding node_state_from
node_state_back NodeMembershipState.joining = refl
node_state_back NodeMembershipState.active = refl
node_state_back NodeMembershipState.draining = refl
node_state_back NodeMembershipState.removed = refl

migration_state_back : (s : MigrationState) → migration_state_from (migration_state_value s) ≡ s
unfolding migration_state_from
migration_state_back MigrationState.pending = refl
migration_state_back MigrationState.preparing = refl
migration_state_back MigrationState.copying = refl
migration_state_back MigrationState.verifying = refl
migration_state_back MigrationState.committing = refl
migration_state_back MigrationState.completed = refl
migration_state_back MigrationState.failed = refl
migration_state_back MigrationState.cancelled = refl

note_back : (o : Option FailureNote) → as_note (some (note_or_null o)) ≡ o
note_back none = refl
note_back (some n) = refl

text_back : (o : Option String) → as_text? (some (text_or_null o)) ≡ o
text_back none = refl
text_back (some s) = refl

-- Reading a record back from what it was written as: a shard comes back with the time of the read
-- as its creation.
pub shard_from_dict-shard_to_dict :
    (now : ℕ) (s : Shard) → shard_from_dict now (shard_to_dict s) ≡ record s { created_at = now }
unfolding shard_from_dict shard_to_dict lookup
shard_from_dict-shard_to_dict now s = λ i. record s {
  created_at = now;
  node_id = same_text s.node_id i;
  state = shard_state_back s.state i;
}

pub node_from_dict-node_to_dict : (n : ClusterNode) → node_from_dict (node_to_dict n) ≡ n
unfolding node_from_dict node_to_dict lookup
node_from_dict-node_to_dict n = λ i. record n { state = node_state_back n.state i }

pub migration_from_dict-migration_to_dict :
    (m : ShardMigration) → migration_from_dict (migration_to_dict m) ≡ m
unfolding migration_from_dict migration_to_dict lookup
migration_from_dict-migration_to_dict m = λ i. record m {
  state = migration_state_back m.state i;
  error = note_back m.error i;
  source_digest = text_back m.source_digest i;
  target_digest = text_back m.target_digest i;
}
