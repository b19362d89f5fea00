-- ===== src/Lifecycle/Examples.antt =====
-- The theorems of the shard lifecycle at one shard, with a store that is a list and may refuse.
use vsector.Base.{
  String, ◌≡◌, ◌≢◌, refl, ne_of_eq_false, Option, none, some, List, [], ◌∷◌, ◌==◌, if◌then◌else◌,
}
use vsector.Errors.{Error}
use vsector.Exec.{Done, Result, ok, err, ◌>>=◌, try_except}
use vsector.Shard.{Shard}
use vsector.Shard.State.{ShardState}
use vsector.Lifecycle.{Held, transition, change_owner, create, apply_owner, put_shard, check_member}
use vsector.Lifecycle.Transitions.{Transitioned, transition-Transitioned}
use vsector.Lifecycle.Ownership.{OwnerChanged, change_owner-OwnerChanged, Created, create-Created}
use vsector.Lifecycle.Traces.{
  Op, moves, changes, perform, run, Follows, run-Follows, perform_owner_draining,
}

-- A store that takes what it is given, and one that is down.
abbrev keep : Shard → List Shard → Result Done × List Shard
keep s st = (ok tt, s ∷ st)

abbrev down : Shard → List Shard → Result Done × List Shard
down s st = (err (Error.other_error "etcd"), st)

abbrev members : Option (String → List Shard → Result Done)
members = some (λ i st. if i == "z" then err (Error.unknown_node i) else ok tt)

abbrev draining : Held (List Shard)
draining = record {
  shard = record {
    id = "s";
    namespace = "ns";
    node_id = "a";
    state = ShardState.draining;
    vector_count = 3;
    max_vectors = 10;
    replicas = "b" ∷ [];
    created_at = 0;
    version = 3;
  };
  store = [];
}

transition-Transitioned_example :
    Transitioned keep members ShardState.offline draining
      (transition keep members ShardState.offline draining)
transition-Transitioned_example = transition-Transitioned keep members ShardState.offline draining

change_owner-OwnerChanged_example :
    OwnerChanged down members "d" ("b" ∷ []) draining (change_owner down members "d" none draining)
change_owner-OwnerChanged_example = change_owner-OwnerChanged down members "d" none draining

create-Created_example :
    Created keep members
      (record (draining.shard) { node_id = "d"; replicas = "b" ∷ [] })
      draining
      (create keep members (some "d") none draining)
create-Created_example = create-Created keep members (some "d") none draining

abbrev calls : List Op
calls = changes "d" none ∷ moves ShardState.offline ∷ moves ShardState.active ∷ []

run-Follows_example : Follows draining.shard (run keep members calls draining).shard
run-Follows_example = run-Follows keep members calls draining

takes_over : (perform keep members (changes "d" none) draining).1.shard.node_id ≢ "a"
unfolding perform change_owner check_member apply_owner put_shard try_except ◌>>=◌
takes_over = ne_of_eq_false "d" "a" refl

perform_owner_draining_example :
    (draining.shard.state ≡ ShardState.draining)
    × ((perform keep members (changes "d" none) draining).1.shard.state ≡ ShardState.draining)
perform_owner_draining_example =
    perform_owner_draining keep members (changes "d" none) draining takes_over
