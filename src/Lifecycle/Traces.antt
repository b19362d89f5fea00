-- ===== src/Lifecycle/Traces.antt =====
-- Sequences of `transition` and `change_owner` on one shard: what holds after any of them.
use vsector.Base.{
  ap, ◌∙◌, ◌+◌, ◌≤◌, ◌≡◌, ◌≢◌, refl, true, false, arith, Option, String, List, [], ◌∷◌, contains,
  ◌==◌, inl, inr,
}
use vsector.Exec.{Done, Result, ok, err}
use vsector.Shard
use vsector.Shard.{Shard}
use vsector.Shard.State.{ShardState, may_move}
use vsector.Lifecycle.{Held, transition, change_owner}
use vsector.Lifecycle.Transitions.{Transitioned, transition-Transitioned}
use vsector.Lifecycle.Ownership.{OwnerChanged, change_owner-OwnerChanged}

-- The calls on a shard that is set up; `create` is not one of them.
pub data Op : Type 0 where
  moves : ShardState → Op
  changes : String → Option (List String) → Op

-- What one call may do to the shard: nothing but its version, an allowed move, or a new owner.
pub data Edit (s : Shard) : Shard → Type 0 where
  kept : {t : Shard} → t ≡ s → Edit s t
  counted :
      {t : Shard}
      → s.state ≡ ShardState.draining
      → t ≡ record s { version = s.version + 1 }
      → Edit s t
  moved :
      {t : Shard} (to : ShardState)
      → may_move s.state to ≡ true
      → t ≡ record s { state = to; version = s.version + 1 }
      → Edit s t
  reowned :
      {t : Shard} (o : String) (rs : List String)
      → s.state ≡ ShardState.draining
      → (o == "") ≡ false
      → contains o rs ≡ false
      → t ≡ record s { node_id = o; replicas = rs; version = s.version + 1 }
      → Edit s t

-- A chain of changes.
data Edits (s : Shard) : Shard → Type 0 where
  none_yet : Edits s s
  then_one : {t u : Shard} → Edits s t → Edit t u → Edits s u

Edits-trans : {s t u : Shard} → Edits s t → Edits t u → Edits s u
Edits-trans r none_yet = r
Edits-trans r (then_one q c) = then_one (Edits-trans r q) c

-- What none of these calls on the shard can undo: its identity, its version, its owner's validity, OFFLINE.
pub record Follows (s t : Shard) : Type 0 where
  pub same_id : t.id ≡ s.id
  pub same_namespace : t.namespace ≡ s.namespace
  pub newer : s.version ≤ t.version
  pub owned : Shard.validate_ownership s ≡ ok tt → Shard.validate_ownership t ≡ ok tt
  pub offline_stays : s.state ≡ ShardState.offline → t ≡ s

Edit-Follows : {s t : Shard} → Edit s t → Follows s t
unfolding Shard.validate_ownership may_move
Edit-Follows (kept e) = ground arith
Edit-Follows (counted d e) = ground arith
Edit-Follows (moved to m e) = ground arith
Edit-Follows (reowned o rs d n c e) = ground arith

Follows-trans : {s t u : Shard} → Follows s t → Follows t u → Follows s u
Follows-trans f g = record {
  same_id = g.same_id ∙ f.same_id;
  same_namespace = g.same_namespace ∙ f.same_namespace;
  newer = omega (arith, f.newer, g.newer);
  owned = λ h. g.owned (f.owned h);
  offline_stays = λ h. g.offline_stays (ap Shard.state (f.offline_stays h) ∙ h) ∙ f.offline_stays h;
}

Edits-Follows : {s t : Shard} → Edits s t → Follows s t
Edits-Follows {s} none_yet = record {
  same_id = refl;
  same_namespace = refl;
  newer = omega arith;
  owned = λ h. h;
  offline_stays = λ h. refl;
}
Edits-Follows (then_one r c) = Follows-trans (Edits-Follows r) (Edit-Follows c)

module _ {St : Type 0} (put : Shard → St → Result Done × St)
    (membership : Option (String → St → Result Done)) where
  unfoldable pub perform : Op → Held St → Result Shard × Held St
  unfolding transition change_owner
  perform (moves to) h = transition put membership to h
  perform (changes o rs) h = change_owner put membership o rs h

  unfoldable pub run : List Op → Held St → Held St
  run [] h = h
  run (op ∷ ops) h = run ops (perform op h).1

  transition-Edit :
      (to : ShardState) (h : Held St) (r : Result Shard × Held St)
      → Transitioned put membership to h r
      → Edit h.shard r.1.shard
  transition-Edit to h (ok s, t) (allowed, result, stored, _) =
      moved to allowed (cc (result, stored))
  transition-Edit to h (err e, t) same = kept same

  change_owner-Edit :
      (o : String) (rs : List String) (h : Held St) (r : Result Shard × Held St)
      → OwnerChanged put membership o rs h r
      → Edit h.shard r.1.shard
  change_owner-Edit o rs h (ok s, t) (may, result, stored, _) =
      reowned o rs may.draining may.named may.no_replica (cc (result, stored))
  change_owner-Edit o rs h (err e, t) (inl same) = kept (cc same)
  change_owner-Edit o rs h (err e, t) (inr (may, _, counts)) = counted may.draining counts

  perform-Edit : (op : Op) (h : Held St) → Edit h.shard (perform op h).1.shard
  unfolding perform
  perform-Edit (moves to) h = transition-Edit to h _ (transition-Transitioned put membership to h)
  perform-Edit (changes o rs) h =
      change_owner-Edit o _ h _ (change_owner-OwnerChanged put membership o rs h)

  run-Edits : (ops : List Op) (h : Held St) → Edits h.shard (run ops h).shard
  unfolding run
  run-Edits [] h = none_yet
  run-Edits (op ∷ ops) h =
      Edits-trans (then_one none_yet (perform-Edit op h)) (run-Edits ops (perform op h).1)

  -- After any calls of `transition` and `change_owner` on a shard, failing or not: it has its id and
  -- namespace, a version that has not fallen, a valid owner if it had one, and it is unchanged if it
  -- was OFFLINE. A call of `create`, which sets a shard up anew, is not among them.
  pub run-Follows : (ops : List Op) (h : Held St) → Follows h.shard (run ops h).shard
  run-Follows ops h = Edits-Follows (run-Edits ops h)

  -- A call of `transition` or `change_owner` after which the shard's object names another owner
  -- found the shard DRAINING and left it so. This is not said of `create`, which may name another
  -- owner in any state.
  pub perform_owner_draining :
      (op : Op) (h : Held St)
      → (perform op h).1.shard.node_id ≢ h.shard.node_id
      → (h.shard.state ≡ ShardState.draining) × ((perform op h).1.shard.state ≡ ShardState.draining)
  perform_owner_draining op h = go (perform-Edit op h)
    where
      go :
          {t : Shard}
          → Edit h.shard t
          → t.node_id ≢ h.shard.node_id
          → (h.shard.state ≡ ShardState.draining) × (t.state ≡ ShardState.draining)
      go (kept e) ne = absurd (ne (ap Shard.node_id e))
      go (counted d e) ne = absurd (ne (ap Shard.node_id e))
      go (moved to m e) ne = absurd (ne (ap Shard.node_id e))
      go (reowned o rs d n c e) ne = (d, ap Shard.state e ∙ d)
