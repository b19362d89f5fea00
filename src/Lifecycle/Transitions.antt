-- ===== src/Lifecycle/Transitions.antt =====
-- Lifecycle transitions are atomic.
use vsector.Base.{◌+◌, ◌≡◌, true, arith, Option, String}
use vsector.Exec.{Done, Result, ok, err, ◌>>=◌, try_except}
use vsector.Shard.{Shard}
use vsector.Shard.State.{ShardState, may_move}
use vsector.Lifecycle.{Held, transition}

module _ {St : Type 0} (put : Shard → St → Result Done × St)
    (membership : Option (String → St → Result Done)) where
  -- what a transition to `to` from `h` has done, by how it ended
  abbrev pub Transitioned : ShardState → Held St → Result Shard × Held St → Type 0
  Transitioned to h (ok s, t) =
      (may_move h.shard.state to ≡ true)
      × (s ≡ record (h.shard) { state = to; version = h.shard.version + 1 })
      × (t.shard ≡ s)
      × (put s h.store ≡ (ok tt, t.store))
  Transitioned to h (err e, t) = t.shard ≡ h.shard

  -- `transition` on every branch: it returns the shard in the new state, one version higher, only
  -- for an allowed move that the store took; after any error the shard is what it was.
  pub transition-Transitioned :
      (to : ShardState) (h : Held St) → Transitioned to h (transition put membership to h)
  unfolding transition ◌>>=◌ try_except
  transition-Transitioned to h = ground arith
