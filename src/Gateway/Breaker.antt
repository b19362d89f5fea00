-- ===== src/Gateway/Breaker.antt =====
-- When the circuit breaker refuses a call.
use mathlib.Core.Path.{subst}
use vsector.Base.{
  ℕ, ◌+◌, ◌≤◌, ◌<◌, ◌≡◌, refl, ap, Bool, true, false, List, [], ◌∷◌, ltb, leb, arith, Bool-cases,
  inl, inr, ◌⊎◌,
}
use vsector.Gateway.{
  BreakerState, CircuitBreaker, new_breaker, record_success, record_failure, allow,
}

-- What happens to a breaker: a success, a failure at a time, a question at a time.
pub data Event : Type 0 where
  success : Event
  failure asked : ℕ → Event

unfoldable pub happens : Event → CircuitBreaker → CircuitBreaker
unfolding record_success record_failure allow
happens success b = record_success b
happens (failure now) b = record_failure now b
happens (asked now) b = (allow now b).1

unfoldable pub run : List Event → CircuitBreaker → CircuitBreaker
unfolding happens
run [] b = b
run (e ∷ es) b = run es (happens e b)

-- The failures since the last success, where there were `n` before.
abbrev pub failed_since : List Event → ℕ → ℕ
failed_since [] n = n
failed_since (success ∷ es) n = failed_since es 0
failed_since (failure _ ∷ es) n = failed_since es (n + 1)
failed_since (asked _ ∷ es) n = failed_since es n

-- The time of the last failure, where it was `t` before.
abbrev pub last_failed : List Event → ℕ → ℕ
last_failed [] t = t
last_failed (success ∷ es) t = last_failed es t
last_failed (failure now ∷ es) t = last_failed es now
last_failed (asked _ ∷ es) t = last_failed es t

apart : {b : Bool} → b ≡ true → b ≡ false → ⊥
apart h i = cc

-- Closed below the threshold, and not closed from there on.
abbrev StateFits : ℕ → ℕ → BreakerState → Type 0
StateFits threshold n BreakerState.closed = n < threshold
StateFits threshold n BreakerState.opened = threshold ≤ n
StateFits threshold n BreakerState.half_open = threshold ≤ n

record Counts (threshold timeout n t : ℕ) (b : CircuitBreaker) : Type 0 where
  threshold_is : b.failure_threshold ≡ threshold
  timeout_is : b.recovery_timeout ≡ timeout
  last_is : b.last_failure ≡ t
  counted : b.failures ≡ n
  fits : StateFits threshold n b.state

module _ (threshold timeout : ℕ) (positive : 0 < threshold) where
  failed-Counts :
      (n t now : ℕ) (b : CircuitBreaker)
      → Counts threshold timeout n t b
      → Counts threshold timeout (n + 1) now (record_failure now b)
  unfolding record_failure
  failed-Counts n t now b c = record {
    threshold_is = c.threshold_is;
    timeout_is = c.timeout_is;
    last_is = refl;
    counted = ap (λ x. x + 1) c.counted;
    fits = either (Bool-cases (leb b.failure_threshold (b.failures + 1)));
  }
    where
      stays :
          (s : BreakerState)
          → StateFits threshold n s
          → n + 1 < threshold
          → StateFits threshold (n + 1) s
      stays BreakerState.closed h less = less
      stays BreakerState.opened h less = omega arith
      stays BreakerState.half_open h less = omega arith

      either :
          (leb b.failure_threshold (b.failures + 1) ≡ true)
            ⊎ (leb b.failure_threshold (b.failures + 1) ≡ false)
          → StateFits threshold (n + 1) (record_failure now b).state
      either (inl trips) = rw trips (ground (arith, c.threshold_is, c.counted))
      either (inr below) =
          rw below (stays b.state c.fits (ground (arith, c.threshold_is, c.counted)))

  succeeded-Counts :
      (n t : ℕ) (b : CircuitBreaker)
      → Counts threshold timeout n t b
      → Counts threshold timeout 0 t (record_success b)
  unfolding record_success
  succeeded-Counts n t b c = record {
    threshold_is = c.threshold_is;
    timeout_is = c.timeout_is;
    last_is = c.last_is;
    counted = refl;
    fits = positive;
  }

  asked-Counts :
      (n t now : ℕ) (b : CircuitBreaker)
      → Counts threshold timeout n t b
      → Counts threshold timeout n t (allow now b).1
  unfolding allow
  asked-Counts n t now b c = go b.state refl
    where
      same :
          (s : BreakerState)
          → StateFits threshold n s
          → Counts threshold timeout n t (record b { state = s })
      same s fits = record {
        threshold_is = c.threshold_is;
        timeout_is = c.timeout_is;
        last_is = c.last_is;
        counted = c.counted;
        fits = fits;
      }

      go : (s : BreakerState) → b.state ≡ s → Counts threshold timeout n t (allow now b).1
      go BreakerState.closed h =
          rw h (same BreakerState.closed (subst (StateFits threshold n) h c.fits))
      go BreakerState.half_open h =
          rw h (same BreakerState.half_open (subst (StateFits threshold n) h c.fits))
      go BreakerState.opened h = either (Bool-cases (ltb (b.last_failure + b.recovery_timeout) now))
        where
          fits : threshold ≤ n
          fits = subst (StateFits threshold n) h c.fits

          either :
              (ltb (b.last_failure + b.recovery_timeout) now ≡ true)
                ⊎ (ltb (b.last_failure + b.recovery_timeout) now ≡ false)
              → Counts threshold timeout n t (allow now b).1
          either (inl late) = rw (h, late) (same BreakerState.half_open fits)
          either (inr early) = rw (h, early) (same BreakerState.opened fits)

  run-Counts :
      (es : List Event) (n t : ℕ) (b : CircuitBreaker)
      → Counts threshold timeout n t b
      → Counts threshold timeout (failed_since es n) (last_failed es t) (run es b)
  unfolding run happens
  run-Counts [] n t b c = c
  run-Counts (success ∷ es) n t b c = run-Counts es 0 t _ (succeeded-Counts n t b c)
  run-Counts (failure now ∷ es) n t b c = run-Counts es (n + 1) now _ (failed-Counts n t now b c)
  run-Counts (asked now ∷ es) n t b c = run-Counts es n t _ (asked-Counts n t now b c)

  -- When a breaker that was new refuses a call, at least as many failures as the threshold, which
  -- is positive, came since the last success, and the recovery time has not passed since the last
  -- failure.
  pub allow_refuses :
      (es : List Event) (now : ℕ)
      → (allow now (run es (new_breaker threshold timeout))).0 ≡ false
      → (threshold ≤ failed_since es 0) × (now ≤ last_failed es 0 + timeout)
  unfolding allow
  allow_refuses es now refused = go _ refl
    where
      b : CircuitBreaker
      b = run es (new_breaker threshold timeout)

      c : Counts threshold timeout (failed_since es 0) (last_failed es 0) b
      c = run-Counts es 0 0 (new_breaker threshold timeout) (record {
        threshold_is = refl;
        timeout_is = refl;
        last_is = refl;
        counted = refl;
        fits = positive;
      })

      never : (allow now b).0 ≡ true → ⊥
      never answered = apart answered refused

      go :
          (s : BreakerState)
          → b.state ≡ s
          → (threshold ≤ failed_since es 0) × (now ≤ last_failed es 0 + timeout)
      go BreakerState.closed h = absurd (never (rw h refl))
      go BreakerState.half_open h = absurd (never (rw h refl))
      go BreakerState.opened h = either (Bool-cases (ltb (b.last_failure + b.recovery_timeout) now))
        where
          either :
              (ltb (b.last_failure + b.recovery_timeout) now ≡ true)
                ⊎ (ltb (b.last_failure + b.recovery_timeout) now ≡ false)
              → (threshold ≤ failed_since es 0) × (now ≤ last_failed es 0 + timeout)
          either (inl late) = absurd (never (rw (h, late) refl))
          either (inr early) = (
            subst (StateFits threshold (failed_since es 0)) h c.fits,
            ground (arith, early, c.last_is, c.timeout_is),
          )
