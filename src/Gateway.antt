-- ===== src/Gateway.antt =====
-- The rate limiter and the circuit breaker of the gateway (vsector/gateway/auth.py). Times are whole
-- numbers of a unit of which a second has `second`. The settings' `rate_limit_rps` and the table of
-- keys are arguments; the table of the source is `api_keys`.
pub mod Limits
pub mod Breaker
mod Examples
use vsector.Base.{
  String, ℕ, ◌+◌, Bool, true, false, not, Option, none, some, List, [], ◌∷◌, ◌++◌, ◌==◌, ltb, leb,
  if◌then◌else◌, select, length,
}
use vsector.Dict.{Dict, lookup, insert}
use vsector.Errors.{Error}
use vsector.Exec.{Result, ok, err}

abbrev pub times_or_none : Option (List ℕ) → List ℕ
times_or_none none = []
times_or_none (some times) = times

-- `_buckets[key]`
abbrev pub bucket : String → Dict (List ℕ) → List ℕ
bucket key buckets = times_or_none (lookup key buckets)

-- `now - t < 1`
abbrev pub is_recent : ℕ → ℕ → ℕ → Bool
is_recent second now t = ltb now (t + second)

pub record ApiKey : Type 0 where
  pub tenant : String
  pub quota : ℕ

-- `API_KEYS`
abbrev pub api_keys : Dict ApiKey
api_keys =
    ("vsector_demo_key", record { tenant = "demo"; quota = 10000 })
    ∷ ("test-key", record { tenant = "test"; quota = 10000 })
    ∷ []

abbrev pub quota_or : ℕ → Option ApiKey → ℕ
quota_or rate_limit_rps none = rate_limit_rps
quota_or rate_limit_rps (some k) = k.quota

abbrev pub quota_of : ℕ → Dict ApiKey → String → ℕ
quota_of rate_limit_rps keys key = quota_or rate_limit_rps (lookup key keys)

-- `x_api_key or "anonymous"`
abbrev pub caller : Option String → String
caller none = "anonymous"
caller (some key) = if key == "" then "anonymous" else key

unfoldable pub limit_rate :
    ℕ → (String → ℕ) → String → ℕ → Dict (List ℕ) → Result String × Dict (List ℕ)
limit_rate second quota key now buckets =
    let window = select (is_recent second now) (bucket key buckets) in
    if leb (quota key) (length window)
    then (err (Error.other_error "429"), insert key window buckets)
    else (ok key, insert key (window ++ (now ∷ [])) buckets)

unfoldable pub rate_limiter :
    ℕ → ℕ → Dict ApiKey → Option String → ℕ → Dict (List ℕ) → Result String × Dict (List ℕ)
unfolding limit_rate
rate_limiter second rate_limit_rps keys x_api_key now buckets =
    limit_rate second (quota_of rate_limit_rps keys) (caller x_api_key) now buckets

pub data BreakerState : Type 0 where
  closed opened half_open : BreakerState

pub record CircuitBreaker : Type 0 where
  pub failure_threshold : ℕ
  pub recovery_timeout : ℕ
  pub failures : ℕ
  pub last_failure : ℕ
  pub state : BreakerState

abbrev pub new_breaker : ℕ → ℕ → CircuitBreaker
new_breaker failure_threshold recovery_timeout = record {
  failure_threshold = failure_threshold;
  recovery_timeout = recovery_timeout;
  failures = 0;
  last_failure = 0;
  state = BreakerState.closed;
}

unfoldable pub record_success : CircuitBreaker → CircuitBreaker
record_success b = record b { failures = 0; state = BreakerState.closed }

unfoldable pub record_failure : ℕ → CircuitBreaker → CircuitBreaker
record_failure now b = record b {
  failures = b.failures + 1;
  last_failure = now;
  state = if leb b.failure_threshold (b.failures + 1) then BreakerState.opened else b.state;
}

unfoldable pub allow : ℕ → CircuitBreaker → Bool × CircuitBreaker
allow now b = elim b.state [
  | BreakerState.closed ↦ (true, b)
  | BreakerState.half_open ↦ (true, b)
  | BreakerState.opened ↦
      if ltb (b.last_failure + b.recovery_timeout) now
      then (true, record b { state = BreakerState.half_open })
      else (false, b)
]
