-- ===== src/Gateway/Examples.antt =====
-- Two keys at the rate limiter, and a breaker that trips.
use vsector.Base.{◌+◌, ◌≤◌, ◌≡◌, refl, false, none, some, List, [], ◌∷◌, select, length, arith}
use vsector.Gateway.{is_recent, api_keys, quota_of, new_breaker, allow, record_failure}
use vsector.Gateway.Limits.{Request, IsTimed, times, serve, serve-quota}
use vsector.Gateway.Breaker.{Event, failed_since, last_failed, run, happens, allow_refuses}

abbrev requests : List Request
requests = (none, 1) ∷ (some "test-key", 2) ∷ (none, 3) ∷ (none, 4) ∷ []

timed : IsTimed 0 requests 5
timed = (omega arith, (omega arith, (omega arith, (omega arith, omega arith))))

serve-quota_example :
    length (select (is_recent 10 5) (times "anonymous" (serve 10 2 api_keys requests [] []).0))
    ≤ quota_of 2 api_keys "anonymous"
serve-quota_example = serve-quota 10 2 api_keys requests 5 "anonymous" timed

abbrev events : List Event
events = Event.success ∷ Event.failure 3 ∷ Event.asked 4 ∷ Event.failure 5 ∷ []

refused : (allow 6 (run events (new_breaker 2 30))).0 ≡ false
unfolding allow run happens record_failure
refused = refl

allow_refuses_example : (2 ≤ failed_since events 0) × (6 ≤ last_failed events 0 + 30)
allow_refuses_example = allow_refuses 2 30 (omega arith) events 6 refused
