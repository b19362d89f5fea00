-- ===== src/Gateway/Limits.antt =====
-- How many calls the rate limiter lets through.
use vsector.Base.{
  String, ℕ, ◌≤◌, ◌<◌, ◌≡◌, refl, sym, ap, ◌∙◌, Bool, true, false, Option, some, List, [], ◌∷◌,
  ◌++◌, ◌==◌, leb, arith, eq_refl, if◌then◌else◌, select, length, length-append, Bool-cases,
  String-cases, inl, inr, ◌⊎◌,
}
use mathlib.Core.Path.{subst}
use mathlib.Core.List.{append-nil}
use vsector.Dict.{Dict, lookup, insert, lookup-insert}
use vsector.Exec.{Result, ok, err}
use vsector.Gateway.{
  ApiKey, bucket, times_or_none, is_recent, quota_of, caller, limit_rate, rate_limiter,
}

-- A call: its key and its time.
abbrev pub Call : Type 0
Call = String × ℕ

-- A request: its header and its time.
abbrev pub Request : Type 0
Request = Option String × ℕ

-- The times of the calls with a key.
abbrev pub times : String → List Call → List ℕ
times key [] = []
times key ((k, t) ∷ calls) = if k == key then t ∷ times key calls else times key calls

abbrev let_through : Call → Result String → List Call → List Call
let_through c (ok _) accepted = accepted ++ (c ∷ [])
let_through c (err _) accepted = accepted

-- The calls that were let through so far, in order, and the buckets.
unfoldable pub serve :
    ℕ → ℕ → Dict ApiKey → List Request → List Call → Dict (List ℕ) → List Call × Dict (List ℕ)
unfolding rate_limiter
serve second rate_limit_rps keys [] accepted buckets = (accepted, buckets)
serve second rate_limit_rps keys ((x_api_key, now) ∷ requests) accepted buckets =
    let (r, buckets') = rate_limiter second rate_limit_rps keys x_api_key now buckets in
    serve second rate_limit_rps keys requests (let_through (caller x_api_key, now) r accepted)
      buckets'

-- The clock does not run backwards, and `now` is no earlier than any request.
abbrev pub IsTimed : ℕ → List Request → ℕ → Type 0
IsTimed start [] now = start ≤ now
IsTimed start ((_, t) ∷ requests) now = (start ≤ t) × IsTimed t requests now

select-append : (p : ℕ → Bool) (xs ys : List ℕ) → select p (xs ++ ys) ≡ select p xs ++ select p ys
select-append p [] ys = refl
select-append p (x ∷ xs) ys = ground (arith, select-append p xs ys)

length-select : (p : ℕ → Bool) (xs : List ℕ) → length (select p xs) ≤ length xs
length-select p [] = omega arith
length-select p (x ∷ xs) = ground (arith, length-select p xs)

-- What is recent later was recent before.
select-select :
    (second now later : ℕ) (xs : List ℕ)
    → now ≤ later
    → select (is_recent second later) (select (is_recent second now) xs)
      ≡ select (is_recent second later) xs
select-select second now later [] h = refl
select-select second now later (x ∷ xs) h = ground (arith, select-select second now later xs h)

times-append :
    (key : String) (calls : List Call) (k : String) (t : ℕ)
    → times key (calls ++ ((k, t) ∷ [])) ≡ times key calls ++ (if k == key then t ∷ [] else [])
times-append key [] k t = refl
times-append key ((j, s) ∷ calls) k t = rw (times-append key calls k t) (either (j == key))
  where
    either :
        (b : Bool)
        → (if b
            then s ∷ (times key calls ++ (if k == key then t ∷ [] else []))
            else times key calls ++ (if k == key then t ∷ [] else []))
          ≡ (if b then s ∷ times key calls else times key calls)
            ++ (if k == key then t ∷ [] else [])
    either true = refl
    either false = refl

module _ (second : ℕ) (quota : String → ℕ) where
  -- The bucket of a key has the recent times of what was let through, and no more than the quota.
  record Limited (now : ℕ) (accepted : List Call) (buckets : Dict (List ℕ)) : Type 0 where
    recent :
        (key : String) (later : ℕ)
        → now ≤ later
        → select (is_recent second later) (times key accepted)
          ≡ select (is_recent second later) (bucket key buckets)
    bounded : (key : String) → length (bucket key buckets) ≤ quota key

bucket-insert :
    (key k : String) (w : List ℕ) (buckets : Dict (List ℕ))
    → bucket k (insert key w buckets) ≡ (if key == k then w else bucket k buckets)
bucket-insert key k w buckets = ap times_or_none (lookup-insert key k w buckets) ∙ either (key == k)
  where
    either :
        (b : Bool)
        → times_or_none (if b then some w else lookup k buckets)
          ≡ (if b then w else bucket k buckets)
    either true = refl
    either false = refl

module _ (second : ℕ) (quota : String → ℕ) (start now : ℕ) (key : String) (accepted : List Call)
    (buckets : Dict (List ℕ)) (h : Limited second quota start accepted buckets)
    (le : start ≤ now) where
  abbrev window : List ℕ
  window = select (is_recent second now) (bucket key buckets)

  refused-Limited : Limited second quota now accepted (insert key window buckets)
  refused-Limited = record {
    recent = λ k later le'.
        h.recent k later (omega arith)
        ∙ sym (
            ap (select (is_recent second later)) (bucket-insert key k window buckets)
            ∙ cases k later le' (String-cases key k));
    bounded = λ k. rw (bucket-insert key k window buckets) (bound k (String-cases key k));
  }
    where
      cases :
          (k : String) (later : ℕ)
          → now ≤ later
          → (key ≡ k) ⊎ ((key == k) ≡ false)
          → select (is_recent second later) (if key == k then window else bucket k buckets)
            ≡ select (is_recent second later) (bucket k buckets)
      cases k later le' (inl same) =
          subst
            (λ x.
              select (is_recent second later) (if key == x then window else bucket x buckets)
              ≡ select (is_recent second later) (bucket x buckets))
            same (rw (eq_refl key) (select-select second now later (bucket key buckets) le'))
      cases k later le' (inr other) = rw other refl

      bound :
          (k : String)
          → (key ≡ k) ⊎ ((key == k) ≡ false)
          → length (if key == k then window else bucket k buckets) ≤ quota k
      bound k (inl same) =
          subst (λ x. length (if key == x then window else bucket x buckets) ≤ quota x) same
            (rw (eq_refl key) (
              omega
                (arith, length-select (is_recent second now) (bucket key buckets), h.bounded key)))
      bound k (inr other) = rw other (h.bounded k)

  accepted-Limited :
      length window < quota key
      → Limited second quota now
          (accepted ++ ((key, now) ∷ []))
          (insert key (window ++ (now ∷ [])) buckets)
  accepted-Limited room = record {
    recent = λ k later le'.
        ap (select (is_recent second later)) (times-append k accepted key now)
        ∙ select-append (is_recent second later) (times k accepted)
            (if key == k then now ∷ [] else [])
        ∙ ap (λ l. l ++ select (is_recent second later) (if key == k then now ∷ [] else []))
            (h.recent k later (omega arith))
        ∙ cases k later le' (String-cases key k)
        ∙ sym (
            ap (select (is_recent second later))
              (bucket-insert key k (window ++ (now ∷ [])) buckets));
    bounded =
        λ k. rw (bucket-insert key k (window ++ (now ∷ [])) buckets) (bound k (String-cases key k));
  }
    where
      cases :
          (k : String) (later : ℕ)
          → now ≤ later
          → (key ≡ k) ⊎ ((key == k) ≡ false)
          → select (is_recent second later) (bucket k buckets)
              ++ select (is_recent second later) (if key == k then now ∷ [] else [])
            ≡ select
                (is_recent second later)
                (if key == k then window ++ (now ∷ []) else bucket k buckets)
      cases k later le' (inl same) =
          subst
            (λ x.
              select (is_recent second later) (bucket x buckets)
                ++ select (is_recent second later) (if key == x then now ∷ [] else [])
              ≡ select (is_recent second later)
                  (if key == x then window ++ (now ∷ []) else bucket x buckets))
            same
            (rw (eq_refl key) (
              sym (
                select-append (is_recent second later) window (now ∷ [])
                ∙ ap (λ l. l ++ select (is_recent second later) (now ∷ []))
                    (select-select second now later (bucket key buckets) le'))))
      cases k later le' (inr other) = rw other (append-nil _)

      bound :
          (k : String)
          → (key ≡ k) ⊎ ((key == k) ≡ false)
          → length (if key == k then window ++ (now ∷ []) else bucket k buckets) ≤ quota k
      bound k (inl same) =
          subst
            (λ x. length (if key == x then window ++ (now ∷ []) else bucket x buckets) ≤ quota x)
            same (rw (eq_refl key) (omega (arith, length-append window (now ∷ []), room)))
      bound k (inr other) = rw other (h.bounded k)

module _ (second : ℕ) (quota : String → ℕ) where
  limit_rate-Limited :
      (start now : ℕ) (key : String) (accepted : List Call) (buckets : Dict (List ℕ))
      → Limited second quota start accepted buckets
      → start ≤ now
      → let (r, buckets') = limit_rate second quota key now buckets in
        Limited second quota now (let_through (key, now) r accepted) buckets'
  unfolding limit_rate
  limit_rate-Limited start now key accepted buckets h le =
      either (Bool-cases (leb (quota key) (length recent)))
    where
      recent : List ℕ
      recent = select (is_recent second now) (bucket key buckets)

      either :
          (leb (quota key) (length recent) ≡ true) ⊎ (leb (quota key) (length recent) ≡ false)
          → let (r, buckets') = limit_rate second quota key now buckets in
            Limited second quota now (let_through (key, now) r accepted) buckets'
      either (inl full) = rw full (refused-Limited second quota start now key accepted buckets h le)
      either (inr room) =
          rw room (accepted-Limited second quota start now key accepted buckets h le (ground arith))

module _ (second rate_limit_rps : ℕ) (keys : Dict ApiKey) where
  serve-Limited :
      (requests : List Request) (start now : ℕ) (accepted : List Call) (buckets : Dict (List ℕ))
      → Limited second (quota_of rate_limit_rps keys) start accepted buckets
      → IsTimed start requests now
      → let (let_in, buckets') = serve second rate_limit_rps keys requests accepted buckets in
        (key : String)
        → length (select (is_recent second now) (times key let_in))
          ≤ quota_of rate_limit_rps keys key
  unfolding serve rate_limiter
  serve-Limited [] start now accepted buckets h le key =
      rw (h.recent key now le)
        (omega (arith, length-select (is_recent second now) (bucket key buckets), h.bounded key))
  serve-Limited ((x, t) ∷ requests) start now accepted buckets h (le, timed) key =
      serve-Limited requests t now _ _
        (limit_rate-Limited second (quota_of rate_limit_rps keys) start t (caller x) accepted
          buckets h le)
        timed key

  -- In any run of requests, with the clock not running backwards, the calls of a key that were let
  -- through within the second before any later time are no more than the quota of the key: that of
  -- the table of keys, or the default rate.
  pub serve-quota :
      (requests : List Request) (now : ℕ) (key : String)
      → IsTimed 0 requests now
      → length (
          select
            (is_recent second now)
            (times key (serve second rate_limit_rps keys requests [] []).0))
        ≤ quota_of rate_limit_rps keys key
  unfolding lookup
  serve-quota requests now key timed =
      serve-Limited requests 0 now [] []
        (record { recent = λ k later le. refl; bounded = λ k. omega arith }) timed key
