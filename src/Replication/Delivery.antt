-- ===== src/Replication/Delivery.antt =====
-- What a delivery reports: which replicas took the operation and which did not.
use mathlib.Core.Path.{subst}
use vsector.Base.{
  String, ℕ, ◌+◌, ◌≤◌, ◌≡◌, ◌↔◌, refl, sym, ap, ◌∙◌, true, false, not, List, [], ◌∷◌, ◌++◌, arith,
  leb, contains, length, inl, inr, ◌⊎◌, Bool-cases,
}
use vsector.Errors.{Error}
use vsector.Exec.{Done, Result, ok, err, Exec}
use vsector.Shard.{Shard}
use vsector.Replication.{
  ReplicationResult, Transport, is_faulted, is_empty, record_node, attempt, noted, deliver_from,
  deliver, new_result,
}

-- How a list of replicas falls into those that took the operation and those that did not.
pub data Parted (faults : List String) : List String → List String → List String → Type 0 where
  nobody : Parted faults [] [] []
  acknowledged :
      (n : String) {ns oks fails : List String}
      → contains n faults ≡ false
      → Parted faults ns oks fails
      → Parted faults (n ∷ ns) (n ∷ oks) fails
  failed :
      (n : String) {ns oks fails : List String}
      → Parted faults ns oks fails
      → Parted faults (n ∷ ns) oks (n ∷ fails)

Parted-length :
    {faults ns oks fails : List String}
    → Parted faults ns oks fails
    → length oks + length fails ≡ length ns
Parted-length nobody = refl
Parted-length (acknowledged n _ p) = omega (arith, Parted-length p)
Parted-length (failed n p) = omega (arith, Parted-length p)

Parted-none_failed :
    {faults ns oks fails : List String} → Parted faults ns oks fails → fails ≡ [] → oks ≡ ns
Parted-none_failed nobody h = refl
Parted-none_failed (acknowledged n _ p) h = ap (λ l. n ∷ l) (Parted-none_failed p h)
Parted-none_failed (failed n p) h = absurd (cc h)

Parted-all_ok :
    {faults ns oks fails : List String} → Parted faults ns oks fails → oks ≡ ns → fails ≡ []
Parted-all_ok {fails = fails} p h = empty fails (omega (arith, Parted-length p, ap length h))
  where
    empty : (l : List String) → length l ≡ 0 → l ≡ []
    empty [] h = refl
    empty (x ∷ l) h = absurd (omega (arith, h))

append_one : (xs ys : List String) (n : String) → (xs ++ (n ∷ [])) ++ ys ≡ xs ++ (n ∷ ys)
append_one [] ys n = refl
append_one (x ∷ xs) ys n = ap (λ l. x ∷ l) (append_one xs ys n)

append_nil : (xs : List String) → xs ≡ xs ++ []
append_nil [] = refl
append_nil (x ∷ xs) = ap (λ l. x ∷ l) (append_nil xs)

-- How an operation is applied to a list of replicas, from one state of the endpoints to another:
-- a replica that is up takes it or raises, and one that is faulted is not asked.
pub data Ran {St : Type 0} (apply : String → Exec St Done) (faults : List String)
    : List String → St → List String → List String → St → Type 0 where
  finished : (e : St) → Ran apply faults [] e [] [] e
  took :
      (n : String) (e : St) {ns oks fails : List String} {f : St}
      → contains n faults ≡ false
      → (apply n e).0 ≡ ok tt
      → Ran apply faults ns (apply n e).1 oks fails f
      → Ran apply faults (n ∷ ns) e (n ∷ oks) fails f
  raised :
      (n : String) (e : St) (x : Error) {ns oks fails : List String} {f : St}
      → contains n faults ≡ false
      → (apply n e).0 ≡ err x
      → Ran apply faults ns (apply n e).1 oks fails f
      → Ran apply faults (n ∷ ns) e oks (n ∷ fails) f
  faulted :
      (n : String) (e : St) {ns oks fails : List String} {f : St}
      → contains n faults ≡ true
      → Ran apply faults ns e oks fails f
      → Ran apply faults (n ∷ ns) e oks (n ∷ fails) f

module _ {St : Type 0} {apply : String → Exec St Done} {faults : List String} where
  Ran-Parted :
      {ns oks fails : List String} {e f : St}
      → Ran apply faults ns e oks fails f
      → Parted faults ns oks fails
  Ran-Parted (finished e) = nobody
  Ran-Parted (took n e up at r) = acknowledged n up (Ran-Parted r)
  Ran-Parted (raised n e x up at r) = failed n (Ran-Parted r)
  Ran-Parted (faulted n e down r) = failed n (Ran-Parted r)

module _ {St : Type 0} (apply : String → Exec St Done) (namespace shard_id : String) where
  -- What the loop adds to a result that it starts from.
  pub record Looped (nodes : List String) (res : ReplicationResult) (t : Transport St)
      (out : ReplicationResult × Transport St) : Type 0 where
    oks : List String
    fails : List String
    ran : Ran apply t.faults nodes t.endpoints oks fails out.1.endpoints
    attempted : out.0.attempted_replicas ≡ res.attempted_replicas ++ nodes
    acked : out.0.acknowledged_replicas ≡ res.acknowledged_replicas ++ oks
    not_acked : out.0.failed_replicas ≡ res.failed_replicas ++ fails
    pub required : out.0.required_acks ≡ res.required_acks

  -- What one attempt does.
  Attempted : String → Transport St → Result Done × Transport St → Type 0
  Attempted n t (ok _, u) =
      (u.faults ≡ t.faults)
      × (contains n t.faults ≡ false)
      × ((apply n t.endpoints).0 ≡ ok tt)
      × (u.endpoints ≡ (apply n t.endpoints).1)
  Attempted n t (err x, u) =
      (u.faults ≡ t.faults)
      × (((contains n t.faults ≡ true) × (u.endpoints ≡ t.endpoints))
          ⊎ ((contains n t.faults ≡ false)
              × ((apply n t.endpoints).0 ≡ err x)
              × (u.endpoints ≡ (apply n t.endpoints).1)))

  attempt-Attempted : (n : String) (t : Transport St) → Attempted n t (attempt apply n t)
  unfolding attempt Attempted
  attempt-Attempted n t = elim (Bool-cases (is_faulted n t)) [
    | inl down ↦ rw down (refl, inl (down, refl))
    | inr up ↦ rw up (go (apply n t.endpoints) refl up)
  ]
    where
      go :
          (x : Result Done × St)
          → apply n t.endpoints ≡ x
          → contains n t.faults ≡ false
          → Attempted n t (x.0, record t { endpoints = x.1 })
      go (ok u, e) h up = (refl, up, rw h refl, rw h refl)
      go (err x, e) h up = (refl, inr (up, rw h refl, rw h refl))

  step-Looped :
      (n : String) (nodes : List String) (res : ReplicationResult) (t u : Transport St)
      (r : Result Done) (out : ReplicationResult × Transport St)
      → Attempted n t (r, u)
      → Looped nodes (noted n r res) (record_node namespace shard_id n r u) out
      → Looped (n ∷ nodes) res t out
  unfolding record_node Attempted
  step-Looped n nodes res t u (ok _) out (same, up, at, moved) l = record {
    oks = n ∷ l.oks;
    fails = l.fails;
    ran = took n t.endpoints up at (
        subst (λ e. Ran apply t.faults nodes e l.oks l.fails out.1.endpoints) moved
          (subst (λ f. Ran apply f nodes u.endpoints l.oks l.fails out.1.endpoints) same l.ran));
    attempted = l.attempted ∙ append_one res.attempted_replicas nodes n;
    acked = l.acked ∙ append_one res.acknowledged_replicas l.oks n;
    not_acked = l.not_acked;
    required = l.required;
  }
  step-Looped n nodes res t u (err x) out (same, how) l = record {
    oks = l.oks;
    fails = n ∷ l.fails;
    ran = either how;
    attempted = l.attempted ∙ append_one res.attempted_replicas nodes n;
    acked = l.acked;
    not_acked = l.not_acked ∙ append_one res.failed_replicas l.fails n;
    required = l.required;
  }
    where
      rest : Ran apply t.faults nodes u.endpoints l.oks l.fails out.1.endpoints
      rest = subst (λ f. Ran apply f nodes u.endpoints l.oks l.fails out.1.endpoints) same l.ran

      either :
          ((contains n t.faults ≡ true) × (u.endpoints ≡ t.endpoints))
            ⊎ ((contains n t.faults ≡ false)
                × ((apply n t.endpoints).0 ≡ err x)
                × (u.endpoints ≡ (apply n t.endpoints).1))
          → Ran apply t.faults (n ∷ nodes) t.endpoints l.oks (n ∷ l.fails) out.1.endpoints
      either (inl (down, moved)) =
          faulted n t.endpoints down
            (subst (λ e. Ran apply t.faults nodes e l.oks l.fails out.1.endpoints) moved rest)
      either (inr (up, at, moved)) =
          raised n t.endpoints x up at
            (subst (λ e. Ran apply t.faults nodes e l.oks l.fails out.1.endpoints) moved rest)

  pub deliver_from-Looped :
      (nodes : List String) (res : ReplicationResult) (t : Transport St)
      → Looped nodes res t (deliver_from apply namespace shard_id nodes res t)
  unfolding deliver_from
  deliver_from-Looped [] res t = record {
    oks = [];
    fails = [];
    ran = finished t.endpoints;
    attempted = append_nil _;
    acked = append_nil _;
    not_acked = append_nil _;
    required = refl;
  }
  deliver_from-Looped (n ∷ nodes) res t =
      let (r, u) = attempt apply n t in
      step-Looped n nodes res t u r _ (attempt-Attempted n t)
        (deliver_from-Looped nodes (noted n r res) (record_node namespace shard_id n r u))

success_iff : (a f n q' q : ℕ) → a + f ≡ n → q' ≡ q → (leb q' (1 + a) ≡ true) ↔ (q + f ≤ 1 + n)
success_iff a f n q' q total same = ground arith

no_failed : (l : List String) → not (is_empty l) ≡ false → l ≡ []
no_failed [] h = refl
no_failed (x ∷ l) h = cc

-- What is reported of a delivery to the replicas of `s`, and what it does to the endpoints.
pub record Delivered {St : Type 0} (apply : String → Exec St Done) (s : Shard) (required_acks : ℕ)
    (t : Transport St) (out : ReplicationResult × Transport St) : Type 0 where
  pub attempted : out.0.attempted_replicas ≡ s.replicas
  pub ran :
      Ran apply t.faults s.replicas t.endpoints out.0.acknowledged_replicas out.0.failed_replicas
        out.1.endpoints
  pub success :
      (out.0.success ≡ true)
      ↔ (required_acks + length out.0.failed_replicas ≤ 1 + length s.replicas)
  pub not_degraded : (out.0.degraded ≡ false) ↔ (out.0.acknowledged_replicas ≡ s.replicas)

module _ {St : Type 0} (apply : String → Exec St Done) where
  -- A delivery goes through the replicas in order. A replica that is faulted is not asked and
  -- fails; from any other the operation is applied to the endpoints, and it is acknowledged exactly
  -- when that returns, and fails when it raises; the endpoints are left as these applications leave
  -- them. It is a success exactly when so few failed that the rest and the primary make up the
  -- required acknowledgements, and not degraded exactly when all are acknowledged.
  pub deliver-Delivered :
      (namespace : String) (s : Shard) (required_acks : ℕ) (t : Transport St)
      → Delivered apply s required_acks t (deliver apply namespace s required_acks t)
  unfolding deliver
  deliver-Delivered namespace s required_acks t =
      let l = deliver_from-Looped apply namespace s.id s.replicas (new_result s required_acks) t in
      let out = deliver_from apply namespace s.id s.replicas (new_result s required_acks) t in
      let ran : Ran apply t.faults s.replicas t.endpoints out.0.acknowledged_replicas
          out.0.failed_replicas out.1.endpoints =
        subst
          (λ oks.
            Ran apply t.faults s.replicas t.endpoints oks out.0.failed_replicas out.1.endpoints)
          (sym l.acked)
          (subst (λ fails. Ran apply t.faults s.replicas t.endpoints l.oks fails out.1.endpoints)
            (sym l.not_acked) l.ran) in
      record {
        attempted = l.attempted;
        ran = ran;
        success = success_iff _ _ _ _ _ (Parted-length (Ran-Parted ran)) l.required;
        not_degraded = (
          λ h. Parted-none_failed (Ran-Parted ran) (no_failed _ h),
          λ h. ap (λ l. not (is_empty l)) (Parted-all_ok (Ran-Parted ran) h),
        );
      }
