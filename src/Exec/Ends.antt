-- ===== src/Exec/Ends.antt =====
-- How a call ends: rules that follow the text of a method, one for each way to build a call.
use mathlib.Core.Path.{subst, sym}
use vsector.Base.{◌≡◌, refl, Option, none, some, Bool, true, false, if◌then◌else◌}
use vsector.Errors.{Error}
use vsector.Exec.{
  Result, ok, err, Exec, pure, lift, gets, modify, continue, handle, found_or, unless, ◌>>=◌,
  try_except,
}

-- The outcome of `m` from `s`, a result and a state, has `P`.
pub record Ends {ℓ κ} {S A : Type ℓ} (m : Exec S A) (s : S) (P : Result A × S → Type κ)
    : Type κ where
  pub outcome : P (m s)

module _ {ℓ κ} {S A : Type ℓ} {P : Result A × S → Type κ} where
  pub Ends-pure : (a : A) (s : S) → P (ok a, s) → Ends (pure a) s P
  unfolding pure
  Ends-pure a s h = record { outcome = h }

  pub Ends-lift : (r : Result A) (s : S) → P (r, s) → Ends (lift r) s P
  unfolding lift
  Ends-lift r s h = record { outcome = h }

  pub Ends-if :
      (b : Bool) (m n : Exec S A) (s : S)
      → (b ≡ true → Ends m s P)
      → (b ≡ false → Ends n s P)
      → Ends (if b then m else n) s P
  Ends-if true m n s t f = t refl
  Ends-if false m n s t f = f refl

module _ {ℓ κ} {S A B : Type ℓ} (P : Result B × S → Type κ) where
  Ends-continue :
      (r : Result A) (f : A → Exec S B) (s : S)
      → ((e : Error) → r ≡ err e → P (err e, s))
      → ((a : A) → r ≡ ok a → P (f a s))
      → P (continue r f s)
  Ends-continue (ok a) f s no_result result = result a refl
  Ends-continue (err e) f s no_result result = no_result e refl

  Ends-handle :
      (r : Result A) (h : Error → Exec S B) (f : A → Exec S B) (s : S)
      → ((e : Error) → r ≡ err e → P (h e s))
      → ((a : A) → r ≡ ok a → P (f a s))
      → P (handle r h f s)
  Ends-handle (ok a) h f s caught result = result a refl
  Ends-handle (err e) h f s caught result = caught e refl

module _ {ℓ κ} {S A B : Type ℓ} {P : Result B × S → Type κ} where
  -- A step that only reads: what follows may use that it did not raise.
  pub Ends-bind-lift :
      (r : Result A) (f : A → Exec S B) (s : S)
      → ((e : Error) → r ≡ err e → P (err e, s))
      → ((a : A) → r ≡ ok a → Ends (f a) s P)
      → Ends (lift r >>= f) s P
  unfolding ◌>>=◌
  Ends-bind-lift (ok a) f s no_result result = record { outcome = (result a refl).outcome }
  Ends-bind-lift (err e) f s no_result result = record { outcome = no_result e refl }

  -- The same of a call that is known to read only.
  pub Ends-bind-read :
      (m : Exec S A) (r : Result A) (f : A → Exec S B) (s : S)
      → m s ≡ (r, s)
      → ((e : Error) → r ≡ err e → P (err e, s))
      → ((a : A) → r ≡ ok a → Ends (f a) s P)
      → Ends (m >>= f) s P
  unfolding ◌>>=◌
  Ends-bind-read m r f s reads no_result result = record {
    outcome =
        subst (λ (x : Result A × S). P (continue x.0 f x.1)) (sym reads)
          (Ends-continue P r f s no_result (λ a p. (result a p).outcome));
  }

  -- A call whose result and state are known.
  pub Ends-bind-ok :
      (m : Exec S A) (f : A → Exec S B) (s t : S) (a : A)
      → m s ≡ (ok a, t)
      → Ends (f a) t P
      → Ends (m >>= f) s P
  unfolding ◌>>=◌
  Ends-bind-ok m f s t a known h = record {
    outcome = subst (λ (x : Result A × S). P (continue x.0 f x.1)) (sym known) h.outcome;
  }

  pub Ends-bind-gets :
      (g : S → A) (f : A → Exec S B) (s : S) → Ends (f (g s)) s P → Ends (gets g >>= f) s P
  unfolding ◌>>=◌
  Ends-bind-gets g f s h = record { outcome = h.outcome }

  -- A call of which a postcondition is known.
  pub Ends-bind {μ} :
      {Q : Result A × S → Type μ} (m : Exec S A) (f : A → Exec S B) (s : S)
      → Ends m s Q
      → ((e : Error) (t : S) → Q (err e, t) → P (err e, t))
      → ((a : A) (t : S) → Q (ok a, t) → Ends (f a) t P)
      → Ends (m >>= f) s P
  unfolding ◌>>=◌
  Ends-bind {Q = Q} m f s q no_result result = record {
    outcome =
        Ends-continue P (m s).0 f (m s).1
          (λ e p. no_result e (m s).1 (subst (λ r. Q (r, (m s).1)) p q.outcome))
          (λ a p. (result a (m s).1 (subst (λ r. Q (r, (m s).1)) p q.outcome)).outcome);
  }

  pub Ends-try_except {μ} :
      {Q : Result A × S → Type μ} (m : Exec S A) (h : Error → Exec S B) (f : A → Exec S B) (s : S)
      → Ends m s Q
      → ((e : Error) (t : S) → Q (err e, t) → Ends (h e) t P)
      → ((a : A) (t : S) → Q (ok a, t) → Ends (f a) t P)
      → Ends (try_except m h f) s P
  unfolding try_except
  Ends-try_except {Q = Q} m h f s q caught result = record {
    outcome =
        Ends-handle P (m s).0 h f (m s).1
          (λ e p. (caught e (m s).1 (subst (λ r. Q (r, (m s).1)) p q.outcome)).outcome)
          (λ a p. (result a (m s).1 (subst (λ r. Q (r, (m s).1)) p q.outcome)).outcome);
  }

module _ {ℓ κ} {S B : Type ℓ} {P : Result B × S → Type κ} where
  pub Ends-bind-modify :
      (g : S → S) (f : Unit {ℓ} → Exec S B) (s : S)
      → Ends (f tt) (g s) P
      → Ends (modify g >>= f) s P
  unfolding ◌>>=◌
  Ends-bind-modify g f s h = record { outcome = h.outcome }

-- What the step of a check or of a lookup says when it did not raise.
pub found_or-eq-ok {ℓ} :
    {A : Type ℓ} (o : Option A) (e : Error) {a : A} → found_or o e ≡ ok a → o ≡ some a
found_or-eq-ok none e h = cc
found_or-eq-ok (some b) e h = cc

pub unless-eq-ok {ℓ} : (b : Bool) (e : Error) {u : Unit {ℓ}} → unless b e ≡ ok u → b ≡ false
unless-eq-ok true e h = cc
unless-eq-ok false e h = refl

module _ {ℓ κ} {S A : Type ℓ} {P : Result A × S → Type κ} where
  pub Ends-at : {m : Exec S A} {s t : S} → t ≡ s → Ends m s P → Ends m t P
  Ends-at {m} same e = subst (λ x. Ends m x P) (sym same) e

  pub Ends-weaken {μ} :
      {Q : Result A × S → Type μ} {m : Exec S A} {s : S}
      → ((r : Result A × S) → Q r → P r)
      → Ends m s Q
      → Ends m s P
  Ends-weaken {m = m} {s = s} weaker e = record { outcome = weaker (m s) e.outcome }
