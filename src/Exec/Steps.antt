-- ===== src/Exec/Steps.antt =====
-- Equations for a call whose first part is known.
use vsector.Base.{◌≡◌, refl, ap}
use vsector.Errors.{Error}
use vsector.Exec.{Result, ok, err, Exec, lift, gets, continue, handle, ◌>>=◌, try_except}

module _ {ℓ} {S A B : Type ℓ} where
  pub bind_ok :
      (m : Exec S A) (f : A → Exec S B) {s t : S} {a : A} → m s ≡ (ok a, t) → (m >>= f) s ≡ f a t
  unfolding ◌>>=◌
  bind_ok m f known = ap (λ (x : Result A × S). continue x.0 f x.1) known

  pub bind_err :
      (m : Exec S A) (f : A → Exec S B) {s t : S} {e : Error}
      → m s ≡ (err e, t)
      → (m >>= f) s ≡ (err e, t)
  unfolding ◌>>=◌
  bind_err m f known = ap (λ (x : Result A × S). continue x.0 f x.1) known

  pub bind_lift_ok :
      (r : Result A) (f : A → Exec S B) (s : S) {a : A} → r ≡ ok a → (lift r >>= f) s ≡ f a s
  unfolding ◌>>=◌
  bind_lift_ok r f s known = ap (λ r. continue r f s) known

  pub bind_gets : (g : S → A) (f : A → Exec S B) (s : S) → (gets g >>= f) s ≡ f (g s) s
  unfolding ◌>>=◌
  bind_gets g f s = refl

  pub try_ok :
      (m : Exec S A) (h : Error → Exec S B) (f : A → Exec S B) {s t : S} {a : A}
      → m s ≡ (ok a, t)
      → try_except m h f s ≡ f a t
  unfolding try_except
  try_ok m h f known = ap (λ (x : Result A × S). handle x.0 h f x.1) known

  pub try_err :
      (m : Exec S A) (h : Error → Exec S B) (f : A → Exec S B) {s t : S} {e : Error}
      → m s ≡ (err e, t)
      → try_except m h f s ≡ h e t
  unfolding try_except
  try_err m h f known = ap (λ (x : Result A × S). handle x.0 h f x.1) known
