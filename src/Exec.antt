-- ===== src/Exec.antt =====
-- A call that reads and writes a state and may raise. What was written before a raise stays
-- written, as in Python, so the state comes back beside the error too.
pub mod Ends
pub mod Steps
use vsector.Base.{Bool, true, false, Option, none, some}
use vsector.Errors.{Error}

pub data Result {ℓ} (A : Type ℓ) : Type ℓ where
  ok : A → Result A
  err : Error → Result A

abbrev pub Exec {ℓ} : Type ℓ → Type ℓ → Type ℓ
Exec S A = S → Result A × S

-- The value of a call that returns nothing.
abbrev pub Done : Type 0
Done = Unit

abbrev pub found_or {ℓ} : {A : Type ℓ} → Option A → Error → Result A
found_or none e = err e
found_or (some a) e = ok a

abbrev pub unless {ℓ} : Bool → Error → Result (Unit {ℓ})
unless true e = err e
unless false e = ok tt

module _ {ℓ} {S A : Type ℓ} where
  unfoldable pub pure : A → Exec S A
  pure a s = (ok a, s)

  unfoldable pub lift : Result A → Exec S A
  lift r s = (r, s)

  unfoldable pub gets : (S → A) → Exec S A
  gets f s = (ok (f s), s)

  abbrev pub raise : Error → Exec S A
  raise e = lift (err e)

  -- `v = d.get(k)` / `if v is None: raise e`
  abbrev pub or_raise : Option A → Error → Exec S A
  or_raise o e = lift (found_or o e)

unfoldable pub modify {ℓ} : {S : Type ℓ} → (S → S) → Exec S (Unit {ℓ})
modify f s = (ok tt, f s)

-- `if c: raise e`
abbrev pub raise_if {ℓ} : {S : Type ℓ} → Bool → Error → Exec S (Unit {ℓ})
raise_if c e = lift (unless c e)

module _ {ℓ} {S A B : Type ℓ} where
  abbrev pub continue : Result A → (A → Exec S B) → Exec S B
  continue (ok a) f s = f a s
  continue (err e) f s = (err e, s)

  abbrev pub handle : Result A → (Error → Exec S B) → (A → Exec S B) → Exec S B
  handle (ok a) h f s = f a s
  handle (err e) h f s = h e s

  infixl 10 ◌>>=◌ ◌>>◌
  -- Opening this opens the basic calls too.
  unfoldable pub ◌>>=◌ : Exec S A → (A → Exec S B) → Exec S B
  unfolding pure lift gets modify
  ◌>>=◌ m f s = let (r, t) = m s in continue r f t

  abbrev pub ◌>>◌ : Exec S A → Exec S B → Exec S B
  m >> k = m >>= λ _. k

  -- `try: a = m` / `except Exception as e: h(e)` / `else: f(a)`
  unfoldable pub try_except : Exec S A → (Error → Exec S B) → (A → Exec S B) → Exec S B
  unfolding pure lift gets modify
  try_except m h f s = let (r, t) = m s in handle r h f t
