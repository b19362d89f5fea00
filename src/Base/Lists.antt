-- ===== src/Base/Lists.antt =====
-- Membership in lists, lists measured by native numbers, lists of texts, and predicates over lists.
use Prim.Native.Nat.{ℕ, suc, ◌+◌}
use Prim.Native.String.{String}
use mathlib.Core.Path.{◌≡◌, refl, sym, ap, ◌∙◌, subst}
use mathlib.Core.Bool.{Bool, true, false, ◌||◌}
use mathlib.Core.List.{List, [], ◌∷◌, ◌++◌, map}
use native.Mathlib.Omega.{arith}
use mathlib.Core.Logic.{◌⊎◌, ◌↔◌, inl, inr}
use text.Mathlib.Text.{◌==◌}
use text.Mathlib.TextEquality.{eq_iff}
use vsector.Base.Tests.{if◌then◌else◌, Bool-cases}

module _ {ℓ} {A : Type ℓ} where
  abbrev pub length : List A → ℕ
  length [] = 0
  length (x ∷ xs) = suc (length xs)

  pub length-append : (xs ys : List A) → length (xs ++ ys) ≡ length xs + length ys
  length-append [] ys = omega arith
  length-append (x ∷ xs) ys = omega (arith, length-append xs ys)

  -- `[x for x in xs if p(x)]`
  abbrev pub select : (A → Bool) → List A → List A
  select p [] = []
  select p (x ∷ xs) = let rest = select p xs in if p x then x ∷ rest else rest

  abbrev pub all_of : (A → Bool) → List A → Bool
  all_of p [] = true
  all_of p (x ∷ xs) = if p x then all_of p xs else false

  abbrev pub any_of : (A → Bool) → List A → Bool
  any_of p [] = false
  any_of p (x ∷ xs) = if p x then true else any_of p xs

  -- `P` holds of each entry.
  abbrev pub All {κ} : (A → Type κ) → List A → Type κ
  All P [] = Unit
  All P (x ∷ xs) = P x × All P xs

-- `P` of each entry gives `Q` of each entry.
pub All-map {ℓ κ μ} :
    {A : Type ℓ} {P : A → Type κ} {Q : A → Type μ} (xs : List A)
    → ((a : A) → P a → Q a)
    → All P xs
    → All Q xs
All-map [] f h = tt
All-map (x ∷ xs) f (px, h) = (f x px, All-map xs f h)

module _ {ℓ κ} {A : Type ℓ} (P : A → Type κ) where
  pub All-append : (xs ys : List A) → All P xs → All P ys → All P (xs ++ ys)
  All-append [] ys h k = k
  All-append (x ∷ xs) ys (px, h) k = (px, All-append xs ys h k)

  pub All-select : (p : A → Bool) (xs : List A) → All P xs → All P (select p xs)
  All-select p [] h = tt
  All-select p (x ∷ xs) (px, h) = elim (Bool-cases (p x)) [
    | inl keep ↦ rw keep (px, All-select p xs h)
    | inr drop ↦ rw drop (All-select p xs h)
  ]

pub All-both {ℓ κ μ} :
    {A : Type ℓ} (P : A → Type κ) (Q : A → Type μ) (xs : List A)
    → All P xs
    → All Q xs
    → All (λ x. P x × Q x) xs
All-both P Q [] h k = tt
All-both P Q (x ∷ xs) (px, h) (qx, k) = ((px, qx), All-both P Q xs h k)

-- `s in xs` for texts
abbrev pub contains : String → List String → Bool
contains s [] = false
contains s (x ∷ xs) = s == x || contains s xs

-- An entry of a list, with its position.
abbrev pub Among : {A : Type 0} → A → List A → Type 0
Among a [] = ⊥
Among a (x ∷ xs) = (a ≡ x) ⊎ Among a xs

pub contains-Among : (s : String) (xs : List String) → contains s xs ≡ true → Among s xs
contains-Among s [] h = cc
contains-Among s (x ∷ xs) h = ground (arith, eq_iff s x, contains-Among s xs)

pub Among-contains : (s : String) (xs : List String) → Among s xs → contains s xs ≡ true
Among-contains s [] h = absurd h
Among-contains s (x ∷ xs) h = ground (arith, eq_iff s x, Among-contains s xs)

module _ {A : Type 0} where
  pub Among-select :
      (p : A → Bool) (a : A) (xs : List A) → Among a (select p xs) ↔ (Among a xs × (p a ≡ true))
  Among-select p a xs = (into xs, λ h. back xs h.0 h.1)
    where
      kept : (x : A) (xs : List A) → p x ≡ true → select p (x ∷ xs) ≡ x ∷ select p xs
      kept x xs h = rw h refl

      left : (x : A) (xs : List A) → p x ≡ false → select p (x ∷ xs) ≡ select p xs
      left x xs h = rw h refl

      into : (xs : List A) → Among a (select p xs) → Among a xs × (p a ≡ true)
      into [] h = absurd h
      into (x ∷ xs) h = elim (Bool-cases (p x)) [
        | inl keep ↦ elim (subst (Among a) (kept x xs keep) h) [
          | inl same ↦ (inl same, ap p same ∙ keep)
          | inr rest ↦ let (at_a, holds) = into xs rest in (inr at_a, holds)
        ]
        | inr drop ↦
            let (at_a, holds) = into xs (subst (Among a) (left x xs drop) h) in (inr at_a, holds)
      ]

      back : (xs : List A) → Among a xs → p a ≡ true → Among a (select p xs)
      back [] h holds = h
      back (x ∷ xs) (inl same) holds =
          subst (Among a) (sym (kept x xs (ap p (sym same) ∙ holds))) (inl same)
      back (x ∷ xs) (inr rest) holds = elim (Bool-cases (p x)) [
        | inl keep ↦ subst (Among a) (sym (kept x xs keep)) (inr (back xs rest holds))
        | inr drop ↦ subst (Among a) (sym (left x xs drop)) (back xs rest holds)
      ]

  pub all_of-Among :
      (p : A → Bool) (a : A) (xs : List A) → all_of p xs ≡ true → Among a xs → p a ≡ true
  all_of-Among p a [] h at_a = absurd at_a
  all_of-Among p a (x ∷ xs) h (inl same) = ap p same ∙ ground arith
  all_of-Among p a (x ∷ xs) h (inr rest) = all_of-Among p a xs (ground arith) rest

pub Among-map :
    {A B : Type 0} (f : A → B) (a : A) (xs : List A) → Among a xs → Among (f a) (map f xs)
Among-map f a [] h = absurd h
Among-map f a (x ∷ xs) (inl same) = inl (ap f same)
Among-map f a (x ∷ xs) (inr rest) = inr (Among-map f a xs rest)
