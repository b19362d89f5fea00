-- ===== src/Base/Order.antt =====
-- The order of texts, and sorting by a text key as Python's `sorted` does, which is stable.
use Prim.Native.Char.{code}
use Prim.Native.Nat.compare as compare_nat
use Prim.Native.String.compare
use Prim.Native.Nat.{ℕ, zero, suc, Ordering, compare as compare_nat}
use Prim.Native.String.{String, [], ◌∷◌, compare, then}
use mathlib.Core.Path.{◌≡◌, refl, sym, ap, ◌∙◌}
use native.Mathlib.Omega.{arith}

abbrev pub opposite : Ordering → Ordering
opposite Ordering.lt = Ordering.gt
opposite Ordering.eq = Ordering.eq
opposite Ordering.gt = Ordering.lt

opposite-compare_nat : (m n : ℕ) → compare_nat n m ≡ opposite (compare_nat m n)
opposite-compare_nat zero zero = refl
opposite-compare_nat zero (suc n) =
    compare_nat.suc-zero n ∙ sym (ap opposite (compare_nat.zero-suc n))
opposite-compare_nat (suc m) zero =
    compare_nat.zero-suc m ∙ sym (ap opposite (compare_nat.suc-zero m))
opposite-compare_nat (suc m) (suc n) =
    compare_nat.suc-suc n m ∙ opposite-compare_nat m n ∙ sym (ap opposite (compare_nat.suc-suc m n))

opposite-then : (o p : Ordering) → opposite (then o p) ≡ then (opposite o) (opposite p)
opposite-then Ordering.lt p = refl
opposite-then Ordering.eq p = refl
opposite-then Ordering.gt p = refl

pub opposite-compare : (s t : String) → compare t s ≡ opposite (compare s t)
opposite-compare [] [] = refl
opposite-compare [] (d ∷ t) = compare.cons-nil d t ∙ sym (ap opposite (compare.nil-cons d t))
opposite-compare (c ∷ s) [] = compare.nil-cons c s ∙ sym (ap opposite (compare.cons-nil c s))
opposite-compare (c ∷ s) (d ∷ t) =
    compare.cons-cons d c t s
    ∙ ap (λ o. then o (compare t s)) (opposite-compare_nat (code c) (code d))
    ∙ ap (then _) (opposite-compare s t)
    ∙ sym (ap opposite (compare.cons-cons c d s t) ∙ opposite-then _ _)

-- The first differing character decides.
then-lt_trans :
    (o p q : Ordering) (a b c : Ordering)
    → (o ≡ Ordering.lt → p ≡ Ordering.lt → q ≡ Ordering.lt)
    → (o ≡ Ordering.eq → q ≡ p)
    → (p ≡ Ordering.eq → q ≡ o)
    → (a ≡ Ordering.lt → b ≡ Ordering.lt → c ≡ Ordering.lt)
    → then o a ≡ Ordering.lt
    → then p b ≡ Ordering.lt
    → then q c ≡ Ordering.lt
then-lt_trans Ordering.lt Ordering.lt q a b c f g k l h i = rw (f refl refl) refl
then-lt_trans Ordering.lt Ordering.eq q a b c f g k l h i = rw (k refl) refl
then-lt_trans Ordering.lt Ordering.gt q a b c f g k l h i = cc
then-lt_trans Ordering.eq p q a b c f g k l h i = rw (g refl) (later p i)
  where
    later : (p : Ordering) → then p b ≡ Ordering.lt → then p c ≡ Ordering.lt
    later Ordering.lt i = refl
    later Ordering.eq i = l h i
    later Ordering.gt i = cc
then-lt_trans Ordering.gt p q a b c f g k l h i = cc

numbers_equal : (m n : ℕ) → compare_nat m n ≡ Ordering.eq → m ≡ n
numbers_equal m n h = ground arith

lt_trans_nat :
    (m n k : ℕ)
    → compare_nat m n ≡ Ordering.lt
    → compare_nat n k ≡ Ordering.lt
    → compare_nat m k ≡ Ordering.lt
lt_trans_nat m n k h i = ground arith

gt_is_not-lt : Ordering.gt ≡ Ordering.lt → ⊥
gt_is_not-lt h = cc

pub compare-lt_trans :
    (s t u : String)
    → compare s t ≡ Ordering.lt
    → compare t u ≡ Ordering.lt
    → compare s u ≡ Ordering.lt
compare-lt_trans s [] [] h i = h
compare-lt_trans s (d ∷ t) [] h i = absurd (gt_is_not-lt (sym (compare.cons-nil d t) ∙ i))
compare-lt_trans [] t (e ∷ u) h i = compare.nil-cons e u
compare-lt_trans (c ∷ s) [] (e ∷ u) h i = absurd (gt_is_not-lt (sym (compare.cons-nil c s) ∙ h))
compare-lt_trans (c ∷ s) (d ∷ t) (e ∷ u) h i =
    compare.cons-cons c e s u
    ∙ then-lt_trans (compare_nat (code c) (code d)) (compare_nat (code d) (code e)) _ (compare s t)
        (compare t u) _ (lt_trans_nat (code c) (code d) (code e))
        (λ q. ap (λ x. compare_nat x (code e)) (numbers_equal _ _ q))
        (λ q. ap (compare_nat (code c)) (sym (numbers_equal _ _ q))) (compare-lt_trans s t u)
        (sym (compare.cons-cons c d s t) ∙ h) (sym (compare.cons-cons d e t u) ∙ i)
