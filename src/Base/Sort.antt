-- ===== src/Base/Sort.antt =====
-- Sorting by a text key as Python's `sorted` does: entries with one key keep their order.
use Prim.Native.Nat.{Ordering}
use Prim.Native.String.{String, compare}
use mathlib.Core.Path.{◌≡◌, refl, sym, ap, ◌∙◌}
use mathlib.Core.Logic.{◌≢◌}
use mathlib.Core.List.{List, [], ◌∷◌}
use text.Mathlib.TextEquality.{path_by_compare}
use vsector.Base.Lists.{All, All-map}
use vsector.Base.Order.{opposite-compare, opposite, compare-lt_trans}

abbrev placed_by : {A : Type 0} → Ordering → A → A → List A → List A → List A
placed_by Ordering.lt a x xs rest = a ∷ x ∷ xs
placed_by Ordering.eq a x xs rest = a ∷ x ∷ xs
placed_by Ordering.gt a x xs rest = x ∷ rest

module _ {A : Type 0} (key : A → String) where
  unfoldable pub insert_by : A → List A → List A
  insert_by a [] = a ∷ []
  insert_by a (x ∷ xs) = placed_by (compare (key a) (key x)) a x xs (insert_by a xs)

  -- `sorted(xs, key=key)`
  unfoldable pub sort_by : List A → List A
  sort_by [] = []
  sort_by (x ∷ xs) = insert_by x (sort_by xs)

  -- Each entry's key comes before all the later ones.
  abbrev pub Ascending : List A → Type 0
  Ascending [] = Unit {0}
  Ascending (x ∷ xs) = All (λ y. compare (key x) (key y) ≡ Ordering.lt) xs × Ascending xs

  -- No two entries have one key.
  abbrev pub Distinct : List A → Type 0
  Distinct [] = Unit {0}
  Distinct (x ∷ xs) = All (λ y. key y ≢ key x) xs × Distinct xs

  pub All-insert_by {κ} :
      (P : A → Type κ) (a : A) (xs : List A) → P a → All P xs → All P (insert_by a xs)
  unfolding insert_by
  All-insert_by P a [] pa h = (pa, tt)
  All-insert_by P a (x ∷ xs) pa (px, h) =
      place (compare (key a) (key x)) (All-insert_by P a xs pa h)
    where
      place : (o : Ordering) → All P (insert_by a xs) → All P (placed_by o a x xs (insert_by a xs))
      place Ordering.lt later = (pa, (px, h))
      place Ordering.eq later = (pa, (px, h))
      place Ordering.gt later = (px, later)

  pub All-sort_by {κ} : (P : A → Type κ) (xs : List A) → All P xs → All P (sort_by xs)
  unfolding sort_by
  All-sort_by P [] h = tt
  All-sort_by P (x ∷ xs) (px, h) = All-insert_by P x (sort_by xs) px (All-sort_by P xs h)

  insert_by-Ascending :
      (a : A) (xs : List A)
      → All (λ y. key y ≢ key a) xs
      → Ascending xs
      → Ascending (insert_by a xs)
  unfolding insert_by
  insert_by-Ascending a [] other h = (tt, tt)
  insert_by-Ascending a (x ∷ xs) (apart, other) (first, h) =
      place (compare (key a) (key x)) refl (insert_by-Ascending a xs other h)
    where
      place :
          (o : Ordering)
          → compare (key a) (key x) ≡ o
          → Ascending (insert_by a xs)
          → Ascending (placed_by o a x xs (insert_by a xs))
      place Ordering.lt at_o later = (
        (at_o, All-map xs (λ y. compare-lt_trans (key a) (key x) (key y) at_o) first),
        (first, h),
      )
      place Ordering.eq at_o later = absurd (apart (sym (path_by_compare (key a) (key x) at_o)))
      place Ordering.gt at_o later =
          (All-insert_by _ a xs (opposite-compare (key a) (key x) ∙ ap opposite at_o) first, later)

  pub sort_by-Ascending : (xs : List A) → Distinct xs → Ascending (sort_by xs)
  unfolding sort_by
  sort_by-Ascending [] h = tt
  sort_by-Ascending (x ∷ xs) (other, h) =
      insert_by-Ascending x (sort_by xs) (All-sort_by _ xs other) (sort_by-Ascending xs h)

  pub sort_by_sorted : (xs : List A) → Ascending xs → sort_by xs ≡ xs
  unfolding sort_by insert_by
  sort_by_sorted [] h = refl
  sort_by_sorted (x ∷ xs) (first, h) = ap (insert_by x) (sort_by_sorted xs h) ∙ before xs first
    where
      before :
          (xs : List A)
          → All (λ y. compare (key x) (key y) ≡ Ordering.lt) xs
          → insert_by x xs ≡ x ∷ xs
      before [] first = refl
      before (y ∷ ys) (at_y, first) = ap (λ o. placed_by o x y ys (insert_by x ys)) at_y

  -- Sorting twice is sorting once.
  pub sort_by_twice : (xs : List A) → Distinct xs → sort_by (sort_by xs) ≡ sort_by xs
  sort_by_twice xs h = sort_by_sorted (sort_by xs) (sort_by-Ascending xs h)

  pub insert_by-Distinct :
      (a : A) (xs : List A) → All (λ y. key y ≢ key a) xs → Distinct xs → Distinct (insert_by a xs)
  unfolding insert_by
  insert_by-Distinct a [] other h = (tt, tt)
  insert_by-Distinct a (x ∷ xs) (apart, other) (first, h) =
      place (compare (key a) (key x)) (insert_by-Distinct a xs other h)
    where
      place :
          (o : Ordering)
          → Distinct (insert_by a xs)
          → Distinct (placed_by o a x xs (insert_by a xs))
      place Ordering.lt later = ((apart, other), (first, h))
      place Ordering.eq later = ((apart, other), (first, h))
      place Ordering.gt later = (All-insert_by _ a xs (λ e. apart (sym e)) first, later)

  pub sort_by-Distinct : (xs : List A) → Distinct xs → Distinct (sort_by xs)
  unfolding sort_by
  sort_by-Distinct [] h = tt
  sort_by-Distinct (x ∷ xs) (other, h) =
      insert_by-Distinct x (sort_by xs) (All-sort_by _ xs other) (sort_by-Distinct xs h)
