-- ===== src/Dict.antt =====
-- Python's `dict` with texts as keys, in insertion order, and its laws in the form of tests.
use vsector.Base.{
  String-cases, ne_of_eq_false, inl, inr, ◌⊎◌, String, ◌≡◌, refl, ◌≢◌, Bool, Option, none, some,
  List, [], ◌∷◌, arith, ◌==◌, eq_iff, eq_refl, if◌then◌else◌, is_some, ap, Bool-cases,
}

abbrev pub Dict {ℓ} : Type ℓ → Type ℓ
Dict V = List (String × V)

module _ {ℓ} {V : Type ℓ} where
  -- `d.get(k)`
  unfoldable pub lookup : String → Dict V → Option V
  lookup k [] = none
  lookup k ((j, v) ∷ d) = if j == k then some v else lookup k d

  -- `d[k] = v`: an old key keeps its place.
  unfoldable pub insert : String → V → Dict V → Dict V
  insert k v [] = (k, v) ∷ []
  insert k v ((j, w) ∷ d) = if j == k then (k, v) ∷ d else (j, w) ∷ insert k v d

  -- `d.pop(k, None)`
  unfoldable pub erase : String → Dict V → Dict V
  erase k [] = []
  erase k ((j, v) ∷ d) = let rest = erase k d in if j == k then rest else (j, v) ∷ rest

  -- `k in d`
  abbrev pub has_key : String → Dict V → Bool
  has_key k d = is_some (lookup k d)

  -- `d.values()`
  abbrev pub values : Dict V → List V
  values [] = []
  values ((_, v) ∷ d) = v ∷ values d

  -- `list(d)`
  abbrev pub keys : Dict V → List String
  keys [] = []
  keys ((k, _) ∷ d) = k ∷ keys d

  pub lookup-insert :
      (k j : String) (v : V) (d : Dict V)
      → lookup j (insert k v d) ≡ (if k == j then some v else lookup j d)
  unfolding lookup insert
  lookup-insert k j v [] = refl
  lookup-insert k j v ((i, w) ∷ d) =
      ground (arith, eq_iff k j, eq_iff i k, eq_iff i j, lookup-insert k j v d)

  pub lookup-erase :
      (k j : String) (d : Dict V) → lookup j (erase k d) ≡ (if k == j then none else lookup j d)
  unfolding lookup erase
  lookup-erase k j [] = ground arith
  lookup-erase k j ((i, v) ∷ d) =
      ground (arith, lookup-erase k j d, eq_iff i k, eq_iff i j, eq_iff k j)

  pub lookup-insert_self : (k : String) (v : V) (d : Dict V) → lookup k (insert k v d) ≡ some v
  lookup-insert_self k v d = simp (lookup-insert, eq_refl)

  pub lookup-insert_ne :
      (k j : String) (v : V) (d : Dict V) → k ≢ j → lookup j (insert k v d) ≡ lookup j d
  lookup-insert_ne k j v d h = ground (arith, lookup-insert k j v d, eq_iff k j)

  pub lookup-erase_self : (k : String) (d : Dict V) → lookup k (erase k d) ≡ none
  lookup-erase_self k d = simp (lookup-erase, eq_refl)

  -- Where a key that is found after an insertion comes from.
  pub lookup-insert_cases :
      (k j : String) (v : V) (d : Dict V) (x : V)
      → lookup j (insert k v d) ≡ some x
      → ((k ≡ j) × (v ≡ x)) ⊎ ((k ≢ j) × (lookup j d ≡ some x))
  lookup-insert_cases k j v d x h = elim (String-cases k j) [
    | inl same ↦ inl (same, ground (arith, lookup-insert k j v d, eq_iff k j))
    | inr other ↦ inr (ne_of_eq_false k j other, ground (arith, lookup-insert k j v d))
  ]

  pub insert_same : (k : String) (v : V) (d : Dict V) → lookup k d ≡ some v → insert k v d ≡ d
  unfolding lookup insert
  insert_same k v [] h = cc
  insert_same k v ((j, w) ∷ d) h = elim (Bool-cases (j == k)) [
    | inl same ↦ ground (arith, eq_iff j k)
    | inr other ↦ rw other (ap (λ l. (j, w) ∷ l) (insert_same k v d (ground arith)))
  ]

  pub erase_absent : (k : String) (d : Dict V) → lookup k d ≡ none → erase k d ≡ d
  unfolding lookup erase
  erase_absent k [] h = refl
  erase_absent k ((j, w) ∷ d) h = elim (Bool-cases (j == k)) [
    | inl same ↦ ground arith
    | inr other ↦ rw other (ap (λ l. (j, w) ∷ l) (erase_absent k d (ground arith)))
  ]
