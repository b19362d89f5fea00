-- ===== src/HashRing/Rendezvous.antt =====
-- What highest-random-weight hashing promises: the choice is the node of the greatest weight, and
-- it does not move when other nodes come and go.
use mathlib.Core.Path.{subst}
use vsector.Base.{
  String, ℕ, ◌≤◌, ◌<◌, ◌≡◌, ◌≢◌, refl, sym, ap, ◌∙◌, Option, none, some, List, [], ◌∷◌, ◌++◌,
  if◌then◌else◌, arith, contains, Among, ◌⊎◌, inl, inr, Bool-cases, String-cases, eq_refl,
}
use vsector.Errors.{Error}
use vsector.Exec.{Result, ok, err}
use vsector.HashRing.{add_node, remove_node, beats, best_of, chosen, weight, get_node}

chosen-some : (r : Option (ℕ × String)) (x : String) → chosen r ≡ ok x → (k : ℕ) × (r ≡ some (k, x))
chosen-some none x h = absurd (cc h)
chosen-some (some (b, y)) x h = (b, cc h)

module _ (score : String → ℕ) where
  -- A best entry so far is a node with its own score.
  abbrev Scored : Option (ℕ × String) → Type 0
  Scored none = Unit {0}
  Scored (some (b, n)) = b ≡ score n

  abbrev AtMost : Option (ℕ × String) → ℕ → Type 0
  AtMost none k = Unit {0}
  AtMost (some (b, _)) k = b ≤ k

  -- The loop ends with an entry as great as all that it met, itself met or there before.
  abbrev IsBest : Option (ℕ × String) → List String → Option (ℕ × String) → Type 0
  IsBest best nodes none = (best ≡ none) × (nodes ≡ [])
  IsBest best nodes (some (b, n)) =
      (b ≡ score n)
      × ((best ≡ some (b, n)) ⊎ Among n nodes)
      × AtMost best b
      × ((x : String) → Among x nodes → score x ≤ b)

  abbrev next_best : String → Option (ℕ × String) → Option (ℕ × String)
  next_best m best = if beats (score m) best then some (score m, m) else best

  next_best-Scored :
      (m : String) (best : Option (ℕ × String)) → Scored best → Scored (next_best m best)
  next_best-Scored m none h = refl
  next_best-Scored m (some (b, n)) h = ground arith

  next_best-AtMost :
      (m : String) (best : Option (ℕ × String)) (k : ℕ)
      → AtMost (next_best m best) k
      → AtMost best k × (score m ≤ k)
  next_best-AtMost m none k h = (tt, h)
  next_best-AtMost m (some (b, n)) k h = ground arith

  met_before :
      (m n : String) (b : ℕ) (best : Option (ℕ × String)) (nodes : List String)
      → (next_best m best ≡ some (b, n)) ⊎ Among n nodes
      → (best ≡ some (b, n)) ⊎ Among n (m ∷ nodes)
  met_before m n b none nodes h = ground arith
  met_before m n b (some (c, k)) nodes h = ground arith

  step-IsBest :
      (m : String) (best : Option (ℕ × String)) (nodes : List String) (r : Option (ℕ × String))
      → IsBest (next_best m best) nodes r
      → IsBest best (m ∷ nodes) r
  step-IsBest m none nodes none i = absurd (cc i.0)
  step-IsBest m (some (b, n)) nodes none i = absurd (ground arith)
  step-IsBest m best nodes (some (b, n)) (own, met, most, all) =
      let (before, here) = next_best-AtMost m best b most in
      (
        own,
        met_before m n b best nodes met,
        before,
        λ x at_x. elim at_x [ inl e ↦ subst (λ y. score y ≤ b) (sym e) here | inr q ↦ all x q ],
      )

  best_of-IsBest :
      (best : Option (ℕ × String)) (nodes : List String)
      → Scored best
      → IsBest best nodes (best_of score best nodes)
  unfolding best_of
  best_of-IsBest none [] h = (refl, refl)
  best_of-IsBest (some (b, n)) [] h = (h, inl refl, omega arith, λ x nowhere. absurd nowhere)
  best_of-IsBest best (m ∷ nodes) h =
      step-IsBest m best nodes _
        (best_of-IsBest (next_best m best) nodes (next_best-Scored m best h))

  replaced :
      (m : String) (best : Option (ℕ × String)) (k : ℕ)
      → AtMost best k
      → k < score m
      → next_best m best ≡ some (score m, m)
  replaced m none k most less = refl
  replaced m (some (b, n)) k most less = ground arith

  next_best-AtMost_of :
      (m : String) (best : Option (ℕ × String)) (k : ℕ)
      → AtMost best k
      → score m ≤ k
      → AtMost (next_best m best) k
  next_best-AtMost_of m none k most le = le
  next_best-AtMost_of m (some (b, n)) k most le = ground arith

  kept : (m n : String) (b : ℕ) → score m ≤ b → next_best m (some (b, n)) ≡ some (b, n)
  kept m n b le = ground arith

  compared : (a b : ℕ) → (a < b) ⊎ (b ≤ a)
  compared a b = ground arith

  -- A best entry so far that does not beat `n` may stand in for it, where `n` is not the choice.
  without :
      (best : Option (ℕ × String)) (n x : String) (k : ℕ) (nodes : List String)
      → AtMost best (score n)
      → best_of score (some (score n, n)) nodes ≡ some (k, x)
      → n ≢ x
      → best_of score best nodes ≡ some (k, x)
  unfolding best_of
  without best n x k [] most h other = absurd (other (cc h))
  without best n x k (m ∷ nodes) most h other = elim (compared (score n) (score m)) [
    | inl less ↦
        ap (λ b. best_of score b nodes) (replaced m best (score n) most less)
        ∙ sym (
            ap (λ b. best_of score b nodes)
              (replaced m (some (score n, n)) (score n) (omega arith) less))
        ∙ h
    | inr le ↦
        without (next_best m best) n x k nodes (next_best-AtMost_of m best (score n) most le)
          (sym (ap (λ b. best_of score b nodes) (kept m n (score n) le)) ∙ h) other
  ]

  next_best-cases :
      (m : String) (best : Option (ℕ × String))
      → (AtMost best (score m) × (next_best m best ≡ some (score m, m))) ⊎ (next_best m best ≡ best)
  next_best-cases m none = inl (tt, refl)
  next_best-cases m (some (b, n)) = ground arith

  dropped :
      (best : Option (ℕ × String)) (m x : String) (k : ℕ) (nodes : List String)
      → best_of score (next_best m best) nodes ≡ some (k, x)
      → m ≢ x
      → best_of score best nodes ≡ some (k, x)
  dropped best m x k nodes h other = elim (next_best-cases m best) [
    | inl (most, eq) ↦
        without best m x k nodes most (sym (ap (λ b. best_of score b nodes) eq) ∙ h) other
    | inr eq ↦ sym (ap (λ b. best_of score b nodes) eq) ∙ h
  ]

  -- Removing a node that is not the choice does not move the choice.
  best_of-remove_node :
      (best : Option (ℕ × String)) (n x : String) (k : ℕ) (nodes : List String)
      → best_of score best nodes ≡ some (k, x)
      → n ≢ x
      → best_of score best (remove_node n nodes) ≡ some (k, x)
  unfolding best_of remove_node
  best_of-remove_node best n x k [] h other = h
  best_of-remove_node best n x k (m ∷ nodes) h other = elim (String-cases m n) [
    | inl same ↦ rw (same, eq_refl n) (dropped best m x k nodes h (λ e. other (sym same ∙ e)))
    | inr differs ↦ rw differs (best_of-remove_node (next_best m best) n x k nodes h other)
  ]

  best_of-append :
      (best : Option (ℕ × String)) (n : String) (nodes : List String)
      → best_of score best (nodes ++ (n ∷ [])) ≡ next_best n (best_of score best nodes)
  unfolding best_of
  best_of-append best n [] = refl
  best_of-append best n (m ∷ nodes) = best_of-append (next_best m best) n nodes

  chosen-next_best :
      (n x : String) (r : Option (ℕ × String))
      → chosen r ≡ ok x
      → (chosen (next_best n r) ≡ ok x) ⊎ (chosen (next_best n r) ≡ ok n)
  chosen-next_best n x none h = inr refl
  chosen-next_best n x (some (b, y)) h = ground arith

module _ (hash : String → ℕ) (key : String) where
  -- What a lookup finds: a node as heavy as every node, or an error where there is none.
  abbrev pub Heaviest : List String → Result String → Type 0
  Heaviest nodes (ok x) =
      Among x nodes × ((y : String) → Among y nodes → weight hash key y ≤ weight hash key x)
  Heaviest nodes (err e) = (nodes ≡ []) × (e ≡ Error.other_error "no nodes in ring")

  -- `get_node` returns a node of the ring whose weight for the key is not exceeded by any node's,
  -- and raises only for the ring without nodes.
  pub get_node-Heaviest : (nodes : List String) → Heaviest nodes (get_node hash key nodes)
  unfolding get_node
  get_node-Heaviest nodes = go _ (best_of-IsBest (weight hash key) none nodes tt)
    where
      go :
          (r : Option (ℕ × String))
          → IsBest (weight hash key) none nodes r
          → Heaviest nodes (chosen r)
      go none i = (i.1, refl)
      go (some (b, x)) (own, inl met, most, all) = absurd (cc met)
      go (some (b, x)) (own, inr met, most, all) =
          (met, λ y at_y. subst (λ k. weight hash key y ≤ k) own (all y at_y))

  -- A key keeps its node when any other node leaves the ring.
  pub get_node-remove_node :
      (n x : String) (nodes : List String)
      → get_node hash key nodes ≡ ok x
      → n ≢ x
      → get_node hash key (remove_node n nodes) ≡ ok x
  unfolding get_node
  get_node-remove_node n x nodes h other =
      let (k, found) = chosen-some _ x h in
      ap chosen (best_of-remove_node (weight hash key) none n x k nodes found other)

  -- A key keeps its node when a node joins the ring, unless it goes to the node that joined.
  pub get_node-add_node :
      (n x : String) (nodes : List String)
      → get_node hash key nodes ≡ ok x
      → (get_node hash key (add_node n nodes) ≡ ok x)
        ⊎ (get_node hash key (add_node n nodes) ≡ ok n)
  unfolding get_node add_node
  get_node-add_node n x nodes h = elim (Bool-cases (contains n nodes)) [
    | inl known ↦ inl (rw known h)
    | inr new ↦ rw new (appended (chosen-next_best (weight hash key) n x _ h))
  ]
    where
      appended :
          (chosen (next_best (weight hash key) n (best_of (weight hash key) none nodes)) ≡ ok x)
            ⊎ (chosen (next_best (weight hash key) n (best_of (weight hash key) none nodes)) ≡ ok n)
          → (chosen (best_of (weight hash key) none (nodes ++ (n ∷ []))) ≡ ok x)
            ⊎ (chosen (best_of (weight hash key) none (nodes ++ (n ∷ []))) ≡ ok n)
      appended h = rw (best_of-append (weight hash key) none n nodes) h
