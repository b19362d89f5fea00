-- ===== src/Router/Selection.antt =====
-- Which shard a record is sent to: the one of greatest weight in the namespace's list, whatever
-- the cached ring was.
use mathlib.Core.Path.{subst}
use vsector.Base.{
  String, ℕ, ◌≤◌, ◌≡◌, refl, sym, true, false, not, Option, none, some, List, [], ◌∷◌, ◌==◌, arith,
  inl, inr, ◌⊎◌, ◌↔◌, Among, Among-select, Among-map, all_of-Among, contains, contains-Among,
  Bool-cases, String-cases, eq_refl, ne_of_eq_false,
}
use vsector.Exec.{Result, ok, err}
use vsector.Exec.Ends.{Ends, Ends-bind-gets, Ends-bind-lift, Ends-bind-modify, Ends-lift}
use vsector.Dict.{lookup}
use vsector.Shard.{Shard}
use vsector.HashRing.{RendezvousHash, weight}
use vsector.HashRing.Rendezvous.{Heaviest, get_node-Heaviest}
use vsector.Router.{
  Router, same_set, ids, with_id, synced, first_with, found_in, shard_key, select_from,
}

same_set-Among :
    (xs ys : List String) → same_set xs ys ≡ true → (y : String) → Among y ys ↔ Among y xs
same_set-Among xs ys h y = (
  λ at_y. contains-Among y xs (all_of-Among (λ z. contains z xs) y ys (ground arith) at_y),
  λ at_y. contains-Among y ys (all_of-Among (λ z. contains z ys) y xs (ground arith) at_y),
)

-- The ring has the current ids, whether it was cached or built anew.
synced-Among :
    (o : Option RendezvousHash) (current : List String) (y : String)
    → Among y (synced o current) ↔ Among y current
synced-Among none current y = (λ h. h, λ h. h)
synced-Among (some nodes) current y = elim (Bool-cases (same_set current nodes)) [
  | inl same ↦ rw same (same_set-Among current nodes same y)
  | inr differs ↦ rw differs (λ h. h, λ h. h)
]

first_with-found :
    (x : String) (ss : List Shard)
    → Among x (ids ss)
    → (s : Shard) × (first_with x ss ≡ some s) × Among s ss × (s.id ≡ x)
unfolding first_with
first_with-found x [] h = absurd h
first_with-found x (s ∷ ss) h = elim (String-cases s.id x) [
  | inl same ↦ (s, rw (same, eq_refl x) refl, inl refl, same)
  | inr other ↦
      let (t, found, at_t, same) = first_with-found x ss (not_here x s ss h other) in
      (t, rw other found, inr at_t, same)
]
  where
    not_here :
        (x : String) (s : Shard) (ss : List Shard)
        → (x ≡ s.id) ⊎ Among x (ids ss)
        → (s.id == x) ≡ false
        → Among x (ids ss)
    not_here x s ss (inl same) other = absurd (ne_of_eq_false s.id x other (sym same))
    not_here x s ss (inr rest) other = rest

no_ids : (ss : List Shard) → ((y : String) → Among y (ids ss) → ⊥) → ss ≡ []
no_ids [] h = refl
no_ids (s ∷ ss) h = absurd (h s.id (inl refl))

module _ (hash : String → ℕ) (sha256 : String → String) (namespace record_id : String) where
  abbrev weight_of : Shard → ℕ
  weight_of s = weight hash (shard_key sha256 namespace record_id) s.id

  -- The shard of greatest weight among those with an id, or an error where no shard has one.
  abbrev pub Selected : List Shard → Router → Result Shard × Router → Type 0
  Selected shards r (ok s, t) =
      Among s shards
      × ((s.id == "") ≡ false)
      × ((x : Shard) → Among x shards → (x.id == "") ≡ false → weight_of x ≤ weight_of s)
      × (t ≡ record r { hrw_cache = t.hrw_cache })
  Selected shards r (err e, t) = (with_id shards ≡ []) × (t ≡ record r { hrw_cache = t.hrw_cache })

  -- The lookup in the ring, over the active shards.
  abbrev Found : List Shard → Result Shard → Type 0
  Found active (ok s) = Among s active × ((x : Shard) → Among x active → weight_of x ≤ weight_of s)
  Found active (err e) = active ≡ []

  found_in-Found :
      (ring : RendezvousHash) (active : List Shard) (x : String)
      → ((y : String) → Among y ring ↔ Among y (ids active))
      → Heaviest hash (shard_key sha256 namespace record_id) ring (ok x)
      → Found active (found_in active (first_with x active))
  found_in-Found ring active x same (at_x, heaviest) =
      let (s, found, at_s, at_id) = first_with-found x active ((same x).0 at_x) in
      rw found (
        at_s,
        λ y at_y.
            subst (λ i. weight_of y ≤ weight hash (shard_key sha256 namespace record_id) i)
              (sym at_id) (heaviest y.id ((same y.id).1 (Among-map (λ s. s.id) y active at_y))),
      )

  id-test : (s : Shard) → not (s.id == "") ≡ true → (s.id == "") ≡ false
  id-test s h = ground arith

  test-id : (s : Shard) → (s.id == "") ≡ false → not (s.id == "") ≡ true
  test-id s h = rw h refl

  of_active :
      (shards : List Shard) (r t : Router) (res : Result Shard)
      → t ≡ record r { hrw_cache = t.hrw_cache }
      → Found (with_id shards) res
      → Selected shards r (res, t)
  of_active shards r t (err e) same h = (h, same)
  of_active shards r t (ok s) same (at_s, heaviest) =
      let (among, holds) = (Among-select (λ s. not (s.id == "")) s shards).0 at_s in
      (
        among,
        id-test s holds,
        (λ x at_x named.
            heaviest x ((Among-select (λ s. not (s.id == "")) x shards).1 (at_x, test-id x named))),
        same,
      )

  select_from-ends :
      (shards : List Shard) (r : Router)
      → Ends (select_from hash sha256 namespace record_id shards) r (Selected shards r)
  unfolding select_from
  select_from-ends shards r =
      let active = with_id shards in
      let key = shard_key sha256 namespace record_id in
      let ring = synced (lookup namespace r.hrw_cache) (ids active) in
      let same = synced-Among (lookup namespace r.hrw_cache) (ids active) in
      let heaviest = get_node-Heaviest hash key ring in
      Ends-bind-gets _ _ r (
        Ends-bind-modify _ _ r (
          Ends-bind-lift _ _ _
            (λ e h. of_active shards r _ (err e) refl (
              no_ids active λ y at_y.
                subst (λ l. Among y l) (subst (Heaviest hash key ring) h heaviest).0
                  ((same y).1 at_y)))
            (λ x h. Ends-lift _ _ (
              of_active shards r _ _ refl
                (found_in-Found ring active x same (subst (Heaviest hash key ring) h heaviest))))))

  -- The selection sends a record to the shard of the list that has the greatest weight for it,
  -- among the shards with an id, and raises only if no shard has one; what the cache held for the
  -- ring does not matter, and nothing but that cache changes.
  pub select_from-Selected :
      (shards : List Shard) (r : Router)
      → Selected shards r (select_from hash sha256 namespace record_id shards r)
  select_from-Selected shards r = (select_from-ends shards r).outcome
