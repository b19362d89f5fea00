-- ===== src/Etcd/Durable.antt =====
-- The JSON file of the store (`_persist` and `_load` of vsector/sharding/etcd.py): one object with
-- the shards under their ids and the members and migrations under their ids after a prefix.
use Prim.Native.Char.{code}
use Prim.Native.String.{◌++◌ as ◌+++◌, len, slice}
use text.Mathlib.Text.{starts_with}
use text.Mathlib.TextPositions.{starts_with-append, slice-append_right, len-append}
use text.Mathlib.TextEquality.{starts_with_iff}
use text.Mathlib.TextLemmas.{append_cancel_left, cons-append, head-eq_of_cons-eq}
use mathlib.Core.Path.{subst}
use vsector.Base.{
  String, ℕ, ◌≡◌, ◌≢◌, refl, sym, ap, ◌∙◌, true, false, Option, none, some, List, [], ◌∷◌, ◌==◌,
  arith, eq_refl, if◌then◌else◌, first_some, Bool-cases, String-cases, inl, inr, ◌⊎◌,
  eq_false_of_ne, ne_of_eq_false, first_some-none,
}
use vsector.Dict.{Dict, lookup, insert, values, lookup-insert}
use vsector.Cluster.{ClusterNode}
use vsector.Shard.{Shard}
use vsector.Migration.Record.{ShardMigration}
use vsector.Etcd
use vsector.Etcd.{Etcd}
use vsector.Etcd.Documents.{
  Object, shard_to_dict, node_to_dict, migration_to_dict, shard_from_dict, node_from_dict,
  migration_from_dict,
}

abbrev pub cluster_key_prefix : String
cluster_key_prefix = "cluster::node::"

abbrev pub migration_key_prefix : String
migration_key_prefix = "migration::"

abbrev pub Document : Type 0
Document = Dict Object

-- `{k: v.to_dict() for k, v in self._data.items()}`
abbrev pub shard_entries : Dict Shard → Document
shard_entries [] = []
shard_entries ((k, s) ∷ d) = (k, shard_to_dict s) ∷ shard_entries d

-- `data.update({f"{prefix}{id}": v.to_dict() for v in values})`
abbrev pub update :
    {V : Type 0} → String → (V → String) → (V → Object) → List V → Document → Document
update prefix id to_dict [] doc = doc
update prefix id to_dict (v ∷ vs) doc =
    update prefix id to_dict vs (insert (prefix +++ id v) (to_dict v) doc)

-- What `_persist` writes.
unfoldable pub document : Etcd → Document
unfolding shard_to_dict node_to_dict migration_to_dict
document e =
    update migration_key_prefix ShardMigration.migration_id migration_to_dict (values e.migrations)
      (update cluster_key_prefix ClusterNode.node_id node_to_dict (values e.nodes)
        (shard_entries e.shards))

-- `k[len(prefix):]` where `k` starts with the prefix
unfoldable pub cut : String → String → Option String
cut prefix k = if starts_with k prefix then some (slice k (len prefix) (len k)) else none

-- One turn of the loop of `_load`, by what is left of the key after each prefix.
abbrev pub stored_under : Option String → Option String → ℕ → String → Object → Etcd → Etcd
stored_under (some i) _ now k v e = record e {
  migrations = insert i (migration_from_dict v) e.migrations;
}
stored_under none (some i) now k v e = record e { nodes = insert i (node_from_dict v) e.nodes }
stored_under none none now k v e = record e { shards = insert k (shard_from_dict now v) e.shards }

abbrev pub load_entry : ℕ → String → Object → Etcd → Etcd
load_entry now k v e =
    stored_under (cut migration_key_prefix k) (cut cluster_key_prefix k) now k v e

unfoldable pub load_from : ℕ → Document → Etcd → Etcd
load_from now [] e = e
load_from now ((k, v) ∷ doc) e = load_from now doc (load_entry now k v e)

-- `_load` into a new store
unfoldable pub load : ℕ → Document → Etcd
unfolding load_from
load now doc = load_from now doc Etcd.empty

pub cut_append : (prefix s : String) → cut prefix (prefix +++ s) ≡ some s
unfolding cut
cut_append prefix s =
    rw (starts_with-append prefix s, len-append prefix s, slice-append_right prefix s) refl

some_injective : (a b : String) → some a ≡ some b → a ≡ b
some_injective a b h = cc

pub uncut : (prefix k : String) → starts_with k prefix ≡ false → cut prefix k ≡ none
unfolding cut
uncut prefix k other = rw other refl

pub cut_sound : (prefix k i : String) → cut prefix k ≡ some i → k ≡ prefix +++ i
cut_sound prefix k i h = either (Bool-cases (starts_with k prefix))
  where
    either : (starts_with k prefix ≡ true) ⊎ (starts_with k prefix ≡ false) → k ≡ prefix +++ i
    either (inl starts) =
        let (rest, whole) = (starts_with_iff k prefix).0 starts in
        sym whole
        ∙ ap (λ r. prefix +++ r)
            (some_injective rest i (sym (cut_append prefix rest) ∙ ap (cut prefix) whole ∙ h))
    either (inr other) = absurd (not_cut (sym (uncut prefix k other) ∙ h))
      where
        not_cut : none ≡ some i → ⊥
        not_cut e = cc

letters_apart : code "m" ≡ code "c" → ⊥
letters_apart h = omega arith

pub apart_lem : (s t : String) → migration_key_prefix +++ s ≢ cluster_key_prefix +++ t
apart_lem s t h = letters_apart (
    ap code (
      head-eq_of_cons-eq {x = "m"} {y = "c"} {xs = "igration::" +++ s} {ys = "luster::node::" +++ t}
        (sym (cons-append "m" "igration::" s) ∙ h ∙ cons-append "c" "luster::node::" t)))

abbrev pub found {ℓ} : {A B : Type ℓ} → (A → B) → Option A → Option B
found f none = none
found f (some a) = some (f a)

-- The entry of a key that comes last.
abbrev pub last_lookup : {V : Type 0} → String → Dict V → Option V
last_lookup k [] = none
last_lookup k ((j, v) ∷ d) = first_some (last_lookup k d) (if j == k then some v else none)

-- Every key once.
abbrev pub IsUnique : {V : Type 0} → Dict V → Type 0
IsUnique [] = Unit {0}
IsUnique ((k, v) ∷ d) = (lookup k d ≡ none) × IsUnique d

pub last_lookup-lookup :
    {V : Type 0} (k : String) (d : Dict V) → IsUnique d → last_lookup k d ≡ lookup k d
unfolding lookup
last_lookup-lookup k [] h = refl
last_lookup-lookup k ((j, v) ∷ d) (alone, h) =
    rw (last_lookup-lookup k d h) (elim (String-cases j k) [
      | inl same ↦ rw (subst (λ i. lookup i d ≡ none) same alone) refl
      | inr other ↦ rw other (first_some-none (lookup k d))
    ])

pub insert-IsUnique :
    {V : Type 0} (k : String) (v : V) (d : Dict V) → IsUnique d → IsUnique (insert k v d)
unfolding insert lookup
insert-IsUnique k v [] h = (refl, tt)
insert-IsUnique k v ((j, w) ∷ d) (alone, h) = elim (String-cases j k) [
  | inl same ↦ rw (same, eq_refl k) (subst (λ i. lookup i d ≡ none) same alone, h)
  | inr other ↦ rw other (
    lookup-insert k j v d ∙ rw (eq_false_of_ne k j (λ e. ne_of_eq_false j k other (sym e))) alone,
    insert-IsUnique k v d h,
  )
]

-- Each value stands under its own id, once.
abbrev pub IsKeyedBy : {V : Type 0} → (V → String) → Dict V → Type 0
IsKeyedBy id [] = Unit {0}
IsKeyedBy id ((k, v) ∷ d) = (id v ≡ k) × (lookup k d ≡ none) × IsKeyedBy id d

module _ {V : Type 0} (prefix : String) (id : V → String) (to_dict : V → Object) where
  pub lookup-update :
      (k : String) (m : Dict V) (doc : Document)
      → IsKeyedBy id m
      → lookup (prefix +++ k) (update prefix id to_dict (values m) doc)
        ≡ first_some (found to_dict (lookup k m)) (lookup (prefix +++ k) doc)
  unfolding lookup
  lookup-update k [] doc h = refl
  lookup-update k ((j, v) ∷ m) doc (own, alone, h) =
      lookup-update k m (insert (prefix +++ id v) (to_dict v) doc) h
      ∙ ap (first_some (found to_dict (lookup k m)))
          (lookup-insert (prefix +++ id v) (prefix +++ k) (to_dict v) doc)
      ∙ either (String-cases j k)
    where
      either :
          (j ≡ k) ⊎ ((j == k) ≡ false)
          → first_some (found to_dict (lookup k m)) (
              if (prefix +++ id v) == (prefix +++ k)
              then some (to_dict v)
              else lookup (prefix +++ k) doc)
            ≡ first_some
                (found to_dict (if j == k then some v else lookup k m))
                (lookup (prefix +++ k) doc)
      either (inl same) =
          let at_k =
            subst (λ i. ((prefix +++ i) == (prefix +++ k)) ≡ true) (sym (own ∙ same))
              (eq_refl (prefix +++ k)) in
          let absent = subst (λ i. lookup i m ≡ none) same alone in
          let j_same = subst (λ i. (i == k) ≡ true) (sym same) (eq_refl k) in
          rw (at_k, absent, j_same) refl
      either (inr other) =
          let apart =
            eq_false_of_ne (prefix +++ id v) (prefix +++ k)
              (λ e. ne_of_eq_false j k other (sym own ∙ append_cancel_left prefix (id v) k e)) in
          rw (apart, other) refl

  pub lookup-update_other :
      (k : String) (vs : List V) (doc : Document)
      → ((i : String) → prefix +++ i ≢ k)
      → lookup k (update prefix id to_dict vs doc) ≡ lookup k doc
  lookup-update_other k [] doc apart = refl
  lookup-update_other k (v ∷ vs) doc apart =
      lookup-update_other k vs (insert (prefix +++ id v) (to_dict v) doc) apart
      ∙ lookup-insert (prefix +++ id v) k (to_dict v) doc
      ∙ rw (eq_false_of_ne (prefix +++ id v) k (apart (id v))) refl

  pub update-IsUnique :
      (vs : List V) (doc : Document) → IsUnique doc → IsUnique (update prefix id to_dict vs doc)
  update-IsUnique [] doc h = h
  update-IsUnique (v ∷ vs) doc h =
      update-IsUnique vs (insert (prefix +++ id v) (to_dict v) doc)
        (insert-IsUnique (prefix +++ id v) (to_dict v) doc h)
