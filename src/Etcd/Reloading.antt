-- ===== src/Etcd/Reloading.antt =====
-- What a store holds that is loaded from the file that another has written.
use Prim.Native.String.{◌++◌ as ◌+++◌}
use text.Mathlib.TextLemmas.{append_cancel_left}
use vsector.Base.{
  String, ℕ, ◌≡◌, ◌≢◌, refl, sym, ap, ◌∙◌, Bool, true, false, Option, none, some, [], ◌∷◌, ◌==◌,
  if◌then◌else◌, first_some, first_some-none, String-cases, inl, inr, ◌⊎◌, eq_false_of_ne,
  ne_of_eq_false, eq_refl,
}
use mathlib.Core.Path.{subst}
use vsector.Dict.{lookup, lookup-insert}
use vsector.Etcd
use vsector.Etcd.{Etcd}
use vsector.Etcd.Documents.{Object, shard_from_dict, node_from_dict, migration_from_dict}
use vsector.Etcd.Durable.{
  Document, cluster_key_prefix, migration_key_prefix, cut, load_entry, stored_under, load_from,
  load, found, last_lookup, IsUnique, cut_append, cut_sound, apart_lem, last_lookup-lookup,
}

same_prefix : (p i j : String) → ((p +++ i) == (p +++ j)) ≡ (i == j)
same_prefix p i j = elim (String-cases i j) [
  | inl same ↦
      subst (λ x. ((p +++ i) == (p +++ x)) ≡ (i == x)) same (eq_refl (p +++ i) ∙ sym (eq_refl i))
  | inr other ↦ rw other (
      eq_false_of_ne (p +++ i) (p +++ j)
        (λ e. ne_of_eq_false i j other (append_cancel_left p i j e)))
]

pub not_cut : (p k i : String) → cut p k ≡ none → k ≢ p +++ i
not_cut p k i h e = absurd_some (sym h ∙ ap (cut p) e ∙ cut_append p i)
  where
    absurd_some : none ≡ some i → ⊥
    absurd_some x = cc

cut_key : (p k i j : String) → cut p k ≡ some i → (k == (p +++ j)) ≡ (i == j)
cut_key p k i j h = ap (λ x. x == (p +++ j)) (cut_sound p k i h) ∙ same_prefix p i j

cut_other : (p k j : String) → cut p k ≡ none → (k == (p +++ j)) ≡ false
cut_other p k j h = eq_false_of_ne k (p +++ j) (not_cut p k j h)

-- A key under the one prefix is under no other.
not_both :
    (k i j : String)
    → cut migration_key_prefix k ≡ some i
    → (k == (cluster_key_prefix +++ j)) ≡ false
not_both k i j h =
    eq_false_of_ne k (cluster_key_prefix +++ j)
      (λ e. apart_lem i j (sym (cut_sound migration_key_prefix k i h) ∙ e))

module _ (now : ℕ) (k : String) (v : Object) (e : Etcd) (j : String) where
  pub migration_entry :
      (a b : Option String)
      → cut migration_key_prefix k ≡ a
      → Etcd.get_migration j (stored_under a b now k v e) ≡ (
          if k == (migration_key_prefix +++ j)
          then some (migration_from_dict v)
          else Etcd.get_migration j e)
  migration_entry (some i) b h =
      lookup-insert i j (migration_from_dict v) e.migrations
      ∙ ap (λ c. if c then some (migration_from_dict v) else Etcd.get_migration j e)
          (sym (cut_key migration_key_prefix k i j h))
  migration_entry none none h = rw (cut_other migration_key_prefix k j h) refl
  migration_entry none (some i) h = rw (cut_other migration_key_prefix k j h) refl

  pub node_entry :
      (a b : Option String)
      → cut migration_key_prefix k ≡ a
      → cut cluster_key_prefix k ≡ b
      → Etcd.get_node j (stored_under a b now k v e)
        ≡ (if k == (cluster_key_prefix +++ j) then some (node_from_dict v) else Etcd.get_node j e)
  node_entry (some i) b h g = rw (not_both k i j h) refl
  node_entry none (some i) h g =
      lookup-insert i j (node_from_dict v) e.nodes
      ∙ ap (λ c. if c then some (node_from_dict v) else Etcd.get_node j e)
          (sym (cut_key cluster_key_prefix k i j g))
  node_entry none none h g = rw (cut_other cluster_key_prefix k j g) refl

  pub shard_entry :
      cut migration_key_prefix j ≡ none
      → cut cluster_key_prefix j ≡ none
      → (a b : Option String) → cut migration_key_prefix k ≡ a
      → cut cluster_key_prefix k ≡ b
      → Etcd.get j (stored_under a b now k v e)
        ≡ (if k == j then some (shard_from_dict now v) else Etcd.get j e)
  shard_entry free free' (some i) b h g =
      rw (eq_false_of_ne k j (λ e. differ (sym h ∙ ap (cut migration_key_prefix) e ∙ free))) refl
    where
      differ : some i ≡ none → ⊥
      differ x = cc
  shard_entry free free' none (some i) h g =
      rw (eq_false_of_ne k j (λ e. differ (sym g ∙ ap (cut cluster_key_prefix) e ∙ free'))) refl
    where
      differ : some i ≡ none → ⊥
      differ x = cc
  shard_entry free free' none none h g = lookup-insert k j (shard_from_dict now v) e.shards

-- An id that begins with a reserved prefix is never that of a shard that is loaded.
pub reserved_entry :
    (now : ℕ) (k : String) (v : Object) (e : Etcd) (j i : String) (a b : Option String)
    → cut migration_key_prefix k ≡ a
    → cut cluster_key_prefix k ≡ b
    → (cut migration_key_prefix j ≡ some i) ⊎ (cut cluster_key_prefix j ≡ some i)
    → Etcd.get j (stored_under a b now k v e) ≡ Etcd.get j e
reserved_entry now k v e j i (some x) b h g reserved = refl
reserved_entry now k v e j i none (some x) h g reserved = refl
reserved_entry now k v e j i none none h g reserved =
    lookup-insert k j (shard_from_dict now v) e.shards
    ∙ rw (eq_false_of_ne k j (differ reserved)) refl
  where
    absurd_some : none ≡ some i → ⊥
    absurd_some x = cc

    differ : (cut migration_key_prefix j ≡ some i) ⊎ (cut cluster_key_prefix j ≡ some i) → k ≢ j
    differ (inl r) e = absurd_some (sym h ∙ ap (cut migration_key_prefix) e ∙ r)
    differ (inr r) e = absurd_some (sym g ∙ ap (cut cluster_key_prefix) e ∙ r)

found_last :
    {A B : Type 0} (f : A → B) (later : Option A) (b : Bool) (v : A) (o : Option B)
    → first_some (found f later) (if b then some (f v) else o)
      ≡ first_some (found f (first_some later (if b then some v else none))) o
found_last f (some a) b v o = refl
found_last f none true v o = refl
found_last f none false v o = refl

-- A component of the store that one turn of the loop sets under one key.
module _ {V : Type 0} (now : ℕ) (component : Etcd → Option V) (key : String) (read : Object → V)
    (turn : (k : String) (v : Object) (e : Etcd)
      → component (load_entry now k v e) ≡ (if k == key then some (read v) else component e)) where
  load_from-component :
      (doc : Document) (e : Etcd)
      → component (load_from now doc e)
        ≡ first_some (found read (last_lookup key doc)) (component e)
  unfolding load_from
  load_from-component [] e = refl
  load_from-component ((k, v) ∷ doc) e =
      load_from-component doc (load_entry now k v e)
      ∙ ap (first_some (found read (last_lookup key doc))) (turn k v e)
      ∙ found_last read (last_lookup key doc) (k == key) v (component e)

  pub load-component :
      (doc : Document)
      → IsUnique doc
      → component Etcd.empty ≡ none
      → component (load now doc) ≡ found read (lookup key doc)
  unfolding load
  load-component doc unique nothing =
      load_from-component doc Etcd.empty
      ∙ ap (first_some (found read (last_lookup key doc))) nothing
      ∙ first_some-none (found read (last_lookup key doc))
      ∙ ap (found read) (last_lookup-lookup key doc unique)

pub load_from-keeps :
    {V : Type 0} (now : ℕ) (component : Etcd → V)
    → ((k : String) (v : Object) (e : Etcd) → component (load_entry now k v e) ≡ component e)
    → (doc : Document) (e : Etcd) → component (load_from now doc e) ≡ component e
unfolding load_from
load_from-keeps now component turn [] e = refl
load_from-keeps now component turn ((k, v) ∷ doc) e =
    load_from-keeps now component turn doc (load_entry now k v e) ∙ turn k v e
