-- ===== src/Ingest/Contexts.antt =====
-- What calls leave of the contexts of the shards: none goes, and what is hidden stays hidden.
use mathlib.Core.Path.{subst}
use vsector.Base.{
  String, ℕ, ◌≡◌, refl, sym, ◌∙◌, Bool, true, false, Option, none, some, List, [], ◌∷◌, arith,
  eq_iff, eq_refl, contains, is_some, Among, inl, inr,
}
use vsector.Dict.{Dict, lookup, insert, lookup-insert, lookup-insert_self}
use vsector.Exec.{Result, ok, err}
use vsector.Exec.Ends.{Ends, Ends-pure, Ends-bind-lift, Ends-bind-gets, Ends-bind-modify}
use vsector.Shard.{Shard}
use vsector.Storage.{add_id}
use vsector.Storage.Recovery.{contains-add_id}
use vsector.Index.{Index}
use vsector.Transfer.{Root}
use vsector.Context.{ShardContext, local_delete}
use vsector.Ingest.{
  Namespace, Hosted, Service, context_key, changed, context_or_new, on_context, get_or_create_ctx,
  delete_one, delete_ids, record_replication_stats,
}

contains-add_id_keeps :
    (k i : String) (ids : List String) → contains k ids ≡ true → contains k (add_id i ids) ≡ true
contains-add_id_keeps k i ids h = ground (arith, contains-add_id k i ids)

contains-add_id_self : (i : String) (ids : List String) → contains i (add_id i ids) ≡ true
contains-add_id_self i ids = simp (contains-add_id, eq_refl)

-- The context behind a key hides an id.
abbrev pub hides : {Idx : Type 0} → String → Option (Hosted Idx) → Bool
hides k none = false
hides k (some h) = contains k h.ctx.tombstones

module _ {Idx : Type 0} where
  -- What is there stays there, what is hidden stays hidden, and the router is the same.
  pub record Follows (svc t : Service Idx) : Type 0 where
    pub present :
        (j : String) → is_some (lookup j svc.shards) ≡ true → is_some (lookup j t.shards) ≡ true
    pub hidden :
        (k j : String) → hides k (lookup j svc.shards) ≡ true → hides k (lookup j t.shards) ≡ true
    pub same_router : t.router ≡ svc.router

  pub stays : (svc : Service Idx) → Follows svc svc
  stays svc = record { present = λ j h. h; hidden = λ k j h. h; same_router = refl }

  pub after : (svc t u : Service Idx) → Follows svc t → Follows t u → Follows svc u
  after svc t u f g = record {
    present = λ j h. g.present j (f.present j h);
    hidden = λ k j h. g.hidden k j (f.hidden k j h);
    same_router = g.same_router ∙ f.same_router;
  }

  pub on_context-present :
      (f : ShardContext Idx → ShardContext Idx) (key j : String) (shards : Dict (Hosted Idx))
      → is_some (lookup j shards) ≡ true
      → is_some (lookup j (on_context f key shards)) ≡ true
  unfolding on_context
  on_context-present f key j shards h = go (lookup key shards) refl
    where
      go :
          (o : Option (Hosted Idx))
          → lookup key shards ≡ o
          → is_some (lookup j (changed f key shards o)) ≡ true
      go none at = h
      go (some c) at = ground (arith, lookup-insert key j (record c { ctx = f c.ctx }) shards)

  pub on_context-hidden :
      (f : ShardContext Idx → ShardContext Idx) (key k j : String) (shards : Dict (Hosted Idx))
      → ((c : ShardContext Idx)
          → contains k c.tombstones ≡ true
          → contains k (f c).tombstones ≡ true)
      → hides k (lookup j shards) ≡ true
      → hides k (lookup j (on_context f key shards)) ≡ true
  unfolding on_context
  on_context-hidden f key k j shards keeps h = go (lookup key shards) refl
    where
      go :
          (o : Option (Hosted Idx))
          → lookup key shards ≡ o
          → hides k (lookup j (changed f key shards o)) ≡ true
      go none at = h
      go (some c) at = ground (
        arith,
        lookup-insert key j (record c { ctx = f c.ctx }) shards,
        eq_iff key j,
        keeps c.ctx,
      )

  on_context-hides :
      (f : ShardContext Idx → ShardContext Idx) (key k : String) (shards : Dict (Hosted Idx))
      → ((c : ShardContext Idx) → contains k (f c).tombstones ≡ true)
      → is_some (lookup key shards) ≡ true
      → hides k (lookup key (on_context f key shards)) ≡ true
  unfolding on_context
  on_context-hides f key k shards adds h = go (lookup key shards) refl
    where
      go :
          (o : Option (Hosted Idx))
          → lookup key shards ≡ o
          → hides k (lookup key (changed f key shards o)) ≡ true
      go none at = ground arith
      go (some c) at = rw (lookup-insert_self key (record c { ctx = f c.ctx }) shards) (adds c.ctx)

-- The context that a call gets is the one behind the key.
abbrev pub Gotten :
    {Idx : Type 0} → String → Shard → Service Idx → Result (Hosted Idx) × Service Idx → Type 0
Gotten namespace s svc (ok h, t) =
    Follows svc t × (lookup (context_key namespace s.id) t.shards ≡ some h)
Gotten namespace s svc (err e, t) = Unit

module _ {Idx : Type 0} (index : Index Idx) (new_index : String → Idx)
    (disk : String → String → Root) (base_dir : String) (metadata : Dict Namespace)
    (namespace : String) where
  delete_one-Follows :
      (acks : ℕ) (s : Shard) (id : String) (svc : Service Idx)
      → Follows svc (delete_one index new_index disk base_dir metadata namespace acks s id svc).1
  unfolding delete_one local_delete record_replication_stats
  delete_one-Follows acks s id svc = record {
    present =
        λ j. on_context-present (local_delete index id) (context_key namespace s.id) j svc.shards;
    hidden = λ k j.
        on_context-hidden (local_delete index id) (context_key namespace s.id) k j svc.shards
          (λ c h. contains-add_id_keeps k id c.tombstones h);
    same_router = refl;
  }

  delete_one-hides :
      (acks : ℕ) (s : Shard) (id : String) (svc : Service Idx)
      → let key = context_key namespace s.id in
        is_some (lookup key svc.shards) ≡ true
        → hides id (
            lookup key
              (delete_one index new_index disk base_dir metadata namespace acks s id svc).1.shards)
          ≡ true
  unfolding delete_one local_delete record_replication_stats
  delete_one-hides acks s id svc =
      on_context-hides (local_delete index id) (context_key namespace s.id) id svc.shards
        (λ c. contains-add_id_self id c.tombstones)

  pub delete_ids-Follows :
      (acks : ℕ) (s : Shard) (ids : List String) (svc : Service Idx)
      → Follows svc (delete_ids index new_index disk base_dir metadata namespace acks s ids svc).1
  unfolding delete_ids
  delete_ids-Follows acks s [] svc = stays svc
  delete_ids-Follows acks s (id ∷ ids) svc =
      after svc _ _ (delete_one-Follows acks s id svc) (delete_ids-Follows acks s ids _)

  pub delete_ids-hides :
      (acks : ℕ) (s : Shard) (ids : List String) (k : String) (svc : Service Idx)
      → Among k ids
      → let key = context_key namespace s.id in
        is_some (lookup key svc.shards) ≡ true
        → hides k (
            lookup key
              (delete_ids index new_index disk base_dir metadata namespace acks s ids svc).1.shards)
          ≡ true
  unfolding delete_ids
  delete_ids-hides acks s [] k svc at_k there = absurd at_k
  delete_ids-hides acks s (id ∷ ids) k svc (inl same) there =
      (delete_ids-Follows acks s ids _).hidden k (context_key namespace s.id) (
        subst
          (λ i.
            hides i (
              lookup (context_key namespace s.id)
                (delete_one index new_index disk base_dir metadata namespace acks s id
                  svc).1.shards)
            ≡ true)
          (sym same) (delete_one-hides acks s id svc there))
  delete_ids-hides acks s (id ∷ ids) k svc (inr rest) there =
      delete_ids-hides acks s ids k _ rest
        ((delete_one-Follows acks s id svc).present (context_key namespace s.id) there)

  new_context-Follows :
      (key : String) (h : Hosted Idx) (svc : Service Idx)
      → lookup key svc.shards ≡ none
      → Follows svc (record svc { shards = insert key h svc.shards })
  new_context-Follows key h svc at = record {
    present = λ j there. ground (arith, lookup-insert key j h svc.shards);
    hidden = λ k j hid. ground (arith, lookup-insert key j h svc.shards, eq_iff key j);
    same_router = refl;
  }

  pub get_or_create_ctx-Gotten :
      (s : Shard) (svc : Service Idx)
      → Ends
          (get_or_create_ctx index new_index disk base_dir metadata namespace s)
          svc
          (Gotten namespace s svc)
  unfolding get_or_create_ctx
  get_or_create_ctx-Gotten s svc = Ends-bind-gets _ _ svc (go (lookup key svc.shards) refl)
    where
      key : String
      key = context_key namespace s.id

      go :
          (o : Option (Hosted Idx))
          → lookup key svc.shards ≡ o
          → Ends
              (context_or_new index new_index disk base_dir metadata svc.router.now namespace s o)
              svc
              (Gotten namespace s svc)
      go (some h) at = Ends-pure h svc (stays svc, at)
      go none at =
          Ends-bind-lift _ _ svc (λ e h. tt)
            (λ ns h. Ends-bind-modify _ _ svc (
              Ends-pure _ _
                (new_context-Follows key _ svc at, lookup-insert_self key _ svc.shards)))
