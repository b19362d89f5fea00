-- ===== src/Context/Sound.antt =====
-- The invariant of a shard's state: its store, tombstones and index agree with its log.
use mathlib.Core.Path.{subst}
use mathlib.Core.List.{append_assoc, append-nil}
use vsector.Base.{
  String, ◌≡◌, refl, sym, ap, ◌∙◌, true, false, Option, none, some, List, [], ◌∷◌, ◌++◌, ◌==◌,
  if◌then◌else◌, contains, is_some, Bool-cases, inl, inr, ◌⊎◌, first_some,
}
use vsector.Dict.{lookup, lookup-erase}
use vsector.Index.{Index, notify_delete}
use vsector.Storage.{
  VectorRecord, SegmentStore, Entry, put, append, flush_log, add_id, durable_records_by_id,
}
use vsector.Storage.Tables.{latest, IsKeyed, put-latest}
use vsector.Storage.Recovery.{
  Verdict, silent, gone, there, last_word, or_before, contains-discard_id, contains-add_id,
}
use vsector.Transfer.{delete_entry}
use vsector.Transfer.Contents.{erase-IsKeyed}
use vsector.Context.{ShardContext, visible, local_upsert, flush_wal, memtable_delete}
use vsector.Context.Reading.{IsDistinctTables, get-latest}
use vsector.Context.Puts.{put-tables, put-IsKeyed, put-memtable, last_word-append}

-- The same version and checksum, or no record on either side. The checksum is of the vector only.
abbrev pub Alike : Option VectorRecord → Option VectorRecord → Type 0
Alike none none = Unit {0}
Alike (some a) (some b) = (a.version ≡ b.version) × (a.checksum ≡ b.checksum)
Alike _ _ = ⊥

module _ {Idx : Type 0} where
  -- The log with what is still in its buffer.
  abbrev pub entries : ShardContext Idx → List Entry
  entries c = c.wal.written ++ c.wal.buffer

  -- What the state has for an id of which the log says `v`.
  abbrev pub Said : String → Verdict → ShardContext Idx → Type 0
  Said k silent c = (contains k c.tombstones ≡ false) × (lookup k c.segments.memtable ≡ none)
  Said k gone c = contains k c.tombstones ≡ true
  Said k (there r) c = (contains k c.tombstones ≡ false) × Alike (latest k c.segments) (some r)

  pub visible-latest :
      (k : String) (c : ShardContext Idx)
      → IsDistinctTables c.segments.files
      → visible k c ≡ (if contains k c.tombstones then none else latest k c.segments)
  unfolding visible
  visible-latest k c tables =
      ap (λ o. if contains k c.tombstones then none else o) (get-latest k c.segments tables)

  -- Tables without double ids, a keyed memtable, and for each id what the log says of it; the index
  -- has exactly the ids that are visible.
  pub record IsSound (index : Index Idx) (c : ShardContext Idx) : Type 0 where
    pub tables : IsDistinctTables c.segments.files
    pub keyed : IsKeyed c.segments.memtable
    pub said : (k : String) → Said k (last_word k (entries c)) c
    pub indexed : (k : String) → index.has k c.index ≡ is_some (visible k c)

  -- A step that adds one entry to the log and leaves the other ids as they are.
  other-Said :
      (k : String) (v : Verdict) (c d : ShardContext Idx)
      → contains k d.tombstones ≡ contains k c.tombstones
      → (lookup k c.segments.memtable ≡ none → lookup k d.segments.memtable ≡ none)
      → latest k d.segments ≡ latest k c.segments
      → Said k v c
      → Said k v d
  other-Said k silent c d tomb mem same (alive, absent) = (tomb ∙ alive, mem absent)
  other-Said k gone c d tomb mem same dead = tomb ∙ dead
  other-Said k (there r) c d tomb mem same (alive, alike) =
      (tomb ∙ alive, subst (λ o. Alike o (some r)) (sym same) alike)

  module _ (index : Index Idx) where
    pub local_upsert-IsSound :
        (name : String) (r : VectorRecord) (c : ShardContext Idx)
        → contains name c.segments.sstables ≡ false
        → IsSound index c
        → ((k : String)
            → visible k (local_upsert index name r c) ≡ (if r.id == k then some r else visible k c))
          × IsSound index (local_upsert index name r c)
    unfolding local_upsert
    local_upsert-IsSound name r c fresh sound = (
      sees,
      record {
        tables = tables;
        keyed = put-IsKeyed name r c.segments sound.keyed;
        said = λ k. subst (λ v. Said k v d) (sym (word k)) (now_said k (Bool-cases (r.id == k)));
        indexed = λ k.
            index.has_add r.id k r c.index
            ∙ after k (Bool-cases (r.id == k))
            ∙ ap is_some (sym (sees k));
      },
    )
      where
        d : ShardContext Idx
        d = local_upsert index name r c

        tables : IsDistinctTables (put name r c.segments).files
        tables = put-tables name r c.segments sound.keyed sound.tables

        newest :
            (k : String)
            → latest k (put name r c.segments) ≡ (if r.id == k then some r else latest k c.segments)
        newest k = put-latest name r c.segments k sound.keyed fresh

        own : (k : String) → (r.id == k) ≡ true → latest k (put name r c.segments) ≡ some r
        own k same = newest k ∙ rw same refl

        sees : (k : String) → visible k d ≡ (if r.id == k then some r else visible k c)
        sees k =
            visible-latest k d tables
            ∙ ap (λ b. if b then none else latest k (put name r c.segments))
                (contains-discard_id k r.id c.tombstones)
            ∙ rw (newest k) (cases (Bool-cases (r.id == k)))
          where
            cases :
                ((r.id == k) ≡ true) ⊎ ((r.id == k) ≡ false)
                → (if (if r.id == k then false else contains k c.tombstones)
                    then none
                    else (if r.id == k then some r else latest k c.segments))
                  ≡ (if r.id == k then some r else visible k c)
            cases (inl same) = rw same refl
            cases (inr other) = rw other (sym (visible-latest k c sound.tables))

        word :
            (k : String)
            → last_word k (entries d)
              ≡ or_before (if r.id == k then there r else silent) (last_word k (entries c))
        word k =
            ap (last_word k) (sym (append_assoc c.wal.written c.wal.buffer (Entry.upsert r ∷ [])))
            ∙ last_word-append k (entries c) (Entry.upsert r)

        now_said :
            (k : String)
            → ((r.id == k) ≡ true) ⊎ ((r.id == k) ≡ false)
            → Said k (or_before (if r.id == k then there r else silent) (last_word k (entries c))) d
        now_said k (inl same) = rw same (
          contains-discard_id k r.id c.tombstones ∙ rw same refl,
          subst (λ o. Alike o (some r)) (sym (own k same)) (refl, refl),
        )
        now_said k (inr other) = rw other (
            other-Said k (last_word k (entries c)) c d
              (contains-discard_id k r.id c.tombstones ∙ rw other refl)
              (put-memtable name r c.segments k other) (newest k ∙ rw other refl) (sound.said k))

        after :
            (k : String)
            → ((r.id == k) ≡ true) ⊎ ((r.id == k) ≡ false)
            → (if r.id == k then true else index.has k c.index)
              ≡ is_some (if r.id == k then some r else visible k c)
        after k (inl same) = rw same refl
        after k (inr other) = rw other (sound.indexed k)

    pub flush_wal-visible :
        (k : String) (c : ShardContext Idx) → visible k (flush_wal index c) ≡ visible k c
    unfolding flush_wal visible
    flush_wal-visible k c = refl

    pub flush_wal-IsSound :
        (c : ShardContext Idx) → IsSound index c → IsSound index (flush_wal index c)
    unfolding flush_wal flush_log
    flush_wal-IsSound c sound = record {
      tables = sound.tables;
      keyed = sound.keyed;
      said = λ k.
          subst (λ es. Said k (last_word k es) (flush_wal index c))
            (sym (append-nil (c.wal.written ++ c.wal.buffer)))
            (other-Said k (last_word k (entries c)) c (flush_wal index c) refl (λ h. h) refl
              (sound.said k));
      indexed = λ k. sound.indexed k ∙ ap is_some (sym (flush_wal-visible k c));
    }

    -- A delete, with the memtable emptied of the id.
    abbrev pub deleted : String → ShardContext Idx → ShardContext Idx
    deleted k c = record c {
      wal = append (delete_entry k) c.wal;
      segments = memtable_delete k c.segments;
      index = index.delete k c.index;
      lifecycle = notify_delete c.lifecycle;
      tombstones = add_id k c.tombstones;
    }

    erased-latest :
        (k j : String) (s : SegmentStore)
        → (k == j) ≡ false
        → latest j (memtable_delete k s) ≡ latest j s
    unfolding durable_records_by_id
    erased-latest k j s other =
        ap (λ o. first_some o (lookup j (durable_records_by_id s)))
          (lookup-erase k j s.memtable ∙ rw other refl)

    pub deleted-IsSound :
        (k : String) (c : ShardContext Idx)
        → (k == "") ≡ false
        → IsSound index c
        → ((j : String) → visible j (deleted k c) ≡ (if k == j then none else visible j c))
          × IsSound index (deleted k c)
    deleted-IsSound k c named sound = (
      sees,
      record {
        tables = sound.tables;
        keyed = erase-IsKeyed k c.segments.memtable sound.keyed;
        said = λ j. subst (λ v. Said j v d) (sym (word j)) (now_said j (Bool-cases (k == j)));
        indexed = λ j.
            index.has_delete k j c.index
            ∙ after j (Bool-cases (k == j))
            ∙ ap is_some (sym (sees j));
      },
    )
      where
        d : ShardContext Idx
        d = deleted k c

        sees : (j : String) → visible j d ≡ (if k == j then none else visible j c)
        sees j =
            visible-latest j d sound.tables
            ∙ ap (λ b. if b then none else latest j (memtable_delete k c.segments))
                (contains-add_id j k c.tombstones)
            ∙ cases (Bool-cases (k == j))
          where
            cases :
                ((k == j) ≡ true) ⊎ ((k == j) ≡ false)
                → (if (if k == j then true else contains j c.tombstones)
                    then none
                    else latest j (memtable_delete k c.segments))
                  ≡ (if k == j then none else visible j c)
            cases (inl same) = rw same refl
            cases (inr other) = rw other (
                ap (λ o. if contains j c.tombstones then none else o)
                  (erased-latest k j c.segments other)
                ∙ sym (visible-latest j c sound.tables))

        word :
            (j : String)
            → last_word j (entries d)
              ≡ or_before (if k == j then gone else silent) (last_word j (entries c))
        word j =
            ap (last_word j) (sym (append_assoc c.wal.written c.wal.buffer (delete_entry k ∷ [])))
            ∙ last_word-append j (entries c) (delete_entry k)
            ∙ rw named refl

        now_said :
            (j : String)
            → ((k == j) ≡ true) ⊎ ((k == j) ≡ false)
            → Said j (or_before (if k == j then gone else silent) (last_word j (entries c))) d
        now_said j (inl same) = rw same (contains-add_id j k c.tombstones ∙ rw same refl)
        now_said j (inr other) = rw other (
            other-Said j (last_word j (entries c)) c d
              (contains-add_id j k c.tombstones ∙ rw other refl)
              (λ absent. lookup-erase k j c.segments.memtable ∙ rw other absent)
              (erased-latest k j c.segments other) (sound.said j))

        after :
            (j : String)
            → ((k == j) ≡ true) ⊎ ((k == j) ≡ false)
            → (if k == j then false else index.has j c.index)
              ≡ is_some (if k == j then none else visible j c)
        after j (inl same) = rw same refl
        after j (inr other) = rw other (sound.indexed j)
