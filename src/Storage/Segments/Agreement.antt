-- ===== src/Storage/Segments/Agreement.antt =====
-- When the log in segments and the log as a list of entries (vsector/storage/wal.py) have the same
-- entries, and that a write, a flush and an opening keep it so.
use mathlib.Core.Path.{subst}
use mathlib.Core.List.{append-nil}
use vsector.Base.{
  ℕ, ◌+◌, ◌≤◌, ◌<◌, ◌≡◌, refl, sym, ap, ◌∙◌, List, [], ◌∷◌, ◌++◌, ltb, arith, length, Bool-cases,
  inl, inr,
}
use vsector.Storage.{Entry, Wal, flush_log}
use vsector.Storage.Segments.{
  Segments, file, created, written_to, all_entries, total, open_segment, open_wal, rotate_if_needed,
  put_entry, write, flush_batch, flush,
}

append_assoc : (xs ys zs : List Entry) → (xs ++ ys) ++ zs ≡ xs ++ (ys ++ zs)
append_assoc [] ys zs = refl
append_assoc (x ∷ xs) ys zs = ap (λ l. x ∷ l) (append_assoc xs ys zs)

written_to-last :
    (done : List (List Entry)) (cur : List Entry) (e : Entry)
    → written_to (length done) e (done ++ (cur ∷ [])) ≡ done ++ ((cur ++ (e ∷ [])) ∷ [])
written_to-last [] cur e = refl
written_to-last (f ∷ done) cur e = ap (λ l. f ∷ l) (written_to-last done cur e)

file-last :
    (done : List (List Entry)) (cur : List Entry) → file (length done) (done ++ (cur ∷ [])) ≡ cur
file-last [] cur = refl
file-last (f ∷ done) cur = file-last done cur

length-last :
    (done : List (List Entry)) (cur : List Entry) → length (done ++ (cur ∷ [])) ≡ length done + 1
length-last [] cur = refl
length-last (f ∷ done) cur = omega (arith, length-last done cur)

pub all_entries-last :
    (done : List (List Entry)) (cur : List Entry)
    → all_entries (done ++ (cur ∷ [])) ≡ all_entries done ++ cur
all_entries-last [] cur = append-nil cur
all_entries-last (f ∷ done) cur =
    ap (λ l. f ++ l) (all_entries-last done cur) ∙ sym (append_assoc f (all_entries done) cur)

created-next :
    (done : List (List Entry)) (cur : List Entry)
    → created (length done + 1) (done ++ (cur ∷ [])) ≡ (done ++ (cur ∷ [])) ++ ([] ∷ [])
created-next done cur = ground (arith, length-last done cur)

module _ (size : Entry → ℕ) where
  total-append : (xs ys : List Entry) → total size (xs ++ ys) ≡ total size xs + total size ys
  total-append [] ys = omega arith
  total-append (x ∷ xs) ys = omega (arith, total-append xs ys)

  -- The segments hold the entries of the list, and the last one is open; there is only one where
  -- all entries and `n` more bytes fit in it.
  pub record Agrees (n : ℕ) (w : Segments) (v : Wal) : Type 0 where
    pub done : List (List Entry)
    pub cur : List Entry
    pub files_are : w.files ≡ done ++ (cur ∷ [])
    pub at : w.segment_id ≡ length done
    pub entries : all_entries done ++ cur ≡ v.written
    pub counted : w.segment_written ≡ total size cur
    pub same_buffer : w.buffer ≡ v.buffer
    pub one : total size v.written + n ≤ w.segment_bytes → done ≡ []

  -- A segment with all entries in it knows their size.
  all_counted :
      (n : ℕ) (w : Segments) (v : Wal) (a : Agrees n w v)
      → a.done ≡ []
      → w.segment_written ≡ total size v.written
  all_counted n w v a empty =
      a.counted ∙ ap (total size) (sym (ap (λ d. all_entries d ++ a.cur) empty) ∙ a.entries)

  rotated-Agrees :
      (n : ℕ) (w : Segments) (v : Wal)
      → Agrees 0 w v
      → w.segment_bytes < w.segment_written + n
      → Agrees n (open_segment size (w.segment_id + 1) w) v
  unfolding open_segment
  rotated-Agrees n w v a full = record {
    done = a.done ++ (a.cur ∷ []);
    cur = [];
    files_are = next;
    at = ap (λ i. i + 1) a.at ∙ sym (length-last a.done a.cur);
    entries = append-nil _ ∙ all_entries-last a.done a.cur ∙ a.entries;
    counted =
        ap (λ fs. total size (file (w.segment_id + 1) fs)) next
        ∙ ap (λ i. total size (file i ((a.done ++ (a.cur ∷ [])) ++ ([] ∷ []))))
            (ap (λ i. i + 1) a.at ∙ sym (length-last a.done a.cur))
        ∙ ap (total size) (file-last (a.done ++ (a.cur ∷ [])) []);
    same_buffer = a.same_buffer;
    one = λ fits.
        absurd (omega (arith, full, fits, all_counted 0 w v a (a.one (omega (arith, fits)))));
  }
    where
      next : created (w.segment_id + 1) w.files ≡ (a.done ++ (a.cur ∷ [])) ++ ([] ∷ [])
      next =
          ap (λ i. created (i + 1) w.files) a.at
          ∙ ap (created (length a.done + 1)) a.files_are
          ∙ created-next a.done a.cur

  rotate_if_needed-Agrees :
      (n : ℕ) (w : Segments) (v : Wal) → Agrees 0 w v → Agrees n (rotate_if_needed size n w) v
  unfolding rotate_if_needed
  rotate_if_needed-Agrees n w v a =
      elim (Bool-cases (ltb w.segment_bytes (w.segment_written + n))) [
        | inl full ↦ rw full (rotated-Agrees n w v a (ground (arith, full)))
        | inr fits ↦ rw fits (record {
          done = a.done;
          cur = a.cur;
          files_are = a.files_are;
          at = a.at;
          entries = a.entries;
          counted = a.counted;
          same_buffer = a.same_buffer;
          one = λ h. a.one (omega (arith, h));
        })
      ]

  put_entry-Agrees :
      (e : Entry) (w : Segments) (v : Wal)
      → Agrees (size e) w v
      → Agrees 0 (put_entry size e w) (record v { written = v.written ++ (e ∷ []) })
  put_entry-Agrees e w v a = record {
    done = a.done;
    cur = a.cur ++ (e ∷ []);
    files_are =
        ap (λ i. written_to i e w.files) a.at
        ∙ ap (written_to (length a.done) e) a.files_are
        ∙ written_to-last a.done a.cur e;
    at = a.at;
    entries =
        sym (append_assoc (all_entries a.done) a.cur (e ∷ [])) ∙ ap (λ l. l ++ (e ∷ [])) a.entries;
    counted = omega (arith, a.counted, total-append a.cur (e ∷ []));
    same_buffer = a.same_buffer;
    one = λ h. a.one (omega (arith, h, total-append v.written (e ∷ [])));
  }

  write-Agrees :
      (e : Entry) (w : Segments) (v : Wal)
      → Agrees 0 w v
      → Agrees 0 (write size e w) (record v { written = v.written ++ (e ∷ []) })
  unfolding write
  write-Agrees e w v a = put_entry-Agrees e _ v (rotate_if_needed-Agrees (size e) w v a)

  flush_batch-Agrees :
      (es : List Entry) (w : Segments) (v : Wal)
      → Agrees 0 w v
      → Agrees 0 (flush_batch size es w) (record v { written = v.written ++ es })
  unfolding flush_batch
  flush_batch-Agrees [] w v a =
      subst (λ l. Agrees 0 w (record v { written = l })) (sym (append-nil v.written)) a
  flush_batch-Agrees (e ∷ es) w v a =
      subst (λ l. Agrees 0 (flush_batch size (e ∷ es) w) (record v { written = l }))
        (append_assoc v.written (e ∷ []) es)
        (flush_batch-Agrees es _ (record v { written = v.written ++ (e ∷ []) })
          (write-Agrees e w v a))

  pub buffered-Agrees :
      (l : List Entry) (w : Segments) (v : Wal)
      → Agrees 0 w v
      → Agrees 0 (record w { buffer = l }) (record v { buffer = l })
  buffered-Agrees l w v a = record {
    done = a.done;
    cur = a.cur;
    files_are = a.files_are;
    at = a.at;
    entries = a.entries;
    counted = a.counted;
    same_buffer = refl;
    one = a.one;
  }

  pub flush-Agrees : (w : Segments) (v : Wal) → Agrees 0 w v → Agrees 0 (flush size w) (flush_log v)
  unfolding flush flush_log
  flush-Agrees w v a =
      subst (λ b. Agrees 0 (flush size w) (record { written = v.written ++ b; buffer = [] }))
        a.same_buffer
        (flush_batch-Agrees w.buffer (record w { buffer = [] }) (record v { buffer = [] })
          (buffered-Agrees [] w v a))

  pub open_wal-Agrees :
      (w : Segments) (v : Wal)
      → Agrees 0 w v
      → total size v.written ≤ w.segment_bytes
      → Agrees 0 (open_wal size w.segment_bytes w.files) (record v { buffer = [] })
  unfolding open_wal open_segment
  open_wal-Agrees w v a fits =
      subst (λ fs. Agrees 0 (open_wal size w.segment_bytes fs) (record v { buffer = [] }))
        (sym (a.files_are ∙ ap (λ d. d ++ (a.cur ∷ [])) (a.one (omega (arith, fits)))))
        (record {
          done = [];
          cur = a.cur;
          files_are = refl;
          at = refl;
          entries =
              sym (ap (λ d. all_entries d ++ a.cur) (a.one (omega (arith, fits)))) ∙ a.entries;
          counted = refl;
          same_buffer = refl;
          one = λ h. refl;
        })
