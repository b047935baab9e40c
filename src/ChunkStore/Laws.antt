-- ===== src/ChunkStore/Laws.antt =====
-- The chunk store is a list of chunks.
use deltanar.Base.{
  ℕ, zero, suc, ◌+◌, ◌-◌, ◌≤◌, ◌<◌, ◌≡◌, refl, ap, sym, ◌∙◌, Bool, true, false, some, List, [], ◌∷◌,
  ◌++◌, Result, ok, err, library, index_out_of_bounds, of_option, ◌==◌, length, concat, get_elem?,
  get_elem?-none, get_elem?-some, arith, length-append, le→leb, Bool-cases, Option-cases, inl, inr,
  ==_iff, take_append_length, drop_append_length, take-length,
}
use deltanar.Base.Int.{pos, ltb_ℤ}
use deltanar.Base.Slices.{slice}
use deltanar.ChunkStore.{
  close_chunks, Entry, TempChunkStore, Os, IsLawful, open_temp_chunk_store, write_chunk, map_chunks,
  read_chunk, or_nil, unless_failed,
}
use mathlib.Core.List.{append_assoc, append-nil}
use native.Mathlib.Nat.{add-zero, add_assoc, zero-add}

-- The entries of chunks that begin at an offset, one behind the other.
abbrev pub entries : ℕ → List (List ℕ) → List Entry
entries offset [] = []
entries offset (x ∷ xs) =
    record { size = length x; offset = offset } ∷ entries (offset + length x) xs

-- The store holds these chunks.
pub record Holds (c : TempChunkStore) (xs : List (List ℕ)) : Type 0 where
  pub entries_eq : c.chunks ≡ entries 0 xs
  pub file_eq : c.file ≡ concat xs
  pub size_eq : c.size ≡ length (concat xs)

concat-snoc : (xs : List (List ℕ)) (x : List ℕ) → concat (xs ++ (x ∷ [])) ≡ concat xs ++ x
concat-snoc [] x = append-nil x
concat-snoc (y ∷ ys) x = rw (concat-snoc ys x) (sym (append_assoc y (concat ys) x))

entries-snoc :
    (n : ℕ) (xs : List (List ℕ)) (x : List ℕ)
    → entries n (xs ++ (x ∷ []))
      ≡ entries n xs ++ (record { size = length x; offset = n + length (concat xs) } ∷ [])
entries-snoc n [] x = rw add-zero
entries-snoc n (y ∷ ys) x = rw (entries-snoc (n + length y) ys x, length-append, add_assoc)

pub open-Holds : Holds open_temp_chunk_store []
unfolding open_temp_chunk_store
open-Holds = record { entries_eq = refl; file_eq = refl; size_eq = refl }

unless_failed-ok : (b : Bool) → unless_failed b ≡ ok tt → b ≡ true
unless_failed-ok true e = refl
unless_failed-ok false e = cc

-- If the operating system appends what it writes, a write that succeeds puts one more chunk at the end of
-- those that the store holds.
pub write_chunk-Holds :
    (os : Os)
    → IsLawful os
    → (c : TempChunkStore) (xs : List (List ℕ)) (bytes : List ℕ) → Holds c xs
    → (write_chunk os c bytes).1 ≡ ok tt
    → Holds (write_chunk os c bytes).0 (xs ++ (bytes ∷ []))
unfolding write_chunk
write_chunk-Holds os law c xs bytes h e =
    let file = law.write_appends c.file bytes (unless_failed-ok _ e) in
    record {
      entries_eq = rw (h.entries_eq, h.size_eq, entries-snoc 0 xs bytes, zero-add);
      file_eq = file ∙ rw (h.file_eq, concat-snoc);
      size_eq = rw (concat-snoc, length-append, h.size_eq);
    }

-- The store holds these chunks, and the mapped bytes show them.
pub record Shows (c : TempChunkStore) (xs : List (List ℕ)) : Type 0 where
  pub holds : Holds c xs
  pub buf_eq : or_nil c.buf ≡ concat xs

concat_empty : (xs : List (List ℕ)) → length (concat xs) ≡ 0 → concat xs ≡ []
concat_empty xs h = length_zero (concat xs) h
  where
    length_zero : (ys : List ℕ) → length ys ≡ 0 → ys ≡ []
    length_zero [] h = refl
    length_zero (y ∷ ys) h = absurd (omega arith)

err-ne-ok : ◌≡◌ {A = Result (Unit {0})} (err library) (ok tt) → ⊥
err-ne-ok h = cc

-- If the operating system's mappings show the file, a `Map` that succeeds keeps the chunks that the store
-- holds, and its bytes show them.
pub map_chunks-Shows :
    (os : Os)
    → IsLawful os
    → (c : TempChunkStore) (xs : List (List ℕ)) → Holds c xs
    → (map_chunks os c).1 ≡ ok tt
    → Shows (map_chunks os c).0 xs
unfolding map_chunks
map_chunks-Shows os law c xs h e = elim (Bool-cases (c.size == 0)) [
  | inl empty ↦ rw empty (record {
    holds = record { entries_eq = h.entries_eq; file_eq = h.file_eq; size_eq = h.size_eq };
    buf_eq = sym (concat_empty xs (sym h.size_eq ∙ (==_iff c.size 0).0 empty));
  })
  | inr full ↦ elim (Option-cases (os.mmap c.file c.size)) [
    | inl e₀ ↦ absurd (err-ne-ok (rw (full, e₀) at e))
    | inr (b, e₁) ↦
        let whole : b ≡ c.file =
          law.mmap_shows c.file c.size e₁ ∙ rw (h.size_eq, ← h.file_eq, take-length) in
        rw (full, e₁)
          (record {
            holds = record { entries_eq = h.entries_eq; file_eq = h.file_eq; size_eq = h.size_eq };
            buf_eq = whole ∙ h.file_eq;
          })
  ]
]

length-entries : (n : ℕ) (xs : List (List ℕ)) → length (entries n xs) ≡ length xs
length-entries n [] = refl
length-entries n (x ∷ xs) = ap suc (length-entries (n + length x) xs)

slice_middle :
    (pre y post : List ℕ) → slice (pre ++ (y ++ post)) (length pre) (length pre + length y) ≡ ok y
slice_middle pre y post =
    let n : length pre + length y ≤ length (pre ++ (y ++ post)) =
      omega (arith, length-append pre (y ++ post), length-append y post) in
    let e : length pre + length y - length pre ≡ length y = omega arith in
    rw (
      le→leb (length pre) (length pre + length y) (omega arith),
      le→leb (length pre + length y) (length (pre ++ (y ++ post))) n,
      e,
      drop_append_length,
      take_append_length,
    )

entry_slice :
    (pre : List ℕ) (xs : List (List ℕ)) (i : ℕ) {x : List ℕ}
    → get_elem? xs i ≡ some x
    → (e : Entry) × (get_elem? (entries (length pre) xs) i ≡ some e)
      × (slice (pre ++ concat xs) e.offset (e.offset + e.size) ≡ ok x)
entry_slice pre [] i {x} h = cc
entry_slice pre (y ∷ ys) zero {x} h =
    let same : y ≡ x = cc in
    (
      record { size = length y; offset = length pre },
      refl,
      slice_middle pre y (concat ys) ∙ ap ok same,
    )
entry_slice pre (y ∷ ys) (suc i) {x} h =
    let (e, ee, es) = entry_slice (pre ++ y) ys i h in
    (e, rw length-append at ee, rw append_assoc at es)

not_below : (a b : ℕ) → b ≤ a → ltb_ℤ (pos a) (pos b) ≡ false
not_below a b h = ground arith

below : (a b : ℕ) → a < b → ltb_ℤ (pos a) (pos b) ≡ true
below a b h = ground arith

-- In a store that shows some chunks, an index gives its chunk as it was written, and an index past the
-- last chunk is an error.
pub read_chunk_lem :
    (c : TempChunkStore) (xs : List (List ℕ)) (i : ℕ)
    → Shows c xs
    → read_chunk c (pos i) ≡ of_option index_out_of_bounds (get_elem? xs i)
unfolding read_chunk
read_chunk_lem c xs i s = elim (Option-cases (get_elem? xs i)) [
  | inl e ↦
      let past : length xs ≤ i = get_elem?-none xs i e in
      rw (s.holds.entries_eq, length-entries, not_below i (length xs) past, e)
  | inr (x, e) ↦
      let (entry, ee, es) = entry_slice [] xs i e in
      rw (
        s.holds.entries_eq,
        length-entries,
        below i (length xs) (get_elem?-some xs i e),
        ee,
        s.buf_eq,
        es,
        e,
      )
]

-- On an operating system that unmaps no empty mapping: closing a store that was mapped while it held no
-- bytes is an error, since its empty buffer is not nil.
pub close_chunks-empty :
    (os : Os)
    → IsLawful os
    → (c : TempChunkStore) → c.size ≡ 0
    → close_chunks os (map_chunks os c).0 ≡ err library
unfolding map_chunks close_chunks
close_chunks-empty os law c e =
    let z : (c.size == 0) ≡ true = ground arith in rw (z, law.munmap_empty)
