-- ===== src/Pack/Kept.antt =====
-- A property of what `writeDNAR` collects that each of its steps keeps, on the way through a file's chunks.
pub mod Files
use deltanar.Base.{
  ℕ, suc, ◌+◌, ◌<◌, ◌≡◌, refl, ap, ◌∙◌, Bool, true, false, List, [], ◌∷◌, ◌++◌, Option, none, some,
  Option-cases, Bool-cases, inl, inr, Result, ok, err, panic, stuck, ◌>>=◌, arith, length, All,
  All-append, ltb, leb, ◌&&◌, length-append, ◌==◌, ==_iff, if◌then◌else◌,
}
use deltanar.Base.Int.{negsuc}
use deltanar.Base.Text.{Text}
use deltanar.Base.Host.{Host}
use deltanar.Delta.Index.{Index}
use deltanar.Database.{StoreFile, Chunk, Db}
use deltanar.Dnar.{ChunkDescriptor, FileType, NarFile, Nar}
use deltanar.Pack.LocalIndex.{
  LocalIndex, MatchedChunk, store_file_by_id, file_by_hash, file_chunks, lookup_id,
}
use deltanar.Pack.State.{
  Packing, RefCache, index_of, add_input_store_path_id, new_input_file, add_input_store_file,
  add_chunk_dep, new_chunk_dep, lookup_hash, add_delta_payload,
}
use deltanar.Pack.Reference.{
  Reference, choose_reference, size_cap, best_ref, check_reference, reference_of, ref_index,
  count_votes,
}
use deltanar.Pack.Files.{
  Source, pack_matched, pack_delta, pack_ca, pack_unmatched, pack_chunk, pack_chunks, file_deltas,
  pack_by_chunks, pack_contents, pack_regular, pack_directory, pack_type, is_skipped, pack_files,
}
use deltanar.Pack.PathInfo.{PathInfos, lookup_info}
use deltanar.Pack.Dnar.{pack_store_path, pack_store_paths}

-- A result that satisfies a predicate, if it is one.
abbrev pub Then {ℓ} : {A : Type ℓ} → (A → Type 0) → Result A → Type 0
Then Q (ok a) = Q a
Then Q (err e) = Unit
Then Q panic = Unit
Then Q stuck = Unit

pub Then->>= {ℓ κ} :
    {A : Type ℓ} {B : Type κ} (Q : A → Type 0) (R : B → Type 0) (m : Result A) (f : A → Result B)
    → Then Q m
    → ((a : A) → Q a → Then R (f a))
    → Then R (m >>= f)
Then->>= Q R (ok a) f h k = k a h
Then->>= Q R (err e) f h k = tt
Then->>= Q R panic f h k = tt
Then->>= Q R stuck f h k = tt

pub Then-any {ℓ} : {A : Type ℓ} (r : Result A) → Then (λ a. Unit {0}) r
Then-any (ok a) = tt
Then-any (err e) = tt
Then-any panic = tt
Then-any stuck = tt

pub if-elim {ℓ κ} :
    {A : Type ℓ} (P : A → Type κ) (b : Bool) (x y : A) → P x → P y → P (if b then x else y)
if-elim P true x y h k = h
if-elim P false x y h k = k

-- What follows a call may use that the call gave its value.
pub Then-self : {A : Type 0} (r : Result A) → Then (λ a. r ≡ ok a) r
Then-self (ok a) = refl
Then-self (err e) = tt
Then-self panic = tt
Then-self stuck = tt

pub Then-ok {ℓ} : {A : Type ℓ} (Q : A → Type 0) (r : Result A) {a : A} → Then Q r → r ≡ ok a → Q a
Then-ok Q r h e = let k = rw e at h in k

-- The chunk that a missing chunk of a file is added as.
abbrev pub dep_of : ℕ → MatchedChunk → Chunk
dep_of file_id m = record {
  id = 0;
  file_id = file_id;
  hash = m.hash;
  size = m.size;
  offset = m.offset;
}

-- The steps that change what was collected, for chunks of a certain kind, and that the chunks of a file
-- are of this kind.
pub record Kept (src : Source) (Row : Chunk → Type 0) (P : Packing → Type 0) : Type 0 where
  pub local_index :
      (p : Packing) (id : ℕ) (f : StoreFile) (li : LocalIndex)
      → store_file_by_id p.li id ≡ ok (f, li)
      → P p
      → P (record p { li = li })
  pub cache :
      (p : Packing) (id : ℕ) (f : StoreFile) (li : LocalIndex) (ix : Index) (c : RefCache)
      → store_file_by_id p.li id ≡ ok (f, li)
      → ref_index src.host f (record p { li = li }) ≡ ok (ix, c)
      → P p
      → P (record p { li = li; ref_cache = c })
  pub file : (f : StoreFile) (p : Packing) → P p → P (add_input_store_file f p).1
  pub chunk : (c : Chunk) (p : Packing) → Row c → P p → P (add_chunk_dep c p).1
  pub payload : (d : List ℕ) (p : Packing) → P p → P (add_delta_payload d p).1
  pub rows :
      (p : Packing) (file_id : ℕ)
      → P p
      → All (λ m. Row (dep_of file_id m)) (file_chunks src.engine p.li file_id)

module _ (src : Source) (Row : Chunk → Type 0) (P : Packing → Type 0) (k : Kept src Row P) where
  -- A call that keeps the property, whatever else it gives.
  abbrev pub Packs {ℓ} : {A : Type ℓ} → Result (A × Packing) → Type 0
  Packs = Then (λ r. P r.1)

  pack_matched-Packs : (m : MatchedChunk) (p : Packing) → P p → Packs (pack_matched m p)
  unfolding pack_matched
  pack_matched-Packs m p h =
      Then->>= _ _ (store_file_by_id p.li m.local_file_id) _ (Then-self _)
        (λ (f, li) e. k.file f (record p { li = li }) (k.local_index p m.local_file_id f li e h))

  pack_unmatched-Packs :
      (file_id : ℕ) (ref : Option Reference) (d : Option (List ℕ)) (m : MatchedChunk) (p : Packing)
      → Row (dep_of file_id m)
      → P p
      → Packs (pack_unmatched file_id ref d m p)
  unfolding pack_unmatched pack_delta pack_ca
  pack_unmatched-Packs file_id (some r) (some bytes) m p row h =
      k.payload bytes (add_input_store_file r.file p).1 (k.file r.file p h)
  pack_unmatched-Packs file_id none (some bytes) m p r h = tt
  pack_unmatched-Packs file_id none none m p r h = k.chunk _ p r h
  pack_unmatched-Packs file_id (some _) none m p r h = k.chunk _ p r h

  pub pack_chunk-Packs :
      (file_id : ℕ) (ref : Option Reference) (m : MatchedChunk) (d : Option (List ℕ)) (p : Packing)
      → Row (dep_of file_id m)
      → P p
      → Packs (pack_chunk file_id ref m d p)
  unfolding pack_chunk
  pack_chunk-Packs file_id ref m d p r h =
      if-elim Packs m.matched _ _ (pack_matched-Packs m p h)
        (pack_unmatched-Packs file_id ref d m p r h)

  pub pack_chunks-Packs :
      (file_id : ℕ) (ref : Option Reference) (ms : List MatchedChunk) (ds : List (Option (List ℕ)))
      (p : Packing)
      → All (λ m. Row (dep_of file_id m)) ms
      → P p
      → Packs (pack_chunks file_id ref ms ds p)
  unfolding pack_chunks
  pack_chunks-Packs file_id ref [] ds p rs h = h
  pack_chunks-Packs file_id ref (m ∷ ms) [] p rs h = tt
  pack_chunks-Packs file_id ref (m ∷ ms) (d ∷ ds) p (r, rs) h =
      Then->>= (λ r. P r.1) _ (pack_chunk file_id ref m d p) _
        (pack_chunk-Packs file_id ref m d p r h)
        (λ (c, p₁) h₁.
          Then->>= (λ r. P r.1) _ (pack_chunks file_id ref ms ds p₁) _
            (pack_chunks-Packs file_id ref ms ds p₁ rs h₁) (λ _ h₂. h₂))

  reference_of-Packs :
      (p : Packing) (id : ℕ) (f : StoreFile) (li : LocalIndex) (r : Result (Index × RefCache))
      → store_file_by_id p.li id ≡ ok (f, li)
      → ref_index src.host f (record p { li = li }) ≡ r
      → P p
      → Packs (reference_of f (record p { li = li }) r)
  reference_of-Packs p id f li (ok (index, cache)) e g h = k.cache p id f li index cache e g h
  reference_of-Packs p id f li (err _) e g h = k.local_index p id f li e h
  reference_of-Packs p id f li panic e g h = tt
  reference_of-Packs p id f li stuck e g h = tt

  check_reference-Packs :
      (cap : ℕ) (p : Packing) (id : ℕ) (r : Result (StoreFile × LocalIndex))
      → store_file_by_id p.li id ≡ r
      → P p
      → Packs (check_reference src.host cap p r)
  check_reference-Packs cap p id (ok (f, li)) e h =
      let p₁ = record p { li = li } in
      if-elim Packs (ltb 0 f.size && leb f.size cap) (reference_of f p₁ (ref_index src.host f p₁))
        (ok (none, p₁)) (reference_of-Packs p id f li (ref_index src.host f p₁) e refl h)
        (k.local_index p id f li e h)
  check_reference-Packs cap p id (err _) e h = h
  check_reference-Packs cap p id panic e h = tt
  check_reference-Packs cap p id stuck e h = tt

  pub choose_reference-Packs :
      (size : ℕ) (votes : List (ℕ × ℕ)) (p : Packing)
      → P p
      → Packs (choose_reference src.host size votes p)
  unfolding choose_reference
  choose_reference-Packs size [] p h = h
  choose_reference-Packs size (v ∷ votes) p h =
      check_reference-Packs (size_cap size) p (best_ref (v ∷ votes) (negsuc 0) 0)
        (store_file_by_id p.li (best_ref (v ∷ votes) (negsuc 0) 0)) refl h
