-- ===== src/Pack/Indices.antt =====
-- The indices that `writeDNAR` gives out (internal/cmd/dnar-pack/dnar.go: addInputStoreFile, addChunkDep
-- and addDeltaPayload) name what they were asked for.
use deltanar.Base.{
  ℕ, ◌≡◌, refl, List, [], ◌∷◌, ◌++◌, Bool-cases, some, Option-cases, inl, inr, length, get_elem?,
  get_elem?-append, get_elem?-snoc, ◌==◌, ==_iff,
}
use deltanar.Base.Text.{Text, text_eq, text_eq_iff}
use deltanar.Database.{StoreFile, Chunk}
use deltanar.Pack.LocalIndex.{lookup_id}
use deltanar.Pack.State.{
  Packing, BulkPayload, file_chunk, delta_bytes, new_input_file, add_input_store_file, lookup_hash,
  new_chunk_dep, add_chunk_dep, add_delta_payload,
}

-- At an index stands a chunk of a file with this hash.
abbrev pub HasChunk : List BulkPayload → ℕ → Text → Type 0
HasChunk deps i hash = (c : Chunk) × (get_elem? deps i ≡ some (file_chunk c)) × (c.hash ≡ hash)

-- At an index stands a file with this id.
abbrev pub HasFile : List StoreFile → ℕ → ℕ → Type 0
HasFile files i id = (f : StoreFile) × (get_elem? files i ≡ some f) × (f.id ≡ id)

-- Both maps name places that hold what they are looked up for.
pub record AreIndexed (p : Packing) : Type 0 where
  pub chunks :
      (hash : Text) {i : ℕ}
      → lookup_hash hash p.chunk_deps_map ≡ some i
      → HasChunk p.chunk_deps i hash
  pub files :
      (id : ℕ) {i : ℕ} → lookup_id id p.input_files_map ≡ some i → HasFile p.input_files i id

HasChunk-append :
    (deps more : List BulkPayload) (i : ℕ) (hash : Text)
    → HasChunk deps i hash
    → HasChunk (deps ++ more) i hash
HasChunk-append deps more i hash (c, e, h) = (c, get_elem?-append deps more i e, h)

HasFile-append : (fs more : List StoreFile) (i id : ℕ) → HasFile fs i id → HasFile (fs ++ more) i id
HasFile-append fs more i id (f, e, h) = (f, get_elem?-append fs more i e, h)

new_chunk_lookup :
    (c : Chunk) (deps : List BulkPayload) (m : List (Text × ℕ))
    → ((hash : Text) (i : ℕ) → lookup_hash hash m ≡ some i → HasChunk deps i hash)
    → (hash : Text) {i : ℕ} → lookup_hash hash ((c.hash, length deps) ∷ m) ≡ some i
    → HasChunk (deps ++ (file_chunk c ∷ [])) i hash
unfolding lookup_hash
new_chunk_lookup c deps m known hash {i} h = elim (Bool-cases (text_eq c.hash hash)) [
  | inl e ↦
      let k = rw e at h in
      let z : length deps ≡ i = cc in
      (c, rw⁻¹ z (get_elem?-snoc deps (file_chunk c)), (text_eq_iff c.hash hash).0 e)
  | inr e ↦ let k = rw e at h in HasChunk-append deps _ i hash (known hash i k)
]

new_file_lookup :
    (f : StoreFile) (fs : List StoreFile) (m : List (ℕ × ℕ))
    → ((id : ℕ) (i : ℕ) → lookup_id id m ≡ some i → HasFile fs i id)
    → (id : ℕ) {i : ℕ} → lookup_id id ((f.id, length fs) ∷ m) ≡ some i
    → HasFile (fs ++ (f ∷ [])) i id
unfolding lookup_id
new_file_lookup f fs m known id {i} h = elim (Bool-cases (f.id == id)) [
  | inl e ↦
      let k = rw e at h in
      let z : length fs ≡ i = cc in (f, rw⁻¹ z (get_elem?-snoc fs f), (==_iff f.id id).0 e)
  | inr e ↦ let k = rw e at h in HasFile-append fs _ i id (known id i k)
]

-- If the indices that were given so far are right, then after a chunk is added they are, and the index
-- that it gets names a chunk of a file with its hash.
pub add_chunk_dep-AreIndexed :
    (c : Chunk) (p : Packing)
    → AreIndexed p
    → AreIndexed (add_chunk_dep c p).1
      × HasChunk (add_chunk_dep c p).1.chunk_deps (add_chunk_dep c p).0 c.hash
unfolding add_chunk_dep new_chunk_dep
add_chunk_dep-AreIndexed c p known = elim (Option-cases (lookup_hash c.hash p.chunk_deps_map)) [
  | inl n ↦
      rw (add_chunk_dep, n)
        (
          record {
            chunks =
                new_chunk_lookup c p.chunk_deps p.chunk_deps_map (λ hash i h. known.chunks hash h);
            files = known.files;
          },
          (c, get_elem?-snoc p.chunk_deps (file_chunk c), refl),
        )
  | inr (i, s) ↦ rw (add_chunk_dep, s) (known, known.chunks c.hash s)
]

-- If the indices that were given so far are right, then after an input file is added they are, and the
-- index that it gets names a file with its id.
pub add_input_store_file-AreIndexed :
    (f : StoreFile) (p : Packing)
    → AreIndexed p
    → AreIndexed (add_input_store_file f p).1
      × HasFile (add_input_store_file f p).1.input_files (add_input_store_file f p).0 f.id
unfolding add_input_store_file new_input_file
add_input_store_file-AreIndexed f p known = elim (Option-cases (lookup_id f.id p.input_files_map)) [
  | inl n ↦
      rw (add_input_store_file, n)
        (
          record {
            chunks = known.chunks;
            files = new_file_lookup f p.input_files p.input_files_map (λ id i h. known.files id h);
          },
          (f, get_elem?-snoc p.input_files f, refl),
        )
  | inr (i, s) ↦ rw (add_input_store_file, s) (known, known.files f.id s)
]

-- If the indices that were given so far are right, then after a delta is added they are, and the index
-- that it gets names that delta.
pub add_delta_payload-AreIndexed :
    (d : List ℕ) (p : Packing)
    → AreIndexed p
    → AreIndexed (add_delta_payload d p).1
      × (get_elem? (add_delta_payload d p).1.chunk_deps (add_delta_payload d p).0
          ≡ some (delta_bytes d))
unfolding add_delta_payload
add_delta_payload-AreIndexed d p known = (
  record {
    chunks = λ hash {i} h.
        HasChunk-append p.chunk_deps (delta_bytes d ∷ []) i hash (known.chunks hash h);
    files = known.files;
  },
  get_elem?-snoc p.chunk_deps (delta_bytes d),
)
