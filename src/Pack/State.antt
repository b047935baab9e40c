-- ===== src/Pack/State.antt =====
-- What `writeDNAR` collects for the header and the chunk stream (internal/cmd/dnar-pack/dnar.go), and
-- the cache of the reference file (internal/cmd/dnar-pack/delta.go).
use deltanar.Base.{
  ℕ, suc, List, [], ◌∷◌, ◌++◌, Bool, false, Option, none, some, Result, ok, ◌>>=◌, ◌==◌, length,
  if◌then◌else◌,
}
use deltanar.Base.Int.{ℤ, pos, negsuc}
use deltanar.Base.Text.{Text, text_eq}
use deltanar.Base.Host.{Host, mmap_open}
use deltanar.Delta.Index.{Index, new_index}
use deltanar.Database.{StoreFile, Chunk}
use deltanar.Pack.LocalIndex.{LocalIndex, lookup_id}

-- `refIndexCache`: the index over the reference file that is mapped, if one is. The id is -1 if none is.
pub record RefCache : Type 0 where
  pub file_id : ℤ
  pub index : Option Index

-- `newRefIndexCache` and `close`
abbrev pub no_ref : RefCache
no_ref = record { file_id = negsuc 0; index = none }

abbrev pub is_id : ℤ → ℕ → Bool
is_id (pos n) id = n == id
is_id (negsuc n) id = false

-- The part of `get` behind the test of the cache. The old index is dropped once the new file is open.
unfoldable pub load_ref : Host → Text → ℕ → RefCache → Result (Index × RefCache)
load_ref host path id c = do
  content ← mmap_open host path
  index ← new_index content
  ok (index, record { file_id = pos id; index = some index })

-- `get`
unfoldable pub get_ref : Host → Text → ℕ → RefCache → Result (Index × RefCache)
unfolding load_ref
get_ref host path id c = elim c.index [
  | none ↦ load_ref host path id c
  | some index ↦ if is_id c.file_id id then ok (index, c) else load_ref host path id c
]

-- `bulkPayload`: a chunk of a file, or the bytes of a delta.
pub data BulkPayload : Type 0 where
  file_chunk : Chunk → BulkPayload
  delta_bytes : List ℕ → BulkPayload

pub record Packing : Type 0 where
  pub li : LocalIndex
  pub input_paths : List ℕ
  pub input_files : List StoreFile
  pub input_files_map : List (ℕ × ℕ)
  pub chunk_deps : List BulkPayload
  pub chunk_deps_map : List (Text × ℕ)
  pub ref_cache : RefCache

abbrev pub new_packing : LocalIndex → Packing
new_packing li = record {
  li = li;
  input_paths = [];
  input_files = [];
  input_files_map = [];
  chunk_deps = [];
  chunk_deps_map = [];
  ref_cache = no_ref;
}

-- `slices.Index`
unfoldable pub index_of : ℕ → List ℕ → Option ℕ
index_of id [] = none
index_of id (x ∷ xs) =
    if x == id then some 0 else elim (index_of id xs) [ none ↦ none | some i ↦ some (suc i) ]

-- `addInputStorePathID`, without the index, which no caller uses.
unfoldable pub add_input_store_path_id : ℕ → List ℕ → List ℕ
unfolding index_of
add_input_store_path_id id ids = elim (index_of id ids) [ some i ↦ ids | none ↦ ids ++ (id ∷ []) ]

-- A file that was not added before.
unfoldable pub new_input_file : StoreFile → Packing → ℕ × Packing
unfolding add_input_store_path_id
new_input_file f p = (
  length p.input_files,
  record p {
    input_paths = add_input_store_path_id f.store_path_id p.input_paths;
    input_files = p.input_files ++ (f ∷ []);
    input_files_map = (f.id, length p.input_files) ∷ p.input_files_map;
  },
)

-- `addInputStoreFile`
unfoldable pub add_input_store_file : StoreFile → Packing → ℕ × Packing
unfolding new_input_file lookup_id
add_input_store_file f p = elim (lookup_id f.id p.input_files_map) [
  | some i ↦ (i, p)
  | none ↦ new_input_file f p
]

unfoldable pub lookup_hash : Text → List (Text × ℕ) → Option ℕ
lookup_hash k [] = none
lookup_hash k ((j, v) ∷ m) = if text_eq j k then some v else lookup_hash k m

-- A chunk that was not added before.
unfoldable pub new_chunk_dep : Chunk → Packing → ℕ × Packing
new_chunk_dep c p = (
  length p.chunk_deps,
  record p {
    chunk_deps = p.chunk_deps ++ (file_chunk c ∷ []);
    chunk_deps_map = (c.hash, length p.chunk_deps) ∷ p.chunk_deps_map;
  },
)

-- `addChunkDep`
unfoldable pub add_chunk_dep : Chunk → Packing → ℕ × Packing
unfolding new_chunk_dep lookup_hash
add_chunk_dep c p = elim (lookup_hash c.hash p.chunk_deps_map) [
  | some i ↦ (i, p)
  | none ↦ new_chunk_dep c p
]

-- `addDeltaPayload`
unfoldable pub add_delta_payload : List ℕ → Packing → ℕ × Packing
add_delta_payload bytes p =
    (length p.chunk_deps, record p { chunk_deps = p.chunk_deps ++ (delta_bytes bytes ∷ []) })
