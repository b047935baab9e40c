-- ===== src/Database/Queries.antt =====
-- The queries of internal/database/query.sql.go. A query for one row gives the error `no_rows` where there
-- is none; faults of the database engine itself are left out.
use deltanar.Base.{
  ℕ, ◌+◌, List, [], ◌∷◌, ◌++◌, Bool, true, false, ◌&&◌, ◌||◌, Option, none, some, Result, ok, err,
  no_rows, library, of_option, ◌==◌, map, leb, if◌then◌else◌,
}
use deltanar.Base.Text.{Text, text_eq}
use deltanar.Database.{StorePath, StoreFile, Chunk, Db, Engine}

-- The rows for which a test holds, in their order (`WHERE`).
unfoldable pub select {ℓ} : {A : Type ℓ} → (A → Bool) → List A → List A
select p [] = []
select p (x ∷ xs) = if p x then x ∷ select p xs else select p xs

-- The first row for which a test holds.
unfoldable pub first {ℓ} : {A : Type ℓ} → (A → Bool) → List A → Option A
first p [] = none
first p (x ∷ xs) = if p x then some x else first p xs

unfoldable pub any_text : Text → List Text → Bool
any_text t [] = false
any_text t (x ∷ xs) = text_eq x t || any_text t xs

-- SQL's `=` on blobs: it does not hold of NULL.
abbrev pub hash_eq : Option (List ℕ) → Option (List ℕ) → Bool
hash_eq none k = false
hash_eq (some a) none = false
hash_eq (some a) (some b) = text_eq a b

-- The path of a store path's row, by the id (the joined table).
unfoldable pub path_of_id : Db → ℕ → Option Text
unfolding first
path_of_id db id = elim (first (λ p. p.id == id) db.paths) [ none ↦ none | some p ↦ some p.path ]

abbrev pub path_in : Option Text → List Text → Bool
path_in none paths = false
path_in (some p) paths = any_text p paths

-- `file.store_path_id` joins a path that is one of these.
unfoldable pub is_local : Db → List Text → StoreFile → Bool
unfolding path_of_id
is_local db local_paths f = path_in (path_of_id db f.store_path_id) local_paths

-- A row goes in if the table has none with its key, and the checks on it hold.
abbrev pub unless_found {ℓ κ} : {A : Type ℓ} {B : Type κ} → Option A → Bool → B → Result B
unless_found (some row) valid created = err library
unless_found none false created = err library
unless_found none true created = ok created

-- `CreateStorePath`; the path is UNIQUE.
unfoldable pub create_store_path : Db → Text → Result (Db × StorePath)
unfolding first
create_store_path db path =
    let row : StorePath = record { id = db.last_path + 1; path = path } in
    unless_found (first (λ p. text_eq p.path path) db.paths) true
      (record db { paths = db.paths ++ (row ∷ []); last_path = db.last_path + 1 }, row)

-- `CreateStoreFileParams`
pub record CreateStoreFileParams : Type 0 where
  pub store_path_id : ℕ
  pub path : Text
  pub size : ℕ
  pub type : ℕ
  pub link_target : Option Text
  pub executable : Bool
  pub hash : Option (List ℕ)

-- `CreateStoreFile`; the pair of store path and path is UNIQUE, and the type is checked.
unfoldable pub create_store_file : Db → CreateStoreFileParams → Result (Db × StoreFile)
unfolding first
create_store_file db arg =
    let row : StoreFile = record {
      id = db.last_file + 1;
      store_path_id = arg.store_path_id;
      path = arg.path;
      size = arg.size;
      type = arg.type;
      link_target = arg.link_target;
      executable = arg.executable;
      hash = arg.hash;
    } in
    let created = record db { files = db.files ++ (row ∷ []); last_file = db.last_file + 1 } in
    unless_found
      (first (λ f. f.store_path_id == arg.store_path_id && text_eq f.path arg.path) db.files)
      (leb arg.type 2) (created, row)

-- `InsertChunkParams`
pub record InsertChunkParams : Type 0 where
  pub file_id : ℕ
  pub hash : List ℕ
  pub size : ℕ
  pub offset : ℕ

-- `InsertChunk`
unfoldable pub insert_chunk : Db → InsertChunkParams → Db
insert_chunk db arg =
    let row : Chunk = record {
      id = db.last_chunk + 1;
      file_id = arg.file_id;
      hash = arg.hash;
      size = arg.size;
      offset = arg.offset;
    } in
    record db { chunks = db.chunks ++ (row ∷ []); last_chunk = db.last_chunk + 1 }

-- `GetStorePath`, `GetStorePathByID` and `GetStoreFileByID`
unfoldable pub get_store_path : Db → Text → Result StorePath
unfolding first
get_store_path db path = of_option no_rows (first (λ p. text_eq p.path path) db.paths)

unfoldable pub get_store_path_by_id : Db → ℕ → Result StorePath
unfolding first
get_store_path_by_id db id = of_option no_rows (first (λ p. p.id == id) db.paths)

unfoldable pub get_store_file_by_id : Db → ℕ → Result StoreFile
unfolding first
get_store_file_by_id db id = of_option no_rows (first (λ f. f.id == id) db.files)

-- `GetStoreFiles`: the rows stand in the order of their ids.
unfoldable pub get_store_files : Db → Text → List StoreFile
unfolding select is_local
get_store_files db path = select (is_local db (path ∷ [])) db.files

-- `GetStoreChunksWithLocalMatchRow`
pub record MatchRow : Type 0 where
  pub size : ℕ
  pub offset : ℕ
  pub hash : List ℕ
  pub local_file_id : ℕ
  pub local_size : ℕ
  pub local_offset : ℕ

-- Whether an id is that of a file on one of these paths (the query's subselect).
unfoldable pub local_file_id : Db → List Text → ℕ → Bool
unfolding first is_local
local_file_id db local_paths id =
    elim (first (λ f. f.id == id && is_local db local_paths f) db.files) [
      | none ↦ false
      | some f ↦ true
    ]

-- The row of a chunk joined to a chunk that the target has, or to none (COALESCE gives zeros).
abbrev pub match_row : Chunk → Option Chunk → MatchRow
match_row nc none = record {
  size = nc.size;
  offset = nc.offset;
  hash = nc.hash;
  local_file_id = 0;
  local_size = 0;
  local_offset = 0;
}
match_row nc (some lc) = record {
  size = nc.size;
  offset = nc.offset;
  hash = nc.hash;
  local_file_id = lc.file_id;
  local_size = lc.size;
  local_offset = lc.offset;
}

-- The chunks that the join finds for a chunk.
unfoldable pub local_matches : Db → List Text → Chunk → List Chunk
unfolding select local_file_id
local_matches db local_paths nc =
    select (λ lc. text_eq lc.hash nc.hash && local_file_id db local_paths lc.file_id) db.chunks

module _ (engine : Engine) where
  -- `GetLocalFileByHash`
  unfoldable pub get_local_file_by_hash : Db → Option (List ℕ) → List Text → Result StoreFile
  unfolding select is_local
  get_local_file_by_hash db hash local_paths =
      of_option no_rows
        (engine.pick_file (select (λ f. hash_eq f.hash hash && is_local db local_paths f) db.files))

  -- `GetStoreChunksWithLocalMatch`: GROUP BY keeps one row for each chunk of the file.
  unfoldable pub get_store_chunks_with_local_match : Db → List Text → ℕ → List MatchRow
  unfolding select local_matches
  get_store_chunks_with_local_match db local_paths file_id =
      map (λ nc. match_row nc (engine.pick_chunk (local_matches db local_paths nc)))
        (select (λ nc. nc.file_id == file_id) db.chunks)
