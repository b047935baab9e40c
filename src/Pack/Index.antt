-- ===== src/Pack/Index.antt =====
-- Putting store paths into the database (internal/cmd/dnar-pack/index.go).
pub mod Laws
pub mod Consistency
use deltanar.Base.{
  ℕ, List, [], ◌∷◌, ◌++◌, Bool, true, false, Option, none, some, Result, ok, err, panic, stuck,
  no_rows, ◌>>=◌, length, if◌then◌else◌,
}
use deltanar.Base.Text.{Text}
use deltanar.Store.{FileChunk}
use deltanar.Store.Tree.{StoreFile, StoreFileType, type_regular, type_directory, type_symlink}
use deltanar.Database.{StorePath, Db}
use deltanar.Database.Queries.{
  CreateStoreFileParams, InsertChunkParams, create_store_path, create_store_file, insert_chunk,
  get_store_path,
}

-- What is kept of a path that `GetStorePath` was asked for: it is new if there is no row of it.
abbrev pub keep_new : Text → Result StorePath → Result (List Text) → Result (List Text)
keep_new path (ok p) rest = rest
keep_new path (err no_rows) rest = rest >>= λ news. ok (path ∷ news)
keep_new path (err e) rest = err e
keep_new path panic rest = panic
keep_new path stuck rest = stuck

-- `newRequisities`
unfoldable pub new_requisites : Db → List Text → Result (List Text)
new_requisites db [] = ok []
new_requisites db (path ∷ paths) = keep_new path (get_store_path db path) (new_requisites db paths)

-- The paths are read in parallel, each into its own place.
unfoldable pub read_paths :
    (Text → Result (List StoreFile)) → List Text → Result (List (List StoreFile))
read_paths read [] = ok []
read_paths read (path ∷ paths) = do
  files ← read path
  rest ← read_paths read paths
  ok (files ∷ rest)

-- `int64(file.Type)`, and the link target, which is NULL but for a symlink.
abbrev pub type_code : StoreFileType → ℕ
type_code type_regular = 0
type_code type_directory = 1
type_code type_symlink = 2

abbrev pub target_of : StoreFileType → Text → Option Text
target_of type_symlink target = some target
target_of type_regular target = none
target_of type_directory target = none

-- The root of a store path is the file "/".
abbrev pub file_path : Text → Text
file_path [] = b'/' ∷ []
file_path (c ∷ path) = c ∷ path

abbrev pub file_params : ℕ → StoreFile → CreateStoreFileParams
file_params store_path_id f = record {
  store_path_id = store_path_id;
  path = file_path f.path;
  size = f.size;
  type = type_code f.type;
  link_target = target_of f.type f.link_target;
  executable = f.executable;
  hash = f.digest;
}

unfoldable pub insert_chunks : ℕ → List FileChunk → Db → Db
insert_chunks file_id [] db = db
insert_chunks file_id (c ∷ cs) db = insert_chunks file_id cs (
    insert_chunk db
      (record { file_id = file_id; hash = c.digest; size = c.len; offset = c.offset }))

unfoldable pub insert_files : ℕ → List StoreFile → Db → Result Db
unfolding insert_chunks
insert_files store_path_id [] db = ok db
insert_files store_path_id (f ∷ fs) db = do
  (db₁, row) ← create_store_file db (file_params store_path_id f)
  insert_files store_path_id fs (insert_chunks row.id f.chunks db₁)

-- The loop over the new paths, with their files.
unfoldable pub insert_paths : List Text → List (List StoreFile) → Db → Result Db
unfolding insert_files
insert_paths [] files db = ok db
insert_paths (path ∷ paths) [] db = panic
insert_paths (path ∷ paths) (fs ∷ files) db = do
  (db₁, entry) ← create_store_path db path
  db₂ ← insert_files entry.id fs db₁
  insert_paths paths files db₂

-- `indexPaths`, with the outcome of its call of nix-store. It is one transaction, which a failure leaves
-- uncommitted: the database then is what it was.
unfoldable pub index_paths : (Text → Result (List StoreFile)) → Result (List Text) → Db → Result Db
unfolding new_requisites read_paths insert_paths
index_paths read requisites db = do
  paths ← requisites
  news ← new_requisites db paths
  files ← read_paths read news
  insert_paths news files db
