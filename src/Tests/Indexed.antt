-- ===== src/Tests/Indexed.antt =====
-- The small database is what indexing its two store paths makes of an empty one.
use deltanar.Base.{
  ℕ, ◌≡◌, refl, List, [], ◌∷◌, false, Option, none, some, Result, ok, if◌then◌else◌,
}
use deltanar.Base.Text.{Text, bytes, text_eq}
use deltanar.Store.{FileChunk}
use deltanar.Store.Tree.{StoreFile, StoreFileType, type_regular, type_directory, type_symlink}
use deltanar.Database.{Db}
use deltanar.Database.Queries.{
  first, create_store_path, create_store_file, insert_chunk, get_store_path,
}
use deltanar.Database.Consistency.{IsConsistent}
use deltanar.Pack.Index.{
  new_requisites, read_paths, insert_chunks, insert_files, insert_paths, index_paths,
}
use deltanar.Pack.Index.Consistency.{index_paths-IsConsistent}
use deltanar.Tests.Disk.{db}

abbrev store_file : Text → StoreFileType → ℕ → Text → List FileChunk → Option (List ℕ) → StoreFile
store_file path type size link_target chunks digest = record {
  path = path;
  type = type;
  size = size;
  link_target = link_target;
  executable = false;
  chunks = chunks;
  digest = digest;
}

abbrev two_bytes : Text → ℕ → FileChunk
two_bytes digest offset = record { offset = offset; len = 2; digest = digest }

abbrev hi : StoreFile
hi = store_file (bytes "/f") type_regular 2 [] (two_bytes (bytes "hi") 0 ∷ []) (some (bytes "hi"))

unfoldable read : Text → Result (List StoreFile)
unfolding text_eq
read path =
    if text_eq path (bytes "/s/old")
    then ok (hi ∷ [])
    else ok (
        store_file [] type_directory 0 [] [] (some (bytes "d"))
        ∷ hi
        ∷ store_file (bytes "/g") type_regular 4 []
            (two_bytes (bytes "yo") 0 ∷ two_bytes (bytes "hi") 2 ∷ []) (some (bytes "yohi"))
        ∷ store_file (bytes "/l") type_symlink 0 (bytes "f") [] none
        ∷ [])

abbrev requisites : Result (List Text)
requisites = ok (bytes "/s/old" ∷ bytes "/s/new" ∷ [])

abbrev empty_db : Db
empty_db = record {
  paths = [];
  files = [];
  chunks = [];
  last_path = 0;
  last_file = 0;
  last_chunk = 0;
}

empty_db-IsConsistent : IsConsistent empty_db
empty_db-IsConsistent = record {
  path_ids = record { bounded = tt; found = tt };
  file_ids = record { bounded = tt; found = tt };
  chunk_ids = record { bounded = tt; found = tt };
  path_names = tt;
  file_names = tt;
  file_types = tt;
  paths_of = tt;
  files_of = tt;
}

indexes : index_paths read requisites empty_db ≡ ok db
unfolding index_paths new_requisites get_store_path first text_eq read_paths read insert_paths
    create_store_path insert_files create_store_file insert_chunks insert_chunk
indexes = refl

pub is_consistent : IsConsistent db
is_consistent = index_paths-IsConsistent read requisites empty_db db empty_db-IsConsistent indexes

index_paths-IsConsistent_example : IsConsistent db
index_paths-IsConsistent_example =
    index_paths-IsConsistent read requisites empty_db db empty_db-IsConsistent indexes
