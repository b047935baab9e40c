-- ===== src/Tests/Indexing.antt =====
-- Indexing, matching, skipping and references on the small database.
use deltanar.Base.{
  ℕ, ◌≡◌, refl, List, [], ◌∷◌, true, false, not, ◌&&◌, ◌==◌, none, some, Result, ok, map, get_elem?,
  All,
}
use deltanar.Base.Text.{Text, bytes, text_eq}
use deltanar.Base.Basename.{IsName}
use deltanar.Database.{StoreFile, Chunk, Db}
use deltanar.Database.Queries.{
  select, first, any_text, path_of_id, is_local, local_file_id, local_matches, MatchRow,
  get_store_path, get_local_file_by_hash, get_store_chunks_with_local_match, create_store_path,
  create_store_file, insert_chunk,
}
use deltanar.Database.Matching.{IsMatchOf, get_store_chunks_with_local_match_lem}
use deltanar.Dnar.{directory}
use deltanar.Base.Int.{pos}
use deltanar.Pack.LocalIndex.{new_local_index, file_by_hash, lookup_id}
use deltanar.Pack.State.{
  Packing, index_of, add_input_store_path_id, new_input_file, add_input_store_file,
}
use deltanar.Pack.Files.{pack_type, pack_files, pack_directory}
use deltanar.Pack.PathInfo.{
  PathInfo, PathInfos, lookup_info, Json, nix_object, parse_format, parse_path_infos,
}
use deltanar.Pack.Index.{
  new_requisites, read_paths, insert_paths, insert_files, insert_chunks, index_paths,
}
use deltanar.Pack.Index.Laws.{IsIndexed, index_paths-IsIndexed, index_paths-again}
use deltanar.Pack.Closure.{any_text-new_store_paths}
use deltanar.Pack.Main.{new_store_paths}
use deltanar.Pack.References.{in_store, parse_path_infos-export_ref}
use deltanar.Pack.Skipping.{pack_files_drops}
use deltanar.Unpack.ExportMain.{export_ref}
use deltanar.Tests.Pack.{file_row, db, src, local, start, of_ok}
use deltanar.Tests.Samples.{engine, engine-IsEngine}
use deltanar.Store.Tree

-- Indexing.
abbrev store_file : deltanar.Store.Tree.StoreFile
store_file = record {
  path = [];
  type = deltanar.Store.Tree.type_regular;
  size = 2;
  link_target = [];
  executable = false;
  chunks = record { offset = 0; len = 2; digest = 9 ∷ [] } ∷ [];
  digest = some (9 ∷ []);
}

abbrev read : Text → Result (List deltanar.Store.Tree.StoreFile)
read path = ok (store_file ∷ [])

abbrev requisites : Result (List Text)
requisites = ok (bytes "/s/new" ∷ bytes "/s/more" ∷ [])

abbrev indexed : Db
unfolding index_paths
indexed = of_ok db (index_paths read requisites db)

indexes : index_paths read requisites db ≡ ok indexed
unfolding indexed index_paths new_requisites get_store_path first text_eq read_paths insert_paths
    create_store_path insert_files create_store_file insert_chunks insert_chunk
indexes = refl

index_paths-IsIndexed_example :
    (paths : List Text) × (requisites ≡ ok paths)
    × All (IsIndexed indexed) paths
    × ((q : Text) → IsIndexed db q → IsIndexed indexed q)
index_paths-IsIndexed_example = index_paths-IsIndexed read requisites db indexed indexes

index_paths-again_example : index_paths read requisites indexed ≡ ok indexed
index_paths-again_example = index_paths-again read requisites db indexed indexes read

any_text-new_store_paths_example :
    any_text
      (bytes "/s/new")
      (new_store_paths (bytes "/s/old" ∷ []) (bytes "/s/new" ∷ bytes "/s/old" ∷ []))
    ≡ (any_text (bytes "/s/new") (bytes "/s/new" ∷ bytes "/s/old" ∷ [])
        && not (any_text (bytes "/s/new") (bytes "/s/old" ∷ [])))
any_text-new_store_paths_example =
    any_text-new_store_paths (bytes "/s/old" ∷ []) (bytes "/s/new" ∷ bytes "/s/old" ∷ [])
      (bytes "/s/new")

-- The chunk of "/f" of the new path is one of the old path's.
abbrev row : MatchRow
row = record {
  size = 2;
  offset = 0;
  hash = 7 ∷ [];
  local_file_id = 1;
  local_size = 2;
  local_offset = 0;
}

row-found : get_elem? (get_store_chunks_with_local_match engine db local 2) 0 ≡ some row
unfolding get_store_chunks_with_local_match select local_matches text_eq local_file_id first
    is_local path_of_id any_text
row-found = refl

get_store_chunks_with_local_match_example :
    (nc : Chunk) × (j : ℕ) × (get_elem? db.chunks j ≡ some nc)
    × ((nc.file_id == 2) ≡ true)
    × ((row.hash ≡ nc.hash) × (row.size ≡ nc.size) × (row.offset ≡ nc.offset))
    × IsMatchOf db local row
get_store_chunks_with_local_match_example =
    get_store_chunks_with_local_match_lem engine engine-IsEngine db local 2 0 row row-found

-- A directory taken whole, and a sibling behind it whose name is longer.
abbrev lib : StoreFile
lib = file_row 2 2 (bytes "/lib") 1 (7 ∷ [])

abbrev lib_extra : StoreFile
lib_extra = file_row 3 2 (bytes "/lib-extra") 0 (8 ∷ [])

abbrev lib_packing : Packing
unfolding add_input_store_file new_input_file start new_local_index
lib_packing = (add_input_store_file (file_row 1 1 (bytes "/f") 0 (7 ∷ [])) start).1

lib_matched :
    pack_type src (bytes "/s/new") lib [] start ≡ ok (directory (pos 0), bytes "/lib", lib_packing)
unfolding lib_packing start new_local_index pack_type file_by_hash get_local_file_by_hash select
    text_eq is_local path_of_id first any_text pack_directory add_input_store_file lookup_id
    new_input_file add_input_store_path_id index_of
lib_matched = refl

pack_files_drops_example :
    pack_files src (bytes "/s/new") [] (lib ∷ lib_extra ∷ []) start
    ≡ pack_files src (bytes "/s/new") [] (lib ∷ []) start
pack_files_drops_example =
    pack_files_drops src (bytes "/s/new") lib lib_extra [] start lib_packing (directory (pos 0))
      b'/' (bytes "lib") (bytes "-extra") lib_matched refl

-- References.
abbrev info : PathInfo
info = record {
  path = bytes "/s/a";
  nar_hash = [];
  nar_size = 1;
  references = in_store (bytes "/s") (bytes "r" ∷ []);
}

abbrev json : Json
json = record {
  array = λ out. none;
  document = λ out. none;
  object = λ out. some ((bytes "/s/a", info) ∷ []);
}

r-IsName : IsName (bytes "r")
r-IsName = record { plain = (refl, tt); not_empty = λ e. cc }

parses : parse_format json [] nix_object ≡ ok ((bytes "/s/a", info) ∷ [])
unfolding parse_format
parses = refl

looks_up : lookup_info (bytes "/s/a") ((bytes "/s/a", info) ∷ []) ≡ some info
unfolding lookup_info text_eq
looks_up = refl

parse_path_infos-export_ref_example :
    (parsed : PathInfos) × (i' : PathInfo) × (parse_path_infos json [] nix_object ≡ ok parsed)
    × (lookup_info (bytes "/s/a") parsed ≡ some i')
    × (map (export_ref (bytes "/s")) i'.references ≡ info.references)
parse_path_infos-export_ref_example =
    parse_path_infos-export_ref json [] nix_object ((bytes "/s/a", info) ∷ []) (bytes "/s")
      (bytes "/s/a") (bytes "r" ∷ []) info parses looks_up refl (r-IsName, tt)
