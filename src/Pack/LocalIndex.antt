-- ===== src/Pack/LocalIndex.antt =====
-- Whether the deployment target has some content (internal/cmd/dnar-pack/localindex.go).
use deltanar.Base.{
  ℕ, List, [], ◌∷◌, Bool, not, Option, none, some, Result, ok, err, panic, stuck, no_rows, ◌>>=◌,
  ◌==◌, map, if◌then◌else◌,
}
use deltanar.Base.Text.{Text}
use deltanar.Database.{StoreFile, Db, Engine}
use deltanar.Database.Queries.{
  MatchRow, get_store_chunks_with_local_match, get_local_file_by_hash, get_store_file_by_id,
}

-- `localIndex`, with the database that its queries go to.
pub record LocalIndex : Type 0 where
  pub db : Db
  pub local_paths : List Text
  pub file_cache : List (ℕ × StoreFile)

pub record MatchedChunk : Type 0 where
  pub size : ℕ
  pub offset : ℕ
  pub hash : List ℕ
  pub matched : Bool
  pub local_file_id : ℕ
  pub local_size : ℕ
  pub local_offset : ℕ

-- `newLocalIndex`
unfoldable pub new_local_index : Db → List Text → LocalIndex
new_local_index db local_paths = record { db = db; local_paths = local_paths; file_cache = [] }

abbrev pub matched_chunk : MatchRow → MatchedChunk
matched_chunk row = record {
  size = row.size;
  offset = row.offset;
  hash = row.hash;
  matched = not (row.local_file_id == 0);
  local_file_id = row.local_file_id;
  local_size = row.local_size;
  local_offset = row.local_offset;
}

-- `errors.Is(err, sql.ErrNoRows)` is no error here.
abbrev pub found : Result StoreFile → Result (Option StoreFile)
found (ok f) = ok (some f)
found (err no_rows) = ok none
found (err e) = err e
found panic = panic
found stuck = stuck

unfoldable pub lookup_id {ℓ} : {A : Type ℓ} → ℕ → List (ℕ × A) → Option A
lookup_id k [] = none
lookup_id k ((j, v) ∷ m) = if j == k then some v else lookup_id k m

module _ (engine : Engine) where
  -- `fileChunks`
  unfoldable pub file_chunks : LocalIndex → ℕ → List MatchedChunk
  file_chunks li file_id =
      map matched_chunk (get_store_chunks_with_local_match engine li.db li.local_paths file_id)

  -- `fileByHash`
  unfoldable pub file_by_hash : LocalIndex → Option (List ℕ) → Result (Option StoreFile)
  file_by_hash li hash = found (get_local_file_by_hash engine li.db hash li.local_paths)

-- The part of `storeFileByID` behind the lookup in the cache.
unfoldable pub cached_file : LocalIndex → ℕ → Option StoreFile → Result (StoreFile × LocalIndex)
cached_file li id (some f) = ok (f, li)
cached_file li id none = do
  f ← get_store_file_by_id li.db id
  ok (f, record li { file_cache = (id, f) ∷ li.file_cache })

-- `storeFileByID`
unfoldable pub store_file_by_id : LocalIndex → ℕ → Result (StoreFile × LocalIndex)
unfolding cached_file lookup_id
store_file_by_id li id = cached_file li id (lookup_id id li.file_cache)
