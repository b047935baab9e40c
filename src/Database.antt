-- ===== src/Database.antt =====
-- The index database (internal/database: models.go, query.sql.go and the schema), as tables in the order
-- of their ids.
pub mod Queries
pub mod Matching
pub mod Rows
pub mod Consistency
use deltanar.Base.{ℕ, Bool, List, [], ◌∷◌, Option, ◌≡◌, ◌≢◌, none, some, get_elem?}
use deltanar.Base.Text.{Text}

-- `Storepath`
pub record StorePath : Type 0 where
  pub id : ℕ
  pub path : Text

-- `Storefile`. The type is that of the schema: 0 regular, 1 directory, 2 symlink. A nil hash is NULL.
pub record StoreFile : Type 0 where
  pub id : ℕ
  pub store_path_id : ℕ
  pub path : Text
  pub size : ℕ
  pub type : ℕ
  pub link_target : Option Text
  pub executable : Bool
  pub hash : Option (List ℕ)

pub record Chunk : Type 0 where
  pub id : ℕ
  pub file_id : ℕ
  pub hash : List ℕ
  pub size : ℕ
  pub offset : ℕ

-- The three tables, and the last id that each gave.
pub record Db : Type 0 where
  pub paths : List StorePath
  pub files : List StoreFile
  pub chunks : List Chunk
  pub last_path : ℕ
  pub last_file : ℕ
  pub last_chunk : ℕ

-- What SQL leaves to the engine: which of several rows it takes, where a query asks for one of them. It
-- takes one if there is one.
pub record Engine : Type 0 where
  pub pick_file : List StoreFile → Option StoreFile
  pub pick_chunk : List Chunk → Option Chunk

pub record IsEngine (engine : Engine) : Type 0 where
  pub picks_file :
      (rows : List StoreFile) {row : StoreFile}
      → engine.pick_file rows ≡ some row
      → (i : ℕ) × (get_elem? rows i ≡ some row)
  pub finds_file : (row : StoreFile) (rows : List StoreFile) → engine.pick_file (row ∷ rows) ≢ none
  pub picks_chunk :
      (rows : List Chunk) {row : Chunk}
      → engine.pick_chunk rows ≡ some row
      → (i : ℕ) × (get_elem? rows i ≡ some row)
  pub finds_chunk : (row : Chunk) (rows : List Chunk) → engine.pick_chunk (row ∷ rows) ≢ none
