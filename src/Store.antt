-- ===== src/Store.antt =====
-- Chunking and hashing of store paths (internal/store/chunk.go).
pub mod Chunking
pub mod Tiling
pub mod Tree
pub mod Digests
use deltanar.Base.{ℕ, List, ◌++◌, Option, ◌≡◌}

-- The chunk and file types of the package: `FileChunk`, `ChunkedFile`, `StoreFile`.
pub record FileChunk : Type 0 where
  pub offset : ℕ
  pub len : ℕ
  pub digest : List ℕ

pub record ChunkedFile : Type 0 where
  pub chunks : List FileChunk
  pub digest : List ℕ

-- blake3, and the content defined chunker: the chunks that its `Next` gives before `io.EOF`. They are
-- the beginning of what it reads, in order; the library may leave the final bytes to the caller.
pub record Hashing : Type 0 where
  pub blake3 : List ℕ → List ℕ
  pub cut : List ℕ → List (List ℕ)
