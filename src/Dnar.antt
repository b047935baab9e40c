-- ===== src/Dnar.antt =====
-- The messages of the DeltaNAR format (internal/dnar/dnar.proto and dnar.pb.go).
pub mod Wire
use deltanar.Base.{ℕ, Bool, List}
use deltanar.Base.Int.{ℤ}
use deltanar.Base.Text.{Text}

-- Sent before a stream of other messages.
pub record StreamHeader : Type 0 where
  pub length : ℕ

-- A file of the target that is used to write another one: `store_path` is an index into the paths.
pub record FileDescriptor : Type 0 where
  pub store_path : ℕ
  pub path : Text

-- `CAChunk`: the bytes of a chunk, or a delta.
pub record CaChunk : Type 0 where
  pub payload : List ℕ

-- `NarFile_ChunkDescriptor_FDChunk`
pub record FdChunk : Type 0 where
  pub index : ℕ
  pub size : ℕ
  pub offset : ℕ
  pub digest : List ℕ

-- `NarFile_ChunkDescriptor_DeltaChunk`
pub record DeltaChunk : Type 0 where
  pub index : ℕ
  pub size : ℕ
  pub offset : ℕ
  pub digest : List ℕ
  pub delta_index : ℕ
  pub result_size : ℕ

-- `NarFile_ChunkDescriptor`: one kind of chunk, or none of them set. A `ca` chunk is its index.
pub data ChunkDescriptor : Type 0 where
  ca : ℕ → ChunkDescriptor
  fd : FdChunk → ChunkDescriptor
  delta : DeltaChunk → ChunkDescriptor
  no_chunk : ChunkDescriptor

-- `NarFile_RegularFile`
pub record RegularFile : Type 0 where
  pub size : ℕ
  pub chunks : List ChunkDescriptor
  pub executable : Bool

-- The `file_type` of a `NarFile`: a directory is its `from`, and a symlink its target.
pub data FileType : Type 0 where
  regular : RegularFile → FileType
  directory : ℤ → FileType
  symlink : Text → FileType
  no_type : FileType

pub record NarFile : Type 0 where
  pub path : Text
  pub file_type : FileType

pub record Nar : Type 0 where
  pub path : Text
  pub files : List NarFile
  pub nar_hash : Text
  pub nar_size : ℕ
  pub references : List Text

-- `PathTrailer`
pub record PathTrailer : Type 0 where
  pub paths : List Text
  pub files : List FileDescriptor
