-- ===== src/Store/Tree.antt =====
-- `ReadStorePath` (internal/store/chunk.go).
use deltanar.Base.{
  ℕ, List, [], ◌∷◌, ◌++◌, Bool, Option, none, some, Result, ok, err, library, unknown_file_type,
  ◌>>=◌, of_option, length,
}
use deltanar.Base.Text.{Text, trim_prefix}
use deltanar.Base.Host.{Host, Node, file, dir, link, special, Entries, no_entries, entry}
use deltanar.Store.{FileChunk, ChunkedFile, Hashing}
use deltanar.Store.Chunking.{chunk_file}
use deltanar.Unpack.Nar.Walk.{join_path}

-- `StoreFileType`, in the order of its constants.
pub data StoreFileType : Type 0 where
  type_regular type_directory type_symlink : StoreFileType

-- `StoreFile`; the digest of a symlink is nil.
pub record StoreFile : Type 0 where
  pub path : Text
  pub type : StoreFileType
  pub size : ℕ
  pub link_target : Text
  pub executable : Bool
  pub chunks : List FileChunk
  pub digest : Option (List ℕ)

-- What `Lstat` says of directories and symlinks beyond what they hold.
pub record Attributes : Type 0 where
  pub size : Text → ℕ
  pub executable : Text → Bool

abbrev pub digest_bytes : Option (List ℕ) → List ℕ
digest_bytes none = []
digest_bytes (some d) = d

-- What the digest of a directory is made of: its files' paths and digests.
abbrev pub digest_input : List StoreFile → List ℕ
digest_input [] = []
digest_input (f ∷ fs) = (f.path ++ digest_bytes f.digest) ++ digest_input fs

module _ (h : Hashing) (host : Host) (attrs : Attributes) (store_path : Text) where
  abbrev pub regular_row : Text → Bool → ChunkedFile → List ℕ → StoreFile
  regular_row path executable chunked content = record {
    path = trim_prefix path store_path;
    type = type_regular;
    size = length content;
    link_target = [];
    executable = executable;
    chunks = chunked.chunks;
    digest = some chunked.digest;
  }

  abbrev pub dir_row : Text → List StoreFile → StoreFile
  dir_row path files = record {
    path = trim_prefix path store_path;
    type = type_directory;
    size = attrs.size path;
    link_target = [];
    executable = attrs.executable path;
    chunks = [];
    digest = some (h.blake3 (digest_input files));
  }

  abbrev pub link_row : Text → Text → StoreFile
  link_row path target = record {
    path = trim_prefix path store_path;
    type = type_symlink;
    size = attrs.size path;
    link_target = target;
    executable = attrs.executable path;
    chunks = [];
    digest = none;
  }

  -- `readPath`: a directory stands before all that is below it.
  unfoldable mutual
    pub read_node : Text → Node → Result (List StoreFile)
    read_node path (file content executable) = do
      chunked ← chunk_file h host path
      ok (regular_row path executable chunked content ∷ [])
    read_node path (dir es) = do files ← read_entries path es; ok (dir_row path files ∷ files)
    read_node path (link target) = ok (link_row path target ∷ [])
    read_node path special = err unknown_file_type

    pub read_entries : Text → Entries → Result (List StoreFile)
    read_entries path no_entries = ok []
    read_entries path (entry name node es) = do
      files ← read_node (join_path path name) node
      rest ← read_entries path es
      ok (files ++ rest)

  -- `ReadStorePath`
  unfoldable pub read_store_path : Result (List StoreFile)
  unfolding read_node
  read_store_path = do root ← of_option library (host.lstat store_path); read_node store_path root
