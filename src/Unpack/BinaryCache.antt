-- ===== src/Unpack/BinaryCache.antt =====
-- The binary cache (internal/cmd/dnar-unpack/binary-cache.go), as the files that are created in it.
-- What is written to a created file arrives.
pub mod Laws
use deltanar.Base.{
  Bool, not, fail_if, ◌>>◌, library, false, ℕ, zero, suc, ◌+◌, ◌/◌, ◌%◌, ◌<◌, ◌≡◌, ap, ◌∙◌, List,
  [], ◌∷◌, ◌++◌, Result, ok, panic, ◌>>=◌, length, ltb, leb, arith, if◌then◌else◌,
}
use deltanar.Base.Text.{Text, bytes, join, filepath_base}
use deltanar.Base.Basename.{IsName, filepath_base_lem}
use deltanar.Base.Slices.{slice}
use deltanar.Base.Host.{Host}
use deltanar.Delta.{DeltaCodec}
use deltanar.ChunkStore.{Os}
use deltanar.Dnar.{Nar}
use deltanar.Dnar.Wire.{Wire}
use deltanar.Unpack.Read.{read_archive}
use deltanar.Unpack.Nar.{write_nar}
use deltanar.Unpack.Nar.Sink.{NarWriter}
use deltanar.Unpack.Nar.Chunks.{Inputs}
use deltanar.Unpack.Nar.Walk.{join_path}

-- The digits of a number, in front of others (`%d`).
unfoldable pub digits : ℕ → ℕ → Text → Text
digits zero n rest = rest
digits (suc fuel) n rest =
    let front = digits fuel (n / 10) ((b'0' + n % 10) ∷ rest) in
    if ltb n 10 then (b'0' + n) ∷ rest else front

-- A uint64 has at most twenty digits.
abbrev pub decimal : ℕ → Text
decimal n = digits 20 n []

abbrev pub line : Text → Text → Text
line key value = key ++ (b':' ∷ b' ' ∷ value ++ (b'\n' ∷ []))

pub record File : Type 0 where
  pub path : Text
  pub content : List ℕ

-- What the file system does: making a directory with its parents, whether nothing stands at a path, and
-- creating a file; the first and the last may fail.
pub record CacheFs : Type 0 where
  pub mkdir_all : Text → Bool
  pub is_missing : Text → Bool
  pub creates : Text → Bool

-- `filepath.Join` of the cache's directory, which is clean or empty, and a name.
abbrev pub join_dir : Text → Text → Text
join_dir [] name = name
join_dir (c ∷ dir) name = join_path (c ∷ dir) name

module _ (fs : CacheFs) (dir : Text) where
  -- `os.Create`, and all that is then written to it.
  abbrev pub create_file : Text → List ℕ → Result File
  create_file path content =
      fail_if (not (fs.creates path)) library >> ok (record { path = path; content = content })

  -- The information file is written where there is none.
  abbrev pub cache_info : Text → Result (List File)
  cache_info store_dir =
      let path = join_dir dir (bytes "nix-cache-info") in
      let created =
        create_file path (line (bytes "StoreDir") store_dir) >>= λ info. ok (info ∷ []) in
      if fs.is_missing path then created else ok []

  -- `Create`
  unfoldable pub create_cache : Text → Result (List File)
  create_cache store_dir = do
    fail_if (not (fs.mkdir_all (join_dir dir (bytes "nar")))) library
    cache_info store_dir

  -- `CreateNAR`: where the NAR stands.
  unfoldable pub create_nar : Text → Result Text
  unfolding filepath_base
  create_nar store_path =
      let path =
        join_path (join_dir dir (bytes "nar")) (filepath_base store_path ++ bytes ".nar") in
      fail_if (not (fs.creates path)) library >> ok path

  -- `WriteNARInfo`
  unfoldable pub write_nar_info : Nar → Result File
  unfolding filepath_base digits join
  write_nar_info nar =
      let base = filepath_base nar.path in
      do
        store_hash ← slice base 0 32
        create_file (join_dir dir (store_hash ++ bytes ".narinfo")) (
            line (bytes "StorePath") nar.path
            ++ (line (bytes "URL") (join_path (bytes "nar") (base ++ bytes ".nar"))
                ++ (line (bytes "Compression") (bytes "none")
                    ++ (line (bytes "NarHash") nar.nar_hash
                        ++ (line (bytes "NarSize") (decimal nar.nar_size)
                            ++ line (bytes "References") (join nar.references (b' ' ∷ [])))))))

  module _ (nw : NarWriter (List ℕ)) (inp : Inputs) where
    -- The loop over the NARs: the files in the order in which they are created. Writing a NAR begins with
    -- the empty file.
    unfoldable pub cache_nars : List Nar → Result (List File)
    unfolding write_nar_info create_nar
    cache_nars [] = ok []
    cache_nars (nar ∷ nars) = do
      path ← create_nar nar.path
      content ← write_nar nw inp nar []
      info ← write_nar_info nar
      rest ← cache_nars nars
      ok (record { path = path; content = content } ∷ info ∷ rest)

-- `binaryCacheMain` behind the opening of its input.
unfoldable pub binary_cache_main :
    {B : Type 0}
    → Wire B
    → Os
    → Host
    → DeltaCodec
    → CacheFs
    → NarWriter (List ℕ)
    → Text
    → Text
    → List B
    → Result (List File)
unfolding cache_nars create_cache
binary_cache_main w os host codec fs nw store_dir dir input = do
  archive ← read_archive w os input
  created ← create_cache fs dir store_dir
  files ←
      cache_nars fs dir nw
        (record { host = host; codec = codec; store = archive.store; files = archive.inputs })
        archive.nars
  ok (created ++ files)
