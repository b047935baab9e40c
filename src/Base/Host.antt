-- ===== src/Base/Host.antt =====
-- A host's file system, as far as the program reads it.
use Prim.Native.Nat.{ℕ}
use mathlib.Core.Bool.{Bool}
use mathlib.Core.Option.{Option}
use mathlib.Core.List.{List, [], ◌∷◌}
use deltanar.Base.Tests.{if◌then◌else◌}
use deltanar.Base.Text.{Text}
use deltanar.Base.Results.{Result, ok, err, ◌>>=◌, of_option, library}

-- A file as `os.Lstat` sees it. A directory's entries stand in the order of their names, as
-- `os.ReadDir` gives them.
mutual
  pub data Node : Type 0 where
    file : List ℕ → Bool → Node
    dir : Entries → Node
    link : Text → Node
    special : Node

  pub data Entries : Type 0 where
    no_entries : Entries
    entry : Text → Node → Entries → Entries

-- What opening a path and reading gives, what stands at a path, and whether a mapping succeeds.
pub record Host : Type 0 where
  pub open_file : Text → Option (List ℕ)
  pub lstat : Text → Option Node
  pub mappable : Text → Bool

abbrev pub mapped : Host → Text → List ℕ → Result (List ℕ)
mapped host path [] = ok []
mapped host path (b ∷ bytes) = if host.mappable path then ok (b ∷ bytes) else err library

-- `mmapfile.Open` (internal/mmapfile/mmapfile.go): the bytes of a file; an empty one is not mapped.
unfoldable pub mmap_open : Host → Text → Result (List ℕ)
mmap_open host path = do bytes ← of_option library (host.open_file path); mapped host path bytes

-- The function that `mmapfile.Open` gives to close the mapping: an empty file was not mapped.
unfoldable pub mmap_close : (List ℕ → Bool) → List ℕ → Result (Unit {0})
mmap_close munmap [] = ok tt
mmap_close munmap (b ∷ bytes) = if munmap (b ∷ bytes) then ok tt else err library
