-- ===== src/ChunkStore.antt =====
-- The temporary chunk store (internal/chunk_store/store.go).
pub mod Laws
use deltanar.Base.{
  not, ℕ, ◌+◌, ◌-◌, ◌≤◌, ◌≡◌, Bool, true, false, Option, none, some, List, [], ◌∷◌, ◌++◌, Result,
  ok, err, panic, library, index_out_of_bounds, ◌>>=◌, ◌>>◌, fail_if, of_option, or_panic, ltb, leb,
  ◌==◌, length, get_elem?, take, if◌then◌else◌,
}
use deltanar.Base.Int.{ℤ, pos, negsuc, ltb_ℤ}
use deltanar.Base.Slices.{slice, index_int}

-- `chunkStoreEntry`
pub record Entry : Type 0 where
  pub size : ℕ
  pub offset : ℕ

-- `TempChunkStore`: what the file holds, the mapped bytes (nil before `Map`), and the entries.
pub record TempChunkStore : Type 0 where
  pub file : List ℕ
  pub buf : Option (List ℕ)
  pub size : ℕ
  pub chunks : List Entry

-- The operating system's part. A write gives the file's new contents, and whether it succeeded; a
-- mapping of a file's first bytes may fail, and so may an unmapping and a close.
pub record Os : Type 0 where
  pub write : List ℕ → List ℕ → List ℕ × Bool
  pub mmap : List ℕ → ℕ → Option (List ℕ)
  pub munmap : List ℕ → Bool
  pub close : Bool

-- A write that succeeds appends, a mapping shows the file's bytes, and there is no mapping of no bytes to
-- undo (`syscall.Munmap` gives EINVAL for an empty slice).
pub record IsLawful (os : Os) : Type 0 where
  pub write_appends :
      (file bytes : List ℕ)
      → (os.write file bytes).1 ≡ true
      → (os.write file bytes).0 ≡ file ++ bytes
  pub mmap_shows :
      (file : List ℕ) (n : ℕ) {buf : List ℕ} → os.mmap file n ≡ some buf → buf ≡ take n file
  pub munmap_empty : os.munmap [] ≡ false

-- `OpenTempChunkStore`, once the temporary file is created.
unfoldable pub open_temp_chunk_store : TempChunkStore
open_temp_chunk_store = record { file = []; buf = none; size = 0; chunks = [] }

abbrev pub unless_failed : Bool → Result (Unit {0})
unless_failed true = ok tt
unless_failed false = err library

module _ (os : Os) where
  -- The store changes also where the write fails.
  unfoldable pub write_chunk : TempChunkStore → List ℕ → TempChunkStore × Result (Unit {0})
  write_chunk c bytes =
      let entry : Entry = record { size = length bytes; offset = c.size } in
      let (file', done) = os.write c.file bytes in
      (
        record c { size = c.size + entry.size; chunks = c.chunks ++ (entry ∷ []); file = file' },
        unless_failed done,
      )

  -- `Map`
  unfoldable pub map_chunks : TempChunkStore → TempChunkStore × Result (Unit {0})
  map_chunks c =
      if c.size == 0 then (record c { buf = some [] }, ok tt) else elim (os.mmap c.file c.size) [
        | some b ↦ (record c { buf = some b }, ok tt)
        | none ↦ (record c { buf = none }, err library)
      ]

  -- `Close`
  unfoldable pub close_chunks : TempChunkStore → Result (Unit {0})
  close_chunks c = do
    elim c.buf [ none ↦ ok tt | some b ↦ unless_failed (os.munmap b) ]
    unless_failed os.close

-- The bytes of a slice that may be nil.
abbrev pub or_nil : Option (List ℕ) → List ℕ
or_nil none = []
or_nil (some b) = b

unfoldable pub read_chunk : TempChunkStore → ℤ → Result (List ℕ)
read_chunk c i = do
  fail_if (not (ltb_ℤ i (pos (length c.chunks)))) index_out_of_bounds
  entry ← index_int c.chunks i
  slice (or_nil c.buf) entry.offset (entry.offset + entry.size)
