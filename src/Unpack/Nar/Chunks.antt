-- ===== src/Unpack/Nar/Chunks.antt =====
-- The chunks of a regular file (internal/cmd/dnar-unpack/write.go, the loop over `regularMeta.Chunks`).
use deltanar.Base.{
  ℕ, ◌+◌, ◌^◌, List, [], ◌∷◌, Option, none, some, Result, ok, err, panic, ◌>>=◌, ◌>>◌, fail_if,
  of_option, or_panic, ◌||◌, library, delta_base_out_of_bounds, ltb, leb, if◌then◌else◌, length,
  get_elem?, take, drop,
}
use deltanar.Base.Int.{ℤ, pos, negsuc, int_of_u64, add_u64}
use deltanar.Base.Slices.{slice}
use deltanar.Base.Text.{Text, text_eq}
use deltanar.Base.Host.{Host, mmap_open}
use deltanar.Delta.{DeltaCodec}
use deltanar.Delta.Patch.{patch}
use deltanar.ChunkStore.{TempChunkStore, read_chunk}
use deltanar.Dnar.{ChunkDescriptor, ca, fd, delta, no_chunk, FdChunk, DeltaChunk}
use deltanar.Unpack.Nar.Sink.{NarWriter, State, put}

-- What `writeNAR` reads from: the target's files, the chunk store and the paths of the trailer.
pub record Inputs : Type 0 where
  pub host : Host
  pub codec : DeltaCodec
  pub store : TempChunkStore
  pub files : List Text

-- A map with texts as its keys.
unfoldable pub lookup_text : Text → List (Text × List ℕ) → Option (List ℕ)
lookup_text k [] = none
lookup_text k ((j, v) ∷ m) = if text_eq j k then some v else lookup_text k m

-- `make([]byte, n)` panics where the slice is larger than the address space.
abbrev pub make_bytes : ℕ → Result (Unit {0})
make_bytes n = if ltb (2 ^ 48) n then panic else ok tt

-- `Seek` to an offset from the start, which may not be negative, and `io.ReadFull` of `size` bytes.
abbrev pub seek : ℤ → Result ℕ
seek (pos n) = ok n
seek (negsuc n) = err library

unfoldable pub read_full : List ℕ → ℕ → ℕ → Result (List ℕ)
read_full content offset size =
    if leb (offset + size) (length content) || leb size 0
    then ok (take size (drop offset content))
    else err library

-- The part of an open file that a descriptor names.
unfoldable pub fd_range : List ℕ → FdChunk → Result (List ℕ)
unfolding read_full
fd_range content c = do
  offset ← seek (int_of_u64 c.offset)
  make_bytes c.size
  read_full content offset c.size

-- The chunk that a delta rebuilds from a part of a reference file.
unfoldable pub delta_range : Inputs → List ℕ → DeltaChunk → Result (List ℕ)
delta_range inp ref c =
    let end = add_u64 c.offset c.size in
    do
      fail_if (ltb (length ref) end) delta_base_out_of_bounds
      base ← slice ref c.offset end
      delta_data ← read_chunk inp.store (int_of_u64 c.delta_index)
      patch inp.codec base delta_data (int_of_u64 c.result_size)

module _ {W : Type 0} (nw : NarWriter W) (inp : Inputs) where
  -- A file that is open already, or is opened now.
  unfoldable pub opened : Text → State nw → Option (List ℕ) → Result (List ℕ × State nw)
  opened path s (some content) = ok (content, s)
  opened path s none = do
    content ← of_option library (inp.host.open_file path)
    ok (content, record s { input_fds = (path, content) ∷ s.input_fds })

  -- A file is opened once for the whole NAR.
  unfoldable pub open_input : Text → State nw → Result (List ℕ × State nw)
  unfolding opened
  open_input path s = opened path s (lookup_text path s.input_fds)

  -- A file that is mapped already, or is mapped now.
  unfoldable pub mapped_input : Text → State nw → Option (List ℕ) → Result (List ℕ × State nw)
  mapped_input path s (some content) = ok (content, s)
  mapped_input path s none = do
    content ← mmap_open inp.host path
    ok (content, record s { input_data = (path, content) ∷ s.input_data })

  -- `readInputData`: a file is mapped once for the whole NAR.
  unfoldable pub read_input_data : Text → State nw → Result (List ℕ × State nw)
  unfolding mapped_input
  read_input_data path s = mapped_input path s (lookup_text path s.input_data)

  unfoldable pub write_fd : FdChunk → State nw → Result (State nw)
  unfolding open_input fd_range
  write_fd c s = do
    path ← or_panic (get_elem? inp.files c.index)
    (content, s₁) ← open_input path s
    chunk ← fd_range content c
    put nw chunk s₁

  unfoldable pub write_delta : DeltaChunk → State nw → Result (State nw)
  unfolding read_input_data delta_range
  write_delta c s = do
    path ← or_panic (get_elem? inp.files c.index)
    (ref, s₁) ← read_input_data path s
    chunk ← delta_range inp ref c
    put nw chunk s₁

  unfoldable pub write_chunk : ChunkDescriptor → State nw → Result (State nw)
  unfolding write_fd write_delta
  write_chunk (ca index) s = do chunk ← read_chunk inp.store (int_of_u64 index); put nw chunk s
  write_chunk (fd c) s = write_fd c s
  write_chunk (delta c) s = write_delta c s
  write_chunk no_chunk s = ok s

  unfoldable pub write_chunks : List ChunkDescriptor → State nw → Result (State nw)
  unfolding write_chunk
  write_chunks [] s = ok s
  write_chunks (c ∷ cs) s = do s₁ ← write_chunk c s; write_chunks cs s₁
