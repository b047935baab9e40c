-- ===== src/Unpack/Read.antt =====
-- Reading a DNAR stream (internal/cmd/dnar-unpack/read.go).
use deltanar.Base.{
  ℕ, zero, suc, ◌*◌, ◌^◌, List, [], ◌∷◌, ◌++◌, Result, ok, err, panic, library, expected_eof, ◌>>=◌,
  ◌>>◌, of_option, or_panic, ltb, get_elem?, if◌then◌else◌,
}
use deltanar.Base.Int.{pos_part, int_of_u64}
use deltanar.Base.Text.{Text}
use deltanar.Dnar.{Nar, PathTrailer, FileDescriptor}
use deltanar.Dnar.Wire.{MessageCodec, Wire}
use deltanar.ChunkStore.{TempChunkStore, Os, open_temp_chunk_store, write_chunk, map_chunks}

-- `make([]*T, n)` panics where the slice would take more than the address space, 2 ^ 48 bytes.
abbrev pub make_pointers : ℕ → Result (Unit {0})
make_pointers n = if ltb (2 ^ 48) (n * 8) then panic else ok tt

module _ {B : Type 0} where
  unfoldable pub read_message : {M : Type 0} → MessageCodec B M → List B → Result (M × List B)
  read_message c reader = of_option library (c.unmarshal_from reader)

module _ {B : Type 0} (w : Wire B) where
  -- The loop of `readNARs`, on the messages that are left.
  unfoldable pub read_nars_loop : ℕ → List B → Result (List Nar × List B)
  unfolding read_message
  read_nars_loop zero reader = ok ([], reader)
  read_nars_loop (suc n) reader = do
    (nar, reader₁) ← read_message w.nar reader
    (nars, reader₂) ← read_nars_loop n reader₁
    ok (nar ∷ nars, reader₂)

  -- `readNARs`. The loop runs while the count is below `int(Length)`.
  unfoldable pub read_nars : List B → Result (List Nar × List B)
  unfolding read_message read_nars_loop
  read_nars reader = do
    (header, reader₁) ← read_message w.header reader
    make_pointers header.length
    read_nars_loop (pos_part (int_of_u64 header.length)) reader₁

  -- `readInputStoreFiles`, with a panic on a store path that the trailer lacks.
  abbrev pub input_store_files : PathTrailer → List FileDescriptor → Result (List Text)
  input_store_files trailer [] = ok []
  input_store_files trailer (f ∷ fs) = do
    path ← or_panic (get_elem? trailer.paths f.store_path)
    rest ← input_store_files trailer fs
    ok ((path ++ f.path) ∷ rest)

  unfoldable pub read_input_store_files : List B → Result (List Text × List B)
  unfolding read_message
  read_input_store_files reader = do
    (trailer, reader₁) ← read_message w.trailer reader
    files ← input_store_files trailer trailer.files
    ok (files, reader₁)

  module _ (os : Os) where
    -- The loop of `readChunks`.
    unfoldable pub read_chunks_loop : ℕ → List B → TempChunkStore → Result (TempChunkStore × List B)
    unfolding read_message
    read_chunks_loop zero reader store = ok (store, reader)
    read_chunks_loop (suc n) reader store = do
      (chunk, reader₁) ← read_message w.chunk reader
      let written = write_chunk os store chunk.payload
      written.1
      read_chunks_loop n reader₁ written.0

    unfoldable pub read_chunks : List B → TempChunkStore → Result (TempChunkStore × List B)
    unfolding read_message read_chunks_loop
    read_chunks reader store = do
      (header, reader₁) ← read_message w.header reader
      (store₁, reader₂) ← read_chunks_loop (pos_part (int_of_u64 header.length)) reader₁ store
      let mapped = map_chunks os store₁
      mapped.1
      ok (mapped.0, reader₂)

-- `readEOF`
unfoldable pub read_eof : {B : Type 0} → List B → Result (Unit {0})
read_eof [] = ok tt
read_eof (b ∷ reader) = err expected_eof

-- What the commands have read once the input is at its end.
pub record Archive : Type 0 where
  pub nars : List Nar
  pub store : TempChunkStore
  pub inputs : List Text

-- The first part of both commands: all of the input is read before anything is written.
unfoldable pub read_archive : {B : Type 0} → Wire B → Os → List B → Result Archive
unfolding read_nars read_chunks read_input_store_files read_eof open_temp_chunk_store
read_archive w os input = do
  (nars, reader₁) ← read_nars w input
  (store, reader₂) ← read_chunks w os reader₁ open_temp_chunk_store
  (inputs, reader₃) ← read_input_store_files w reader₂
  read_eof reader₃
  ok (record { nars = nars; store = store; inputs = inputs })
