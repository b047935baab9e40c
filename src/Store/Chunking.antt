-- ===== src/Store/Chunking.antt =====
-- `ChunkFile` (internal/store/chunk.go).
use deltanar.Base.{
  ℕ, ◌+◌, List, [], ◌∷◌, ◌++◌, Result, ok, library, ◌>>=◌, of_option, ltb, if◌then◌else◌, length,
  drop,
}
use deltanar.Base.Text.{Text}
use deltanar.Base.Host.{Host}
use deltanar.Store.{FileChunk, ChunkedFile, Hashing}

module _ (h : Hashing) where
  -- What the loop has: the chunks, the offset of the next one, and the bytes that the hasher of the whole
  -- file was given.
  pub record Chunked : Type 0 where
    pub chunks : List FileChunk
    pub offset : ℕ
    pub hashed : List ℕ

  -- One chunk: it is hashed by itself and as part of the file.
  unfoldable pub add_chunk : Chunked → List ℕ → Chunked
  add_chunk c chunk = record {
    chunks =
        c.chunks
        ++ (record { offset = c.offset; len = length chunk; digest = h.blake3 chunk } ∷ []);
    offset = c.offset + length chunk;
    hashed = c.hashed ++ chunk;
  }

  unfoldable pub chunk_loop : Chunked → List (List ℕ) → Chunked
  unfolding add_chunk
  chunk_loop c [] = c
  chunk_loop c (chunk ∷ rest) = chunk_loop (add_chunk c chunk) rest

  -- The bytes that the chunker gave no chunk for, from the offset to the end, are one more chunk.
  unfoldable pub add_rest : List ℕ → Chunked → Chunked
  unfolding add_chunk
  add_rest content c =
      if ltb c.offset (length content) then add_chunk c (drop c.offset content) else c

  unfoldable pub chunk_bytes : List ℕ → ChunkedFile
  unfolding chunk_loop add_rest
  chunk_bytes content =
      let start : Chunked = record { chunks = []; offset = 0; hashed = [] } in
      let c = add_rest content (chunk_loop start (h.cut content)) in
      record { chunks = c.chunks; digest = h.blake3 c.hashed }

  -- `ChunkFile`
  unfoldable pub chunk_file : Host → Text → Result ChunkedFile
  unfolding chunk_bytes
  chunk_file host path = do
    content ← of_option library (host.open_file path)
    ok (chunk_bytes content)
