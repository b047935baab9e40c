-- ===== src/Unpack/Trailing.antt =====
-- Bytes behind the end of a stream (`readEOF` of internal/cmd/dnar-unpack/read.go).
use deltanar.Base.{◌*◌, ◌^◌, ◌≤◌, ◌<◌, ◌≡◌, ap, ◌∙◌, List, ◌∷◌, ◌++◌, ok, err, expected_eof, length}
use deltanar.Base.Text.{Text}
use deltanar.Dnar.{CaChunk, Nar, PathTrailer}
use deltanar.Dnar.Wire.{Wire, marshal_all, dnar_stream, IsReadable, AreReadable}
use deltanar.ChunkStore.{TempChunkStore, Os, open_temp_chunk_store}
use deltanar.Unpack.Read.{
  read_nars, read_chunks, input_store_files, read_input_store_files, read_eof, read_archive,
}
use deltanar.Unpack.Stream.{Succeeds, read_nars_lem, read_chunks_lem, read_message-marshal}
use mathlib.Core.List.{append_assoc}

module _ {B : Type 0} (w : Wire B) (os : Os) (sys : Succeeds os) where
  inputs_then :
      (trailer : PathTrailer) (rest : List B) {inputs : List Text}
      → IsReadable w.trailer trailer
      → input_store_files w trailer trailer.files ≡ ok inputs
      → read_input_store_files w (w.trailer.marshal trailer ++ rest) ≡ ok (inputs, rest)
  unfolding read_input_store_files
  inputs_then trailer rest fit e = rw (read_message-marshal w.trailer trailer rest fit, e)

  refused :
      (input r₁ r₂ : List B) (b : B) (more : List B) {nars : List Nar} {store : TempChunkStore}
      {inputs : List Text}
      → read_nars w input ≡ ok (nars, r₁)
      → read_chunks w os r₁ open_temp_chunk_store ≡ ok (store, r₂)
      → read_input_store_files w r₂ ≡ ok (inputs, b ∷ more)
      → read_archive w os input ≡ err expected_eof
  unfolding read_archive read_eof
  refused input r₁ r₂ b more e₁ e₂ e₃ = rw (e₁, e₂, e₃)

  behind :
      (nars : List Nar) (chunks : List CaChunk) (trailer : PathTrailer) (rest : List B)
      → dnar_stream w nars chunks trailer ++ rest
        ≡ w.header.marshal (record { length = length nars })
          ++ (marshal_all w.nar nars
              ++ (w.header.marshal (record { length = length chunks })
                  ++ (marshal_all w.chunk chunks ++ (w.trailer.marshal trailer ++ rest))))
  unfolding dnar_stream
  behind nars chunks trailer rest = rw (append_assoc, append_assoc, append_assoc, append_assoc)

  -- Where the operating system's writes and mappings succeed, every message can be encoded and is at most
  -- 4 MiB, the NARs fit in memory, there are fewer than 2 ^ 63 chunks, and the trailer's files lie on its
  -- paths: a stream that keeps to the protocol and has anything behind its end is refused as a violation
  -- of the protocol.
  pub read_archive-trailing :
      (nars : List Nar) (chunks : List CaChunk) (trailer : PathTrailer) (inputs : List Text) (b : B)
      (more : List B)
      → AreReadable w nars chunks trailer
      → length nars * 8 ≤ 2 ^ 48
      → length chunks < 2 ^ 63
      → input_store_files w trailer trailer.files ≡ ok inputs
      → read_archive w os (dnar_stream w nars chunks trailer ++ (b ∷ more)) ≡ err expected_eof
  read_archive-trailing nars chunks trailer inputs b more (hh, hs, kh, ks, th) hn hc hi =
      let (store, e, _) =
        read_chunks_lem w os sys chunks (w.trailer.marshal trailer ++ (b ∷ more)) kh ks hc in
      ap (λ s. read_archive w os s) (behind nars chunks trailer (b ∷ more))
      ∙ refused _ _ (w.trailer.marshal trailer ++ (b ∷ more)) b more
          (read_nars_lem w nars _ hh hs hn) e (inputs_then trailer (b ∷ more) th hi)
