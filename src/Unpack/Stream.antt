-- ===== src/Unpack/Stream.antt =====
-- Reading back a stream that keeps to the protocol.
use deltanar.Base.{
  ℕ, suc, ◌*◌, ◌^◌, ◌≤◌, ◌<◌, ◌≡◌, ◌≢◌, refl, ◌∙◌, true, none, List, [], ◌∷◌, ◌++◌, map, ok, length,
  All, arith,
}
use deltanar.Base.Int.{pos_part, int_of_u64}
use deltanar.Base.Text.{Text}
use deltanar.Base.{Option-cases, inl, inr}
use deltanar.Dnar.{CaChunk, Nar, PathTrailer}
use deltanar.Dnar.Wire.{MessageCodec, Wire, marshal_all, dnar_stream, IsReadable, AreReadable}
use deltanar.ChunkStore.{
  TempChunkStore, Os, IsLawful, open_temp_chunk_store, write_chunk, map_chunks,
}
use deltanar.ChunkStore.Laws.{Holds, Shows, open-Holds, write_chunk-Holds, map_chunks-Shows}
use deltanar.Unpack.Read.{
  make_pointers, read_message, read_nars_loop, read_nars, read_chunks_loop, read_chunks,
  input_store_files, read_input_store_files, read_archive,
}
use mathlib.Core.List.{append_assoc, append-nil}

-- An operating system on which every write and mapping succeeds.
pub record Succeeds (os : Os) : Type 0 where
  pub lawful : IsLawful os
  pub writes : (file bytes : List ℕ) → (os.write file bytes).1 ≡ true
  pub maps : (file : List ℕ) (n : ℕ) → os.mmap file n ≢ none

pub read_message-marshal :
    {B M : Type 0} (c : MessageCodec B M) (m : M) (rest : List B)
    → IsReadable c m
    → read_message c (c.marshal m ++ rest) ≡ ok (m, rest)
unfolding read_message
read_message-marshal c m rest (e, small) = rw (c.unmarshal-marshal m rest e small)

pub make_pointers-ok : (n : ℕ) → n * 8 ≤ 2 ^ 48 → make_pointers n ≡ ok tt
make_pointers-ok n h = ground arith

pub pos_part_small : (n : ℕ) → n < 2 ^ 63 → pos_part (int_of_u64 n) ≡ n
pos_part_small n h = ground arith

module _ {B : Type 0} (w : Wire B) where
  read_nars_loop_lem :
      (nars : List Nar) (rest : List B)
      → All (λ m. IsReadable w.nar m) nars
      → read_nars_loop w (length nars) (marshal_all w.nar nars ++ rest) ≡ ok (nars, rest)
  unfolding read_nars_loop
  read_nars_loop_lem [] rest fits = refl
  read_nars_loop_lem (m ∷ ms) rest (fit, fits) =
      rw (append_assoc, read_message-marshal w.nar m _ fit, read_nars_loop_lem ms rest fits)

  pub read_nars_lem :
      (nars : List Nar) (rest : List B)
      → IsReadable w.header (record { length = length nars })
      → All (λ m. IsReadable w.nar m) nars
      → length nars * 8 ≤ 2 ^ 48
      → read_nars w
          (w.header.marshal (record { length = length nars }) ++ (marshal_all w.nar nars ++ rest))
        ≡ ok (nars, rest)
  unfolding read_nars
  read_nars_lem nars rest head fits h = rw (
    read_message-marshal w.header _ _ head,
    make_pointers-ok (length nars) h,
    pos_part_small (length nars) (omega arith),
    read_nars_loop_lem nars rest fits,
  )

  module _ (os : Os) (sys : Succeeds os) where
    write_chunk_ok :
        (store : TempChunkStore) (bytes : List ℕ) → (write_chunk os store bytes).1 ≡ ok tt
    unfolding write_chunk
    write_chunk_ok store bytes = rw (sys.writes store.file bytes)

    map_chunks_ok : (store : TempChunkStore) → (map_chunks os store).1 ≡ ok tt
    unfolding map_chunks
    map_chunks_ok store = elim (Option-cases (os.mmap store.file store.size)) [
      | inl e ↦ absurd (sys.maps store.file store.size e)
      | inr (b, e) ↦ rw e (ground arith)
    ]

    read_chunks_step :
        (c : CaChunk) (n : ℕ) (reader : List B) (store : TempChunkStore)
        → IsReadable w.chunk c
        → read_chunks_loop w os (suc n) (w.chunk.marshal c ++ reader) store
          ≡ read_chunks_loop w os n reader (write_chunk os store c.payload).0
    unfolding read_chunks_loop
    read_chunks_step c n reader store fit =
        rw (read_message-marshal w.chunk c reader fit, write_chunk_ok store c.payload)

    read_chunks_loop_lem :
        (cs : List CaChunk) (rest : List B) (store : TempChunkStore) (xs : List (List ℕ))
        → All (λ m. IsReadable w.chunk m) cs
        → Holds store xs
        → (store' : TempChunkStore) × (read_chunks_loop w os
              (length cs)
              (marshal_all w.chunk cs ++ rest)
              store
            ≡ ok (store', rest))
          × Holds store' (xs ++ map (λ c. c.payload) cs)
    unfolding read_chunks_loop
    read_chunks_loop_lem [] rest store xs fits h = (store, refl, rw append-nil h)
    read_chunks_loop_lem (c ∷ cs) rest store xs (fit, fits) h =
        let h₁ =
          write_chunk-Holds os sys.lawful store xs c.payload h (write_chunk_ok store c.payload) in
        let (store', e, h₂) = read_chunks_loop_lem cs rest _ (xs ++ (c.payload ∷ [])) fits h₁ in
        (
          store',
          rw append_assoc
              (read_chunks_step c (length cs) (marshal_all w.chunk cs ++ rest) store fit ∙ e),
          rw append_assoc at h₂,
        )

    read_chunks_eq :
        (cs : List CaChunk) (rest : List B) (store : TempChunkStore)
        → IsReadable w.header (record { length = length cs })
        → length cs < 2 ^ 63
        → {store₁ : TempChunkStore}
        → read_chunks_loop w os (length cs) (marshal_all w.chunk cs ++ rest) store
          ≡ ok (store₁, rest)
        → read_chunks w os
            (w.header.marshal (record { length = length cs }) ++ (marshal_all w.chunk cs ++ rest))
            store
          ≡ ok ((map_chunks os store₁).0, rest)
    unfolding read_chunks
    read_chunks_eq cs rest store head h {store₁} e = rw (
      read_message-marshal w.header _ _ head,
      pos_part_small (length cs) h,
      e,
      map_chunks_ok store₁,
    )

    pub read_chunks_lem :
        (cs : List CaChunk) (rest : List B)
        → IsReadable w.header (record { length = length cs })
        → All (λ m. IsReadable w.chunk m) cs
        → length cs < 2 ^ 63
        → (store : TempChunkStore) × (read_chunks w os
              (w.header.marshal (record { length = length cs }) ++ (marshal_all w.chunk cs ++ rest))
              open_temp_chunk_store
            ≡ ok (store, rest))
          × Shows store (map (λ c. c.payload) cs)
    read_chunks_lem cs rest head fits h =
        let (store₁, e, holds) =
          read_chunks_loop_lem cs rest open_temp_chunk_store [] fits open-Holds in
        (
          (map_chunks os store₁).0,
          read_chunks_eq cs rest open_temp_chunk_store head h e,
          map_chunks-Shows os sys.lawful store₁ _ holds (map_chunks_ok store₁),
        )

    read_inputs_lem :
        (trailer : PathTrailer) {inputs : List Text}
        → IsReadable w.trailer trailer
        → input_store_files w trailer trailer.files ≡ ok inputs
        → read_input_store_files w (w.trailer.marshal trailer) ≡ ok (inputs, [])
    unfolding read_input_store_files
    read_inputs_lem trailer fit e =
        let m = rw append-nil at (read_message-marshal w.trailer trailer [] fit) in rw (m, e)

    read_archive_eq :
        (input r₁ r₂ : List B) {nars : List Nar} {store : TempChunkStore} {inputs : List Text}
        → read_nars w input ≡ ok (nars, r₁)
        → read_chunks w os r₁ open_temp_chunk_store ≡ ok (store, r₂)
        → read_input_store_files w r₂ ≡ ok (inputs, [])
        → read_archive w os input ≡ ok (record { nars = nars; store = store; inputs = inputs })
    unfolding read_archive
    read_archive_eq input r₁ r₂ e₁ e₂ e₃ = rw (e₁, e₂, e₃)

    -- Where the operating system's writes and mappings succeed, every message can be encoded and is at
    -- most 4 MiB, the NARs fit in memory, there are fewer than 2 ^ 63 chunks, and the trailer's files lie
    -- on its paths: a stream that keeps to the protocol is read to its end. The NARs are those that were
    -- written, the store shows the payloads in their order, and the inputs are the files of the trailer.
    pub read_archive-dnar_stream :
        (nars : List Nar) (chunks : List CaChunk) (trailer : PathTrailer) (inputs : List Text)
        → AreReadable w nars chunks trailer
        → length nars * 8 ≤ 2 ^ 48
        → length chunks < 2 ^ 63
        → input_store_files w trailer trailer.files ≡ ok inputs
        → (store : TempChunkStore) × (read_archive w os (dnar_stream w nars chunks trailer)
            ≡ ok (record { nars = nars; store = store; inputs = inputs }))
          × Shows store (map (λ c. c.payload) chunks)
    unfolding dnar_stream
    read_archive-dnar_stream nars chunks trailer inputs (hh, hs, kh, ks, th) hn hc hi =
        let (store, e, shows) = read_chunks_lem chunks (w.trailer.marshal trailer) kh ks hc in
        (
          store,
          read_archive_eq _ _ (w.trailer.marshal trailer) (read_nars_lem nars _ hh hs hn) e
              (read_inputs_lem trailer th hi),
          shows,
        )
