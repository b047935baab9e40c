-- ===== src/Pack/ReadBack.antt =====
-- From `writeDNAR` to the unpacker's readers.
use deltanar.Base.{
  ℕ, [], ◌∷◌, All, ◌*◌, ◌^◌, ◌≤◌, ◌<◌, ◌≡◌, ap, sym, ◌∙◌, List, ◌++◌, map, Result, ok, >>=-eq-ok,
  ok-injective, length, length-map,
}
use deltanar.Base.Text.{Text}
use deltanar.Database.{Db}
use deltanar.Dnar.{StreamHeader, CaChunk, Nar, PathTrailer}
use deltanar.Dnar.Wire.{
  Wire, marshal_all, dnar_stream, write_message, write_messages, write_message-ok,
  write_messages-ok, IsEncodable, both-AreReadable,
}
use deltanar.Pack.LocalIndex.{new_local_index}
use deltanar.Pack.State.{Packing, new_packing}
use deltanar.Pack.Files.{Source}
use deltanar.Pack.PathInfo.{PathInfos}
use deltanar.Pack.Dnar.{
  payloads, trailer_paths, trailer_file, pack_store_path, pack_store_paths, write_nars,
  write_chunk_stream, write_trailer, write_dnar,
}
use deltanar.Pack.Inputs.{IsPacked}
use deltanar.Pack.Kept.{Then-ok}
use deltanar.Pack.Invariants.{pack_store_paths-IsPacked}
use deltanar.Pack.Stream.{
  Written, HasSmallMessages, length-payloads, pack_store_paths-paths, trailer_files-inputs,
  input_file_paths,
}
use deltanar.Unpack.Read.{read_archive}
use deltanar.Unpack.Stream.{Succeeds, read_archive-dnar_stream}
use deltanar.ChunkStore.{TempChunkStore, Os}
use deltanar.ChunkStore.Laws.{Shows}
use mathlib.Core.List.{append_assoc}

module _ (src : Source) (db : Db) {B : Type 0} (w : Wire B) where
  write_chunk_stream-ok :
      (p : Packing) {out : List B}
      → write_chunk_stream src db w p ≡ ok out
      → (chunks : List CaChunk) × (payloads src db p.chunk_deps ≡ ok chunks)
        × (out ≡ w.header.marshal (record { length = length chunks }) ++ marshal_all w.chunk chunks)
        × IsEncodable w.header (record { length = length chunks })
        × All (λ m. IsEncodable w.chunk m) chunks
  unfolding write_chunk_stream
  write_chunk_stream-ok p h =
      let header : StreamHeader = record { length = length p.chunk_deps } in
      let (hs, eh, h₁) = >>=-eq-ok (write_message w.header header) _ h in
      let (cs, e, h₂) = >>=-eq-ok (payloads src db p.chunk_deps) _ h₁ in
      let (ms, em, k) = >>=-eq-ok (write_messages w.chunk cs) _ h₂ in
      let (head, heads) = write_message-ok w.header header eh in
      let (all, same) = write_messages-ok w.chunk cs em in
      let len = length-payloads src db p.chunk_deps e in
      (cs, e, rw len (sym (ok-injective k) ∙ rw (heads, same)), rw len head, all)

  write_trailer-ok :
      (p : Packing) {out : List B}
      → write_trailer db w p ≡ ok out
      → (paths : List Text) × (trailer_paths db p.input_paths ≡ ok paths)
        × IsEncodable w.trailer
            (record { paths = paths; files = map (trailer_file p.input_paths) p.input_files })
        × (out
            ≡ w.trailer.marshal
                (record { paths = paths; files = map (trailer_file p.input_paths) p.input_files }))
  unfolding write_trailer
  write_trailer-ok p h =
      let (ps, e, k) = >>=-eq-ok (trailer_paths db p.input_paths) _ h in
      let (able, same) = write_message-ok w.trailer _ k in (ps, e, able, same)

  pack_store_paths-cons :
      (infos : PathInfos) (s : Text) (ss : List Text) (p p₁ p₂ : Packing) (nar : Nar)
      (nars : List Nar)
      → pack_store_path src db infos s p ≡ ok (nar, p₁)
      → pack_store_paths src db infos ss p₁ ≡ ok (nars, p₂)
      → pack_store_paths src db infos (s ∷ ss) p ≡ ok (nar ∷ nars, p₂)
  unfolding pack_store_paths
  pack_store_paths-cons infos s ss p p₁ p₂ nar nars e e' = rw (e, e')

  joined :
      {first rest first' rest' out : List B}
      → first ++ rest ≡ out
      → first ≡ first'
      → rest ≡ rest'
      → out ≡ first' ++ rest'
  joined e a b = sym e ∙ rw (a, b)

  write_nars-ok :
      (infos : PathInfos) (ss : List Text) (p p' : Packing) {out : List B}
      → write_nars src db w infos ss p ≡ ok (out, p')
      → (nars : List Nar) × (pack_store_paths src db infos ss p ≡ ok (nars, p'))
        × All (λ m. IsEncodable w.nar m) nars
        × (out ≡ marshal_all w.nar nars)
  unfolding write_nars pack_store_paths
  write_nars-ok infos [] p p' h =
      ([], ap (λ x. ok ([], x.1)) (ok-injective h), tt, sym (ap (λ x. x.0) (ok-injective h)))
  write_nars-ok infos (s ∷ ss) p p' h =
      let ((nar, p₁), e, h₁) = >>=-eq-ok (pack_store_path src db infos s p) _ h in
      let (first, ef, h₂) = >>=-eq-ok (write_message w.nar nar) _ h₁ in
      let ((rest, p₂), er, k) = >>=-eq-ok (write_nars src db w infos ss p₁) _ h₂ in
      let (here, same) = write_message-ok w.nar nar ef in
      let (nars, packs, all, eq) = write_nars-ok infos ss p₁ p₂ er in
      (
        nar ∷ nars,
        pack_store_paths-cons infos s ss p p₁ p₂ nar nars e packs
            ∙ ap (λ x. ok (nar ∷ nars, x.1)) (ok-injective k),
        (here, all),
        joined (ap (λ x. x.0) (ok-injective k)) same eq,
      )

  pub pack_store_paths-length :
      (infos : PathInfos) (ss : List Text) (p p' : Packing) (nars : List Nar)
      → pack_store_paths src db infos ss p ≡ ok (nars, p')
      → length nars ≡ length ss
  pack_store_paths-length infos ss p p' nars e =
      sym (length-map nars (λ n. n.path))
      ∙ ap (λ l. length l) (pack_store_paths-paths src db infos ss p p' nars e)

  stream_eq :
      (nars : List Nar) (chunks : List CaChunk) (trailer : PathTrailer) (n : ℕ)
      {header nar_part chunk_part trailer_part : List B}
      → length nars ≡ n
      → header ≡ w.header.marshal (record { length = n })
      → nar_part ≡ marshal_all w.nar nars
      → chunk_part
        ≡ w.header.marshal (record { length = length chunks }) ++ marshal_all w.chunk chunks
      → trailer_part ≡ w.trailer.marshal trailer
      → header ++ (nar_part ++ (chunk_part ++ trailer_part)) ≡ dnar_stream w nars chunks trailer
  unfolding dnar_stream
  stream_eq nars chunks trailer n len eh en ec et = rw (eh, en, ec, et, len, append_assoc)

  -- Whatever `writeDNAR` writes without an error is the protocol's stream of the NARs that the packing of
  -- the store paths gives, of the payloads that it collected, and of a trailer with its input paths and
  -- files. Each of its messages can be encoded.
  pub write_dnar-Written :
      (path_infos : Result PathInfos) (store_paths local_paths : List Text) (out : List B)
      → write_dnar src db w path_infos store_paths local_paths ≡ ok out
      → (infos : PathInfos) × (path_infos ≡ ok infos)
        × Written src db w infos store_paths local_paths out
  unfolding write_dnar
  write_dnar-Written path_infos store_paths local_paths out h =
      let header : StreamHeader = record { length = length store_paths } in
      let start = new_packing (new_local_index db local_paths) in
      let (infos, ei, h₁) = >>=-eq-ok path_infos _ h in
      let (hpart, eh, h₂) = >>=-eq-ok (write_message w.header header) _ h₁ in
      let ((npart, p), en, h₃) = >>=-eq-ok (write_nars src db w infos store_paths start) _ h₂ in
      let (cpart, ec, h₄) = >>=-eq-ok (write_chunk_stream src db w p) _ h₃ in
      let (tpart, et, h₅) = >>=-eq-ok (write_trailer db w p) _ h₄ in
      let (head, heads) = write_message-ok w.header header eh in
      let (nars, ep, all, en') = write_nars-ok infos store_paths start p en in
      let (chunks, ec₁, ec₂, chead, call) = write_chunk_stream-ok p ec in
      let (paths, et₁, et₂, et₃) = write_trailer-ok p et in
      let len = pack_store_paths-length infos store_paths start p nars ep in
      (
        infos,
        ei,
        record {
          nars = nars;
          packing = p;
          chunks = chunks;
          paths = paths;
          packs = ep;
          chunks-payloads = ec₁;
          paths-trailer = et₁;
          stream =
              sym (ok-injective h₅)
              ∙ stream_eq nars chunks _ (length store_paths) len heads en' ec₂ et₃;
          encodable = (rw len head, all, chead, call, et₂);
        },
      )

  -- Both ends: where the operating system's writes and mappings succeed, the store paths fit in memory,
  -- there are fewer than 2 ^ 63 payloads and at most 2 ^ 32 input paths, and each message is at most 4
  -- MiB, the unpacker reads a written stream to its end. It gets one NAR for each packed store path in
  -- their order, the payloads in the order of their indices, and as inputs the absolute paths of the files
  -- that the packer took, in the order of their indices.
  pub read_archive-write_dnar :
      (os : Os)
      → Succeeds os
      → (infos : PathInfos) (store_paths local_paths : List Text) (out : List B)
      → (d : Written src db w infos store_paths local_paths out) → length store_paths * 8 ≤ 2 ^ 48
      → length d.packing.chunk_deps < 2 ^ 63
      → length d.packing.input_paths ≤ 2 ^ 32
      → HasSmallMessages src db w infos store_paths local_paths out d
      → (store : TempChunkStore) × (inputs : List Text) × (read_archive w os out
          ≡ ok (record { nars = d.nars; store = store; inputs = inputs }))
        × (map (λ n. n.path) d.nars ≡ store_paths)
        × Shows store (map (λ c. c.payload) d.chunks)
        × (input_file_paths db d.packing.input_files ≡ ok inputs)
  read_archive-write_dnar os sys infos store_paths local_paths out d hs hc hp small =
      let named =
        Then-ok (λ r. IsPacked r.1)
          (pack_store_paths src db infos store_paths (new_packing (new_local_index db local_paths)))
          (pack_store_paths-IsPacked src db infos store_paths
            (new_packing (new_local_index db local_paths)) tt)
          d.packs in
      let en = pack_store_paths-paths src db infos store_paths _ d.packing d.nars d.packs in
      let el = pack_store_paths-length infos store_paths _ d.packing d.nars d.packs in
      let ec = length-payloads src db d.packing.chunk_deps d.chunks-payloads in
      let trailer : PathTrailer = record {
        paths = d.paths;
        files = map (trailer_file d.packing.input_paths) d.packing.input_files;
      } in
      let (inputs, ei, ef) =
        trailer_files-inputs db w trailer d.packing.input_paths d.packing.input_files hp
          d.paths-trailer named in
      let (store, er, shows) =
        read_archive-dnar_stream w os sys d.nars d.chunks trailer inputs
          (both-AreReadable w d.nars d.chunks trailer d.encodable small) (rw el hs) (rw ec hc) ei in
      (store, inputs, ap (λ o. read_archive w os o) d.stream ∙ er, en, shows, ef)
