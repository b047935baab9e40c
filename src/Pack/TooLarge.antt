-- ===== src/Pack/TooLarge.antt =====
-- Descriptions that `writeDNAR` (internal/cmd/dnar-pack/dnar.go) writes and `readNARs`
-- (internal/cmd/dnar-unpack/read.go) does not take.
use deltanar.Base.{
  ℕ, zero, suc, ◌*◌, ◌^◌, ◌≤◌, ◌<◌, ◌≡◌, sym, ap, ◌∙◌, List, [], ◌∷◌, ◌++◌, Bool-cases, inl, inr,
  some, ok, err, ok-injective, library, leb, length, get_elem?, All, arith,
}
use mathlib.Core.List.{append_assoc}
use deltanar.Base.Text.{Text}
use deltanar.Database.{Db}
use deltanar.Dnar.{Nar, CaChunk, PathTrailer}
use deltanar.Dnar.Wire.{MessageCodec, Wire, max_size, marshal_all, dnar_stream, IsEncodable}
use deltanar.ChunkStore.{Os}
use deltanar.Pack.Files.{Source}
use deltanar.Pack.PathInfo.{PathInfos}
use deltanar.Pack.Stream.{Written}
use deltanar.Pack.LocalIndex.{new_local_index}
use deltanar.Pack.State.{Packing, new_packing}
use deltanar.Pack.Dnar.{pack_store_paths, write_dnar}
use deltanar.Pack.ReadBack.{pack_store_paths-length, write_dnar-Written}
use deltanar.Unpack.Read.{read_message, read_nars_loop, read_nars, read_archive}
use deltanar.Unpack.Stream.{read_message-marshal, make_pointers-ok, pos_part_small}

read_message-too_large :
    {B M : Type 0} (c : MessageCodec B M) (m : M) (rest : List B)
    → max_size < c.size m
    → read_message c (c.marshal m ++ rest) ≡ err library
unfolding read_message
read_message-too_large c m rest h = rw (c.unmarshal-too_large m rest h)

module _ {B : Type 0} (w : Wire B) where
  -- One NAR that is too large is enough; the reading ends there, or at one before it.
  read_nars_loop_too_large :
      (nars : List Nar) (rest : List B) (i : ℕ) (nar : Nar)
      → All (λ m. IsEncodable w.nar m) nars
      → get_elem? nars i ≡ some nar
      → max_size < w.nar.size nar
      → read_nars_loop w (length nars) (marshal_all w.nar nars ++ rest) ≡ err library
  unfolding read_nars_loop
  read_nars_loop_too_large [] rest i nar able e h = cc
  read_nars_loop_too_large (m ∷ ms) rest zero nar able e h =
      let same : m ≡ nar = cc in
      rw (append_assoc, read_message-too_large w.nar m (marshal_all w.nar ms ++ rest) (rw same h))
  read_nars_loop_too_large (m ∷ ms) rest (suc i) nar (here, able) e h =
      let later = read_nars_loop_too_large ms rest i nar able e h in
      elim (Bool-cases (leb (w.nar.size m) max_size)) [
        | inl small ↦
            rw (append_assoc, read_message-marshal w.nar m _ (here, ground (arith, small)), later)
        | inr large ↦
            let over =
              read_message-too_large w.nar m (marshal_all w.nar ms ++ rest)
                (ground (arith, large)) in
            rw (append_assoc, over)
      ]

  read_archive_too_large :
      (os : Os) (nars : List Nar) (chunks : List CaChunk) (trailer : PathTrailer)
      → IsEncodable w.header (record { length = length nars })
      → w.header.size (record { length = length nars }) ≤ max_size
      → length nars * 8 ≤ 2 ^ 48
      → ((rest : List B)
          → read_nars_loop w (length nars) (marshal_all w.nar nars ++ rest) ≡ err library)
      → read_archive w os (dnar_stream w nars chunks trailer) ≡ err library
  unfolding read_archive read_nars dnar_stream
  read_archive_too_large os nars chunks trailer able small few fails = rw (
    read_message-marshal w.header _ _ (able, small),
    make_pointers-ok (length nars) few,
    pos_part_small (length nars) (omega arith),
    fails,
  )

  Written-too_large :
      (src : Source) (db : Db) (os : Os) (infos : PathInfos) (store_paths local_paths : List Text)
      (out : List B) (i : ℕ) (nar : Nar)
      → (d : Written src db w infos store_paths local_paths out)
      → w.header.size (record { length = length store_paths }) ≤ max_size
      → length store_paths * 8 ≤ 2 ^ 48
      → get_elem? d.nars i ≡ some nar
      → max_size < w.nar.size nar
      → read_archive w os out ≡ err library
  Written-too_large src db os infos store_paths local_paths out i nar d small few e large =
      let (able, ables, _, _, _) = d.encodable in
      let len = pack_store_paths-length src db w infos store_paths _ d.packing d.nars d.packs in
      ap (λ o. read_archive w os o) d.stream
      ∙ read_archive_too_large os d.nars d.chunks _ able (rw len small) (rw len few)
          (λ rest. read_nars_loop_too_large d.nars rest i nar ables e large)

  -- Where the header of the NARs is at most 4 MiB and the store paths fit in memory: if the description of
  -- one of the packed store paths is larger than 4 MiB, then what `writeDNAR` wrote without an error is
  -- refused by the unpacker, with the error of the reading.
  pub read_archive-too_large :
      (src : Source) (db : Db) (os : Os) (infos : PathInfos) (store_paths local_paths : List Text)
      (out : List B) (nars : List Nar) (q : Packing) (i : ℕ) (nar : Nar)
      → write_dnar src db w (ok infos) store_paths local_paths ≡ ok out
      → pack_store_paths src db infos store_paths (new_packing (new_local_index db local_paths))
        ≡ ok (nars, q)
      → w.header.size (record { length = length store_paths }) ≤ max_size
      → length store_paths * 8 ≤ 2 ^ 48
      → get_elem? nars i ≡ some nar
      → max_size < w.nar.size nar
      → read_archive w os out ≡ err library
  read_archive-too_large src db os infos store_paths local out nars q i nar writes packs small few e
        large =
      let (infos', same, d) = write_dnar-Written src db w (ok infos) store_paths local out writes in
      let packs' =
        ap (λ x. pack_store_paths src db x store_paths (new_packing (new_local_index db local)))
          (sym (ok-injective same))
        ∙ packs in
      let again : d.nars ≡ nars = ap (λ x. x.0) (ok-injective (sym d.packs ∙ packs')) in
      Written-too_large src db os infos' store_paths local out i nar d small few
        (ap (λ l. get_elem? l i) again ∙ e) large
