-- ===== src/Transfer/Kinds.antt =====
-- A chunk of each kind on its way from the packer to the unpacker (internal/cmd/dnar-pack/dnar.go and
-- internal/cmd/dnar-unpack/write.go).
use deltanar.Base.{
  false, ℕ, zero, suc, ◌+◌, ◌-◌, ◌^◌, ◌≤◌, ◌<◌, ◌≡◌, sym, ap, ◌∙◌, List, map, some, ok, >>=-eq-ok,
  ok-injective, of_option, of_option-eq-ok, library, arith, length, index_out_of_bounds,
  length-take, length-drop, length-map, take, drop, get_elem?, get_elem?-some, get_elem?-snoc, ◌==◌,
}
use mathlib.Core.List.{append-nil}
use deltanar.Base.Int.{int_of_u64}
use deltanar.Base.Host.{mmap_open}
use deltanar.Store.{Hashing}
use deltanar.Database.{StoreFile, Chunk, Db}
use deltanar.Database.Queries.{get_store_file_by_id, get_store_path_by_id}
use deltanar.ChunkStore.{read_chunk}
use deltanar.ChunkStore.Laws.{read_chunk_lem}
use deltanar.Dnar.{ChunkDescriptor, DeltaChunk, delta}
use deltanar.Pack.LocalIndex.{MatchedChunk}
use deltanar.Pack.State.{
  Packing, BulkPayload, file_chunk, delta_bytes, add_chunk_dep, add_input_store_file,
  add_delta_payload,
}
use deltanar.Pack.Reference.{Reference, delta_of_chunk}
use deltanar.Pack.Files.{Source, pack_ca, pack_matched, pack_delta}
use deltanar.Pack.Dnar.{read_into, payload_bytes}
use deltanar.Pack.Indices.{add_chunk_dep-AreIndexed, add_input_store_file-AreIndexed}
use deltanar.Pack.Kept.{dep_of}
use deltanar.Pack.Sent.{payloads-get, small_int, fd_range-pack_matched}
use deltanar.Pack.Deltas.{chunk_of, delta_range-pack_delta, pack_delta-eq}
use deltanar.Unpack.Nar.Chunks.{Inputs, delta_range}
use deltanar.Unpack.Nar.Trace.{Trace, write, call, chunk_trace, fd_bytes}
use deltanar.Transfer.{Describes, IsRow, IsSound, Extends, Receives, IsRef, range}
use deltanar.Transfer.Rows.{
  get_store_file_by_id-row, store_file_by_id_lem, IsRow-range, IsRow-fits, IsRow-IsRegular,
  IsSameLocal,
}

-- The unpacker's trace of a chunk that it writes.
abbrev pub IsWritten : Inputs → ChunkDescriptor → List ℕ → Type 0
IsWritten inp c bytes = chunk_trace inp c ≡ call (write bytes)

read_into-fits :
    (content : List ℕ) (offset size : ℕ) (bytes : List ℕ)
    → offset + size ≤ length content
    → read_into content offset size ≡ ok bytes
    → bytes ≡ take size (drop offset content)
unfolding read_into
read_into-fits content offset zero bytes h e = sym (ok-injective e)
read_into-fits content offset (suc size) bytes h e =
    let n : length (take (suc size) (drop offset content)) ≡ suc size =
      omega (arith, length-take (suc size) (drop offset content), length-drop offset content) in
    let z : suc size - suc size ≡ 0 = omega arith in
    let nz : (suc size == 0) ≡ false = ground arith in
    let k = rw (n, nz, z, append-nil) at e in sym (ok-injective k)

-- The input file that a delta is against.
abbrev delta_index_of : ChunkDescriptor → ℕ
delta_index_of (delta c) = c.index
delta_index_of _ = 0

pack_delta-files :
    (ref : StoreFile) (m : MatchedChunk) (bytes : List ℕ) (p : Packing) (f : StoreFile) (i : ℕ)
    → get_elem? (add_input_store_file ref p).1.input_files i ≡ some f
    → get_elem? (pack_delta ref m bytes p).1.input_files i ≡ some f
unfolding pack_delta add_delta_payload
pack_delta-files ref m bytes p f i e = e

delta_trace :
    (inp : Inputs) (c : DeltaChunk) (path base bytes : List ℕ)
    → get_elem? inp.files c.index ≡ some path
    → mmap_open inp.host path ≡ ok base
    → delta_range inp base c ≡ ok bytes
    → IsWritten inp (delta c) bytes
unfolding deltanar.Unpack.Nar.Trace.delta_bytes
delta_trace inp c path base bytes eg em er = rw (eg, em, er)

module _ (h : Hashing) (src : Source) (db : Db) (contents : ℕ → List ℕ)
    (d : Describes h src db contents) where
  -- The bytes that are sent for a row are those of its range.
  payload_bytes-row :
      (c : Chunk) (bytes : List ℕ)
      → IsRow db c
      → payload_bytes src db (file_chunk c) ≡ ok bytes
      → bytes ≡ range contents c
  unfolding payload_bytes
  payload_bytes-row c bytes row e =
      let (f, ef, e₁) = >>=-eq-ok (get_store_file_by_id db c.file_id) _ e in
      let (sp, ep, e₂) = >>=-eq-ok (get_store_path_by_id db f.store_path_id) _ e₁ in
      let (content, eo, e₃) = >>=-eq-ok (of_option library _) _ e₂ in
      let (i, g, id) = get_store_file_by_id-row db c.file_id f ef in
      let kind = IsRow-IsRegular h src db contents d c row f ef in
      let (same, _) = d.opens i f sp content g kind ep (of_option-eq-ok library _ eo) in
      let whole : content ≡ contents c.file_id = same ∙ ap contents id in
      let fit = IsRow-fits h src db contents d c row in
      read_into-fits content c.offset c.size bytes (rw whole fit) e₃ ∙ rw whole

  module _ (q : Packing) (inp : Inputs) (r : Receives src db contents q inp) where
    -- What is sent under an index is read there.
    read_sent :
        (i : ℕ) (b : BulkPayload)
        → get_elem? q.chunk_deps i ≡ some b
        → (bytes : List ℕ) × (payload_bytes src db b ≡ ok bytes)
          × (i < 2 ^ 63)
          × (get_elem? (map (λ c. c.payload) r.sent) i ≡ some bytes)
          × (read_chunk inp.store (int_of_u64 i) ≡ ok bytes)
    read_sent i b e =
        let (bytes, eb, eg) = payloads-get src db q.chunk_deps i r.sends e in
        let lt = get_elem?-some (map (λ x. x.payload) r.sent) i eg in
        let small : i < 2 ^ 63 = omega (arith, lt, r.few, length-map r.sent (λ x. x.payload)) in
        (
          bytes,
          eb,
          small,
          eg,
          ap (λ n. read_chunk inp.store n) (small_int i small)
              ∙ (read_chunk_lem inp.store (map (λ x. x.payload) r.sent) i r.shows
                  ∙ ap (λ o. of_option index_out_of_bounds o) eg),
        )

    pub pack_ca-IsWritten :
        (file_id : ℕ) (m : MatchedChunk) (p : Packing)
        → IsSound db contents p
        → IsRow db (dep_of file_id m)
        → IsSound db contents (pack_ca file_id m p).1
        → Extends (pack_ca file_id m p).1 q
        → IsWritten inp (pack_ca file_id m p).0 (chunk_of m (contents file_id))
    unfolding pack_ca
    pack_ca-IsWritten file_id m p s row s' ex =
        let i = (add_chunk_dep (dep_of file_id m) p).0 in
        let (_, (c, place, same)) = add_chunk_dep-AreIndexed (dep_of file_id m) p s.indexed in
        let own = s'.has_rows i c place in
        let (bytes, eb, _, _, er) = read_sent i (file_chunk c) (ex.deps i (file_chunk c) place) in
        let here = payload_bytes-row c bytes own eb in
        let eq = IsRow-range h src db contents d c (dep_of file_id m) own row same in
        rw er (ap (λ x. call (write x)) (here ∙ eq))

    pub pack_matched-IsWritten :
        (file_id : ℕ) (m : MatchedChunk) (p p' : Packing) (c : ChunkDescriptor)
        → IsSound db contents p
        → IsSameLocal db contents file_id m
        → pack_matched m p ≡ ok (c, p')
        → Extends p' q
        → IsWritten inp c (chunk_of m (contents file_id))
    unfolding fd_bytes
    pack_matched-IsWritten file_id m p p' c s (kind, fit, same) e ex =
        let content = contents m.local_file_id in
        let small = d.small m.local_file_id in
        let (f, fc, li, ef, ec, _, (f', place, fid), er) =
          fd_range-pack_matched m p p' c content s.indexed e (omega (arith, fit, small))
            (omega (arith, fit, small)) fit in
        let (_, _, row) = store_file_by_id_lem db p.li li m.local_file_id f s.same_db s.cached ef in
        let (_, _, id) = get_store_file_by_id-row db m.local_file_id f row in
        let here = ex.files fc.index f' place in
        let (path, eg) = r.target.finds fc.index f' here in
        let own = ap (λ n. get_store_file_by_id db n) (fid ∙ id) ∙ row in
        let (eo, _) = r.target.has fc.index f' path here eg f own (kind f row) in
        let whole : contents f'.id ≡ content = ap contents (fid ∙ id) in
        rw (ec, eg, eo, whole, er) (ap (λ x. call (write x)) same)

    pub pack_delta-IsWritten :
        (file_id : ℕ) (ref : Reference) (m : MatchedChunk) (bytes : List ℕ) (p : Packing)
        → IsSound db contents p
        → IsRow db (dep_of file_id m)
        → IsRef db contents ref
        → delta_of_chunk src.codec ref.index (contents file_id) m ≡ ok (some bytes)
        → Extends (pack_delta ref.file m bytes p).1 q
        → IsWritten inp (pack_delta ref.file m bytes p).0 (chunk_of m (contents file_id))
    unfolding payload_bytes
    pack_delta-IsWritten file_id ref m bytes p s row (own_row, kind, valid, base, size) e ex =
        let (packed, deps) = pack_delta-eq ref.file m bytes p in
        let own : get_elem? (pack_delta ref.file m bytes p).1.chunk_deps (length p.chunk_deps)
            ≡ some (delta_bytes bytes) =
          rw deps (get_elem?-snoc p.chunk_deps (delta_bytes bytes)) in
        let (found, eb, small, eg, _) =
          read_sent (length p.chunk_deps) (delta_bytes bytes)
            (ex.deps (length p.chunk_deps) (delta_bytes bytes) own) in
        let fit = IsRow-fits h src db contents d (dep_of file_id m) row in
        let len : length ref.index.base ≤ 2 ^ 48 = rw base (d.small ref.file.id) in
        let (c, ec, _, er) =
          delta_range-pack_delta inp ref.index (contents file_id) ref.file m p bytes
            (map (λ c. c.payload) r.sent) valid (omega (arith, len))
            (omega (arith, fit, d.small file_id)) small size (rw r.same_codec e) r.shows
            (eg ∙ ap some (sym (ok-injective eb))) in
        let index : (add_input_store_file ref.file p).0 ≡ c.index =
          sym (ap (λ x. delta_index_of x) (sym ec ∙ packed)) in
        let (_, (f, place, id)) = add_input_store_file-AreIndexed ref.file p s.indexed in
        let here = ex.files _ f (pack_delta-files ref.file m bytes p f _ place) in
        let (path, ep) = r.target.finds (add_input_store_file ref.file p).0 f here in
        let (_, em) =
          r.target.has (add_input_store_file ref.file p).0 f path here ep ref.file
            (ap (λ n. get_store_file_by_id db n) id ∙ own_row) kind in
        let whole : contents f.id ≡ ref.index.base = ap contents id ∙ sym base in
        let there = rw index at ep in
        ap (λ x. chunk_trace inp x) ec
        ∙ delta_trace inp c path ref.index.base (chunk_of m (contents file_id)) there
            (em ∙ ap ok whole) er
