-- ===== src/Pack/Sent.antt =====
-- A chunk that is not sent as a delta, from the packer (internal/cmd/dnar-pack/dnar.go) to the unpacker
-- (internal/cmd/dnar-unpack/write.go).
use deltanar.Base.{
  ℕ, zero, suc, ◌+◌, ◌^◌, ◌≤◌, ◌<◌, ◌≡◌, refl, sym, ap, ◌∙◌, List, [], ◌∷◌, ◌++◌, map, some, ok,
  >>=-eq-ok, ok-injective, of_option, index_out_of_bounds, le→leb, length, length-map, get_elem?,
  get_elem?-append, get_elem?-some, take, drop, arith,
}
use mathlib.Core.Path.{subst}
use deltanar.Base.Int.{pos, int_of_u64}
use deltanar.Database.{StoreFile, Chunk, Db}
use deltanar.ChunkStore.{TempChunkStore, read_chunk}
use deltanar.ChunkStore.Laws.{Shows, read_chunk_lem}
use deltanar.Dnar.{ChunkDescriptor, CaChunk, ca, fd, FdChunk}
use deltanar.Pack.LocalIndex.{LocalIndex, MatchedChunk, store_file_by_id}
use deltanar.Pack.State.{Packing, BulkPayload, file_chunk, add_chunk_dep, add_input_store_file}
use deltanar.Pack.Files.{Source, pack_ca, pack_matched}
use deltanar.Pack.Dnar.{payload_bytes, payloads}
use deltanar.Pack.Indices.{
  AreIndexed, HasFile, add_chunk_dep-AreIndexed, add_input_store_file-AreIndexed,
}
use deltanar.Unpack.Nar.Chunks.{make_bytes, read_full, fd_range}

pub small_int : (n : ℕ) → n < 2 ^ 63 → int_of_u64 n ≡ pos n
small_int n h = ground arith

module _ (src : Source) (db : Db) where
  -- The payload at an index is the one that was collected there.
  pub payloads-get :
      (bs : List BulkPayload) (i : ℕ) {b : BulkPayload} {cs : List CaChunk}
      → payloads src db bs ≡ ok cs
      → get_elem? bs i ≡ some b
      → (bytes : List ℕ) × (payload_bytes src db b ≡ ok bytes)
        × (get_elem? (map (λ c. c.payload) cs) i ≡ some bytes)
  unfolding payloads
  payloads-get [] i h g = cc
  payloads-get (x ∷ xs) zero {b} {cs} h g =
      let (bytes, e, h₁) = >>=-eq-ok (payload_bytes src db x) _ h in
      let (rest, _, h₂) = >>=-eq-ok (payloads src db xs) _ h₁ in
      let same : x ≡ b = cc in
      (
        bytes,
        ap (λ y. payload_bytes src db y) (sym same) ∙ e,
        sym (ap (λ l. get_elem? (map (λ c. c.payload) l) 0) (ok-injective h₂)),
      )
  payloads-get (x ∷ xs) (suc i) h g =
      let (bytes, e, h₁) = >>=-eq-ok (payload_bytes src db x) _ h in
      let (rest, e₂, h₂) = >>=-eq-ok (payloads src db xs) _ h₁ in
      let (found, ef, eg) = payloads-get xs i e₂ g in
      (found, ef, sym (ap (λ l. get_elem? (map (λ c. c.payload) l) (suc i)) (ok-injective h₂)) ∙ eg)

  -- Where the indices that were given so far are right: a missing chunk that the packer sends as it is
  -- gets the index of a payload with its hash, and once the whole chunk stream is written and the
  -- unpacker's store shows it, with fewer than 2 ^ 63 payloads, the store gives that payload's bytes at
  -- the index.
  pub read_chunk-pack_ca :
      (file_id : ℕ) (m : MatchedChunk) (p : Packing) (more : List BulkPayload) (cs : List CaChunk)
      (store : TempChunkStore)
      → AreIndexed p
      → payloads src db ((pack_ca file_id m p).1.chunk_deps ++ more) ≡ ok cs
      → Shows store (map (λ c. c.payload) cs)
      → length cs < 2 ^ 63
      → (index : ℕ) × (c : Chunk) × (bytes : List ℕ) × ((pack_ca file_id m p).0 ≡ ca index)
        × (c.hash ≡ m.hash)
        × (payload_bytes src db (file_chunk c) ≡ ok bytes)
        × (read_chunk store (int_of_u64 index) ≡ ok bytes)
  unfolding pack_ca
  read_chunk-pack_ca file_id m p more cs store known hp shows hl =
      let new : Chunk = record {
        id = 0;
        file_id = file_id;
        hash = m.hash;
        size = m.size;
        offset = m.offset;
      } in
      let i = (add_chunk_dep new p).0 in
      let (_, (c, place, same)) = add_chunk_dep-AreIndexed new p known in
      let (bytes, eb, eg) = payloads-get _ i hp (get_elem?-append _ more i place) in
      let lt = get_elem?-some (map (λ x. x.payload) cs) i eg in
      let small = small_int i (omega (arith, lt, hl, length-map cs (λ x. x.payload))) in
      (
        i,
        c,
        bytes,
        refl,
        same,
        eb,
        ap (λ n. read_chunk store n) small
            ∙ (read_chunk_lem store (map (λ x. x.payload) cs) i shows
                ∙ ap (λ o. of_option index_out_of_bounds o) eg),
      )

make_bytes-ok : (n : ℕ) → n ≤ 2 ^ 48 → make_bytes n ≡ ok tt
make_bytes-ok n h = ground arith

pub fd_range-ok :
    (content : List ℕ) (c : FdChunk)
    → c.offset < 2 ^ 63
    → c.size ≤ 2 ^ 48
    → c.offset + c.size ≤ length content
    → fd_range content c ≡ ok (take c.size (drop c.offset content))
unfolding fd_range read_full
fd_range-ok content c ho hs hl =
    rw (
      small_int c.offset ho,
      make_bytes-ok c.size hs,
      le→leb (c.offset + c.size) (length content) hl,
    )

-- Where the indices that were given so far are right: a chunk that the target has becomes a descriptor of
-- an input file with the matched file's id, the indices stay right, and on any content that is long
-- enough, at an offset below 2 ^ 63 and with at most 2 ^ 48 bytes, the unpacker reads the matched range.
pub fd_range-pack_matched :
    (m : MatchedChunk) (p p' : Packing) (cd : ChunkDescriptor) (content : List ℕ)
    → AreIndexed p
    → pack_matched m p ≡ ok (cd, p')
    → m.local_offset < 2 ^ 63
    → m.local_size ≤ 2 ^ 48
    → m.local_offset + m.local_size ≤ length content
    → (f : StoreFile) × (c : FdChunk) × (li : LocalIndex) × (store_file_by_id p.li m.local_file_id
        ≡ ok (f, li))
      × (cd ≡ fd c)
      × AreIndexed p'
      × HasFile p'.input_files c.index f.id
      × (fd_range content c ≡ ok (take m.local_size (drop m.local_offset content)))
unfolding pack_matched
fd_range-pack_matched m p p' cd content known h ho hs hl =
    let ((f, li), e, k) = >>=-eq-ok (store_file_by_id p.li m.local_file_id) _ h in
    let p₀ = record p { li = li } in
    let (indexed, place) =
      add_input_store_file-AreIndexed f p₀
        (record { chunks = known.chunks; files = known.files }) in
    let c : FdChunk = record {
      index = (add_input_store_file f p₀).0;
      size = m.local_size;
      offset = m.local_offset;
      digest = m.hash;
    } in
    let same = ok-injective k in
    (
      f,
      c,
      li,
      e,
      sym (ap (λ r. r.0) same),
      subst (λ q. AreIndexed q) (ap (λ r. r.1) same) indexed,
      subst (λ q. HasFile q.input_files c.index f.id) (ap (λ r. r.1) same) place,
      fd_range-ok content c ho hs hl,
    )
