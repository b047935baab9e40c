-- ===== src/Pack/Deltas.antt =====
-- A chunk that is sent as a delta, from the packer (internal/cmd/dnar-pack/dnar.go) to the unpacker
-- (internal/cmd/dnar-unpack/write.go).
use deltanar.Base.{
  ℕ, ◌+◌, ◌-◌, ◌^◌, ◌<◌, ◌≤◌, ◌≡◌, sym, ap, ◌∙◌, List, [], ◌∷◌, ◌++◌, Option-cases, Bool, true,
  false, ◌||◌, Bool-cases, inl, inr, none, some, ok, >>=-eq-ok, ok-injective, of_option,
  index_out_of_bounds, ltb, leb, leb→le, ◌==◌, length, length-take, length-drop, take, drop,
  take-length, get_elem?, arith, if◌then◌else◌,
}
use deltanar.Base.Int.{pos, int_of_u64, add_u64}
use deltanar.Base.Slices.{slice}
use deltanar.Delta.{DeltaCodec}
use deltanar.Delta.Index.{Index, IsValid}
use deltanar.Delta.Diff.{diff_with}
use deltanar.Delta.Patch.{patch}
use deltanar.Delta.RoundTrip.{patch-diff_with}
use deltanar.ChunkStore.{read_chunk}
use deltanar.ChunkStore.Laws.{Shows, read_chunk_lem}
use deltanar.Database.{StoreFile}
use deltanar.Dnar.{DeltaChunk, delta}
use deltanar.Pack.LocalIndex.{MatchedChunk, lookup_id}
use deltanar.Pack.State.{
  Packing, delta_bytes, add_input_store_file, new_input_file, add_delta_payload,
}
use deltanar.Pack.Files.{wire_bytes, pack_delta}
use deltanar.Pack.Reference.{read_at, delta_of_chunk}
use deltanar.Unpack.Nar.Chunks.{Inputs, delta_range}

-- The bytes that a row of the database says of a chunk.
abbrev pub chunk_of : MatchedChunk → List ℕ → List ℕ
chunk_of m content = take m.size (drop m.offset content)

read_at-ok :
    (content : List ℕ) (offset size : ℕ) {bytes : List ℕ}
    → read_at content offset size ≡ ok bytes
    → (bytes ≡ take size (drop offset content)) × (length bytes ≡ size)
read_at-ok content offset size {bytes} h =
    elim (Bool-cases (leb (offset + size) (length content))) [
      | inl e ↦
          let k = rw e at h in
          let same = sym (ok-injective k) in
          let le = leb→le (offset + size) (length content) e in
          (
            same,
            ap (λ l. length l) same
                ∙ omega (arith, length-take size (drop offset content), length-drop offset content),
          )
      | inr e ↦ let k = rw e at h in cc
    ]

keep_if-some : (b : Bool) (d d' : List ℕ) → ok (if b then some d else none) ≡ ok (some d') → d ≡ d'
keep_if-some true d d' h = cc
keep_if-some false d d' h = cc

module _ (c : DeltaCodec) where
  -- What is known of a delta that pays off.
  delta_of_chunk-some :
      (ix : Index) (content : List ℕ) (m : MatchedChunk) {d : List ℕ}
      → delta_of_chunk c ix content m ≡ ok (some d)
      → (diff_with c ix (chunk_of m content) ≡ ok d) × (length (chunk_of m content) ≡ m.size)
  unfolding delta_of_chunk
  delta_of_chunk-some ix content m {d} h = elim (Bool-cases (m.matched || m.size == 0)) [
    | inl e ↦ let k = rw e at h in cc
    | inr e ↦
        let k = rw e at h in
        let (chunk, e₁, k₁) = >>=-eq-ok (read_at content m.offset m.size) _ k in
        let (d', e₂, k₂) = >>=-eq-ok (diff_with c ix chunk) _ k₁ in
        let (same, len) = read_at-ok content m.offset m.size e₁ in
        let eq = keep_if-some (ltb (length d') (length chunk)) d' d k₂ in
        (
          ap (λ x. diff_with c ix x) (sym same) ∙ (e₂ ∙ ap ok eq),
          ap (λ l. length l) (sym same) ∙ len,
        )
  ]

small_int : (n : ℕ) → n < 2 ^ 63 → int_of_u64 n ≡ pos n
small_int n h = ground arith

whole_end : (n : ℕ) → n < 2 ^ 63 → add_u64 0 n ≡ n
whole_end n h = omega arith

not_past : (n : ℕ) → ltb n n ≡ false
not_past n = ground arith

whole_slice : (base : List ℕ) → slice base 0 (length base) ≡ ok base
whole_slice base =
    let a : leb 0 (length base) ≡ true = ground arith in
    let b : leb (length base) (length base) ≡ true = ground arith in
    let n : length base - 0 ≡ length base = omega arith in rw (a, b, n, take-length base)

-- The descriptor of a delta over a whole reference file.
abbrev pub whole_delta : ℕ → ℕ → List ℕ → ℕ → ℕ → DeltaChunk
whole_delta index size digest delta_index result_size = record {
  index = index;
  size = size;
  offset = 0;
  digest = digest;
  delta_index = delta_index;
  result_size = result_size;
}

delta_range_whole :
    (inp : Inputs) (base d : List ℕ) (index : ℕ) (digest : List ℕ) (i size : ℕ)
    → length base < 2 ^ 63
    → i < 2 ^ 63
    → size < 2 ^ 63
    → read_chunk inp.store (pos i) ≡ ok d
    → delta_range inp base (whole_delta index (length base) digest i size)
      ≡ patch inp.codec base d (pos size)
unfolding delta_range
delta_range_whole inp base d index digest i size hb hi hs e = rw (
  whole_end (length base) hb,
  not_past (length base),
  whole_slice base,
  small_int i hi,
  e,
  small_int size hs,
)

add_input_store_file-deps :
    (f : StoreFile) (p : Packing) → (add_input_store_file f p).1.chunk_deps ≡ p.chunk_deps
unfolding add_input_store_file new_input_file
add_input_store_file-deps f p = elim (Option-cases (lookup_id f.id p.input_files_map)) [
  | inl n ↦ rw (add_input_store_file, n)
  | inr (i, s) ↦ rw (add_input_store_file, s)
]

-- What `pack_delta` puts into the NAR and the chunk stream.
pub pack_delta-eq :
    (ref : StoreFile) (m : MatchedChunk) (d : List ℕ) (p : Packing)
    → ((pack_delta ref m d p).0
        ≡ delta (
            whole_delta
              (add_input_store_file ref p).0
              ref.size
              (wire_bytes ref.hash)
              (length p.chunk_deps)
              m.size))
      × ((pack_delta ref m d p).1.chunk_deps ≡ p.chunk_deps ++ (delta_bytes d ∷ []))
unfolding pack_delta add_delta_payload
pack_delta-eq ref m d p =
    let e = add_input_store_file-deps ref p in
    (
      ap
          (λ l. delta (
            whole_delta (add_input_store_file ref p).0 ref.size (wire_bytes ref.hash) (length l)
              m.size))
          e,
      ap (λ l. l ++ (delta_bytes d ∷ [])) e,
    )

-- A missing chunk that the packer sends as a delta, against a valid index over a reference file whose size
-- is the database's, with a chunk of at most 2 ^ 48 bytes and a reference and an index below 2 ^ 63: the
-- delta becomes the next payload, and where the unpacker's store shows the delta at that index, the
-- descriptor applied to the same reference bytes gives the bytes of the chunk in the packed file.
pub delta_range-pack_delta :
    (inp : Inputs) (ix : Index) (content : List ℕ) (ref : StoreFile) (m : MatchedChunk)
    (p : Packing) (d : List ℕ) (xs : List (List ℕ))
    → IsValid ix
    → length ix.base < 2 ^ 63
    → m.size ≤ 2 ^ 48
    → length p.chunk_deps < 2 ^ 63
    → ref.size ≡ length ix.base
    → delta_of_chunk inp.codec ix content m ≡ ok (some d)
    → Shows inp.store xs
    → get_elem? xs (length p.chunk_deps) ≡ some d
    → (c : DeltaChunk) × ((pack_delta ref m d p).0 ≡ delta c)
      × ((pack_delta ref m d p).1.chunk_deps ≡ p.chunk_deps ++ (delta_bytes d ∷ []))
      × (delta_range inp ix.base c ≡ ok (chunk_of m content))
delta_range-pack_delta inp ix content ref m p d xs v hb hm hi hr hd shows hx =
    let (e₁, len) = delta_of_chunk-some inp.codec ix content m hd in
    let (d', e₂, back) =
      patch-diff_with inp.codec ix (chunk_of m content) v hb (omega (arith, len, hm)) in
    let same : d' ≡ d = ok-injective (sym e₂ ∙ e₁) in
    let read =
      read_chunk_lem inp.store xs (length p.chunk_deps) shows
      ∙ ap (λ o. of_option index_out_of_bounds o) hx in
    let (packed, deps) = pack_delta-eq ref m d p in
    let whole =
      delta_range_whole inp ix.base d (add_input_store_file ref p).0 (wire_bytes ref.hash)
        (length p.chunk_deps) m.size hb hi (omega arith) read in
    let patched =
      ap (λ n. patch inp.codec ix.base d (pos n)) (sym len)
      ∙ (ap (λ x. patch inp.codec ix.base x (pos (length (chunk_of m content)))) (sym same)
          ∙ back) in
    (
      whole_delta (add_input_store_file ref p).0 ref.size (wire_bytes ref.hash)
          (length p.chunk_deps) m.size,
      packed,
      deps,
      ap
            (λ n. delta_range inp ix.base (
              whole_delta (add_input_store_file ref p).0 n (wire_bytes ref.hash)
                (length p.chunk_deps) m.size))
            hr
          ∙ (whole ∙ patched),
    )
