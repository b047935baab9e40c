-- ===== src/Pack/Stream.antt =====
-- What `writeDNAR` writes keeps to the protocol, and reads back.
use deltanar.Base.{
  ℕ, suc, ◌^◌, ◌%◌, ◌≤◌, ◌<◌, ◌≡◌, refl, ap, sym, ◌∙◌, List, [], ◌∷◌, ◌++◌, map, some, Bool-cases,
  Option-cases, inl, inr, Result, ok, ◌>>=◌, >>=-eq-ok, of_option, ok-injective, arith, length,
  get_elem?, All, ◌==◌, ==_iff,
}
use deltanar.Base.Text.{Text, text_eq}
use deltanar.Database.{StorePath, StoreFile, Db}
use deltanar.Database.Queries.{get_store_files, get_store_path_by_id}
use deltanar.Dnar.{CaChunk, Nar, PathTrailer, FileDescriptor}
use deltanar.Dnar.Wire.{Wire, dnar_stream, AreEncodable, AreSmall}
use deltanar.Pack.LocalIndex.{new_local_index}
use deltanar.Pack.State.{Packing, BulkPayload, new_packing, index_of}
use deltanar.Pack.Reference.{store_file_abs_path}
use deltanar.Pack.Files.{Source, pack_files}
use deltanar.Pack.PathInfo.{PathInfos, lookup_info}
use deltanar.Pack.Dnar.{
  payload_bytes, payloads, trailer_paths, trailer_file, pack_store_path, pack_store_paths,
}
use deltanar.Pack.Inputs.{IsNamed}
use deltanar.Unpack.Read.{input_store_files}
use mathlib.Core.List.{append-nil}

module _ (src : Source) (db : Db) where
  -- What lies behind a stream that was written.
  pub record Written {B : Type 0} (w : Wire B) (infos : PathInfos)
      (store_paths local_paths : List Text) (out : List B) : Type 0 where
    pub nars : List Nar
    pub packing : Packing
    pub chunks : List CaChunk
    pub paths : List Text
    pub packs :
        pack_store_paths src db infos store_paths (new_packing (new_local_index db local_paths))
        ≡ ok (nars, packing)
    pub chunks-payloads : payloads src db packing.chunk_deps ≡ ok chunks
    pub paths-trailer : trailer_paths db packing.input_paths ≡ ok paths
    pub stream :
        out
        ≡ dnar_stream w nars chunks (record {
          paths = paths;
          files = map (trailer_file packing.input_paths) packing.input_files;
        })
    pub encodable : AreEncodable w nars chunks (record {
      paths = paths;
      files = map (trailer_file packing.input_paths) packing.input_files;
    })

  -- Each message of a written stream is at most 4 MiB.
  abbrev pub HasSmallMessages :
      {B : Type 0} (w : Wire B) (infos : PathInfos) (store_paths local_paths : List Text)
      (out : List B)
      → Written w infos store_paths local_paths out
      → Type 0
  HasSmallMessages w infos store_paths local_paths out d = AreSmall w d.nars d.chunks (record {
    paths = d.paths;
    files = map (trailer_file d.packing.input_paths) d.packing.input_files;
  })

  pub length-payloads :
      (bs : List BulkPayload) {cs : List CaChunk}
      → payloads src db bs ≡ ok cs
      → length cs ≡ length bs
  unfolding payloads
  length-payloads [] h = let e = ok-injective h in rw⁻¹ e refl
  length-payloads (b ∷ bs) h =
      let (x, _, h₁) = >>=-eq-ok (payload_bytes src db b) _ h in
      let (xs, e, h₂) = >>=-eq-ok (payloads src db bs) _ h₁ in
      let k = ok-injective h₂ in rw⁻¹ k (ap suc (length-payloads bs e))

  pack_store_path-path :
      (infos : PathInfos) (s : Text) (p p₁ : Packing) (nar : Nar)
      → pack_store_path src db infos s p ≡ ok (nar, p₁)
      → nar.path ≡ s
  unfolding pack_store_path
  pack_store_path-path infos s p p₁ nar h =
      let (info, _, h₁) = >>=-eq-ok (of_option _ (lookup_info s infos)) _ h in
      let ((files, p₂), _, h₂) = >>=-eq-ok (pack_files src s [] (get_store_files db s) p) _ h₁ in
      let k = ok-injective h₂ in sym (ap (λ r. r.0.path) k)

  -- One NAR for each store path, in their order.
  pub pack_store_paths-paths :
      (infos : PathInfos) (ss : List Text) (p p' : Packing) (nars : List Nar)
      → pack_store_paths src db infos ss p ≡ ok (nars, p')
      → map (λ n. n.path) nars ≡ ss
  unfolding pack_store_paths
  pack_store_paths-paths infos [] p p' nars h =
      let k = ok-injective h in sym (ap (λ r. map (λ n. n.path) r.0) k)
  pack_store_paths-paths infos (s ∷ ss) p p' nars h =
      let ((nar, p₁), e, h₁) = >>=-eq-ok (pack_store_path src db infos s p) _ h in
      let ((rest, p₂), e₂, h₂) = >>=-eq-ok (pack_store_paths src db infos ss p₁) _ h₁ in
      let k = ok-injective h₂ in
      let hd = pack_store_path-path infos s p p₁ nar e in
      let tl = pack_store_paths-paths infos ss p₁ p₂ rest e₂ in
      sym (ap (λ r. map (λ n. n.path) r.0) k)
      ∙ (ap (λ x. x ∷ map (λ n. n.path) rest) hd ∙ ap (λ x. s ∷ x) tl)

-- The file of each input, as `storeFileAbsPath` names it.
unfoldable pub input_file_paths : Db → List StoreFile → Result (List Text)
input_file_paths db [] = ok []
input_file_paths db (f ∷ fs) = do
  p ← get_store_path_by_id db f.store_path_id
  rest ← input_file_paths db fs
  ok (store_file_abs_path p.path f.path ∷ rest)

module _ (db : Db) where
  trailer_paths-index :
      (id : ℕ) (ids : List ℕ) {paths : List Text} {i : ℕ}
      → trailer_paths db ids ≡ ok paths
      → index_of id ids ≡ some i
      → (p : StorePath) × (get_store_path_by_id db id ≡ ok p) × (get_elem? paths i ≡ some p.path)
  unfolding trailer_paths index_of
  trailer_paths-index id [] h k = cc
  trailer_paths-index id (x ∷ xs) {paths} {i} h k =
      let (p, e, h₁) = >>=-eq-ok (get_store_path_by_id db x) _ h in
      let (rest, e₂, h₂) = >>=-eq-ok (trailer_paths db xs) _ h₁ in
      let eq = ok-injective h₂ in
      elim (Bool-cases (x == id)) [
        | inl same ↦
            let k' = rw same at k in
            let x≡id = (==_iff x id).0 same in
            let z : 0 ≡ i = cc in (p, rw⁻¹ x≡id e, rw⁻¹ eq (rw⁻¹ z refl))
        | inr other ↦ elim (Option-cases (index_of id xs)) [
          | inl n ↦ let k' = rw (other, n) at k in cc
          | inr (j, s) ↦
              let k' = rw (other, s) at k in
              let z : suc j ≡ i = cc in
              let (q, eq₁, eq₂) = trailer_paths-index id xs e₂ s in (q, eq₁, rw⁻¹ eq (rw⁻¹ z eq₂))
        ]
      ]

  trailer_file-path :
      (ids : List ℕ) (s : Text) (f : StoreFile)
      → s ++ (trailer_file ids f).path ≡ store_file_abs_path s f.path
  unfolding store_file_abs_path
  trailer_file-path ids s f = elim (Bool-cases (text_eq f.path (b'/' ∷ []))) [
    | inl e ↦ rw (e, append-nil s)
    | inr e ↦ rw e
  ]

  u32_small : (i : ℕ) → i < 2 ^ 32 → i % 2 ^ 32 ≡ i
  u32_small i h = omega arith

  trailer_file-store_path :
      (ids : List ℕ) (f : StoreFile) (i : ℕ)
      → length ids ≤ 2 ^ 32
      → index_of f.store_path_id ids ≡ some i
      → i < length ids
      → (trailer_file ids f).store_path ≡ i
  trailer_file-store_path ids f i h e k = rw e (u32_small i (omega arith))

  input_store_files_step :
      {B : Type 0} (w : Wire B) (trailer : PathTrailer) (f : FileDescriptor)
      (fs : List FileDescriptor) (s : Text) (rest : List Text)
      → get_elem? trailer.paths f.store_path ≡ some s
      → input_store_files w trailer fs ≡ ok rest
      → input_store_files w trailer (f ∷ fs) ≡ ok ((s ++ f.path) ∷ rest)
  input_store_files_step w trailer f fs s rest e k = rw (e, k)

  input_file_paths_step :
      (f : StoreFile) (fs : List StoreFile) (p : StorePath) (rest : List Text)
      → get_store_path_by_id db f.store_path_id ≡ ok p
      → input_file_paths db fs ≡ ok rest
      → input_file_paths db (f ∷ fs) ≡ ok (store_file_abs_path p.path f.path ∷ rest)
  unfolding input_file_paths
  input_file_paths_step f fs p rest e k = rw (e, k)

  -- The trailer's files, as the unpacker resolves them, are the files that were packed as inputs.
  pub trailer_files-inputs :
      {B : Type 0} (w : Wire B) (trailer : PathTrailer) (ids : List ℕ) (fs : List StoreFile)
      → length ids ≤ 2 ^ 32
      → trailer_paths db ids ≡ ok trailer.paths
      → All (IsNamed ids) fs
      → (inputs : List Text) × (input_store_files w trailer (map (trailer_file ids) fs) ≡ ok inputs)
        × (input_file_paths db fs ≡ ok inputs)
  unfolding input_file_paths
  trailer_files-inputs w trailer ids [] h e a = ([], refl, refl)
  trailer_files-inputs w trailer ids (f ∷ fs) h e ((i, ei, hi), named) =
      let (rest, e₁, e₂) = trailer_files-inputs w trailer ids fs h e named in
      let (p, ep, eg) = trailer_paths-index f.store_path_id ids e ei in
      let same = trailer_file-store_path ids f i h ei hi in
      let step =
        input_store_files_step w trailer (trailer_file ids f) (map (trailer_file ids) fs) p.path
          rest (rw same eg) e₁ in
      (
        store_file_abs_path p.path f.path ∷ rest,
        step ∙ ap (λ t. ok (t ∷ rest)) (trailer_file-path ids p.path f),
        input_file_paths_step f fs p rest ep e₂,
      )
