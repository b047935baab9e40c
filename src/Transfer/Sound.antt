-- ===== src/Transfer/Sound.antt =====
-- What the packer has collected (internal/cmd/dnar-pack: dnar.go, delta.go, localindex.go) stays sound, step
-- by step.
use deltanar.Base.{
  ℕ, zero, suc, arith, ◌≡◌, refl, sym, ap, ◌∙◌, Bool-cases, Option-cases, inl, inr, ◌⊎◌, List, [],
  ◌∷◌, ◌++◌, some, ok, >>=-eq-ok, ok-injective, of_option-eq-ok, library, length, All, get_elem?,
  true,
}
use deltanar.Base.Int.{ℤ, pos, negsuc}
use deltanar.Base.Text.{Text}
use deltanar.Base.Host.{Host, mmap_open, mapped}
use deltanar.Store.{Hashing}
use deltanar.Delta.Index.{Index, new_index}
use deltanar.Delta.Index.Laws.{new_index-IsValid}
use deltanar.Database.{StoreFile, Chunk, Db, IsEngine}
use deltanar.Database.Queries.{get_store_path_by_id, get_store_file_by_id}
use deltanar.Pack.LocalIndex.{MatchedChunk, lookup_id}
use deltanar.Pack.State.{
  Packing, RefCache, BulkPayload, file_chunk, delta_bytes, is_id, load_ref, get_ref,
  add_input_store_file, new_input_file, add_chunk_dep, new_chunk_dep, lookup_hash,
  add_delta_payload,
}
use deltanar.Pack.Reference.{ref_index, store_file_abs_path}
use deltanar.Pack.Files.{Source}
use deltanar.Pack.Indices.{
  add_chunk_dep-AreIndexed, add_input_store_file-AreIndexed, add_delta_payload-AreIndexed,
}
use deltanar.Pack.Kept.{Kept, dep_of}
use deltanar.Transfer.{Describes, IsRow, Covers, HasIndex, HasRows, IsSound}
use deltanar.Transfer.Rows.{
  get_store_file_by_id-row, store_file_by_id_lem, file_chunks-IsChunkOf, IsChunkOf,
}

-- What is mapped is what the file holds.
pub mmap_open-opens :
    (host : Host) (path : Text) (bytes : List ℕ)
    → mmap_open host path ≡ ok bytes
    → host.open_file path ≡ some bytes
unfolding mmap_open
mmap_open-opens host path bytes h =
    let (content, e, k) = >>=-eq-ok _ (mapped host path) h in
    of_option-eq-ok library _ e ∙ ap some (mapped-ok content k)
  where
    mapped-ok : (content : List ℕ) → mapped host path content ≡ ok bytes → content ≡ bytes
    mapped-ok [] k = ok-injective k
    mapped-ok (b ∷ bs) k = elim (Bool-cases (host.mappable path)) [
      | inl t ↦ let l = rw t at k in ok-injective l
      | inr t ↦ let l = rw t at k in cc
    ]

-- An index that was loaded now, over the file's bytes.
abbrev IsLoaded : Host → Text → ℕ → Index → RefCache → Type 0
IsLoaded host path id ix c =
    (bytes : List ℕ) × (host.open_file path ≡ some bytes)
    × (new_index bytes ≡ ok ix)
    × (c ≡ record { file_id = pos id; index = some ix })

load_ref-IsLoaded :
    (host : Host) (path : Text) (id : ℕ) (c c' : RefCache) (ix : Index)
    → load_ref host path id c ≡ ok (ix, c')
    → IsLoaded host path id ix c'
unfolding load_ref
load_ref-IsLoaded host path id c c' ix h =
    let (bytes, e, k) = >>=-eq-ok (mmap_open host path) _ h in
    let (ix₁, e₁, k₁) = >>=-eq-ok (new_index bytes) _ k in
    let same : ix₁ ≡ ix = ap (λ r. r.0) (ok-injective k₁) in
    let ec = sym (ap (λ r. r.1) (ok-injective k₁)) in
    (bytes, mmap_open-opens host path bytes e, e₁ ∙ ap ok same, ec ∙ rw same)

is_id-eq : (z : ℤ) (id : ℕ) → is_id z id ≡ true → z ≡ pos id
is_id-eq (pos n) id h = ap pos (ground arith)
is_id-eq (negsuc n) id h = cc

-- The index of the cache, or one that is loaded.
get_ref-cases :
    (host : Host) (path : Text) (id : ℕ) (c c' : RefCache) (ix : Index)
    → get_ref host path id c ≡ ok (ix, c')
    → ((c.file_id ≡ pos id) × (c.index ≡ some ix) × (c' ≡ c)) ⊎ IsLoaded host path id ix c'
unfolding get_ref
get_ref-cases host path id c c' ix h = elim (Option-cases c.index) [
  | inl n ↦ let k = rw n at h in inr (load_ref-IsLoaded host path id c c' ix k)
  | inr (old, s) ↦ elim (Bool-cases (is_id c.file_id id)) [
    | inl t ↦
        let k = rw (s, t) at h in
        let same : old ≡ ix = ap (λ r. r.0) (ok-injective k) in
        let ec = ap (λ r. r.1) (ok-injective k) in
        inl
          (is_id-eq c.file_id id t, s ∙ ap some same, sym (ap (λ o. record c { index = o }) s ∙ ec))
    | inr t ↦ let k = rw (s, t) at h in inr (load_ref-IsLoaded host path id c c' ix k)
  ]
]

add_input_store_file-rest :
    (f : StoreFile) (p : Packing)
    → ((add_input_store_file f p).1.li ≡ p.li)
      × ((add_input_store_file f p).1.ref_cache ≡ p.ref_cache)
      × ((add_input_store_file f p).1.chunk_deps ≡ p.chunk_deps)
unfolding add_input_store_file new_input_file
add_input_store_file-rest f p = elim (Option-cases (lookup_id f.id p.input_files_map)) [
  | inl n ↦ rw (add_input_store_file, n) (refl, refl, refl)
  | inr (i, s) ↦ rw (add_input_store_file, s) (refl, refl, refl)
]

add_chunk_dep-rest :
    (c : Chunk) (p : Packing)
    → ((add_chunk_dep c p).1.li ≡ p.li)
      × ((add_chunk_dep c p).1.ref_cache ≡ p.ref_cache)
      × (((add_chunk_dep c p).1.chunk_deps ≡ p.chunk_deps)
          ⊎ ((add_chunk_dep c p).1.chunk_deps ≡ p.chunk_deps ++ (file_chunk c ∷ [])))
unfolding add_chunk_dep new_chunk_dep
add_chunk_dep-rest c p = elim (Option-cases (lookup_hash c.hash p.chunk_deps_map)) [
  | inl n ↦ rw (add_chunk_dep, n) (refl, refl, inr refl)
  | inr (i, s) ↦ rw (add_chunk_dep, s) (refl, refl, inl refl)
]

-- One more at the end.
snoc-get :
    {A : Type 0} (xs : List A) (x : A) (i : ℕ) {y : A}
    → get_elem? (xs ++ (x ∷ [])) i ≡ some y
    → (get_elem? xs i ≡ some y) ⊎ (x ≡ y)
snoc-get [] x zero h = inr cc
snoc-get [] x (suc i) h = cc
snoc-get (z ∷ zs) x zero h = inl h
snoc-get (z ∷ zs) x (suc i) h = snoc-get zs x i h

HasRows-chunk :
    (db : Db) (deps : List BulkPayload) (c : Chunk)
    → IsRow db c
    → HasRows db deps
    → HasRows db (deps ++ (file_chunk c ∷ []))
HasRows-chunk db deps c row known i c' e = elim (snoc-get deps (file_chunk c) i e) [
  | inl k ↦ known i c' k
  | inr k ↦ let same : c ≡ c' = cc in rw⁻¹ same row
]

HasRows-delta :
    (db : Db) (deps : List BulkPayload) (d : List ℕ)
    → HasRows db deps
    → HasRows db (deps ++ (delta_bytes d ∷ []))
HasRows-delta db deps d known i c e = elim (snoc-get deps (delta_bytes d) i e) [
  | inl k ↦ known i c k
  | inr k ↦ absurd (delta-ne-chunk k)
]
  where
    delta-ne-chunk : delta_bytes d ≡ file_chunk c → ⊥
    delta-ne-chunk k = cc

module _ (h : Hashing) (src : Source) (db : Db) (contents : ℕ → List ℕ)
    (d : Describes h src db contents) where
  -- The index that is given is over the file of the row, and so is the one that is kept.
  pub ref_index_lem :
      (f : StoreFile) (p : Packing) (ix : Index) (c : RefCache)
      → p.li.db ≡ db
      → HasIndex db contents p.ref_cache
      → get_store_file_by_id db f.id ≡ ok f
      → ref_index src.host f p ≡ ok (ix, c)
      → Covers db contents f.id ix × HasIndex db contents c
  unfolding ref_index
  ref_index_lem f p ix c same known row e =
      let (sp, ep, k) = >>=-eq-ok (get_store_path_by_id p.li.db f.store_path_id) _ e in
      elim (get_ref-cases src.host (store_file_abs_path sp.path f.path) f.id p.ref_cache c ix k) [
        | inl (ef, ei, ec) ↦ (known f.id ix ef ei, rw ec known)
        | inr (bytes, eo, en, ec) ↦
            let (i, g, _) = get_store_file_by_id-row db f.id f row in
            let (ix', en', base, valid) = new_index-IsValid bytes in
            let ex : ix' ≡ ix = ok-injective (sym en' ∙ en) in
            let eq : ix.base ≡ bytes = ap (λ x. x.base) (sym ex) ∙ base in
            let covers : Covers db contents f.id ix = (
              rw ex at valid,
              λ f' row' ty.
                  let ff : f ≡ f' = ok-injective (sym row ∙ row') in
                  let (eb, es) =
                    d.opens i f sp bytes g (ap (λ x. x.type) ff ∙ ty) (rw same at ep) eo in
                  (eq ∙ eb, ap (λ x. x.size) (sym ff) ∙ (es ∙ ap (λ l. length l) (sym eq))),
            ) in
            (
              covers,
              rw ec (λ id ix'' e₁ e₂.
                  let eid : f.id ≡ id = cc in let eix : ix ≡ ix'' = cc in rw (eid, eix) at covers),
            )
      ]

  module _ (lawful : IsEngine src.engine) where
    pub IsSound-kept : Kept src (λ c. IsRow db c) (IsSound db contents)
    unfolding add_delta_payload
    IsSound-kept = record {
      local_index = λ p id f li e s.
          let (same, known, _) = store_file_by_id_lem db p.li li id f s.same_db s.cached e in
          record {
            same_db = same;
            cached = known;
            has_index = s.has_index;
            indexed = record { chunks = s.indexed.chunks; files = s.indexed.files };
            has_rows = s.has_rows;
          };
      cache = λ p id f li ix c e g s.
          let (same, known, row) = store_file_by_id_lem db p.li li id f s.same_db s.cached e in
          let (_, _, fid) = get_store_file_by_id-row db id f row in
          let own : get_store_file_by_id db f.id ≡ ok f =
            ap (λ n. get_store_file_by_id db n) fid ∙ row in
          let (_, has) = ref_index_lem f (record p { li = li }) ix c same s.has_index own g in
          record {
            same_db = same;
            cached = known;
            has_index = has;
            indexed = record { chunks = s.indexed.chunks; files = s.indexed.files };
            has_rows = s.has_rows;
          };
      file = λ f p s.
          let (el, ec, ed) = add_input_store_file-rest f p in
          record {
            same_db = ap (λ x. x.db) el ∙ s.same_db;
            cached = rw el s.cached;
            has_index = rw ec s.has_index;
            indexed = (add_input_store_file-AreIndexed f p s.indexed).0;
            has_rows = rw ed s.has_rows;
          };
      chunk = λ c p r s.
          let (el, ec, ed) = add_chunk_dep-rest c p in
          record {
            same_db = ap (λ x. x.db) el ∙ s.same_db;
            cached = rw el s.cached;
            has_index = rw ec s.has_index;
            indexed = (add_chunk_dep-AreIndexed c p s.indexed).0;
            has_rows = elim ed [
              | inl k ↦ rw k s.has_rows
              | inr k ↦ rw k (HasRows-chunk db p.chunk_deps c r s.has_rows)
            ];
          };
      payload = λ d p s.
          let deps = HasRows-delta db p.chunk_deps d s.has_rows in
          record {
            same_db = s.same_db;
            cached = s.cached;
            has_index = s.has_index;
            indexed = (add_delta_payload-AreIndexed d p s.indexed).0;
            has_rows = deps;
          };
      rows = λ p id s.
          All-rows id _ (file_chunks-IsChunkOf h src db contents d lawful p.li id s.same_db);
    }
      where
        All-rows :
            (id : ℕ) (ms : List MatchedChunk)
            → All (IsChunkOf db contents id) ms
            → All (λ m. IsRow db (dep_of id m)) ms
        All-rows id [] k = tt
        All-rows id (m ∷ ms) ((r, _), ks) = (r, All-rows id ms ks)
