-- ===== src/Pack/Kept/Files.antt =====
-- The property is kept while `writeDNAR` goes through the store files and the store paths.
use deltanar.Base.{List, [], ◌∷◌, Option, none, some, Result, ◌==◌, of_option, store_path_not_found}
use deltanar.Base.Text.{Text}
use deltanar.Database.{StoreFile, Chunk, Db}
use deltanar.Database.Queries.{get_store_files}
use deltanar.Dnar.{FileType}
use deltanar.Pack.LocalIndex.{file_chunks, file_by_hash}
use deltanar.Pack.State.{Packing}
use deltanar.Pack.Reference.{choose_reference, count_votes, store_file_abs_path}
use deltanar.Pack.Files.{
  Source, file_deltas, pack_by_chunks, pack_contents, pack_regular, pack_directory, pack_type,
  is_skipped, pack_files,
}
use deltanar.Pack.PathInfo.{PathInfos, lookup_info}
use deltanar.Pack.Dnar.{pack_store_path, pack_store_paths}
use deltanar.Pack.Kept.{
  Then, Then->>=, Then-any, Kept, Packs, if-elim, choose_reference-Packs, pack_chunks-Packs,
}

module _ (src : Source) (Row : Chunk → Type 0) (P : Packing → Type 0) (k : Kept src Row P) where
  pack_by_chunks-Packs :
      (store_path : Text) (f : StoreFile) (p : Packing)
      → P p
      → Packs src Row P k (pack_by_chunks src store_path f p)
  unfolding pack_by_chunks
  pack_by_chunks-Packs store_path f p h =
      let ms = file_chunks src.engine p.li f.id in
      let votes = src.shuffle (count_votes ms []) in
      Then->>= (λ r. P r.1) _ (choose_reference src.host f.size votes p) _
        (choose_reference-Packs src Row P k f.size votes p h)
        (λ (ref, p₁) h₁.
          Then->>= _ _ (file_deltas src (store_file_abs_path store_path f.path) ref ms) _
            (Then-any _)
            (λ ds _. pack_chunks-Packs src Row P k f.id ref ms ds p₁ (k.rows p f.id h) h₁))

  pack_contents-Packs :
      (store_path : Text) (f : StoreFile) (existing : Option StoreFile) (p : Packing)
      → P p
      → Packs src Row P k (pack_contents src store_path f existing p)
  unfolding pack_contents
  pack_contents-Packs store_path f (some existing) p h = k.file existing p h
  pack_contents-Packs store_path f none p h = pack_by_chunks-Packs store_path f p h

  pack_regular-Packs :
      (store_path : Text) (f : StoreFile) (p : Packing)
      → P p
      → Packs src Row P k (pack_regular src store_path f p)
  unfolding pack_regular
  pack_regular-Packs store_path f p h =
      Then->>= _ _ (file_by_hash src.engine p.li f.hash) _ (Then-any _) (λ existing _.
        Then->>= (λ r. P r.1) _ (pack_contents src store_path f existing p) _
          (pack_contents-Packs store_path f existing p h) (λ _ h₁. h₁))

  abbrev pub PacksType : Result (FileType × Text × Packing) → Type 0
  PacksType = Then (λ r. P r.2)

  pack_directory-keeps :
      (f : StoreFile) (dir : Text) (existing : Option StoreFile) (p : Packing)
      → P p
      → P (pack_directory src f dir existing p).2
  unfolding pack_directory
  pack_directory-keeps f dir (some existing) p h = k.file existing p h
  pack_directory-keeps f dir none p h = h

  pub pack_type-Packs :
      (store_path : Text) (f : StoreFile) (dir : Text) (p : Packing)
      → P p
      → PacksType (pack_type src store_path f dir p)
  unfolding pack_type
  pack_type-Packs store_path f dir p h =
      if-elim PacksType (f.type == 0) _ _
        (Then->>= (λ r. P r.1) _ (pack_regular src store_path f p) _
          (pack_regular-Packs store_path f p h) (λ _ h₁. h₁))
        (if-elim PacksType (f.type == 1) _ _
          (Then->>= _ _ (file_by_hash src.engine p.li f.hash) _ (Then-any _)
            (λ existing _. pack_directory-keeps f dir existing p h))
          (if-elim PacksType (f.type == 2) _ _ h tt))

  pub pack_files-Packs :
      (store_path dir : Text) (fs : List StoreFile) (p : Packing)
      → P p
      → Packs src Row P k (pack_files src store_path dir fs p)
  unfolding pack_files
  pack_files-Packs store_path dir [] p h = h
  pack_files-Packs store_path dir (f ∷ fs) p h =
      if-elim (Packs src Row P k) (is_skipped src dir f) _ _
        (pack_files-Packs store_path dir fs p h)
        (Then->>= (λ r. P r.2) _ (pack_type src store_path f dir p) _
          (pack_type-Packs store_path f dir p h)
          (λ (type, dir', p₁) h₁.
            Then->>= (λ r. P r.1) _ (pack_files src store_path dir' fs p₁) _
              (pack_files-Packs store_path dir' fs p₁ h₁) (λ _ h₂. h₂)))

  module _ (db : Db) where
    pub pack_store_path-Packs :
        (infos : PathInfos) (s : Text) (p : Packing)
        → P p
        → Packs src Row P k (pack_store_path src db infos s p)
    unfolding pack_store_path
    pack_store_path-Packs infos s p h =
        Then->>= _ _ (of_option store_path_not_found (lookup_info s infos)) _ (Then-any _)
          (λ info _.
            Then->>= (λ r. P r.1) _ (pack_files src s [] (get_store_files db s) p) _
              (pack_files-Packs s [] (get_store_files db s) p h) (λ _ h₁. h₁))

    -- All of the packing keeps it.
    pub pack_store_paths-Packs :
        (infos : PathInfos) (ss : List Text) (p : Packing)
        → P p
        → Packs src Row P k (pack_store_paths src db infos ss p)
    unfolding pack_store_paths
    pack_store_paths-Packs infos [] p h = h
    pack_store_paths-Packs infos (s ∷ ss) p h =
        Then->>= (λ r. P r.1) _ (pack_store_path src db infos s p) _
          (pack_store_path-Packs infos s p h)
          (λ (nar, p₁) h₁.
            Then->>= (λ r. P r.1) _ (pack_store_paths src db infos ss p₁) _
              (pack_store_paths-Packs infos ss p₁ h₁) (λ _ h₂. h₂))
