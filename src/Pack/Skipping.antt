-- ===== src/Pack/Skipping.antt =====
-- Which files of a store path the packer leaves out, once it has matched a directory whole.
use deltanar.Base.{ℕ, ◌≡◌, refl, List, [], ◌∷◌, ◌++◌, true, ok, arith}
use deltanar.Base.Text.{Text, has_prefix}
use deltanar.Database.{StoreFile}
use deltanar.Dnar.{FileType}
use deltanar.Pack.State.{Packing}
use deltanar.Pack.Files.{Source, pack_type, is_skipped, pack_files}

has_prefix-append : (p s : Text) → has_prefix (p ++ s) p ≡ true
unfolding has_prefix
has_prefix-append [] s = refl
has_prefix-append (x ∷ xs) s = let h = has_prefix-append xs s in ground arith

module _ (src : Source) where
  skipped_step :
      (store_path : Text) (c : ℕ) (dir more : Text) (f : StoreFile) (fs : List StoreFile)
      (p : Packing)
      → f.path ≡ c ∷ dir ++ more
      → pack_files src store_path (c ∷ dir) (f ∷ fs) p ≡ pack_files src store_path (c ∷ dir) fs p
  unfolding pack_files is_skipped
  skipped_step store_path c dir more f fs p e = rw (e, has_prefix-append (c ∷ dir) more)

  -- Where a directory is the first file and is taken whole from the target, a file behind it whose path
  -- begins with the directory's text is left out of the NAR, whatever comes next: "/lib-extra" is lost
  -- behind "/lib", with no "/" between them.
  pub pack_files_drops :
      (store_path : Text) (d f : StoreFile) (fs : List StoreFile) (p p₁ : Packing) (type : FileType)
      (c : ℕ) (dir more : Text)
      → pack_type src store_path d [] p ≡ ok (type, c ∷ dir, p₁)
      → f.path ≡ c ∷ dir ++ more
      → pack_files src store_path [] (d ∷ f ∷ fs) p ≡ pack_files src store_path [] (d ∷ fs) p
  unfolding pack_files is_skipped
  pack_files_drops store_path d f fs p p₁ type c dir more e ef =
      rw (e, skipped_step store_path c dir more f fs p₁ ef)
