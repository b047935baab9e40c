-- ===== src/Unpack/BinaryCache/Laws.antt =====
-- A NAR of the binary cache and what is said of it (internal/cmd/dnar-unpack/binary-cache.go).
use deltanar.Base.{
  ℕ, ◌≡◌, refl, sym, ap, ◌∙◌, List, [], ◌∷◌, ◌++◌, ok, library, >>=-eq-ok, ok-injective,
  fail_if-eq-ok,
}
use mathlib.Core.List.{append_assoc}
use deltanar.Base.Text.{Text, bytes, filepath_base}
use deltanar.Base.Slices.{slice}
use deltanar.Base.Writer.{buffer}
use deltanar.Dnar.{Nar}
use deltanar.Unpack.Nar.{write_nar}
use deltanar.Unpack.Nar.Sink.{NarWriter}
use deltanar.Unpack.Nar.Chunks.{Inputs}
use deltanar.Unpack.Nar.Walk.{join_path}
use deltanar.Unpack.Nar.Trace.{nar_trace}
use deltanar.Unpack.ExportMain.{NarEncoding, write_nar-contents}
use deltanar.Unpack.BinaryCache.{
  CacheFs, File, line, join_dir, create_nar, write_nar_info, cache_nars,
}

module _ (fs : CacheFs) (dir : Text) (nw : NarWriter (List ℕ)) (enc : NarEncoding buffer nw)
    (inp : Inputs) where
  -- A NAR and its information: the URL leads from the cache's directory to the NAR, whose bytes encode the
  -- description.
  pub record IsCachedNar (nar : Nar) (f info : File) : Type 0 where
    pub url : Text
    pub rest : Text
    pub encodes : f.content ≡ enc.encode (nar_trace inp nar.files).calls
    pub leads : f.path ≡ join_dir dir url
    pub names : info.content ≡ line (bytes "StorePath") nar.path ++ (line (bytes "URL") url ++ rest)

  -- Each NAR's file and its information stand behind one another.
  abbrev pub AreCached : List Nar → List File → Type 0
  AreCached [] [] = Unit
  AreCached (nar ∷ nars) (f ∷ info ∷ files) = IsCachedNar nar f info × AreCached nars files
  AreCached _ _ = ⊥

  join_dir-url :
      (dir name : Text)
      → join_path (join_dir dir (bytes "nar")) name ≡ join_dir dir (join_path (bytes "nar") name)
  join_dir-url [] name = refl
  join_dir-url (c ∷ d) name = append_assoc (c ∷ d) (b'/' ∷ bytes "nar") (b'/' ∷ name)

  create_nar-path :
      (store_path path : Text)
      → create_nar fs dir store_path ≡ ok path
      → path ≡ join_dir dir (join_path (bytes "nar") (filepath_base store_path ++ bytes ".nar"))
  unfolding create_nar
  create_nar-path store_path path h =
      let (_, e) = fail_if-eq-ok _ library _ h in
      sym (ok-injective e) ∙ join_dir-url dir (filepath_base store_path ++ bytes ".nar")

  write_nar_info-url :
      (nar : Nar) (info : File)
      → write_nar_info fs dir nar ≡ ok info
      → (rest : Text) × (info.content
          ≡ line (bytes "StorePath") nar.path
            ++ (line
                  (bytes "URL")
                  (join_path (bytes "nar") (filepath_base nar.path ++ bytes ".nar"))
                ++ rest))
  unfolding write_nar_info
  write_nar_info-url nar info h =
      let (hash, _, k) = >>=-eq-ok (slice (filepath_base nar.path) 0 32) _ h in
      let (_, e) = fail_if-eq-ok _ library _ k in (_, ap (λ f. f.content) (sym (ok-injective e)))

  -- For a NAR writer that puts out an encoding of its calls: if the loop over the NARs ends without an
  -- error, each NAR has a file and behind it its information. The file holds the encoding of the calls
  -- that the description stands for, and the URL of the information, joined to the cache's directory, is
  -- the path of that file.
  pub cache_nars-AreCached :
      (nars : List Nar) (files : List File)
      → cache_nars fs dir nw inp nars ≡ ok files
      → AreCached nars files
  unfolding cache_nars
  cache_nars-AreCached [] files h = let e = ok-injective h in rw (← e) tt
  cache_nars-AreCached (nar ∷ nars) files h =
      let (path, e₁, h₁) = >>=-eq-ok (create_nar fs dir nar.path) _ h in
      let (content, e₂, h₂) = >>=-eq-ok (write_nar nw inp nar []) _ h₁ in
      let (info, e₃, h₃) = >>=-eq-ok (write_nar_info fs dir nar) _ h₂ in
      let (rest, e₄, h₄) = >>=-eq-ok (cache_nars fs dir nw inp nars) _ h₃ in
      let (behind, named) = write_nar_info-url nar info e₃ in
      let same = ok-injective h₄ in
      rw (← same) (
        record {
          url = join_path (bytes "nar") (filepath_base nar.path ++ bytes ".nar");
          rest = behind;
          encodes = write_nar-contents buffer nw enc inp [] nar [] content e₂;
          leads = create_nar-path nar.path path e₁;
          names = named;
        },
        cache_nars-AreCached nars rest e₄,
      )
