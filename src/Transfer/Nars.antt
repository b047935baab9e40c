-- ===== src/Transfer/Nars.antt =====
-- Whole store paths on their way from the packer (internal/cmd/dnar-pack/dnar.go: writeDNAR) to the
-- unpacker (internal/cmd/dnar-unpack/write.go: writeNAR).
use deltanar.Base.{
  ℕ, suc, ◌≡◌, true, refl, sym, ap, ◌∙◌, Bool-cases, some, inl, inr, List, [], ◌∷◌, ok,
  store_path_not_found, >>=-eq-ok, ok-injective, of_option, get_elem?, if_true, if_false,
}
use mathlib.Core.Path.{subst}
use deltanar.Base.Text.{Text}
use deltanar.Store.{Hashing}
use deltanar.Database.{StoreFile, Db, IsEngine}
use deltanar.Database.Queries.{get_store_files}
use deltanar.Dnar.{FileType, NarFile, Nar}
use deltanar.Pack.LocalIndex.{new_local_index, lookup_id}
use deltanar.Pack.State.{Packing, new_packing, lookup_hash}
use deltanar.Pack.PathInfo.{PathInfos, lookup_info}
use deltanar.Pack.Files.{Source, pack_type, is_skipped, pack_files}
use deltanar.Pack.Dnar.{pack_store_path, pack_store_paths}
use deltanar.Pack.Kept.{Then-ok}
use deltanar.Pack.Kept.Files.{
  pack_type-Packs, pack_files-Packs, pack_store_path-Packs, pack_store_paths-Packs,
}
use deltanar.Pack.Votes.Best.{IsShuffle}
use deltanar.Unpack.Nar.Chunks.{Inputs}
use deltanar.Transfer.{Describes, IsSound, Extends, Receives}
use deltanar.Transfer.Sound.{IsSound-kept}
use deltanar.Transfer.Growth.{Extends-kept, same-Extends, Extends-trans}
use deltanar.Transfer.Steps.{Step, pack_type-Step}
use deltanar.Transfer.Faithful.{
  Rebuilds, said, copied, skipped, done, AreFaithful, get_store_files-row,
}

module _ (h : Hashing) (src : Source) (db : Db) (contents : ℕ → List ℕ)
    (d : Describes h src db contents) (lawful : IsEngine src.engine)
    (order : IsShuffle src.shuffle) where
  -- What is sound stays sound, and what was given an index keeps it.
  pack_type-IsSound :
      (s : Text) (f : StoreFile) (dir : Text) (p : Packing) (r : FileType × Text × Packing)
      → IsSound db contents p
      → pack_type src s f dir p ≡ ok r
      → IsSound db contents r.2
  pack_type-IsSound s f dir p r sound e =
      Then-ok (λ x. IsSound db contents x.2) _
        (pack_type-Packs src _ _ (IsSound-kept h src db contents d lawful) s f dir p sound) e

  pack_files-Extends :
      (s dir : Text) (fs : List StoreFile) (p : Packing) (r : List NarFile × Packing)
      → pack_files src s dir fs p ≡ ok r
      → Extends p r.1
  pack_files-Extends s dir fs p r e =
      Then-ok (λ x. Extends p x.1) _
        (pack_files-Packs src _ _ (Extends-kept src p) s dir fs p (same-Extends p)) e

  module _ (q : Packing) (inp : Inputs) (r : Receives src db contents q inp) where
    step-Rebuilds :
        (f : StoreFile) (dir dir' : Text) (t : FileType) (fs : List StoreFile) (nfs : List NarFile)
        → Step h src db contents d lawful order q inp r f dir (t, dir')
        → Rebuilds db contents q inp dir' fs nfs
        → Rebuilds db contents q inp dir (f ∷ fs) (record { path = f.path; file_type = t } ∷ nfs)
    step-Rebuilds f dir dir' t fs nfs (inl (here, same)) rest =
        said here (subst (λ x. Rebuilds db contents q inp x fs nfs) same rest)
    step-Rebuilds f dir dir' t fs nfs (inr (ty, here, same)) rest =
        copied ty here (subst (λ x. Rebuilds db contents q inp x fs nfs) same rest)

    skip-Rebuilds :
        (f : StoreFile) (dir : Text) (fs : List StoreFile) (nfs : List NarFile)
        → is_skipped src dir f ≡ true
        → Rebuilds db contents q inp dir fs nfs
        → Rebuilds db contents q inp dir (f ∷ fs) nfs
    unfolding is_skipped
    skip-Rebuilds f [] fs nfs z rest = cc
    skip-Rebuilds f (c ∷ dir) fs nfs z rest = skipped (λ e. cc) z rest

    pack_files-Rebuilds :
        (s dir : Text) (fs : List StoreFile) (p p' : Packing) (nfs : List NarFile)
        → IsSound db contents p
        → ((j : ℕ) (f : StoreFile)
            → get_elem? fs j ≡ some f
            → (i : ℕ) × (get_elem? (get_store_files db s) i ≡ some f))
        → pack_files src s dir fs p ≡ ok (nfs, p')
        → Extends p' q
        → Rebuilds db contents q inp dir fs nfs
    unfolding pack_files
    pack_files-Rebuilds s dir [] p p' nfs sound rows e grows =
        let same : [] ≡ nfs = ap (λ x. x.0) (ok-injective e) in
        subst (λ x. Rebuilds db contents q inp dir [] x) same done
    pack_files-Rebuilds s dir (f ∷ fs) p p' nfs sound rows e grows =
        elim (Bool-cases (is_skipped src dir f)) [
          | inl z ↦
              let e' = sym (if_true (is_skipped src dir f) _ _ z) ∙ e in
              skip-Rebuilds f dir fs nfs z
                (pack_files-Rebuilds s dir fs p p' nfs sound (λ j g k. rows (suc j) g k) e' grows)
          | inr z ↦
              let e' = sym (if_false (is_skipped src dir f) _ _ z) ∙ e in
              let ((t, dir', p₁), e₁, k₁) = >>=-eq-ok (pack_type src s f dir p) _ e' in
              let ((files, p₂), e₂, k₂) = >>=-eq-ok (pack_files src s dir' fs p₁) _ k₁ in
              let same = ap (λ x. x.0) (ok-injective k₂) in
              let last : p₂ ≡ p' = ap (λ x. x.1) (ok-injective k₂) in
              let grows₂ : Extends p₂ q = rw last grows in
              let s₁ = pack_type-IsSound s f dir p (t, dir', p₁) sound e₁ in
              let grows₁ =
                Extends-trans p₁ p₂ q (pack_files-Extends s dir' fs p₁ (files, p₂) e₂) grows₂ in
              let (i, row) = rows 0 f refl in
              let (j, g, sp, ep, path) = get_store_files-row db s i f row in
              let here =
                pack_type-Step h src db contents d lawful order q inp r f sp j dir dir' p p₁ t sound
                  g ep (ap (λ x. pack_type src x f dir p) path ∙ e₁) grows₁ in
              let rest =
                pack_files-Rebuilds s dir' fs p₁ p₂ files s₁ (λ j g k. rows (suc j) g k) e₂
                  grows₂ in
              subst (λ x. Rebuilds db contents q inp dir (f ∷ fs) x) same
                (step-Rebuilds f dir dir' t fs files here rest)
        ]

    pack_store_paths-AreFaithful :
        (infos : PathInfos) (ss : List Text) (p p' : Packing) (nars : List Nar)
        → IsSound db contents p
        → pack_store_paths src db infos ss p ≡ ok (nars, p')
        → Extends p' q
        → AreFaithful db contents q inp nars
    unfolding pack_store_paths pack_store_path
    pack_store_paths-AreFaithful infos [] p p' nars sound e grows =
        let same : [] ≡ nars = ap (λ x. x.0) (ok-injective e) in rw (← same) tt
    pack_store_paths-AreFaithful infos (s ∷ ss) p p' nars sound e grows =
        let ((nar, p₁), e₁, k₁) = >>=-eq-ok (pack_store_path src db infos s p) _ e in
        let ((rest, p₂), e₂, k₂) = >>=-eq-ok (pack_store_paths src db infos ss p₁) _ k₁ in
        let (info, _, l₁) = >>=-eq-ok (of_option store_path_not_found (lookup_info s infos)) _ e₁ in
        let ((files, p₃), e₃, l₂) = >>=-eq-ok (pack_files src s [] (get_store_files db s) p) _ l₁ in
        let same = ap (λ x. x.0) (ok-injective k₂) in
        let last : p₂ ≡ p' = ap (λ x. x.1) (ok-injective k₂) in
        let grows₂ : Extends p₂ q = rw last grows in
        let mid : p₃ ≡ p₁ = ap (λ x. x.1) (ok-injective l₂) in
        let described = ap (λ x. x.0) (ok-injective l₂) in
        let s₁ =
          Then-ok (λ x. IsSound db contents x.1) _
            (pack_store_path-Packs src _ _ (IsSound-kept h src db contents d lawful) db infos s p
              sound)
            e₁ in
        let grows₁ =
          Then-ok (λ x. Extends p₁ x.1) _
            (pack_store_paths-Packs src _ _ (Extends-kept src p₁) db infos ss p₁ (same-Extends p₁))
            e₂ in
        let here =
          pack_files-Rebuilds s [] (get_store_files db s) p p₃ files sound (λ j f k. (j, k)) e₃
            (rw mid (Extends-trans p₁ p₂ q grows₁ grows₂)) in
        let behind = pack_store_paths-AreFaithful infos ss p₁ p₂ rest s₁ e₂ grows₂ in
        subst (λ x. AreFaithful db contents q inp x) same
          (
            subst (λ x. Rebuilds db contents q inp [] (get_store_files db x.path) x.files) described
                here,
            behind,
          )

start-IsSound :
    (db : Db) (contents : ℕ → List ℕ) (local_paths : List Text)
    → IsSound db contents (new_packing (new_local_index db local_paths))
unfolding new_local_index lookup_id lookup_hash
start-IsSound db contents local_paths = record {
  same_db = refl;
  cached = λ id f e. cc;
  has_index = λ id ix e e'. cc;
  indexed = record { chunks = λ hash e. cc; files = λ id e. cc };
  has_rows = λ i c e. cc;
}

pub pack_store_paths-rebuilds :
    (h : Hashing) (src : Source) (db : Db) (contents : ℕ → List ℕ) (infos : PathInfos)
    (local_paths ss : List Text) (q : Packing) (nars : List Nar) (inp : Inputs)
    → Describes h src db contents
    → IsEngine src.engine
    → IsShuffle src.shuffle
    → pack_store_paths src db infos ss (new_packing (new_local_index db local_paths)) ≡ ok (nars, q)
    → Receives src db contents q inp
    → AreFaithful db contents q inp nars
pack_store_paths-rebuilds h src db contents infos local_paths ss q nars inp d lawful order e r =
    pack_store_paths-AreFaithful h src db contents d lawful order q inp r infos ss
      (new_packing (new_local_index db local_paths)) q nars (start-IsSound db contents local_paths)
      e (same-Extends q)
