-- ===== src/Transfer/Steps.antt =====
-- A file on its way from the packer (internal/cmd/dnar-pack/dnar.go: writeDNAR) to the unpacker
-- (internal/cmd/dnar-unpack/write.go: writeNAR).
use deltanar.Base.{
  ℕ, ◌≡◌, ◌⊎◌, refl, sym, ap, ◌∙◌, Bool-cases, Option, none, some, inl, inr, List, ok, >>=-eq-ok,
  ok-injective, get_elem?, ◌==◌, ==_iff, if_true, if_false,
}
use mathlib.Core.Path.{subst}
use deltanar.Base.Text.{Text}
use deltanar.Store.{Hashing}
use deltanar.Database.{StorePath, StoreFile, Db, IsEngine}
use deltanar.Database.Queries.{get_store_path_by_id}
use deltanar.Dnar.{ChunkDescriptor, FileType, regular, symlink}
use deltanar.Pack.LocalIndex.{file_by_hash}
use deltanar.Pack.State.{Packing, add_input_store_file}
use deltanar.Pack.Files.{Source, wire_bytes, pack_regular, pack_directory, pack_type}
use deltanar.Pack.Indices.{add_input_store_file-AreIndexed}
use deltanar.Pack.Votes.Best.{IsShuffle}
use deltanar.Unpack.Nar.Chunks.{Inputs}
use deltanar.Transfer.{Describes, IsSound, Extends, Receives}
use deltanar.Transfer.Regular.{file_by_hash-row, pack_regular-Delivers, Delivers}
use deltanar.Transfer.Faithful.{IsSaid, IsCopied}

module _ (h : Hashing) (src : Source) (db : Db) (contents : ℕ → List ℕ)
    (d : Describes h src db contents) (lawful : IsEngine src.engine) (order : IsShuffle src.shuffle)
    (q : Packing) (inp : Inputs) (r : Receives src db contents q inp) where
  -- A file, and the directory that was copied last, before and behind it.
  abbrev pub Step : StoreFile → Text → FileType × Text → Type 0
  Step f dir (t, dir') =
      (IsSaid db contents q inp f t × (dir' ≡ dir))
      ⊎ ((f.type ≡ 1) × IsCopied db contents q inp f t × (dir' ≡ f.path))

  regular-Step :
      (f : StoreFile) (dir : Text) (t : FileType) (cs : List ChunkDescriptor)
      → f.type ≡ 0
      → t ≡ regular (record { size = f.size; chunks = cs; executable = f.executable })
      → Delivers inp cs (contents f.id)
      → Step f dir (t, dir)
  regular-Step f dir t cs kind e (pieces, written, whole) =
      inl (inl (kind, (pieces, rw (e, written), whole)), refl)

  directory-Step :
      (f : StoreFile) (dir : Text) (o : Option StoreFile) (p : Packing)
      → IsSound db contents p
      → f.type ≡ 1
      → file_by_hash src.engine p.li f.hash ≡ ok o
      → Extends (pack_directory src f dir o p).2 q
      → Step f dir ((pack_directory src f dir o p).0, (pack_directory src f dir o p).1)
  unfolding pack_directory
  directory-Step f dir none p s ty e grows = inl (inr (inl (ty, refl)), refl)
  directory-Step f dir (some g) p s ty e grows =
      let (j, stored, same) = file_by_hash-row src.engine p.li f.hash g lawful e in
      let (_, (g', place, id)) = add_input_store_file-AreIndexed g p s.indexed in
      let i = (add_input_store_file g p).0 in
      let here = grows.files i g' place in
      let (path, eg) = r.target.finds i g' here in
      inr (
        ty,
        record {
          row = j;
          local_dir = g;
          stored = rw s.same_db at stored;
          same_hash = same;
          index = i;
          input = g';
          is_input = here;
          same_id = id;
          path = path;
          is_path = eg;
          copies = rw eg;
        },
        refl,
      )

  pub pack_type-Step :
      (f : StoreFile) (sp : StorePath) (i : ℕ) (dir dir' : Text) (p p' : Packing) (t : FileType)
      → IsSound db contents p
      → get_elem? db.files i ≡ some f
      → get_store_path_by_id db f.store_path_id ≡ ok sp
      → pack_type src sp.path f dir p ≡ ok (t, dir', p')
      → Extends p' q
      → Step f dir (t, dir')
  unfolding pack_type
  pack_type-Step f sp i dir dir' p p' t s g ep e grows = elim (Bool-cases (f.type == 0)) [
    | inl z ↦
        let e' = sym (if_true (f.type == 0) _ _ z) ∙ e in
        let ((t₁, p₁), e₁, k₁) = >>=-eq-ok (pack_regular src sp.path f p) _ e' in
        let same : t₁ ≡ t = ap (λ x. x.0) (ok-injective k₁) in
        let last : p₁ ≡ p' = ap (λ x. x.2) (ok-injective k₁) in
        let kind = (==_iff f.type 0).0 z in
        let (cs, et, whole) =
          pack_regular-Delivers h src db contents d lawful order q inp r f sp i p p₁ t₁ s g kind ep
            e₁ (rw last grows) in
        let stay : dir ≡ dir' = ap (λ x. x.1) (ok-injective k₁) in
        subst (λ x. Step f dir (t, x)) stay (regular-Step f dir t cs kind (sym same ∙ et) whole)
    | inr z ↦
        let e' = sym (if_false (f.type == 0) _ _ z) ∙ e in
        elim (Bool-cases (f.type == 1)) [
          | inl z₁ ↦
              let e₁ = sym (if_true (f.type == 1) _ _ z₁) ∙ e' in
              let (o, eo, k) = >>=-eq-ok (file_by_hash src.engine p.li f.hash) _ e₁ in
              let same = ap (λ x. (x.0, x.1)) (ok-injective k) in
              let last = ap (λ x. x.2) (ok-injective k) in
              subst (λ x. Step f dir x) same
                (directory-Step f dir o p s ((==_iff f.type 1).0 z₁) eo (rw last grows))
          | inr z₁ ↦
              let e₁ = sym (if_false (f.type == 1) _ _ z₁) ∙ e' in
              elim (Bool-cases (f.type == 2)) [
                | inl z₂ ↦
                    let e₂ = sym (if_true (f.type == 2) _ _ z₂) ∙ e₁ in
                    let same : symlink (wire_bytes f.link_target) ≡ t =
                      ap (λ x. x.0) (ok-injective e₂) in
                    let stay : dir ≡ dir' = ap (λ x. x.1) (ok-injective e₂) in
                    inl (inr (inr ((==_iff f.type 2).0 z₂, rw (← same))), sym stay)
                | inr z₂ ↦ let e₂ = sym (if_false (f.type == 2) _ _ z₂) ∙ e₁ in cc
              ]
        ]
  ]
