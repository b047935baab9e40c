-- ===== src/Transfer/Faithful.antt =====
-- What the unpacker says to the NAR writer for a described file (internal/cmd/dnar-unpack/write.go), against
-- the row of the packing host's database (internal/cmd/dnar-pack/dnar.go).
use deltanar.Base.{
  ℕ, ◌≡◌, ◌≢◌, sym, true, Bool-cases, Option-cases, some, inl, inr, ◌⊎◌, List, [], ◌∷◌, ok, concat,
  get_elem?, All, ◌==◌,
}
use deltanar.Base.Int.{int_of_u64}
use deltanar.Base.Text.{Text, text_eq, text_eq_iff, has_prefix}
use deltanar.Database.{StorePath, StoreFile, Db}
use deltanar.Database.Queries.{
  first, any_text, path_of_id, is_local, hash_eq, get_store_files, get_store_path_by_id,
}
use deltanar.Database.Matching.{select-get}
use deltanar.Dnar.{FileType, NarFile, Nar}
use deltanar.Pack.State.{Packing}
use deltanar.Pack.Files.{wire_bytes}
use deltanar.Unpack.Nar.Walk.{file_header, dir_header, link_header}
use deltanar.Unpack.Nar.Chunks.{Inputs}
use deltanar.Unpack.Nar.Trace.{header, call, root_trace, file_trace, ◌⨾◌}
use deltanar.Transfer.Chunks.{writes}

module _ (db : Db) (contents : ℕ → List ℕ) (q : Packing) (inp : Inputs) where
  -- A directory that is copied from a directory of the target with the same hash.
  pub record IsCopied (f : StoreFile) (t : FileType) : Type 0 where
    pub row : ℕ
    pub local_dir : StoreFile
    pub stored : get_elem? db.files row ≡ some local_dir
    pub same_hash : hash_eq local_dir.hash f.hash ≡ true
    pub index : ℕ
    pub input : StoreFile
    pub is_input : get_elem? q.input_files index ≡ some input
    pub same_id : input.id ≡ local_dir.id
    pub path : Text
    pub is_path : get_elem? inp.files index ≡ some path
    pub copies : file_trace inp t f.path ≡ root_trace inp.host f.path path (inp.host.lstat path)

  -- What the unpacker says to the NAR writer for a described file is what its row stands for: a regular file
  -- with its content, an empty directory, or a symlink.
  abbrev pub IsSaid : StoreFile → FileType → Type 0
  IsSaid f t =
      ((f.type ≡ 0)
        × ((pieces : List (List ℕ)) × (file_trace inp t f.path
              ≡ call (header (file_header f.path (int_of_u64 f.size) f.executable)) ⨾ writes pieces)
            × (concat pieces ≡ contents f.id)))
      ⊎ (((f.type ≡ 1) × (file_trace inp t f.path ≡ call (header (dir_header f.path))))
          ⊎ ((f.type ≡ 2)
              × (file_trace inp t f.path
                  ≡ call (header (link_header f.path (wire_bytes f.link_target))))))

  -- The files of a store path, one after the other, behind the directory that was copied last: each is said
  -- itself, or is a directory that is copied, or has a path that begins with the copied one's.
  pub data Rebuilds : Text → List StoreFile → List NarFile → Type 0 where
    done : {dir : Text} → Rebuilds dir [] []
    said :
        {dir : Text} {f : StoreFile} {t : FileType} {fs : List StoreFile} {nfs : List NarFile}
        → IsSaid f t
        → Rebuilds dir fs nfs
        → Rebuilds dir (f ∷ fs) (record { path = f.path; file_type = t } ∷ nfs)
    copied :
        {dir : Text} {f : StoreFile} {t : FileType} {fs : List StoreFile} {nfs : List NarFile}
        → f.type ≡ 1
        → IsCopied f t
        → Rebuilds f.path fs nfs
        → Rebuilds dir (f ∷ fs) (record { path = f.path; file_type = t } ∷ nfs)
    skipped :
        {dir : Text} {f : StoreFile} {fs : List StoreFile} {nfs : List NarFile}
        → dir ≢ []
        → has_prefix f.path dir ≡ true
        → Rebuilds dir fs nfs
        → Rebuilds dir (f ∷ fs) nfs

  -- Each NAR rebuilds the files of its store path.
  abbrev pub AreFaithful : List Nar → Type 0
  AreFaithful = All (λ nar. Rebuilds [] (get_store_files db nar.path) nar.files)

any_text-one : (t s : Text) → any_text t (s ∷ []) ≡ true → s ≡ t
unfolding any_text
any_text-one t s h = elim (Bool-cases (text_eq s t)) [
  | inl e ↦ (text_eq_iff s t).0 e
  | inr e ↦ let k = rw e at h in cc
]

-- A file of a store path is a row whose store path has this path.
pub get_store_files-row :
    (db : Db) (s : Text) (i : ℕ) (f : StoreFile)
    → get_elem? (get_store_files db s) i ≡ some f
    → (j : ℕ) × (get_elem? db.files j ≡ some f)
      × (sp : StorePath) × (get_store_path_by_id db f.store_path_id ≡ ok sp)
      × (sp.path ≡ s)
unfolding get_store_files is_local path_of_id get_store_path_by_id
get_store_files-row db s i f h =
    let (t, j, e) = select-get (is_local db (s ∷ [])) db.files i h in
    elim (Option-cases (first (λ p. p.id == f.store_path_id) db.paths)) [
      | inl n ↦ let k = rw (is_local, path_of_id, n) at t in cc
      | inr (sp, found) ↦
          let k = rw (is_local, path_of_id, found) at t in
          (j, e, sp, rw found, sym (any_text-one sp.path s k))
    ]
