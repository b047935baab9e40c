-- ===== src/Pack/Index/Consistency.antt =====
-- Indexing (internal/cmd/dnar-pack/index.go) keeps the tables consistent.
use deltanar.Base.{
  ℕ, ◌≡◌, refl, ap, ◌∙◌, List, [], ◌∷◌, some, Result, ok, ok-injective, >>=-eq-ok, ◌==◌,
}
use mathlib.Core.Path.{subst}
use deltanar.Base.Text.{Text}
use deltanar.Store.{FileChunk}
use deltanar.Store.Tree.{StoreFile}
use deltanar.Database.{StorePath, Db}
use deltanar.Database.Queries.{first, insert_chunk, create_store_file, create_store_path}
use deltanar.Database.Consistency.{
  IsConsistent, create_store_path-IsConsistent, create_store_file-IsConsistent,
  insert_chunk-IsConsistent,
}
use deltanar.Pack.Index.{
  new_requisites, read_paths, insert_chunks, insert_files, file_params, insert_paths, index_paths,
}

insert_chunks-IsConsistent :
    (id : ℕ) (cs : List FileChunk) (db : Db) (f : deltanar.Database.StoreFile)
    → IsConsistent db
    → first (λ g. g.id == id) db.files ≡ some f
    → IsConsistent (insert_chunks id cs db) × ((insert_chunks id cs db).paths ≡ db.paths)
unfolding insert_chunks insert_chunk
insert_chunks-IsConsistent id [] db f c owner = (c, refl)
insert_chunks-IsConsistent id (k ∷ ks) db f c owner =
    insert_chunks-IsConsistent id ks _ f (insert_chunk-IsConsistent db _ f c owner) owner

insert_files-IsConsistent :
    (id : ℕ) (fs : List StoreFile) (db db' : Db) (p : StorePath)
    → IsConsistent db
    → first (λ q. q.id == id) db.paths ≡ some p
    → insert_files id fs db ≡ ok db'
    → IsConsistent db'
unfolding insert_files
insert_files-IsConsistent id [] db db' p c owner h = subst IsConsistent (ok-injective h) c
insert_files-IsConsistent id (f ∷ fs) db db' p c owner h =
    let ((db₁, row), e, k) = >>=-eq-ok (create_store_file db (file_params id f)) _ h in
    let (c₁, here, same) = create_store_file-IsConsistent db db₁ _ row p c owner e in
    let (c₂, kept) = insert_chunks-IsConsistent row.id f.chunks db₁ row c₁ here in
    insert_files-IsConsistent id fs _ db' p c₂
      (ap (λ l. first (λ q. q.id == id) l) (kept ∙ same) ∙ owner) k

insert_paths-IsConsistent :
    (paths : List Text) (files : List (List StoreFile)) (db db' : Db)
    → IsConsistent db
    → insert_paths paths files db ≡ ok db'
    → IsConsistent db'
unfolding insert_paths
insert_paths-IsConsistent [] files db db' c h = subst IsConsistent (ok-injective h) c
insert_paths-IsConsistent (path ∷ paths) [] db db' c h = cc
insert_paths-IsConsistent (path ∷ paths) (fs ∷ files) db db' c h =
    let ((db₁, row), e₁, h₁) = >>=-eq-ok (create_store_path db path) _ h in
    let (db₂, e₂, h₂) = >>=-eq-ok (insert_files row.id fs db₁) _ h₁ in
    let (c₁, here) = create_store_path-IsConsistent db db₁ path row c e₁ in
    insert_paths-IsConsistent paths files db₂ db'
      (insert_files-IsConsistent row.id fs db₁ db₂ row c₁ here e₂) h₂

-- Indexing keeps the tables consistent. In each the ids are unique and at most the last one that was
-- given; no two store paths have the same path, and no two files of a store path; a file's type is 0, 1 or
-- 2; and every file is of a store path that is there, every chunk of a file that is there. An `indexPaths`
-- that succeeds on such tables leaves such tables.
pub index_paths-IsConsistent :
    (read : Text → Result (List StoreFile)) (requisites : Result (List Text)) (db db' : Db)
    → IsConsistent db
    → index_paths read requisites db ≡ ok db'
    → IsConsistent db'
unfolding index_paths
index_paths-IsConsistent read requisites db db' c h =
    let (paths, _, h₁) = >>=-eq-ok requisites _ h in
    let (news, _, h₂) = >>=-eq-ok (new_requisites db paths) _ h₁ in
    let (files, _, h₃) = >>=-eq-ok (read_paths read news) _ h₂ in
    insert_paths-IsConsistent news files db db' c h₃
