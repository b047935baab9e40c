-- ===== src/Pack/Index/Laws.antt =====
-- After `indexPaths` every requisite is indexed, and indexing again changes nothing.
use deltanar.Base.{
  ℕ, ◌+◌, ◌≡◌, refl, sym, ap, ◌∙◌, List, [], ◌∷◌, ◌++◌, Result, ok, err, panic, stuck, no_rows,
  of_option-eq-ok, >>=-eq-ok, ok-injective, All,
}
use mathlib.Core.Path.{subst}
use deltanar.Base.Text.{Text, text_eq, text_eq_iff}
use deltanar.Store.{FileChunk}
use deltanar.Store.Tree.{StoreFile}
use deltanar.Database.{StorePath, Db}
use deltanar.Database.Queries.{
  create_store_path, create_store_file, CreateStoreFileParams, insert_chunk, get_store_path,
}
use deltanar.Database.Rows.{unless_found-ok, first-append, first-snoc}
use deltanar.Pack.Index.{
  keep_new, new_requisites, read_paths, insert_chunks, insert_files, file_params, insert_paths,
  index_paths,
}

-- A row for this path is in the database.
abbrev pub IsIndexed : Db → Text → Type 0
IsIndexed db path = (p : StorePath) × (get_store_path db path ≡ ok p)

insert_chunks-paths :
    (id : ℕ) (cs : List FileChunk) (db : Db) → (insert_chunks id cs db).paths ≡ db.paths
unfolding insert_chunks insert_chunk
insert_chunks-paths id [] db = refl
insert_chunks-paths id (c ∷ cs) db = insert_chunks-paths id cs _

create_store_file-paths :
    (db : Db) (arg : CreateStoreFileParams) {db' : Db} {row : deltanar.Database.StoreFile}
    → create_store_file db arg ≡ ok (db', row)
    → db'.paths ≡ db.paths
unfolding create_store_file
create_store_file-paths db arg h =
    let (_, _, e) = unless_found-ok _ _ _ h in sym (ap (λ r. r.0.paths) e)

insert_files-paths :
    (id : ℕ) (fs : List StoreFile) (db db' : Db)
    → insert_files id fs db ≡ ok db'
    → db'.paths ≡ db.paths
unfolding insert_files
insert_files-paths id [] db db' h = sym (ap (λ d. d.paths) (ok-injective h))
insert_files-paths id (f ∷ fs) db db' h =
    let ((db₁, row), e, k) = >>=-eq-ok (create_store_file db (file_params id f)) _ h in
    insert_files-paths id fs (insert_chunks row.id f.chunks db₁) db' k
    ∙ (insert_chunks-paths row.id f.chunks db₁ ∙ create_store_file-paths db (file_params id f) e)

-- One new path: it is indexed then, and what was indexed stays so.
create_store_path-IsIndexed :
    (db db' : Db) (path : Text) (row : StorePath)
    → create_store_path db path ≡ ok (db', row)
    → IsIndexed db' path × ((q : Text) → IsIndexed db q → IsIndexed db' q)
unfolding create_store_path get_store_path
create_store_path-IsIndexed db db' path row h =
    let (absent, _, e) = unless_found-ok _ _ _ h in
    let new : StorePath = record { id = db.last_path + 1; path = path } in
    let ep : db.paths ++ (new ∷ []) ≡ db'.paths = ap (λ r. r.0.paths) e in
    let here =
      first-snoc (λ p. text_eq p.path path) db.paths new absent ((text_eq_iff path path).1 refl) in
    (
      (new, rw⁻¹ ep (rw here refl)),
      λ q (p, k). (
        p,
        rw⁻¹ ep (
            rw
              (first-append (λ p. text_eq p.path q) db.paths (new ∷ [])
                (of_option-eq-ok no_rows _ k))
              refl),
      ),
    )

same-IsIndexed :
    (db db' : Db) → db'.paths ≡ db.paths → (q : Text) → IsIndexed db q → IsIndexed db' q
unfolding get_store_path
same-IsIndexed db db' e q (p, k) = (p, rw e k)

insert_paths-IsIndexed :
    (paths : List Text) (files : List (List StoreFile)) (db db' : Db)
    → insert_paths paths files db ≡ ok db'
    → All (IsIndexed db') paths × ((q : Text) → IsIndexed db q → IsIndexed db' q)
unfolding insert_paths
insert_paths-IsIndexed [] files db db' h =
    (tt, same-IsIndexed db db' (sym (ap (λ d. d.paths) (ok-injective h))))
insert_paths-IsIndexed (path ∷ paths) [] db db' h = cc
insert_paths-IsIndexed (path ∷ paths) (fs ∷ files) db db' h =
    let ((db₁, row), e₁, h₁) = >>=-eq-ok (create_store_path db path) _ h in
    let (db₂, e₂, h₂) = >>=-eq-ok (insert_files row.id fs db₁) _ h₁ in
    let (here, keep₁) = create_store_path-IsIndexed db db₁ path row e₁ in
    let keep₂ = same-IsIndexed db₁ db₂ (insert_files-paths row.id fs db₁ db₂ e₂) in
    let (rest, keep₃) = insert_paths-IsIndexed paths files db₂ db' h₂ in
    ((keep₃ path (keep₂ path here), rest), λ q k. keep₃ q (keep₂ q (keep₁ q k)))

keep_new-All :
    (P : Text → Type 0) (path : Text) (r : Result StorePath) (rest : Result (List Text))
    (news : List Text)
    → keep_new path r rest ≡ ok news
    → All P news
    → ((p : StorePath) → r ≡ ok p → P path)
    → P path × (more : List Text) × (rest ≡ ok more) × All P more
keep_new-All P path (ok p) rest news h a k = (k p refl, news, h, a)
keep_new-All P path (err no_rows) rest news h a k =
    let (more, e, eq) = >>=-eq-ok rest _ h in
    let split = subst (λ l. All P l) (sym (ok-injective eq)) a in (split.0, more, e, split.1)
keep_new-All P path panic rest news h a k = cc
keep_new-All P path stuck rest news h a k = cc
keep_new-All P path (err e) rest news h a k = cc

new_requisites-All :
    (db db' : Db) (paths news : List Text)
    → new_requisites db paths ≡ ok news
    → ((q : Text) → IsIndexed db q → IsIndexed db' q)
    → All (IsIndexed db') news
    → All (IsIndexed db') paths
unfolding new_requisites
new_requisites-All db db' [] news h keep a = tt
new_requisites-All db db' (path ∷ paths) news h keep a =
    let (here, more, e, b) =
      keep_new-All (IsIndexed db') path (get_store_path db path) (new_requisites db paths) news h a
        (λ p k. keep path (p, k)) in
    (here, new_requisites-All db db' paths more e keep b)

new_requisites-none :
    (db : Db) (paths : List Text) → All (IsIndexed db) paths → new_requisites db paths ≡ ok []
unfolding new_requisites
new_requisites-none db [] a = refl
new_requisites-none db (path ∷ paths) ((p, e), a) = rw e (new_requisites-none db paths a)

module _ (read : Text → Result (List StoreFile)) where
  -- Where `indexPaths` succeeds, every requisite is in the database then, and every path that was there
  -- still is.
  pub index_paths-IsIndexed :
      (requisites : Result (List Text)) (db db' : Db)
      → index_paths read requisites db ≡ ok db'
      → (paths : List Text) × (requisites ≡ ok paths)
        × All (IsIndexed db') paths
        × ((q : Text) → IsIndexed db q → IsIndexed db' q)
  unfolding index_paths
  index_paths-IsIndexed requisites db db' h =
      let (paths, e, h₁) = >>=-eq-ok requisites _ h in
      let (news, en, h₂) = >>=-eq-ok (new_requisites db paths) _ h₁ in
      let (files, _, h₃) = >>=-eq-ok (read_paths read news) _ h₂ in
      let (a, keep) = insert_paths-IsIndexed news files db db' h₃ in
      (paths, e, new_requisites-All db db' paths news en keep a, keep)

  -- After an `indexPaths` that succeeded, indexing the same requisites once more leaves the database as it
  -- is, whatever reading a path would give.
  pub index_paths-again :
      (requisites : Result (List Text)) (db db' : Db)
      → index_paths read requisites db ≡ ok db'
      → (read' : Text → Result (List StoreFile)) → index_paths read' requisites db' ≡ ok db'
  unfolding index_paths read_paths insert_paths
  index_paths-again requisites db db' h read' =
      let (paths, e, a, _) = index_paths-IsIndexed requisites db db' h in
      rw (e, new_requisites-none db' paths a)
