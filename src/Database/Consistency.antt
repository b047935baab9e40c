-- ===== src/Database/Consistency.antt =====
-- What the tables keep true while rows are put in (internal/database/query.sql.go and the schema).
use deltanar.Base.{
  ℕ, ◌+◌, ◌≤◌, ◌≡◌, refl, List, [], ◌∷◌, ◌++◌, some, ok, All, All-append, ◌==◌, ==_iff, ◌&&◌, arith,
}
use mathlib.Core.Path.{subst}
use deltanar.Base.Text.{Text, text_eq, text_eq_iff}
use deltanar.Database.{StorePath, StoreFile, Chunk, Db}
use deltanar.Database.Queries.{
  first, create_store_path, create_store_file, insert_chunk, CreateStoreFileParams,
  InsertChunkParams,
}
use deltanar.Database.Rows.{
  unless_found-ok, first-append, first-snoc, first-none, All-mono, IsKeyed, snoc-IsKeyed,
}

-- The ids of the rows are at most the last that was given, and each row is found by its id.
pub record AreNumbered {A : Type 0} (id : A → ℕ) (rows : List A) (last : ℕ) : Type 0 where
  pub bounded : All (λ x. id x ≤ last) rows
  pub found : IsKeyed (λ x y. id y == id x) rows

-- Ids and paths are unique, a file belongs to a store path, a chunk to a file, and the types are those of
-- the schema.
pub record IsConsistent (db : Db) : Type 0 where
  pub path_ids : AreNumbered (λ p. p.id) db.paths db.last_path
  pub file_ids : AreNumbered (λ f. f.id) db.files db.last_file
  pub chunk_ids : AreNumbered (λ c. c.id) db.chunks db.last_chunk
  pub path_names : IsKeyed (λ p q. text_eq q.path p.path) db.paths
  pub file_names :
      IsKeyed (λ f g. g.store_path_id == f.store_path_id && text_eq g.path f.path) db.files
  pub file_types : All (λ f. f.type ≤ 2) db.files
  pub paths_of :
      All (λ f. (p : StorePath) × (first (λ q. q.id == f.store_path_id) db.paths ≡ some p)) db.files
  pub files_of :
      All (λ c. (f : StoreFile) × (first (λ g. g.id == c.file_id) db.files ≡ some f)) db.chunks

snoc-AreNumbered :
    {A : Type 0} (id : A → ℕ) (rows : List A) (last : ℕ) (row : A)
    → AreNumbered id rows last
    → id row ≡ last + 1
    → AreNumbered id (rows ++ (row ∷ [])) (last + 1)
snoc-AreNumbered id rows last row h e = record {
  bounded =
      All-append (λ x. id x ≤ last + 1) rows (row ∷ [])
        (All-mono _ _ rows (λ x k. omega (arith, k)) h.bounded) (omega (arith, e), tt);
  found =
      snoc-IsKeyed (λ x y. id y == id x) rows row h.found
        (first-none (λ y. id y == id row) rows
          (All-mono (λ x. id x ≤ last) _ rows (λ x k. ground (arith, k, e)) h.bounded))
        ((==_iff (id row) (id row)).1 refl);
}

last_AreNumbered :
    {A : Type 0} (id : A → ℕ) (rows : List A) (last : ℕ) (row : A)
    → AreNumbered id rows last
    → id row ≡ last + 1
    → first (λ y. id y == id row) (rows ++ (row ∷ [])) ≡ some row
last_AreNumbered id rows last row h e =
    first-snoc (λ y. id y == id row) rows row
      (first-none (λ y. id y == id row) rows
        (All-mono (λ x. id x ≤ last) _ rows (λ x k. ground (arith, k, e)) h.bounded))
      ((==_iff (id row) (id row)).1 refl)

-- A new store path keeps the tables consistent, and its row is found by its id.
pub create_store_path-IsConsistent :
    (db db' : Db) (path : Text) (row : StorePath)
    → IsConsistent db
    → create_store_path db path ≡ ok (db', row)
    → IsConsistent db' × (first (λ q. q.id == row.id) db'.paths ≡ some row)
unfolding create_store_path
create_store_path-IsConsistent db db' path row c h =
    let (absent, _, e) = unless_found-ok _ _ _ h in
    let new : StorePath = record { id = db.last_path + 1; path = path } in
    subst (λ r. IsConsistent r.0 × (first (λ q. q.id == r.1.id) r.0.paths ≡ some r.1)) e
      (
        record {
          path_ids = snoc-AreNumbered (λ p. p.id) db.paths db.last_path new c.path_ids refl;
          file_ids = c.file_ids;
          chunk_ids = c.chunk_ids;
          path_names =
              snoc-IsKeyed (λ p q. text_eq q.path p.path) db.paths new c.path_names absent
                ((text_eq_iff path path).1 refl);
          file_names = c.file_names;
          file_types = c.file_types;
          paths_of =
              All-mono _ _ db.files (λ f (p, k). (p, first-append _ db.paths (new ∷ []) k))
                c.paths_of;
          files_of = c.files_of;
        },
        last_AreNumbered (λ p. p.id) db.paths db.last_path new c.path_ids refl,
      )

-- So does a new file of a store path that is there.
pub create_store_file-IsConsistent :
    (db db' : Db) (arg : CreateStoreFileParams) (row : StoreFile) (p : StorePath)
    → IsConsistent db
    → first (λ q. q.id == arg.store_path_id) db.paths ≡ some p
    → create_store_file db arg ≡ ok (db', row)
    → IsConsistent db' × (first (λ g. g.id == row.id) db'.files ≡ some row) × (db'.paths ≡ db.paths)
unfolding create_store_file
create_store_file-IsConsistent db db' arg row p c owner h =
    let (absent, valid, e) = unless_found-ok _ _ _ h in
    let new : StoreFile = record {
      id = db.last_file + 1;
      store_path_id = arg.store_path_id;
      path = arg.path;
      size = arg.size;
      type = arg.type;
      link_target = arg.link_target;
      executable = arg.executable;
      hash = arg.hash;
    } in
    subst
      (λ r.
        IsConsistent r.0
        × (first (λ g. g.id == r.1.id) r.0.files ≡ some r.1)
        × (r.0.paths ≡ db.paths))
      e
      (
        record {
          path_ids = c.path_ids;
          file_ids = snoc-AreNumbered (λ f. f.id) db.files db.last_file new c.file_ids refl;
          chunk_ids = c.chunk_ids;
          path_names = c.path_names;
          file_names =
              snoc-IsKeyed (λ f g. g.store_path_id == f.store_path_id && text_eq g.path f.path)
                db.files new c.file_names absent
                (rw ((==_iff arg.store_path_id arg.store_path_id).1 refl)
                  ((text_eq_iff arg.path arg.path).1 refl));
          file_types =
              All-append (λ f. f.type ≤ 2) db.files (new ∷ []) c.file_types
                (ground (arith, valid), tt);
          paths_of = All-append _ db.files (new ∷ []) c.paths_of ((p, owner), tt);
          files_of =
              All-mono _ _ db.chunks (λ k (f, e). (f, first-append _ db.files (new ∷ []) e))
                c.files_of;
        },
        last_AreNumbered (λ f. f.id) db.files db.last_file new c.file_ids refl,
        refl,
      )

-- And a chunk of a file that is there.
pub insert_chunk-IsConsistent :
    (db : Db) (arg : InsertChunkParams) (f : StoreFile)
    → IsConsistent db
    → first (λ g. g.id == arg.file_id) db.files ≡ some f
    → IsConsistent (insert_chunk db arg)
unfolding insert_chunk
insert_chunk-IsConsistent db arg f c owner =
    let new : Chunk = record {
      id = db.last_chunk + 1;
      file_id = arg.file_id;
      hash = arg.hash;
      size = arg.size;
      offset = arg.offset;
    } in
    record {
      path_ids = c.path_ids;
      file_ids = c.file_ids;
      chunk_ids = snoc-AreNumbered (λ k. k.id) db.chunks db.last_chunk new c.chunk_ids refl;
      path_names = c.path_names;
      file_names = c.file_names;
      file_types = c.file_types;
      paths_of = c.paths_of;
      files_of = All-append _ db.chunks (new ∷ []) c.files_of ((f, owner), tt);
    }
