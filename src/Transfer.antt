-- ===== src/Transfer.antt =====
-- A regular file on its way from the packing host (internal/cmd/dnar-pack) to the target
-- (internal/cmd/dnar-unpack): what is known of the database, the hosts and the stream between them.
pub mod Rows
pub mod Sound
pub mod Growth
pub mod Kinds
pub mod Chosen
pub mod Chunks
pub mod Regular
pub mod Faithful
pub mod Steps
pub mod Nars
pub mod EndToEnd
pub mod Export
use deltanar.Base.{
  ℕ, zero, suc, ◌+◌, ◌^◌, ◌≤◌, ◌<◌, ◌≡◌, true, List, [], ◌∷◌, map, some, ok, length, concat,
  get_elem?, take, drop, ◌==◌,
}
use deltanar.Base.Int.{pos}
use deltanar.Base.Host.{mmap_open}
use deltanar.Store.{Hashing}
use deltanar.Database.{StorePath, StoreFile, Chunk, Db}
use deltanar.Database.Queries.{select, hash_eq, get_store_path_by_id, get_store_file_by_id}
use deltanar.Database.Consistency.{IsConsistent}
use deltanar.Delta.Index.{Index, IsValid}
use deltanar.Pack.LocalIndex.{LocalIndex, MatchedChunk, lookup_id}
use deltanar.Pack.State.{Packing, RefCache, BulkPayload, file_chunk}
use deltanar.Pack.Reference.{Reference, store_file_abs_path}
use deltanar.Pack.Files.{Source}
use deltanar.Pack.Indices.{AreIndexed}
use deltanar.Dnar.{CaChunk}
use deltanar.ChunkStore.Laws.{Shows}
use deltanar.Pack.Dnar.{payloads}
use deltanar.Unpack.Nar.Chunks.{Inputs}

-- The bytes of a chunk, where each file id has its content.
abbrev pub range : (ℕ → List ℕ) → Chunk → List ℕ
range contents c = take c.size (drop c.offset (contents c.file_id))

-- The row with this id is that of a regular file.
abbrev pub IsRegular : Db → ℕ → Type 0
IsRegular db id = (f : StoreFile) → get_store_file_by_id db id ≡ ok f → f.type ≡ 0

-- A consistent database describes the files of the packing host and of the target: what the host's files hold, the
-- sizes, the hashes of files and chunks, and the chunks of a regular file, one behind the other. No two
-- of these chunks collide, and only regular files have chunks.
pub record Describes (h : Hashing) (src : Source) (db : Db) (contents : ℕ → List ℕ) : Type 0 where
  pub opens :
      (i : ℕ) (f : StoreFile) (sp : StorePath) (bytes : List ℕ)
      → get_elem? db.files i ≡ some f
      → f.type ≡ 0
      → get_store_path_by_id db f.store_path_id ≡ ok sp
      → src.host.open_file (store_file_abs_path sp.path f.path) ≡ some bytes
      → (bytes ≡ contents f.id) × (f.size ≡ length bytes)
  pub same_files :
      (i j : ℕ) (f g : StoreFile)
      → get_elem? db.files i ≡ some f
      → get_elem? db.files j ≡ some g
      → f.type ≡ 0
      → hash_eq g.hash f.hash ≡ true
      → (g.type ≡ 0) × (contents g.id ≡ contents f.id) × (g.size ≡ length (contents f.id))
  pub consistent : IsConsistent db
  pub of_regular : (i : ℕ) (c : Chunk) → get_elem? db.chunks i ≡ some c → IsRegular db c.file_id
  pub fits :
      (i : ℕ) (c : Chunk)
      → get_elem? db.chunks i ≡ some c
      → c.offset + c.size ≤ length (contents c.file_id)
  pub hashed :
      (i : ℕ) (c : Chunk) → get_elem? db.chunks i ≡ some c → c.hash ≡ h.blake3 (range contents c)
  pub no_collision :
      (i j : ℕ) (c d : Chunk)
      → get_elem? db.chunks i ≡ some c
      → get_elem? db.chunks j ≡ some d
      → h.blake3 (range contents c) ≡ h.blake3 (range contents d)
      → range contents c ≡ range contents d
  pub tiles :
      (i : ℕ) (f : StoreFile)
      → get_elem? db.files i ≡ some f
      → f.type ≡ 0
      → concat (map (λ c. range contents c) (select (λ c. c.file_id == f.id) db.chunks))
        ≡ contents f.id
  pub small : (id : ℕ) → length (contents id) ≤ 2 ^ 48

-- A row of the table has what a chunk says.
abbrev pub IsRow : Db → Chunk → Type 0
IsRow db c =
    (j : ℕ) × (row : Chunk) × (get_elem? db.chunks j ≡ some row)
    × (row.file_id ≡ c.file_id)
    × (row.hash ≡ c.hash)
    × (row.size ≡ c.size)
    × (row.offset ≡ c.offset)

-- The index is valid and, if the row with this id is that of a regular file, covers its content, which has
-- the size of the row.
abbrev pub Covers : Db → (ℕ → List ℕ) → ℕ → Index → Type 0
Covers db contents id ix =
    IsValid ix
    × ((f : StoreFile)
        → get_store_file_by_id db id ≡ ok f
        → f.type ≡ 0
        → (ix.base ≡ contents id) × (f.size ≡ length ix.base))

abbrev pub IsCached : Db → LocalIndex → Type 0
IsCached db li =
    (id : ℕ) (f : StoreFile)
    → lookup_id id li.file_cache ≡ some f
    → get_store_file_by_id db id ≡ ok f

abbrev pub HasIndex : Db → (ℕ → List ℕ) → RefCache → Type 0
HasIndex db contents c =
    (id : ℕ) (ix : Index) → c.file_id ≡ pos id → c.index ≡ some ix → Covers db contents id ix

abbrev pub HasRows : Db → List BulkPayload → Type 0
HasRows db deps = (i : ℕ) (c : Chunk) → get_elem? deps i ≡ some (file_chunk c) → IsRow db c

-- What holds all the time of what `writeDNAR` has collected.
pub record IsSound (db : Db) (contents : ℕ → List ℕ) (p : Packing) : Type 0 where
  pub same_db : p.li.db ≡ db
  pub cached : IsCached db p.li
  pub has_index : HasIndex db contents p.ref_cache
  pub indexed : AreIndexed p
  pub has_rows : HasRows db p.chunk_deps

-- The unpacker finds the input files' paths under their indices, and the target has the regular ones.
pub record OnTarget (db : Db) (contents : ℕ → List ℕ) (files : List StoreFile) (inp : Inputs)
    : Type 0 where
  pub finds :
      (i : ℕ) (f : StoreFile)
      → get_elem? files i ≡ some f
      → (path : List ℕ) × (get_elem? inp.files i ≡ some path)
  pub has :
      (i : ℕ) (f : StoreFile) (path : List ℕ)
      → get_elem? files i ≡ some f
      → get_elem? inp.files i ≡ some path
      → (g : StoreFile) → get_store_file_by_id db f.id ≡ ok g
      → g.type ≡ 0
      → (inp.host.open_file path ≡ some (contents f.id))
        × (mmap_open inp.host path ≡ ok (contents f.id))

-- What was given an index keeps it.
pub record Extends (p q : Packing) : Type 0 where
  pub deps :
      (i : ℕ) (b : BulkPayload)
      → get_elem? p.chunk_deps i ≡ some b
      → get_elem? q.chunk_deps i ≡ some b
  pub files :
      (i : ℕ) (f : StoreFile)
      → get_elem? p.input_files i ≡ some f
      → get_elem? q.input_files i ≡ some f

-- What the unpacker works with, when the whole of a packing was sent: its store shows the payloads, the
-- target has the input files, and the delta messages are the same.
pub record Receives (src : Source) (db : Db) (contents : ℕ → List ℕ) (q : Packing) (inp : Inputs)
    : Type 0 where
  pub sent : List CaChunk
  pub sends : payloads src db q.chunk_deps ≡ ok sent
  pub few : length sent < 2 ^ 63
  pub shows : Shows inp.store (map (λ c. c.payload) sent)
  pub target : OnTarget db contents q.input_files inp
  pub same_codec : inp.codec ≡ src.codec

-- The reference is a regular file's row, indexed, and its file has the size of the row.
abbrev pub IsRef : Db → (ℕ → List ℕ) → Reference → Type 0
IsRef db contents r =
    (get_store_file_by_id db r.file.id ≡ ok r.file)
    × (r.file.type ≡ 0)
    × IsValid r.index
    × (r.index.base ≡ contents r.file.id)
    × (r.file.size ≡ length r.index.base)
