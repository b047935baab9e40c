-- ===== src/Pack/Dnar.antt =====
-- `writeDNAR` (internal/cmd/dnar-pack/dnar.go).
use deltanar.Base.{
  ℕ, zero, suc, ◌-◌, ◌%◌, ◌^◌, List, [], ◌∷◌, ◌++◌, Option, none, some, Result, ok, err, library,
  store_path_not_found, ◌>>=◌, of_option, ◌==◌, length, take, drop, replicate, map, if◌then◌else◌,
}
use deltanar.Base.Text.{Text, text_eq, bytes}
use deltanar.Database.{StoreFile, Db}
use deltanar.Database.Queries.{get_store_files, get_store_file_by_id, get_store_path_by_id}
use deltanar.Dnar.{CaChunk, Nar, FileDescriptor}
use deltanar.Dnar.Wire.{Wire, write_message, write_messages}
use deltanar.Pack.LocalIndex.{new_local_index}
use deltanar.Pack.State.{Packing, BulkPayload, file_chunk, delta_bytes, new_packing, index_of}
use deltanar.Pack.Files.{Source, pack_files}
use deltanar.Pack.PathInfo.{PathInfos, lookup_info}
use deltanar.Pack.Reference.{store_file_abs_path}

-- `fd.Read` into a slice of a given size, whose rest stays zero where the file is too short; at the end of
-- the file it fails.
unfoldable pub read_into : List ℕ → ℕ → ℕ → Result (List ℕ)
read_into content offset zero = ok []
read_into content offset (suc size) =
    let part = take (suc size) (drop offset content) in
    if length part == 0 then err library else ok (part ++ replicate (suc size - length part) 0)

module _ (src : Source) (db : Db) where
  -- The bytes of a payload of the chunk stream.
  unfoldable pub payload_bytes : BulkPayload → Result (List ℕ)
  unfolding read_into
  payload_bytes (delta_bytes d) = ok d
  payload_bytes (file_chunk c) = do
    file ← get_store_file_by_id db c.file_id
    store_path ← get_store_path_by_id db file.store_path_id
    content ← of_option library (src.host.open_file (store_file_abs_path store_path.path file.path))
    read_into content c.offset c.size

  unfoldable pub payloads : List BulkPayload → Result (List CaChunk)
  unfolding payload_bytes
  payloads [] = ok []
  payloads (b ∷ bs) = do
    bytes ← payload_bytes b
    rest ← payloads bs
    ok (record { payload = bytes } ∷ rest)

-- The paths of the trailer.
module _ (db : Db) where
  unfoldable pub trailer_paths : List ℕ → Result (List Text)
  trailer_paths [] = ok []
  trailer_paths (id ∷ ids) = do
    p ← get_store_path_by_id db id
    rest ← trailer_paths ids
    ok (p.path ∷ rest)

-- `uint32(slices.Index(…))`, where an id that is not there has the index -1.
abbrev pub u32_index : Option ℕ → ℕ
u32_index none = 2 ^ 32 - 1
u32_index (some i) = i % 2 ^ 32

abbrev pub trailer_file : List ℕ → StoreFile → FileDescriptor
trailer_file ids f = record {
  store_path = u32_index (index_of f.store_path_id ids);
  path = if text_eq f.path (b'/' ∷ []) then [] else f.path;
}

-- The trailer, with its paths and files.
module _ (db : Db) where
  unfoldable pub write_trailer : {B : Type 0} → Wire B → Packing → Result (List B)
  unfolding trailer_paths
  write_trailer w p = do
    paths ← trailer_paths db p.input_paths
    write_message w.trailer
        (record { paths = paths; files = map (trailer_file p.input_paths) p.input_files })

module _ (src : Source) (db : Db) where
  -- One store path of the loop.
  unfoldable pub pack_store_path : PathInfos → Text → Packing → Result (Nar × Packing)
  unfolding pack_files
  pack_store_path infos store_path p = do
    info ← of_option store_path_not_found (lookup_info store_path infos)
    (files, p₁) ← pack_files src store_path [] (get_store_files db store_path) p
    ok (
      record {
        path = store_path;
        files = files;
        nar_hash = info.nar_hash;
        nar_size = info.nar_size;
        references = info.references;
      },
      p₁,
    )

  -- The descriptions that the loop makes.
  unfoldable pub pack_store_paths : PathInfos → List Text → Packing → Result (List Nar × Packing)
  unfolding pack_store_path
  pack_store_paths infos [] p = ok ([], p)
  pack_store_paths infos (s ∷ ss) p = do
    (nar, p₁) ← pack_store_path infos s p
    (nars, p₂) ← pack_store_paths infos ss p₁
    ok (nar ∷ nars, p₂)

  -- The same loop, with each description written once it is complete.
  unfoldable pub write_nars :
      {B : Type 0} → Wire B → PathInfos → List Text → Packing → Result (List B × Packing)
  unfolding pack_store_path
  write_nars w infos [] p = ok ([], p)
  write_nars w infos (s ∷ ss) p = do
    (nar, p₁) ← pack_store_path infos s p
    first ← write_message w.nar nar
    (rest, p₂) ← write_nars w infos ss p₁
    ok (first ++ rest, p₂)

  -- The chunk stream behind its header. A chunk has no strings, so that each can be encoded once it is read.
  unfoldable pub write_chunk_stream : {B : Type 0} → Wire B → Packing → Result (List B)
  unfolding payloads write_messages
  write_chunk_stream w p = do
    header ← write_message w.header (record { length = length p.chunk_deps })
    chunks ← payloads src db p.chunk_deps
    messages ← write_messages w.chunk chunks
    ok (header ++ messages)

  -- `writeDNAR`, with the outcome of its call of nix: the header and the NARs, the header and the chunk
  -- stream, the trailer. The stream is all that was written, if nothing failed.
  unfoldable pub write_dnar :
      {B : Type 0} → Wire B → Result PathInfos → List Text → List Text → Result (List B)
  unfolding write_nars write_chunk_stream write_trailer new_local_index
  write_dnar w path_infos store_paths local_paths = do
    infos ← path_infos
    header ← write_message w.header (record { length = length store_paths })
    (nars, p) ← write_nars w infos store_paths (new_packing (new_local_index db local_paths))
    chunks ← write_chunk_stream w p
    trailer ← write_trailer db w p
    ok (header ++ (nars ++ (chunks ++ trailer)))
