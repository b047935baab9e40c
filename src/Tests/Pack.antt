-- ===== src/Tests/Pack.antt =====
-- The packer on a small database: a store path with one file that the target has and one that it lacks.
mod TooLarge
use deltanar.Base.{
  ℕ, ◌≡◌, refl, List, [], ◌∷◌, true, false, none, some, Result, ok, length, map, arith,
}
use deltanar.Base.Text.{Text, bytes, text_eq, has_prefix}
use deltanar.Base.Host.{Host}
use deltanar.ChunkStore.{TempChunkStore}
use deltanar.ChunkStore.Laws.{Shows}
use deltanar.Database.{StoreFile, Db}
use deltanar.Database.Queries.{
  select, first, any_text, path_of_id, is_local, local_file_id, local_matches, get_store_path_by_id,
  get_store_file_by_id, get_store_files, get_local_file_by_hash, get_store_chunks_with_local_match,
}
use deltanar.Dnar.{CaChunk, Nar}
use deltanar.Dnar.Wire.{dnar_stream, AreEncodable, AreSmall, write_messages}
use deltanar.Pack.LocalIndex.{new_local_index, file_chunks, file_by_hash, lookup_id}
use deltanar.Pack.State.{
  Packing, new_packing, index_of, add_input_store_path_id, new_input_file, add_input_store_file,
  lookup_hash, new_chunk_dep, add_chunk_dep,
}
use deltanar.Pack.Reference.{count_votes, choose_reference, store_file_abs_path}
use deltanar.Pack.Files.{
  Source, pack_type, pack_files, pack_regular, pack_contents, pack_by_chunks, pack_chunks,
  pack_chunk, pack_unmatched, pack_ca, file_deltas, is_skipped,
}
use deltanar.Pack.PathInfo.{PathInfos, lookup_info}
use deltanar.Pack.Dnar.{
  payload_bytes, payloads, read_into, trailer_paths, trailer_file, pack_store_path,
  pack_store_paths, write_nars, write_chunk_stream, write_trailer, write_dnar,
}
use deltanar.Pack.Inputs.{IsPacked}
use deltanar.Pack.Kept.{Then}
use deltanar.Pack.Invariants.{pack_store_paths-IsPacked, pack_store_paths-AreIndexed}
use deltanar.Pack.Indices.{AreIndexed}
use deltanar.Pack.Stream.{Written, HasSmallMessages, input_file_paths}
use deltanar.Pack.ReadBack.{write_dnar-Written, read_archive-write_dnar}
use deltanar.Unpack.Read.{read_archive}
use deltanar.Tests.Samples.{codec, os, os-Succeeds, wire, Message, engine}

abbrev pub file_row : ℕ → ℕ → Text → ℕ → List ℕ → StoreFile
file_row id store_path_id path type hash = record {
  id = id;
  store_path_id = store_path_id;
  path = path;
  size = 2;
  type = type;
  link_target = none;
  executable = false;
  hash = some hash;
}

abbrev pub db : Db
db = record {
  paths = record { id = 1; path = bytes "/s/old" } ∷ record { id = 2; path = bytes "/s/new" } ∷ [];
  files =
      file_row 1 1 (bytes "/f") 0 (7 ∷ [])
      ∷ file_row 2 2 (bytes "/f") 0 (7 ∷ [])
      ∷ file_row 3 2 (bytes "/g") 0 (8 ∷ [])
      ∷ [];
  chunks =
      record { id = 1; file_id = 1; hash = 7 ∷ []; size = 2; offset = 0 }
      ∷ record { id = 2; file_id = 2; hash = 7 ∷ []; size = 2; offset = 0 }
      ∷ record { id = 3; file_id = 3; hash = 8 ∷ []; size = 2; offset = 0 }
      ∷ [];
  last_path = 2;
  last_file = 3;
  last_chunk = 3;
}

abbrev pub host : Host
host = record {
  open_file = λ path. some (bytes "hi");
  lstat = λ path. none;
  mappable = λ path. true;
}

abbrev pub src : Source
src = record { host = host; engine = engine; codec = codec; shuffle = λ votes. votes }

abbrev infos : PathInfos
infos =
    (
      bytes "/s/new",
      record { path = bytes "/s/new"; nar_hash = bytes "h"; nar_size = 9; references = [] },
    )
    ∷ []

abbrev pub local : List Text
local = bytes "/s/old" ∷ []

abbrev sent : List Text
sent = bytes "/s/new" ∷ []

unfoldable pub start : Packing
unfolding new_local_index
start = new_packing (new_local_index db local)

abbrev pub of_ok {ℓ} : {A : Type ℓ} → A → Result A → A
of_ok a (ok b) = b
of_ok a _ = a

abbrev packed : List Nar × Packing
unfolding pack_store_paths new_local_index
packed = of_ok ([], start) (pack_store_paths src db infos sent start)

packs : pack_store_paths src db infos sent (new_packing (new_local_index db local)) ≡ ok packed
unfolding pack_store_paths pack_store_path lookup_info text_eq pack_files get_store_files select
    is_local path_of_id first any_text has_prefix is_skipped pack_type pack_regular file_by_hash
    get_local_file_by_hash pack_contents add_input_store_file lookup_id new_input_file
    add_input_store_path_id index_of pack_by_chunks file_chunks get_store_chunks_with_local_match
    local_matches local_file_id count_votes choose_reference file_deltas store_file_abs_path
    pack_chunks pack_chunk pack_unmatched pack_ca add_chunk_dep lookup_hash new_chunk_dep start
    packed new_local_index
packs = refl

-- One chunk is sent, and one file of the old path is used.
counts :
    (length packed.1.chunk_deps ≡ 1)
    × (length packed.1.input_paths ≡ 1)
    × (length packed.1.input_files ≡ 1)
unfolding pack_store_paths pack_store_path lookup_info text_eq pack_files get_store_files select
    is_local path_of_id first any_text has_prefix is_skipped pack_type pack_regular file_by_hash
    get_local_file_by_hash pack_contents add_input_store_file lookup_id new_input_file
    add_input_store_path_id index_of pack_by_chunks file_chunks get_store_chunks_with_local_match
    local_matches local_file_id count_votes choose_reference file_deltas store_file_abs_path
    pack_chunks pack_chunk pack_unmatched pack_ca add_chunk_dep lookup_hash new_chunk_dep start
    packed new_local_index
counts = (refl, refl, refl)

abbrev old_paths : List Text
old_paths = bytes "/s/old" ∷ []

stored :
    (payloads src db packed.1.chunk_deps ≡ ok (record { payload = bytes "hi" } ∷ []))
    × (trailer_paths db packed.1.input_paths ≡ ok old_paths)
unfolding pack_store_paths pack_store_path lookup_info text_eq pack_files get_store_files select
    is_local path_of_id first any_text has_prefix is_skipped pack_type pack_regular file_by_hash
    get_local_file_by_hash pack_contents add_input_store_file lookup_id new_input_file
    add_input_store_path_id index_of pack_by_chunks file_chunks get_store_chunks_with_local_match
    local_matches local_file_id count_votes choose_reference file_deltas store_file_abs_path
    pack_chunks pack_chunk pack_unmatched pack_ca add_chunk_dep lookup_hash new_chunk_dep start
    packed new_local_index payloads payload_bytes get_store_file_by_id get_store_path_by_id
    read_into trailer_paths
stored = (refl, refl)

abbrev out : List Message
unfolding write_dnar
out = of_ok [] (write_dnar src db wire (ok infos) sent local)

writes : write_dnar src db wire (ok infos) sent local ≡ ok out
unfolding pack_store_paths pack_store_path lookup_info text_eq pack_files get_store_files select
    is_local path_of_id first any_text has_prefix is_skipped pack_type pack_regular file_by_hash
    get_local_file_by_hash pack_contents add_input_store_file lookup_id new_input_file
    add_input_store_path_id index_of pack_by_chunks file_chunks get_store_chunks_with_local_match
    local_matches local_file_id count_votes choose_reference file_deltas store_file_abs_path
    pack_chunks pack_chunk pack_unmatched pack_ca add_chunk_dep lookup_hash new_chunk_dep start
    packed new_local_index payloads payload_bytes get_store_file_by_id get_store_path_by_id
    read_into trailer_paths write_dnar write_nars write_messages write_chunk_stream write_trailer
    out
writes = refl

write_dnar-Written_example :
    (is : PathInfos) × (ok infos ≡ ok is) × Written src db wire is sent local out
write_dnar-Written_example = write_dnar-Written src db wire (ok infos) sent local out writes

pack_store_paths-IsPacked_example :
    Then
      (λ r. IsPacked r.1)
      (pack_store_paths src db infos sent (new_packing (new_local_index db local)))
unfolding new_local_index
pack_store_paths-IsPacked_example =
    pack_store_paths-IsPacked src db infos sent (new_packing (new_local_index db local)) tt

abbrev hi : List CaChunk
hi = record { payload = bytes "hi" } ∷ []

stream_eq :
    out
    ≡ dnar_stream wire packed.0 hi (record {
      paths = old_paths;
      files = map (trailer_file packed.1.input_paths) packed.1.input_files;
    })
unfolding pack_store_paths pack_store_path lookup_info text_eq pack_files get_store_files select
    is_local path_of_id first any_text has_prefix is_skipped pack_type pack_regular file_by_hash
    get_local_file_by_hash pack_contents add_input_store_file lookup_id new_input_file
    add_input_store_path_id index_of pack_by_chunks file_chunks get_store_chunks_with_local_match
    local_matches local_file_id count_votes choose_reference file_deltas store_file_abs_path
    pack_chunks pack_chunk pack_unmatched pack_ca add_chunk_dep lookup_hash new_chunk_dep start
    packed new_local_index payloads payload_bytes get_store_file_by_id get_store_path_by_id
    read_into trailer_paths write_dnar write_nars write_messages write_chunk_stream write_trailer
    out dnar_stream
stream_eq = refl

encodes :
    AreEncodable wire packed.0 hi (record {
      paths = old_paths;
      files = map (trailer_file packed.1.input_paths) packed.1.input_files;
    })
    × AreSmall wire packed.0 hi (record {
      paths = old_paths;
      files = map (trailer_file packed.1.input_paths) packed.1.input_files;
    })
unfolding pack_store_paths pack_store_path lookup_info text_eq pack_files get_store_files select
    is_local path_of_id first any_text has_prefix is_skipped pack_type pack_regular file_by_hash
    get_local_file_by_hash pack_contents add_input_store_file lookup_id new_input_file
    add_input_store_path_id index_of pack_by_chunks file_chunks get_store_chunks_with_local_match
    local_matches local_file_id count_votes choose_reference file_deltas store_file_abs_path
    pack_chunks pack_chunk pack_unmatched pack_ca add_chunk_dep lookup_hash new_chunk_dep start
    packed new_local_index
encodes = (
  (refl, (refl, tt), refl, (refl, tt), refl),
  (omega arith, (omega arith, tt), omega arith, (omega arith, tt), omega arith),
)

abbrev is_written : Written src db wire infos sent local out
is_written = record {
  nars = packed.0;
  packing = packed.1;
  chunks = hi;
  paths = old_paths;
  packs = packs;
  chunks-payloads = stored.0;
  paths-trailer = stored.1;
  stream = stream_eq;
  encodable = encodes.0;
}

small : HasSmallMessages src db wire infos sent local out is_written
small = encodes.1

read_archive-write_dnar_example :
    (store : TempChunkStore) × (inputs : List Text) × (read_archive wire os out
      ≡ ok (record { nars = packed.0; store = store; inputs = inputs }))
    × (map (λ n. n.path) packed.0 ≡ sent)
    × Shows store (map (λ c. c.payload) hi)
    × (input_file_paths db packed.1.input_files ≡ ok inputs)
read_archive-write_dnar_example =
    read_archive-write_dnar src db wire os os-Succeeds infos sent local out is_written (omega arith)
      (omega (arith, counts.0)) (omega (arith, counts.1)) small

fresh-AreIndexed : AreIndexed (new_packing (new_local_index db local))
unfolding lookup_hash lookup_id
fresh-AreIndexed = record { chunks = λ hash e. cc; files = λ id e. cc }

pack_store_paths-AreIndexed_example :
    Then
      (λ r. AreIndexed r.1)
      (pack_store_paths src db infos sent (new_packing (new_local_index db local)))
pack_store_paths-AreIndexed_example =
    pack_store_paths-AreIndexed src db infos sent (new_packing (new_local_index db local))
      fresh-AreIndexed
