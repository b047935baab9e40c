-- ===== src/Tests/Transfer.antt =====
-- From the packer to the unpacker on a small database.
mod Export
use deltanar.Base.{
  ◌≡◌, refl, sym, ap, ◌∙◌, List, [], ◌∷◌, some, Result, ok, ok-injective, length, map, get_elem?,
  arith,
}
use deltanar.Base.Text.{Text, bytes, text_eq, has_prefix}
use deltanar.Base.Host.{mmap_open}
use deltanar.ChunkStore.{TempChunkStore}
use deltanar.Database.{StorePath, StoreFile}
use deltanar.Database.Queries.{
  select, first, any_text, path_of_id, is_local, local_file_id, local_matches, get_store_path_by_id,
  get_store_file_by_id, get_store_files, get_local_file_by_hash, get_store_chunks_with_local_match,
}
use deltanar.Dnar.{CaChunk, Nar}
use deltanar.Dnar.Wire.{dnar_stream, AreEncodable, AreSmall}
use deltanar.Pack.LocalIndex.{
  new_local_index, file_chunks, file_by_hash, lookup_id, store_file_by_id, cached_file,
}
use deltanar.Pack.State.{
  Packing, new_packing, index_of, add_input_store_path_id, new_input_file, add_input_store_file,
  lookup_hash, new_chunk_dep, add_chunk_dep, get_ref, load_ref,
}
use deltanar.Pack.Reference.{
  add_vote, count_votes, best_ref, choose_reference, ref_index, store_file_abs_path,
}
use deltanar.Pack.Files.{
  pack_type, pack_files, pack_regular, pack_directory, pack_contents, pack_by_chunks, pack_chunks,
  pack_chunk, pack_matched, pack_unmatched, pack_ca, file_deltas, is_skipped,
}
use deltanar.Pack.PathInfo.{PathInfos, lookup_info}
use deltanar.Pack.Dnar.{
  payload_bytes, payloads, read_into, trailer_paths, trailer_file, pack_store_path,
  pack_store_paths,
}
use deltanar.Pack.Stream.{Written, HasSmallMessages}
use deltanar.Unpack.Read.{read_archive}
use deltanar.Transfer.Rows.{All-at}
use deltanar.Transfer.Faithful.{AreFaithful}
use deltanar.Transfer.EndToEnd.{TargetHolds, read_archive-rebuilds}
use deltanar.Tests.Samples.{codec, os, os-Succeeds, wire, Message, engine-IsEngine, hashing}
use deltanar.Tests.Described.{describes}
use deltanar.Tests.Disk.{old_f, old_path, db, contents, disk, src, target, order}

-- The run of the packer.
abbrev infos : PathInfos
infos =
    (
      bytes "/s/new",
      record { path = bytes "/s/new"; nar_hash = bytes "h"; nar_size = 9; references = [] },
    )
    ∷ []

abbrev local : List Text
local = bytes "/s/old" ∷ []

abbrev sent : List Text
sent = bytes "/s/new" ∷ []

abbrev of_ok {ℓ} : {A : Type ℓ} → A → Result A → A
of_ok a (ok b) = b
of_ok a _ = a

abbrev packed : List Nar × Packing
unfolding pack_store_paths new_local_index
packed =
    of_ok ([], new_packing (new_local_index db local))
      (pack_store_paths src db infos sent (new_packing (new_local_index db local)))

packs : pack_store_paths src db infos sent (new_packing (new_local_index db local)) ≡ ok packed
unfolding pack_store_paths pack_store_path lookup_info text_eq pack_files get_store_files select
    is_local path_of_id first any_text has_prefix is_skipped pack_type pack_regular file_by_hash
    get_local_file_by_hash pack_directory pack_contents add_input_store_file lookup_id
    new_input_file add_input_store_path_id index_of pack_by_chunks file_chunks
    get_store_chunks_with_local_match local_matches local_file_id add_vote count_votes best_ref
    choose_reference ref_index get_ref load_ref mmap_open store_file_by_id cached_file
    get_store_path_by_id get_store_file_by_id disk file_deltas store_file_abs_path pack_chunks
    pack_chunk pack_matched pack_unmatched pack_ca add_chunk_dep lookup_hash new_chunk_dep packed
    new_local_index
packs = refl

abbrev yo : List CaChunk
yo = record { payload = bytes "yo" } ∷ []

abbrev old_paths : List Text
old_paths = bytes "/s/old" ∷ []

collected :
    (packed.1.input_files ≡ old_f ∷ [])
    × (length packed.1.chunk_deps ≡ 1)
    × (length packed.1.input_paths ≡ 1)
unfolding pack_store_paths pack_store_path lookup_info text_eq pack_files get_store_files select
    is_local path_of_id first any_text has_prefix is_skipped pack_type pack_regular file_by_hash
    get_local_file_by_hash pack_directory pack_contents add_input_store_file lookup_id
    new_input_file add_input_store_path_id index_of pack_by_chunks file_chunks
    get_store_chunks_with_local_match local_matches local_file_id add_vote count_votes best_ref
    choose_reference ref_index get_ref load_ref mmap_open store_file_by_id cached_file
    get_store_path_by_id get_store_file_by_id disk file_deltas store_file_abs_path pack_chunks
    pack_chunk pack_matched pack_unmatched pack_ca add_chunk_dep lookup_hash new_chunk_dep packed
    new_local_index
collected = (refl, refl, refl)

stored :
    (payloads src db packed.1.chunk_deps ≡ ok yo)
    × (trailer_paths db packed.1.input_paths ≡ ok old_paths)
unfolding pack_store_paths pack_store_path lookup_info text_eq pack_files get_store_files select
    is_local path_of_id first any_text has_prefix is_skipped pack_type pack_regular file_by_hash
    get_local_file_by_hash pack_directory pack_contents add_input_store_file lookup_id
    new_input_file add_input_store_path_id index_of pack_by_chunks file_chunks
    get_store_chunks_with_local_match local_matches local_file_id add_vote count_votes best_ref
    choose_reference ref_index get_ref load_ref mmap_open store_file_by_id cached_file
    get_store_path_by_id get_store_file_by_id disk file_deltas store_file_abs_path pack_chunks
    pack_chunk pack_matched pack_unmatched pack_ca add_chunk_dep lookup_hash new_chunk_dep packed
    new_local_index payloads payload_bytes read_into trailer_paths
stored = (refl, refl)

abbrev out : List Message
unfolding dnar_stream packed
out = dnar_stream wire packed.0 yo (record {
  paths = old_paths;
  files = map (trailer_file packed.1.input_paths) packed.1.input_files;
})

encodes :
    AreEncodable wire packed.0 yo (record {
      paths = old_paths;
      files = map (trailer_file packed.1.input_paths) packed.1.input_files;
    })
    × AreSmall wire packed.0 yo (record {
      paths = old_paths;
      files = map (trailer_file packed.1.input_paths) packed.1.input_files;
    })
unfolding pack_store_paths pack_store_path lookup_info text_eq pack_files get_store_files select
    is_local path_of_id first any_text has_prefix is_skipped pack_type pack_regular file_by_hash
    get_local_file_by_hash pack_directory pack_contents add_input_store_file lookup_id
    new_input_file add_input_store_path_id index_of pack_by_chunks file_chunks
    get_store_chunks_with_local_match local_matches local_file_id add_vote count_votes best_ref
    choose_reference ref_index get_ref load_ref mmap_open store_file_by_id cached_file
    get_store_path_by_id get_store_file_by_id disk file_deltas store_file_abs_path pack_chunks
    pack_chunk pack_matched pack_unmatched pack_ca add_chunk_dep lookup_hash new_chunk_dep packed
    new_local_index
encodes = (
  (refl, (refl, tt), refl, (refl, tt), refl),
  (omega arith, (omega arith, tt), omega arith, (omega arith, tt), omega arith),
)

abbrev is_written : Written src db wire infos sent local out
unfolding out
is_written = record {
  nars = packed.0;
  packing = packed.1;
  chunks = yo;
  paths = old_paths;
  packs = packs;
  chunks-payloads = stored.0;
  paths-trailer = stored.1;
  stream = refl;
  encodable = encodes.0;
}

small : HasSmallMessages src db wire infos sent local out is_written
unfolding packed is_written lookup_info
small = encodes.1

abbrev OpensRow : StoreFile → Type 0
OpensRow f =
    (g : StoreFile) (sp : StorePath)
    → get_store_path_by_id db f.store_path_id ≡ ok sp
    → get_store_file_by_id db f.id ≡ ok g
    → g.type ≡ 0
    → target.open_file (store_file_abs_path sp.path f.path) ≡ some (contents f.id)

old_f_opens : OpensRow old_f
unfolding get_store_path_by_id first disk store_file_abs_path text_eq
old_f_opens g sp ep eg ty = let path : old_path ≡ sp = ok-injective ep in rw (← path)

holds : TargetHolds db contents packed.1.input_files target
unfolding packed
holds = record {
  opens = λ i f g sp e ep eg ty.
      let here = ap (λ l. get_elem? l i) (sym collected.0) ∙ e in
      All-at OpensRow (old_f ∷ []) i (old_f_opens, tt) here g sp ep eg ty;
  maps = λ path. refl;
}

read_archive-rebuilds_example :
    (store : TempChunkStore) × (inputs : List Text) × (read_archive wire os out
      ≡ ok (record { nars = packed.0; store = store; inputs = inputs }))
    × (map (λ n. n.path) packed.0 ≡ sent)
    × AreFaithful db contents packed.1
        (record { host = target; codec = codec; store = store; files = inputs })
        packed.0
unfolding is_written packed
read_archive-rebuilds_example =
    read_archive-rebuilds hashing src db contents wire os target infos sent local out describes
      engine-IsEngine order os-Succeeds is_written holds (omega arith) (omega (arith, collected.1))
      (omega (arith, collected.2)) small
