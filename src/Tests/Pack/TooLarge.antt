-- ===== src/Tests/Pack/TooLarge.antt =====
-- A description that the unpacker does not take.
use deltanar.Base.{◌≡◌, refl, List, [], ◌∷◌, some, ok, arith}
use deltanar.Base.Text.{bytes, text_eq, has_prefix}
use deltanar.Database.Queries.{
  select, first, any_text, path_of_id, is_local, local_file_id, local_matches, get_store_path_by_id,
  get_store_file_by_id, get_store_files, get_local_file_by_hash, get_store_chunks_with_local_match,
}
use deltanar.Dnar.{Nar}
use deltanar.Dnar.Wire.{write_messages}
use deltanar.Pack.LocalIndex.{new_local_index, file_chunks, file_by_hash, lookup_id}
use deltanar.Pack.State.{
  Packing, new_packing, index_of, add_input_store_path_id, new_input_file, add_input_store_file,
  lookup_hash, new_chunk_dep, add_chunk_dep,
}
use deltanar.Pack.Reference.{count_votes, choose_reference, store_file_abs_path}
use deltanar.Pack.Files.{
  pack_type, pack_files, pack_regular, pack_contents, pack_by_chunks, pack_chunks, pack_chunk,
  pack_unmatched, pack_ca, file_deltas, is_skipped,
}
use deltanar.Pack.PathInfo.{PathInfos, lookup_info}
use deltanar.Pack.Dnar.{
  payload_bytes, payloads, read_into, trailer_paths, pack_store_path, pack_store_paths, write_nars,
  write_chunk_stream, write_trailer, write_dnar,
}
use deltanar.Unpack.Read.{read_archive}
use deltanar.Tests.Samples.{os, wire, Message}
use deltanar.Base.{err, library, get_elem?, arith}
use deltanar.Pack.TooLarge.{read_archive-too_large}
use deltanar.Tests.Pack.{db, src, sent, local, start, of_ok}

-- The same database and paths, with a description of five million bytes.
abbrev large_infos : PathInfos
large_infos =
    (
      bytes "/s/new",
      record { path = bytes "/s/new"; nar_hash = bytes "h"; nar_size = 5000000; references = [] },
    )
    ∷ []

abbrev large_out : List Message
unfolding write_dnar
large_out = of_ok [] (write_dnar src db wire (ok large_infos) sent local)

abbrev large_packed : List Nar × Packing
unfolding pack_store_paths new_local_index
large_packed = of_ok ([], start) (pack_store_paths src db large_infos sent start)

abbrev of_list : List Nar → Nar
of_list [] = record { path = []; files = []; nar_hash = []; nar_size = 0; references = [] }
of_list (nar ∷ nars) = nar

abbrev large_nar : Nar
unfolding large_packed
large_nar = of_list large_packed.0

large_run :
    (write_dnar src db wire (ok large_infos) sent local ≡ ok large_out)
    × (pack_store_paths src db large_infos sent (new_packing (new_local_index db local))
        ≡ ok large_packed)
    × (get_elem? large_packed.0 0 ≡ some large_nar)
    × (large_nar.nar_size ≡ 5000000)
unfolding pack_store_paths pack_store_path lookup_info text_eq pack_files get_store_files select
    is_local path_of_id first any_text has_prefix is_skipped pack_type pack_regular file_by_hash
    get_local_file_by_hash pack_contents add_input_store_file lookup_id new_input_file
    add_input_store_path_id index_of pack_by_chunks file_chunks get_store_chunks_with_local_match
    local_matches local_file_id count_votes choose_reference file_deltas store_file_abs_path
    pack_chunks pack_chunk pack_unmatched pack_ca add_chunk_dep lookup_hash new_chunk_dep start
    large_packed new_local_index payloads payload_bytes get_store_file_by_id get_store_path_by_id
    read_into trailer_paths write_dnar write_nars write_messages write_chunk_stream write_trailer
    large_out large_nar
large_run = (refl, refl, refl, refl)

read_archive-too_large_example : read_archive wire os large_out ≡ err library
read_archive-too_large_example =
    read_archive-too_large wire src db os large_infos sent local large_out large_packed.0
      large_packed.1 0 large_nar large_run.0 large_run.1 (omega arith) (omega arith) large_run.2
      (omega (arith, large_run.3))
