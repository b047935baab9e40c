-- ===== src/Tests/Chunks.antt =====
-- The chunk store, chunking, and the digests of store paths on small files.
use deltanar.Base.{
  err, library, ◌≡◌, refl, [], ◌∷◌, ◌++◌, true, false, some, get_elem?, ok, of_option,
  index_out_of_bounds,
}
use deltanar.Base.Int.{pos}
use deltanar.Base.Text.{bytes, trim_prefix}
use deltanar.Base.Host.{Host, Node, file, dir, link, no_entries, entry}
use deltanar.ChunkStore.{
  TempChunkStore, open_temp_chunk_store, write_chunk, map_chunks, read_chunk, close_chunks,
}
use deltanar.ChunkStore.Laws.{
  Holds, Shows, open-Holds, write_chunk-Holds, map_chunks-Shows, close_chunks-empty, read_chunk_lem,
}
use deltanar.Store.Chunking.{chunk_bytes}
use deltanar.Store.Tiling.{Tiles, chunk_bytes-Tiles}
use deltanar.Store.Tree.{Attributes, read_node}
use deltanar.Store.Digests.{
  alike_file, alike_link, alike_dir, alike_none, alike_entry, summaries, read_node-summaries,
  empty_dir-digest,
}
use deltanar.Tests.Samples.{os, os-IsLawful, hashing, hashing-IsChunker}

abbrev written : TempChunkStore
unfolding open_temp_chunk_store write_chunk
written = (write_chunk os open_temp_chunk_store (bytes "abc")).0

written-Holds : Holds written ([] ++ (bytes "abc" ∷ []))
unfolding open_temp_chunk_store write_chunk
written-Holds =
    write_chunk-Holds os os-IsLawful open_temp_chunk_store [] (bytes "abc") open-Holds refl

shown : Shows (map_chunks os written).0 ([] ++ (bytes "abc" ∷ []))
unfolding open_temp_chunk_store write_chunk map_chunks
shown = map_chunks-Shows os os-IsLawful written ([] ++ (bytes "abc" ∷ [])) written-Holds refl

read_chunk_lem_example :
    read_chunk (map_chunks os written).0 (pos 1)
    ≡ of_option index_out_of_bounds (get_elem? ([] ++ (bytes "abc" ∷ [])) 1)
read_chunk_lem_example = read_chunk_lem (map_chunks os written).0 ([] ++ (bytes "abc" ∷ [])) 1 shown

chunk_bytes-Tiles_example :
    Tiles hashing 0 (bytes "content") (chunk_bytes hashing (bytes "content")).chunks
    × ((chunk_bytes hashing (bytes "content")).digest ≡ hashing.blake3 (bytes "content"))
chunk_bytes-Tiles_example = chunk_bytes-Tiles hashing hashing-IsChunker (bytes "content")

-- Two directories that differ in a symlink and an executable bit.
abbrev tree : Node
tree =
    dir
      (entry (bytes "a") (link (bytes "x")) (entry (bytes "b") (file (bytes "hi") true) no_entries))

abbrev other_tree : Node
other_tree =
    dir (
      entry (bytes "a") (link (bytes "y")) (entry (bytes "b") (file (bytes "hi") false) no_entries))

abbrev host : Host
host = record {
  open_file = λ path. some (bytes "hi");
  lstat = λ path. some tree;
  mappable = λ path. true;
}

abbrev attrs : Attributes
attrs = record { size = λ path. 0; executable = λ path. true }

read_node-summaries_example :
    summaries (read_node hashing host attrs (bytes "/s") (bytes "/s") tree)
    ≡ summaries (read_node hashing host attrs (bytes "/s") (bytes "/s") other_tree)
read_node-summaries_example =
    read_node-summaries hashing host attrs (bytes "/s") (bytes "/s")
      (alike_dir (alike_entry alike_link (alike_entry alike_file alike_none)))

empty_dir-digest_example :
    summaries (read_node hashing host attrs (bytes "/s") (bytes "/s/d") (dir no_entries))
    ≡ ok ((trim_prefix (bytes "/s/d") (bytes "/s"), some (chunk_bytes hashing []).digest) ∷ [])
empty_dir-digest_example =
    empty_dir-digest hashing host attrs (bytes "/s") (bytes "/s/d") hashing-IsChunker

close_chunks-empty_example : close_chunks os (map_chunks os open_temp_chunk_store).0 ≡ err library
unfolding open_temp_chunk_store
close_chunks-empty_example = close_chunks-empty os os-IsLawful open_temp_chunk_store refl
