-- ===== src/Tests/Deltas.antt =====
-- Chunks of each kind, from the packer to the unpacker.
use deltanar.Base.{
  ℕ, ◌≤◌, ◌<◌, ◌≡◌, refl, List, [], ◌∷◌, ◌++◌, true, false, none, some, Result, ok, take, drop,
  arith,
}
use deltanar.Base.Int.{pos, negsuc, int_of_u64}
use deltanar.Base.Text.{Text, bytes, text_eq}
use deltanar.Base.Host.{Host}
use deltanar.ChunkStore.{TempChunkStore, open_temp_chunk_store, write_chunk, map_chunks, read_chunk}
use deltanar.ChunkStore.Laws.{Shows, open-Holds, write_chunk-Holds, map_chunks-Shows}
use deltanar.Database.{StoreFile, Chunk, Db}
use deltanar.Database.Queries.{first, get_store_file_by_id, get_store_path_by_id}
use deltanar.Delta.Index.{Index, IsValid, hash}
use deltanar.Delta.Diff.{
  diff_with, diff_ops, scan, round, take_match, extend_back, emit_literal, match_len, agree_len,
}
use deltanar.Dnar.{ChunkDescriptor, CaChunk, DeltaChunk, FdChunk, ca, fd, delta, no_chunk}
use deltanar.Pack.LocalIndex.{
  LocalIndex, MatchedChunk, new_local_index, store_file_by_id, cached_file, lookup_id,
}
use deltanar.Pack.State.{
  Packing, new_packing, file_chunk, delta_bytes, add_input_store_file, new_input_file,
  add_chunk_dep, lookup_hash, new_chunk_dep,
}
use deltanar.Pack.Files.{Source, pack_delta, pack_ca, pack_matched}
use deltanar.Pack.Reference.{delta_of_chunk, store_file_abs_path, add_vote, count_votes, best_ref}
use deltanar.Pack.Votes.{matches_of}
use deltanar.Pack.Votes.Best.{IsShuffle, best_ref-most}
use deltanar.Pack.Dnar.{payloads, payload_bytes, read_into}
use deltanar.Pack.Indices.{AreIndexed, HasFile}
use deltanar.Pack.Sent.{read_chunk-pack_ca, fd_range-pack_matched}
use deltanar.Pack.Deltas.{chunk_of, delta_range-pack_delta}
use deltanar.Unpack.Nar.Chunks.{Inputs, fd_range, delta_range}
use deltanar.Tests.Samples.{codec, engine, os, os-IsLawful}

abbrev base : Text
base = bytes "the quick brown fox jumps"

-- One bucket for all hashes, in which the base's first byte stands.
abbrev one_bucket : Index
one_bucket = record { base = base; head = pos 1 ∷ []; shift = 32 }

one_bucket-IsValid : IsValid one_bucket
one_bucket-IsValid = record { covers = refl }

abbrev content : List ℕ
content = bytes "..the quick brown fox jumps"

abbrev chunk : MatchedChunk
chunk = record {
  size = 25;
  offset = 2;
  hash = 1 ∷ [];
  matched = false;
  local_file_id = 0;
  local_size = 0;
  local_offset = 0;
}

abbrev ref : StoreFile
ref = record {
  id = 1;
  store_path_id = 1;
  path = bytes "/f";
  size = 25;
  type = 0;
  link_target = none;
  executable = false;
  hash = none;
}

-- A copy of the whole base.
abbrev copy_all : List ℕ
copy_all = 0 ∷ 0 ∷ 25 ∷ []

pays_off : delta_of_chunk codec one_bucket content chunk ≡ ok (some copy_all)
unfolding delta_of_chunk diff_with diff_ops scan hash round match_len agree_len take_match
    extend_back emit_literal
pays_off = refl

abbrev db : Db
db = record { paths = []; files = []; chunks = []; last_path = 0; last_file = 0; last_chunk = 0 }

abbrev of_ok {ℓ} : {A : Type ℓ} → A → Result A → A
of_ok a (ok b) = b
of_ok a _ = a

abbrev start : Packing
unfolding new_local_index
start = new_packing (new_local_index db [])

abbrev stored : TempChunkStore
unfolding open_temp_chunk_store write_chunk
stored = (write_chunk os open_temp_chunk_store copy_all).0

shown : Shows (map_chunks os stored).0 ([] ++ (copy_all ∷ []))
unfolding open_temp_chunk_store write_chunk map_chunks
shown =
    map_chunks-Shows os os-IsLawful stored ([] ++ (copy_all ∷ []))
      (write_chunk-Holds os os-IsLawful open_temp_chunk_store [] copy_all open-Holds refl) refl

abbrev inputs : Inputs
unfolding map_chunks
inputs = record {
  host = record { open_file = λ path. none; lstat = λ path. none; mappable = λ path. true };
  codec = codec;
  store = (map_chunks os stored).0;
  files = [];
}

delta_range-pack_delta_example :
    (c : DeltaChunk) × ((pack_delta ref chunk copy_all start).0 ≡ delta c)
    × ((pack_delta ref chunk copy_all start).1.chunk_deps
        ≡ start.chunk_deps ++ (delta_bytes copy_all ∷ []))
    × (delta_range inputs one_bucket.base c ≡ ok (chunk_of chunk content))
unfolding start inputs
delta_range-pack_delta_example =
    delta_range-pack_delta inputs one_bucket content ref chunk start copy_all
      ([] ++ (copy_all ∷ [])) one_bucket-IsValid (omega arith) (omega arith) (omega arith) refl
      pays_off shown refl

-- The other two kinds of chunks.
start-AreIndexed : AreIndexed start
unfolding start lookup_hash lookup_id
start-AreIndexed = record { chunks = λ hash e. cc; files = λ id e. cc }

abbrev host : Host
host = record { open_file = λ path. some content; lstat = λ path. none; mappable = λ path. true }

abbrev src : Source
src = record { host = host; engine = engine; codec = codec; shuffle = λ votes. votes }

abbrev files_db : Db
files_db = record {
  paths = record { id = 1; path = bytes "/s/new" } ∷ [];
  files = ref ∷ [];
  chunks = [];
  last_path = 1;
  last_file = 1;
  last_chunk = 0;
}

abbrev sent : List CaChunk
sent = record { payload = base } ∷ []

sends : payloads src files_db ((pack_ca 1 chunk start).1.chunk_deps ++ []) ≡ ok sent
unfolding start new_local_index pack_ca add_chunk_dep lookup_hash new_chunk_dep payloads
    payload_bytes get_store_file_by_id get_store_path_by_id first store_file_abs_path text_eq
    read_into
sends = refl

abbrev sent_stored : TempChunkStore
unfolding open_temp_chunk_store write_chunk
sent_stored = (write_chunk os open_temp_chunk_store base).0

sent_shown : Shows (map_chunks os sent_stored).0 ([] ++ (base ∷ []))
unfolding open_temp_chunk_store write_chunk map_chunks
sent_shown =
    map_chunks-Shows os os-IsLawful sent_stored ([] ++ (base ∷ []))
      (write_chunk-Holds os os-IsLawful open_temp_chunk_store [] base open-Holds refl) refl

read_chunk-pack_ca_example :
    (index : ℕ) × (c : Chunk) × (found : List ℕ) × ((pack_ca 1 chunk start).0 ≡ ca index)
    × (c.hash ≡ chunk.hash)
    × (payload_bytes src files_db (file_chunk c) ≡ ok found)
    × (read_chunk (map_chunks os sent_stored).0 (int_of_u64 index) ≡ ok found)
read_chunk-pack_ca_example =
    read_chunk-pack_ca src files_db 1 chunk start [] sent (map_chunks os sent_stored).0
      start-AreIndexed sends sent_shown (omega arith)

abbrev local_chunk : MatchedChunk
local_chunk = record chunk { matched = true; local_file_id = 1; local_size = 5; local_offset = 4 }

abbrev files_start : Packing
unfolding new_local_index
files_start = new_packing (new_local_index files_db [])

abbrev matched : ChunkDescriptor × Packing
unfolding pack_matched files_start
matched = of_ok (no_chunk, files_start) (pack_matched local_chunk files_start)

matches : pack_matched local_chunk files_start ≡ ok (matched.0, matched.1)
unfolding matched files_start new_local_index pack_matched store_file_by_id cached_file lookup_id
    get_store_file_by_id first add_input_store_file new_input_file
matches = refl

files_start-AreIndexed : AreIndexed files_start
unfolding files_start lookup_hash lookup_id
files_start-AreIndexed = record { chunks = λ hash e. cc; files = λ id e. cc }

fd_range-pack_matched_example :
    (f : StoreFile) × (c : FdChunk) × (li : LocalIndex) × (store_file_by_id files_start.li
        local_chunk.local_file_id
      ≡ ok (f, li))
    × (matched.0 ≡ fd c)
    × AreIndexed matched.1
    × HasFile matched.1.input_files c.index f.id
    × (fd_range base c ≡ ok (take local_chunk.local_size (drop local_chunk.local_offset base)))
fd_range-pack_matched_example =
    fd_range-pack_matched local_chunk files_start matched.1 matched.0 base files_start-AreIndexed
      matches (omega arith) (omega arith) (omega arith)

-- Two chunks that match file 1, and one that matches file 2.
abbrev voters : List MatchedChunk
voters =
    record chunk { matched = true; local_file_id = 2 }
    ∷ record chunk { matched = true; local_file_id = 1 }
    ∷ record chunk { matched = true; local_file_id = 1 }
    ∷ []

votes_eq : count_votes voters [] ≡ (2, 1) ∷ (1, 2) ∷ []
unfolding count_votes add_vote
votes_eq = refl

same_order : IsShuffle (λ votes. votes)
same_order = record { keeps = λ v votes i. i; finds = λ v votes i. i }

best_ref-most_example :
    (0 < matches_of (best_ref ((2, 1) ∷ (1, 2) ∷ []) (negsuc 0) 0) voters)
    × ((id : ℕ)
        → matches_of id voters ≤ matches_of (best_ref ((2, 1) ∷ (1, 2) ∷ []) (negsuc 0) 0) voters)
best_ref-most_example =
    best_ref-most (λ votes. votes) voters (2, 1) ((1, 2) ∷ []) same_order votes_eq
