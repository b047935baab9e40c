-- ===== src/Pack/Files.antt =====
-- The description of one store file (internal/cmd/dnar-pack/dnar.go, the body of the loop over the store
-- files).
use deltanar.Base.{
  ℕ, List, [], ◌∷◌, Bool, false, ◌==◌, Option, none, some, Result, ok, panic, library, ◌>>=◌,
  of_option, if◌then◌else◌,
}
use deltanar.Base.Int.{pos, negsuc}
use deltanar.Base.Text.{Text, has_prefix}
use deltanar.Base.Host.{Host}
use deltanar.Delta.{DeltaCodec}
use deltanar.Database.{StoreFile, Engine}
use deltanar.Dnar.{ChunkDescriptor, ca, fd, delta, NarFile, FileType, regular, directory, symlink}
use deltanar.Pack.LocalIndex.{MatchedChunk, file_chunks, file_by_hash, store_file_by_id}
use deltanar.Pack.State.{Packing, add_input_store_file, add_chunk_dep, add_delta_payload}
use deltanar.Pack.Reference.{
  Reference, count_votes, choose_reference, store_file_abs_path, delta_results, no_deltas,
}

-- A hash that goes on the wire, where nil is empty.
abbrev pub wire_bytes : Option (List ℕ) → List ℕ
wire_bytes none = []
wire_bytes (some b) = b

-- What `writeDNAR` reads from: the packing host, the database engine, the delta messages, and the order
-- in which a map of votes is gone through.
pub record Source : Type 0 where
  pub host : Host
  pub engine : Engine
  pub codec : DeltaCodec
  pub shuffle : List (ℕ × ℕ) → List (ℕ × ℕ)

-- A chunk that the target has, in one of its files.
unfoldable pub pack_matched : MatchedChunk → Packing → Result (ChunkDescriptor × Packing)
unfolding store_file_by_id add_input_store_file
pack_matched m p = do
  (f, li) ← store_file_by_id p.li m.local_file_id
  let (index, p₁) = add_input_store_file f (record p { li = li })
  ok (
    fd (record { index = index; size = m.local_size; offset = m.local_offset; digest = m.hash }),
    p₁,
  )

-- A chunk that is sent as a delta.
unfoldable pub pack_delta : StoreFile → MatchedChunk → List ℕ → Packing → ChunkDescriptor × Packing
unfolding add_input_store_file add_delta_payload
pack_delta ref m d p =
    let (index, p₁) = add_input_store_file ref p in
    let (delta_index, p₂) = add_delta_payload d p₁ in
    (
      delta (record {
        index = index;
        size = ref.size;
        offset = 0;
        digest = wire_bytes ref.hash;
        delta_index = delta_index;
        result_size = m.size;
      }),
      p₂,
    )

-- A chunk that is sent as it is.
unfoldable pub pack_ca : ℕ → MatchedChunk → Packing → ChunkDescriptor × Packing
unfolding add_chunk_dep
pack_ca file_id m p =
    let (index, p₁) =
      add_chunk_dep
        (record { id = 0; file_id = file_id; hash = m.hash; size = m.size; offset = m.offset }) p in
    (ca index, p₁)

-- A delta is only there with a reference.
unfoldable pub pack_unmatched :
    ℕ
    → Option Reference
    → Option (List ℕ)
    → MatchedChunk
    → Packing
    → Result (ChunkDescriptor × Packing)
unfolding pack_delta pack_ca
pack_unmatched file_id (some r) (some bytes) m p = ok (pack_delta r.file m bytes p)
pack_unmatched file_id none (some bytes) m p = panic
pack_unmatched file_id _ none m p = ok (pack_ca file_id m p)

-- The switch of the assembly.
unfoldable pub pack_chunk :
    ℕ
    → Option Reference
    → MatchedChunk
    → Option (List ℕ)
    → Packing
    → Result (ChunkDescriptor × Packing)
unfolding pack_matched pack_unmatched
pack_chunk file_id ref m d p =
    if m.matched then pack_matched m p else pack_unmatched file_id ref d m p

unfoldable pub pack_chunks :
    ℕ
    → Option Reference
    → List MatchedChunk
    → List (Option (List ℕ))
    → Packing
    → Result (List ChunkDescriptor × Packing)
unfolding pack_chunk
pack_chunks file_id ref [] ds p = ok ([], p)
pack_chunks file_id ref (m ∷ ms) [] p = panic
pack_chunks file_id ref (m ∷ ms) (d ∷ ds) p = do
  (c, p₁) ← pack_chunk file_id ref m d p
  (cs, p₂) ← pack_chunks file_id ref ms ds p₁
  ok (c ∷ cs, p₂)

module _ (src : Source) where
  -- The deltas against the reference; the file that is packed is read only if there is one.
  unfoldable pub file_deltas :
      Text → Option Reference → List MatchedChunk → Result (List (Option (List ℕ)))
  unfolding delta_results
  file_deltas path none ms = ok (no_deltas ms)
  file_deltas path (some r) ms = do
    content ← of_option library (src.host.open_file path)
    delta_results src.codec r.index content ms

  -- A regular file, chunk by chunk.
  unfoldable pub pack_by_chunks :
      Text → StoreFile → Packing → Result (List ChunkDescriptor × Packing)
  unfolding file_chunks count_votes choose_reference file_deltas store_file_abs_path pack_chunks
  pack_by_chunks store_path f p =
      let ms = file_chunks src.engine p.li f.id in
      do
        (ref, p₁) ← choose_reference src.host f.size (src.shuffle (count_votes ms [])) p
        ds ← file_deltas (store_file_abs_path store_path f.path) ref ms
        pack_chunks f.id ref ms ds p₁

  -- A regular file: whole, if the target has a file with its hash.
  unfoldable pub pack_contents :
      Text → StoreFile → Option StoreFile → Packing → Result (List ChunkDescriptor × Packing)
  unfolding pack_by_chunks add_input_store_file
  pack_contents store_path f (some existing) p =
      let (index, p₁) = add_input_store_file existing p in
      ok (
        fd (record {
          index = index;
          size = existing.size;
          offset = 0;
          digest = wire_bytes existing.hash;
        })
            ∷ [],
        p₁,
      )
  pack_contents store_path f none p = pack_by_chunks store_path f p

  unfoldable pub pack_regular : Text → StoreFile → Packing → Result (FileType × Packing)
  unfolding file_by_hash pack_contents
  pack_regular store_path f p = do
    existing ← file_by_hash src.engine p.li f.hash
    (chunks, p₁) ← pack_contents store_path f existing p
    ok (regular (record { size = f.size; chunks = chunks; executable = f.executable }), p₁)

  -- A directory, with the prefix of the files to skip from now on.
  unfoldable pub pack_directory :
      StoreFile → Text → Option StoreFile → Packing → FileType × Text × Packing
  unfolding add_input_store_file
  pack_directory f recursive_dir (some existing) p =
      let (index, p₁) = add_input_store_file existing p in (directory (pos index), f.path, p₁)
  pack_directory f recursive_dir none p = (directory (negsuc 0), recursive_dir, p)

  -- The switch over the types; any other type panics.
  unfoldable pub pack_type : Text → StoreFile → Text → Packing → Result (FileType × Text × Packing)
  unfolding pack_regular file_by_hash pack_directory
  pack_type store_path f recursive_dir p =
      if f.type == 0
      then (do (type, p₁) ← pack_regular store_path f p; ok (type, recursive_dir, p₁))
      else if f.type == 1
      then (do
        existing ← file_by_hash src.engine p.li f.hash
        ok (pack_directory f recursive_dir existing p))
      else if f.type == 2
      then ok (symlink (wire_bytes f.link_target), recursive_dir, p)
      else panic

  -- Whether a file lies in the directory that was matched last.
  unfoldable pub is_skipped : Text → StoreFile → Bool
  unfolding has_prefix
  is_skipped [] f = false
  is_skipped (c ∷ dir) f = has_prefix f.path (c ∷ dir)

  -- The loop over the store files.
  unfoldable pub pack_files :
      Text → Text → List StoreFile → Packing → Result (List NarFile × Packing)
  unfolding is_skipped pack_type
  pack_files store_path recursive_dir [] p = ok ([], p)
  pack_files store_path recursive_dir (f ∷ fs) p =
      let skipped = pack_files store_path recursive_dir fs p in
      if is_skipped recursive_dir f then skipped else (do
        (type, recursive_dir', p₁) ← pack_type store_path f recursive_dir p
        (files, p₂) ← pack_files store_path recursive_dir' fs p₁
        ok (record { path = f.path; file_type = type } ∷ files, p₂))
