-- ===== src/Unpack/Nar/Refines/Files.antt =====
-- `writeNAR` makes the calls of the trace: its chunks, walks, files and the whole.
use deltanar.Base.{
  ℕ, List, [], ◌∷◌, ◌≡◌, refl, ap, ◌∙◌, inl, inr, Option, none, some, Option-cases, Result, ok, err,
  panic, stuck, ◌>>=◌, of_option, library, length, get_elem?,
}
use deltanar.Base.Text.{Text}
use deltanar.Base.Host.{Node, file, dir, link, special, Entries, no_entries, entry}
use deltanar.Unpack.Nar.Sink.{NarWriter, State}
use deltanar.Unpack.Nar.Chunks.{Inputs}
use deltanar.Unpack.Nar.Trace.{header, write, call, write_read, play}
use deltanar.Dnar.{
  ChunkDescriptor, ca, fd, delta, no_chunk, FdChunk, DeltaChunk, Nar, NarFile, FileType, regular,
  directory, symlink, no_type,
}
use deltanar.Base.Int.{ℤ, pos, negsuc, int_of_u64}
use deltanar.ChunkStore.{read_chunk}
use deltanar.Unpack.Nar.Chunks.{
  fd_range, delta_range, write_fd, write_delta, write_chunk, write_chunks,
}
use deltanar.Unpack.Nar.Walk.{
  pieces, put_pieces, copy_file, walk_node, walk_entries, walk_dir, join_path, dir_header,
  link_header,
}
use deltanar.Unpack.Nar.{write_directory, write_type, write_file, write_files, write_nar}
use deltanar.Unpack.Nar.Trace.{
  fd_bytes, delta_bytes, chunk_trace, chunks_trace, pieces_trace, content_trace, node_trace,
  entries_trace, root_trace, directory_trace, file_trace, nar_trace,
}
use deltanar.Unpack.Nar.Refines.{
  Fresh, Plays, Plays-seq, Plays-done, Plays-err, Plays-panic, put_header-Plays, put-Plays,
  Plays-write_read, Plays-open,
}
use deltanar.Unpack.Nar.Refines.Held.{open_input-Agrees, read_input_data-Agrees}

module _ {W : Type 0} (nw : NarWriter W) (inp : Inputs) where
  write_fd-Plays :
      (c : FdChunk) (s : State nw)
      → Fresh nw inp s
      → Plays nw inp (write_read (fd_bytes inp c)) s (write_fd nw inp c s)
  unfolding write_fd fd_bytes
  write_fd-Plays c s v = elim (Option-cases (get_elem? inp.files c.index)) [
    | inl e ↦ rw e (Plays-panic nw inp s)
    | inr (path, e) ↦ rw e (
        Plays-open nw inp s _ _ (λ content. fd_range content c) (open_input-Agrees nw inp path s v))
  ]

  write_delta-Plays :
      (c : DeltaChunk) (s : State nw)
      → Fresh nw inp s
      → Plays nw inp (write_read (delta_bytes inp c)) s (write_delta nw inp c s)
  unfolding write_delta delta_bytes
  write_delta-Plays c s v = elim (Option-cases (get_elem? inp.files c.index)) [
    | inl e ↦ rw e (Plays-panic nw inp s)
    | inr (path, e) ↦ rw e (
        Plays-open nw inp s _ _ (λ ref. delta_range inp ref c)
          (read_input_data-Agrees nw inp path s v))
  ]

  write_chunk-Plays :
      (c : ChunkDescriptor) (s : State nw)
      → Fresh nw inp s
      → Plays nw inp (chunk_trace inp c) s (write_chunk nw inp c s)
  unfolding write_chunk
  write_chunk-Plays (ca index) s v =
      Plays-write_read nw inp (read_chunk inp.store (int_of_u64 index)) s s refl v
  write_chunk-Plays (fd c) s v = write_fd-Plays c s v
  write_chunk-Plays (delta c) s v = write_delta-Plays c s v
  write_chunk-Plays no_chunk s v = Plays-done nw inp s v

  write_chunks-Plays :
      (cs : List ChunkDescriptor) (s : State nw)
      → Fresh nw inp s
      → Plays nw inp (chunks_trace inp cs) s (write_chunks nw inp cs s)
  unfolding write_chunks
  write_chunks-Plays [] s v = Plays-done nw inp s v
  write_chunks-Plays (c ∷ cs) s v =
      Plays-seq nw inp (chunk_trace inp c) (chunks_trace inp cs) s _ _ (write_chunk-Plays c s v)
        (write_chunks-Plays cs)

  put_pieces-Plays :
      (ps : List (List ℕ)) (s : State nw)
      → Fresh nw inp s
      → Plays nw inp (pieces_trace ps) s (put_pieces nw ps s)
  unfolding put_pieces
  put_pieces-Plays [] s v = Plays-done nw inp s v
  put_pieces-Plays (p ∷ ps) s v =
      Plays-seq nw inp (call (write p)) (pieces_trace ps) s _ _ (put-Plays nw inp p s v)
        (put_pieces-Plays ps)

  module _ (file_path input_dir : Text) where
    content-Plays :
        (content : Option (List ℕ)) (s : State nw)
        → Fresh nw inp s
        → Plays nw inp
            (content_trace content)
            s
            (do opened ← of_option library content; copy_file nw opened s)
    unfolding copy_file
    content-Plays none s v = Plays-err nw inp library s
    content-Plays (some content) s v = put_pieces-Plays (pieces (length content) content) s v

    mutual
      unfolding walk_node node_trace

      walk_node-Plays :
          (node : Node) (path : Text) (s : State nw)
          → Fresh nw inp s
          → Plays nw inp
              (node_trace inp.host file_path input_dir path node)
              s
              (walk_node nw inp.host file_path input_dir path node s)
      walk_node-Plays (file content executable) path s v =
          Plays-seq nw inp (call (header _)) _ s _ _ (put_header-Plays nw inp _ s v)
            (content-Plays (inp.host.open_file path))
      walk_node-Plays (dir es) path s v =
          Plays-seq nw inp (call (header _)) _ s _ _ (put_header-Plays nw inp _ s v)
            (walk_entries-Plays es path)
      walk_node-Plays (link target) path s v = put_header-Plays nw inp _ s v
      walk_node-Plays special path s v = Plays-err nw inp _ s

      walk_entries-Plays :
          (es : Entries) (path : Text) (s : State nw)
          → Fresh nw inp s
          → Plays nw inp
              (entries_trace inp.host file_path input_dir path es)
              s
              (walk_entries nw inp.host file_path input_dir path es s)
      walk_entries-Plays no_entries path s v = Plays-done nw inp s v
      walk_entries-Plays (entry name node es) path s v =
          Plays-seq nw inp (node_trace inp.host file_path input_dir (join_path path name) node) _ s
            _ _ (walk_node-Plays node (join_path path name) s v) (walk_entries-Plays es path)

    walk_dir-Plays :
        (s : State nw)
        → Fresh nw inp s
        → Plays nw inp
            (root_trace inp.host file_path input_dir (inp.host.lstat input_dir))
            s
            (walk_dir nw inp.host file_path input_dir s)
    unfolding walk_dir
    walk_dir-Plays s v = elim (Option-cases (inp.host.lstat input_dir)) [
      | inl e ↦ rw e (Plays-err nw inp library s)
      | inr (node, e) ↦ rw e (walk_node-Plays node input_dir s v)
    ]

  write_directory-Plays :
      (from : ℤ) (path : Text) (s : State nw)
      → Fresh nw inp s
      → Plays nw inp (directory_trace inp from path) s (write_directory nw inp from path s)
  unfolding write_directory
  write_directory-Plays (negsuc _) path s v = put_header-Plays nw inp (dir_header path) s v
  write_directory-Plays (pos from) path s v = elim (Option-cases (get_elem? inp.files from)) [
    | inl e ↦ rw e (Plays-panic nw inp s)
    | inr (input_dir, e) ↦ rw e (walk_dir-Plays path input_dir s v)
  ]

  write_type-Plays :
      (type : FileType) (path : Text) (s : State nw)
      → Fresh nw inp s
      → Plays nw inp (file_trace inp type path) s (write_type nw inp type path s)
  unfolding write_type
  write_type-Plays (regular meta) path s v =
      Plays-seq nw inp (call (header _)) (chunks_trace inp meta.chunks) s _ _
        (put_header-Plays nw inp _ s v) (write_chunks-Plays meta.chunks)
  write_type-Plays (directory from) path s v = write_directory-Plays from path s v
  write_type-Plays (symlink target) path s v = put_header-Plays nw inp (link_header path target) s v
  write_type-Plays no_type path s v = Plays-done nw inp s v

  write_files-Plays :
      (files : List NarFile) (s : State nw)
      → Fresh nw inp s
      → Plays nw inp (nar_trace inp files) s (write_files nw inp files s)
  unfolding write_files write_file
  write_files-Plays [] s v = Plays-done nw inp s v
  write_files-Plays (f ∷ fs) s v =
      Plays-seq nw inp (file_trace inp f.file_type f.path) (nar_trace inp fs) s _ _
        (write_type-Plays f.file_type f.path s v) (write_files-Plays fs)

  close_state : Result (State nw) → Result W
  close_state r = r >>= λ s. of_option library (nw.close s.writer)

  close_writer : Result nw.Writing → Result W
  close_writer r = r >>= λ w. of_option library (nw.close w)

  close-writer_of : (r : Result (State nw)) → close_state r ≡ close_writer (r >>= λ s. ok s.writer)
  unfolding close_state close_writer
  close-writer_of (ok s) = refl
  close-writer_of (err e) = refl
  close-writer_of panic = refl
  close-writer_of stuck = refl

  -- On every outcome, errors and panics included, `writeNAR` makes the calls of the NAR's trace on a new
  -- writer, ends as the trace does, and closes the writer if that was well. The trace keeps no file open
  -- and does not depend on the writer.
  pub write_nar-play :
      (nar : Nar) (w : W)
      → write_nar nw inp nar w ≡ (do
        start ← of_option library (nw.new_writer w)
        end ← play nw (nar_trace inp nar.files) start
        of_option library (nw.close end))
  unfolding write_nar
  write_nar-play nar w = elim (Option-cases (nw.new_writer w)) [
    | inl e ↦ rw e
    | inr (start, e) ↦
        let s : State nw = record { writer = start; input_fds = []; input_data = [] } in
        let p = write_files-Plays nar.files s (record { fds = tt; mapped = tt }) in
        rw e (
          unfold close_state close_writer in
          (close-writer_of (write_files nw inp nar.files s) ∙ ap close_writer p.same))
  ]
