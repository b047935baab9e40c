-- ===== src/Unpack/Nar/Trace.antt =====
-- What `writeNAR` says to the NAR writer, as a list of its calls and how it ends. Here no file is kept
-- open, and the writer's state plays no part.
use deltanar.Base.{
  ℕ, List, [], ◌∷◌, ◌++◌, Option, none, some, Result, ok, err, panic, stuck, ◌>>=◌, ◌>>◌, of_option,
  or_panic, library, unsupported_file_type, length, get_elem?,
}
use deltanar.Base.Int.{ℤ, pos, negsuc, int_of_u64}
use deltanar.Base.Text.{Text}
use deltanar.Base.Host.{Host, Node, file, dir, link, special, Entries, no_entries, entry, mmap_open}
use deltanar.ChunkStore.{read_chunk}
use deltanar.Dnar.{
  ChunkDescriptor, ca, fd, delta, no_chunk, FdChunk, DeltaChunk, NarFile, FileType, regular,
  directory, symlink, no_type,
}
use deltanar.Unpack.Nar.Sink.{NarWriter, Header}
use deltanar.Unpack.Nar.Chunks.{Inputs, fd_range, delta_range}
use deltanar.Unpack.Nar.Walk.{rel_path, dir_header, link_header, file_header, join_path, pieces}

pub data Call : Type 0 where
  header : Header → Call
  write : List ℕ → Call

-- The calls that are made, and how it ends.
pub record Trace : Type 0 where
  pub calls : List Call
  pub outcome : Result (Unit {0})

abbrev pub done : Trace
done = record { calls = []; outcome = ok tt }

abbrev pub call : Call → Trace
call c = record { calls = c ∷ []; outcome = ok tt }

-- The bytes that are read are written.
abbrev pub write_read : Result (List ℕ) → Trace
write_read (ok bytes) = call (write bytes)
write_read (err e) = record { calls = []; outcome = err e }
write_read panic = record { calls = []; outcome = panic }
write_read stuck = record { calls = []; outcome = stuck }

-- The second is reached only if the first ends well.
abbrev pub go_on : List Call → Result (Unit {0}) → Trace → Trace
go_on calls (ok _) t = record { calls = calls ++ t.calls; outcome = t.outcome }
go_on calls (err e) t = record { calls = calls; outcome = err e }
go_on calls panic t = record { calls = calls; outcome = panic }
go_on calls stuck t = record { calls = calls; outcome = stuck }

infixr 60 ◌⨾◌
abbrev pub ◌⨾◌ : Trace → Trace → Trace
t ⨾ t' = go_on t.calls t.outcome t'

module _ (inp : Inputs) where
  -- The bytes that a chunk descriptor stands for.
  unfoldable pub fd_bytes : FdChunk → Result (List ℕ)
  fd_bytes c = do
    path ← or_panic (get_elem? inp.files c.index)
    content ← of_option library (inp.host.open_file path)
    fd_range content c

  unfoldable pub delta_bytes : DeltaChunk → Result (List ℕ)
  delta_bytes c = do
    path ← or_panic (get_elem? inp.files c.index)
    ref ← mmap_open inp.host path
    delta_range inp ref c

  abbrev pub chunk_trace : ChunkDescriptor → Trace
  chunk_trace (ca index) = write_read (read_chunk inp.store (int_of_u64 index))
  chunk_trace (fd c) = write_read (fd_bytes c)
  chunk_trace (delta c) = write_read (delta_bytes c)
  chunk_trace no_chunk = done

  abbrev pub chunks_trace : List ChunkDescriptor → Trace
  chunks_trace [] = done
  chunks_trace (c ∷ cs) = chunk_trace c ⨾ chunks_trace cs

abbrev pub pieces_trace : List (List ℕ) → Trace
pieces_trace [] = done
pieces_trace (p ∷ ps) = call (write p) ⨾ pieces_trace ps

abbrev pub content_trace : Option (List ℕ) → Trace
content_trace none = record { calls = []; outcome = err library }
content_trace (some content) = pieces_trace (pieces (length content) content)

module _ (host : Host) (file_path input_dir : Text) where
  unfoldable mutual
    pub node_trace : Text → Node → Trace
    node_trace path (file content executable) =
        call (
          header
            (file_header (rel_path file_path input_dir path) (pos (length content)) executable))
        ⨾ content_trace (host.open_file path)
    node_trace path (dir es) =
        call (header (dir_header (rel_path file_path input_dir path))) ⨾ entries_trace path es
    node_trace path (link target) =
        call (header (link_header (rel_path file_path input_dir path) target))
    node_trace path special = record { calls = []; outcome = err unsupported_file_type }

    pub entries_trace : Text → Entries → Trace
    entries_trace path no_entries = done
    entries_trace path (entry name node es) =
        node_trace (join_path path name) node ⨾ entries_trace path es

  abbrev pub root_trace : Option Node → Trace
  root_trace none = record { calls = []; outcome = err library }
  root_trace (some node) = node_trace input_dir node

module _ (inp : Inputs) where
  abbrev pub dir_trace : Text → Option Text → Trace
  dir_trace path none = record { calls = []; outcome = panic }
  dir_trace path (some input_dir) = root_trace inp.host path input_dir (inp.host.lstat input_dir)

  abbrev pub directory_trace : ℤ → Text → Trace
  directory_trace (negsuc _) path = call (header (dir_header path))
  directory_trace (pos from) path = dir_trace path (get_elem? inp.files from)

  abbrev pub file_trace : FileType → Text → Trace
  file_trace (regular meta) path =
      call (header (file_header path (int_of_u64 meta.size) meta.executable))
      ⨾ chunks_trace inp meta.chunks
  file_trace (directory from) path = directory_trace from path
  file_trace (symlink target) path = call (header (link_header path target))
  file_trace no_type path = done

  abbrev pub nar_trace : List NarFile → Trace
  nar_trace [] = done
  nar_trace (f ∷ fs) = file_trace f.file_type f.path ⨾ nar_trace fs

module _ {W : Type 0} (nw : NarWriter W) where
  abbrev pub one_call : Call → nw.Writing → Option nw.Writing
  one_call (header h) w = nw.write_header w h
  one_call (write bytes) w = nw.write w bytes

  -- The calls are made one after the other, until one fails.
  unfoldable pub feed : List Call → nw.Writing → Result nw.Writing
  feed [] w = ok w
  feed (c ∷ cs) w = do w' ← of_option library (one_call c w); feed cs w'

  unfoldable pub play : Trace → nw.Writing → Result nw.Writing
  play t w = do w' ← feed t.calls w; t.outcome; ok w'
