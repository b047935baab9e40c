-- ===== src/Unpack/Nar.antt =====
-- Writing a NAR from its description (internal/cmd/dnar-unpack/write.go: `writeNAR`).
pub mod Chunks
pub mod Walk
pub mod Sink
pub mod Trace
pub mod Bounds
pub mod Copies
pub mod Refines
use deltanar.Base.{
  ℕ, List, [], ◌∷◌, ◌++◌, Bool, false, Result, ok, err, ◌>>=◌, of_option, library, get_elem?,
  or_panic,
}
use deltanar.Base.Int.{ℤ, pos, negsuc, int_of_u64}
use deltanar.Base.Text.{Text}
use deltanar.Base.Host.{Host}
use deltanar.Dnar.{Nar, NarFile, RegularFile, FileType, regular, directory, symlink, no_type}
use deltanar.Unpack.Nar.Sink.{NarWriter, Header, State, put_header}
use deltanar.Unpack.Nar.Chunks.{Inputs, write_chunks}
use deltanar.Unpack.Nar.Walk.{walk_dir, dir_header, link_header, file_header}

module _ {W : Type 0} (nw : NarWriter W) (inp : Inputs) where
  -- The directory that exists is copied; another is only announced, and its files follow.
  unfoldable pub write_directory : ℤ → Text → State nw → Result (State nw)
  write_directory (pos from) path s = do
    input_dir ← or_panic (get_elem? inp.files from)
    walk_dir nw inp.host path input_dir s
  write_directory (negsuc _) path s = put_header nw (dir_header path) s

  unfoldable pub write_regular : RegularFile → Text → State nw → Result (State nw)
  write_regular meta path s = do
    s₁ ← put_header nw (file_header path (int_of_u64 meta.size) meta.executable) s
    write_chunks nw inp meta.chunks s₁

  -- The switch over the kinds of files.
  unfoldable pub write_type : FileType → Text → State nw → Result (State nw)
  unfolding write_regular write_directory
  write_type (regular meta) path s = write_regular meta path s
  write_type (directory from) path s = write_directory from path s
  write_type (symlink target) path s = put_header nw (link_header path target) s
  write_type no_type path s = ok s

  -- The body of the loop over the files.
  unfoldable pub write_file : NarFile → State nw → Result (State nw)
  unfolding write_type
  write_file file s = write_type file.file_type file.path s

  unfoldable pub write_files : List NarFile → State nw → Result (State nw)
  write_files [] s = ok s
  write_files (file ∷ files) s = do s₁ ← write_file file s; write_files files s₁

  -- `writeNAR`
  unfoldable pub write_nar : Nar → W → Result W
  write_nar nar w = do
    state ← of_option library (nw.new_writer w)
    s ← write_files nar.files (record { writer = state; input_fds = []; input_data = [] })
    of_option library (nw.close s.writer)
