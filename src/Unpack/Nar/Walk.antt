-- ===== src/Unpack/Nar/Walk.antt =====
-- Copying a directory that the target has (internal/cmd/dnar-unpack/write.go, the walk of `writeNAR`).
use deltanar.Base.{
  ℕ, zero, suc, List, [], ◌∷◌, ◌++◌, Bool, false, Result, ok, err, ◌>>=◌, of_option, library,
  unsupported_file_type, length, take, drop,
}
use deltanar.Base.Int.{ℤ, pos}
use deltanar.Base.Text.{Text, trim_prefix}
use deltanar.Base.Host.{Host, Node, file, dir, link, special, Entries, no_entries, entry}
use deltanar.Unpack.Nar.Sink.{
  NarWriter, State, Header, type_regular, type_directory, type_symlink, put_header, put,
}

-- `io.Copy` moves at most this many bytes at a time.
abbrev pub copy_size : ℕ
copy_size = 32768

-- A file's bytes in the pieces that `io.Copy` writes; each has a byte, so their number is fuel enough.
unfoldable pub pieces : ℕ → List ℕ → List (List ℕ)
pieces fuel [] = []
pieces zero (b ∷ bs) = []
pieces (suc fuel) (b ∷ bs) = take copy_size (b ∷ bs) ∷ pieces fuel (drop copy_size (b ∷ bs))

-- `filepath.Join` of a clean path and a name.
abbrev pub join_path : Text → Text → Text
join_path path name = path ++ (b'/' ∷ name)

abbrev pub dir_header : Text → Header
dir_header path = record {
  path = path;
  type = type_directory;
  size = pos 0;
  executable = false;
  link_target = [];
}

abbrev pub link_header : Text → Text → Header
link_header path target = record {
  path = path;
  type = type_symlink;
  size = pos 0;
  executable = false;
  link_target = target;
}

abbrev pub file_header : Text → ℤ → Bool → Header
file_header path size executable = record {
  path = path;
  type = type_regular;
  size = size;
  executable = executable;
  link_target = [];
}

-- The path inside the NAR of a path below the input directory.
abbrev pub rel_path : Text → Text → Text → Text
rel_path file_path input_dir path = file_path ++ trim_prefix path input_dir

module _ {W : Type 0} (nw : NarWriter W) where
  unfoldable pub put_pieces : List (List ℕ) → State nw → Result (State nw)
  put_pieces [] s = ok s
  put_pieces (p ∷ ps) s = do s₁ ← put nw p s; put_pieces ps s₁

  -- `io.Copy(nw, fp)`
  unfoldable pub copy_file : List ℕ → State nw → Result (State nw)
  unfolding pieces put_pieces
  copy_file content s = put_pieces (pieces (length content) content) s

  module _ (host : Host) (file_path input_dir : Text) where
    -- The function that `filepath.WalkDir` calls, on a path and what stands there, and the walk itself: a
    -- directory comes before its entries.
    unfoldable mutual
      pub walk_node : Text → Node → State nw → Result (State nw)
      walk_node path (file content executable) s = do
        s₁ ←
            put_header nw
              (file_header (rel_path file_path input_dir path) (pos (length content)) executable) s
        opened ← of_option library (host.open_file path)
        copy_file opened s₁
      walk_node path (dir es) s = do
        s₁ ← put_header nw (dir_header (rel_path file_path input_dir path)) s
        walk_entries path es s₁
      walk_node path (link target) s =
          put_header nw (link_header (rel_path file_path input_dir path) target) s
      walk_node path special s = err unsupported_file_type

      pub walk_entries : Text → Entries → State nw → Result (State nw)
      walk_entries path no_entries s = ok s
      walk_entries path (entry name node es) s = do
        s₁ ← walk_node (join_path path name) node s
        walk_entries path es s₁

    -- `filepath.WalkDir`
    unfoldable pub walk_dir : State nw → Result (State nw)
    unfolding walk_node
    walk_dir s = do root ← of_option library (host.lstat input_dir); walk_node input_dir root s
