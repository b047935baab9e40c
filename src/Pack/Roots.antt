-- ===== src/Pack/Roots.antt =====
-- The store paths a host has (internal/gcroots/gcroots.go), and the output of nix-store
-- (internal/store/closure.go).
use deltanar.Base.{
  ℕ, List, [], ◌∷◌, Bool, ◌||◌, ◌==◌, Option, none, some, Result, ok, err, library, not_a_symlink,
  ◌>>=◌, of_option, if◌then◌else◌,
}
use deltanar.Base.Text.{Text}
use deltanar.Base.Host.{Host, Node, file, dir, link, special, Entries, no_entries, entry}
use deltanar.Unpack.Nar.Walk.{join_path}
use mathlib.Core.List.{reverse}

-- The white space of ASCII, at which `strings.Fields` splits.
abbrev pub is_space : ℕ → Bool
is_space c = c == 9 || c == 10 || c == 11 || c == 12 || c == 13 || c == 32

-- A field that is not empty.
abbrev pub keep_field : Text → List Text → List Text
keep_field [] rest = rest
keep_field (c ∷ field) rest = (c ∷ field) ∷ rest

-- `strings.Fields`, behind what was read of the field, in reverse.
unfoldable pub fields_behind : Text → Text → List Text
fields_behind field [] = keep_field (reverse field) []
fields_behind field (c ∷ s) =
    let ended = keep_field (reverse field) (fields_behind [] s) in
    let longer = fields_behind (c ∷ field) s in if is_space c then ended else longer

abbrev pub fields : Text → List Text
fields s = fields_behind [] s

-- `QueryRequisites`, with nix-store as a function of its arguments.
unfoldable pub query_requisites : (List Text → Option Text) → List Text → Result (List Text)
unfolding fields_behind
query_requisites nix_store store_paths = do
  out ← of_option library (nix_store store_paths)
  ok (fields out)

-- The target of a root; anything but a symlink is refused.
abbrev pub root_target : Node → Result Text
root_target (link target) = ok target
root_target (file content executable) = err not_a_symlink
root_target (dir es) = err not_a_symlink
root_target special = err not_a_symlink

unfoldable pub root_targets : Entries → Result (List Text)
root_targets no_entries = ok []
root_targets (entry name node es) = do
  target ← root_target node
  rest ← root_targets es
  ok (target ∷ rest)

-- `os.ReadDir`
abbrev pub read_dir : Option Node → Result Entries
read_dir none = err library
read_dir (some (dir es)) = ok es
read_dir (some (file content executable)) = err library
read_dir (some (link target)) = err library
read_dir (some special) = err library

-- `ReadDirectory`
unfoldable pub read_directory : Host → (List Text → Option Text) → Text → Text → Result (List Text)
unfolding root_targets query_requisites
read_directory host nix_store gc_root_dir name = do
  entries ← read_dir (host.lstat (join_path gc_root_dir name))
  roots ← root_targets entries
  query_requisites nix_store roots
