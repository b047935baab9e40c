-- ===== src/Tests/Disk.antt =====
-- A small database and the files that it describes: a directory, a file that the target has, a file of two
-- chunks of which it has one, and a symlink.
use deltanar.Base.{ℕ, zero, suc, List, [], ◌∷◌, true, false, Option, none, some, if◌then◌else◌}
use deltanar.Base.Text.{Text, bytes, text_eq}
use deltanar.Base.Host.{Node, file, Host}
use deltanar.Database.{StorePath, StoreFile, Chunk, Db}
use deltanar.Pack.Votes.Best.{IsShuffle}
use deltanar.Pack.Files.{Source}
use deltanar.Tests.Samples.{codec, engine}

abbrev file_row : ℕ → ℕ → Text → ℕ → ℕ → Option Text → Option (List ℕ) → StoreFile
file_row id store_path_id path size type link_target hash = record {
  id = id;
  store_path_id = store_path_id;
  path = path;
  size = size;
  type = type;
  link_target = link_target;
  executable = false;
  hash = hash;
}

abbrev pub chunk_row : ℕ → ℕ → Text → ℕ → Chunk
chunk_row id file_id hash offset = record {
  id = id;
  file_id = file_id;
  hash = hash;
  size = 2;
  offset = offset;
}

abbrev pub old_f : StoreFile
old_f = file_row 1 1 (bytes "/f") 2 0 none (some (bytes "hi"))

abbrev pub new_root : StoreFile
new_root = file_row 2 2 (bytes "/") 0 1 none (some (bytes "d"))

abbrev pub new_f : StoreFile
new_f = file_row 3 2 (bytes "/f") 2 0 none (some (bytes "hi"))

abbrev pub new_g : StoreFile
new_g = file_row 4 2 (bytes "/g") 4 0 none (some (bytes "yohi"))

abbrev pub new_l : StoreFile
new_l = file_row 5 2 (bytes "/l") 0 2 (some (bytes "f")) none

abbrev pub old_path : StorePath
old_path = record { id = 1; path = bytes "/s/old" }

abbrev pub new_path : StorePath
new_path = record { id = 2; path = bytes "/s/new" }

abbrev pub db : Db
db = record {
  paths = old_path ∷ new_path ∷ [];
  files = old_f ∷ new_root ∷ new_f ∷ new_g ∷ new_l ∷ [];
  chunks =
      chunk_row 1 1 (bytes "hi") 0
      ∷ chunk_row 2 3 (bytes "hi") 0
      ∷ chunk_row 3 4 (bytes "yo") 0
      ∷ chunk_row 4 4 (bytes "hi") 2
      ∷ [];
  last_path = 2;
  last_file = 5;
  last_chunk = 4;
}

abbrev pub contents : ℕ → List ℕ
contents (suc zero) = bytes "hi"
contents (suc (suc (suc zero))) = bytes "hi"
contents (suc (suc (suc (suc zero)))) = bytes "yohi"
contents _ = []

-- On the packing host nothing can be mapped, so that no reference is used.
unfoldable pub disk : Text → Option (List ℕ)
unfolding text_eq
disk path =
    if text_eq path (bytes "/s/old/f")
    then some (bytes "hi")
    else if text_eq path (bytes "/s/new/f")
    then some (bytes "hi")
    else if text_eq path (bytes "/s/new/g")
    then some (bytes "yohi")
    else none

abbrev pub src : Source
src = record {
  host = record { open_file = disk; lstat = λ path. none; mappable = λ path. false };
  engine = engine;
  codec = codec;
  shuffle = λ votes. votes;
}

abbrev lstat_of : Option (List ℕ) → Option Node
lstat_of none = none
lstat_of (some content) = some (file content false)

abbrev pub target : Host
target = record { open_file = disk; lstat = λ path. lstat_of (disk path); mappable = λ path. true }

pub order : IsShuffle (λ votes. votes)
order = record { keeps = λ v votes i. i; finds = λ v votes i. i }
