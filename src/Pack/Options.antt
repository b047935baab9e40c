-- ===== src/Pack/Options.antt =====
-- The command line of dnar-pack (internal/cmd/dnar-pack/main.go).
pub mod Laws
use deltanar.Base.{ℕ, List, [], ◌∷◌, Option, Result, ok, ◌>>=◌, of_option, library, if◌then◌else◌}
use deltanar.Base.Text.{Text, text_eq, bytes}
use deltanar.Base.Flags.{Settings, Parsed, parsed, exits, parse_flags, flag_value}
use deltanar.Database.{Db}
use deltanar.Dnar.Wire.{Wire}
use deltanar.Store.{Hashing}
use deltanar.Store.Tree.{Attributes, read_store_path}
use deltanar.Pack.Files.{Source}
use deltanar.Pack.PathInfo.{Json, get_path_infos}
use deltanar.Pack.Roots.{query_requisites, read_directory}
use deltanar.Pack.Main.{plan_paths, pack_main}

-- The variables that the flags set.
pub record Options : Type 0 where
  pub db_path : Text
  pub gc_roots_dir : Text
  pub deploy_host : Text
  pub store_path : Text
  pub output_file : Text

pub data Started : Type 0 where
  exited : ℕ → Started
  panicked : Started
  started : Options → Started

abbrev pub pack_flags : List Text
pack_flags = bytes "db" ∷ bytes "gcroots" ∷ bytes "host" ∷ bytes "path" ∷ bytes "out" ∷ []

-- The variables after parsing, with the defaults of those that were not set.
unfoldable pub options_of : Settings → Options
unfolding flag_value
options_of set = record {
  db_path = flag_value (bytes "db") (bytes "dnar.sqlite3") set;
  gc_roots_dir = flag_value (bytes "gcroots") (bytes "gcroots") set;
  deploy_host = flag_value (bytes "host") [] set;
  store_path = flag_value (bytes "path") [] set;
  output_file = flag_value (bytes "out") (bytes "delta.dnar") set;
}

-- The host and the path have to be given.
abbrev pub check_options : Options → Started
unfolding text_eq
check_options o =
    if text_eq o.deploy_host []
    then panicked
    else if text_eq o.store_path []
    then panicked
    else started o

abbrev pub start_with : Parsed → Started
unfolding check_options options_of
start_with (exits code) = exited code
start_with (parsed set _) = check_options (options_of set)

-- The first part of `main`, on the arguments behind the program's name.
unfoldable pub pack_options : List Text → Started
unfolding start_with
pack_options args = start_with (parse_flags pack_flags [] args)

-- Where the stream goes: to standard output, or to a file that is created.
pub data Output : Type 0 where
  stdout : Output
  created : Text → Output

unfoldable pub open_writer : (Text → Option (Unit {0})) → Text → Result Output
unfolding text_eq
open_writer create output_file =
    if text_eq output_file (b'-' ∷ [])
    then ok stdout
    else of_option library (create output_file) >>= λ _. ok (created output_file)

-- How `main` ends: with an exit, a panic, or its output with the stream that is written to it.
pub data Outcome (B : Type 0) : Type 0 where
  left : ℕ → Outcome B
  died : Outcome B
  ran : Result (Output × List B) → Outcome B

-- `main`. The database of a path is the one that is opened and migrated.
module _ {B : Type 0} (src : Source) (w : Wire B) (hashing : Hashing) (attr : Attributes)
    (nix_store nix : List Text → Option Text) (json : Json) (open_db : Text → Result Db)
    (create : Text → Option (Unit {0})) where
  unfoldable pub run_pack : Started → Outcome B
  unfolding plan_paths pack_main open_writer query_requisites read_directory get_path_infos
      read_store_path
  run_pack (exited code) = left code
  run_pack panicked = died
  run_pack (started o) = ran (do
    db ← open_db o.db_path
    plan ←
        plan_paths (λ path. read_store_path hashing src.host attr path) (query_requisites nix_store)
          (read_directory src.host nix_store o.gc_roots_dir o.deploy_host) o.store_path db
    output ← open_writer create o.output_file
    stream ← pack_main src w (get_path_infos nix json) plan
    ok (output, stream))

  unfoldable pub dnar_pack : List Text → Outcome B
  unfolding pack_options run_pack
  dnar_pack args = run_pack (pack_options args)
