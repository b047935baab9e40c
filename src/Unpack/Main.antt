-- ===== src/Unpack/Main.antt =====
-- The command line of dnar-unpack (internal/cmd/dnar-unpack/main.go).
pub mod Laws
use deltanar.Base.{ℕ, List, [], ◌∷◌, Result, ◌>>=◌, if◌then◌else◌}
use deltanar.Base.Text.{Text, text_eq, bytes}
use deltanar.Base.Flags.{Settings, Parsed, parsed, exits, parse_flags, flag_value}
use deltanar.Base.Host.{Host}
use deltanar.Base.Writer.{Writer}
use deltanar.Delta.{DeltaCodec}
use deltanar.ChunkStore.{Os}
use deltanar.Dnar.Wire.{Wire}
use deltanar.Unpack.Nar.Sink.{NarWriter}
use deltanar.Unpack.Cli.{Streams, open_input, open_output}
use deltanar.Unpack.ExportMain.{nix_store_export_main}
use deltanar.Unpack.BinaryCache.{File, CacheFs, binary_cache_main}

-- What the arguments ask for: an exit with a code, or a command with its input and its directory or output.
pub data Command : Type 0 where
  exit_with : ℕ → Command
  binary_cache : Text → Text → Command
  nix_store_export : Text → Text → Command

abbrev pub cache_flags : List Text
cache_flags = bytes "cache" ∷ bytes "input" ∷ []

abbrev pub export_flags : List Text
export_flags = bytes "input" ∷ bytes "output" ∷ []

abbrev pub default_input : Text
default_input = bytes "delta.dnar"

-- `bcCmd.Parse(os.Args[2:])`
abbrev pub as_cache : Parsed → Command
unfolding flag_value
as_cache (exits code) = exit_with code
as_cache (parsed set _) =
    binary_cache (flag_value (bytes "input") default_input set) (flag_value (bytes "cache") [] set)

-- `nseCmd.Parse(os.Args[2:])`
abbrev pub as_export : Parsed → Command
unfolding flag_value
as_export (exits code) = exit_with code
as_export (parsed set _) =
    nix_store_export (flag_value (bytes "input") default_input set)
      (flag_value (bytes "output") (b'-' ∷ []) set)

-- The switch over the first argument.
unfoldable pub dispatch : List Text → Command
unfolding as_cache as_export parse_flags
dispatch [] = exit_with 1
dispatch (command ∷ args) =
    if text_eq command (bytes "binary-cache")
    then as_cache (parse_flags cache_flags [] args)
    else if text_eq command (bytes "nix-store-export")
    then as_export (parse_flags export_flags [] args)
    else exit_with 1

-- `flag.Parse()`, with no flag defined, comes before the switch.
abbrev pub after_parse : List Text → Parsed → Command
unfolding dispatch
after_parse args (exits code) = exit_with code
after_parse args (parsed _ _) = dispatch args

-- `main`, on the arguments behind the program's name.
unfoldable pub unpack_command : List Text → Command
unfolding after_parse
unpack_command args = after_parse args (parse_flags [] [] args)

-- How the process ends.
pub data Outcome (W : Type 0) : Type 0 where
  exited : ℕ → Outcome W
  cached : Result (List File) → Outcome W
  exported : Result W → Outcome W

module _ {B W : Type 0} (w : Wire B) (os : Os) (host : Host) (codec : DeltaCodec) (fs : CacheFs)
    (wr : Writer W) (nw : NarWriter W) (cache_writer : NarWriter (List ℕ)) (store_dir : Text)
    (s : Streams B W) where
  -- `binaryCacheMain` and `nixStoreExportMain` with the opening of their files; the input comes first.
  unfoldable pub run_command : Command → Outcome W
  unfolding open_input open_output binary_cache_main nix_store_export_main
  run_command (exit_with code) = exited code
  run_command (binary_cache input dir) = cached (do
    reader ← open_input s input
    binary_cache_main w os host codec fs cache_writer store_dir dir reader)
  run_command (nix_store_export input output) = exported (do
    reader ← open_input s input
    writer ← open_output s output
    nix_store_export_main w os host codec wr nw store_dir reader writer)

  unfoldable pub unpack_main : List Text → Outcome W
  unfolding unpack_command run_command
  unpack_main args = run_command (unpack_command args)
