-- ===== src/Tests/Commands.antt =====
-- The command lines of both programs, and a binary cache of one NAR.
use deltanar.Base.{ℕ, ◌≡◌, ◌≢◌, ◌↔◌, refl, List, [], ◌∷◌, Result, ok}
use deltanar.Base.Text.{bytes, text_eq, filepath_base, drop_slashes, until_slash, join}
use deltanar.Base.Flags.{Settings, is_defined, flag_value}
use deltanar.Base.Flags.Laws.{AreFlags, flag_args, set_all, last_value}
use deltanar.Dnar.{Nar}
use deltanar.Unpack.Nar.{write_nar, write_files, write_file, write_type, write_directory}
use deltanar.Unpack.Nar.Sink.{State, put_header}
use deltanar.Pack.Options.{Options, started, pack_flags, pack_options}
use deltanar.Pack.Options.Laws.{Says, pack_options-flag_args}
use deltanar.Unpack.BinaryCache.{File, create_nar, write_nar_info, cache_nars, digits}
use deltanar.Unpack.BinaryCache.Laws.{AreCached, cache_nars-AreCached}
use deltanar.Unpack.Main.{default_input}
use deltanar.Tests.Unpack.{nar_writer, inputs, encoding, one_nar, cache_fs}

abbrev new_state : List ℕ → State nar_writer
new_state w = record { writer = w; input_fds = []; input_data = [] }

abbrev cache_set : Settings
cache_set = (bytes "cache", bytes "c") ∷ (bytes "input", bytes "-") ∷ []

abbrev export_set : Settings
export_set = (bytes "input", bytes "a") ∷ (bytes "input", bytes "b") ∷ []

-- The later of two values, and the default of the other flag.
later :
    (flag_value (bytes "input") default_input (set_all export_set []) ≡ bytes "b")
    × (flag_value (bytes "output") (b'-' ∷ []) (set_all export_set []) ≡ b'-' ∷ [])
unfolding flag_value text_eq
later = (refl, refl)

abbrev named_nar : Nar
named_nar = record one_nar { path = bytes "/s/0123456789abcdef0123456789abcdef-x" }

abbrev out : Result (List File) → List File
out (ok files) = files
out _ = []

abbrev cached : List File
unfolding cache_nars
cached = out (cache_nars cache_fs (bytes "/c") nar_writer inputs (named_nar ∷ []))

caches : cache_nars cache_fs (bytes "/c") nar_writer inputs (named_nar ∷ []) ≡ ok cached
unfolding cache_nars create_nar write_nar_info filepath_base drop_slashes until_slash join digits
    write_nar write_files write_file write_type write_directory put_header
caches = refl

cache_nars-AreCached_example :
    AreCached cache_fs (bytes "/c") nar_writer encoding inputs (named_nar ∷ []) cached
cache_nars-AreCached_example =
    cache_nars-AreCached cache_fs (bytes "/c") nar_writer encoding inputs (named_nar ∷ []) cached
      caches

abbrev pack_set : Settings
pack_set = (bytes "host", bytes "h") ∷ (bytes "path", bytes "/s/x") ∷ []

pack_set-AreFlags : AreFlags pack_flags pack_set
unfolding is_defined text_eq
pack_set-AreFlags = (
  ((refl, refl, (refl, (refl, (refl, tt)))), refl),
  (((refl, refl, (refl, (refl, (refl, tt)))), refl), tt),
)

abbrev pack_o : Options
pack_o = record {
  db_path = bytes "dnar.sqlite3";
  gc_roots_dir = bytes "gcroots";
  deploy_host = bytes "h";
  store_path = bytes "/s/x";
  output_file = bytes "delta.dnar";
}

pack_options-flag_args_example :
    (pack_options (flag_args pack_set) ≡ started pack_o)
    ↔ (Says pack_set pack_o × (pack_o.deploy_host ≢ []) × (pack_o.store_path ≢ []))
pack_options-flag_args_example = pack_options-flag_args pack_set pack_o pack_set-AreFlags

-- All of it holds, so that the packer starts.
given : Says pack_set pack_o × (pack_o.deploy_host ≢ []) × (pack_o.store_path ≢ [])
unfolding last_value text_eq
given = ((refl, refl, refl, refl, refl), λ e. cc, λ e. cc)
