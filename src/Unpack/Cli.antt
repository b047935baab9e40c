-- ===== src/Unpack/Cli.antt =====
-- The input and output of dnar-unpack (internal/cmd/dnar-unpack/cli.go).
use deltanar.Base.{List, [], ◌∷◌, Option, Result, ok, of_option, library, if◌then◌else◌}
use deltanar.Base.Text.{Text, text_eq}

-- The process's streams, and the opening and creating of a file.
pub record Streams (B W : Type 0) : Type 0 where
  pub stdin : List B
  pub open_file : Text → Option (List B)
  pub stdout : W
  pub create : Text → Option W

module _ {B W : Type 0} (s : Streams B W) where
  -- `openInput`
  unfoldable pub open_input : Text → Result (List B)
  unfolding text_eq
  open_input input_file =
      if text_eq input_file (b'-' ∷ [])
      then ok s.stdin
      else of_option library (s.open_file input_file)

  -- `openOutput`
  unfoldable pub open_output : Text → Result W
  unfolding text_eq
  open_output output_file =
      if text_eq output_file (b'-' ∷ [])
      then ok s.stdout
      else of_option library (s.create output_file)
