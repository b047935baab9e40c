-- ===== src/Base/Flags.antt =====
-- Go's `flag` package, as far as the commands use it: a set of string flags that exits on an error.
pub mod Laws
use Prim.Native.Nat.{ℕ}
use mathlib.Core.Bool.{Bool, true, false, ◌||◌}
use mathlib.Core.Option.{Option, none, some}
use mathlib.Core.List.{List, [], ◌∷◌}
use deltanar.Base.Tests.{◌==◌, if◌then◌else◌}
use deltanar.Base.Text.{Text, text_eq, bytes}

-- The flags that were set, the last one in front.
abbrev pub Settings : Type 0
Settings = List (Text × Text)

-- The arguments that are left, or the exit code: 0 for help, 2 for an error.
pub data Parsed : Type 0 where
  parsed : Settings → List Text → Parsed
  exits : ℕ → Parsed

-- What an argument is, where a flag may stand.
pub data Arg : Type 0 where
  operand terminator : Arg
  refused : ℕ → Arg
  bare : Text → Arg
  assigned : Text → Text → Arg

unfoldable pub is_defined : Text → List Text → Bool
is_defined name [] = false
is_defined name (n ∷ ns) = text_eq n name || is_defined name ns

-- A flag's name and the text behind its first `=`, if there is one.
unfoldable pub split_name : Text → Text × Option Text
split_name [] = ([], none)
split_name (c ∷ s) =
    let rest = split_name s in if c == b'=' then ([], some s) else (c ∷ rest.0, rest.1)

-- An undefined flag: `-help` and `-h` ask for help.
abbrev pub undefined_flag : Text → Arg
undefined_flag name =
    if text_eq name (bytes "help") || text_eq name (b'h' ∷ []) then refused 0 else refused 2

abbrev pub as_arg : Text → Option Text → Arg
as_arg name none = bare name
as_arg name (some value) = assigned name value

-- The text behind the dashes, which begins with its first byte: no name begins with a dash or a `=`.
unfoldable pub named : List Text → Text → Arg
unfolding is_defined split_name
named names [] = refused 2
named names (c ∷ s) =
    let (name, value) = split_name s in
    if c == b'-' || c == b'='
    then refused 2
    else if is_defined (c ∷ name) names
    then as_arg (c ∷ name) value
    else undefined_flag (c ∷ name)

abbrev pub behind_dashes : List Text → Text → Arg
behind_dashes names [] = terminator
behind_dashes names (c ∷ s) = named names (c ∷ s)

unfoldable pub classify : List Text → Text → Arg
unfolding named
classify names [] = operand
classify names (c ∷ []) = operand
classify names (c ∷ d ∷ s) =
    if c == b'-'
    then (if d == b'-' then behind_dashes names s else named names (d ∷ s))
    else operand

-- `FlagSet.Parse`
unfoldable mutual
  unfolding classify

  pub parse_flags : List Text → Settings → List Text → Parsed
  parse_flags names set [] = parsed set []
  parse_flags names set (a ∷ args) = elim (classify names a) [
    | operand ↦ parsed set (a ∷ args)
    | terminator ↦ parsed set args
    | refused code ↦ exits code
    | bare name ↦ parse_value names name set args
    | assigned name value ↦ parse_flags names ((name, value) ∷ set) args
  ]

  -- The value of a flag is the next argument, whatever it looks like.
  pub parse_value : List Text → Text → Settings → List Text → Parsed
  parse_value names name set [] = exits 2
  parse_value names name set (a ∷ args) = parse_flags names ((name, a) ∷ set) args

-- What a flag's variable holds after parsing.
unfoldable pub flag_value : Text → Text → Settings → Text
flag_value name default [] = default
flag_value name default ((n, v) ∷ set) = if text_eq n name then v else flag_value name default set
