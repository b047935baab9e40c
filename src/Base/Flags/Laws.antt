-- ===== src/Base/Flags/Laws.antt =====
-- Flags that are set with their values behind them.
use mathlib.Core.Path.{◌≡◌, refl, ◌∙◌}
use mathlib.Core.Bool.{true, false}
use mathlib.Core.Option.{none}
use mathlib.Core.List.{List, [], ◌∷◌}
use deltanar.Base.Tests.{◌==◌, if◌then◌else◌}
use deltanar.Base.Lists.{All}
use deltanar.Base.Text.{Text, text_eq}
use deltanar.Base.Flags.{
  Settings, parsed, bare, is_defined, split_name, named, classify, parse_flags, flag_value,
}

-- A name without a `=`, that does not begin with a dash.
abbrev HasNoEquals : Text → Type 0
HasNoEquals = All (λ c. (c == b'=') ≡ false)

abbrev pub IsFlagName : Text → Type 0
IsFlagName [] = ⊥
IsFlagName (c ∷ s) = ((c == b'-') ≡ false) × ((c == b'=') ≡ false) × HasNoEquals s

-- `-name value` for each setting.
abbrev pub flag_args : Settings → List Text
flag_args [] = []
flag_args ((name, value) ∷ set) = (b'-' ∷ name) ∷ value ∷ flag_args set

abbrev pub AreFlags : List Text → Settings → Type 0
AreFlags names = All (λ s. IsFlagName s.0 × (is_defined s.0 names ≡ true))

split_name-whole : (s : Text) → HasNoEquals s → split_name s ≡ (s, none)
unfolding split_name
split_name-whole [] h = refl
split_name-whole (c ∷ s) (e, h) = rw (e, split_name-whole s h)

classify-bare :
    (names : List Text) (name : Text)
    → IsFlagName name
    → is_defined name names ≡ true
    → classify names (b'-' ∷ name) ≡ bare name
unfolding classify named
classify-bare names [] h d = absurd h
classify-bare names (c ∷ s) (e, e', h) d = rw (e, e', split_name-whole s h, d)

-- The settings behind one another, the last in front.
abbrev pub set_all : Settings → Settings → Settings
set_all [] set = set
set_all (s ∷ rest) set = set_all rest (s ∷ set)

parse_flags-step :
    (names : List Text) (set : Settings) (name value : Text) (args : List Text)
    → classify names (b'-' ∷ name) ≡ bare name
    → parse_flags names set ((b'-' ∷ name) ∷ value ∷ args)
      ≡ parse_flags names ((name, value) ∷ set) args
unfolding parse_flags
parse_flags-step names set name value args e = rw (parse_flags, e)

-- Settings of defined flags are parsed as they were written.
pub parse_flags-flag_args :
    (names : List Text) (new set : Settings)
    → AreFlags names new
    → parse_flags names set (flag_args new) ≡ parsed (set_all new set) []
unfolding parse_flags
parse_flags-flag_args names [] set h = refl
parse_flags-flag_args names ((name, value) ∷ new) set ((flag, defined), h) =
    parse_flags-step names set name value (flag_args new) (classify-bare names name flag defined)
    ∙ parse_flags-flag_args names new ((name, value) ∷ set) h

-- The value that was given last, in the order of the arguments, or the default.
unfoldable pub last_value : Text → Text → Settings → Text
last_value name default [] = default
last_value name default ((n, v) ∷ set) =
    let found = if text_eq n name then v else default in last_value name found set

pub flag_value-set_all :
    (name default : Text) (new set : Settings)
    → flag_value name default (set_all new set) ≡ last_value name (flag_value name default set) new
unfolding flag_value last_value
flag_value-set_all name default [] set = refl
flag_value-set_all name default ((n, v) ∷ new) set =
    flag_value-set_all name default new ((n, v) ∷ set)
