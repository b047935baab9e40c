-- ===== src/Base/Text.antt =====
-- Go strings, as the lists of their bytes.
use Prim.Native.Nat.{ℕ}
use Prim.Native.Char.{code}
use Prim.Native.String.{String}
use mathlib.Core.Path.{◌≡◌, refl}
use mathlib.Core.Logic.{◌↔◌}
use mathlib.Core.Bool.{Bool, true, false, ◌&&◌}
use mathlib.Core.List.{List, [], ◌∷◌, ◌++◌, reverse}
use native.Mathlib.Omega.{arith}
use deltanar.Base.Tests.{◌==◌, if◌then◌else◌}

abbrev pub Text : Type 0
Text = List ℕ

-- The bytes of a literal, which is ASCII wherever the code has one.
abbrev pub bytes : String → Text
bytes String.[] = []
bytes (String.◌∷◌ c s) = code c ∷ bytes s

unfoldable pub text_eq : Text → Text → Bool
text_eq [] [] = true
text_eq (x ∷ xs) (y ∷ ys) = x == y && text_eq xs ys
text_eq _ _ = false

pub text_eq_iff : (s t : Text) → (text_eq s t ≡ true) ↔ (s ≡ t)
unfolding text_eq
text_eq_iff [] [] = (λ _. refl, λ _. refl)
text_eq_iff [] (y ∷ ys) = (λ h. cc, λ h. cc)
text_eq_iff (x ∷ xs) [] = (λ h. cc, λ h. cc)
text_eq_iff (x ∷ xs) (y ∷ ys) =
    (λ h. ground (arith, (text_eq_iff xs ys).0), λ h. ground (arith, (text_eq_iff xs ys).1))

-- `strings.HasPrefix`
unfoldable pub has_prefix : Text → Text → Bool
has_prefix s [] = true
has_prefix [] (y ∷ ys) = false
has_prefix (x ∷ xs) (y ∷ ys) = x == y && has_prefix xs ys

-- What is left of a text behind another, or the text itself if the other does not begin it.
unfoldable pub drop_prefix : Text → Text → Text → Text
drop_prefix whole s [] = s
drop_prefix whole [] (y ∷ ys) = whole
drop_prefix whole (x ∷ xs) (y ∷ ys) = if x == y then drop_prefix whole xs ys else whole

-- `strings.TrimPrefix`
unfoldable pub trim_prefix : Text → Text → Text
unfolding drop_prefix
trim_prefix s prefix = drop_prefix s s prefix

pub trim_prefix-append : (p s : Text) → trim_prefix (p ++ s) p ≡ s
unfolding trim_prefix
trim_prefix-append p s = go p (p ++ s)
  where
    go : (q : Text) (w : Text) → drop_prefix w (q ++ s) q ≡ s
    go [] w = refl
    go (x ∷ xs) w = ground (arith, go xs w)

-- `strings.Join`
unfoldable pub join : List Text → Text → Text
join [] sep = []
join (x ∷ []) sep = x
join (x ∷ y ∷ rest) sep = x ++ (sep ++ join (y ∷ rest) sep)

unfoldable pub drop_slashes : Text → Text
drop_slashes [] = []
drop_slashes (c ∷ s) = if c == b'/' then drop_slashes s else c ∷ s

unfoldable pub until_slash : Text → Text
until_slash [] = []
until_slash (c ∷ s) = if c == b'/' then [] else c ∷ until_slash s

-- The last element of a path whose bytes stand in reverse.
abbrev pub last_element : Text → Text
last_element [] = b'/' ∷ []
last_element (c ∷ s) = reverse (until_slash (c ∷ s))

-- `filepath.Base`
unfoldable pub filepath_base : Text → Text
unfolding drop_slashes until_slash
filepath_base [] = b'.' ∷ []
filepath_base (c ∷ s) = last_element (drop_slashes (reverse (c ∷ s)))
