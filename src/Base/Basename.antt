-- ===== src/Base/Basename.antt =====
-- `filepath.Base` of a path in a directory.
use Prim.Native.Nat.{ℕ}
use mathlib.Core.Path.{◌≡◌, refl, sym, ap, ◌∙◌, subst}
use mathlib.Core.Logic.{◌≢◌}
use mathlib.Core.Bool.{false}
use mathlib.Core.List.{[], ◌∷◌, ◌++◌, reverse, reverse-append, reverse-reverse, append_assoc}
use deltanar.Base.Tests.{◌==◌}
use deltanar.Base.Lists.{All, All-append}
use deltanar.Base.Text.{Text, drop_slashes, until_slash, last_element, filepath_base}

-- A byte that is no slash.
abbrev pub IsPlain : ℕ → Type 0
IsPlain c = (c == b'/') ≡ false

-- A name in a directory.
pub record IsName (s : Text) : Type 0 where
  pub plain : All IsPlain s
  pub not_empty : s ≢ []

until_slash-append : (s more : Text) → All IsPlain s → until_slash (s ++ (b'/' ∷ more)) ≡ s
unfolding until_slash
until_slash-append [] more h = refl
until_slash-append (c ∷ s) more (h, hs) = rw (h, until_slash-append s more hs)

All-reverse : (s : Text) → All IsPlain s → All IsPlain (reverse s)
All-reverse [] h = tt
All-reverse (c ∷ s) (h, hs) =
    subst (λ t. All IsPlain t) (sym (reverse-append (c ∷ []) s))
      (All-append IsPlain (reverse s) (c ∷ []) (All-reverse s hs) (h, tt))

last_element-name :
    (r more : Text)
    → All IsPlain r
    → r ≢ []
    → last_element (drop_slashes (r ++ (b'/' ∷ more))) ≡ reverse r
unfolding drop_slashes
last_element-name [] more h n = absurd (n refl)
last_element-name (c ∷ s) more (h, hs) n =
    rw h (ap reverse (until_slash-append (c ∷ s) more (h, hs)))

reverse-ne-nil : (s : Text) → s ≢ [] → reverse s ≢ []
reverse-ne-nil s n e = n (sym (reverse-reverse s) ∙ ap reverse e)

filepath_base-reverse :
    (d s : Text)
    → filepath_base (d ++ (b'/' ∷ s)) ≡ last_element (drop_slashes (reverse (d ++ (b'/' ∷ s))))
unfolding filepath_base
filepath_base-reverse [] s = refl
filepath_base-reverse (c ∷ d) s = refl

-- The base of a path is its last name.
pub filepath_base_lem : (d s : Text) → IsName s → filepath_base (d ++ (b'/' ∷ s)) ≡ s
filepath_base_lem d s h =
    let r : reverse (d ++ (b'/' ∷ s)) ≡ reverse s ++ (b'/' ∷ reverse d) =
      reverse-append d (b'/' ∷ s)
      ∙ (ap (λ t. t ++ reverse d) (reverse-append (b'/' ∷ []) s)
          ∙ append_assoc (reverse s) (b'/' ∷ []) (reverse d)) in
    filepath_base-reverse d s
    ∙ (ap (λ t. last_element (drop_slashes t)) r
        ∙ (last_element-name (reverse s) (reverse d) (All-reverse s h.plain)
              (reverse-ne-nil s h.not_empty)
            ∙ reverse-reverse s))
