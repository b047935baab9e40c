-- ===== src/Unpack/Nar/Copies.antt =====
-- Copying a file of the target into a NAR (internal/cmd/dnar-unpack/write.go: `io.Copy` in the walk).
use deltanar.Base.{
  ℕ, zero, suc, ◌≤◌, ◌<◌, ◌≡◌, refl, ap, ◌∙◌, List, [], ◌∷◌, ◌++◌, length, concat, take, drop,
  take-append-drop, length-take, length-drop, All, arith,
}
use deltanar.Unpack.Nar.Walk.{copy_size, pieces}

-- A piece has a byte, and at most as many as are moved at a time.
abbrev pub IsPiece : List ℕ → Type 0
IsPiece p = (0 < length p) × (length p ≤ copy_size)

-- On fuel for every byte, the pieces are the whole content.
pub pieces-concat :
    (fuel : ℕ) (content : List ℕ) → length content ≤ fuel → concat (pieces fuel content) ≡ content
unfolding pieces
pieces-concat fuel [] h = refl
pieces-concat zero (b ∷ bs) h = absurd (omega arith)
pieces-concat (suc fuel) (b ∷ bs) h =
    let rest = drop copy_size (b ∷ bs) in
    let less : length rest ≤ fuel = omega (arith, length-drop copy_size (b ∷ bs)) in
    ap (λ r. take copy_size (b ∷ bs) ++ r) (pieces-concat fuel rest less)
    ∙ take-append-drop copy_size (b ∷ bs)

pub pieces-IsPiece : (fuel : ℕ) (content : List ℕ) → All IsPiece (pieces fuel content)
unfolding pieces
pieces-IsPiece fuel [] = tt
pieces-IsPiece zero (b ∷ bs) = tt
pieces-IsPiece (suc fuel) (b ∷ bs) =
    let len = length-take copy_size (b ∷ bs) in
    ((omega (arith, len), omega (arith, len)), pieces-IsPiece fuel (drop copy_size (b ∷ bs)))
