-- ===== src/Delta/Expand.antt =====
-- What a list of operations stands for: the bytes that they rebuild from a base.
use deltanar.Base.{ℕ, ◌+◌, ◌≤◌, ◌<◌, ◌≡◌, refl, sym, List, [], ◌∷◌, ◌++◌, length, take, drop}
use deltanar.Delta.{Op, copy, insert, unset}
use mathlib.Core.List.{append_assoc, append-nil}

-- An operation that stays inside the base.
abbrev pub IsInBase : List ℕ → Op → Type 0
IsInBase base (copy offset len) = (0 < len) × (offset + len ≤ length base)
IsInBase base (insert bytes) = Unit {0}
IsInBase base unset = ⊥

unfoldable pub op_bytes : List ℕ → Op → List ℕ
op_bytes base (copy offset len) = take len (drop offset base)
op_bytes base (insert bytes) = bytes
op_bytes base unset = []

unfoldable pub expand : List ℕ → List Op → List ℕ
unfolding op_bytes
expand base [] = []
expand base (op ∷ ops) = op_bytes base op ++ expand base ops

pub expand-append :
    (base : List ℕ) (xs ys : List Op) → expand base (xs ++ ys) ≡ expand base xs ++ expand base ys
unfolding expand
expand-append base [] ys = refl
expand-append base (x ∷ xs) ys =
    rw (expand-append base xs ys)
      (sym (append_assoc (op_bytes base x) (expand base xs) (expand base ys)))

pub expand-snoc :
    (base : List ℕ) (xs : List Op) (op : Op)
    → expand base (xs ++ (op ∷ [])) ≡ expand base xs ++ op_bytes base op
unfolding expand
expand-snoc base xs op = rw (expand-append base xs (op ∷ []), append-nil)
