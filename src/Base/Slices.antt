-- ===== src/Base/Slices.antt =====
-- Slice expressions of Go, with the panics of those out of range.
use mathlib.Core.Bool.{◌&&◌}
use mathlib.Core.List.{List}
use Prim.Native.Nat.{ℕ, ◌-◌}
use deltanar.Base.Tests.{leb, if◌then◌else◌}
use deltanar.Base.Lists.{length, get_elem?, take, drop}
use deltanar.Base.Results.{Result, ok, panic, or_panic}
use deltanar.Base.Int.{ℤ, pos, negsuc}

module _ {ℓ} {A : Type ℓ} where
  -- `xs[lo:hi]` (the capacity of a slice is taken to be its length).
  abbrev pub slice : List A → ℕ → ℕ → Result (List A)
  slice xs lo hi =
      if leb lo hi && leb hi (length xs) then ok (take (hi - lo) (drop lo xs)) else panic

  abbrev pub slice_int : List A → ℤ → ℤ → Result (List A)
  slice_int xs (pos lo) (pos hi) = slice xs lo hi
  slice_int xs (pos lo) (negsuc hi) = panic
  slice_int xs (negsuc lo) hi = panic

  -- `xs[i]`
  abbrev pub index_int : List A → ℤ → Result A
  index_int xs (pos i) = or_panic (get_elem? xs i)
  index_int xs (negsuc i) = panic
