-- ===== src/Tests/Delta.antt =====
-- Deltas on small chunks.
use deltanar.Base.{
  ℕ, ◌-◌, ◌^◌, ◌≤◌, ◌<◌, ◌≡◌, ◌≢◌, ◌⊎◌, ◌↔◌, refl, List, [], ◌∷◌, some, ok, panic, stuck, length,
  arith, All,
}
use mathlib.Core.Path.{subst}
use deltanar.Base.Int.{pos}
use deltanar.Base.Text.{Text, bytes}
use deltanar.Delta.{Delta, copy, insert}
use deltanar.Delta.Index.{Index, IsValid, index_bits, min_index_bits, max_index_bits, new_index}
use deltanar.Delta.Index.Laws.{new_index-IsValid, index_bits_bounds}
use deltanar.Delta.Diff.{diff, diff_with}
use deltanar.Delta.Patch.{patch}
use deltanar.Delta.RoundTrip.{patch-diff, patch-diff_with}
use deltanar.Delta.Safety.{Rebuilt, EndFits, patch_iff, patch-ne-panic, patch_overflow}
use deltanar.Tests.Samples.{codec}

abbrev base : Text
base = bytes "the quick brown fox jumps over the lazy dog"

abbrev target : Text
target = bytes "the quick brown cat jumps over the lazy dog"

patch-diff_example :
    (d : List ℕ) × (diff codec base target ≡ ok d)
    × (patch codec base d (pos (length target)) ≡ ok target)
patch-diff_example = patch-diff codec base target (omega arith) (omega arith)

patch-diff_with_example :
    (d : List ℕ) × (diff_with codec (new_index-IsValid base).0 target ≡ ok d)
    × (patch codec (new_index-IsValid base).0.base d (pos (length target)) ≡ ok target)
patch-diff_with_example =
    patch-diff_with codec (new_index-IsValid base).0 target (new_index-IsValid base).3
      (rw (new_index-IsValid base).2 (omega arith)) (omega arith)

new_index-IsValid_example : (ix : Index) × (new_index base ≡ ok ix) × (ix.base ≡ base) × IsValid ix
new_index-IsValid_example = new_index-IsValid base

index_bits_bounds_example :
    (min_index_bits ≤ index_bits 100000)
    × (index_bits 100000 ≤ max_index_bits)
    × ((100000 ≤ 2 ^ index_bits 100000) ⊎ (index_bits 100000 ≡ max_index_bits))
    × ((index_bits 100000 ≡ min_index_bits) ⊎ (2 ^ (index_bits 100000 - 1) < 100000))
index_bits_bounds_example = index_bits_bounds 100000

-- "the cat": a copy of "the " and an insert.
abbrev small_delta : Delta
small_delta = record { ops = copy 0 4 ∷ insert (bytes "cat") ∷ [] }

abbrev small : List ℕ
small = codec.marshal small_delta

patch_iff_example :
    (patch codec base small (pos 7) ≡ ok (bytes "the cat"))
    ↔ Rebuilt codec base small (pos 7) (bytes "the cat")
patch_iff_example = patch_iff codec base small (pos 7) (bytes "the cat") (omega arith) (omega arith)

small_fits : (d : Delta) → codec.unmarshal small ≡ some d → All EndFits d.ops
small_fits d e =
    let k : small_delta ≡ d = cc in subst (λ x. All EndFits x.ops) k (omega arith, (tt, tt))

patch-ne-panic_example :
    (patch codec base small (pos 7) ≢ panic) × (patch codec base small (pos 7) ≢ stuck)
patch-ne-panic_example = patch-ne-panic codec base small (pos 7) (omega arith) refl small_fits

abbrev far : List ℕ
far = codec.marshal (record { ops = copy (2 ^ 63 - 1) 1 ∷ [] })

patch_overflow_example : patch codec base far (pos 1) ≡ panic
patch_overflow_example =
    patch_overflow codec base far 1 (2 ^ 63 - 1) 1 [] refl (omega arith) (omega arith) (omega arith)
      (omega arith) (omega arith)
