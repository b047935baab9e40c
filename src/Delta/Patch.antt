-- ===== src/Delta/Patch.antt =====
-- `Patch` (internal/delta/delta.go): rebuilds a chunk from a base and a delta.
use deltanar.Base.{
  ◌^◌, panic, if◌then◌else◌, ℕ, ◌+◌, List, [], ◌∷◌, ◌++◌, Result, ok, err, ◌>>=◌, ◌>>◌, fail_if,
  of_option, length, Bool, ◌||◌, negative_result_size, malformed_delta, exceeds_result_size,
  invalid_copy_length, copy_out_of_bounds, unknown_op, result_size_mismatch, not, ◌==◌,
}
use deltanar.Base.Int.{ℤ, pos, negsuc, ltb_ℤ, int_of_u64, add_int}
use deltanar.Base.Slices.{slice_int}
use deltanar.Delta.{Op, copy, insert, unset, DeltaCodec}

-- One operation of the loop: the output grows, or the patch fails.
unfoldable pub patch_op : List ℕ → ℤ → Op → List ℕ → Result (List ℕ)
patch_op base result_size (insert bytes) out = do
  fail_if (ltb_ℤ result_size (pos (length out + length bytes))) exceeds_result_size
  ok (out ++ bytes)
patch_op base result_size (copy offset len) out = do
  let length' = int_of_u64 len
  let off = int_of_u64 offset
  fail_if (ltb_ℤ length' (pos 1)) invalid_copy_length
  fail_if (ltb_ℤ off (pos 0) || ltb_ℤ (pos (length base)) (add_int off length')) copy_out_of_bounds
  fail_if (ltb_ℤ result_size (add_int (pos (length out)) length')) exceeds_result_size
  bytes ← slice_int base off (add_int off length')
  ok (out ++ bytes)
patch_op base result_size unset out = err unknown_op

unfoldable pub patch_loop : List ℕ → ℤ → List Op → List ℕ → Result (List ℕ)
patch_loop base result_size [] out = ok out
patch_loop base result_size (op ∷ ops) out = do
  out' ← patch_op base result_size op out
  patch_loop base result_size ops out'

-- `len(out) != resultSize`
abbrev pub size_differs : List ℕ → ℤ → Bool
size_differs out (pos n) = not (length out == n)
size_differs out (negsuc n) = Bool.true

unfoldable pub patch_ops : List ℕ → List Op → ℤ → Result (List ℕ)
unfolding patch_op patch_loop
patch_ops base ops result_size = do
  out ← patch_loop base result_size ops []
  fail_if (size_differs out result_size) result_size_mismatch
  ok out

-- `make([]byte, 0, resultSize)` panics where the capacity is larger than the address space, 2 ^ 48 bytes.
abbrev pub make_room : ℤ → Result (Unit {0})
make_room result_size = if ltb_ℤ (pos (2 ^ 48)) result_size then panic else ok tt

module _ (c : DeltaCodec) where
  unfoldable pub patch : List ℕ → List ℕ → ℤ → Result (List ℕ)
  unfolding patch_ops
  patch base delta_bytes result_size = do
    fail_if (ltb_ℤ result_size (pos 0)) negative_result_size
    d ← of_option malformed_delta (c.unmarshal delta_bytes)
    make_room result_size
    patch_ops base d.ops result_size
