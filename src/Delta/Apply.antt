-- ===== src/Delta/Apply.antt =====
-- `Patch` on operations that stay in the base.
use deltanar.Base.{
  ℕ, ◌+◌, ◌-◌, ◌^◌, ◌≤◌, ◌<◌, ◌≡◌, ap, sym, ◌∙◌, List, [], ◌∷◌, ◌++◌, arith, ok, length,
  length-append, length-drop, length-take, take, drop, All, false, le→leb,
}
use deltanar.Base.Int.{pos, int_of_u64, add_int, ltb_ℤ}
use mathlib.Core.List.{append-nil, append_assoc}
use deltanar.Base.Slices.{slice}
use deltanar.Delta.{Op, copy, insert, unset}
use deltanar.Delta.Patch.{make_room, patch_op, patch_loop}
use deltanar.Delta.Expand.{IsInBase, op_bytes, expand}

int_of_u64_small : (n : ℕ) → n < 2 ^ 63 → int_of_u64 n ≡ pos n
int_of_u64_small n h = ground arith

add_int_small : (a b : ℕ) → a + b < 2 ^ 63 → add_int (pos a) (pos b) ≡ pos (a + b)
add_int_small a b h = ground arith

pub room_for : (n : ℕ) → n ≤ 2 ^ 48 → make_room (pos n) ≡ ok tt
room_for n h = ground arith

pub not_below : (a b : ℕ) → b ≤ a → ltb_ℤ (pos a) (pos b) ≡ false
not_below a b h = ground arith

slice_range :
    (xs : List ℕ) (off len : ℕ)
    → off + len ≤ length xs
    → slice xs off (off + len) ≡ ok (take len (drop off xs))
slice_range xs off len h =
    let e : off + len - off ≡ len = omega arith in
    rw (le→leb off (off + len) (omega arith), le→leb (off + len) (length xs) h, e)

patch_op_lem :
    (base : List ℕ) (n : ℕ) (op : Op) (out : List ℕ)
    → length base < 2 ^ 63
    → n < 2 ^ 63
    → IsInBase base op
    → length out + length (op_bytes base op) ≤ n
    → patch_op base (pos n) op out ≡ ok (out ++ op_bytes base op)
unfolding patch_op op_bytes
patch_op_lem base n (insert bytes) out hb hn h fits = ground arith
patch_op_lem base n (copy off len) out hb hn h fits =
    let room : length out + len ≤ n =
      omega (arith, length-take len (drop off base), length-drop off base) in
    rw (
      int_of_u64_small len (omega arith),
      int_of_u64_small off (omega arith),
      add_int_small off len (omega arith),
      add_int_small (length out) len (omega arith),
      not_below len 1 (omega arith),
      not_below off 0 (omega arith),
      not_below (length base) (off + len) (omega arith),
      not_below n (length out + len) room,
      slice_range base off len (omega arith),
    )
patch_op_lem base n unset out hb hn h fits = absurd h

-- Operations in the base that rebuild no more than the result size all succeed.
pub patch_loop_lem :
    (base : List ℕ) (n : ℕ) (ops : List Op) (out : List ℕ)
    → length base < 2 ^ 63
    → n < 2 ^ 63
    → All (IsInBase base) ops
    → length out + length (expand base ops) ≤ n
    → patch_loop base (pos n) ops out ≡ ok (out ++ expand base ops)
unfolding patch_loop expand
patch_loop_lem base n [] out hb hn h fits = ap ok (sym (append-nil out))
patch_loop_lem base n (op ∷ ops) out hb hn (h, hs) fits =
    let e = length-append (op_bytes base op) (expand base ops) in
    let e' = length-append out (op_bytes base op) in
    rw (patch_op_lem base n op out hb hn h (omega arith)) (
      patch_loop_lem base n ops (out ++ op_bytes base op) hb hn hs (omega arith)
      ∙ ap ok (append_assoc out (op_bytes base op) (expand base ops)))
