-- ===== src/Delta/RoundTrip.antt =====
-- Diff, then patch.
use deltanar.Base.{◌∙◌, ap, ℕ, ◌^◌, ◌<◌, ◌≤◌, ◌≡◌, List, [], arith, ok, length, take-length}
use deltanar.Base.Int.{pos}
use deltanar.Delta.{Op, Delta, DeltaCodec}
use deltanar.Delta.Index.{Index, IsValid}
use deltanar.Delta.Index.Laws.{new_index-IsValid}
use deltanar.Delta.Diff.{diff_with, diff}
use deltanar.Delta.Patch.{patch_ops, patch}
use deltanar.Delta.Expand.{expand}
use deltanar.Delta.Scan.{Rebuilds, diff_ops_lem}
use deltanar.Delta.Apply.{not_below, room_for, patch_loop_lem}

patch_ops_lem :
    (base target : List ℕ) (ops : List Op)
    → length base < 2 ^ 63
    → length target < 2 ^ 63
    → Rebuilds base target (length target) ops
    → patch_ops base ops (pos (length target)) ≡ ok target
unfolding patch_ops
patch_ops_lem base target ops hb ht r =
    let e : expand base ops ≡ target = r.rebuilt ∙ take-length target in
    rw (patch_loop_lem base (length target) ops [] hb ht r.in_base (omega (arith, ap length e)), e)
      (ground arith)

module _ (c : DeltaCodec) where
  patch-marshal :
      (base : List ℕ) (d : Delta) (n : ℕ)
      → n ≤ 2 ^ 48
      → patch c base (c.marshal d) (pos n) ≡ patch_ops base d.ops (pos n)
  unfolding patch
  patch-marshal base d n h = rw (not_below n 0 (omega arith), c.unmarshal-marshal, room_for n h)

  -- For a valid index over a base of fewer than 2 ^ 63 bytes and a target of at most 2 ^ 48: `Diff` gives
  -- a delta, and `Patch` with the index's base rebuilds the target from it.
  pub patch-diff_with :
      (ix : Index) (target : List ℕ)
      → IsValid ix
      → length ix.base < 2 ^ 63
      → length target ≤ 2 ^ 48
      → (d : List ℕ) × (diff_with c ix target ≡ ok d)
        × (patch c ix.base d (pos (length target)) ≡ ok target)
  unfolding diff_with
  patch-diff_with ix target w hb ht =
      let (ops, eo, r) = diff_ops_lem ix target w in
      let d : Delta = record { ops = ops } in
      (
        c.marshal d,
        rw eo,
        patch-marshal ix.base d (length target) ht
            ∙ patch_ops_lem ix.base target ops hb (omega arith) r,
      )

  -- For a base of fewer than 2 ^ 63 bytes and a target of at most 2 ^ 48, the delta of the target against
  -- the base is always made, and `Patch` applied to the base, that delta and the target's length gives the
  -- target back.
  pub patch-diff :
      (base target : List ℕ)
      → length base < 2 ^ 63
      → length target ≤ 2 ^ 48
      → (d : List ℕ) × (diff c base target ≡ ok d)
        × (patch c base d (pos (length target)) ≡ ok target)
  unfolding diff
  patch-diff base target hb ht =
      let (ix, ei, eb, w) = new_index-IsValid base in
      let (d, ed, ep) = patch-diff_with ix target w (rw eb hb) ht in (d, rw (ei, ed), rw eb at ep)
