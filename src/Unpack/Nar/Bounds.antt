-- ===== src/Unpack/Nar/Bounds.antt =====
-- The bounds check of a delta's base (internal/cmd/dnar-unpack/write.go).
use deltanar.Base.{ℕ, ◌+◌, ◌-◌, ◌^◌, ◌≤◌, ◌<◌, ◌≡◌, List, false, panic, ltb, leb, length, arith}
use deltanar.Base.Int.{add_u64}
use deltanar.Dnar.{DeltaChunk}
use deltanar.Unpack.Nar.Chunks.{Inputs, delta_range}

wrapped : (a b : ℕ) → a < 2 ^ 64 → b < 2 ^ 64 → 2 ^ 64 ≤ a + b → add_u64 a b ≡ a + b - 2 ^ 64
wrapped a b h k l = omega arith

not_below : (a b : ℕ) → b ≤ a → ltb a b ≡ false
not_below a b h = ground arith

above : (a b : ℕ) → b < a → leb a b ≡ false
above a b h = ground arith

-- The end of a delta's base is a uint64 sum: where it wraps round to a place within the reference file,
-- the check lets it pass, and the slice expression panics.
pub delta_range_wraps :
    (inp : Inputs) (ref : List ℕ) (c : DeltaChunk)
    → c.offset < 2 ^ 64
    → c.size < 2 ^ 64
    → 2 ^ 64 ≤ c.offset + c.size
    → c.offset + c.size - 2 ^ 64 ≤ length ref
    → delta_range inp ref c ≡ panic
unfolding delta_range
delta_range_wraps inp ref c ho hs hw hl =
    let e = wrapped c.offset c.size ho hs hw in
    rw (
      e,
      not_below (length ref) (c.offset + c.size - 2 ^ 64) hl,
      above c.offset (c.offset + c.size - 2 ^ 64) (omega arith),
    )
