-- ===== src/Delta/Diff.antt =====
-- `Diff` (internal/delta/delta.go): the scan that finds copies of the base in the target.
use deltanar.Base.{
  ℕ, zero, suc, ◌+◌, ◌-◌, List, [], ◌∷◌, ◌++◌, Result, ok, stuck, ◌>>=◌, or_panic, ltb, leb, ◌==◌,
  if◌then◌else◌, length, get_elem?, drop,
}
use deltanar.Base.Int.{ℤ, pos}
use deltanar.Base.Slices.{slice}
use deltanar.Delta.{Op, copy, insert, DeltaCodec}
use deltanar.Delta.Index.{Index, hash, hash_len, new_index}

abbrev pub min_match : ℕ
min_match = 16

-- How far two suffixes agree.
unfoldable pub agree_len : List ℕ → List ℕ → ℕ
agree_len (x ∷ xs) (y ∷ ys) = if x == y then suc (agree_len xs ys) else 0
agree_len _ _ = 0

-- `matchLen(a, ai, b, bi)`
unfoldable pub match_len : List ℕ → ℕ → List ℕ → ℕ → ℕ
unfolding agree_len
match_len a ai b bi = agree_len (drop ai a) (drop bi b)

abbrev pub byte_at : List ℕ → ℕ → Result ℕ
byte_at xs i = or_panic (get_elem? xs i)

-- Where a copy begins in the base and in the target, and its length.
pub record Anchor : Type 0 where
  pub bpos : ℕ
  pub tpos : ℕ
  pub len : ℕ

-- The loop that extends a match backwards into the pending literals.
unfoldable pub extend_back : List ℕ → List ℕ → ℕ → ℕ → ℕ → ℕ → Result Anchor
extend_back base target lit zero tpos len = ok (record { bpos = zero; tpos = tpos; len = len })
extend_back base target lit (suc b) tpos len =
    let rest = extend_back base target lit b (tpos - 1) (len + 1) in
    let stop : Result Anchor = ok (record { bpos = suc b; tpos = tpos; len = len }) in
    if ltb lit tpos
    then (do x ← byte_at base b; y ← byte_at target (tpos - 1); if x == y then rest else stop)
    else stop

-- `emitLiteral(end)`
unfoldable pub emit_literal : List ℕ → ℕ → ℕ → List Op → Result (List Op)
emit_literal target lit end ops =
    if leb end lit
    then ok ops
    else (do bytes ← slice target lit end; ok (ops ++ (insert bytes ∷ [])))

-- The position after one round of the loop, the start of the pending literals, and the operations.
pub record Scan : Type 0 where
  pub i : ℕ
  pub lit : ℕ
  pub ops : List Op

-- What is done with a match of length `fwd` of `base[cand:]` and `target[i:]`.
unfoldable pub take_match : List ℕ → List ℕ → ℕ → ℕ → Scan → Result Scan
unfolding extend_back emit_literal
take_match base target cand fwd s = do
  m ← extend_back base target s.lit cand s.i fwd
  ops ← emit_literal target s.lit m.tpos s.ops
  ok (record { i = m.tpos + m.len; lit = m.tpos + m.len; ops = ops ++ (copy m.bpos m.len ∷ []) })

-- One round of the loop, for the entry `head[h]` that was read.
unfoldable pub round : List ℕ → List ℕ → ℤ → Scan → Result Scan
unfolding take_match match_len
round base target (pos (suc cand)) s =
    let fwd = match_len base cand target s.i in
    let matched = take_match base target cand fwd s in
    if leb min_match fwd then matched else ok (record s { i = s.i + 1 })
round base target _ s = ok (record s { i = s.i + 1 })

unfoldable pub scan : ℕ → Index → List ℕ → Scan → Result Scan
unfolding round
scan zero ix target s = stuck
scan (suc fuel) ix target s =
    if leb (s.i + hash_len) (length target)
    then (do
      h ← hash ix.shift (drop s.i target)
      entry ← or_panic (get_elem? ix.head h)
      s' ← round ix.base target entry s
      scan fuel ix target s')
    else ok s

abbrev pub start : Scan
start = record { i = 0; lit = 0; ops = [] }

-- The operations that `Diff` collects. Each round moves `i` on, so the length is fuel enough.
unfoldable pub diff_ops : Index → List ℕ → Result (List Op)
unfolding scan emit_literal
diff_ops ix target = do
  s ← scan (length target + 1) ix target start
  emit_literal target s.lit (length target) s.ops

module _ (c : DeltaCodec) where
  unfoldable pub diff_with : Index → List ℕ → Result (List ℕ)
  unfolding diff_ops
  diff_with ix target = do ops ← diff_ops ix target; ok (c.marshal (record { ops = ops }))

  unfoldable pub diff : List ℕ → List ℕ → Result (List ℕ)
  unfolding new_index diff_with
  diff base target = do ix ← new_index base; diff_with ix target
