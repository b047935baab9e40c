-- ===== src/Delta/Scan.antt =====
-- The loop of `Diff`: the operations collected so far always rebuild the target up to the start of the
-- pending literals, and the loop ends.
use deltanar.Base.{
  ℕ, zero, suc, ◌+◌, ◌-◌, ◌≤◌, ◌<◌, ◌≡◌, refl, sym, ◌∙◌, List, [], ◌∷◌, ◌++◌, arith, Result, ok,
  length, length-drop, take, drop, All, All-append, take_add, Bool-cases, inl, inr, le→leb, leb→le,
  leb, true, get_elem?, get_elem?-lt, some,
}
use deltanar.Base.Int.{ℤ, pos, negsuc}
use deltanar.Base.Slices.{slice}
use deltanar.Delta.{Op, copy, insert}
use deltanar.Delta.Index.{Index, IsValid, hash, hash_len}
use deltanar.Delta.Index.Laws.{hash_lem}
use deltanar.Delta.Diff.{
  Anchor, Scan, extend_back, emit_literal, take_match, round, scan, start, diff_ops, match_len,
  min_match,
}
use deltanar.Delta.Match.{Same, match_len-Same, extend_back_lem}
use deltanar.Delta.Expand.{IsInBase, op_bytes, expand, expand-snoc}

-- The operations stay in the base, and rebuild the first `n` bytes of the target.
pub record Rebuilds (base target : List ℕ) (n : ℕ) (ops : List Op) : Type 0 where
  pub in_base : All (IsInBase base) ops
  pub rebuilt : expand base ops ≡ take n target

record Inv (base target : List ℕ) (s : Scan) : Type 0 where
  lit_le : s.lit ≤ s.i
  i_le : s.i ≤ length target
  rebuilds : Rebuilds base target s.lit s.ops

Rebuilds-snoc :
    (base target : List ℕ) (n k : ℕ) (ops : List Op) (op : Op)
    → Rebuilds base target n ops
    → IsInBase base op
    → op_bytes base op ≡ take k (drop n target)
    → Rebuilds base target (n + k) (ops ++ (op ∷ []))
Rebuilds-snoc base target n k ops op r h e = record {
  in_base = All-append (IsInBase base) ops (op ∷ []) r.in_base (h, tt);
  rebuilt = rw (expand-snoc, r.rebuilt, e) (sym (take_add n k target));
}

slice_lem :
    (xs : List ℕ) (lo hi : ℕ)
    → lo ≤ hi
    → hi ≤ length xs
    → slice xs lo hi ≡ ok (take (hi - lo) (drop lo xs))
slice_lem xs lo hi p q = rw (le→leb lo hi p, le→leb hi (length xs) q)

-- Emitting the literals up to `end` rebuilds the target up to `end`.
emit_literal_lem :
    (base target : List ℕ) (lit end : ℕ) (ops : List Op)
    → lit ≤ end
    → end ≤ length target
    → Rebuilds base target lit ops
    → (ops' : List Op) × (emit_literal target lit end ops ≡ ok ops') × Rebuilds base target end ops'
unfolding emit_literal op_bytes
emit_literal_lem base target lit end ops h k r = elim (Bool-cases (leb end lit)) [
  | inl none_pending ↦
      let e : lit ≡ end = omega (arith, leb→le end lit none_pending) in
      (ops, rw none_pending, rw e at r)
  | inr pending ↦
      let e : lit + (end - lit) ≡ end = omega arith in
      (
        ops ++ (insert (take (end - lit) (drop lit target)) ∷ []),
        rw (pending, slice_lem target lit end h k),
        rw e at (
            Rebuilds-snoc base target lit (end - lit) ops
              (insert (take (end - lit) (drop lit target))) r tt refl),
      )
]

take_match_eq :
    (base target : List ℕ) (cand fwd : ℕ) (s : Scan) {m : Anchor} {ops : List Op}
    → extend_back base target s.lit cand s.i fwd ≡ ok m
    → emit_literal target s.lit m.tpos s.ops ≡ ok ops
    → take_match base target cand fwd s
      ≡ ok (record {
        i = m.tpos + m.len;
        lit = m.tpos + m.len;
        ops = ops ++ (copy m.bpos m.len ∷ []);
      })
unfolding take_match
take_match_eq base target cand fwd s em eo = rw (em, eo)

take_match_lem :
    (base target : List ℕ) (cand fwd : ℕ) (s : Scan)
    → 0 < fwd
    → Same base target cand s.i fwd
    → Inv base target s
    → (s' : Scan) × (take_match base target cand fwd s ≡ ok s') × (s.i < s'.i) × Inv base target s'
unfolding op_bytes
take_match_lem base target cand fwd s h same v =
    let (m, em, x) = extend_back_lem base target s.lit cand s.i fwd v.lit_le same in
    let (ops, eo, r) =
      emit_literal_lem base target s.lit m.tpos s.ops x.from_lit (omega arith) v.rebuilds in
    (
      record { i = m.tpos + m.len; lit = m.tpos + m.len; ops = ops ++ (copy m.bpos m.len ∷ []) },
      take_match_eq base target cand fwd s em eo,
      omega arith,
      record {
        lit_le = omega arith;
        i_le = omega arith;
        rebuilds =
            Rebuilds-snoc base target m.tpos m.len ops (copy m.bpos m.len) r (omega arith)
              x.range.same;
      },
    )

-- A round with no match moves on by one byte.
skip :
    (base target : List ℕ) (s : Scan)
    → s.i < length target
    → Inv base target s
    → (s' : Scan) × (◌≡◌ {A = Result Scan} (ok (record s { i = s.i + 1 })) (ok s'))
      × (s.i < s'.i)
      × Inv base target s'
skip base target s h v = (
  record s { i = s.i + 1 },
  refl,
  omega arith,
  record { lit_le = omega arith; i_le = omega arith; rebuilds = v.rebuilds },
)

-- A round moves on, whatever the table holds.
round_lem :
    (base target : List ℕ) (entry : ℤ) (s : Scan)
    → s.i < length target
    → Inv base target s
    → (s' : Scan) × (round base target entry s ≡ ok s') × (s.i < s'.i) × Inv base target s'
unfolding round
round_lem base target (pos zero) s h v = skip base target s h v
round_lem base target (negsuc _) s h v = skip base target s h v
round_lem base target (pos (suc cand)) s h v =
    let fwd = match_len base cand target s.i in
    elim (Bool-cases (leb min_match fwd)) [
      | inl long ↦
          let some_bytes : 0 < fwd = omega (arith, leb→le min_match fwd long) in
          rw long (
            take_match_lem base target cand fwd s some_bytes
              (match_len-Same base target cand s.i some_bytes) v)
      | inr short ↦ rw short (skip base target s h v)
    ]

abbrev FreshHash : (ix : Index) (target : List ℕ) (s : Scan) → Type 0
FreshHash ix target s =
    (h : ℕ) × (entry : ℤ) × (hash ix.shift (drop s.i target) ≡ ok h)
    × (get_elem? ix.head h ≡ some entry)

-- While four bytes are left, they have an entry in the table.
hash_entry :
    (ix : Index) (target : List ℕ) (s : Scan)
    → IsValid ix
    → s.i + hash_len ≤ length target
    → FreshHash ix target s
hash_entry ix target s v h =
    let (x, ex, lt) =
      hash_lem (length ix.head) ix.shift (drop s.i target) (omega (arith, length-drop s.i target))
        v.covers in
    let (entry, ee, _) = get_elem?-lt ix.head x lt in (x, entry, ex, ee)

scan_step :
    (fuel : ℕ) (ix : Index) (target : List ℕ) (s : Scan) {h : ℕ} {entry : ℤ} {s' : Scan}
    → leb (s.i + hash_len) (length target) ≡ true
    → hash ix.shift (drop s.i target) ≡ ok h
    → get_elem? ix.head h ≡ some entry
    → round ix.base target entry s ≡ ok s'
    → scan (suc fuel) ix target s ≡ scan fuel ix target s'
unfolding scan
scan_step fuel ix target s more eh ee er = rw (more, eh, ee, er)

scan_lem :
    (fuel : ℕ) (ix : Index) (target : List ℕ) (s : Scan)
    → IsValid ix
    → length target < fuel + s.i
    → Inv ix.base target s
    → (s' : Scan) × (scan fuel ix target s ≡ ok s') × Inv ix.base target s'
unfolding scan
scan_lem zero ix target s w f v = absurd (omega (arith, v.i_le))
scan_lem (suc fuel) ix target s w f v = elim (Bool-cases (leb (s.i + hash_len) (length target))) [
  | inr done ↦ (s, rw done, v)
  | inl more ↦
      let fits : s.i + hash_len ≤ length target = leb→le (s.i + hash_len) (length target) more in
      let (h, entry, eh, ee) = hash_entry ix target s w fits in
      let (s₁, er, moved, v₁) = round_lem ix.base target entry s (omega arith) v in
      let (s₂, es, v₂) = scan_lem fuel ix target s₁ w (omega arith) v₁ in
      (s₂, scan_step fuel ix target s more eh ee er ∙ es, v₂)
]

diff_ops_eq :
    (ix : Index) (target : List ℕ) {s : Scan} {ops : List Op}
    → scan (length target + 1) ix target start ≡ ok s
    → emit_literal target s.lit (length target) s.ops ≡ ok ops
    → diff_ops ix target ≡ ok ops
unfolding diff_ops
diff_ops_eq ix target es eo = rw (es, eo)

start-Inv : (base target : List ℕ) → Inv base target start
unfolding expand
start-Inv base target = record {
  lit_le = omega arith;
  i_le = omega arith;
  rebuilds = record { in_base = tt; rebuilt = refl };
}

-- On every target the scan ends without a panic, and its operations stay in the base and rebuild the
-- target.
pub diff_ops_lem :
    (ix : Index) (target : List ℕ)
    → IsValid ix
    → (ops : List Op) × (diff_ops ix target ≡ ok ops) × Rebuilds ix.base target (length target) ops
diff_ops_lem ix target w =
    let (s, es, v) =
      scan_lem (length target + 1) ix target start w (omega arith) (start-Inv ix.base target) in
    let (ops, eo, r) =
      emit_literal_lem ix.base target s.lit (length target) s.ops (omega (arith, v.lit_le, v.i_le))
        (omega arith) v.rebuilds in
    (ops, diff_ops_eq ix target es eo, r)
