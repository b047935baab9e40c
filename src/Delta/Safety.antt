-- ===== src/Delta/Safety.antt =====
-- `Patch` on any delta, well formed or not.
use deltanar.Base.{
  ℕ, ◌+◌, ◌^◌, ◌≤◌, ◌<◌, ◌≡◌, ap, sym, ◌∙◌, ◌≢◌, List, [], ◌∷◌, ◌++◌, arith, ok, panic, stuck,
  >>=-eq-ok, fail_if-eq-ok, of_option-eq-ok, ok-injective, result_size_mismatch,
  negative_result_size, malformed_delta, some, ◌↔◌, Bool-cases, Option-cases, inl, inr,
  Result-cases, of_option, length, All, false,
}
use deltanar.Base.Int.{ℤ, pos, negsuc, add_int, ltb_ℤ}
use mathlib.Core.List.{append-nil, append_assoc}
use deltanar.Delta.{Op, copy, insert, unset, Delta, DeltaCodec}
use deltanar.Delta.Patch.{make_room, patch_op, patch_loop, patch_ops, size_differs, patch}
use deltanar.Delta.Apply.{room_for, not_below, patch_loop_lem}
use deltanar.Delta.Expand.{IsInBase, op_bytes, expand}

pub patch_op_sound :
    (base : List ℕ) (rs : ℤ) (op : Op) (out out' : List ℕ)
    → patch_op base rs op out ≡ ok out'
    → IsInBase base op × (out' ≡ out ++ op_bytes base op)
unfolding patch_op op_bytes
patch_op_sound base rs (insert bytes) out out' e = ground arith
patch_op_sound base rs (copy off len) out out' e = ground arith
patch_op_sound base rs unset out out' e = cc

patch_op_overflow :
    (base : List ℕ) (rs : ℤ) (off len : ℕ) (out : List ℕ)
    → off < 2 ^ 63
    → 0 < len
    → len < 2 ^ 63
    → 2 ^ 63 ≤ off + len
    → length out < 2 ^ 63
    → ltb_ℤ rs (add_int (pos (length out)) (pos len)) ≡ false
    → patch_op base rs (copy off len) out ≡ panic
unfolding patch_op
patch_op_overflow base rs off len out h1 h2 h3 h4 h5 e = ground arith

patch_loop_sound :
    (base : List ℕ) (rs : ℤ) (ops : List Op) (out out' : List ℕ)
    → patch_loop base rs ops out ≡ ok out'
    → All (IsInBase base) ops × (out' ≡ out ++ expand base ops)
unfolding patch_loop expand
patch_loop_sound base rs [] out out' e = (tt, ground (arith, append-nil out))
patch_loop_sound base rs (op ∷ ops) out out' e =
    let (mid, em, er) = >>=-eq-ok (patch_op base rs op out) (λ m. patch_loop base rs ops m) e in
    let (h, eq) = patch_op_sound base rs op out mid em in
    let (hs, eqs) = patch_loop_sound base rs ops mid out' er in
    (
      (h, hs),
      eqs
          ∙ ap (λ m. m ++ expand base ops) eq
          ∙ append_assoc out (op_bytes base op) (expand base ops),
    )

size_lem : (out : List ℕ) (rs : ℤ) → size_differs out rs ≡ false → rs ≡ pos (length out)
size_lem out (pos n) h = ground arith
size_lem out (negsuc n) h = cc

patch_ops_sound :
    (base : List ℕ) (ops : List Op) (rs : ℤ) (out : List ℕ)
    → patch_ops base ops rs ≡ ok out
    → All (IsInBase base) ops × (out ≡ expand base ops) × (rs ≡ pos (length out))
unfolding patch_ops
patch_ops_sound base ops rs out e =
    let (mid, em, er) = >>=-eq-ok (patch_loop base rs ops []) _ e in
    let (h, eq) = patch_loop_sound base rs ops [] mid em in
    let (es, eo) = fail_if-eq-ok (size_differs mid rs) result_size_mismatch (ok mid) er in
    let same : mid ≡ out = ok-injective eo in (h, sym same ∙ eq, rw same at (size_lem mid rs es))

-- A copy whose end fits an int.
abbrev pub EndFits : Op → Type 0
EndFits (copy off len) = off + len < 2 ^ 63
EndFits (insert bytes) = Unit {0}
EndFits unset = Unit {0}

patch_op-ne-panic :
    (base : List ℕ) (rs : ℤ) (op : Op) (out : List ℕ)
    → EndFits op
    → length base < 2 ^ 63
    → patch_op base rs op out ≢ panic
unfolding patch_op
patch_op-ne-panic base rs (insert bytes) out h hb e = ground arith
patch_op-ne-panic base rs (copy off len) out h hb e = ground arith
patch_op-ne-panic base rs unset out h hb e = cc

patch_op-ne-stuck :
    (base : List ℕ) (rs : ℤ) (op : Op) (out : List ℕ) → patch_op base rs op out ≢ stuck
unfolding patch_op
patch_op-ne-stuck base rs (insert bytes) out e = ground arith
patch_op-ne-stuck base rs (copy off len) out e = ground arith
patch_op-ne-stuck base rs unset out e = cc

patch_loop_safe :
    (base : List ℕ) (rs : ℤ) (ops : List Op) (out : List ℕ)
    → All EndFits ops
    → length base < 2 ^ 63
    → (patch_loop base rs ops out ≢ panic) × (patch_loop base rs ops out ≢ stuck)
unfolding patch_loop
patch_loop_safe base rs [] out h hb = (λ e. cc, λ e. cc)
patch_loop_safe base rs (op ∷ ops) out (h, hs) hb = elim (Result-cases (patch_op base rs op out)) [
  | inl (out', e) ↦ rw e (patch_loop_safe base rs ops out' hs hb)
  | inr (inl (x, e)) ↦ rw e (λ p. cc, λ p. cc)
  | inr (inr (inl e)) ↦ absurd (patch_op-ne-panic base rs op out h hb e)
  | inr (inr (inr e)) ↦ absurd (patch_op-ne-stuck base rs op out e)
]

patch_ops_safe :
    (base : List ℕ) (rs : ℤ) (ops : List Op)
    → All EndFits ops
    → length base < 2 ^ 63
    → (patch_ops base ops rs ≢ panic) × (patch_ops base ops rs ≢ stuck)
unfolding patch_ops
patch_ops_safe base rs ops h hb = elim (Result-cases (patch_loop base rs ops [])) [
  | inl (out, e) ↦ rw e (ground arith, ground arith)
  | inr (inl (x, e)) ↦ rw e (λ p. cc, λ p. cc)
  | inr (inr (inl e)) ↦ absurd ((patch_loop_safe base rs ops [] h hb).0 e)
  | inr (inr (inr e)) ↦ absurd ((patch_loop_safe base rs ops [] h hb).1 e)
]

module _ (c : DeltaCodec) where
  -- A delta that the message decoder reads, with the operations that it holds.
  abbrev pub Rebuilt : List ℕ → List ℕ → ℤ → List ℕ → Type 0
  Rebuilt base bytes rs out =
      (d : Delta) × (c.unmarshal bytes ≡ some d)
      × All (IsInBase base) d.ops
      × (out ≡ expand base d.ops)
      × (rs ≡ pos (length out))

  patch_sound :
      (base bytes : List ℕ) (rs : ℤ) (out : List ℕ)
      → patch c base bytes rs ≡ ok out
      → Rebuilt base bytes rs out
  unfolding patch
  patch_sound base bytes rs out e =
      let (_, e₁) = fail_if-eq-ok (ltb_ℤ rs (pos 0)) negative_result_size _ e in
      let (d, ed, e₂) = >>=-eq-ok (of_option malformed_delta (c.unmarshal bytes)) _ e₁ in
      let (_, _, e₃) = >>=-eq-ok (make_room rs) _ e₂ in
      let (h, eo, er) = patch_ops_sound base d.ops rs out e₃ in
      (d, of_option-eq-ok malformed_delta (c.unmarshal bytes) ed, h, eo, er)

  patch_complete :
      (base bytes : List ℕ) (out : List ℕ)
      → length base < 2 ^ 63
      → length out ≤ 2 ^ 48
      → (d : Delta) → c.unmarshal bytes ≡ some d
      → All (IsInBase base) d.ops
      → out ≡ expand base d.ops
      → patch c base bytes (pos (length out)) ≡ ok out
  unfolding patch patch_ops
  patch_complete base bytes out hb ho d ed h eo =
      rw
        (
          not_below (length out) 0 (omega arith),
          ed,
          room_for (length out) ho,
          patch_loop_lem base (length out) d.ops [] hb (omega arith) h
              (omega (arith, ap length eo)),
          ← eo,
        )
        (ground arith)

  -- For a base of fewer than 2 ^ 63 bytes and a result of at most 2 ^ 48, `Patch` succeeds with the result
  -- exactly if the delta decodes, its copies are not empty and stay in the base, its operations rebuild
  -- the result, and the result size is the result's length.
  pub patch_iff :
      (base bytes : List ℕ) (rs : ℤ) (out : List ℕ)
      → length base < 2 ^ 63
      → length out ≤ 2 ^ 48
      → (patch c base bytes rs ≡ ok out) ↔ Rebuilt base bytes rs out
  patch_iff base bytes rs out hb ho = (
    patch_sound base bytes rs out,
    λ (d, ed, h, eo, er). rw er (patch_complete base bytes out hb ho d ed h eo),
  )

  -- For a base of fewer than 2 ^ 63 bytes: if the result size is at most 2 ^ 48 and no copy of the delta
  -- has an end past the largest int, then `Patch` ends with bytes or an error, and not with a panic.
  pub patch-ne-panic :
      (base bytes : List ℕ) (rs : ℤ)
      → length base < 2 ^ 63
      → ltb_ℤ (pos (2 ^ 48)) rs ≡ false
      → ((d : Delta) → c.unmarshal bytes ≡ some d → All EndFits d.ops)
      → (patch c base bytes rs ≢ panic) × (patch c base bytes rs ≢ stuck)
  unfolding patch
  patch-ne-panic base bytes rs hb hr fits = elim (Bool-cases (ltb_ℤ rs (pos 0))) [
    | inl negative ↦ rw negative (λ p. cc, λ p. cc)
    | inr natural ↦ rw natural (elim (Option-cases (c.unmarshal bytes)) [
      | inl e ↦ rw e (λ p. cc, λ p. cc)
      | inr (d, e) ↦ rw (e, hr) (patch_ops_safe base rs d.ops (fits d e) hb)
    ])
  ]

  -- A delta that begins with a copy whose offset is an int and whose end is past the largest one, of at
  -- least one byte and no more than the result size, which is at most 2 ^ 48, makes `Patch` panic: the
  -- bounds are tested on the sum that wrapped.
  pub patch_overflow :
      (base bytes : List ℕ) (rs off len : ℕ) (ops : List Op)
      → c.unmarshal bytes ≡ some (record { ops = copy off len ∷ ops })
      → off < 2 ^ 63
      → 0 < len
      → len ≤ rs
      → rs ≤ 2 ^ 48
      → 2 ^ 63 ≤ off + len
      → patch c base bytes (pos rs) ≡ panic
  unfolding patch patch_ops patch_loop
  patch_overflow base bytes rs off len ops e h1 h2 h3 h4 h5 = rw (
    not_below rs 0 (omega arith),
    e,
    room_for rs h4,
    patch_op_overflow base (pos rs) off len [] h1 h2 (omega arith) h5 (omega arith) (ground arith),
  )
