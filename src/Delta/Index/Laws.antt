-- ===== src/Delta/Index/Laws.antt =====
-- The index is built without a panic, and every hash is a position in its table.
use deltanar.Base.{
  ℕ, zero, suc, ◌+◌, ◌-◌, ◌*◌, ◌/◌, ◌%◌, ◌^◌, ◌≤◌, ◌<◌, ◌≡◌, refl, ◌∙◌, ◌⊎◌, inl, inr, List, [],
  ◌∷◌, arith, ok, length, length-set, length-replicate, set, replicate, Bool-cases, lt→ltb, leb→le,
  leb, ltb, ◌&&◌, true,
}
use deltanar.Base.Int.{ℤ, pos}
use deltanar.Delta.Index.{
  Index, IsValid, index_bits, index_bits_loop, hash, hash_len, int32, fill, new_index,
  min_index_bits, max_index_bits, knuth_prime,
}
use native.Mathlib.Nat.{div-lt_iff_lt-mul, pow-suc, zero-add}

pow_pos : (s : ℕ) → 0 < 2 ^ s
pow_pos zero = omega arith
pow_pos (suc s) = simp pow-suc (omega (arith, pow_pos s))

-- Four bytes have a hash, and it is below every `n` that covers the 32 bits.
pub hash_lem :
    (n shift : ℕ) (b : List ℕ)
    → 4 ≤ length b
    → n * 2 ^ shift ≡ 2 ^ 32
    → (h : ℕ) × (hash shift b ≡ ok h) × (h < n)
unfolding hash
hash_lem n shift (a ∷ b ∷ c ∷ d ∷ r) _ e =
    let x = (a % 256 + 256 * (b % 256) + 65536 * (c % 256) + 16777216 * (d % 256)) in
    (
      x * knuth_prime % 2 ^ 32 / 2 ^ shift,
      refl,
      (div-lt_iff_lt-mul (pow_pos shift)).1 (rw e (omega arith)),
    )
hash_lem n shift _ h e = absurd (omega arith)

fill_step :
    (shift : ℕ) (a : ℕ) (rest : List ℕ) (i : ℕ) (head : List ℤ) (h : ℕ)
    → leb hash_len (length (a ∷ rest)) ≡ true
    → hash shift (a ∷ rest) ≡ ok h
    → h < length head
    → fill shift (a ∷ rest) i head ≡ fill shift rest (i + 1) (set head h (int32 (i + 1)))
unfolding fill
fill_step shift a rest i head h long eh lt = rw (long, eh, lt→ltb h (length head) lt)

fill_lem :
    (shift : ℕ) (rest : List ℕ) (i : ℕ) (head : List ℤ)
    → length head * 2 ^ shift ≡ 2 ^ 32
    → (head' : List ℤ) × (fill shift rest i head ≡ ok head') × (length head' ≡ length head)
unfolding fill
fill_lem shift [] i head e = (head, refl, refl)
fill_lem shift (a ∷ rest) i head e = elim (Bool-cases (leb hash_len (length (a ∷ rest)))) [
  | inr short ↦ (head, rw short, refl)
  | inl long ↦
      let (h, eh, hlt) =
        hash_lem (length head) shift (a ∷ rest) (leb→le 4 (suc (length rest)) long) e in
      let head₁ = set head h (int32 (i + 1)) in
      let same : length head₁ ≡ length head = length-set head h (int32 (i + 1)) in
      let (head₂, ef, el) = fill_lem shift rest (i + 1) head₁ (rw same e) in
      (head₂, fill_step shift a rest i head h long eh hlt ∙ ef, el ∙ same)
]

index_bits_loop_lem :
    (rounds n bits : ℕ)
    → rounds + bits ≡ max_index_bits
    → (bits ≤ index_bits_loop rounds n bits)
      × (index_bits_loop rounds n bits ≤ max_index_bits)
      × ((n ≤ 2 ^ index_bits_loop rounds n bits) ⊎ (index_bits_loop rounds n bits ≡ max_index_bits))
      × ((index_bits_loop rounds n bits ≡ bits) ⊎ (2 ^ (index_bits_loop rounds n bits - 1) < n))
unfolding index_bits_loop
index_bits_loop_lem zero n bits e = (omega arith, omega arith, inr (omega arith), inl refl)
index_bits_loop_lem (suc rounds) n bits e =
    let (lo, hi, big, few) = index_bits_loop_lem rounds n (bits + 1) (omega arith) in
    elim (Bool-cases (ltb (2 ^ bits) n && ltb bits max_index_bits)) [
      | inr stop ↦ rw stop (omega arith, omega arith, ground (arith, stop), inl refl)
      | inl more ↦
          let below : 2 ^ bits < n = ground (arith, more) in
          rw more (omega (arith, lo), hi, big, inr (one_less bits n few below))
    ]
  where
    one_less :
        {r : ℕ} (bits n : ℕ) → (r ≡ bits + 1) ⊎ (2 ^ (r - 1) < n) → 2 ^ bits < n → 2 ^ (r - 1) < n
    one_less bits n (inl e) h = let k : bits + 1 - 1 ≡ bits = omega arith in rw (e, k) h
    one_less bits n (inr h') h = h'

-- The number of index bits is between the two limits, the table is as large as the base unless it has the
-- largest size, and it is not larger than needed: the number is the least one, or with one bit less the
-- table would be smaller than the base.
pub index_bits_bounds :
    (n : ℕ)
    → (min_index_bits ≤ index_bits n)
      × (index_bits n ≤ max_index_bits)
      × ((n ≤ 2 ^ index_bits n) ⊎ (index_bits n ≡ max_index_bits))
      × ((index_bits n ≡ min_index_bits) ⊎ (2 ^ (index_bits n - 1) < n))
unfolding index_bits
index_bits_bounds n = index_bits_loop_lem 11 n 12 refl

pow_complement : (k s : ℕ) → 2 ^ k * 2 ^ s ≡ 2 ^ (k + s)
pow_complement zero s = rw zero-add (omega arith)
pow_complement (suc k) s =
    let e : suc k + s ≡ suc (k + s) = omega arith in
    rw (e, pow-suc, pow-suc) (omega (arith, pow_complement k s))

new_index_table :
    (n : ℕ) → length (replicate (2 ^ index_bits n) (pos 0)) * 2 ^ (32 - index_bits n) ≡ 2 ^ 32
new_index_table n =
    let (lo, hi, _, _) = index_bits_bounds n in
    let e : index_bits n + (32 - index_bits n) ≡ 32 = omega arith in
    rw (length-replicate, pow_complement, e)

new_index_eq :
    (base : List ℕ) (head : List ℤ)
    → fill (32 - index_bits (length base)) base 0 (replicate (2 ^ index_bits (length base)) (pos 0))
      ≡ ok head
    → new_index base
      ≡ ok (record { base = base; head = head; shift = 32 - index_bits (length base) })
unfolding new_index
new_index_eq base head e = rw e

-- `NewIndex` panics on no base, keeps the base, and makes a table in which every hash is a position.
pub new_index-IsValid :
    (base : List ℕ) → (ix : Index) × (new_index base ≡ ok ix) × (ix.base ≡ base) × IsValid ix
unfolding new_index
new_index-IsValid base =
    let shift = 32 - index_bits (length base) in
    let table = replicate (2 ^ index_bits (length base)) (pos 0) in
    let covers = new_index_table (length base) in
    let (head, ef, el) = fill_lem shift base 0 table covers in
    (
      record { base = base; head = head; shift = shift },
      new_index_eq base head ef,
      refl,
      record { covers = rw el covers },
    )
