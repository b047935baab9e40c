-- ===== src/Delta/Index.antt =====
-- The match index over a base file (internal/delta/delta.go: `Index`, `NewIndex`, `hash`).
pub mod Laws
use deltanar.Base.{
  ℕ, zero, suc, ◌+◌, ◌-◌, ◌*◌, ◌/◌, ◌%◌, ◌^◌, ◌≡◌, List, [], ◌∷◌, ◌&&◌, Result, ok, panic, ◌>>=◌,
  ltb, leb, if◌then◌else◌, length, set, replicate,
}
use deltanar.Base.Int.{ℤ, pos, negsuc}

abbrev pub hash_len : ℕ
hash_len = 4

abbrev pub hash_bits : ℕ
hash_bits = hash_len * 8

abbrev pub min_index_bits : ℕ
min_index_bits = 12

abbrev pub max_index_bits : ℕ
max_index_bits = 23

-- `head[h]` is the latest base position + 1 with hash bucket `h`, an int32.
pub record Index : Type 0 where
  pub base : List ℕ
  pub head : List ℤ
  pub shift : ℕ

-- `for (1<<bits) < n && bits < maxIndexBits`, on the rounds that are left.
unfoldable pub index_bits_loop : ℕ → ℕ → ℕ → ℕ
index_bits_loop zero n bits = bits
index_bits_loop (suc rounds) n bits =
    let rest = index_bits_loop rounds n (bits + 1) in
    if ltb (2 ^ bits) n && ltb bits max_index_bits then rest else bits

unfoldable pub index_bits : ℕ → ℕ
unfolding index_bits_loop
index_bits n = index_bits_loop (max_index_bits - min_index_bits) n min_index_bits

-- `binary.LittleEndian.Uint32`, which panics on fewer than four bytes.
abbrev pub le_u32 : List ℕ → Result ℕ
le_u32 (a ∷ b ∷ c ∷ d ∷ _) =
    ok (a % 256 + 256 * (b % 256) + 65536 * (c % 256) + 16777216 * (d % 256))
le_u32 _ = panic

abbrev pub knuth_prime : ℕ
knuth_prime = 2654435761

-- `(Uint32(b) * knuthPrime) >> shift` on uint32.
unfoldable pub hash : ℕ → List ℕ → Result ℕ
hash shift b = do x ← le_u32 b; ok (x * knuth_prime % 2 ^ 32 / 2 ^ shift)

-- `int32(n)`
abbrev pub int32 : ℕ → ℤ
int32 n = let w = n % 2 ^ 32 in if ltb w (2 ^ 31) then pos w else negsuc (2 ^ 32 - w - 1)

-- `head[h] = v`, which panics out of range.
abbrev pub set_head : List ℤ → ℕ → ℤ → Result (List ℤ)
set_head head h v = if ltb h (length head) then ok (set head h v) else panic

-- The loop over `base[i:]`, while four bytes are left.
unfoldable pub fill : ℕ → List ℕ → ℕ → List ℤ → Result (List ℤ)
fill shift [] i head = ok head
fill shift (a ∷ rest) i head =
    if leb hash_len (length (a ∷ rest))
    then (do
      h ← hash shift (a ∷ rest)
      head' ← set_head head h (int32 (i + 1))
      fill shift rest (i + 1) head')
    else ok head

unfoldable pub new_index : List ℕ → Result Index
unfolding fill
new_index base =
    let bits = index_bits (length base) in
    let shift = hash_bits - bits in
    do
      head ← fill shift base 0 (replicate (2 ^ bits) (pos 0))
      ok (record { base = base; head = head; shift = shift })

-- Every hash is a position in the table.
pub record IsValid (ix : Index) : Type 0 where
  pub covers : length ix.head * 2 ^ ix.shift ≡ 2 ^ 32
