-- ===== src/Pack/Votes.antt =====
-- The votes for the reference file (internal/cmd/dnar-pack/dnar.go: `refFileVotes` and the loop over it).
pub mod Best
use deltanar.Base.{
  ℕ, zero, suc, ◌+◌, ◌≤◌, ◌<◌, ◌≡◌, refl, sym, ap, ◌∙◌, true, false, ◌&&◌, Bool-cases, inl, inr,
  ◌⊎◌, List, [], ◌∷◌, some, get_elem?, arith, ◌==◌, ==_iff, if◌then◌else◌,
}
use deltanar.Base.Int.{pos, negsuc, ltb_ℤ}
use deltanar.Database.Matching.{and-true}
use deltanar.Pack.LocalIndex.{MatchedChunk}
use deltanar.Pack.Reference.{add_vote, count_votes, best_ref}

-- How many chunks match a chunk of a file.
unfoldable pub matches_of : ℕ → List MatchedChunk → ℕ
matches_of id [] = 0
matches_of id (m ∷ ms) =
    let rest = matches_of id ms in if m.matched && m.local_file_id == id then suc rest else rest

-- The votes that a map has for a file.
unfoldable pub total : ℕ → List (ℕ × ℕ) → ℕ
total id [] = 0
total id ((j, n) ∷ m) = let rest = total id m in if j == id then n + rest else rest

-- A map has every key once, with at least one vote.
abbrev pub IsVotes : List (ℕ × ℕ) → Type 0
IsVotes [] = Unit
IsVotes ((j, n) ∷ m) = (total j m ≡ 0) × (0 < n) × IsVotes m

abbrev pub In : ℕ × ℕ → List (ℕ × ℕ) → Type 0
In v votes = (i : ℕ) × (get_elem? votes i ≡ some v)

total-add_vote-same : (id : ℕ) (m : List (ℕ × ℕ)) → total id (add_vote id m) ≡ suc (total id m)
unfolding total add_vote
total-add_vote-same id [] = let t : (id == id) ≡ true = (==_iff id id).1 refl in rw t
total-add_vote-same id ((j, n) ∷ m) = elim (Bool-cases (j == id)) [
  | inl t ↦ rw (t, t) (omega arith)
  | inr t ↦ rw (t, t) (total-add_vote-same id m)
]

total-add_vote-other :
    (id k : ℕ) (m : List (ℕ × ℕ)) → (k == id) ≡ false → total id (add_vote k m) ≡ total id m
unfolding total add_vote
total-add_vote-other id k [] h = rw h
total-add_vote-other id k ((j, n) ∷ m) h = elim (Bool-cases (j == k)) [
  | inl t ↦
      let same : j ≡ k = (==_iff j k).0 t in
      let other : (j == id) ≡ false = rw same h in rw (t, other)
  | inr t ↦ rw (t, total-add_vote-other id k m h)
]

add_vote-IsVotes : (id : ℕ) (m : List (ℕ × ℕ)) → IsVotes m → IsVotes (add_vote id m)
unfolding add_vote total
add_vote-IsVotes id [] h = (refl, omega arith, tt)
add_vote-IsVotes id ((j, n) ∷ m) (z, p, h) = elim (Bool-cases (j == id)) [
  | inl t ↦ rw t (z, omega arith, h)
  | inr t ↦
      let other : (id == j) ≡ false = ground arith in
      rw t (total-add_vote-other j id m other ∙ z, p, add_vote-IsVotes id m h)
]

pub count_votes_lem :
    (ms : List MatchedChunk) (votes : List (ℕ × ℕ))
    → IsVotes votes
    → IsVotes (count_votes ms votes)
      × ((id : ℕ) → total id (count_votes ms votes) ≡ total id votes + matches_of id ms)
unfolding count_votes matches_of
count_votes_lem [] votes h = (h, λ id. omega arith)
count_votes_lem (m ∷ ms) votes h = elim (Bool-cases m.matched) [
  | inl t ↦
      let (v, k) =
        count_votes_lem ms (add_vote m.local_file_id votes) (add_vote-IsVotes _ votes h) in
      rw t (
        v,
        λ id. elim (Bool-cases (m.local_file_id == id)) [
          | inl e ↦
              let same : m.local_file_id ≡ id = (==_iff m.local_file_id id).0 e in
              let more : total id (add_vote m.local_file_id votes) ≡ suc (total id votes) =
                ap (λ n. total id (add_vote n votes)) same ∙ total-add_vote-same id votes in
              rw e (omega (arith, k id, more))
          | inr e ↦ rw e (omega (arith, k id, total-add_vote-other id m.local_file_id votes e))
        ],
      )
  | inr t ↦ let (v, k) = count_votes_lem ms votes h in rw t (v, k)
]

pub In-total : (id n : ℕ) (m : List (ℕ × ℕ)) → IsVotes m → In (id, n) m → (0 < n) × (total id m ≡ n)
unfolding total
In-total id n [] h (i, e) = cc
In-total id n ((j, k) ∷ m) (z, p, h) (zero, e) =
    let same : j ≡ id = cc in
    let count : k ≡ n = cc in
    let none : total id m ≡ 0 = ap (λ x. total x m) (sym same) ∙ z in
    rw ((==_iff j id).1 same, ← count) (p, omega (arith, none))
In-total id n ((j, k) ∷ m) (z, p, h) (suc i, e) =
    let (more, here) = In-total id n m h (i, e) in
    elim (Bool-cases (j == id)) [
      | inl t ↦
          let none : total id m ≡ 0 = ap (λ x. total x m) (sym ((==_iff j id).0 t)) ∙ z in
          absurd (omega (arith, none, here, more))
      | inr t ↦ rw t (more, here)
    ]

pub total-In : (id : ℕ) (m : List (ℕ × ℕ)) → IsVotes m → 0 < total id m → In (id, total id m) m
unfolding total
total-In id [] h k = absurd (omega arith)
total-In id ((j, n) ∷ m) (z, p, h) k = elim (Bool-cases (j == id)) [
  | inl t ↦
      let same = (==_iff j id).0 t in
      let none : total id m ≡ 0 = ap (λ x. total x m) (sym same) ∙ z in
      let count : n + total id m ≡ n = omega (arith, none) in rw (t, count, same) (0, refl)
  | inr t ↦ let k' = rw t at k in let (i, e) = total-In id m h k' in rw t (suc i, e)
]

-- Where there is a match, a chunk has it.
pub matches_of-some :
    (id : ℕ) (ms : List MatchedChunk)
    → 0 < matches_of id ms
    → (i : ℕ) × (m : MatchedChunk) × (get_elem? ms i ≡ some m)
      × (m.matched ≡ true)
      × (m.local_file_id ≡ id)
unfolding matches_of
matches_of-some id [] h = absurd (omega arith)
matches_of-some id (m ∷ ms) h = elim (Bool-cases (m.matched && m.local_file_id == id)) [
  | inl t ↦ let (a, b) = and-true _ _ t in (0, m, refl, a, (==_iff m.local_file_id id).0 b)
  | inr t ↦
      let k = rw t at h in
      let (i, found, e, a, b) = matches_of-some id ms k in (suc i, found, e, a, b)
]
