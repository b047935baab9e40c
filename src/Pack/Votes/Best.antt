-- ===== src/Pack/Votes/Best.antt =====
-- The file with the most votes (internal/cmd/dnar-pack/dnar.go, the loop over `refFileVotes`).
use deltanar.Base.{
  ℕ, zero, suc, ◌+◌, ◌≤◌, ◌<◌, ◌≡◌, refl, sym, ap, ◌∙◌, true, Bool-cases, inl, inr, ◌⊎◌, List, [],
  ◌∷◌, arith,
}
use deltanar.Base.Int.{pos, negsuc, ltb_ℤ}
use deltanar.Pack.LocalIndex.{MatchedChunk}
use deltanar.Pack.Reference.{count_votes, best_ref}
use deltanar.Pack.Votes.{matches_of, total, In, count_votes_lem, In-total, total-In}

-- What the loop ends with: the most votes there are, and a file that has them, unless no file has more
-- than there were at the start.
abbrev IsBest : List (ℕ × ℕ) → ℕ → ℕ → ℕ → Type 0
IsBest votes least id best =
    (n : ℕ) × (least ≤ n)
    × ((v : ℕ × ℕ) → In v votes → v.1 ≤ n)
    × (In (best, n) votes ⊎ ((best ≡ id) × (n ≡ least)))

In-cons : (v w : ℕ × ℕ) (m : List (ℕ × ℕ)) → In w (v ∷ m) → (v ≡ w) ⊎ In w m
In-cons v w m (zero, e) = inl cc
In-cons v w m (suc i, e) = inr (i, e)

-- No entry of the map has more than what is the most behind it.
all_at_most :
    (j k n : ℕ) (m : List (ℕ × ℕ))
    → k ≤ n
    → ((v : ℕ × ℕ) → In v m → v.1 ≤ n)
    → (v : ℕ × ℕ) → In v ((j, k) ∷ m)
    → v.1 ≤ n
all_at_most j k n m h hs v e = elim (In-cons (j, k) v m e) [
  | inl same ↦ let count : k ≡ v.1 = ap (λ x. x.1) same in omega (arith, h, count)
  | inr later ↦ hs v later
]

best_ref_lem :
    (votes : List (ℕ × ℕ)) (least id : ℕ) → IsBest votes least id (best_ref votes (pos least) id)
unfolding best_ref
best_ref_lem [] least id = (least, omega arith, λ v (i, e). cc, inr (refl, refl))
best_ref_lem ((j, k) ∷ m) least id = elim (Bool-cases (ltb_ℤ (pos least) (pos k))) [
  | inl t ↦
      let (n, h, most, found) = best_ref_lem m k j in
      let more : least < k = ground arith in
      rw t (
        n,
        omega (arith, h, more),
        all_at_most j k n m h most,
        elim found [ inl (i, e) ↦ inl (suc i, e) | inr (same, count) ↦ inl (0, rw (same, count)) ],
      )
  | inr t ↦
      let (n, h, most, found) = best_ref_lem m least id in
      let less : k ≤ least = ground arith in
      rw t (
        n,
        h,
        all_at_most j k n m (omega (arith, h, less)) most,
        elim found [ inl (i, e) ↦ inl (suc i, e) | inr e ↦ inr e ],
      )
]

-- The loop begins below any number of votes.
best_ref-start :
    (v : ℕ × ℕ) (votes : List (ℕ × ℕ))
    → (n : ℕ) × ((w : ℕ × ℕ) → In w (v ∷ votes) → w.1 ≤ n)
      × In (best_ref (v ∷ votes) (negsuc 0) 0, n) (v ∷ votes)
unfolding best_ref
best_ref-start (j, k) votes =
    let (n, h, most, found) = best_ref_lem votes k j in
    let t : ltb_ℤ (negsuc 0) (pos k) ≡ true = ground arith in
    (
      n,
      all_at_most j k n votes h most,
      rw t (elim found [ inl (i, e) ↦ (suc i, e) | inr (same, count) ↦ (0, rw (same, count)) ]),
    )

-- The order of a map is any order of its entries.
pub record IsShuffle (shuffle : List (ℕ × ℕ) → List (ℕ × ℕ)) : Type 0 where
  pub keeps : (v : ℕ × ℕ) (votes : List (ℕ × ℕ)) → In v (shuffle votes) → In v votes
  pub finds : (v : ℕ × ℕ) (votes : List (ℕ × ℕ)) → In v votes → In v (shuffle votes)

count_none : (id n k : ℕ) → n ≡ total id [] + k → n ≡ k
unfolding total
count_none id n k h = omega (arith, h)

-- Whatever the order in which the votes are gone through, the file that is chosen as the reference is
-- matched by a chunk, and no other file is matched by more of them.
pub best_ref-most :
    (shuffle : List (ℕ × ℕ) → List (ℕ × ℕ)) (ms : List MatchedChunk) (v : ℕ × ℕ)
    (votes : List (ℕ × ℕ))
    → IsShuffle shuffle
    → shuffle (count_votes ms []) ≡ v ∷ votes
    → (0 < matches_of (best_ref (v ∷ votes) (negsuc 0) 0) ms)
      × ((id : ℕ) → matches_of id ms ≤ matches_of (best_ref (v ∷ votes) (negsuc 0) 0) ms)
best_ref-most shuffle ms v votes law e =
    let (is, count) = count_votes_lem ms [] tt in
    let (n, most, here) = best_ref-start v votes in
    let (some_votes, all) =
      In-total (best_ref (v ∷ votes) (negsuc 0) 0) n (count_votes ms []) is
        (law.keeps _ _ (rw e here)) in
    let best : matches_of (best_ref (v ∷ votes) (negsuc 0) 0) ms ≡ n =
      sym (count_none (best_ref (v ∷ votes) (negsuc 0) 0) _ _ (count _)) ∙ all in
    (
      rw best some_votes,
      λ id. elim (zero_or_more (matches_of id ms)) [
        | inl z ↦ omega (arith, z)
        | inr p ↦
            let have : total id (count_votes ms []) ≡ matches_of id ms =
              count_none id _ _ (count id) in
            let found = law.finds _ _ (total-In id (count_votes ms []) is (rw have p)) in
            let le = most _ (rw e at found) in omega (arith, le, have, best)
      ],
    )
  where
    zero_or_more : (n : ℕ) → (n ≡ 0) ⊎ (0 < n)
    zero_or_more zero = inl refl
    zero_or_more (suc n) = inr (omega arith)
