-- ===== src/Database/Matching.antt =====
-- What `GetStoreChunksWithLocalMatch` finds is a chunk of a file that the target has.
use deltanar.Base.{
  ℕ, zero, suc, ◌≡◌, refl, ap, ◌∙◌, List, [], ◌∷◌, Bool, true, false, ◌&&◌, Bool-cases, Option,
  none, some, inl, inr, ◌⊎◌, map, get_elem?, ◌==◌,
}
use deltanar.Base.Text.{Text, text_eq_iff}
use deltanar.Database.{Chunk, Db, Engine, IsEngine}
use deltanar.Database.Queries.{
  select, local_file_id, MatchRow, match_row, local_matches, get_store_chunks_with_local_match,
}

-- The chunk is in the table, and has this hash and a file on one of the paths.
pub record IsLocalMatch (db : Db) (local_paths : List Text) (hash : List ℕ) (lc : Chunk)
    : Type 0 where
  pub position : ℕ
  pub stored : get_elem? db.chunks position ≡ some lc
  pub same_hash : lc.hash ≡ hash
  pub is_local : local_file_id db local_paths lc.file_id ≡ true

-- The row names a local chunk, or there is none and its place holds zeros.
abbrev pub IsMatchOf : Db → List Text → MatchRow → Type 0
IsMatchOf db local_paths row =
    ((lc : Chunk) × IsLocalMatch db local_paths row.hash lc
      × (row.local_file_id ≡ lc.file_id)
      × (row.local_size ≡ lc.size)
      × (row.local_offset ≡ lc.offset))
    ⊎ ((row.local_file_id ≡ 0) × ((lc : Chunk) → ¬ IsLocalMatch db local_paths row.hash lc))

pub select-get {ℓ} :
    {A : Type ℓ} (p : A → Bool) (xs : List A) (i : ℕ) {x : A}
    → get_elem? (select p xs) i ≡ some x
    → (p x ≡ true) × (j : ℕ) × (get_elem? xs j ≡ some x)
unfolding select
select-get p [] i h = cc
select-get p (y ∷ ys) zero {x} h = elim (Bool-cases (p y)) [
  | inl e ↦ let k = rw e at h in let s : y ≡ x = cc in (rw⁻¹ s e, 0, k)
  | inr e ↦ let k = rw e at h in let (a, j, b) = select-get p ys zero k in (a, suc j, b)
]
select-get p (y ∷ ys) (suc i) h = elim (Bool-cases (p y)) [
  | inl e ↦ let k = rw e at h in let (a, j, b) = select-get p ys i k in (a, suc j, b)
  | inr e ↦ let k = rw e at h in let (a, j, b) = select-get p ys (suc i) k in (a, suc j, b)
]

-- What passes the test is not lost.
select-ne-nil {ℓ} :
    {A : Type ℓ} (p : A → Bool) (xs : List A) (j : ℕ) {x : A}
    → get_elem? xs j ≡ some x
    → p x ≡ true
    → (y : A) × (ys : List A) × (select p xs ≡ y ∷ ys)
unfolding select
select-ne-nil p [] j h e = cc
select-ne-nil p (y ∷ ys) zero {x} h e =
    let s : y ≡ x = cc in let t : p y ≡ true = ap p s ∙ e in (y, select p ys, rw t)
select-ne-nil p (y ∷ ys) (suc j) h e = elim (Bool-cases (p y)) [
  | inl t ↦ (y, select p ys, rw t)
  | inr f ↦ rw f (select-ne-nil p ys j h e)
]

pub get_elem?-map {ℓ κ} :
    {A : Type ℓ} {B : Type κ} (f : A → B) (xs : List A) (i : ℕ) {y : B}
    → get_elem? (map f xs) i ≡ some y
    → (x : A) × (get_elem? xs i ≡ some x) × (y ≡ f x)
get_elem?-map f [] i h = cc
get_elem?-map f (x ∷ xs) zero h = (x, refl, cc)
get_elem?-map f (x ∷ xs) (suc i) h = get_elem?-map f xs i h

pub and-true : (a b : Bool) → (a && b) ≡ true → (a ≡ true) × (b ≡ true)
and-true true b h = (refl, h)
and-true false b h = cc

and-intro : (a b : Bool) → a ≡ true → b ≡ true → (a && b) ≡ true
and-intro true b h k = k
and-intro false b h k = cc

module _ (db : Db) (local_paths : List Text) (nc : Chunk) where
  local_matches-IsLocalMatch :
      (i : ℕ) (lc : Chunk)
      → get_elem? (local_matches db local_paths nc) i ≡ some lc
      → IsLocalMatch db local_paths nc.hash lc
  unfolding local_matches
  local_matches-IsLocalMatch i lc h =
      let (t, j, e) = select-get _ db.chunks i h in
      let (same, here) = and-true _ _ t in
      record {
        position = j;
        stored = e;
        same_hash = (text_eq_iff lc.hash nc.hash).0 same;
        is_local = here;
      }

  local_matches-finds :
      (lc : Chunk)
      → IsLocalMatch db local_paths nc.hash lc
      → (y : Chunk) × (ys : List Chunk) × (local_matches db local_paths nc ≡ y ∷ ys)
  unfolding local_matches
  local_matches-finds lc m =
      select-ne-nil _ db.chunks m.position m.stored
        (and-intro _ _ ((text_eq_iff lc.hash nc.hash).1 m.same_hash) m.is_local)

row_fields :
    (nc : Chunk) (o : Option Chunk) (row : MatchRow)
    → row ≡ match_row nc o
    → (row.hash ≡ nc.hash) × (row.size ≡ nc.size) × (row.offset ≡ nc.offset)
row_fields nc none row e = (ap (λ r. r.hash) e, ap (λ r. r.size) e, ap (λ r. r.offset) e)
row_fields nc (some lc) row e = (ap (λ r. r.hash) e, ap (λ r. r.size) e, ap (λ r. r.offset) e)

module _ (engine : Engine) (lawful : IsEngine engine) (db : Db) (local_paths : List Text) where
  pick-IsMatchOf :
      (nc : Chunk) (o : Option Chunk)
      → engine.pick_chunk (local_matches db local_paths nc) ≡ o
      → IsMatchOf db local_paths (match_row nc o)
  pick-IsMatchOf nc (some lc) e =
      let (i, g) = lawful.picks_chunk _ e in
      inl (lc, local_matches-IsLocalMatch db local_paths nc i lc g, refl, refl, refl)
  pick-IsMatchOf nc none e = inr (
    refl,
    λ lc m.
        let (y, ys, s) = local_matches-finds db local_paths nc lc m in
        lawful.finds_chunk y ys (rw (← s) e),
  )

  -- For an engine that picks one of the rows if there is one: each row of the query is that of a chunk of
  -- the file, with its place and hash. It names a chunk of the same hash in a file that the target has, or
  -- the file id is 0 and the target has no such chunk.
  pub get_store_chunks_with_local_match_lem :
      (file_id i : ℕ) (row : MatchRow)
      → get_elem? (get_store_chunks_with_local_match engine db local_paths file_id) i ≡ some row
      → (nc : Chunk) × (j : ℕ) × (get_elem? db.chunks j ≡ some nc)
        × ((nc.file_id == file_id) ≡ true)
        × ((row.hash ≡ nc.hash) × (row.size ≡ nc.size) × (row.offset ≡ nc.offset))
        × IsMatchOf db local_paths row
  unfolding get_store_chunks_with_local_match
  get_store_chunks_with_local_match_lem file_id i row h =
      let (nc, g, e) = get_elem?-map _ (select (λ c. c.file_id == file_id) db.chunks) i h in
      let (t, j, s) = select-get (λ c. c.file_id == file_id) db.chunks i g in
      (nc, j, s, t, row_fields nc _ row e, rw e (pick-IsMatchOf nc _ refl))
