-- ===== src/Transfer/Rows.antt =====
-- What the chunks of a file that is packed have to do with the rows of the database
-- (internal/cmd/dnar-pack/localindex.go: fileChunks, storeFileByID).
use deltanar.Base.{
  ℕ, zero, suc, ◌+◌, ◌≤◌, ◌≡◌, refl, sym, ap, ◌∙◌, Bool, true, not, Bool-cases, Option, inl, inr,
  List, [], ◌∷◌, none, some, ok, >>=-eq-ok, ok-injective, of_option-eq-ok, no_rows, length, All,
  get_elem?, take, drop, ◌==◌, ==_iff,
}
use mathlib.Core.Path.{subst}
use deltanar.Base.Text.{Text}
use deltanar.Store.{Hashing}
use deltanar.Database.{StoreFile, Chunk, Db, IsEngine}
use deltanar.Database.Consistency.{IsConsistent}
use deltanar.Database.Queries.{first, MatchRow, get_store_file_by_id}
use deltanar.Database.Matching.{get_elem?-map, get_store_chunks_with_local_match_lem, IsMatchOf}
use deltanar.Pack.LocalIndex.{
  LocalIndex, MatchedChunk, matched_chunk, file_chunks, lookup_id, cached_file, store_file_by_id,
}
use deltanar.Pack.Files.{Source}
use deltanar.Pack.Kept.{dep_of}
use deltanar.Transfer.{Describes, IsRow, IsCached, IsRegular, range}

pub All-get {ℓ κ} :
    {A : Type ℓ} (P : A → Type κ) (xs : List A)
    → ((i : ℕ) (x : A) → get_elem? xs i ≡ some x → P x)
    → All P xs
All-get P [] h = tt
All-get P (x ∷ xs) h = (h 0 x refl, All-get P xs (λ i y e. h (suc i) y e))

pub All-at {ℓ κ} :
    {A : Type ℓ} (P : A → Type κ) (xs : List A) (i : ℕ) {x : A}
    → All P xs
    → get_elem? xs i ≡ some x
    → P x
All-at P [] i h e = cc
All-at P (y ∷ ys) zero h e = let same : y ≡ _ = cc in subst P same h.0
All-at P (y ∷ ys) (suc i) h e = All-at P ys i h.1 e

-- A file's id is that of no other row.
pub own_row :
    (db : Db) (j : ℕ) (f : StoreFile)
    → IsConsistent db
    → get_elem? db.files j ≡ some f
    → get_store_file_by_id db f.id ≡ ok f
unfolding get_store_file_by_id
own_row db j f c e =
    let found =
      All-at (λ x. first (λ y. y.id == x.id) db.files ≡ some x) db.files j c.file_ids.found e in
    rw found

pub first-get {ℓ} :
    {A : Type ℓ} (p : A → Bool) (xs : List A) {x : A}
    → first p xs ≡ some x
    → (i : ℕ) × (get_elem? xs i ≡ some x) × (p x ≡ true)
unfolding first
first-get p [] h = cc
first-get p (y ∷ ys) {x} h = elim (Bool-cases (p y)) [
  | inl e ↦ let k = rw e at h in let same : y ≡ x = cc in (0, ap some same, ap p (sym same) ∙ e)
  | inr e ↦ let k = rw e at h in let (i, g, t) = first-get p ys k in (suc i, g, t)
]

pub get_store_file_by_id-row :
    (db : Db) (id : ℕ) (f : StoreFile)
    → get_store_file_by_id db id ≡ ok f
    → (i : ℕ) × (get_elem? db.files i ≡ some f) × (f.id ≡ id)
unfolding get_store_file_by_id
get_store_file_by_id-row db id f h =
    let (i, g, t) = first-get (λ x. x.id == id) db.files (of_option-eq-ok no_rows _ h) in
    (i, g, (==_iff f.id id).0 t)

-- The target's file has the same bytes where the database says so.
abbrev pub IsSameLocal : Db → (ℕ → List ℕ) → ℕ → MatchedChunk → Type 0
IsSameLocal db contents file_id m =
    IsRegular db m.local_file_id
    × (m.local_offset + m.local_size ≤ length (contents m.local_file_id))
    × (take m.local_size (drop m.local_offset (contents m.local_file_id))
        ≡ take m.size (drop m.offset (contents file_id)))

-- What is known of a chunk of a file.
abbrev pub IsChunkOf : Db → (ℕ → List ℕ) → ℕ → MatchedChunk → Type 0
IsChunkOf db contents file_id m =
    IsRow db (dep_of file_id m) × (m.matched ≡ true → IsSameLocal db contents file_id m)

not_zero : (n : ℕ) → n ≡ 0 → not (n == 0) ≡ true → ⊥
not_zero n e h = let z : (n == 0) ≡ true = (==_iff n 0).1 e in let k = rw z at h in cc

module _ (h : Hashing) (src : Source) (db : Db) (contents : ℕ → List ℕ)
    (d : Describes h src db contents) where
  same_range :
      (i j : ℕ) (a b : Chunk)
      → get_elem? db.chunks i ≡ some a
      → get_elem? db.chunks j ≡ some b
      → a.hash ≡ b.hash
      → range contents a ≡ range contents b
  same_range i j a b ea eb e =
      d.no_collision i j a b ea eb (sym (d.hashed i a ea) ∙ (e ∙ d.hashed j b eb))

  -- Chunks with one hash have the same bytes, rows or not.
  pub IsRow-range :
      (a b : Chunk)
      → IsRow db a
      → IsRow db b
      → a.hash ≡ b.hash
      → range contents a ≡ range contents b
  IsRow-range a b (i, ra, ea, fa, ha, sa, oa) (j, rb, eb, fb, hb, sb, ob) e =
      let k = same_range i j ra rb ea eb (ha ∙ (e ∙ sym hb)) in rw (fa, sa, oa, fb, sb, ob) at k

  pub IsRow-fits : (a : Chunk) → IsRow db a → a.offset + a.size ≤ length (contents a.file_id)
  IsRow-fits a (i, ra, ea, fa, ha, sa, oa) = let k = d.fits i ra ea in rw (fa, sa, oa) at k

  pub IsRow-IsRegular : (a : Chunk) → IsRow db a → IsRegular db a.file_id
  IsRow-IsRegular a (i, ra, ea, fa, _, _, _) = let k = d.of_regular i ra ea in rw fa at k

  module _ (lawful : IsEngine src.engine) where
    row-IsSameLocal :
        (local_paths : List Text) (file_id : ℕ) (row : MatchRow) (nc : Chunk) (j : ℕ)
        → get_elem? db.chunks j ≡ some nc
        → nc.file_id ≡ file_id
        → row.hash ≡ nc.hash
        → row.size ≡ nc.size
        → row.offset ≡ nc.offset
        → IsMatchOf db local_paths row
        → (matched_chunk row).matched ≡ true
        → IsSameLocal db contents file_id (matched_chunk row)
    row-IsSameLocal local_paths file_id row nc j e ef eh es eo (inl (lc, m, li, ls, lo)) t =
        let fit = d.fits m.position lc m.stored in
        let same = same_range m.position j lc nc m.stored e (m.same_hash ∙ eh) in
        let kind = d.of_regular m.position lc m.stored in
        rw (li, ls, lo, es, eo, ← ef) (kind, fit, same)
    row-IsSameLocal local_paths file_id row nc j e ef eh es eo (inr (z, _)) t =
        absurd (not_zero row.local_file_id z t)

    -- The chunks of a file are rows, and a match has the same bytes.
    pub file_chunks-IsChunkOf :
        (li : LocalIndex) (file_id : ℕ)
        → li.db ≡ db
        → All (IsChunkOf db contents file_id) (file_chunks src.engine li file_id)
    unfolding file_chunks
    file_chunks-IsChunkOf li file_id same = All-get _ _ (λ i m e.
        let (row, g, em) = get_elem?-map matched_chunk _ i e in
        let (nc, j, s, t, (eh, es, eo), match) =
          get_store_chunks_with_local_match_lem src.engine lawful db li.local_paths file_id i row
            (rw same at g) in
        let ef = (==_iff nc.file_id file_id).0 t in
        rw em (
          (j, nc, s, ef, sym eh, sym es, sym eo),
          λ t. row-IsSameLocal li.local_paths file_id row nc j s ef eh es eo match t,
        ))

cached_file-lem :
    (db : Db) (li li' : LocalIndex) (id : ℕ) (f : StoreFile) (o : Option StoreFile)
    → li.db ≡ db
    → IsCached db li
    → lookup_id id li.file_cache ≡ o
    → cached_file li id o ≡ ok (f, li')
    → (li'.db ≡ db) × IsCached db li' × (get_store_file_by_id db id ≡ ok f)
unfolding cached_file lookup_id
cached_file-lem db li li' id f (some g) same known e h =
    let eg : g ≡ f = ap (λ r. r.0) (ok-injective h) in
    let el : li ≡ li' = ap (λ r. r.1) (ok-injective h) in
    rw (← el) (same, known, known id g e ∙ ap ok eg)
cached_file-lem db li li' id f none same known e h =
    let (g, eg, k) = >>=-eq-ok (get_store_file_by_id li.db id) _ h in
    let ef : g ≡ f = ap (λ r. r.0) (ok-injective k) in
    let el = ap (λ r. r.1) (ok-injective k) in
    let here : get_store_file_by_id db id ≡ ok g = rw same at eg in
    rw (← el) (
      same,
      λ id' f' e'. elim (Bool-cases (id == id')) [
        | inl t ↦
            let k' = rw t at e' in
            let s : g ≡ f' = cc in
            ap (λ n. get_store_file_by_id db n) (sym ((==_iff id id').0 t)) ∙ (here ∙ ap ok s)
        | inr t ↦ let k' = rw t at e' in known id' f' k'
      ],
      here ∙ ap ok ef,
    )

-- The file of an id is the row of that id, from the cache or not, and the cache stays right.
pub store_file_by_id_lem :
    (db : Db) (li li' : LocalIndex) (id : ℕ) (f : StoreFile)
    → li.db ≡ db
    → IsCached db li
    → store_file_by_id li id ≡ ok (f, li')
    → (li'.db ≡ db) × IsCached db li' × (get_store_file_by_id db id ≡ ok f)
unfolding store_file_by_id
store_file_by_id_lem db li li' id f same known h =
    cached_file-lem db li li' id f (lookup_id id li.file_cache) same known refl h
