-- ===== src/Pack/Inputs.antt =====
-- The input files of a packing: every store path of theirs is among the paths that the trailer names.
use deltanar.Base.{
  ℕ, ◌<◌, ◌≡◌, refl, List, [], ◌∷◌, ◌++◌, none, some, Option-cases, Bool-cases, inl, inr, arith,
  length, All, All-append, length-append, ◌==◌, ==_iff,
}
use deltanar.Database.{StoreFile, Chunk}
use deltanar.Pack.LocalIndex.{lookup_id}
use deltanar.Pack.State.{
  Packing, index_of, add_input_store_path_id, new_input_file, add_input_store_file, add_chunk_dep,
  new_chunk_dep, lookup_hash,
}

abbrev pub IsNamed : List ℕ → StoreFile → Type 0
IsNamed ids f = (i : ℕ) × (index_of f.store_path_id ids ≡ some i) × (i < length ids)

abbrev pub IsPacked : Packing → Type 0
IsPacked p = All (IsNamed p.input_paths) p.input_files

index_of-append :
    (id : ℕ) (ids more : List ℕ) {i : ℕ}
    → index_of id ids ≡ some i
    → index_of id (ids ++ more) ≡ some i
unfolding index_of
index_of-append id [] more h = cc
index_of-append id (x ∷ xs) more {i} h = elim (Bool-cases (x == id)) [
  | inl e ↦ let k = rw e at h in rw e k
  | inr e ↦ elim (Option-cases (index_of id xs)) [
    | inl n ↦ let k = rw (e, n) at h in cc
    | inr (j, s) ↦ let k = rw (e, s) at h in rw (e, index_of-append id xs more s) k
  ]
]

index_of-snoc :
    (id : ℕ) (ids : List ℕ)
    → index_of id ids ≡ none
    → index_of id (ids ++ (id ∷ [])) ≡ some (length ids)
unfolding index_of
index_of-snoc id [] h = rw ((==_iff id id).1 refl)
index_of-snoc id (x ∷ xs) h = elim (Bool-cases (x == id)) [
  | inl e ↦ let k = rw e at h in cc
  | inr e ↦ elim (Option-cases (index_of id xs)) [
    | inl n ↦ rw (e, index_of-snoc id xs n)
    | inr (j, s) ↦ let k = rw (e, s) at h in cc
  ]
]

IsNamed-append : (ids more : List ℕ) (f : StoreFile) → IsNamed ids f → IsNamed (ids ++ more) f
IsNamed-append ids more f (i, e, h) =
    (i, index_of-append f.store_path_id ids more e, omega (arith, length-append ids more))

All-IsNamed-append :
    (ids more : List ℕ) (fs : List StoreFile)
    → All (IsNamed ids) fs
    → All (IsNamed (ids ++ more)) fs
All-IsNamed-append ids more [] h = tt
All-IsNamed-append ids more (f ∷ fs) (h, hs) =
    (IsNamed-append ids more f h, All-IsNamed-append ids more fs hs)

index_of-lt : (id : ℕ) (ids : List ℕ) {i : ℕ} → index_of id ids ≡ some i → i < length ids
unfolding index_of
index_of-lt id [] h = cc
index_of-lt id (x ∷ xs) {i} h = elim (Bool-cases (x == id)) [
  | inl e ↦ let k = rw e at h in ground arith
  | inr e ↦ elim (Option-cases (index_of id xs)) [
    | inl n ↦ let k = rw (e, n) at h in cc
    | inr (j, s) ↦ let k = rw (e, s) at h in let l = index_of-lt id xs s in ground arith
  ]
]

add_path-IsNamed :
    (f : StoreFile) (ids : List ℕ) (fs : List StoreFile)
    → All (IsNamed ids) fs
    → All (IsNamed (add_input_store_path_id f.store_path_id ids)) (fs ++ (f ∷ []))
unfolding add_input_store_path_id
add_path-IsNamed f ids fs h = elim (Option-cases (index_of f.store_path_id ids)) [
  | inl n ↦
      rw (add_input_store_path_id, n)
        (All-append _ fs (f ∷ []) (All-IsNamed-append ids _ fs h) (
          (
            length ids,
            index_of-snoc f.store_path_id ids n,
            omega (arith, length-append ids (f.store_path_id ∷ [])),
          ),
          tt,
        ))
  | inr (i, s) ↦
      rw (add_input_store_path_id, s)
        (All-append _ fs (f ∷ []) h ((i, s, index_of-lt f.store_path_id ids s), tt))
]

-- The index of an added file holds that file or one of its id.
pub add_input_store_file-IsPacked :
    (f : StoreFile) (p : Packing) → IsPacked p → IsPacked (add_input_store_file f p).1
unfolding add_input_store_file new_input_file
add_input_store_file-IsPacked f p h = elim (Option-cases (lookup_id f.id p.input_files_map)) [
  | inl n ↦ rw (add_input_store_file, n) (add_path-IsNamed f p.input_paths p.input_files h)
  | inr (i, s) ↦ rw (add_input_store_file, s) h
]

pub add_chunk_dep-IsPacked : (c : Chunk) (p : Packing) → IsPacked p → IsPacked (add_chunk_dep c p).1
unfolding add_chunk_dep new_chunk_dep
add_chunk_dep-IsPacked c p h = elim (Option-cases (lookup_hash c.hash p.chunk_deps_map)) [
  | inl n ↦ rw (add_chunk_dep, n) h
  | inr (i, s) ↦ rw (add_chunk_dep, s) h
]
