-- ===== src/Pack/Reference.antt =====
-- Choosing the reference file of a file's missing chunks, and their deltas
-- (internal/cmd/dnar-pack/dnar.go, the branch "Write file chunk by chunk").
use deltanar.Base.{
  ℕ, ◌+◌, ◌*◌, List, [], ◌∷◌, ◌++◌, ◌&&◌, ◌||◌, Option, none, some, Result, ok, err, panic, stuck,
  library, ◌>>=◌, ◌==◌, ltb, leb, length, take, drop, if◌then◌else◌,
}
use deltanar.Base.Int.{ℤ, pos, negsuc, ltb_ℤ}
use deltanar.Base.Text.{Text, text_eq}
use deltanar.Base.Host.{Host}
use deltanar.Delta.{DeltaCodec}
use deltanar.Delta.Index.{Index}
use deltanar.Delta.Diff.{diff_with}
use deltanar.Database.{StoreFile}
use deltanar.Database.Queries.{get_store_path_by_id}
use deltanar.Pack.LocalIndex.{LocalIndex, MatchedChunk, store_file_by_id}
use deltanar.Pack.State.{Packing, RefCache, get_ref}

abbrev pub ref_size_factor : ℕ
ref_size_factor = 4

-- 16 << 20
abbrev pub ref_size_floor : ℕ
ref_size_floor = 16 * 1048576

-- `storeFileAbsPath`
unfoldable pub store_file_abs_path : Text → Text → Text
store_file_abs_path store_path file_path =
    if text_eq file_path (b'/' ∷ []) then store_path else store_path ++ file_path

-- `votes[id]++`
unfoldable pub add_vote : ℕ → List (ℕ × ℕ) → List (ℕ × ℕ)
add_vote id [] = (id, 1) ∷ []
add_vote id ((j, n) ∷ m) = if j == id then (j, n + 1) ∷ m else (j, n) ∷ add_vote id m

-- `refFileVotes`
unfoldable pub count_votes : List MatchedChunk → List (ℕ × ℕ) → List (ℕ × ℕ)
unfolding add_vote
count_votes [] votes = votes
count_votes (m ∷ ms) votes =
    count_votes ms (if m.matched then add_vote m.local_file_id votes else votes)

-- The loop over the votes, in the order in which the map is gone through.
unfoldable pub best_ref : List (ℕ × ℕ) → ℤ → ℕ → ℕ
best_ref [] best id = id
best_ref ((j, n) ∷ m) best id =
    best_ref m (if ltb_ℤ best (pos n) then pos n else best) (if ltb_ℤ best (pos n) then j else id)

-- `sizeCap`
abbrev pub size_cap : ℕ → ℕ
size_cap size =
    if ltb (size * ref_size_factor) ref_size_floor then ref_size_floor else size * ref_size_factor

-- A reference file and the index over it.
pub record Reference : Type 0 where
  pub file : StoreFile
  pub index : Index

-- A reference that cannot be read is none: its error is dropped.
abbrev pub reference_of :
    StoreFile → Packing → Result (Index × RefCache) → Result (Option Reference × Packing)
reference_of f p (ok (index, cache)) =
    ok (some (record { file = f; index = index }), record p { ref_cache = cache })
reference_of f p (err e) = ok (none, p)
reference_of f p panic = panic
reference_of f p stuck = stuck

-- `getRefIndex`
unfoldable pub ref_index : Host → StoreFile → Packing → Result (Index × RefCache)
unfolding get_ref store_file_abs_path
ref_index host f p = do
  store_path ← get_store_path_by_id p.li.db f.store_path_id
  get_ref host (store_file_abs_path store_path.path f.path) f.id p.ref_cache

-- The file with the most votes is the reference, if it is not empty and not larger than the cap.
abbrev pub check_reference :
    Host → ℕ → Packing → Result (StoreFile × LocalIndex) → Result (Option Reference × Packing)
check_reference host cap p (ok (f, li)) =
    let p₁ = record p { li = li } in
    if ltb 0 f.size && leb f.size cap
    then reference_of f p₁ (ref_index host f p₁)
    else ok (none, p₁)
check_reference host cap p (err e) = ok (none, p)
check_reference host cap p panic = panic
check_reference host cap p stuck = stuck

unfoldable pub choose_reference :
    Host → ℕ → List (ℕ × ℕ) → Packing → Result (Option Reference × Packing)
unfolding best_ref ref_index store_file_by_id
choose_reference host size [] p = ok (none, p)
choose_reference host size (v ∷ votes) p =
    check_reference host (size_cap size) p
      (store_file_by_id p.li (best_ref (v ∷ votes) (negsuc 0) 0))

-- `ReadAt`, which fails where fewer bytes are left.
abbrev pub read_at : List ℕ → ℕ → ℕ → Result (List ℕ)
read_at content offset size =
    if leb (offset + size) (length content)
    then ok (take size (drop offset content))
    else err library

module _ (c : DeltaCodec) where
  -- The delta of one chunk, if it is missing and the delta is shorter.
  unfoldable pub delta_of_chunk : Index → List ℕ → MatchedChunk → Result (Option (List ℕ))
  delta_of_chunk index content m = if m.matched || m.size == 0 then ok none else (do
    chunk ← read_at content m.offset m.size
    d ← diff_with c index chunk
    ok (if ltb (length d) (length chunk) then some d else none))

  -- The deltas are computed in parallel, each into its own place.
  unfoldable pub delta_results :
      Index → List ℕ → List MatchedChunk → Result (List (Option (List ℕ)))
  unfolding delta_of_chunk
  delta_results index content [] = ok []
  delta_results index content (m ∷ ms) = do
    d ← delta_of_chunk index content m
    ds ← delta_results index content ms
    ok (d ∷ ds)

abbrev pub no_deltas : List MatchedChunk → List (Option (List ℕ))
no_deltas [] = []
no_deltas (m ∷ ms) = none ∷ no_deltas ms
