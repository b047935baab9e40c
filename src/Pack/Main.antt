-- ===== src/Pack/Main.antt =====
-- The main function of dnar-pack (internal/cmd/dnar-pack/main.go) behind its flags.
use deltanar.Base.{
  ℕ, zero, suc, ◌+◌, ◌/◌, Option, none, some, length, get_elem?, List, [], ◌∷◌, ◌++◌, Bool, true,
  false, Result, ok, ◌>>=◌, ◌==◌, ltb, if◌then◌else◌,
}
use deltanar.Base.Text.{Text, text_eq}
use deltanar.Store.Tree.{StoreFile}
use deltanar.Database.{Db}
use deltanar.Dnar.Wire.{Wire}
use deltanar.Pack.Files.{Source}
use deltanar.Pack.PathInfo.{PathInfos}
use deltanar.Pack.Dnar.{write_dnar}
use deltanar.Pack.Index.{index_paths}

-- Go compares strings byte by byte.
unfoldable pub text_le : Text → Text → Bool
text_le [] t = true
text_le (x ∷ xs) [] = false
text_le (x ∷ xs) (y ∷ ys) =
    let rest = text_le xs ys in if ltb x y then true else if x == y then rest else false

unfoldable pub insert_text : Text → List Text → List Text
unfolding text_le
insert_text t [] = t ∷ []
insert_text t (x ∷ xs) = let rest = insert_text t xs in if text_le t x then t ∷ x ∷ xs else x ∷ rest

-- `slices.Sort`
unfoldable pub sort_texts : List Text → List Text
unfolding insert_text
sort_texts [] = []
sort_texts (x ∷ xs) = insert_text x (sort_texts xs)

-- What `slices.Compact` keeps behind an element.
unfoldable pub compact_after : Text → List Text → List Text
unfolding text_eq
compact_after t [] = []
compact_after t (x ∷ xs) = let rest = compact_after x xs in if text_eq t x then rest else x ∷ rest

-- `slices.Compact`
unfoldable pub compact : List Text → List Text
unfolding compact_after
compact [] = []
compact (x ∷ xs) = x ∷ compact_after x xs

-- One round of `slices.BinarySearch`: the half of `[i, j)` that is left. The middle is always an index;
-- what stands there is less than the target exactly if the target is not at most it.
unfoldable pub half_left : List Text → Text → ℕ → ℕ → ℕ × ℕ
unfolding text_le
half_left xs target i j =
    let h = (i + j) / 2 in
    elim (get_elem? xs h) [
      | none ↦ (i, i)
      | some x ↦ if text_le target x then (i, h) else (h + 1, j)
    ]

-- Its loop, `for i < j`.
unfoldable pub search_loop : ℕ → List Text → Text → ℕ → ℕ → ℕ
unfolding half_left
search_loop zero xs target i j = i
search_loop (suc fuel) xs target i j =
    let (i', j') = half_left xs target i j in
    let rest = search_loop fuel xs target i' j' in if ltb i j then rest else i

unfoldable pub stands_at : Text → Option Text → Bool
unfolding text_eq
stands_at target none = false
stands_at target (some x) = text_eq x target

-- `slices.BinarySearch`, whether it found the target. Each round leaves fewer places.
unfoldable pub binary_search : List Text → Text → Bool
unfolding search_loop stands_at
binary_search xs target =
    stands_at target (get_elem? xs (search_loop (length xs) xs target 0 (length xs)))

-- `newStorePaths`, with the copy of the host's paths that is sorted.
unfoldable pub new_store_paths : List Text → List Text → List Text
unfolding binary_search sort_texts
new_store_paths local [] = []
new_store_paths local (p ∷ ps) =
    let rest = new_store_paths local ps in
    if binary_search (sort_texts local) p then rest else p ∷ rest

-- The indexing and the diff of the paths: the database behind it, the new paths and the local ones. The
-- calls of nix-store are given by their outcomes; the database is the one of the file, migrated.
unfoldable pub plan_paths :
    (Text → Result (List StoreFile))
    → (List Text → Result (List Text))
    → Result (List Text)
    → Text
    → Db
    → Result (Db × List Text × List Text)
unfolding index_paths compact sort_texts new_store_paths
plan_paths read requisites local_roots store_path db = do
  local ← local_roots
  deploy ← requisites (store_path ∷ [])
  let all = compact (sort_texts (local ++ deploy))
  db₁ ← index_paths read (requisites all) db
  ok (db₁, new_store_paths local deploy, local)

-- The stream that is then written, with the outcome of the call of nix.
unfoldable pub pack_main :
    {B : Type 0}
    → Source
    → Wire B
    → (List Text → Result PathInfos)
    → Db × List Text × List Text
    → Result (List B)
unfolding write_dnar
pack_main src w path_infos (db, new, local) = write_dnar src db w (path_infos new) new local
