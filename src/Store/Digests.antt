-- ===== src/Store/Digests.antt =====
-- What the digest of a directory leaves out.
use deltanar.Base.{
  ℕ, List, [], ◌∷◌, ◌++◌, ◌≡◌, refl, sym, ap, ◌∙◌, Bool, Option, some, Result, ok, err, panic,
  stuck, ◌>>=◌, map,
}
use deltanar.Base.Text.{Text, trim_prefix}
use deltanar.Base.Host.{Host, Node, file, dir, link, Entries, no_entries, entry}
use deltanar.Store.{ChunkedFile, Hashing}
use deltanar.Store.Chunking.{chunk_file, chunk_bytes}
use deltanar.Store.Tiling.{IsChunker, chunk_bytes-Tiles}
use mathlib.Core.List.{map-append}
use mathlib.Core.Path.{ap₂}
use deltanar.Store.Tree.{
  StoreFile, Attributes, regular_row, dir_row, digest_input, digest_bytes, read_node, read_entries,
}
use deltanar.Unpack.Nar.Walk.{join_path}

-- Two trees with the same names and the same kinds of files at them. Targets of symlinks, executable bits
-- and what the files hold are left open.
mutual
  pub data Alike : Node → Node → Type 0 where
    alike_file : {c c' : List ℕ} {e e' : Bool} → Alike (file c e) (file c' e')
    alike_link : {t t' : Text} → Alike (link t) (link t')
    alike_dir : {es es' : Entries} → AlikeEntries es es' → Alike (dir es) (dir es')

  pub data AlikeEntries : Entries → Entries → Type 0 where
    alike_none : AlikeEntries no_entries no_entries
    alike_entry :
        {name : Text} {n n' : Node} {es es' : Entries}
        → Alike n n'
        → AlikeEntries es es'
        → AlikeEntries (entry name n es) (entry name n' es')

-- The path and the digest of a row.
abbrev pub summary : StoreFile → Text × Option (List ℕ)
summary f = (f.path, f.digest)

abbrev joined : List (Text × Option (List ℕ)) → List ℕ
joined [] = []
joined ((path, digest) ∷ rest) = (path ++ digest_bytes digest) ++ joined rest

digest_input-summary : (fs : List StoreFile) → digest_input fs ≡ joined (map summary fs)
digest_input-summary [] = refl
digest_input-summary (f ∷ fs) =
    ap (λ r. (f.path ++ digest_bytes f.digest) ++ r) (digest_input-summary fs)

-- The rows of a tree, as paths and digests only.
abbrev pub summaries : Result (List StoreFile) → Result (List (Text × Option (List ℕ)))
summaries r = r >>= λ fs. ok (map summary fs)

module _ (h : Hashing) (host : Host) (attrs : Attributes) (store_path : Text) where
  dir_summaries :
      (path : Text) (r : Result (List StoreFile))
      → summaries (r >>= λ files. ok (dir_row h host attrs store_path path files ∷ files)) ≡ (
          summaries r >>= λ ss.
          ok ((trim_prefix path store_path, some (h.blake3 (joined ss))) ∷ ss))
  dir_summaries path (ok fs) =
      ap (λ d. ok ((trim_prefix path store_path, some (h.blake3 d)) ∷ map summary fs))
        (digest_input-summary fs)
  dir_summaries path (err e) = refl
  dir_summaries path panic = refl
  dir_summaries path stuck = refl

  pair_summaries :
      (r r' : Result (List StoreFile))
      → summaries (do fs ← r; gs ← r'; ok (fs ++ gs))
        ≡ (do ss ← summaries r; ts ← summaries r'; ok (ss ++ ts))
  pair_summaries (ok fs) (ok gs) = ap ok (map-append summary fs gs)
  pair_summaries (ok fs) (err e) = refl
  pair_summaries (ok fs) panic = refl
  pair_summaries (ok fs) stuck = refl
  pair_summaries (err e) r' = refl
  pair_summaries panic r' = refl
  pair_summaries stuck r' = refl

  file_summaries :
      (path : Text) (c c' : List ℕ) (e e' : Bool) (r : Result ChunkedFile)
      → summaries (r >>= λ k. ok (regular_row h host attrs store_path path e k c ∷ []))
        ≡ summaries (r >>= λ k. ok (regular_row h host attrs store_path path e' k c' ∷ []))
  file_summaries path c c' e e' (ok k) = refl
  file_summaries path c c' e e' (err x) = refl
  file_summaries path c c' e e' panic = refl
  file_summaries path c c' e e' stuck = refl

  mutual
    unfolding read_node

    read_node-Alike :
        (path : Text) {n n' : Node}
        → Alike n n'
        → summaries (read_node h host attrs store_path path n)
          ≡ summaries (read_node h host attrs store_path path n')
    read_node-Alike path (alike_file {c} {c'} {e} {e'}) =
        file_summaries path c c' e e' (chunk_file h host path)
    read_node-Alike path alike_link = refl
    read_node-Alike path (alike_dir {es} {es'} a) =
        dir_summaries path (read_entries h host attrs store_path path es)
        ∙ ap (λ r. r >>= λ ss. ok ((trim_prefix path store_path, some (h.blake3 (joined ss))) ∷ ss))
            (read_entries-Alike path a)
        ∙ sym (dir_summaries path (read_entries h host attrs store_path path es'))

    read_entries-Alike :
        (path : Text) {es es' : Entries}
        → AlikeEntries es es'
        → summaries (read_entries h host attrs store_path path es)
          ≡ summaries (read_entries h host attrs store_path path es')
    read_entries-Alike path alike_none = refl
    read_entries-Alike path (alike_entry {name} {n} {n'} {es} {es'} a as') =
        pair_summaries (read_node h host attrs store_path (join_path path name) n)
          (read_entries h host attrs store_path path es)
        ∙ ap₂ (λ r r'. do ss ← r; ts ← r'; ok (ss ++ ts)) (read_node-Alike (join_path path name) a)
            (read_entries-Alike path as')
        ∙ sym (
            pair_summaries (read_node h host attrs store_path (join_path path name) n')
              (read_entries h host attrs store_path path es'))

  -- The digests that `ReadStorePath` computes do not depend on the targets of symlinks, nor on executable
  -- bits: two trees with the same names and kinds, over the same host's files, get the same paths and
  -- digests, row by row, and fail alike.
  pub read_node-summaries :
      (path : Text) {n n' : Node}
      → Alike n n'
      → summaries (read_node h host attrs store_path path n)
        ≡ summaries (read_node h host attrs store_path path n')
  read_node-summaries path a = read_node-Alike path a

  -- For a chunker whose cuts are the beginning of the content: an empty directory gets the digest of an
  -- empty file.
  pub empty_dir-digest :
      (path : Text)
      → IsChunker h
      → summaries (read_node h host attrs store_path path (dir no_entries))
        ≡ ok ((trim_prefix path store_path, some (chunk_bytes h []).digest) ∷ [])
  unfolding read_node
  empty_dir-digest path chunker =
      ap (λ d. ok ((trim_prefix path store_path, some d) ∷ []))
        (sym (chunk_bytes-Tiles h chunker []).1)
