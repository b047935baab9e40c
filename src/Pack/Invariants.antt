-- ===== src/Pack/Invariants.antt =====
-- What holds of the inputs and indices when `writeDNAR` has packed all store paths.
use deltanar.Base.{ℕ, List, [], ◌∷◌, All}
use deltanar.Base.Text.{Text}
use deltanar.Database.{Db}
use deltanar.Pack.LocalIndex.{MatchedChunk}
use deltanar.Pack.State.{Packing, add_delta_payload}
use deltanar.Pack.Files.{Source}
use deltanar.Pack.PathInfo.{PathInfos}
use deltanar.Pack.Dnar.{pack_store_paths}
use deltanar.Pack.Inputs.{IsPacked, add_input_store_file-IsPacked, add_chunk_dep-IsPacked}
use deltanar.Pack.Indices.{
  AreIndexed, add_chunk_dep-AreIndexed, add_input_store_file-AreIndexed,
  add_delta_payload-AreIndexed,
}
use deltanar.Pack.Kept.{Then, Kept}
use deltanar.Pack.Kept.Files.{pack_store_paths-Packs}

delta_payload-IsPacked :
    (d : List ℕ) (p : Packing) → IsPacked p → IsPacked (add_delta_payload d p).1
unfolding add_delta_payload
delta_payload-IsPacked d p h = h

any_chunks : (ms : List MatchedChunk) → All (λ m. Unit {0}) ms
any_chunks [] = tt
any_chunks (m ∷ ms) = (tt, any_chunks ms)

inputs_kept : (src : Source) → Kept src (λ c. Unit {0}) IsPacked
inputs_kept src = record {
  local_index = λ p id f li e h. h;
  cache = λ p id f li ix c e g h. h;
  file = add_input_store_file-IsPacked;
  chunk = λ c p r h. add_chunk_dep-IsPacked c p h;
  rows = λ p id h. any_chunks _;
  payload = delta_payload-IsPacked;
}

indices_kept : (src : Source) → Kept src (λ c. Unit {0}) AreIndexed
indices_kept src = record {
  local_index = λ p id f li e h. record { chunks = h.chunks; files = h.files };
  cache = λ p id f li ix c e g h. record { chunks = h.chunks; files = h.files };
  file = λ f p h. (add_input_store_file-AreIndexed f p h).0;
  rows = λ p id h. any_chunks _;
  chunk = λ c p r h. (add_chunk_dep-AreIndexed c p h).0;
  payload = λ d p h. (add_delta_payload-AreIndexed d p h).0;
}

module _ (src : Source) (db : Db) where
  -- If every input file's store path has its place among the input paths, it still has after all store
  -- paths are packed.
  pub pack_store_paths-IsPacked :
      (infos : PathInfos) (ss : List Text) (p : Packing)
      → IsPacked p
      → Then (λ r. IsPacked r.1) (pack_store_paths src db infos ss p)
  pack_store_paths-IsPacked infos ss p h =
      pack_store_paths-Packs src _ IsPacked (inputs_kept src) db infos ss p h

  -- If every chunk's hash and every file's id that was given an index finds, at that index, a payload that
  -- is a chunk of that hash and an input file of that id, then they still do after all store paths are
  -- packed, along every branch and whatever the deltas.
  pub pack_store_paths-AreIndexed :
      (infos : PathInfos) (ss : List Text) (p : Packing)
      → AreIndexed p
      → Then (λ r. AreIndexed r.1) (pack_store_paths src db infos ss p)
  pack_store_paths-AreIndexed infos ss p h =
      pack_store_paths-Packs src _ AreIndexed (indices_kept src) db infos ss p h
