-- ===== src/Transfer/Growth.antt =====
-- What `writeDNAR` has given an index keeps it (internal/cmd/dnar-pack/dnar.go: addInputStoreFile,
-- addChunkDep, addDeltaPayload).
use deltanar.Base.{ℕ, Option-cases, inl, inr, List, [], ◌∷◌, get_elem?-append, All}
use deltanar.Database.{StoreFile, Chunk}
use deltanar.Pack.LocalIndex.{MatchedChunk, lookup_id}
use deltanar.Pack.State.{
  Packing, add_input_store_file, new_input_file, add_chunk_dep, new_chunk_dep, lookup_hash,
  add_delta_payload,
}
use deltanar.Pack.Files.{Source}
use deltanar.Pack.Kept.{Kept}
use deltanar.Transfer.{Extends}

pub same-Extends : (p : Packing) → Extends p p
same-Extends p = record { deps = λ i b e. e; files = λ i f e. e }

pub Extends-trans : (p q r : Packing) → Extends p q → Extends q r → Extends p r
Extends-trans p q r h k = record {
  deps = λ i b e. k.deps i b (h.deps i b e);
  files = λ i f e. k.files i f (h.files i f e);
}

pub file-Extends : (f : StoreFile) (p : Packing) → Extends p (add_input_store_file f p).1
unfolding add_input_store_file new_input_file
file-Extends f p = elim (Option-cases (lookup_id f.id p.input_files_map)) [
  | inl n ↦
      rw (add_input_store_file, n)
        (record { deps = λ i b e. e; files = λ i g e. get_elem?-append p.input_files (f ∷ []) i e })
  | inr (i, s) ↦ rw (add_input_store_file, s) (same-Extends p)
]

pub chunk-Extends : (c : Chunk) (p : Packing) → Extends p (add_chunk_dep c p).1
unfolding add_chunk_dep new_chunk_dep
chunk-Extends c p = elim (Option-cases (lookup_hash c.hash p.chunk_deps_map)) [
  | inl n ↦
      rw (add_chunk_dep, n)
        (record { deps = λ i b e. get_elem?-append p.chunk_deps _ i e; files = λ i g e. e })
  | inr (i, s) ↦ rw (add_chunk_dep, s) (same-Extends p)
]

pub payload-Extends : (d : List ℕ) (p : Packing) → Extends p (add_delta_payload d p).1
unfolding add_delta_payload
payload-Extends d p = record {
  deps = λ i b e. get_elem?-append p.chunk_deps _ i e;
  files = λ i g e. e;
}

pub any_chunks : (ms : List MatchedChunk) → All (λ m. Unit {0}) ms
any_chunks [] = tt
any_chunks (m ∷ ms) = (tt, any_chunks ms)

pub Extends-kept : (src : Source) (p : Packing) → Kept src (λ c. Unit {0}) (Extends p)
Extends-kept src p = record {
  local_index = λ q id f li e h. record { deps = h.deps; files = h.files };
  cache = λ q id f li ix c e g h. record { deps = h.deps; files = h.files };
  file = λ f q h. Extends-trans p q (add_input_store_file f q).1 h (file-Extends f q);
  chunk = λ c q r h. Extends-trans p q (add_chunk_dep c q).1 h (chunk-Extends c q);
  payload = λ d q h. Extends-trans p q (add_delta_payload d q).1 h (payload-Extends d q);
  rows = λ q id h. any_chunks _;
}
