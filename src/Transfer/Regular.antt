-- ===== src/Transfer/Regular.antt =====
-- A regular file on its way from the packer to the unpacker (internal/cmd/dnar-pack/dnar.go, the case of a
-- regular file, and internal/cmd/dnar-unpack/write.go).
use deltanar.Base.{
  ℕ, ◌≡◌, refl, sym, ap, ◌∙◌, true, Bool-cases, Option, none, some, inl, inr, List, [], ◌∷◌, map,
  Result, ok, err, panic, stuck, no_rows, library, >>=-eq-ok, ok-injective, of_option,
  of_option-eq-ok, concat, get_elem?, take, drop, take-length, arith, ◌==◌, ==_iff,
}
use mathlib.Core.Path.{subst}
use mathlib.Core.List.{append-nil}
use deltanar.Base.Text.{Text}
use deltanar.Store.{Hashing}
use deltanar.Database.{StorePath, StoreFile, Chunk, Db, Engine, IsEngine}
use deltanar.Database.Queries.{
  select, hash_eq, match_row, local_matches, get_store_path_by_id, get_store_file_by_id,
  get_store_chunks_with_local_match, get_local_file_by_hash,
}
use deltanar.Database.Matching.{select-get, and-true}
use deltanar.Dnar.{ChunkDescriptor, FdChunk, fd, FileType, regular}
use deltanar.Pack.LocalIndex.{
  LocalIndex, MatchedChunk, matched_chunk, file_chunks, found, file_by_hash,
}
use deltanar.Pack.State.{Packing, add_input_store_file}
use deltanar.Pack.Reference.{Reference, count_votes, choose_reference, store_file_abs_path}
use deltanar.Pack.Votes.Best.{IsShuffle}
use deltanar.Pack.Files.{
  Source, wire_bytes, file_deltas, pack_by_chunks, pack_contents, pack_regular,
}
use deltanar.Pack.Indices.{add_input_store_file-AreIndexed}
use deltanar.Pack.Kept.{Then-ok, choose_reference-Packs}
use deltanar.Pack.Deltas.{chunk_of}
use deltanar.Pack.Sent.{fd_range-ok}
use deltanar.Unpack.Nar.Chunks.{Inputs, fd_range}
use deltanar.Unpack.Nar.Trace.{chunks_trace, fd_bytes}
use deltanar.Transfer.{Describes, IsSound, Extends, Receives, range}
use deltanar.Transfer.Rows.{own_row, file_chunks-IsChunkOf}
use deltanar.Transfer.Sound.{IsSound-kept}
use deltanar.Transfer.Chosen.{choose_reference-IsRef}
use deltanar.Transfer.Chunks.{
  writes, AreDeltas, delta_results-AreDeltas, no_deltas-AreDeltas, pack_chunks-writes,
}

-- The unpacker writes this content for these chunks, piece by piece, and ends well.
abbrev pub Delivers : Inputs → List ChunkDescriptor → List ℕ → Type 0
Delivers inp cs content =
    (pieces : List (List ℕ)) × (chunks_trace inp cs ≡ writes pieces) × (concat pieces ≡ content)

found-some : (r : Result StoreFile) {f : StoreFile} → found r ≡ ok (some f) → r ≡ ok f
found-some (ok g) h = cc
found-some (err no_rows) h = cc
found-some (err library) h = cc
found-some (err _) h = cc
found-some panic h = cc
found-some stuck h = cc

-- A file that the target has with the same hash.
pub file_by_hash-row :
    (engine : Engine) (li : LocalIndex) (hash : Option (List ℕ)) (g : StoreFile)
    → IsEngine engine
    → file_by_hash engine li hash ≡ ok (some g)
    → (j : ℕ) × (get_elem? li.db.files j ≡ some g) × (hash_eq g.hash hash ≡ true)
unfolding file_by_hash get_local_file_by_hash
file_by_hash-row engine li hash g lawful h =
    let e = of_option-eq-ok no_rows _ (found-some _ h) in
    let (i, k) = lawful.picks_file _ e in
    let (t, j, s) = select-get _ li.db.files i k in (j, s, (and-true _ _ t).0)

chunk_of-row :
    (nc : Chunk) (o : Option Chunk) (content : List ℕ)
    → chunk_of (matched_chunk (match_row nc o)) content ≡ take nc.size (drop nc.offset content)
chunk_of-row nc none content = refl
chunk_of-row nc (some lc) content = refl

-- The bytes of the rows are the bytes of the chunks.
chunks-tile :
    (contents : ℕ → List ℕ) (engine : Engine) (db : Db) (local_paths : List Text) (file_id : ℕ)
    (cs : List Chunk)
    → map
        (λ m. chunk_of m (contents file_id))
        (map matched_chunk (
          map
            (λ nc. match_row nc (engine.pick_chunk (local_matches db local_paths nc)))
            (select (λ c. c.file_id == file_id) cs)))
      ≡ map (λ c. range contents c) (select (λ c. c.file_id == file_id) cs)
unfolding select
chunks-tile contents engine db local_paths file_id [] = refl
chunks-tile contents engine db local_paths file_id (c ∷ cs) =
    elim (Bool-cases (c.file_id == file_id)) [
      | inl t ↦
          let same = (==_iff c.file_id file_id).0 t in
          let here : chunk_of
                (matched_chunk (match_row c (engine.pick_chunk (local_matches db local_paths c))))
                (contents file_id)
              ≡ range contents c =
            chunk_of-row c _ (contents file_id)
            ∙ ap (λ n. take c.size (drop c.offset (contents n))) (sym same) in
          rw (t, chunks-tile contents engine db local_paths file_id cs, here)
      | inr t ↦ rw t (chunks-tile contents engine db local_paths file_id cs)
    ]

fd-Delivers :
    (inp : Inputs) (c : FdChunk) (path content bytes : List ℕ)
    → get_elem? inp.files c.index ≡ some path
    → inp.host.open_file path ≡ some content
    → fd_range content c ≡ ok bytes
    → Delivers inp (fd c ∷ []) bytes
unfolding fd_bytes
fd-Delivers inp c path content bytes eg eo er = (bytes ∷ [], rw (eg, eo, er), append-nil bytes)

module _ (h : Hashing) (src : Source) (db : Db) (contents : ℕ → List ℕ)
    (d : Describes h src db contents) (lawful : IsEngine src.engine) (order : IsShuffle src.shuffle)
    (q : Packing) (inp : Inputs) (r : Receives src db contents q inp) where
  file_deltas-AreDeltas :
      (f : StoreFile) (sp : StorePath) (i : ℕ) (ref : Option Reference) (ms : List MatchedChunk)
      (ds : List (Option (List ℕ)))
      → get_elem? db.files i ≡ some f
      → f.type ≡ 0
      → get_store_path_by_id db f.store_path_id ≡ ok sp
      → file_deltas src (store_file_abs_path sp.path f.path) ref ms ≡ ok ds
      → AreDeltas src.codec (contents f.id) ref ms ds
  unfolding file_deltas
  file_deltas-AreDeltas f sp i none ms ds g ty ep e =
      let same = ok-injective e in rw (← same) (no_deltas-AreDeltas src.codec (contents f.id) ms)
  file_deltas-AreDeltas f sp i (some ref) ms ds g ty ep e =
      let (content, eo, k) = >>=-eq-ok (of_option library _) _ e in
      let (same, _) = d.opens i f sp content g ty ep (of_option-eq-ok library _ eo) in
      rw (← same) (delta_results-AreDeltas src.codec content ref ms ds k)

  pack_by_chunks-Delivers :
      (f : StoreFile) (sp : StorePath) (i : ℕ) (p p' : Packing) (cs : List ChunkDescriptor)
      → IsSound db contents p
      → get_elem? db.files i ≡ some f
      → f.type ≡ 0
      → get_store_path_by_id db f.store_path_id ≡ ok sp
      → pack_by_chunks src sp.path f p ≡ ok (cs, p')
      → Extends p' q
      → Delivers inp cs (contents f.id)
  unfolding pack_by_chunks file_chunks get_store_chunks_with_local_match
  pack_by_chunks-Delivers f sp i p p' cs s g ty ep e grows =
      let ms = file_chunks src.engine p.li f.id in
      let votes = src.shuffle (count_votes ms []) in
      let ((ref, p₁), e₁, k₁) = >>=-eq-ok (choose_reference src.host f.size votes p) _ e in
      let (ds, e₂, k₂) =
        >>=-eq-ok (file_deltas src (store_file_abs_path sp.path f.path) ref ms) _ k₁ in
      let s₁ =
        Then-ok (λ x. IsSound db contents x.1) _
          (choose_reference-Packs src _ _ (IsSound-kept h src db contents d lawful) f.size votes p
            s)
          e₁ in
      let deltas = file_deltas-AreDeltas f sp i ref ms ds g ty ep e₂ in
      let facts = file_chunks-IsChunkOf h src db contents d lawful p.li f.id s.same_db in
      let chosen =
        Then-ok _ _
          (choose_reference-IsRef h src db contents d lawful f.size f.id ms p s order facts) e₁ in
      let written =
        pack_chunks-writes h src db contents d lawful q inp r f.id ref chosen ms ds p₁ p' cs s₁
          facts deltas k₂ grows in
      let tile =
        chunks-tile contents src.engine p.li.db p.li.local_paths f.id p.li.db.chunks
        ∙ ap (λ x. map (λ c. range contents c) (select (λ c. c.file_id == f.id) x.chunks))
            s.same_db in
      (_, written, ap (λ l. concat l) tile ∙ d.tiles i f g ty)

  pack_contents-Delivers :
      (f : StoreFile) (sp : StorePath) (i : ℕ) (o : Option StoreFile) (p p' : Packing)
      (cs : List ChunkDescriptor)
      → IsSound db contents p
      → get_elem? db.files i ≡ some f
      → f.type ≡ 0
      → get_store_path_by_id db f.store_path_id ≡ ok sp
      → file_by_hash src.engine p.li f.hash ≡ ok o
      → pack_contents src sp.path f o p ≡ ok (cs, p')
      → Extends p' q
      → Delivers inp cs (contents f.id)
  unfolding pack_contents
  pack_contents-Delivers f sp i none p p' cs s g ty ep _ e grows =
      pack_by_chunks-Delivers f sp i p p' cs s g ty ep e grows
  pack_contents-Delivers f sp i (some x) p p' cs s g ty ep eh e grows =
      let (j, gx, same_hash) = file_by_hash-row src.engine p.li f.hash x lawful eh in
      let gx' = rw s.same_db at gx in
      let (kind, same, size) = d.same_files i j f x g gx' ty same_hash in
      let (_, (x', place, id)) = add_input_store_file-AreIndexed x p s.indexed in
      let index = (add_input_store_file x p).0 in
      let c : FdChunk = record {
        index = index;
        size = x.size;
        offset = 0;
        digest = wire_bytes x.hash;
      } in
      let ec : (fd c ∷ []) ≡ cs = ap (λ y. y.0) (ok-injective e) in
      let last : (add_input_store_file x p).1 ≡ p' = ap (λ y. y.1) (ok-injective e) in
      let place' = rw last at place in
      let here = grows.files index x' place' in
      let (path, eg) = r.target.finds index x' here in
      let own = ap (λ n. get_store_file_by_id db n) id ∙ own_row db j x d.consistent gx' in
      let (eo, _) = r.target.has index x' path here eg x own kind in
      let content : contents x'.id ≡ contents f.id = ap contents id ∙ same in
      let small = d.small f.id in
      let read =
        fd_range-ok (contents f.id) c (omega arith) (omega (arith, size, small))
          (omega (arith, size)) in
      let whole : take x.size (contents f.id) ≡ contents f.id =
        ap (λ n. take n (contents f.id)) size ∙ take-length (contents f.id) in
      subst (λ y. Delivers inp y (contents f.id)) ec
        (fd-Delivers inp c path (contents f.id) (contents f.id) eg (eo ∙ ap some content)
          (read ∙ ap ok whole))

  -- A regular file is delivered whole.
  pub pack_regular-Delivers :
      (f : StoreFile) (sp : StorePath) (i : ℕ) (p p' : Packing) (t : FileType)
      → IsSound db contents p
      → get_elem? db.files i ≡ some f
      → f.type ≡ 0
      → get_store_path_by_id db f.store_path_id ≡ ok sp
      → pack_regular src sp.path f p ≡ ok (t, p')
      → Extends p' q
      → (cs : List ChunkDescriptor) × (t
          ≡ regular (record { size = f.size; chunks = cs; executable = f.executable }))
        × Delivers inp cs (contents f.id)
  unfolding pack_regular
  pack_regular-Delivers f sp i p p' t s g ty ep e grows =
      let (o, e₁, k₁) = >>=-eq-ok (file_by_hash src.engine p.li f.hash) _ e in
      let ((cs, p₁), e₂, k₂) = >>=-eq-ok (pack_contents src sp.path f o p) _ k₁ in
      let last : p₁ ≡ p' = ap (λ y. y.1) (ok-injective k₂) in
      (
        cs,
        sym (ap (λ y. y.0) (ok-injective k₂)),
        pack_contents-Delivers f sp i o p p₁ cs s g ty ep e₁ e₂ (rw last grows),
      )
