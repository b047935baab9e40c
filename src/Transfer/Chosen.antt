-- ===== src/Transfer/Chosen.antt =====
-- The reference file that the packer chooses for the deltas of a file (internal/cmd/dnar-pack/dnar.go and
-- delta.go).
use deltanar.Base.{
  ℕ, ◌≡◌, refl, ap, ◌∙◌, Option, none, some, List, [], ◌∷◌, Result, ok, err, panic, stuck, All, ltb,
  leb, ◌&&◌,
}
use mathlib.Core.Path.{subst}
use deltanar.Base.Int.{negsuc}
use deltanar.Store.{Hashing}
use deltanar.Database.{StoreFile, Db, IsEngine}
use deltanar.Database.Queries.{get_store_file_by_id}
use deltanar.Delta.Index.{Index}
use deltanar.Pack.LocalIndex.{LocalIndex, MatchedChunk, store_file_by_id}
use deltanar.Pack.State.{Packing, RefCache}
use deltanar.Pack.Reference.{
  Reference, reference_of, ref_index, check_reference, choose_reference, best_ref, size_cap,
  count_votes,
}
use deltanar.Pack.Votes.{matches_of-some}
use deltanar.Pack.Votes.Best.{IsShuffle, best_ref-most}
use deltanar.Pack.Files.{Source}
use deltanar.Pack.Kept.{Then, if-elim}
use deltanar.Transfer.{Describes, IsSound, IsRef, IsRegular}
use deltanar.Transfer.Rows.{get_store_file_by_id-row, store_file_by_id_lem, IsChunkOf, All-at}
use deltanar.Transfer.Sound.{ref_index_lem, IsSound-kept}

some-injective : {a b : Reference} → some a ≡ some b → a ≡ b
some-injective k = cc

module _ (h : Hashing) (src : Source) (db : Db) (contents : ℕ → List ℕ)
    (d : Describes h src db contents) where
  -- What is chosen is a reference.
  abbrev Chosen : Option Reference × Packing → Type 0
  Chosen r = (x : Reference) → r.0 ≡ some x → IsRef db contents x

  no_choice : (p : Packing) → Chosen (none, p)
  no_choice p x e = cc

  reference_of-IsRef :
      (f : StoreFile) (p : Packing) (r : Result (Index × RefCache))
      → IsSound db contents p
      → get_store_file_by_id db f.id ≡ ok f
      → f.type ≡ 0
      → ref_index src.host f p ≡ r
      → Then Chosen (reference_of f p r)
  reference_of-IsRef f p (ok (ix, c)) s row kind e =
      let ((valid, whole), _) =
        ref_index_lem h src db contents d f p ix c s.same_db s.has_index row e in
      let (base, size) = whole f row kind in
      λ x k. let same = some-injective k in rw (← same) (row, kind, valid, base, size)
  reference_of-IsRef f p (err _) s row kind e = no_choice p
  reference_of-IsRef f p panic s row kind e = tt
  reference_of-IsRef f p stuck s row kind e = tt

  module _ (lawful : IsEngine src.engine) where
    check_reference-IsRef :
        (cap : ℕ) (p : Packing) (id : ℕ) (r : Result (StoreFile × LocalIndex))
        → IsSound db contents p
        → IsRegular db id
        → store_file_by_id p.li id ≡ r
        → Then Chosen (check_reference src.host cap p r)
    check_reference-IsRef cap p id (ok (f, li)) s kind e =
        let p₁ = record p { li = li } in
        let s₁ = (IsSound-kept h src db contents d lawful).local_index p id f li e s in
        let (_, _, row) = store_file_by_id_lem db p.li li id f s.same_db s.cached e in
        let (_, _, same) = get_store_file_by_id-row db id f row in
        let own : get_store_file_by_id db f.id ≡ ok f =
          ap (λ n. get_store_file_by_id db n) same ∙ row in
        if-elim (Then Chosen) (ltb 0 f.size && leb f.size cap)
          (reference_of f p₁ (ref_index src.host f p₁)) (ok (none, p₁))
          (reference_of-IsRef f p₁ (ref_index src.host f p₁) s₁ own (kind f row) refl)
          (no_choice p₁)
    check_reference-IsRef cap p id (err _) s kind e = no_choice p
    check_reference-IsRef cap p id panic s kind e = tt
    check_reference-IsRef cap p id stuck s kind e = tt

    -- The file that a matched chunk names is a regular one.
    best_ref-IsRegular :
        (file_id : ℕ) (ms : List MatchedChunk) (v : ℕ × ℕ) (votes : List (ℕ × ℕ))
        → IsShuffle src.shuffle
        → All (IsChunkOf db contents file_id) ms
        → src.shuffle (count_votes ms []) ≡ v ∷ votes
        → IsRegular db (best_ref (v ∷ votes) (negsuc 0) 0)
    best_ref-IsRegular file_id ms v votes law hs e =
        let (more, _) = best_ref-most src.shuffle ms v votes law e in
        let (i, m, g, matched, same) = matches_of-some _ ms more in
        let (_, local) = All-at (IsChunkOf db contents file_id) ms i hs g in
        let (kind, _, _) = local matched in subst (λ n. IsRegular db n) same kind

    choose-IsRef :
        (size : ℕ) (votes : List (ℕ × ℕ)) (p : Packing)
        → IsSound db contents p
        → ((v : ℕ × ℕ) (rest : List (ℕ × ℕ))
            → votes ≡ v ∷ rest
            → IsRegular db (best_ref (v ∷ rest) (negsuc 0) 0))
        → Then Chosen (choose_reference src.host size votes p)
    unfolding choose_reference
    choose-IsRef size [] p s kind = no_choice p
    choose-IsRef size (v ∷ votes) p s kind =
        check_reference-IsRef (size_cap size) p (best_ref (v ∷ votes) (negsuc 0) 0)
          (store_file_by_id p.li (best_ref (v ∷ votes) (negsuc 0) 0)) s (kind v votes refl) refl

    pub choose_reference-IsRef :
        (size file_id : ℕ) (ms : List MatchedChunk) (p : Packing)
        → IsSound db contents p
        → IsShuffle src.shuffle
        → All (IsChunkOf db contents file_id) ms
        → Then Chosen (choose_reference src.host size (src.shuffle (count_votes ms [])) p)
    choose_reference-IsRef size file_id ms p s law hs =
        choose-IsRef size (src.shuffle (count_votes ms [])) p s
          (λ v rest e. best_ref-IsRegular file_id ms v rest law hs e)
