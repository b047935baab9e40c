-- ===== src/Transfer/Chunks.antt =====
-- The chunks of a regular file on their way from the packer to the unpacker (internal/cmd/dnar-pack/dnar.go,
-- "Write file chunk by chunk", and internal/cmd/dnar-unpack/write.go).
use deltanar.Base.{
  ℕ, ◌≡◌, refl, sym, ap, ◌∙◌, Bool-cases, Option, none, some, inl, inr, List, [], ◌∷◌, map, ok,
  >>=-eq-ok, ok-injective, All, if_true, if_false,
}
use mathlib.Core.Path.{subst}
use deltanar.Store.{Hashing}
use deltanar.Database.{Db, IsEngine}
use deltanar.Delta.{DeltaCodec}
use deltanar.Dnar.{ChunkDescriptor}
use deltanar.Pack.LocalIndex.{MatchedChunk}
use deltanar.Pack.State.{Packing}
use deltanar.Pack.Reference.{Reference, delta_of_chunk, delta_results, no_deltas}
use deltanar.Pack.Files.{Source, pack_chunk, pack_unmatched, pack_chunks, pack_ca, pack_delta}
use deltanar.Pack.Kept.{Then-ok, dep_of, pack_chunk-Packs, pack_chunks-Packs}
use deltanar.Pack.Deltas.{chunk_of}
use deltanar.Unpack.Nar.Chunks.{Inputs}
use deltanar.Unpack.Nar.Trace.{Trace, write, chunks_trace}
use deltanar.Transfer.{Describes, IsRow, IsSound, Extends, Receives, IsRef}
use deltanar.Transfer.Rows.{IsChunkOf}
use deltanar.Transfer.Sound.{IsSound-kept}
use deltanar.Transfer.Growth.{Extends-kept, any_chunks, same-Extends, Extends-trans}
use deltanar.Transfer.Kinds.{
  IsWritten, pack_ca-IsWritten, pack_matched-IsWritten, pack_delta-IsWritten,
}

-- The calls that write these bytes, one after the other.
abbrev pub writes : List (List ℕ) → Trace
writes bs = record { calls = map write bs; outcome = ok tt }

-- Where there is a delta, it is against the reference.
abbrev pub IsDelta :
    DeltaCodec → List ℕ → Option Reference → MatchedChunk → Option (List ℕ) → Type 0
IsDelta codec content ref m d =
    (bytes : List ℕ)
    → d ≡ some bytes
    → (r : Reference) × (ref ≡ some r) × (delta_of_chunk codec r.index content m ≡ ok (some bytes))

abbrev pub AreDeltas :
    DeltaCodec → List ℕ → Option Reference → List MatchedChunk → List (Option (List ℕ)) → Type 0
AreDeltas codec content ref [] ds = Unit
AreDeltas codec content ref (m ∷ ms) [] = Unit
AreDeltas codec content ref (m ∷ ms) (d ∷ ds) =
    IsDelta codec content ref m d × AreDeltas codec content ref ms ds

pub delta_results-AreDeltas :
    (codec : DeltaCodec) (content : List ℕ) (r : Reference) (ms : List MatchedChunk)
    (ds : List (Option (List ℕ)))
    → delta_results codec r.index content ms ≡ ok ds
    → AreDeltas codec content (some r) ms ds
unfolding delta_results
delta_results-AreDeltas codec content r [] ds h = tt
delta_results-AreDeltas codec content r (m ∷ ms) [] h = tt
delta_results-AreDeltas codec content r (m ∷ ms) (d ∷ ds) h =
    let (d₁, e₁, h₁) = >>=-eq-ok (delta_of_chunk codec r.index content m) _ h in
    let (ds₁, e₂, h₂) = >>=-eq-ok (delta_results codec r.index content ms) _ h₁ in
    let same : d₁ ≡ d = cc in
    let rest : ds₁ ≡ ds = cc in
    (
      λ bytes e. (r, refl, e₁ ∙ ap ok (same ∙ e)),
      delta_results-AreDeltas codec content r ms ds (e₂ ∙ ap ok rest),
    )

pub no_deltas-AreDeltas :
    (codec : DeltaCodec) (content : List ℕ) (ms : List MatchedChunk)
    → AreDeltas codec content none ms (no_deltas ms)
no_deltas-AreDeltas codec content [] = tt
no_deltas-AreDeltas codec content (m ∷ ms) =
    (λ bytes e. absurd (none-ne-some e), no_deltas-AreDeltas codec content ms)
  where
    none-ne-some : {bytes : List ℕ} → ◌≡◌ {A = Option (List ℕ)} none (some bytes) → ⊥
    none-ne-some e = cc

some-injective : {a b : Reference} → some a ≡ some b → a ≡ b
some-injective k = cc

-- The cases of a chunk that the target has not.
pack_unmatched-none :
    (file_id : ℕ) (x : Option Reference) (m : MatchedChunk) (p : Packing)
    → pack_unmatched file_id x none m p ≡ ok (pack_ca file_id m p)
unfolding pack_unmatched
pack_unmatched-none file_id none m p = refl
pack_unmatched-none file_id (some y) m p = refl

pack_unmatched-some :
    (file_id : ℕ) (y : Reference) (m : MatchedChunk) (bytes : List ℕ) (p : Packing)
    → pack_unmatched file_id (some y) (some bytes) m p ≡ ok (pack_delta y.file m bytes p)
unfolding pack_unmatched
pack_unmatched-some file_id y m bytes p = refl

pack_unmatched-panic :
    (file_id : ℕ) (m : MatchedChunk) (bytes : List ℕ) (p : Packing) {r : ChunkDescriptor × Packing}
    → pack_unmatched file_id none (some bytes) m p ≡ ok r
    → ⊥
unfolding pack_unmatched
pack_unmatched-panic file_id m bytes p h = cc

module _ (h : Hashing) (src : Source) (db : Db) (contents : ℕ → List ℕ)
    (d : Describes h src db contents) where
  module _ (lawful : IsEngine src.engine) where
    pack_ca-IsSound :
        (file_id : ℕ) (m : MatchedChunk) (p : Packing)
        → IsRow db (dep_of file_id m)
        → IsSound db contents p
        → IsSound db contents (pack_ca file_id m p).1
    unfolding pack_ca
    pack_ca-IsSound file_id m p row s =
        (IsSound-kept h src db contents d lawful).chunk (dep_of file_id m) p row s

    module _ (q : Packing) (inp : Inputs) (r : Receives src db contents q inp) (file_id : ℕ)
        (ref : Option Reference)
        (is_ref : (x : Reference) → ref ≡ some x → IsRef db contents x) where
      pack_unmatched-IsWritten :
          (x : Option Reference) (m : MatchedChunk) (o : Option (List ℕ)) (p p' : Packing)
          (c : ChunkDescriptor)
          → x ≡ ref
          → IsSound db contents p
          → IsChunkOf db contents file_id m
          → IsDelta src.codec (contents file_id) ref m o
          → pack_unmatched file_id x o m p ≡ ok (c, p')
          → Extends p' q
          → IsWritten inp c (chunk_of m (contents file_id))
      pack_unmatched-IsWritten x m none p p' c ex s (row, _) k e grows =
          let eq = ok-injective (sym (pack_unmatched-none file_id x m p) ∙ e) in
          subst (λ y. Extends y.1 q → IsWritten inp y.0 (chunk_of m (contents file_id))) eq
            (pack_ca-IsWritten h src db contents d q inp r file_id m p s row
              (pack_ca-IsSound file_id m p row s))
            grows
      pack_unmatched-IsWritten none m (some bytes) p p' c ex s ch k e grows =
          absurd (pack_unmatched-panic file_id m bytes p e)
      pack_unmatched-IsWritten (some y) m (some bytes) p p' c ex s (row, _) k e grows =
          let (z, ez, ed) = k bytes refl in
          let same : z ≡ y = some-injective (sym ez ∙ sym ex) in
          let eq = ok-injective (sym (pack_unmatched-some file_id y m bytes p) ∙ e) in
          subst (λ y. Extends y.1 q → IsWritten inp y.0 (chunk_of m (contents file_id))) eq
            (pack_delta-IsWritten h src db contents d q inp r file_id y m bytes p s row
              (is_ref y (sym ex)) (rw same at ed))
            grows

      pack_chunk-IsWritten :
          (m : MatchedChunk) (o : Option (List ℕ)) (p p' : Packing) (c : ChunkDescriptor)
          → IsSound db contents p
          → IsChunkOf db contents file_id m
          → IsDelta src.codec (contents file_id) ref m o
          → pack_chunk file_id ref m o p ≡ ok (c, p')
          → Extends p' q
          → IsWritten inp c (chunk_of m (contents file_id))
      unfolding pack_chunk
      pack_chunk-IsWritten m o p p' c s (row, local) k e grows = elim (Bool-cases m.matched) [
        | inl t ↦
            let e' = sym (if_true m.matched _ _ t) ∙ e in
            pack_matched-IsWritten h src db contents d q inp r file_id m p p' c s (local t) e' grows
        | inr t ↦
            let e' = sym (if_false m.matched _ _ t) ∙ e in
            pack_unmatched-IsWritten ref m o p p' c refl s (row, local) k e' grows
      ]

      -- Every chunk is written, one after the other.
      pub pack_chunks-writes :
          (ms : List MatchedChunk) (ds : List (Option (List ℕ))) (p p' : Packing)
          (cs : List ChunkDescriptor)
          → IsSound db contents p
          → All (IsChunkOf db contents file_id) ms
          → AreDeltas src.codec (contents file_id) ref ms ds
          → pack_chunks file_id ref ms ds p ≡ ok (cs, p')
          → Extends p' q
          → chunks_trace inp cs ≡ writes (map (λ m. chunk_of m (contents file_id)) ms)
      unfolding pack_chunks
      pack_chunks-writes [] ds p p' cs s hs ks e grows =
          let same : [] ≡ cs = ap (λ x. x.0) (ok-injective e) in rw (← same)
      pack_chunks-writes (m ∷ ms) [] p p' cs s hs ks e grows = cc
      pack_chunks-writes (m ∷ ms) (o ∷ ds) p p' cs s ((row, local), hs) (k, ks) e grows =
          let ((c, p₁), e₁, f₁) = >>=-eq-ok (pack_chunk file_id ref m o p) _ e in
          let ((cs', p₂), e₂, f₂) = >>=-eq-ok (pack_chunks file_id ref ms ds p₁) _ f₁ in
          let same : (c ∷ cs') ≡ cs = ap (λ x. x.0) (ok-injective f₂) in
          let last : p₂ ≡ p' = ap (λ x. x.1) (ok-injective f₂) in
          let s₁ =
            Then-ok (λ x. IsSound db contents x.1) _
              (pack_chunk-Packs src _ _ (IsSound-kept h src db contents d lawful) file_id ref m o p
                row s)
              e₁ in
          let grows₁ =
            Then-ok (λ x. Extends p₁ x.1) _
              (pack_chunks-Packs src _ _ (Extends-kept src p₁) file_id ref ms ds p₁ (any_chunks ms)
                (same-Extends p₁))
              e₂ in
          let grows₂ : Extends p₂ q = rw last grows in
          let here =
            pack_chunk-IsWritten m o p p₁ c s (row, local) k e₁
              (Extends-trans p₁ p₂ q grows₁ grows₂) in
          let rest = pack_chunks-writes ms ds p₁ p₂ cs' s₁ hs ks e₂ grows₂ in
          rw (← same, here, rest)
