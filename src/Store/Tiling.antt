-- ===== src/Store/Tiling.antt =====
-- The chunks of a file lie one behind the other from its first byte to its last, each with the hash of
-- its bytes.
use deltanar.Base.{
  ℕ, ◌+◌, ◌≤◌, ◌≡◌, refl, ap, sym, ◌∙◌, Bool-cases, inl, inr, ltb, ltb→ge, List, [], ◌∷◌, ◌++◌,
  arith, length, concat, take, drop, length-append, length-drop, drop_append_length, take_append_le,
  drop_append_le, nil_of_length, take-length,
}
use deltanar.Store.{FileChunk, Hashing}
use deltanar.Store.Chunking.{Chunked, add_chunk, chunk_loop, add_rest, chunk_bytes}
use mathlib.Core.List.{append-nil, append_assoc}
use native.Mathlib.Nat.{zero-add, le_refl}

-- The chunks begin at an offset, leave no gap, and each has its bytes' length and hash.
abbrev pub Tiles : Hashing → ℕ → List ℕ → List FileChunk → Type 0
Tiles h offset bytes [] = bytes ≡ []
Tiles h offset bytes (c ∷ cs) =
    (c.offset ≡ offset)
    × (c.len ≤ length bytes)
    × (c.digest ≡ h.blake3 (take c.len bytes))
    × Tiles h (offset + c.len) (drop c.len bytes) cs

-- What the chunker's library promises.
pub record IsChunker (h : Hashing) : Type 0 where
  pub left : List ℕ → List ℕ
  pub cut_begins : (content : List ℕ) → content ≡ concat (h.cut content) ++ left content

Tiles-snoc :
    (h : Hashing) (offset : ℕ) (b x : List ℕ) (cs : List FileChunk) (c : FileChunk)
    → Tiles h offset b cs
    → c.offset ≡ offset + length b
    → c.len ≡ length x
    → c.digest ≡ h.blake3 x
    → Tiles h offset (b ++ x) (cs ++ (c ∷ []))
Tiles-snoc h offset b x [] c t eo el ed =
    let bx : b ++ x ≡ x = ap (λ l. l ++ x) t in
    let ob : offset + length b ≡ offset = omega (arith, ap length t) in
    (
      eo ∙ ob,
      rw (bx, el) (le_refl (length x)),
      rw (bx, el, take-length) ed,
      rw (bx, el) (nil_of_length _ (omega (arith, length-drop (length x) x))),
    )
Tiles-snoc h offset b x (c₁ ∷ cs) c (to, tl, td, t) eo el ed =
    let shift : offset + length b ≡ offset + c₁.len + length (drop c₁.len b) =
      omega (arith, length-drop c₁.len b) in
    (
      to,
      omega (arith, length-append b x),
      rw (take_append_le c₁.len b x tl) td,
      rw (drop_append_le c₁.len b x tl)
          (Tiles-snoc h (offset + c₁.len) (drop c₁.len b) x cs c t (eo ∙ shift) el ed),
    )

-- The loop has chunked these bytes.
record Done (h : Hashing) (b : List ℕ) (c : Chunked h) : Type 0 where
  tiles : Tiles h 0 b c.chunks
  at_end : c.offset ≡ length b
  hashed : c.hashed ≡ b

add_chunk-Done :
    (h : Hashing) (b x : List ℕ) (c : Chunked h) → Done h b c → Done h (b ++ x) (add_chunk h c x)
unfolding add_chunk
add_chunk-Done h b x c d = record {
  tiles = Tiles-snoc h 0 b x c.chunks _ d.tiles (d.at_end ∙ sym (zero-add (length b))) refl refl;
  at_end = omega (arith, d.at_end, length-append b x);
  hashed = ap (λ l. l ++ x) d.hashed;
}

chunk_loop-Done :
    (h : Hashing) (b : List ℕ) (c : Chunked h) (xs : List (List ℕ))
    → Done h b c
    → Done h (b ++ concat xs) (chunk_loop h c xs)
unfolding chunk_loop
chunk_loop-Done h b c [] d = rw append-nil d
chunk_loop-Done h b c (x ∷ xs) d =
    rw (← append_assoc b x (concat xs))
      (chunk_loop-Done h (b ++ x) (add_chunk h c x) xs (add_chunk-Done h b x c d))

add_rest-Done :
    (h : Hashing) (content b rest : List ℕ) (c : Chunked h)
    → content ≡ b ++ rest
    → Done h b c
    → Done h content (add_rest h content c)
unfolding add_rest
add_rest-Done h content b rest c e d = elim (Bool-cases (ltb c.offset (length content))) [
  | inl more ↦
      let r : drop c.offset content ≡ rest = rw (d.at_end, e) (drop_append_length b rest) in
      rw (more, r, e) (add_chunk-Done h b rest c d)
  | inr none_left ↦
      let empty : length rest ≡ 0 = omega (
        arith,
        ltb→ge c.offset (length content) none_left,
        ap length e,
        length-append b rest,
        d.at_end,
      ) in
      let same : b ≡ content =
        sym (e ∙ ap (λ l. b ++ l) (nil_of_length rest empty) ∙ append-nil b) in
      rw none_left (rw same at d)
]

-- For a chunker whose cuts are the beginning of the content, wherever they are: the chunks tile the whole
-- file, each with the length and hash of its bytes, and the digest is the hash of the whole file.
pub chunk_bytes-Tiles :
    (h : Hashing)
    → IsChunker h
    → (content : List ℕ)
    → Tiles h 0 content (chunk_bytes h content).chunks
      × ((chunk_bytes h content).digest ≡ h.blake3 content)
unfolding chunk_bytes
chunk_bytes-Tiles h chunker content =
    let start : Chunked h = record { chunks = []; offset = 0; hashed = [] } in
    let d₀ : Done h [] start = record { tiles = refl; at_end = refl; hashed = refl } in
    let d₁ = chunk_loop-Done h [] start (h.cut content) d₀ in
    let d₂ =
      add_rest-Done h content (concat (h.cut content)) (chunker.left content) _
        (chunker.cut_begins content) d₁ in
    (d₂.tiles, ap h.blake3 d₂.hashed)
