-- ===== src/Unpack/Export/Format.antt =====
-- What the export functions write, and a reader of the format that takes it back.
use deltanar.Base.{
  ℕ, zero, suc, ◌-◌, ◌%◌, ◌^◌, List, [], ◌∷◌, ◌++◌, ok, ltb, if◌then◌else◌, length, take, arith,
  lt→ltb,
}
use deltanar.Base.Text.{Text}
use deltanar.Base.Writer.{Writer, write_bytes, Writes, Writes-nil, write_bytes-Writes, Writes->>=}
use deltanar.Unpack.Export.{
  le64, eight_zeros, export_magic, write_uint64_le, write_nix_string, write_refs,
  write_export_trailer,
}

unfoldable pub padding : ℕ → List ℕ
padding n = take ((8 - n % 8) % 8) eight_zeros

-- A string of the format.
unfoldable pub nix_string : Text → List ℕ
unfolding padding
nix_string s = le64 (length s % 2 ^ 64) ++ (s ++ padding (length s))

unfoldable pub nix_strings : List Text → List ℕ
nix_strings [] = []
nix_strings (s ∷ ss) = nix_string s ++ nix_strings ss

unfoldable pub export_trailer : Text → List Text → Text → List ℕ
export_trailer store_path refs deriver =
    le64 export_magic
    ++ (nix_string store_path
        ++ (le64 (length refs % 2 ^ 64) ++ (nix_strings refs ++ (nix_string deriver ++ le64 0))))

module _ {W : Type 0} (wr : Writer W) where
  pub write_uint64_le-Writes : (w : W) (n : ℕ) → Writes wr w (le64 n) (write_uint64_le wr w n)
  unfolding write_uint64_le
  write_uint64_le-Writes w n = write_bytes-Writes wr w (le64 n)

  pad-Writes :
      (w : W) (pad : ℕ)
      → Writes wr w
          (take pad eight_zeros)
          (if ltb 0 pad then write_bytes wr w (take pad eight_zeros) else ok w)
  pad-Writes w zero = Writes-nil wr w
  pad-Writes w (suc n) =
      rw (lt→ltb 0 (suc n) (omega arith)) (write_bytes-Writes wr w (take (suc n) eight_zeros))

  write_nix_string-Writes :
      (w : W) (s : Text) → Writes wr w (nix_string s) (write_nix_string wr w s)
  unfolding write_nix_string nix_string padding
  write_nix_string-Writes w s =
      Writes->>= wr w _ (s ++ padding (length s)) _ _
        (write_bytes-Writes wr w (le64 (length s % 2 ^ 64)))
        λ w₁.
          Writes->>= wr w₁ s (padding (length s)) _ _ (write_bytes-Writes wr w₁ s)
            λ w₂. pad-Writes w₂ ((8 - length s % 8) % 8)

  write_refs-Writes :
      (w : W) (refs : List Text) → Writes wr w (nix_strings refs) (write_refs wr w refs)
  unfolding write_refs nix_strings
  write_refs-Writes w [] = Writes-nil wr w
  write_refs-Writes w (ref ∷ refs) =
      Writes->>= wr w (nix_string ref) (nix_strings refs) _ _ (write_nix_string-Writes w ref)
        λ w₁. write_refs-Writes w₁ refs

  -- The export trailer is written in full, in the format's order, behind what was written before, unless a
  -- write fails; then that error is passed on.
  pub write_export_trailer-Writes :
      (w : W) (store_path : Text) (refs : List Text) (deriver : Text)
      → Writes wr w
          (export_trailer store_path refs deriver)
          (write_export_trailer wr w store_path refs deriver)
  unfolding write_export_trailer export_trailer
  write_export_trailer-Writes w store_path refs deriver =
      Writes->>= wr w (le64 export_magic) _ _ _ (write_uint64_le-Writes w export_magic) λ w₁.
        Writes->>= wr w₁ (nix_string store_path) _ _ _ (write_nix_string-Writes w₁ store_path) λ w₂.
          Writes->>= wr w₂ (le64 (length refs % 2 ^ 64)) _ _ _ (write_uint64_le-Writes w₂ _) λ w₃.
            Writes->>= wr w₃ (nix_strings refs) _ _ _ (write_refs-Writes w₃ refs) λ w₄.
              Writes->>= wr w₄ (nix_string deriver) (le64 0) _ _
                (write_nix_string-Writes w₄ deriver) λ w₅. write_uint64_le-Writes w₅ 0
