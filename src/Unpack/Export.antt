-- ===== src/Unpack/Export.antt =====
-- The parts of the `nix-store --export` format that frame a NAR (internal/cmd/dnar-unpack:
-- writeUint64LE and writeNixString of write.go, writeExportTrailer of nix-store-export.go).
pub mod Format
pub mod ReadBack
use deltanar.Base.{
  ℕ, zero, suc, ◌-◌, ◌/◌, ◌%◌, ◌^◌, ◌<◌, List, [], ◌∷◌, ◌++◌, Result, ok, ◌>>=◌, ltb, if◌then◌else◌,
  length, take,
}
use deltanar.Base.Text.{Text}
use deltanar.Base.Writer.{Writer, write_bytes}

-- `binary.LittleEndian.PutUint64`
unfoldable pub le64 : ℕ → List ℕ
le64 n =
    n % 256
    ∷ n / 2 ^ 8 % 256
    ∷ n / 2 ^ 16 % 256
    ∷ n / 2 ^ 24 % 256
    ∷ n / 2 ^ 32 % 256
    ∷ n / 2 ^ 40 % 256
    ∷ n / 2 ^ 48 % 256
    ∷ n / 2 ^ 56 % 256
    ∷ []

abbrev pub eight_zeros : List ℕ
eight_zeros = 0 ∷ 0 ∷ 0 ∷ 0 ∷ 0 ∷ 0 ∷ 0 ∷ 0 ∷ []

-- Magic bytes for the export format
abbrev pub export_magic : ℕ
export_magic = 0x4558494e

module _ {W : Type 0} (wr : Writer W) where
  unfoldable pub write_uint64_le : W → ℕ → Result W
  write_uint64_le w n = write_bytes wr w (le64 n)

  -- The length, the bytes, and zeros up to a multiple of eight.
  unfoldable pub write_nix_string : W → Text → Result W
  unfolding write_uint64_le
  write_nix_string w s =
      let pad = (8 - length s % 8) % 8 in
      do
        w₁ ← write_uint64_le w (length s % 2 ^ 64)
        w₂ ← write_bytes wr w₁ s
        if ltb 0 pad then write_bytes wr w₂ (take pad eight_zeros) else ok w₂

  unfoldable pub write_refs : W → List Text → Result W
  write_refs w [] = ok w
  write_refs w (ref ∷ refs) = do w₁ ← write_nix_string w ref; write_refs w₁ refs

  unfoldable pub write_export_trailer : W → Text → List Text → Text → Result W
  unfolding write_uint64_le write_nix_string write_refs
  write_export_trailer w store_path refs deriver = do
    w₁ ← write_uint64_le w export_magic
    w₂ ← write_nix_string w₁ store_path
    w₃ ← write_uint64_le w₂ (length refs % 2 ^ 64)
    w₄ ← write_refs w₃ refs
    w₅ ← write_nix_string w₄ deriver
    write_uint64_le w₅ 0
