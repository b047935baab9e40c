-- ===== src/Unpack/Export/ReadBack.antt =====
-- A reader of the export framing, and that it takes back what was written.
use deltanar.Base.{
  Bool, true, false, ◌&&◌, ℕ, zero, suc, ◌+◌, ◌-◌, ◌*◌, ◌%◌, ◌^◌, ◌≤◌, ◌<◌, ◌≡◌, refl, ap, sym, ◌∙◌,
  List, [], ◌∷◌, ◌++◌, Option, none, some, Result, ok, err, panic, stuck, leb, if◌then◌else◌,
  length, take, drop, arith, All, length-append, length-take, take_append_length,
  drop_append_length, le→leb, drop-drop, ◌==◌,
}
use deltanar.Base.Text.{Text}
use deltanar.Base.Writer.{Writes, buffer}
use deltanar.Unpack.Export.{le64, export_magic, write_export_trailer}
use deltanar.Unpack.Export.Format.{
  padding, nix_string, nix_strings, export_trailer, write_export_trailer-Writes,
}
use mathlib.Core.List.{append_assoc}
use native.Mathlib.Nat.{mod-eq_of_lt}

infixl 5 ◌>>=◌
abbrev ◌>>=◌ : {A B : Type 0} → Option A → (A → Option B) → Option B
none >>= f = none
some a >>= f = f a

-- Eight bytes, the lowest first.
read_le64 : List ℕ → Option (ℕ × List ℕ)
read_le64 (a ∷ b ∷ c ∷ d ∷ e ∷ f ∷ g ∷ h ∷ rest) = some (
  a + 2 ^ 8 * b + 2 ^ 16 * c + 2 ^ 24 * d + 2 ^ 32 * e + 2 ^ 40 * f + 2 ^ 48 * g + 2 ^ 56 * h,
  rest,
)
read_le64 _ = none

-- A length, as many bytes, and the padding.
read_string : List ℕ → Option (Text × List ℕ)
read_string input = do
  (n, rest) ← read_le64 input
  let size = n + (8 - n % 8) % 8
  if leb size (length rest) then some (take n rest, drop size rest) else none

read_strings : ℕ → List ℕ → Option (List Text × List ℕ)
read_strings zero input = some ([], input)
read_strings (suc n) input = do
  (s, rest) ← read_string input
  (ss, rest') ← read_strings n rest
  some (s ∷ ss, rest')

pub record Trailer : Type 0 where
  pub store_path : Text
  pub references : List Text
  pub deriver : Text

finish : Bool → Trailer → List ℕ → Option (Trailer × List ℕ)
finish true t rest = some (t, rest)
finish false t rest = none

-- The magic number, the path, the references, the deriver and the flag 0.
pub read_export_trailer : List ℕ → Option (Trailer × List ℕ)
unfolding finish
read_export_trailer input = do
  (magic, r₁) ← read_le64 input
  (store_path, r₂) ← read_string r₁
  (n, r₃) ← read_le64 r₂
  (refs, r₄) ← read_strings n r₃
  (deriver, r₅) ← read_string r₄
  (flag, r₆) ← read_le64 r₅
  finish (magic == export_magic && flag == 0)
      (record { store_path = store_path; references = refs; deriver = deriver }) r₆

read_le64-le64 : (n : ℕ) (rest : List ℕ) → n < 2 ^ 64 → read_le64 (le64 n ++ rest) ≡ some (n, rest)
unfolding read_le64 le64
read_le64-le64 n rest h = ap (λ k. some (k, rest)) (omega arith)

length-padding : (n : ℕ) → length (padding n) ≡ (8 - n % 8) % 8
unfolding padding
length-padding n = rw length-take (omega arith)

drop_padded :
    (s rest : List ℕ)
    → drop (length s + (8 - length s % 8) % 8) (s ++ (padding (length s) ++ rest)) ≡ rest
drop_padded s rest =
    sym (drop-drop ((8 - length s % 8) % 8) (length s) _)
    ∙ ap (drop ((8 - length s % 8) % 8)) (drop_append_length s (padding (length s) ++ rest))
    ∙ ap (λ k. drop k (padding (length s) ++ rest)) (sym (length-padding (length s)))
    ∙ drop_append_length (padding (length s)) rest

read_string-nix_string :
    (s : Text) (rest : List ℕ)
    → length s < 2 ^ 64
    → read_string (nix_string s ++ rest) ≡ some (s, rest)
unfolding read_string nix_string
read_string-nix_string s rest h =
    let n : length s % 2 ^ 64 ≡ length s = mod-eq_of_lt h in
    let fits : length s + (8 - length s % 8) % 8 ≤ length (s ++ (padding (length s) ++ rest)) =
      omega (
        arith,
        length-append s (padding (length s) ++ rest),
        length-append (padding (length s)) rest,
        length-padding (length s),
      ) in
    rw (
      n,
      append_assoc,
      read_le64-le64 (length s) _ h,
      append_assoc,
      le→leb (length s + (8 - length s % 8) % 8) (length (s ++ (padding (length s) ++ rest))) fits,
      take_append_length,
      drop_padded,
    )

read_strings-nix_strings :
    (ss : List Text) (rest : List ℕ)
    → All (λ s. length s < 2 ^ 64) ss
    → read_strings (length ss) (nix_strings ss ++ rest) ≡ some (ss, rest)
unfolding read_strings nix_strings
read_strings-nix_strings [] rest h = refl
read_strings-nix_strings (s ∷ ss) rest (h, hs) = rw (
  append_assoc,
  read_string-nix_string s (nix_strings ss ++ rest) h,
  read_strings-nix_strings ss rest hs,
)

read_export_trailer-export_trailer :
    (path : Text) (refs : List Text) (deriver : Text) (rest : List ℕ)
    → length path < 2 ^ 64
    → length refs < 2 ^ 64
    → All (λ s. length s < 2 ^ 64) refs
    → length deriver < 2 ^ 64
    → read_export_trailer (export_trailer path refs deriver ++ rest)
      ≡ some (record { store_path = path; references = refs; deriver = deriver }, rest)
unfolding read_export_trailer export_trailer
read_export_trailer-export_trailer path refs deriver rest hp hn hr hd =
    let n : length refs % 2 ^ 64 ≡ length refs = mod-eq_of_lt hn in
    simp append_assoc (
      rw (
        read_le64-le64 export_magic _ (omega arith),
        read_string-nix_string path _ hp,
        n,
        read_le64-le64 (length refs) _ hn,
        read_strings-nix_strings refs _ hr,
        read_string-nix_string deriver _ hd,
        read_le64-le64 0 rest (omega arith),
      ))

-- A routine that writes its bytes, on a buffer.
buffer-ok : (w bytes : List ℕ) (r : Result (List ℕ)) → Writes buffer w bytes r → r ≡ ok (w ++ bytes)
buffer-ok w bytes (ok w') h = ap ok h
buffer-ok w bytes (err e) (_, _, _, h) = cc
buffer-ok w bytes panic h = absurd h
buffer-ok w bytes stuck h = absurd h

-- The export trailer that is written to an empty buffer, of texts shorter than 2 ^ 64 bytes, is read back:
-- the path, the references in their order and the deriver, with whatever follows left over.
pub read_export_trailer-write :
    (path : Text) (refs : List Text) (deriver : Text) (rest : List ℕ)
    → length path < 2 ^ 64
    → length refs < 2 ^ 64
    → All (λ s. length s < 2 ^ 64) refs
    → length deriver < 2 ^ 64
    → (out : List ℕ) × (write_export_trailer buffer [] path refs deriver ≡ ok out)
      × (read_export_trailer (out ++ rest)
          ≡ some (record { store_path = path; references = refs; deriver = deriver }, rest))
read_export_trailer-write path refs deriver rest hp hn hr hd = (
  export_trailer path refs deriver,
  buffer-ok [] (export_trailer path refs deriver) _
      (write_export_trailer-Writes buffer [] path refs deriver),
  read_export_trailer-export_trailer path refs deriver rest hp hn hr hd,
)
