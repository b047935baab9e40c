-- ===== src/Base/Writer.antt =====
-- An `io.Writer`: what is written to it, or an error.
use Prim.Native.Nat.{ℕ}
use mathlib.Core.Path.{◌≡◌, refl, sym, ◌∙◌}
use mathlib.Core.Option.{Option, none, some}
use mathlib.Core.List.{List, [], ◌++◌}
use mathlib.Core.List.{append-nil, append_assoc}
use mathlib.Core.Logic.{inl, inr}
use deltanar.Base.Tests.{Option-cases}
use deltanar.Base.Results.{Result, ok, err, panic, stuck, ◌>>=◌, of_option, library}

-- A write may fail; where it succeeds the bytes are behind those written before.
pub record Writer (W : Type 0) : Type 0 where
  pub write : W → List ℕ → Option W
  pub contents : W → List ℕ
  pub contents-write :
      (w : W) (bytes : List ℕ) {w' : W}
      → write w bytes ≡ some w'
      → contents w' ≡ contents w ++ bytes

abbrev pub write_bytes : {W : Type 0} → Writer W → W → List ℕ → Result W
write_bytes wr w bytes = of_option library (wr.write w bytes)

pub buffer-contents :
    (w bytes : List ℕ) {w' : List ℕ} → some (w ++ bytes) ≡ some w' → w' ≡ w ++ bytes
buffer-contents w bytes h = cc

-- `bytes.Buffer`: a write never fails.
abbrev pub buffer : Writer (List ℕ)
buffer = record {
  write = λ w bytes. some (w ++ bytes);
  contents = λ w. w;
  contents-write = buffer-contents;
}

module _ {W : Type 0} (wr : Writer W) where
  -- The outcome of a routine that is to write these bytes behind what was written: it did, or a write
  -- failed and its error was passed on. It is never a panic.
  abbrev pub Writes : W → List ℕ → Result W → Type 0
  Writes w bytes (ok w') = wr.contents w' ≡ wr.contents w ++ bytes
  Writes w bytes (err e) = (e ≡ library) × (w₀ : W) × (more : List ℕ) × (wr.write w₀ more ≡ none)
  Writes w bytes panic = ⊥
  Writes w bytes stuck = ⊥

  pub Writes-nil : (w : W) → Writes w [] (ok w)
  Writes-nil w = sym (append-nil (wr.contents w))

  pub write_bytes-Writes : (w : W) (bytes : List ℕ) → Writes w bytes (write_bytes wr w bytes)
  write_bytes-Writes w bytes = elim (Option-cases (wr.write w bytes)) [
    | inl e ↦ rw e (refl, w, bytes, e)
    | inr (w', e) ↦ rw e (wr.contents-write w bytes e)
  ]

  Writes-move :
      (w w' : W) (a b : List ℕ) (r : Result W)
      → wr.contents w' ≡ wr.contents w ++ a
      → Writes w' b r
      → Writes w (a ++ b) r
  Writes-move w w' a b (ok w₂) e h = h ∙ rw (e, append_assoc)
  Writes-move w w' a b (err x) e h = h
  Writes-move w w' a b panic e h = h
  Writes-move w w' a b stuck e h = h

  -- One routine behind the other.
  pub Writes->>= :
      (w : W) (a b : List ℕ) (m : Result W) (f : W → Result W)
      → Writes w a m
      → ((w' : W) → Writes w' b (f w'))
      → Writes w (a ++ b) (m >>= f)
  Writes->>= w a b (ok w') f h k = Writes-move w w' a b (f w') h (k w')
  Writes->>= w a b (err e) f h k = h
  Writes->>= w a b panic f h k = h
  Writes->>= w a b stuck f h k = h
