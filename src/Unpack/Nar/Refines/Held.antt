-- ===== src/Unpack/Nar/Refines/Held.antt =====
-- The files that `writeNAR` keeps open and mapped do not show.
use deltanar.Base.{
  ℕ, List, [], ◌∷◌, ◌≡◌, refl, sym, ap, inl, inr, Option, none, some, Bool-cases, Result,
  ok-injective, of_option-eq-ok, ok, err, panic, stuck, ◌>>=◌, of_option, All, library,
}
use mathlib.Core.Option.{some-injective}
use deltanar.Base.Text.{Text, text_eq, text_eq_iff}
use deltanar.Base.Host.{mmap_open}
use deltanar.Unpack.Nar.Sink.{NarWriter, State}
use deltanar.Unpack.Nar.Chunks.{
  Inputs, lookup_text, opened, mapped_input, open_input, read_input_data,
}
use deltanar.Unpack.Nar.Refines.{Fresh, Agrees}

module _ {W : Type 0} (nw : NarWriter W) (inp : Inputs) where
  lookup_text-All :
      (P : Text × List ℕ → Type 0) (k : Text) (m : List (Text × List ℕ)) {v : List ℕ}
      → All P m
      → lookup_text k m ≡ some v
      → P (k, v)
  unfolding lookup_text
  lookup_text-All P k [] h e = cc
  lookup_text-All P k ((j, w) ∷ m) {v} (h, hs) e = elim (Bool-cases (text_eq j k)) [
    | inl same ↦
        let jk : j ≡ k = (text_eq_iff j k).0 same in
        let wv : w ≡ v = some-injective w v (rw same at e) in rw (← jk, ← wv) h
    | inr other ↦ lookup_text-All P k m hs (rw other at e)
  ]

  -- What is read is returned with a state that holds it.
  fetch-Agrees :
      (s : State nw) (plain : Result (List ℕ)) (hold : List ℕ → State nw)
      → ((c : List ℕ) → plain ≡ ok c → ((hold c).writer ≡ s.writer) × Fresh nw inp (hold c))
      → Agrees nw inp s plain (plain >>= λ c. ok (c, hold c))
  fetch-Agrees s (ok c) hold h = (hold c, refl, (h c refl).0, (h c refl).1)
  fetch-Agrees s (err e) hold h = refl
  fetch-Agrees s panic hold h = refl
  fetch-Agrees s stuck hold h = refl

  -- What is held is what would be read.
  held-Agrees :
      (s : State nw) (plain : Result (List ℕ)) (content : List ℕ)
      → Fresh nw inp s
      → plain ≡ ok content
      → Agrees nw inp s plain (ok (content, s))
  held-Agrees s (ok c) content v e = (s, λ i. ok (sym (ok-injective e) i, s), refl, v)
  held-Agrees s (err e) content v h = cc
  held-Agrees s panic content v h = cc
  held-Agrees s stuck content v h = cc

  opened-Agrees :
      (path : Text) (s : State nw) (o : Option (List ℕ))
      → Fresh nw inp s
      → lookup_text path s.input_fds ≡ o
      → Agrees nw inp s (of_option library (inp.host.open_file path)) (opened nw inp path s o)
  unfolding opened
  opened-Agrees path s (some content) v e = held-Agrees s _ content v (
      ap (of_option library)
        (lookup_text-All (λ (p, c). inp.host.open_file p ≡ some c) path s.input_fds v.fds e))
  opened-Agrees path s none v e =
      fetch-Agrees s _ (λ c. record s { input_fds = (path, c) ∷ s.input_fds })
        λ c read. (
          refl,
          record {
            fds = (of_option-eq-ok library (inp.host.open_file path) read, v.fds);
            mapped = v.mapped;
          },
        )

  pub open_input-Agrees :
      (path : Text) (s : State nw)
      → Fresh nw inp s
      → Agrees nw inp s (of_option library (inp.host.open_file path)) (open_input nw inp path s)
  unfolding open_input
  open_input-Agrees path s v = opened-Agrees path s (lookup_text path s.input_fds) v refl

  mapped_input-Agrees :
      (path : Text) (s : State nw) (o : Option (List ℕ))
      → Fresh nw inp s
      → lookup_text path s.input_data ≡ o
      → Agrees nw inp s (mmap_open inp.host path) (mapped_input nw inp path s o)
  unfolding mapped_input
  mapped_input-Agrees path s (some content) v e =
      held-Agrees s _ content v
        (lookup_text-All (λ (p, c). mmap_open inp.host p ≡ ok c) path s.input_data v.mapped e)
  mapped_input-Agrees path s none v e =
      fetch-Agrees s _ (λ c. record s { input_data = (path, c) ∷ s.input_data })
        λ c read. (refl, record { fds = v.fds; mapped = (read, v.mapped) })

  pub read_input_data-Agrees :
      (path : Text) (s : State nw)
      → Fresh nw inp s
      → Agrees nw inp s (mmap_open inp.host path) (read_input_data nw inp path s)
  unfolding read_input_data
  read_input_data-Agrees path s v =
      mapped_input-Agrees path s (lookup_text path s.input_data) v refl
