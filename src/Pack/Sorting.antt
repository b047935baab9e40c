-- ===== src/Pack/Sorting.antt =====
-- Sorted texts, and the search among them (internal/cmd/dnar-pack/main.go: `slices.Sort` and
-- `slices.BinarySearch`).
use deltanar.Base.{
  ℕ, zero, suc, ◌≤◌, ◌≡◌, refl, sym, ap, ◌∙◌, List, [], ◌∷◌, true, false, Bool-cases, inl, inr,
  some, get_elem?, All, arith,
}
use deltanar.Base.Text.{Text}
use deltanar.Pack.Main.{text_le, insert_text, sort_texts}

pub text_le_refl : (t : Text) → text_le t t ≡ true
unfolding text_le
text_le_refl [] = refl
text_le_refl (c ∷ t) = ground (arith, text_le_refl t)

pub text_le_trans : (a b c : Text) → text_le a b ≡ true → text_le b c ≡ true → text_le a c ≡ true
unfolding text_le
text_le_trans [] b c h k = refl
text_le_trans (x ∷ a) [] c h k = cc
text_le_trans (x ∷ a) (y ∷ b) [] h k = cc
text_le_trans (x ∷ a) (y ∷ b) (z ∷ c) h k = ground (arith, text_le_trans a b c)

text_le_total : (a b : Text) → text_le a b ≡ false → text_le b a ≡ true
unfolding text_le
text_le_total [] b h = cc
text_le_total (x ∷ a) [] h = refl
text_le_total (x ∷ a) (y ∷ b) h = ground (arith, text_le_total a b)

pub text_le_antisym : (a b : Text) → text_le a b ≡ true → text_le b a ≡ true → a ≡ b
unfolding text_le
text_le_antisym [] [] h k = refl
text_le_antisym [] (y ∷ b) h k = cc
text_le_antisym (x ∷ a) [] h k = cc
text_le_antisym (x ∷ a) (y ∷ b) h k = ground (arith, text_le_antisym a b)

-- Each text is at most those behind it.
abbrev pub IsSorted : List Text → Type 0
IsSorted [] = Unit {0}
IsSorted (x ∷ xs) = All (λ y. text_le x y ≡ true) xs × IsSorted xs

All-insert_text :
    (x t : Text) (xs : List Text)
    → text_le x t ≡ true
    → All (λ y. text_le x y ≡ true) xs
    → All (λ y. text_le x y ≡ true) (insert_text t xs)
unfolding insert_text
All-insert_text x t [] h hs = (h, tt)
All-insert_text x t (y ∷ ys) h (k, ks) = elim (Bool-cases (text_le t y)) [
  | inl e ↦ rw e (h, (k, ks))
  | inr e ↦ rw e (k, All-insert_text x t ys h ks)
]

All-le :
    (t x : Text) (xs : List Text)
    → text_le t x ≡ true
    → All (λ y. text_le x y ≡ true) xs
    → All (λ y. text_le t y ≡ true) xs
All-le t x [] h hs = tt
All-le t x (y ∷ ys) h (k, ks) = (text_le_trans t x y h k, All-le t x ys h ks)

insert_text-IsSorted : (t : Text) (xs : List Text) → IsSorted xs → IsSorted (insert_text t xs)
unfolding insert_text
insert_text-IsSorted t [] s = (tt, tt)
insert_text-IsSorted t (x ∷ xs) (le, s) = elim (Bool-cases (text_le t x)) [
  | inl e ↦ rw e ((e, All-le t x xs e le), (le, s))
  | inr e ↦ rw e (All-insert_text x t xs (text_le_total t x e) le, insert_text-IsSorted t xs s)
]

pub sort_texts-IsSorted : (xs : List Text) → IsSorted (sort_texts xs)
unfolding sort_texts
sort_texts-IsSorted [] = tt
sort_texts-IsSorted (x ∷ xs) = insert_text-IsSorted x (sort_texts xs) (sort_texts-IsSorted xs)

All-get :
    (x : Text) (xs : List Text) (i : ℕ) (y : Text)
    → All (λ y. text_le x y ≡ true) xs
    → get_elem? xs i ≡ some y
    → text_le x y ≡ true
All-get x [] i y h e = cc
All-get x (z ∷ zs) zero y (h, _) e = let same : z ≡ y = cc in ap (λ a. text_le x a) (sym same) ∙ h
All-get x (z ∷ zs) (suc i) y (_, h) e = All-get x zs i y h e

pub IsSorted-le :
    (xs : List Text) (i j : ℕ) (x y : Text)
    → IsSorted xs
    → get_elem? xs i ≡ some x
    → get_elem? xs j ≡ some y
    → i ≤ j
    → text_le x y ≡ true
IsSorted-le [] i j x y s e e' h = cc
IsSorted-le (z ∷ zs) zero zero x y s e e' h =
    let same : x ≡ y = cc in ap (λ a. text_le x a) (sym same) ∙ text_le_refl x
IsSorted-le (z ∷ zs) zero (suc j) x y (le, s) e e' h =
    let same : z ≡ x = cc in ap (λ a. text_le a y) (sym same) ∙ All-get z zs j y le e'
IsSorted-le (z ∷ zs) (suc i) zero x y s e e' h = absurd (omega (arith, h))
IsSorted-le (z ∷ zs) (suc i) (suc j) x y (_, s) e e' h =
    IsSorted-le zs i j x y s e e' (omega (arith, h))
