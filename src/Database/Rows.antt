-- ===== src/Database/Rows.antt =====
-- The first row that a test finds in a table (internal/database/query.sql.go), and tables in which each
-- row is found by its key.
use deltanar.Base.{
  ◌≡◌, refl, List, [], ◌∷◌, ◌++◌, Bool, true, false, Bool-cases, Option, none, some, inl, inr, ok,
  ok-injective, All, All-append, All-append,
}
use deltanar.Database.Queries.{first, unless_found}

pub unless_found-ok {ℓ κ} :
    {A : Type ℓ} {B : Type κ} (o : Option A) (valid : Bool) (b : B) {b' : B}
    → unless_found o valid b ≡ ok b'
    → (o ≡ none) × (valid ≡ true) × (b ≡ b')
unless_found-ok (some a) valid b h = cc
unless_found-ok none false b h = cc
unless_found-ok none true b h = (refl, refl, ok-injective h)

pub first-append {ℓ} :
    {A : Type ℓ} (p : A → Bool) (xs ys : List A) {x : A}
    → first p xs ≡ some x
    → first p (xs ++ ys) ≡ some x
unfolding first
first-append p [] ys h = cc
first-append p (x ∷ xs) ys h = elim (Bool-cases (p x)) [
  | inl e ↦ let k = rw e at h in rw e k
  | inr e ↦ let k = rw e at h in rw e (first-append p xs ys k)
]

pub first-snoc {ℓ} :
    {A : Type ℓ} (p : A → Bool) (xs : List A) (y : A)
    → first p xs ≡ none
    → p y ≡ true
    → first p (xs ++ (y ∷ [])) ≡ some y
unfolding first
first-snoc p [] y h e = rw e
first-snoc p (x ∷ xs) y h e = elim (Bool-cases (p x)) [
  | inl e' ↦ let k = rw e' at h in cc
  | inr e' ↦ let k = rw e' at h in rw e' (first-snoc p xs y k e)
]

pub first-none {ℓ} :
    {A : Type ℓ} (p : A → Bool) (xs : List A) → All (λ x. p x ≡ false) xs → first p xs ≡ none
unfolding first
first-none p [] h = refl
first-none p (x ∷ xs) (e, h) = rw e (first-none p xs h)

pub All-mono {ℓ κ μ} :
    {A : Type ℓ} (P : A → Type κ) (Q : A → Type μ) (xs : List A)
    → ((x : A) → P x → Q x)
    → All P xs
    → All Q xs
All-mono P Q [] f h = tt
All-mono P Q (x ∷ xs) f (p, h) = (f x p, All-mono P Q xs f h)

-- Every row is the first with its key.
abbrev pub IsKeyed {ℓ} : {A : Type ℓ} → (A → A → Bool) → List A → Type ℓ
IsKeyed key rows = All (λ x. first (key x) rows ≡ some x) rows

pub snoc-IsKeyed {ℓ} :
    {A : Type ℓ} (key : A → A → Bool) (rows : List A) (row : A)
    → IsKeyed key rows
    → first (key row) rows ≡ none
    → key row row ≡ true
    → IsKeyed key (rows ++ (row ∷ []))
snoc-IsKeyed key rows row h absent same =
    All-append (λ x. first (key x) (rows ++ (row ∷ [])) ≡ some x) rows (row ∷ [])
      (All-mono _ _ rows (λ x e. first-append (key x) rows (row ∷ []) e) h)
      (first-snoc (key row) rows row absent same, tt)
