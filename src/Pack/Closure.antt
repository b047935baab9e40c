-- ===== src/Pack/Closure.antt =====
-- The store paths that are sent: those to deploy that the host does not have.
use deltanar.Base.{
  ◌≡◌, refl, sym, ap, ◌∙◌, List, [], ◌∷◌, Bool, true, false, not, ◌&&◌, ◌||◌, Bool-cases, inl, inr,
}
use deltanar.Base.Text.{Text, text_eq, text_eq_iff}
use deltanar.Database.Queries.{any_text}
use deltanar.Pack.Main.{
  text_le, insert_text, sort_texts, compact_after, compact, new_store_paths, binary_search,
}
use deltanar.Pack.Sorting.{sort_texts-IsSorted}
use deltanar.Pack.Searching.{binary_search-any_text}

or-swap : (a b c : Bool) → (a || (b || c)) ≡ (b || (a || c))
or-swap true true c = refl
or-swap true false c = refl
or-swap false true c = refl
or-swap false false c = refl

or-same : (a c : Bool) → (a || (a || c)) ≡ (a || c)
or-same true c = refl
or-same false c = refl

any_text-insert_text :
    (p t : Text) (xs : List Text) → any_text p (insert_text t xs) ≡ (text_eq t p || any_text p xs)
unfolding any_text insert_text
any_text-insert_text p t [] = refl
any_text-insert_text p t (x ∷ xs) = elim (Bool-cases (text_le t x)) [
  | inl e ↦ rw e
  | inr e ↦
      rw (e, any_text-insert_text p t xs) (or-swap (text_eq x p) (text_eq t p) (any_text p xs))
]

pub any_text-sort_texts : (p : Text) (xs : List Text) → any_text p (sort_texts xs) ≡ any_text p xs
unfolding any_text sort_texts
any_text-sort_texts p [] = refl
any_text-sort_texts p (x ∷ xs) =
    rw (any_text-insert_text p x (sort_texts xs), any_text-sort_texts p xs)

any_text-compact_after :
    (p t : Text) (xs : List Text)
    → (text_eq t p || any_text p (compact_after t xs)) ≡ (text_eq t p || any_text p xs)
unfolding any_text compact_after
any_text-compact_after p t [] = refl
any_text-compact_after p t (x ∷ xs) = elim (Bool-cases (text_eq t x)) [
  | inl e ↦
      let same : t ≡ x = (text_eq_iff t x).0 e in
      rw (e, same, any_text-compact_after p x xs) (sym (or-same (text_eq x p) (any_text p xs)))
  | inr e ↦ rw (e, any_text-compact_after p x xs)
]

pub any_text-compact : (p : Text) (xs : List Text) → any_text p (compact xs) ≡ any_text p xs
unfolding any_text compact
any_text-compact p [] = refl
any_text-compact p (x ∷ xs) = any_text-compact_after p x xs

text_eq-of-same :
    (p q : Text) → text_eq p q ≡ true → (local : List Text) → any_text p local ≡ any_text q local
text_eq-of-same p q e local = ap (λ t. any_text t local) ((text_eq_iff p q).0 e)

and-false : (a : Bool) → (a && false) ≡ false
and-false true = refl
and-false false = refl

-- The search in the sorted copy finds what is among the host's paths.
found : (local : List Text) (q : Text) → binary_search (sort_texts local) q ≡ any_text q local
found local q =
    binary_search-any_text (sort_texts local) q (sort_texts-IsSorted local)
    ∙ any_text-sort_texts q local

-- A path is sent if, and only if, it is in the closure to deploy and not among the host's.
pub any_text-new_store_paths :
    (local deploy : List Text) (p : Text)
    → any_text p (new_store_paths local deploy) ≡ (any_text p deploy && not (any_text p local))
unfolding any_text new_store_paths
any_text-new_store_paths local [] p = refl
any_text-new_store_paths local (q ∷ qs) p =
    let s = found local q in
    let rest = any_text-new_store_paths local qs p in
    elim (Bool-cases (any_text q local)) [
      | inl e ↦ elim (Bool-cases (text_eq q p)) [
        | inl same ↦
            let l = sym (text_eq-of-same q p same local) ∙ e in
            rw (s, e) (rest ∙ rw (l, same, and-false))
        | inr other ↦ rw (s, e, other, rest)
      ]
      | inr e ↦ elim (Bool-cases (text_eq q p)) [
        | inl same ↦ let l = sym (text_eq-of-same q p same local) ∙ e in rw (s, e, same, l)
        | inr other ↦ rw (s, e, other, rest)
      ]
    ]
