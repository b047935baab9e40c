-- ===== src/Pack/Searching.antt =====
-- The search among sorted texts finds a text exactly if it is there (internal/cmd/dnar-pack/main.go:
-- `slices.BinarySearch`).
use deltanar.Base.{
  ℕ, zero, suc, ◌+◌, ◌-◌, ◌/◌, ◌≤◌, ◌<◌, ◌≡◌, refl, sym, ap, ◌∙◌, List, [], ◌∷◌, true, false,
  Bool-cases, Option-cases, inl, inr, some, length, get_elem?, get_elem?-lt, get_elem?-some, ltb,
  arith, if◌then◌else◌, if_true, if_false,
}
use mathlib.Core.Path.{subst}
use deltanar.Base.Text.{Text, text_eq, text_eq_iff}
use deltanar.Database.Queries.{any_text}
use deltanar.Pack.Main.{text_le, half_left, search_loop, stands_at, binary_search}
use deltanar.Pack.Sorting.{IsSorted, IsSorted-le, text_le_refl, text_le_trans, text_le_antisym}

module _ (xs : List Text) (t : Text) where
  -- What lies in front of `[i, j)` is below the target, and what lies behind it is not.
  record Splits (i j : ℕ) : Type 0 where
    ordered : i ≤ j
    inside : j ≤ length xs
    below : (k : ℕ) (x : Text) → get_elem? xs k ≡ some x → k < i → text_le t x ≡ false
    above : (k : ℕ) (x : Text) → get_elem? xs k ≡ some x → j ≤ k → text_le t x ≡ true

  not_le-front : (x y : Text) → text_le x y ≡ true → text_le t y ≡ false → text_le t x ≡ false
  not_le-front x y h k = elim (Bool-cases (text_le t x)) [
    | inl e ↦ let e' = text_le_trans t x y e h in cc
    | inr e ↦ e
  ]

  half_left-eq :
      (i j : ℕ) (x : Text)
      → get_elem? xs ((i + j) / 2) ≡ some x
      → half_left xs t i j ≡ (if text_le t x then (i, (i + j) / 2) else ((i + j) / 2 + 1, j))
  unfolding half_left
  half_left-eq i j x e = rw (half_left, e) refl

  met : (i j : ℕ) → Splits i j → j ≤ i → Splits i i
  met i j s h = let same : j ≡ i = omega (arith, h, s.ordered) in subst (λ n. Splits i n) same s

  module _ (sorted : IsSorted xs) where
    half_left-Splits :
        (i j : ℕ)
        → Splits i j
        → i < j
        → Splits (half_left xs t i j).0 (half_left xs t i j).1
          × ((half_left xs t i j).1 - (half_left xs t i j).0 < j - i)
    half_left-Splits i j s h =
        let h' = (i + j) / 2 in
        let lo : i ≤ (i + j) / 2 = omega (arith, h) in
        let hi : (i + j) / 2 < j = omega (arith, h) in
        let (x, e, _) = get_elem?-lt xs ((i + j) / 2) (omega (arith, hi, s.inside)) in
        let half = half_left-eq i j x e in
        elim (Bool-cases (text_le t x)) [
          | inl le ↦
              subst (λ r. Splits r.0 r.1 × (r.1 - r.0 < j - i)) (sym (half ∙ if_true _ _ _ le))
                (
                  record {
                    ordered = lo;
                    inside = omega (arith, hi, s.inside);
                    below = s.below;
                    above = λ k y ey hk.
                        text_le_trans t x y le (IsSorted-le xs h' k x y sorted e ey hk);
                  },
                  omega (arith, lo, hi),
                )
          | inr gt ↦
              subst (λ r. Splits r.0 r.1 × (r.1 - r.0 < j - i)) (sym (half ∙ if_false _ _ _ gt))
                (
                  record {
                    ordered = omega (arith, hi);
                    inside = s.inside;
                    below = λ k y ey hk.
                        not_le-front y x (IsSorted-le xs k h' y x sorted ey e (omega (arith, hk)))
                          gt;
                    above = s.above;
                  },
                  omega (arith, lo, hi),
                )
        ]

    search_loop-Splits :
        (fuel i j : ℕ)
        → j - i ≤ fuel
        → Splits i j
        → Splits (search_loop fuel xs t i j) (search_loop fuel xs t i j)
    unfolding search_loop
    search_loop-Splits zero i j h s = met i j s (omega (arith, h))
    search_loop-Splits (suc fuel) i j h s = elim (Bool-cases (ltb i j)) [
      | inl more ↦
          let (s', less) = half_left-Splits i j s (ground (arith, more)) in
          rw more (search_loop-Splits fuel _ _ (omega (arith, less, h)) s')
      | inr stop ↦ rw stop (met i j s (ground (arith, stop)))
    ]

    whole : Splits 0 (length xs)
    whole = record {
      ordered = omega arith;
      inside = omega arith;
      below = λ k x e h. absurd (omega (arith, h));
      above = λ k x e h. absurd (omega (arith, h, get_elem?-some xs k e));
    }

  any_text-at : (ys : List Text) (k : ℕ) → get_elem? ys k ≡ some t → any_text t ys ≡ true
  unfolding any_text
  any_text-at [] k e = cc
  any_text-at (y ∷ ys) zero e = let same : y ≡ t = cc in rw ((text_eq_iff y t).1 same)
  any_text-at (y ∷ ys) (suc k) e = elim (Bool-cases (text_eq y t)) [
    | inl same ↦ rw same
    | inr other ↦ rw (other, any_text-at ys k e)
  ]

  at-any_text : (ys : List Text) → any_text t ys ≡ true → (k : ℕ) × (get_elem? ys k ≡ some t)
  unfolding any_text
  at-any_text [] h = cc
  at-any_text (y ∷ ys) h = elim (Bool-cases (text_eq y t)) [
    | inl same ↦ (0, ap (λ x. some x) ((text_eq_iff y t).0 same))
    | inr other ↦ let (k, e) = at-any_text ys (rw other at h) in (suc k, e)
  ]

  behind : (r k : ℕ) → Splits r r → get_elem? xs k ≡ some t → r ≤ k
  behind r k s e = elim (Bool-cases (ltb k r)) [
    | inl front ↦ let gt = s.below k t e (ground (arith, front)) in let le = text_le_refl t in cc
    | inr back ↦ ground (arith, back)
  ]

  nowhere : (r : ℕ) → any_text t xs ≡ false → stands_at t (get_elem? xs r) ≡ false
  unfolding stands_at
  nowhere r absent = elim (Option-cases (get_elem? xs r)) [
    | inl e ↦ rw e
    | inr (x, e) ↦ elim (Bool-cases (text_eq x t)) [
      | inl same ↦
          let here = any_text-at xs r (e ∙ ap (λ y. some y) ((text_eq_iff x t).0 same)) in cc
      | inr other ↦ rw (e, other)
    ]
  ]

  -- Where the list is split at a place, the target stands there or nowhere.
  stands_at-any_text :
      (r : ℕ) → IsSorted xs → Splits r r → stands_at t (get_elem? xs r) ≡ any_text t xs
  unfolding stands_at
  stands_at-any_text r sorted s = elim (Bool-cases (any_text t xs)) [
    | inl there ↦
        let (k, e) = at-any_text xs there in
        let (x, ex, _) = get_elem?-lt xs r (omega (arith, behind r k s e, get_elem?-some xs k e)) in
        let same =
          text_le_antisym x t (IsSorted-le xs r k x t sorted ex e (behind r k s e))
            (s.above r x ex (omega arith)) in
        rw (ex, there, (text_eq_iff x t).1 same)
    | inr absent ↦ nowhere r absent ∙ sym absent
  ]

pub binary_search-any_text :
    (xs : List Text) (t : Text) → IsSorted xs → binary_search xs t ≡ any_text t xs
unfolding binary_search
binary_search-any_text xs t sorted =
    stands_at-any_text xs t _ sorted
      (search_loop-Splits xs t sorted (length xs) 0 (length xs) (omega arith) (whole xs t sorted))
