-- ===== src/Delta/Match.antt =====
-- What the search for matches finds: equal ranges of the base and the target.
use deltanar.Base.{
  ℕ, zero, suc, ◌+◌, ◌-◌, ◌≤◌, ◌≡◌, refl, ap, List, [], ◌∷◌, ok, arith, ltb, length, take, drop,
  length-drop, get_elem?-lt, Bool-cases, inl, inr, get_elem?, true, some, ltb→lt, ==_iff, ◌==◌,
}
use deltanar.Base.{◌∙◌, ◌<◌}
use native.Mathlib.Nat.{le_refl}
use deltanar.Delta.Diff.{agree_len, match_len, Anchor, extend_back}

-- `base[b:b+l]` and `target[t:t+l]` are in range, and hold the same bytes.
pub record Same (base target : List ℕ) (b t l : ℕ) : Type 0 where
  pub fits_base : b + l ≤ length base
  pub fits_target : t + l ≤ length target
  pub same : take l (drop b base) ≡ take l (drop t target)

agree_len_lem :
    (xs ys : List ℕ)
    → (agree_len xs ys ≤ length xs)
      × (agree_len xs ys ≤ length ys)
      × (take (agree_len xs ys) xs ≡ take (agree_len xs ys) ys)
unfolding agree_len
agree_len_lem [] ys = ground arith
agree_len_lem (x ∷ xs) [] = ground arith
agree_len_lem (x ∷ xs) (y ∷ ys) = ground (arith, agree_len_lem xs ys)

-- A match that is not empty is a common range.
pub match_len-Same :
    (base target : List ℕ) (b t : ℕ)
    → 0 < match_len base b target t
    → Same base target b t (match_len base b target t)
unfolding match_len
match_len-Same base target b t h =
    let (p, q, e) = agree_len_lem (drop b base) (drop t target) in
    record {
      fits_base = omega (arith, length-drop b base, p);
      fits_target = omega (arith, length-drop t target, q);
      same = e;
    }

-- A range whose neighbours before it agree is a longer range.
Same-grow :
    (base target : List ℕ) (b t l x : ℕ)
    → drop b base ≡ x ∷ drop (suc b) base
    → drop t target ≡ x ∷ drop (suc t) target
    → Same base target (suc b) (suc t) l
    → Same base target b t (suc l)
Same-grow base target b t l x eb et s = record {
  fits_base = omega arith;
  fits_target = omega arith;
  same = rw (eb, et) (ap (λ r. x ∷ r) s.same);
}

-- The backward extension keeps the end of the match, does not pass the pending literals' start,
-- and gives a range again.
pub record Extended (base target : List ℕ) (lit t l : ℕ) (m : Anchor) : Type 0 where
  pub range : Same base target m.bpos m.tpos m.len
  pub from_lit : lit ≤ m.tpos
  pub before : m.tpos ≤ t
  pub keeps_end : m.tpos + m.len ≡ t + l

-- One round of the extension, on two equal bytes.
extend_back_step :
    (base target : List ℕ) (lit b t l x : ℕ)
    → ltb lit (suc t) ≡ true
    → get_elem? base b ≡ some x
    → get_elem? target t ≡ some x
    → extend_back base target lit (suc b) (suc t) l ≡ extend_back base target lit b t (l + 1)
unfolding extend_back
extend_back_step base target lit b t l x go eb et =
    let e : suc t - 1 ≡ t = omega arith in
    let r : (x == x) ≡ true = (==_iff x x).1 refl in rw (go, eb, e, et, r)

pub extend_back_lem :
    (base target : List ℕ) (lit b t l : ℕ)
    → lit ≤ t
    → Same base target b t l
    → (m : Anchor) × (extend_back base target lit b t l ≡ ok m) × Extended base target lit t l m
unfolding extend_back
extend_back_lem base target lit zero t l h s = (
  record { bpos = zero; tpos = t; len = l },
  refl,
  record { range = s; from_lit = h; before = le_refl _; keeps_end = refl },
)
extend_back_lem base target lit (suc b) zero l h s = (
  record { bpos = suc b; tpos = zero; len = l },
  ground arith,
  record { range = s; from_lit = h; before = le_refl _; keeps_end = refl },
)
extend_back_lem base target lit (suc b) (suc t) l h s = elim (Bool-cases (ltb lit (suc t))) [
  | inr stop ↦ (here, rw stop, stays)
  | inl go ↦
      let (x, ex, dx) = get_elem?-lt base b (omega arith) in
      let (y, ey, dy) = get_elem?-lt target t (omega arith) in
      let e : suc t - 1 ≡ t = omega arith in
      let k₂ : t + (l + 1) ≡ suc t + l = omega arith in
      let k : suc l ≡ l + 1 = omega arith in
      elim (Bool-cases (x == y)) [
        | inr differ ↦ (here, rw (go, ex, e, ey, differ), stays)
        | inl agree ↦
            let x=y : x ≡ y = (==_iff x y).0 agree in
            let (m, em, xm) =
              extend_back_lem base target lit b t (l + 1) (omega (arith, ltb→lt lit (suc t) go))
                (rw (← k) (Same-grow base target b t l y (rw x=y at dx) dy s)) in
            (
              m,
              extend_back_step base target lit b t l y go (rw x=y at ex) ey ∙ em,
              record {
                range = xm.range;
                from_lit = xm.from_lit;
                before = omega arith;
                keeps_end = xm.keeps_end ∙ k₂;
              },
            )
      ]
]
  where
    here : Anchor
    here = record { bpos = suc b; tpos = suc t; len = l }

    stays : Extended base target lit (suc t) l here
    stays = record { range = s; from_lit = h; before = le_refl _; keeps_end = refl }
