-- ===== src/Helpers/Bounds.antt =====
-- e-util/e-misc-utils.c: e_bsearch finds both ends of the elements that are equal to the key.
use e_mail_factory.Base.{
  ℕ, zero, suc, ◌+◌, ◌-◌, ◌^◌, ◌≤◌, ◌<◌, ◌≡◌, ◌⊎◌, refl, sym, ap, ◌∙◌, inl, inr, ltb, Bool, true,
  false, Bool-cases, some, arith,
}
use e_mail_factory.Helpers.Search.{
  Comparison, before, equal, after, middle, is_not_after, is_before, bisect, both_ends, search_loop,
  bsearch,
}

-- Once the test holds it holds at all later indices.
abbrev pub Rises : (Comparison → Bool) → (ℕ → Comparison) → ℕ → Type 0
Rises holds compare n =
    (i j : ℕ) → i ≤ j → j < n → holds (compare i) ≡ true → holds (compare j) ≡ true

-- `r` splits the first `n` indices into those where the test fails and those where it holds.
abbrev pub Splits : (Comparison → Bool) → (ℕ → Comparison) → ℕ → ℕ → Type 0
Splits holds compare n r =
    (r ≤ n)
    × ((i : ℕ) → i < r → holds (compare i) ≡ false)
    × ((i : ℕ) → r ≤ i → i < n → holds (compare i) ≡ true)

middle_between : (l u : ℕ) → l < u → u < 2 ^ 63 → (l ≤ middle l u) × (middle l u < u)
middle_between l u h small = omega arith

module _ (holds : Comparison → Bool) (compare : ℕ → Comparison) (n : ℕ) (small : n < 2 ^ 63)
    (rises : Rises holds compare n) where
  bisect-Splits :
      (fuel l u : ℕ)
      → u ≤ n
      → l ≤ u
      → u - l < fuel
      → ((i : ℕ) → i < l → holds (compare i) ≡ false)
      → ((i : ℕ) → u ≤ i → i < n → holds (compare i) ≡ true)
      → (r : ℕ) × (bisect holds compare fuel l u ≡ some r) × Splits holds compare n r
  unfolding bisect
  bisect-Splits zero l u inside ordered enough below above = absurd (omega arith)
  bisect-Splits (suc fuel) l u inside ordered enough below above = elim (Bool-cases (ltb l u)) [
    | inr done ↦ (
      l,
      rw (done, bisect) refl,
      (omega arith, below, (λ i low high. above i (ground (arith, done)) high)),
    )
    | inl more ↦
        let l<u : l < u = ground (arith, more) in
        let (low, high) = middle_between l u l<u (omega arith) in
        elim (Bool-cases (holds (compare (middle l u)))) [
          | inl e ↦
              let (r, found, splits) =
                bisect-Splits fuel l (middle l u) (omega (arith, low, high)) (omega (arith, low))
                  (omega (arith, low, high)) below (λ i le lt. rises (middle l u) i le lt e) in
              (r, rw (more, bisect) (rw (e, bisect) found), splits)
          | inr e ↦
              let (r, found, splits) =
                bisect-Splits fuel (middle l u + 1) u inside (omega (arith, high))
                  (omega (arith, low, high))
                  (λ i lt. elim (Bool-cases (holds (compare i))) [
                    | inr f ↦ f
                    | inl f ↦
                        let up = rises i (middle l u) (omega arith) (omega (arith, high)) f in
                        let clash : false ≡ true = sym e ∙ up in absurd (cc)
                  ])
                  above in
              (r, rw (more, bisect) (rw (e, bisect) found), splits)
        ]
  ]

Comparison-cases : (c : Comparison) → (c ≡ before) ⊎ (c ≡ equal) ⊎ (c ≡ after)
Comparison-cases before = inl refl
Comparison-cases equal = inr (inl refl)
Comparison-cases after = inr (inr refl)

from_before : (c : Comparison) → is_before c ≡ true → c ≡ before
from_before before h = refl
from_before equal h = cc
from_before after h = cc

from_after : (c : Comparison) → ¬ (is_not_after c ≡ true) → c ≡ after
from_after before h = absurd (h refl)
from_after equal h = absurd (h refl)
from_after after h = refl

module _ (compare : ℕ → Comparison) (n : ℕ) (small : n < 2 ^ 63)
    (down : Rises is_not_after compare n) (up : Rises is_before compare n) where
  search_loop-Splits :
      (fuel l u : ℕ)
      → u ≤ n
      → l ≤ u
      → u - l < fuel
      → ((i : ℕ) → i < l → compare i ≡ after)
      → ((i : ℕ) → u ≤ i → i < n → compare i ≡ before)
      → (start : ℕ) × (end : ℕ) × (search_loop compare fuel l u ≡ some (start, end))
        × Splits is_not_after compare n start
        × Splits is_before compare n end
  unfolding search_loop both_ends
  search_loop-Splits zero l u inside ordered enough below above = absurd (omega arith)
  search_loop-Splits (suc fuel) l u inside ordered enough below above =
      let low_down = λ (i : ℕ) (h : i < l). ap is_not_after (below i h) in
      let low_up = λ (i : ℕ) (h : i < l). ap is_before (below i h) in
      let high_down = λ (i : ℕ) (h : u ≤ i) (k : i < n). ap is_not_after (above i h k) in
      let high_up = λ (i : ℕ) (h : u ≤ i) (k : i < n). ap is_before (above i h k) in
      elim (Bool-cases (ltb l u)) [
        | inr done ↦
            let u≤l : u ≤ l = ground (arith, done) in
            (
              l,
              l,
              rw (done, search_loop) refl,
              (omega arith, low_down, (λ i h. high_down i (omega (arith, u≤l)))),
              (omega arith, low_up, (λ i h. high_up i (omega (arith, u≤l)))),
            )
        | inl more ↦
            let l<u : l < u = ground (arith, more) in
            let m = middle l u in
            let (low, high) = middle_between l u l<u (omega arith) in
            elim (Comparison-cases (compare m)) [
              | inl e ↦
                  let (start, end, found, splits, splits') =
                    search_loop-Splits fuel l m (omega (arith, low, high)) (omega (arith, low))
                      (omega (arith, low, high)) below
                      (λ i le lt. from_before (compare i) (up m i le lt (ap is_before e))) in
                  (start, end, rw (more, search_loop) (rw (e, search_loop) found), splits, splits')
              | inr (inl e) ↦
                  let (start, found, splits) =
                    bisect-Splits is_not_after compare n small down (suc fuel) l u inside ordered
                      enough low_down high_down in
                  let (end, found', splits') =
                    bisect-Splits is_before compare n small up (suc fuel) l u inside ordered enough
                      low_up high_up in
                  (
                    start,
                    end,
                    rw (more, search_loop)
                        (rw (e, search_loop) (rw (found, both_ends) (rw (found', both_ends) refl))),
                    splits,
                    splits',
                  )
              | inr (inr e) ↦
                  let (start, end, found, splits, splits') =
                    search_loop-Splits fuel (m + 1) u inside (omega (arith, high))
                      (omega (arith, low, high))
                      (λ i lt. from_after (compare i) (λ f.
                        let later = down i m (omega arith) (omega (arith, high)) f in
                        let clash : false ≡ true = sym (ap is_not_after e) ∙ later in cc))
                      above in
                  (start, end, rw (more, search_loop) (rw (e, search_loop) found), splits, splits')
            ]
      ]

  -- In a sorted array of fewer than 2 ^ 63 elements e_bsearch returns, with both ends of the elements
  -- that are equal to the key: exactly the elements before the first are less than the key, and
  -- exactly those from the second on are greater, also where there is none that is equal.
  pub bsearch-Splits :
      (start : ℕ) × (end : ℕ) × (bsearch compare n ≡ some (start, end))
      × Splits is_not_after compare n start
      × Splits is_before compare n end
  unfolding bsearch
  bsearch-Splits =
      search_loop-Splits (n + 1) 0 n (omega arith) (omega arith) (omega arith)
        (λ i h. absurd (omega arith)) (λ i h k. absurd (omega arith))
