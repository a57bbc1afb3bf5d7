-- ===== src/Helpers/Search.antt =====
-- e-util/e-misc-utils.c: e_bsearch. `compare i` is what (*compare) says of the key and the element at
-- the index `i`; the fuel is the number of rounds that a loop has left, and `none` means that it ran
-- out. A gsize has 64 bits.
use e_mail_factory.Base.{
  ℕ, zero, suc, ◌+◌, ◌/◌, ◌%◌, ◌^◌, ltb, Bool, true, false, Option, none, some,
}

-- The sign of a gint.
pub data Comparison : Type 0 where
  before : Comparison
  equal : Comparison
  after : Comparison

-- `(l + u) / 2`
abbrev pub middle : ℕ → ℕ → ℕ
middle l u = ((l + u) % 2 ^ 64) / 2

-- `comparison <= 0`
abbrev pub is_not_after : Comparison → Bool
is_not_after after = false
is_not_after _ = true

-- `comparison < 0`
abbrev pub is_before : Comparison → Bool
is_before before = true
is_before _ = false

-- The two inner loops, which differ in the test that moves `u` down.
unfoldable pub bisect : (Comparison → Bool) → (ℕ → Comparison) → ℕ → ℕ → ℕ → Option ℕ
bisect goes_down compare zero l u = none
bisect goes_down compare (suc fuel) l u = elim (ltb l u) [
  | false ↦ some l
  | true ↦ elim (goes_down (compare (middle l u))) [
    | true ↦ bisect goes_down compare fuel l (middle l u)
    | false ↦ bisect goes_down compare fuel (middle l u + 1) u
  ]
]

-- What is stored at *start and *end.
unfoldable pub both_ends : (ℕ → Comparison) → ℕ → ℕ → ℕ → Option (ℕ × ℕ)
both_ends compare fuel l u = elim (bisect is_not_after compare fuel l u) [
  | none ↦ none
  | some start ↦ elim (bisect is_before compare fuel l u) [
    | none ↦ none
    | some end ↦ some (start, end)
  ]
]

-- The outer loop.
unfoldable pub search_loop : (ℕ → Comparison) → ℕ → ℕ → ℕ → Option (ℕ × ℕ)
search_loop compare zero l u = none
search_loop compare (suc fuel) l u = elim (ltb l u) [
  | false ↦ some (l, l)
  | true ↦ elim (compare (middle l u)) [
    | before ↦ search_loop compare fuel l (middle l u)
    | after ↦ search_loop compare fuel (middle l u + 1) u
    | equal ↦ both_ends compare (suc fuel) l u
  ]
]

-- e_bsearch, asked for both ends
unfoldable pub bsearch : (ℕ → Comparison) → ℕ → Option (ℕ × ℕ)
bsearch compare nmemb = search_loop compare (nmemb + 1) 0 nmemb
