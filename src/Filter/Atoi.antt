-- ===== src/Filter/Atoi.antt =====
-- e-util/e-filter-int.c: printf's %d and atoi, which write and read the value of an integer element.
use mathlib.Core.List.{append_assoc, append-nil}
use native.Mathlib.Decide.{dec_lt}
use e_mail_factory.Base.{
  ℕ, zero, suc, ◌+◌, ◌-◌, ◌*◌, ◌/◌, ◌%◌, ◌<◌, ◌≤◌, ◌≡◌, refl, sym, ap, ◌∙◌, Text, text_eq, nat_beq,
  ltb, leb, ℤ, pos, negsuc, if◌then◌else◌, Bool, ◌&&◌, ◌||◌, [], ◌∷◌, ◌++◌, arith,
}
use e_mail_factory.Filter.Ints.{digits, decimal, int_class}

-- printf's %d
abbrev pub print_int : ℤ → Text
print_int (pos n) = decimal n
print_int (negsuc n) = 45 ∷ decimal (suc n)

abbrev pub is_digit : ℕ → Bool
is_digit a = leb 48 a && ltb a 58

-- The digits at the start of a text, after digits with this value.
unfoldable pub read_digits : ℕ → Text → ℕ
read_digits value [] = value
read_digits value (a ∷ s) =
    let rest = read_digits (value * 10 + (a - 48)) s in if is_digit a then rest else value

abbrev pub negate : ℕ → ℤ
negate zero = pos 0
negate (suc n) = negsuc n

abbrev pub is_space : ℕ → Bool
is_space a = nat_beq a 32 || leb 9 a && leb a 13

-- atoi, for a text whose number is in the range of int
unfoldable pub atoi : Text → ℤ
atoi [] = pos 0
atoi (a ∷ s) =
    let rest = atoi s in
    if is_space a
    then rest
    else if nat_beq a 45
    then negate (read_digits 0 s)
    else if nat_beq a 43
    then pos (read_digits 0 s)
    else pos (read_digits 0 (a ∷ s))

digits-below : (fuel n : ℕ) → n < 10 → digits (suc fuel) n ≡ (48 + n) ∷ []
digits-below fuel n small = ground arith

digits-above :
    (fuel n : ℕ) → 10 ≤ n → digits (suc fuel) n ≡ digits fuel (n / 10) ++ (48 + n % 10) ∷ []
digits-above fuel n large = ground arith

read_digits-cons :
    (value d n : ℕ) (s : Text)
    → d < 10
    → value * 10 + d ≡ n
    → read_digits value ((48 + d) ∷ s) ≡ read_digits n s
unfolding read_digits
read_digits-cons value d n s bound sum = ground (arith, ap (λ (v : ℕ). read_digits v s) sum)

read_digits-digits :
    (fuel n : ℕ) (rest : Text)
    → n < fuel
    → read_digits 0 (digits fuel n ++ rest) ≡ read_digits n rest
read_digits-digits zero n rest fits = absurd (omega (arith, fits))
read_digits-digits (suc fuel) n rest fits = elim (dec_lt n 10) [
  | yes small ↦ rw (digits-below fuel n small) (read_digits-cons 0 n n rest small (omega arith))
  | no large ↦ rw (digits-above fuel n (omega (arith, large))) (
      rw (append_assoc (digits fuel (n / 10)) ((48 + n % 10) ∷ []) rest) (
        read_digits-digits fuel (n / 10) ((48 + n % 10) ∷ rest) (omega (arith, fits, large))
        ∙ read_digits-cons (n / 10) (n % 10) n rest (omega arith) (omega arith)))
]

-- A number starts with a digit.
digits-first :
    (fuel n : ℕ) → n < fuel → (d : ℕ) × (s : Text) × (digits fuel n ≡ (48 + d) ∷ s) × (d < 10)
digits-first zero n fits = absurd (omega (arith, fits))
digits-first (suc fuel) n fits = elim (dec_lt n 10) [
  | yes small ↦ (n, [], digits-below fuel n small, small)
  | no large ↦
      let (d, s, starts, bound) = digits-first fuel (n / 10) (omega (arith, fits, large)) in
      (
        d,
        s ++ (48 + n % 10) ∷ [],
        rw (digits-above fuel n (omega (arith, large))) (rw (starts) refl),
        bound,
      )
]

read_digits-decimal : (n : ℕ) → read_digits 0 (decimal n) ≡ n
unfolding read_digits
read_digits-decimal n =
    let all = read_digits-digits (suc n) n [] (omega arith) in rw (← append-nil (decimal n)) all

-- A text that starts with a digit is a number without a sign.
atoi-digit : (d : ℕ) (s : Text) → d < 10 → atoi ((48 + d) ∷ s) ≡ pos (read_digits 0 ((48 + d) ∷ s))
unfolding atoi
atoi-digit d s bound = ground arith

atoi-minus : (s : Text) → atoi (45 ∷ s) ≡ negate (read_digits 0 s)
unfolding atoi
atoi-minus s = refl

-- A value is read as it was printed.
pub atoi-print_int : (value : ℤ) → atoi (print_int value) ≡ value
atoi-print_int (pos n) =
    let (d, s, starts, bound) = digits-first (suc n) n (omega arith) in
    ap atoi starts
    ∙ atoi-digit d s bound
    ∙ ap (λ (t : Text). pos (read_digits 0 t)) (sym starts)
    ∙ ap pos (read_digits-decimal n)
atoi-print_int (negsuc n) = atoi-minus (decimal (suc n)) ∙ ap negate (read_digits-decimal (suc n))
