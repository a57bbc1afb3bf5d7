-- ===== src/Filter/Expansion.antt =====
-- e-util/e-filter-part.c: e_filter_part_expand_code on templates.
use mathlib.Core.List.{append_assoc}
use e_mail_factory.Base.{
  ℕ, zero, suc, ◌<◌, ◌≡◌, ◌≢◌, refl, sym, ◌∙◌, ap, Text, codes, nat_beq_iff, length, length-append,
  List, [], ◌∷◌, ◌++◌, Option, none, some, arith, All, Option-cases, inl, inr,
}
use e_mail_factory.Filter.{ElementClass}
use e_mail_factory.Filter.Parts.{
  split_open, split_close, expand_variable, expand_loop, expand_code, or_empty,
}

-- A template as it is meant: text to keep, and variables.
pub data Piece : Type 0 where
  literal : Text → Piece
  variable : Text → Piece

abbrev pub print_piece : Piece → Text
print_piece (literal t) = t
print_piece (variable name) = codes "${" ++ name ++ codes "}"

abbrev pub print : List Piece → Text
print [] = []
print (p ∷ ps) = print_piece p ++ print ps

-- Text without `$`, and names without `}`.
abbrev pub IsPlain : Piece → Type 0
IsPlain (literal t) = All (λ a. a ≢ 36) t
IsPlain (variable name) = All (λ a. a ≢ 125) name

split_close-name :
    (name rest : Text)
    → All (λ a. a ≢ 125) name
    → split_close (name ++ 125 ∷ rest) ≡ some (name, rest)
unfolding split_close
split_close-name [] rest h = refl
split_close-name (a ∷ name) rest h =
    ground (arith, nat_beq_iff a 125, h.0, split_close-name name rest h.1)

abbrev prefixed : ℕ → Option (Text × Text) → Option (Text × Text)
prefixed a none = none
prefixed a (some p) = some (a ∷ p.0, p.1)

split_open-cons : (a : ℕ) (s : Text) → a ≢ 36 → split_open (a ∷ s) ≡ prefixed a (split_open s)
unfolding split_open
split_open-cons a [] h = refl
split_open-cons a (b ∷ s) h = elim (Option-cases (split_open (b ∷ s))) [
  | inl e ↦ ground (arith, nat_beq_iff a 36, h, e)
  | inr (q, e) ↦ ground (arith, nat_beq_iff a 36, h, e)
]

split_open-shorter : (s : Text) (p : Text × Text) → split_open s ≡ some p → length p.1 < length s
unfolding split_open
split_open-shorter [] p h = cc
split_open-shorter (a ∷ []) p h = cc
split_open-shorter (a ∷ b ∷ s) p h = elim (Option-cases (split_open (b ∷ s))) [
  | inl e ↦ ground (arith, e, ap (λ (q : Option (Text × Text)). q) h)
  | inr (q, e) ↦ ground (arith, split_open-shorter (b ∷ s) q e)
]

split_close-shorter : (s : Text) (p : Text × Text) → split_close s ≡ some p → length p.1 < length s
unfolding split_close
split_close-shorter [] p h = cc
split_close-shorter (a ∷ s) p h = elim (Option-cases (split_close s)) [
  | inl e ↦ ground (arith, e)
  | inr (q, e) ↦ ground (arith, split_close-shorter s q e)
]

abbrev pub then_variable : Text → Text → Option Text → Option Text
then_variable head value none = none
then_variable head value (some rest) = some (head ++ value ++ rest)

module _ {ℓ} {E : Type ℓ} ⦃c : ElementClass E⦄ where
  abbrev pub expand_piece : List E → Piece → Text
  expand_piece es (literal t) = t
  expand_piece es (variable name) = expand_variable es name

  abbrev pub expand_pieces : List E → List Piece → Text
  expand_pieces es [] = []
  expand_pieces es (p ∷ ps) = expand_piece es p ++ expand_pieces es ps

  pub expand_loop-none :
      (es : List E) (fuel : ℕ) (start : Text)
      → split_open start ≡ none
      → expand_loop es (suc fuel) start ≡ some start
  unfolding expand_loop
  expand_loop-none es fuel start e = rw (e, expand_loop) refl

  pub expand_loop-unclosed :
      (es : List E) (fuel : ℕ) (start : Text) (p : Text × Text)
      → split_open start ≡ some p
      → split_close p.1 ≡ none
      → expand_loop es (suc fuel) start ≡ some start
  unfolding expand_loop
  expand_loop-unclosed es fuel start p e f = rw (e, expand_loop) (rw (f, expand_loop) refl)

  pub expand_loop-variable :
      (es : List E) (fuel : ℕ) (start : Text) (p q : Text × Text)
      → split_open start ≡ some p
      → split_close p.1 ≡ some q
      → expand_loop es (suc fuel) start
        ≡ then_variable p.0 (expand_variable es q.0) (expand_loop es fuel q.1)
  unfolding expand_loop
  expand_loop-variable es fuel start p q e f = rw (e, expand_loop) (rw (f, expand_loop) refl)

  expand_loop-cons :
      (es : List E) (fuel a : ℕ) (s out : Text)
      → a ≢ 36
      → expand_loop es (suc fuel) s ≡ some out
      → expand_loop es (suc fuel) (a ∷ s) ≡ some (a ∷ out)
  unfolding expand_loop
  expand_loop-cons es fuel a s out ne h = elim (Option-cases (split_open s)) [
    | inl e ↦ ground (arith, split_open-cons a s ne, e, h)
    | inr (p, e) ↦ elim (Option-cases (split_close p.1)) [
      | inl f ↦ ground (arith, split_open-cons a s ne, e, f, h)
      | inr (q, f) ↦ ground (arith, split_open-cons a s ne, e, f, h)
    ]
  ]

  -- Text without `$` is passed on.
  expand_loop-plain :
      (es : List E) (fuel : ℕ) (t rest out : Text)
      → All (λ a. a ≢ 36) t
      → expand_loop es (suc fuel) rest ≡ some out
      → expand_loop es (suc fuel) (t ++ rest) ≡ some (t ++ out)
  unfolding expand_loop split_open
  expand_loop-plain es fuel [] rest out plain h = h
  expand_loop-plain es fuel (a ∷ t) rest out plain h =
      expand_loop-cons es fuel a (t ++ rest) (t ++ out) plain.0
        (expand_loop-plain es fuel t rest out plain.1 h)

  expand_loop-pieces :
      (es : List E) (fuel : ℕ) (ps : List Piece)
      → All IsPlain ps
      → length (print ps) < fuel
      → expand_loop es fuel (print ps) ≡ some (expand_pieces es ps)
  unfolding expand_loop split_open
  expand_loop-pieces es zero ps plain enough = absurd (omega arith)
  expand_loop-pieces es (suc fuel) [] plain enough = refl
  expand_loop-pieces es (suc fuel) (literal t ∷ ps) plain enough =
      expand_loop-plain es fuel t (print ps) (expand_pieces es ps) plain.0
        (expand_loop-pieces es (suc fuel) ps plain.1 (omega (arith, length-append t (print ps))))
  expand_loop-pieces es (suc fuel) (variable name ∷ ps) plain enough =
      let whole = length-append (codes "${" ++ name ++ codes "}") (print ps) in
      let closed : split_close ((name ++ codes "}") ++ print ps) ≡ some (name, print ps) =
        rw (append_assoc name (codes "}") (print ps)) (split_close-name name (print ps) plain.0) in
      expand_loop-variable es fuel (print (variable name ∷ ps))
        ([], (name ++ codes "}") ++ print ps) (name, print ps) refl closed
      ∙ rw (expand_loop-pieces es fuel ps plain.1 (omega (arith, whole))) refl

  -- Code that is put together from text without `$` and from variables expands to the text and the
  -- values: a name that an element of the part has gives that element's value, any other stays.
  pub expand_code-pieces :
      (es : List E) (ps : List Piece)
      → All IsPlain ps
      → expand_code es (print ps) ≡ expand_pieces es ps
  unfolding expand_code
  expand_code-pieces es ps plain =
      ap or_empty (expand_loop-pieces es (suc (length (print ps))) ps plain (omega arith))

  expand_loop-returns :
      (es : List E) (fuel : ℕ) (source : Text)
      → length source < fuel
      → (out : Text) × (expand_loop es fuel source ≡ some out)
  unfolding expand_loop
  expand_loop-returns es zero source enough = absurd (omega arith)
  expand_loop-returns es (suc fuel) source enough = elim (Option-cases (split_open source)) [
    | inl e ↦ (source, rw (e, expand_loop) refl)
    | inr (p, e) ↦ elim (Option-cases (split_close p.1)) [
      | inl f ↦ (source, rw (e, expand_loop) (rw (f, expand_loop) refl))
      | inr (q, f) ↦
          let (out, h) =
            expand_loop-returns es fuel q.1
              (omega (arith, split_open-shorter source p e, split_close-shorter p.1 q f)) in
          (
            p.0 ++ expand_variable es q.0 ++ out,
            rw (e, expand_loop) (rw (f, expand_loop) (rw (h, expand_loop) refl)),
          )
    ]
  ]

  -- The expansion of any code ends within as many rounds as it has bytes, and one more.
  pub expand_code-returns :
      (es : List E) (source : Text)
      → expand_loop es (suc (length source)) source ≡ some (expand_code es source)
  unfolding expand_code
  expand_code-returns es source =
      let (out, h) = expand_loop-returns es (suc (length source)) source (omega arith) in
      h ∙ ap (λ (o : Option Text). some (or_empty o)) (sym h)
