-- ===== src/Helpers/Mnemonics.antt =====
-- e-util/e-misc-utils.c: texts with mnemonic underscores.
use mathlib.Core.List.{append-nil}
use e_mail_factory.Base.{
  ℕ, ◌≡◌, refl, sym, ap, ◌∙◌, inl, inr, Text, nat_beq, if◌then◌else◌, Bool, true, false, Bool-cases,
  [], ◌∷◌, ◌++◌,
}

abbrev pub is_underscore : ℕ → Bool
is_underscore c = nat_beq c b'_'

-- e_str_without_underscores; at the end of the string sp[1] is 0.
unfoldable pub str_without_underscores : Text → Text
str_without_underscores [] = []
str_without_underscores (c ∷ []) = if is_underscore c then [] else c ∷ []
str_without_underscores (c ∷ d ∷ s) = elim (is_underscore c) [
  | false ↦ c ∷ str_without_underscores (d ∷ s)
  | true ↦ elim (is_underscore d) [
    | true ↦ d ∷ str_without_underscores s
    | false ↦ str_without_underscores (d ∷ s)
  ]
]

-- A text in which each underscore is doubled.
abbrev pub doubled : Text → Text
doubled [] = []
doubled (c ∷ s) = if is_underscore c then c ∷ c ∷ doubled s else c ∷ doubled s

unmarked :
    (c : ℕ) (s : Text)
    → is_underscore c ≡ false
    → str_without_underscores (c ∷ s) ≡ c ∷ str_without_underscores s
unfolding str_without_underscores
unmarked c [] plain = rw plain refl
unmarked c (d ∷ s) plain = rw (plain, str_without_underscores) refl

marked :
    (c d : ℕ) (s : Text)
    → is_underscore c ≡ true
    → is_underscore d ≡ false
    → str_without_underscores (c ∷ d ∷ s) ≡ d ∷ str_without_underscores s
unfolding str_without_underscores
marked c d s mark plain =
    rw (mark, str_without_underscores) (rw (plain, str_without_underscores) (unmarked d s plain))

pair :
    (c : ℕ) (s : Text)
    → is_underscore c ≡ true
    → str_without_underscores (c ∷ c ∷ s) ≡ c ∷ str_without_underscores s
unfolding str_without_underscores
pair c s mark = rw (mark, str_without_underscores) (rw (mark, str_without_underscores) refl)

-- A doubled text before any other comes out as it was.
pub str_without_underscores-doubled :
    (s rest : Text)
    → str_without_underscores (doubled s ++ rest) ≡ s ++ str_without_underscores rest
str_without_underscores-doubled [] rest = refl
str_without_underscores-doubled (c ∷ s) rest = elim (Bool-cases (is_underscore c)) [
  | inl mark ↦
      rw mark
        (pair c (doubled s ++ rest) mark ∙ ap (◌∷◌ c) (str_without_underscores-doubled s rest))
  | inr plain ↦
      rw plain
        (unmarked c (doubled s ++ rest) plain ∙ ap (◌∷◌ c) (str_without_underscores-doubled s rest))
]

-- A label whose underscores are doubled, with an underscore before the letter that is its mnemonic,
-- comes out as the label.
pub str_without_underscores-label :
    (front : Text) (mark letter : ℕ) (back : Text)
    → is_underscore mark ≡ true
    → is_underscore letter ≡ false
    → str_without_underscores (doubled front ++ mark ∷ letter ∷ doubled back)
      ≡ front ++ letter ∷ back
unfolding str_without_underscores
str_without_underscores-label front mark letter back is_mark is_letter =
    str_without_underscores-doubled front (mark ∷ letter ∷ doubled back)
    ∙ ap (◌++◌ front) (
        marked mark letter (doubled back) is_mark is_letter
        ∙ ap (◌∷◌ letter) (
            ap str_without_underscores (sym (append-nil (doubled back)))
            ∙ str_without_underscores-doubled back []
            ∙ append-nil back))
