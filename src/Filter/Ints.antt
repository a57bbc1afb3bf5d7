-- ===== src/Filter/Ints.antt =====
-- e-util/e-filter-int.c: the element that holds an integer, as an implementation of the class. A
-- context whose parts have integer elements only is what it is used for here.
use e_mail_factory.Base.{
  ℕ, zero, suc, ◌+◌, ◌/◌, ◌%◌, ◌≡◌, refl, Text, text_eq, codes, ℤ, pos, negsuc, int_beq,
  int_beq_iff, option_beq, option_beq_iff, ltb, if◌then◌else◌, Bool, true, ◌&&◌, [], ◌∷◌, ◌++◌,
  Option, arith,
}
use e_mail_factory.Filter.{ElementClass}

-- struct _EFilterInt, with the name of its parent class
pub record FilterInt : Type 0 where
  pub name : Option Text
  pub type : Option Text
  pub val : ℤ
  pub min : ℤ
  pub max : ℤ

-- The decimal digits of printf's %d, on fuel; a number has no more digits than its value plus one.
abbrev pub digits : ℕ → ℕ → Text
digits zero n = []
digits (suc fuel) n =
    let rest = digits fuel (n / 10) in
    if ltb n 10 then (48 + n) ∷ [] else rest ++ (48 + n % 10) ∷ []

abbrev pub decimal : ℕ → Text
decimal n = digits (suc n) n

-- filter_int_eq, with e_filter_element_eq of the parent class
abbrev pub int_element_eq : FilterInt → FilterInt → Bool
int_element_eq a b = option_beq a.name b.name && int_beq a.val b.val

-- filter_int_clone
abbrev pub int_element_clone : FilterInt → FilterInt
int_element_clone e = record { name = e.name; type = e.type; val = e.val; min = e.min; max = e.max }

-- filter_int_format_sexp
abbrev pub int_format_sexp : FilterInt → Text
int_format_sexp e = elim e.val [
  | pos n ↦ decimal n
  | negsuc n ↦ codes "(- 0 " ++ decimal (n + 1) ++ codes ")"
]

pub int_element_eq_refl : (e : FilterInt) → int_element_eq e e ≡ true
int_element_eq_refl e =
    ground (arith, (option_beq_iff e.name e.name).1 refl, (int_beq_iff e.val e.val).1 refl)

-- The class. Its build_code method is not set.
instance abbrev pub int_class : ElementClass FilterInt
int_class = record {
  name = λ e. e.name;
  validate = λ e. true;
  eq = int_element_eq;
  clone = int_element_clone;
  same_type = λ a b. true;
  copy_value = λ dst src. record dst { val = src.val };
  format_sexp = int_format_sexp;
  build_code = λ e f. [];
  name_clone = λ e. refl;
  validate_clone = λ e. refl;
  eq_clone = λ e. int_element_eq_refl e;
  format_sexp_clone = λ e. refl;
  build_code_clone = λ e f. refl;
}
