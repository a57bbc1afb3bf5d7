-- ===== src/Filter/Parts.antt =====
-- e-util/e-filter-part.c: filter parts and lists of them.
use e_mail_factory.Base.{
  ℕ, zero, suc, Text, codes, text_eq, nat_beq, option_beq, length, if◌then◌else◌, Bool, true, false,
  ◌&&◌, List, [], ◌∷◌, ◌++◌, map, reverse, Option, none, some, next_links, first,
}
use e_mail_factory.Filter.{ElementClass, FilterPart}

-- strstr (s, "${"): what is before it and what is after it
unfoldable pub split_open : Text → Option (Text × Text)
split_open [] = none
split_open (a ∷ []) = none
split_open (a ∷ b ∷ s) =
    if nat_beq a 36 && nat_beq b 123
    then some ([], s)
    else elim (split_open (b ∷ s)) [ none ↦ none | some p ↦ some (a ∷ p.0, p.1) ]

-- strstr (s, "}")
unfoldable pub split_close : Text → Option (Text × Text)
split_close [] = none
split_close (a ∷ s) =
    if nat_beq a 125
    then some ([], s)
    else elim (split_close s) [ none ↦ none | some p ↦ some (a ∷ p.0, p.1) ]

abbrev pub or_empty : Option Text → Text
or_empty none = []
or_empty (some t) = t

module _ {ℓ} {E : Type ℓ} ⦃c : ElementClass E⦄ where
  -- e_filter_part_validate
  unfoldable pub validate_elements : List E → Bool
  validate_elements [] = true
  validate_elements (e ∷ es) = c.validate e && validate_elements es

  abbrev pub part_validate : FilterPart E → Bool
  part_validate part = validate_elements part.elements

  -- e_filter_part_eq: the loop, with the test that both lists end together
  unfoldable pub eq_elements : List E → List E → Bool
  eq_elements [] [] = true
  eq_elements [] (_ ∷ _) = false
  eq_elements (_ ∷ _) [] = false
  eq_elements (x ∷ xs) (y ∷ ys) = c.eq x y && eq_elements xs ys

  unfoldable pub part_eq : FilterPart E → FilterPart E → Bool
  part_eq a b =
      option_beq a.name b.name
      && option_beq a.title b.title
      && option_beq a.code b.code
      && eq_elements a.elements b.elements

  -- e_filter_part_clone
  unfoldable pub part_clone : FilterPart E → FilterPart E
  part_clone part = record {
    name = part.name;
    title = part.title;
    code = part.code;
    elements = map c.clone part.elements;
  }

  -- The inner loop of e_filter_part_copy_values: the elements of dst down to the first of the same
  -- type, which gets the value, and those that are left.
  unfoldable pub copy_to_first : E → List E → Option (List E × List E)
  copy_to_first src [] = none
  copy_to_first src (dst ∷ dsts) =
      if c.same_type dst src
      then some (c.copy_value dst src ∷ [], dsts)
      else elim (copy_to_first src dsts) [ none ↦ none | some p ↦ some (dst ∷ p.0, p.1) ]

  -- The outer loop, on both lists from their ends.
  unfoldable pub copy_backwards : List E → List E → List E
  copy_backwards [] dsts = dsts
  copy_backwards (src ∷ srcs) dsts = elim (copy_to_first src dsts) [
    | none ↦ copy_backwards srcs dsts
    | some p ↦ p.0 ++ copy_backwards srcs p.1
  ]

  -- e_filter_part_copy_values
  unfoldable pub copy_values : FilterPart E → FilterPart E → FilterPart E
  copy_values dst src = record dst {
    elements = reverse (copy_backwards (reverse src.elements) (reverse dst.elements));
  }

  -- e_filter_part_find_element, for a name that is not NULL
  unfoldable pub find_element : Text → List E → Option E
  find_element name [] = none
  find_element name (e ∷ es) =
      if option_beq (c.name e) (some name) then some e else find_element name es

  -- What the loop of e_filter_part_expand_code puts for one variable.
  unfoldable pub expand_variable : List E → Text → Text
  expand_variable es name = elim (find_element name es) [
    | none ↦ codes "${" ++ name ++ codes "}"
    | some e ↦ c.format_sexp e
  ]

  -- The loop of e_filter_part_expand_code, on fuel; `none` means that the fuel ran out.
  unfoldable pub expand_loop : List E → ℕ → Text → Option Text
  expand_loop es zero start = none
  expand_loop es (suc fuel) start = elim (split_open start) [
    | none ↦ some start
    | some p ↦ elim (split_close p.1) [
      | none ↦ some start
      | some q ↦ elim (expand_loop es fuel q.1) [
        | none ↦ none
        | some rest ↦ some (p.0 ++ expand_variable es q.0 ++ rest)
      ]
    ]
  ]

  -- e_filter_part_expand_code; each round takes at least three bytes.
  unfoldable pub expand_code : List E → Text → Text
  expand_code es source = or_empty (expand_loop es (suc (length source)) source)

  unfoldable pub build_elements : List E → List E → Text
  build_elements all [] = []
  build_elements all (e ∷ es) = c.build_code e (expand_code all) ++ build_elements all es

  -- The code of the part, if it has any.
  unfoldable pub expand_own_code : List E → Option Text → Text
  expand_own_code es none = []
  expand_own_code es (some code) = expand_code es code

  -- e_filter_part_build_code
  unfoldable pub part_build_code : FilterPart E → Text
  part_build_code part =
      expand_own_code part.elements part.code ++ build_elements part.elements part.elements

  -- e_filter_part_build_code_list
  unfoldable pub build_code_list : List (ℕ × FilterPart E) → Text
  build_code_list [] = []
  build_code_list ((a, part) ∷ parts) =
      part_build_code part ++ codes "\n  " ++ build_code_list parts

-- e_filter_part_find_list
unfoldable pub find_part {ℓ} :
    {E : Type ℓ} → Text → List (ℕ × FilterPart E) → Option (ℕ × FilterPart E)
find_part name [] = none
find_part name ((a, part) ∷ parts) =
    if option_beq part.name (some name) then some (a, part) else find_part name parts

-- e_filter_part_next_list
unfoldable pub next_part {ℓ} :
    {E : Type ℓ} → List (ℕ × FilterPart E) → Option ℕ → Option (ℕ × FilterPart E)
next_part parts last = first (next_links last parts)
