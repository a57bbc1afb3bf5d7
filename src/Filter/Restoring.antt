-- ===== src/Filter/Restoring.antt =====
-- e-util/e-filter-part.c and e-util/e-filter-rule.c: a rule that is written as XML and read back.
use e_mail_factory.Base.{
  ◌≡◌, refl, ◌∙◌, Text, text_eq, text_beq, option_beq, option_beq_iff, true, false, List, [], ◌∷◌,
  map, some, All, arith,
}
use e_mail_factory.Filter.{ElementClass, FilterPart}
use e_mail_factory.Filter.Parts.{eq_elements, part_eq, part_clone}
use e_mail_factory.Filter.Files.{
  ElementXml, encode_elements, part_xml_encode, decode_element, decode_value, decode_values,
  part_xml_decode,
}

module _ {ℓ} {E : Type ℓ} ⦃c : ElementClass E⦄ ⦃x : ElementXml E⦄ where
  -- The element has this name and can be stored.
  abbrev pub IsNamed : E → Text → Type 0
  IsNamed e name = (c.name e ≡ some name) × (x.is_storable e ≡ true)

  -- None of the elements has the name.
  abbrev pub IsAbsent : Text → List E → Type 0
  IsAbsent name es =
      All (λ e. (other : Text) × (IsNamed e other × (text_beq name other ≡ false))) es

  -- The elements of a part that was made of a template with these slots: each is of the type of its
  -- slot and has its name, no two have one name, and all can be stored.
  abbrev pub AreFilled : List E → List E → Type 0
  AreFilled [] [] = Unit
  AreFilled [] (_ ∷ _) = ⊥
  AreFilled (_ ∷ _) [] = ⊥
  AreFilled (slot ∷ slots) (e ∷ es) =
      ((name : Text) × (IsNamed e name
          × (c.name slot ≡ some name)
          × (c.same_type slot e ≡ true)
          × IsAbsent name es))
      × AreFilled slots es

  -- The value of an element is read into the slot of its name.
  decode_value-own :
      (slot e : E) (slots : List E) (name : Text)
      → IsNamed e name
      → c.name slot ≡ some name
      → decode_value (x.xml_encode e) (slot ∷ slots) ≡ x.xml_decode slot (x.xml_encode e) ∷ slots
  unfolding decode_value decode_element
  decode_value-own slot e slots name named same =
      let own : option_beq (c.name slot) (some name) ≡ true =
        (option_beq_iff (c.name slot) (some name)).1 same in
      rw (x.encode_name e) (rw (x.encode_prop e name named.1 named.0) (rw own refl))

  -- A slot of another name is passed.
  decode_value-other :
      (slot e : E) (slots : List E) (name other : Text)
      → IsNamed e other
      → c.name slot ≡ some name
      → text_beq name other ≡ false
      → decode_value (x.xml_encode e) (slot ∷ slots) ≡ slot ∷ decode_value (x.xml_encode e) slots
  unfolding decode_value decode_element
  decode_value-other slot e slots name other named same apart =
      rw (x.encode_name e) (rw (x.encode_prop e other named.1 named.0) (rw same (rw apart refl)))

  decode_values-other :
      (slot : E) (name : Text) (es slots : List E)
      → c.name slot ≡ some name
      → IsAbsent name es
      → decode_values (encode_elements es) (slot ∷ slots)
        ≡ slot ∷ decode_values (encode_elements es) slots
  unfolding decode_values encode_elements
  decode_values-other slot name [] slots same absent = refl
  decode_values-other slot name (e ∷ es) slots same ((other, (named, apart)), absent) =
      rw
        (
          decode_value-other slot e slots name other named same apart,
          decode_values,
          encode_elements,
        )
        (decode_values-other slot name es (decode_value (x.xml_encode e) slots) same absent)

  -- The elements that are read into the slots are equal to those that were written.
  pub eq_elements-decode_values :
      (slots es : List E)
      → AreFilled slots es
      → eq_elements (decode_values (encode_elements es) slots) es ≡ true
  unfolding eq_elements decode_values encode_elements
  eq_elements-decode_values [] [] filled = refl
  eq_elements-decode_values [] (e ∷ es) filled = elim filled [ ]
  eq_elements-decode_values (slot ∷ slots) [] filled = elim filled [ ]
  eq_elements-decode_values (slot ∷ slots) (e ∷ es) ((name, (named, same, typed, absent)), filled) =
      let read = x.xml_decode slot (x.xml_encode e) in
      let read_name = x.decode_name slot e name named.1 named.0 in
      rw (decode_value-own slot e slots name named same, decode_values, encode_elements)
        (rw (decode_values-other read name es slots read_name absent) (
          rw (x.decode_eq slot e name named.1 named.0 typed)
            (eq_elements-decode_values slots es filled)))

  AreFilled-map : (slots es : List E) → AreFilled slots es → AreFilled (map c.clone slots) es
  AreFilled-map [] [] filled = filled
  AreFilled-map [] (e ∷ es) filled = elim filled [ ]
  AreFilled-map (slot ∷ slots) [] filled = elim filled [ ]
  AreFilled-map (slot ∷ slots) (e ∷ es) ((name, (named, same, typed, absent)), filled) = (
    (name, (named, c.name_clone slot ∙ same, x.same_type_clone slot e ∙ typed, absent)),
    AreFilled-map slots es filled,
  )

  -- The part is made of the template, but for the values of its elements.
  abbrev pub IsInstance : FilterPart E → FilterPart E → Type 0
  IsInstance template part =
      (template.name ≡ part.name)
      × (template.title ≡ part.title)
      × (template.code ≡ part.code)
      × AreFilled template.elements part.elements

  -- What is read into a clone of the template is equal to the part that was written.
  pub part_eq-part_xml_decode :
      (template part : FilterPart E)
      → IsInstance template part
      → part_eq (part_xml_decode (part_xml_encode part) (part_clone template)) part ≡ true
  unfolding part_eq part_xml_decode part_xml_encode part_clone
  part_eq-part_xml_decode template part (names, titles, bodies, filled) =
      let read =
        eq_elements-decode_values _ _ (AreFilled-map template.elements part.elements filled) in
      ground (
        arith,
        (option_beq_iff template.name part.name).1 names,
        (option_beq_iff template.title part.title).1 titles,
        (option_beq_iff template.code part.code).1 bodies,
        read,
      )
