-- ===== src/Filter/InputClones.antt =====
-- e-util/e-filter-input.c and filter_element_clone of e-util/e-filter-element.c: what a clone of an
-- input has in common with it.
use e_mail_factory.Base.{
  ◌≡◌, refl, ap, Text, text_eq, text_beq_iff, option_beq, Bool, true, false, ◌&&◌, List, [], ◌∷◌,
  Option, none, some, lookup, arith,
}
use e_mail_factory.Filter.Parts.{or_empty}
use e_mail_factory.Filter.Inputs.{
  FilterInput, Contents, eq_values, input_eq, string_text, encode_values, input_xml_encode,
  read_values, input_xml_decode, input_clone,
}

abbrev pub is_given : Option Text → Bool
is_given none = false
is_given (some text) = true

eq_values_refl : (values : List Text) → eq_values values values ≡ true
unfolding eq_values
eq_values_refl [] = refl
eq_values_refl (value ∷ values) =
    ground (arith, (text_beq_iff value value).1 refl, eq_values_refl values)

given_again : (given : Option Text) → option_beq (some (or_empty given)) given ≡ is_given given
given_again none = refl
given_again (some given) = (text_beq_iff given given).1 refl

typed_again : (given : Option Text) → option_beq (some (string_text given)) given ≡ is_given given
typed_again none = refl
typed_again (some given) = (text_beq_iff given given).1 refl

module _ (contents : Contents)
    (kept : (text : Text) → contents.set_content (contents.encode_entities text) ≡ text) where
  read_values-encode_values :
      (type : Text) (values : List Text)
      → read_values contents (some type) (encode_values contents type values) ≡ some values
  unfolding read_values encode_values
  read_values-encode_values type [] = refl
  read_values-encode_values type (value ∷ values) =
      rw (read_values-encode_values type values)
        (rw ((text_beq_iff type type).1 refl) (rw (kept value) refl))

  -- A clone always comes to be, with the values of the original, the empty name for a missing one and
  -- the type "string" for a missing one.
  input_clone-fields :
      (input : FilterInput)
      → input_clone contents input
        ≡ some (record {
          name = some (or_empty input.name);
          type = some (string_text input.type);
          values = input.values;
        })
  unfolding input_clone input_xml_decode input_xml_encode lookup
  input_clone-fields input =
      let type = string_text input.type in
      let finish : Option (List Text) → Option FilterInput = λ r. elim r [
        | none ↦ none
        | some values ↦
            some (record { name = some (or_empty input.name); type = some type; values = values })
      ] in
      ap finish (read_values-encode_values type input.values)

  -- The clone of an input always comes to be, where a text survives the escaping of its entities; it
  -- has the values of the input, and is equal to it exactly if the input has a name and a type.
  pub input_eq-input_clone :
      (input : FilterInput)
      → (copy : FilterInput) × (input_clone contents input ≡ some copy)
        × (copy.values ≡ input.values)
        × (input_eq copy input ≡ is_given input.name && is_given input.type)
  unfolding input_eq
  input_eq-input_clone input = (
    _,
    input_clone-fields input,
    refl,
    ground (arith, given_again input.name, typed_again input.type, eq_values_refl input.values),
  )
