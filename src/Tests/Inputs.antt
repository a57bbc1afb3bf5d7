-- ===== src/Tests/Inputs.antt =====
-- e-util/e-filter-input.c at concrete inputs, with texts that need no escaping and a regcomp that takes
-- every pattern but the empty one.
use e_mail_factory.Base.{
  ◌≡◌, refl, Text, codes, text_eq, Bool, true, false, ◌&&◌, [], ◌∷◌, ◌++◌, none, some, lookup,
}
use e_mail_factory.Filter.Inputs.{
  FilterInput, Contents, input_new, input_new_type_name, input_set_value, input_eq, input_validate,
  format_values, input_clone, input_xml_encode, input_xml_decode, encode_values, read_values,
}
use e_mail_factory.Filter.InputClones.{is_given, input_eq-input_clone}

abbrev takes : Text → Bool
takes [] = false
takes (a ∷ text) = true

abbrev plain : Contents
plain = record {
  encode_entities = λ t. t;
  set_content = λ t. t;
  regcomp = takes;
  encode_string = λ t. codes "\"" ++ t ++ codes "\"";
}

-- The input of a template, which e_filter_input_new makes without a type.
abbrev untyped : FilterInput
untyped = record input_new { name = some (codes "subject"); values = codes "hello" ∷ [] }

input_eq-input_clone_example :
    (copy : FilterInput) × (input_clone plain untyped ≡ some copy)
    × (copy.values ≡ untyped.values)
    × (input_eq copy untyped ≡ is_given untyped.name && is_given untyped.type)
input_eq-input_clone_example = input_eq-input_clone plain (λ t. refl) untyped

input_clone_test :
    input_clone plain untyped
    ≡ some (record {
      name = some (codes "subject");
      type = some (codes "string");
      values = codes "hello" ∷ [];
    })
unfolding input_clone input_xml_encode input_xml_decode encode_values read_values lookup
input_clone_test = refl

-- A pattern that regcomp refuses, one that it takes, and a type that is missing.
input_validate_test :
    (input_validate plain (input_new_type_name (codes "regex")) ≡ some false)
    × (input_validate plain (input_set_value (codes "a") (input_new_type_name (codes "regex")))
        ≡ some true)
    × (input_validate plain input_new ≡ none)
unfolding input_validate input_set_value
input_validate_test = (refl, refl, refl)

format_values_test : format_values plain (codes "a" ∷ codes "b" ∷ []) ≡ codes "\"a\"\"b\""
unfolding format_values
format_values_test = refl
