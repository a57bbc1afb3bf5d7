-- ===== src/Filter/Inputs.antt =====
-- e-util/e-filter-input.c, with e_filter_element_eq and filter_element_clone of
-- e-util/e-filter-element.c: the element that holds texts, and its clone by way of XML.
use e_mail_factory.Base.{
  Text, codes, text_eq, text_beq, option_beq, if◌then◌else◌, Bool, true, false, ◌&&◌, List, [], ◌∷◌,
  ◌++◌, Option, none, some,
}
use e_mail_factory.Filter.Parts.{or_empty}
use e_mail_factory.Filter.Xml.{
  Xml, element, XmlList, nil, cons, node_name, node_content, node_children, get_prop,
}

-- struct _EFilterInput, with the name of its parent class
pub record FilterInput : Type 0 where
  pub name : Option Text
  pub type : Option Text
  pub values : List Text

-- What the code asks of libxml, POSIX and Camel for a text: xmlEncodeEntitiesReentrant, the content of
-- a node after xmlNodeSetContent, whether regcomp takes a pattern, and camel_sexp_encode_string.
pub record Contents : Type 0 where
  pub encode_entities : Text → Text
  pub set_content : Text → Text
  pub regcomp : Text → Bool
  pub encode_string : Text → Text

-- e_filter_input_init, on an object that g_object_new has cleared
abbrev pub input_new : FilterInput
input_new = record { name = none; type = none; values = [] ∷ [] }

-- e_filter_input_new_type_name
abbrev pub input_new_type_name : Text → FilterInput
input_new_type_name type = record input_new { type = some type }

-- e_filter_input_set_value
unfoldable pub input_set_value : Text → FilterInput → FilterInput
input_set_value value input = record input { values = value ∷ [] }

-- The loop of filter_input_eq, with the test that both lists end together
unfoldable pub eq_values : List Text → List Text → Bool
eq_values [] [] = true
eq_values [] (_ ∷ _) = false
eq_values (_ ∷ _) [] = false
eq_values (s ∷ ss) (t ∷ ts) = text_beq s t && eq_values ss ts

-- filter_input_eq, with filter_element_eq of the parent class
unfoldable pub input_eq : FilterInput → FilterInput → Bool
input_eq a b = option_beq a.name b.name && option_beq a.type b.type && eq_values a.values b.values

abbrev pub string_text : Option Text → Text
string_text none = codes "string"
string_text (some type) = type

module _ (contents : Contents) where
  -- filter_input_validate; `none` means that it compares a missing type.
  unfoldable pub input_validate : FilterInput → Option Bool
  input_validate input = elim input.values [
    | [] ↦ some true
    | pattern ∷ values ↦ elim input.type [
      | none ↦ none
      | some type ↦ some (if text_beq type (codes "regex") then contents.regcomp pattern else true)
    ]
  ]

  -- filter_input_format_sexp
  unfoldable pub format_values : List Text → Text
  format_values [] = []
  format_values (value ∷ values) = contents.encode_string value ++ format_values values

  unfoldable pub encode_values : Text → List Text → XmlList
  encode_values type [] = nil
  encode_values type (value ∷ values) =
      cons (element type [] (contents.set_content (contents.encode_entities value)) nil)
        (encode_values type values)

  -- filter_input_xml_encode
  unfoldable pub input_xml_encode : FilterInput → Xml
  input_xml_encode input =
      let type = string_text input.type in
      element (codes "value") ((codes "name", or_empty input.name) ∷ (codes "type", type) ∷ []) []
        (encode_values type input.values)

  -- The loop of filter_input_xml_decode; `none` means that it compares with a missing type.
  unfoldable pub read_values : Option Text → XmlList → Option (List Text)
  read_values type nil = some []
  read_values none (cons child children) = none
  read_values (some type) (cons child children) = elim (read_values (some type) children) [
    | none ↦ none
    | some rest ↦ some (if text_beq (node_name child) type then node_content child ∷ rest else rest)
  ]

  -- filter_input_xml_decode
  unfoldable pub input_xml_decode : Xml → Option FilterInput
  input_xml_decode node =
      let type = get_prop (codes "type") node in
      elim (read_values type (node_children node)) [
        | none ↦ none
        | some values ↦
            some (record { name = get_prop (codes "name") node; type = type; values = values })
      ]

  -- filter_element_clone, for an input
  unfoldable pub input_clone : FilterInput → Option FilterInput
  input_clone input = input_xml_decode (input_xml_encode input)
