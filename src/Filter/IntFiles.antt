-- ===== src/Filter/IntFiles.antt =====
-- e-util/e-filter-int.c: an integer element as XML.
use e_mail_factory.Base.{
  ◌≡◌, refl, sym, ap, ◌∙◌, Text, codes, text_eq, text_beq, option_beq_iff, ℤ, pos, int_beq_iff,
  Bool, true, false, not, ◌&&◌, [], Option, none, some, lookup, insert, lookup-insert,
  lookup-insert_self, arith,
}
use e_mail_factory.Filter.Parts.{or_empty}
use e_mail_factory.Filter.Ints.{FilterInt, int_class, int_element_eq}
use e_mail_factory.Filter.Atoi.{print_int, atoi, atoi-print_int}
use e_mail_factory.Filter.Xml.{Xml, element, nil, node_name, get_prop}
use e_mail_factory.Filter.Files.{ElementXml}

abbrev pub type_text : Option Text → Text
type_text none = codes "integer"
type_text (some type) = type

-- filter_int_xml_encode
unfoldable pub int_xml_encode : FilterInt → Xml
int_xml_encode e =
    element (codes "value")
      (insert (type_text e.type) (print_int e.val)
        (insert (codes "type") (type_text e.type) (insert (codes "name") (or_empty e.name) [])))
      [] nil

-- The value of an attribute, 0 without it
abbrev pub read_value : Option Text → ℤ
read_value none = pos 0
read_value (some text) = atoi text

-- filter_int_xml_decode
unfoldable pub int_xml_decode : FilterInt → Xml → FilterInt
int_xml_decode e node =
    let type = get_prop (codes "type") node in
    record e {
      name = get_prop (codes "name") node;
      type = type;
      val = read_value (get_prop (type_text type) node);
    }

-- A type that is the name of one of the other two attributes takes its place.
abbrev pub is_storable_int : FilterInt → Bool
is_storable_int e =
    not (text_beq (type_text e.type) (codes "name"))
    && not (text_beq (type_text e.type) (codes "type"))

neither : (a b : Bool) → not a && not b ≡ true → (a ≡ false) × (b ≡ false)
neither a b both = (ground (arith, both), ground (arith, both))

-- The first two attributes that are written for an element.
lookup-two :
    (type name : Text)
    → let props = insert (codes "type") type (insert (codes "name") name []) in
      (lookup (codes "name") props ≡ some name) × (lookup (codes "type") props ≡ some type)
unfolding lookup insert
lookup-two type name = (refl, refl)

-- The attributes that are written for an element.
pub int_xml_encode-props :
    (e : FilterInt) (name : Text)
    → is_storable_int e ≡ true
    → e.name ≡ some name
    → (get_prop (codes "name") (int_xml_encode e) ≡ some name)
      × (get_prop (codes "type") (int_xml_encode e) ≡ some (type_text e.type))
      × (get_prop (type_text e.type) (int_xml_encode e) ≡ some (print_int e.val))
unfolding int_xml_encode
int_xml_encode-props e name storable named =
    let type = type_text e.type in
    let value = print_int e.val in
    let props = insert (codes "type") type (insert (codes "name") (or_empty e.name) []) in
    let two = lookup-two type (or_empty e.name) in
    let apart = neither (text_beq type (codes "name")) (text_beq type (codes "type")) storable in
    (
      lookup-insert type (codes "name") value props
          ∙ rw (apart.0) (two.0 ∙ ap (λ n. some (or_empty n)) named),
      lookup-insert type (codes "type") value props ∙ rw (apart.1) (two.1),
      lookup-insert_self type value props,
    )

pub int_xml_decode-int_xml_encode :
    (slot e : FilterInt) (name : Text)
    → is_storable_int e ≡ true
    → e.name ≡ some name
    → let read = int_xml_decode slot (int_xml_encode e) in
      (read.name ≡ some name) × (read.val ≡ e.val)
unfolding int_xml_decode
int_xml_decode-int_xml_encode slot e name storable named =
    let (names, types, values) = int_xml_encode-props e name storable named in
    (
      names,
      ap (λ t. read_value (get_prop (type_text t) (int_xml_encode e))) types
          ∙ ap read_value values
          ∙ atoi-print_int e.val,
    )

pub node_name-int_xml_encode : (e : FilterInt) → node_name (int_xml_encode e) ≡ codes "value"
unfolding int_xml_encode
node_name-int_xml_encode e = refl

pub int_element_eq-int_xml_decode :
    (slot e : FilterInt) (name : Text)
    → is_storable_int e ≡ true
    → e.name ≡ some name
    → int_element_eq (int_xml_decode slot (int_xml_encode e)) e ≡ true
int_element_eq-int_xml_decode slot e name storable named =
    let (names, values) = int_xml_decode-int_xml_encode slot e name storable named in
    let read = int_xml_decode slot (int_xml_encode e) in
    ground (
      arith,
      (option_beq_iff read.name e.name).1 (names ∙ sym named),
      (int_beq_iff read.val e.val).1 values,
    )

-- What every class keeps to, for integers.
instance abbrev pub int_xml : ElementXml FilterInt
int_xml = record {
  xml_encode = int_xml_encode;
  xml_decode = int_xml_decode;
  is_storable = is_storable_int;
  encode_name = node_name-int_xml_encode;
  encode_prop = λ e name storable named. (int_xml_encode-props e name storable named).0;
  decode_name =
      λ slot e name storable named. (int_xml_decode-int_xml_encode slot e name storable named).0;
  decode_eq =
      λ slot e name storable named same. int_element_eq-int_xml_decode slot e name storable named;
  same_type_clone = λ slot e. refl;
}
