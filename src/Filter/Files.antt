-- ===== src/Filter/Files.antt =====
-- e-util/e-filter-part.c and e-util/e-filter-rule.c: parts and rules as XML.
use e_mail_factory.Base.{
  ℕ, ◌+◌, ◌-◌, ◌≡◌, Text, codes, text_eq, text_beq, option_beq, if◌then◌else◌, Bool, true, false,
  not, ◌||◌, List, [], ◌∷◌, ◌++◌, length, Option, none, some,
}
use e_mail_factory.Filter.{
  ElementClass, FilterPart, FilterRule, Grouping, group_all, group_any, Threading, thread_none,
  thread_all, thread_replies, thread_replies_parents, thread_single, RuleContext,
}
use e_mail_factory.Filter.Parts.{find_part, part_clone, or_empty}
use e_mail_factory.Filter.Rules.{emit_changed, add_part}
use e_mail_factory.Filter.Xml.{
  Xml, element, XmlList, nil, cons, node_name, node_content, node_children, get_prop, Titles,
}

-- The xml_encode and xml_decode methods of EFilterElementClass, and what every class keeps to: a value
-- that is read into an element of its type is equal to the one that was written, if it can be stored.
pub record ElementXml {ℓ} (E : Type ℓ) ⦃c : ElementClass E⦄ : Type ℓ where
  pub xml_encode : E → Xml
  pub xml_decode : E → Xml → E
  pub is_storable : E → Bool
  pub encode_name : (e : E) → node_name (xml_encode e) ≡ codes "value"
  pub encode_prop :
      (e : E) (name : Text)
      → is_storable e ≡ true
      → c.name e ≡ some name
      → get_prop (codes "name") (xml_encode e) ≡ some name
  pub decode_name :
      (slot e : E) (name : Text)
      → is_storable e ≡ true
      → c.name e ≡ some name
      → c.name (xml_decode slot (xml_encode e)) ≡ some name
  pub decode_eq :
      (slot e : E) (name : Text)
      → is_storable e ≡ true
      → c.name e ≡ some name
      → c.same_type slot e ≡ true
      → c.eq (xml_decode slot (xml_encode e)) e ≡ true
  pub same_type_clone : (slot e : E) → c.same_type (c.clone slot) e ≡ c.same_type slot e

abbrev pub grouping_text : Grouping → Text
grouping_text group_all = codes "all"
grouping_text group_any = codes "any"

abbrev pub threading_props : Threading → List (Text × Text)
threading_props thread_none = []
threading_props thread_all = (codes "threading", codes "all") ∷ []
threading_props thread_replies = (codes "threading", codes "replies") ∷ []
threading_props thread_replies_parents = (codes "threading", codes "replies_parents") ∷ []
threading_props thread_single = (codes "threading", codes "single") ∷ []

abbrev pub source_text : Option Text → Text
source_text none = codes "incoming"
source_text (some source) = source

abbrev pub bool_text : Bool → Text
bool_text true = codes "true"
bool_text false = codes "false"

-- The tests on the attributes in filter_rule_xml_decode.
abbrev pub read_enabled : Option Text → Bool
read_enabled none = true
read_enabled (some text) = not (text_beq text (codes "false"))

abbrev pub read_grouping : Text → Grouping
read_grouping text = if text_beq text (codes "any") then group_any else group_all

abbrev pub read_threading : Option Text → Threading
read_threading none = thread_none
read_threading (some text) =
    if text_beq text (codes "all")
    then thread_all
    else if text_beq text (codes "replies")
    then thread_replies
    else if text_beq text (codes "replies_parents")
    then thread_replies_parents
    else if text_beq text (codes "single")
    then thread_single
    else thread_none

-- The title, and the set of parts after it.
unfoldable pub encode_children : Titles → Option Text → XmlList → XmlList
encode_children titles none parts = cons (element (codes "partset") [] [] parts) nil
encode_children titles (some name) parts =
    cons (element (codes "title") [] (titles.set_content (titles.markup_escape name)) nil)
      (cons (element (codes "partset") [] [] parts) nil)

module _ {ℓ} {E : Type ℓ} ⦃c : ElementClass E⦄ ⦃x : ElementXml E⦄ where
  unfoldable pub encode_elements : List E → XmlList
  encode_elements [] = nil
  encode_elements (e ∷ es) = cons (x.xml_encode e) (encode_elements es)

  -- e_filter_part_xml_encode
  unfoldable pub part_xml_encode : FilterPart E → Xml
  part_xml_encode part =
      element (codes "part") ((codes "name", or_empty part.name) ∷ []) []
        (encode_elements part.elements)

  -- The element that e_filter_part_find_element gives is decoded in place.
  unfoldable pub decode_element : Text → Xml → List E → List E
  decode_element name child [] = []
  decode_element name child (e ∷ es) =
      if option_beq (c.name e) (some name)
      then x.xml_decode e child ∷ es
      else e ∷ decode_element name child es

  -- One round of the loop of e_filter_part_xml_decode.
  unfoldable pub decode_value : Xml → List E → List E
  decode_value child es =
      if text_beq (node_name child) (codes "value")
      then elim (get_prop (codes "name") child) [
        | none ↦ es
        | some name ↦ decode_element name child es
      ]
      else es

  unfoldable pub decode_values : XmlList → List E → List E
  decode_values nil es = es
  decode_values (cons child children) es = decode_values children (decode_value child es)

  -- e_filter_part_xml_decode
  unfoldable pub part_xml_decode : Xml → FilterPart E → FilterPart E
  part_xml_decode node part = record part {
    elements = decode_values (node_children node) part.elements;
  }

  unfoldable pub encode_parts : List (ℕ × FilterPart E) → XmlList
  encode_parts [] = nil
  encode_parts ((a, part) ∷ parts) = cons (part_xml_encode part) (encode_parts parts)

  module _ (titles : Titles) where
    -- filter_rule_xml_encode
    unfoldable pub rule_xml_encode : FilterRule E → Xml
    rule_xml_encode rule =
        element (codes "rule")
          ((codes "enabled", bool_text rule.enabled)
              ∷ (codes "grouping", grouping_text rule.grouping)
              ∷ threading_props rule.threading
            ++ (codes "source", source_text rule.source) ∷ [])
          [] (encode_children titles rule.name (encode_parts rule.parts))

    module _ (addresses : ℕ → ℕ) (context : RuleContext E) where
      -- One round of the loop of filter_rule_load_set.
      unfoldable pub load_part : Xml → FilterRule E → FilterRule E
      load_part work rule =
          if text_beq (node_name work) (codes "part")
          then elim (get_prop (codes "name") work) [
            | none ↦ rule
            | some name ↦ elim (find_part name context.parts) [
              | none ↦ rule
              | some p ↦
                  add_part (addresses (length rule.parts)) (part_xml_decode work (part_clone p.1))
                    rule
            ]
          ]
          else rule

      -- filter_rule_load_set
      unfoldable pub load_set : XmlList → FilterRule E → FilterRule E
      load_set nil rule = rule
      load_set (cons work works) rule = load_set works (load_part work rule)

      abbrev pub is_title : Text → Bool
      is_title name = text_beq name (codes "title") || text_beq name (codes "_title")

      -- One round of the loop of filter_rule_xml_decode.
      unfoldable pub decode_child : Xml → FilterRule E → FilterRule E
      decode_child work rule =
          if text_beq (node_name work) (codes "partset")
          then load_set (node_children work) rule
          else if is_title (node_name work)
          then elim rule.name [
            | none ↦ record rule { name = some (titles.gettext (node_content work)) }
            | some name ↦ rule
          ]
          else rule

      unfoldable pub decode_children : XmlList → FilterRule E → FilterRule E
      decode_children nil rule = rule
      decode_children (cons work works) rule = decode_children works (decode_child work rule)

      -- filter_rule_xml_decode, in a context with threading or without; `none` means that it would
      -- read the missing grouping.
      unfoldable pub filter_rule_xml_decode : Bool → Xml → FilterRule E → Option (FilterRule E)
      filter_rule_xml_decode threads node rule = elim (get_prop (codes "grouping") node) [
        | none ↦ none
        | some grouping ↦ some (
            decode_children (node_children node) (record rule {
              name = none;
              enabled = read_enabled (get_prop (codes "enabled") node);
              grouping = read_grouping grouping;
              threading =
                  if threads
                  then read_threading (get_prop (codes "threading") node)
                  else thread_none;
              source = some (source_text (get_prop (codes "source") node));
            }))
      ]

      -- e_filter_rule_xml_decode
      unfoldable pub rule_xml_decode : Bool → Xml → FilterRule E → Option (FilterRule E)
      rule_xml_decode threads node rule =
          elim (filter_rule_xml_decode threads node (record rule { frozen = rule.frozen + 1 })) [
            | none ↦ none
            | some read ↦ some (emit_changed (record read { frozen = read.frozen - 1 }))
          ]
