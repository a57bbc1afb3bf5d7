-- ===== src/Filter/Documents.antt =====
-- e-util/e-rule-context.c: the rules of a context as a document, for contexts whose sets are all kept by
-- e_rule_context_add_rule and e_rule_context_next_rule. Reading and writing the file is left to
-- e_xml_parse_file and e_xml_save_file.
use e_mail_factory.Base.{
  ℕ, suc, Text, codes, text_eq, text_beq, if◌then◌else◌, Bool, false, ◌||◌, List, [], ◌∷◌, length,
  Option, none, some,
}
use e_mail_factory.Filter.{ElementClass, FilterRule, RuleContext}
use e_mail_factory.Filter.Rules.{rule_new}
use e_mail_factory.Filter.Contexts.{add_rule}
use e_mail_factory.Filter.Walks.{visit_rules}
use e_mail_factory.Filter.Xml.{Xml, element, XmlList, nil, cons, node_name, node_children, Titles}
use e_mail_factory.Filter.Files.{ElementXml, rule_xml_encode, rule_xml_decode}

-- Whether a set of this name is in the table of the sets.
abbrev pub has_set : Text → List Text → Bool
has_set name [] = false
has_set name (set ∷ sets) = text_beq set name || has_set name sets

module _ {ℓ} {E : Type ℓ} ⦃c : ElementClass E⦄ ⦃x : ElementXml E⦄ (titles : Titles) where
  -- The rules that are written, those of the system left out.
  unfoldable pub encode_rules : List (ℕ × FilterRule E) → XmlList
  encode_rules [] = nil
  encode_rules ((a, rule) ∷ rules) =
      let rest = encode_rules rules in
      if rule.system then rest else cons (rule_xml_encode titles rule) rest

  -- The sets of the document; `none` means that the loop over the rules would not end.
  unfoldable pub encode_sets : List (ℕ × FilterRule E) → List Text → Option XmlList
  encode_sets rules [] = some nil
  encode_sets rules (set ∷ sets) = elim (visit_rules (suc (length rules)) rules none none) [
    | none ↦ none
    | some visited ↦ elim (encode_sets rules sets) [
      | none ↦ none
      | some rest ↦ some (cons (element set [] [] (encode_rules visited)) rest)
    ]
  ]

  -- rule_context_save, up to the file: the document
  unfoldable pub rule_context_save : List Text → RuleContext E → Option Xml
  rule_context_save sets context = elim (encode_sets context.rules sets) [
    | none ↦ none
    | some children ↦ some (element (codes "filteroptions") [] [] children)
  ]

  module _ (part_addresses : ℕ → ℕ → ℕ) (rule_addresses : ℕ → ℕ) (threads : Bool) where
    -- One round of the inner loop of rule_context_load; `none` means that it reads a missing attribute.
    unfoldable pub load_rule : Xml → RuleContext E → Option (RuleContext E)
    load_rule node context =
        if text_beq (node_name node) (codes "rule")
        then elim (rule_xml_decode titles (part_addresses (length context.rules)) context threads
            node rule_new) [
              | none ↦ none
              | some rule ↦ some (add_rule (rule_addresses (length context.rules)) rule context)
            ]
        else some context

    unfoldable pub load_rules : XmlList → RuleContext E → Option (RuleContext E)
    load_rules nil context = some context
    load_rules (cons node nodes) context = elim (load_rule node context) [
      | none ↦ none
      | some loaded ↦ load_rules nodes loaded
    ]

    -- The loop over the sets of the user's document in rule_context_load.
    unfoldable pub load_sets : List Text → XmlList → RuleContext E → Option (RuleContext E)
    load_sets sets nil context = some context
    load_sets sets (cons set nodes) context =
        if has_set (node_name set) sets
        then elim (load_rules (node_children set) context) [
          | none ↦ none
          | some loaded ↦ load_sets sets nodes loaded
        ]
        else load_sets sets nodes context

    -- The part of rule_context_load that reads the user's document, if there is one.
    unfoldable pub load_user : List Text → Option Xml → RuleContext E → Option (RuleContext E)
    load_user sets none context = some context
    load_user sets (some root) context = load_sets sets (node_children root) context
