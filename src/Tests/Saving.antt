-- ===== src/Tests/Saving.antt =====
-- e-util/e-filter-rule.c, e-filter-part.c and e-filter-int.c at a concrete rule that is written as XML
-- and read back, with a title that nothing escapes or translates.
use e_mail_factory.Base.{
  ℕ, suc, ◌≡◌, List, ◌++◌, arith, refl, codes, text_eq, pos, negsuc, true, false, All, [], ◌∷◌,
  none, some, lookup, insert,
}
use e_mail_factory.Filter.{FilterPart, FilterRule, RuleContext, group_any, thread_all}
use e_mail_factory.Filter.Parts.{find_part, part_clone}
use e_mail_factory.Filter.Rules.{rule_eq, rule_new, emit_changed, add_part}
use e_mail_factory.Filter.Ints.{FilterInt, int_class}
use e_mail_factory.Filter.Xml.{Xml, Titles}
use e_mail_factory.Filter.Files.{
  rule_xml_encode, rule_xml_decode, filter_rule_xml_decode, decode_children, encode_children,
  decode_child, load_set, encode_parts, load_part, part_xml_encode, part_xml_decode, decode_values,
  encode_elements, decode_element, decode_value,
}
use e_mail_factory.Filter.Documents.{rule_context_save, load_user}
use e_mail_factory.Filter.Reloading.{IsSavable, eq_rules, user_rules, load_user-rule_context_save}
use e_mail_factory.Filter.IntFiles.{int_xml, int_xml_encode, int_xml_decode}
use e_mail_factory.Filter.Atoi.{atoi, read_digits}
use e_mail_factory.Filter.RoundTrip.{IsKnown, rule_xml_decode-rule_xml_encode}

abbrev slot : FilterInt
slot = record { name = some (codes "size"); type = none; val = pos 0; min = pos 0; max = pos 100 }

abbrev template : FilterPart FilterInt
template = record {
  name = some (codes "size");
  title = none;
  code = some (codes "(> (get-size) ${size})");
  elements = slot ∷ [];
}

abbrev context : RuleContext FilterInt
context = record { parts = (40, template) ∷ []; rules = []; frozen = 0; emitted = [] }

abbrev saved : FilterRule FilterInt
saved = record {
  name = some (codes "big");
  source = some (codes "outgoing");
  grouping = group_any;
  threading = thread_all;
  system = false;
  parts = (50, record template { elements = record slot { val = negsuc 11 } ∷ [] }) ∷ [];
  enabled = false;
  frozen = 0;
  changes = 0;
}

abbrev plain : Titles
plain = record { markup_escape = λ t. t; set_content = λ t. t; gettext = λ t. t }

saved-IsKnown : All (IsKnown context.parts) saved.parts
unfolding find_part
saved-IsKnown = (
  (
    codes "size",
    (40, template),
    refl,
    refl,
    (refl, refl, refl, ((codes "size", ((refl, refl), refl, refl, tt)), tt)),
  ),
  tt,
)

rule_xml_decode-rule_xml_encode_example :
    (out : FilterRule FilterInt) × (rule_xml_decode plain suc context true
        (rule_xml_encode plain saved)
        rule_new
      ≡ some out)
    × (rule_eq out saved ≡ true)
rule_xml_decode-rule_xml_encode_example =
    rule_xml_decode-rule_xml_encode plain suc context saved (codes "big") (codes "outgoing") refl
      refl refl saved-IsKnown

-- The value -12 is read back.
rule_xml_decode_test :
    (elim (rule_xml_decode plain suc context true (rule_xml_encode plain saved) rule_new) [
      | none ↦ []
      | some out ↦ out.parts
    ])
    ≡ (
      suc 0,
      record template {
        elements = record slot { type = some (codes "integer"); val = negsuc 11 } ∷ [];
      },
    )
      ∷ []
unfolding rule_xml_decode filter_rule_xml_decode lookup insert rule_xml_encode emit_changed
    decode_children encode_children decode_child load_set encode_parts load_part part_xml_encode
    find_part add_part part_xml_decode part_clone decode_values encode_elements decode_element
    decode_value int_xml_encode int_xml_decode atoi read_digits
rule_xml_decode_test = refl

-- A rule of the system between two of the user.
abbrev saved_context : RuleContext FilterInt
saved_context = record context {
  rules =
      (1, saved) ∷ (2, record saved { system = true }) ∷ (3, record saved { enabled = true }) ∷ [];
}

abbrev loading : RuleContext FilterInt
loading = record context { rules = (9, record saved { system = true }) ∷ [] }

saved-IsSavable : IsSavable plain context.parts (1, saved)
saved-IsSavable = (codes "big", codes "outgoing", refl, refl, refl, saved-IsKnown)

load_user-rule_context_save_example :
    (document : Xml) × (loaded : RuleContext FilterInt) × (read : List (ℕ × FilterRule FilterInt))
    × (rule_context_save plain (codes "ruleset" ∷ []) saved_context ≡ some document)
    × (load_user plain (λ n. suc) suc true (codes "ruleset" ∷ []) (some document) loading
        ≡ some loaded)
    × (loaded.rules ≡ loading.rules ++ read)
    × (eq_rules plain read (user_rules saved_context.rules) ≡ true)
load_user-rule_context_save_example =
    load_user-rule_context_save plain (λ n. suc) suc (codes "ruleset") saved_context loading
      (
        ((λ e. omega (arith, e)), ((λ e. omega (arith, e)), tt)),
        (((λ e. omega (arith, e)), tt), (tt, tt)),
      )
      (saved-IsSavable, (saved-IsSavable, tt))
