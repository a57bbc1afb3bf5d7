-- ===== src/Filter/RoundTrip.antt =====
-- e-util/e-filter-rule.c: a whole rule that is written as XML and read back, in a context that has the
-- templates of its parts.
use mathlib.Core.List.{append_assoc, append-nil}
use e_mail_factory.Base.{
  ℕ, ◌-◌, ◌≡◌, refl, sym, ap, ◌∙◌, Text, codes, text_eq, option_beq_iff, nat_beq, nat_beq_iff, Bool,
  true, false, List, [], ◌∷◌, ◌++◌, length, All, Option, none, some, lookup, arith,
}
use e_mail_factory.Filter.{
  ElementClass, FilterPart, FilterRule, Grouping, group_all, group_any, Threading, thread_none,
  thread_all, thread_replies, thread_replies_parents, thread_single, RuleContext,
}
use e_mail_factory.Filter.Parts.{find_part, part_clone, or_empty}
use e_mail_factory.Filter.Rules.{
  emit_changed, add_part, eq_parts, rule_eq, rule_new, threading_code,
}
use e_mail_factory.Filter.Copies.{emit_changed-fields, bool_beq_refl, grouping_beq_refl}
use e_mail_factory.Filter.Xml.{Xml, node_name, node_children, get_prop, Titles}
use e_mail_factory.Filter.Files.{
  ElementXml, part_xml_encode, part_xml_decode, encode_parts, encode_children, rule_xml_encode,
  load_part, load_set, decode_child, decode_children, filter_rule_xml_decode, rule_xml_decode,
  grouping_text, threading_props, bool_text, read_enabled, read_grouping, read_threading,
}
use e_mail_factory.Filter.Restoring.{IsInstance, part_eq-part_xml_decode}

read_enabled-bool_text :
    (enabled : Bool) (rest : List (Text × Text))
    → read_enabled (lookup (codes "enabled") ((codes "enabled", bool_text enabled) ∷ rest))
      ≡ enabled
unfolding lookup
read_enabled-bool_text true rest = refl
read_enabled-bool_text false rest = refl

read_grouping-grouping_text : (g : Grouping) → read_grouping (grouping_text g) ≡ g
read_grouping-grouping_text group_all = refl
read_grouping-grouping_text group_any = refl

-- The threading and the source are found among the attributes that are written.
read_threading-threading_props :
    (t : Threading) (source : Text)
    → let props = threading_props t ++ (codes "source", source) ∷ [] in
      (read_threading (lookup (codes "threading") props) ≡ t)
      × (lookup (codes "source") props ≡ some source)
unfolding lookup
read_threading-threading_props thread_none source = (refl, refl)
read_threading-threading_props thread_all source = (refl, refl)
read_threading-threading_props thread_replies source = (refl, refl)
read_threading-threading_props thread_replies_parents source = (refl, refl)
read_threading-threading_props thread_single source = (refl, refl)

module _ {ℓ} {E : Type ℓ} ⦃c : ElementClass E⦄ ⦃x : ElementXml E⦄ where
  -- The template of the part is among these, under its name.
  abbrev pub IsKnown : List (ℕ × FilterPart E) → ℕ × FilterPart E → Type ℓ
  IsKnown templates part =
      (name : Text) × (template : ℕ × FilterPart E) × (part.1.name ≡ some name)
      × (find_part name templates ≡ some template)
      × IsInstance template.1 part.1

  get_prop-part_xml_encode :
      (part : FilterPart E) (name : Text)
      → part.name ≡ some name
      → (get_prop (codes "name") (part_xml_encode part) ≡ some name)
        × (node_name (part_xml_encode part) ≡ codes "part")
  unfolding part_xml_encode lookup
  get_prop-part_xml_encode part name named = (ap (λ n. some (or_empty n)) named, refl)

  module _ (titles : Titles) (addresses : ℕ → ℕ) (context : RuleContext E) where
    load_part-known :
        (work : Xml) (rule : FilterRule E) (name : Text) (template : ℕ × FilterPart E)
        → node_name work ≡ codes "part"
        → get_prop (codes "name") work ≡ some name
        → nat_beq rule.frozen 0 ≡ false
        → find_part name context.parts ≡ some template
        → load_part titles addresses context work rule ≡ record rule {
          parts =
              rule.parts
              ++ (addresses (length rule.parts), part_xml_decode work (part_clone template.1)) ∷ [];
        }
    unfolding load_part add_part emit_changed
    load_part-known work rule name template kind named frozen found =
        rw (kind) (rw (named) (rw (found) (rw (frozen) refl)))

    load_set-known :
        (parts : List (ℕ × FilterPart E)) (rule : FilterRule E)
        → nat_beq rule.frozen 0 ≡ false
        → All (IsKnown context.parts) parts
        → (read : List (ℕ × FilterPart E)) × (load_set titles addresses context
              (encode_parts parts)
              rule
            ≡ record rule { parts = rule.parts ++ read })
          × (eq_parts read parts ≡ true)
    unfolding load_set encode_parts eq_parts
    load_set-known [] rule frozen known = (
      [],
      ap (λ (ps : List (ℕ × FilterPart E)). record rule { parts = ps })
          (sym (append-nil rule.parts)),
      refl,
    )
    load_set-known ((a, part) ∷ parts) rule frozen ((name, template, named, found, made), known) =
        let work = part_xml_encode part in
        let own : ℕ × FilterPart E =
          (addresses (length rule.parts), part_xml_decode work (part_clone template.1)) in
        let encoded = get_prop-part_xml_encode part name named in
        let step = load_part-known work rule name template (encoded.1) (encoded.0) frozen found in
        let (read, reads, same) =
          load_set-known parts (record rule { parts = rule.parts ++ own ∷ [] }) frozen known in
        (
          own ∷ read,
          rw (step, load_set, encode_parts)
              (reads
                ∙ ap (λ (ps : List (ℕ × FilterPart E)). record rule { parts = ps })
                    (append_assoc rule.parts (own ∷ []) read)),
          ground (arith, same, part_eq-part_xml_decode template.1 part made),
        )

    -- The attributes of a rule are read as they were written.
    filter_rule_xml_decode-attributes :
        (rule start : FilterRule E) (source : Text)
        → rule.source ≡ some source
        → let node = rule_xml_encode titles rule in
          filter_rule_xml_decode titles addresses context true node start
          ≡ some (
              decode_children titles addresses context (node_children node) (record start {
                name = none;
                enabled = rule.enabled;
                grouping = rule.grouping;
                threading = rule.threading;
                source = some source;
              }))
    unfolding filter_rule_xml_decode rule_xml_encode lookup
    filter_rule_xml_decode-attributes rule start source named =
        let threaded = read_threading-threading_props rule.threading source in
        rw (named) (
          rw (read_enabled-bool_text rule.enabled []) (
            rw (read_grouping-grouping_text rule.grouping)
              (rw (threaded.0) (rw (threaded.1) refl))))

    -- The title and the parts of a rule are read as they were written.
    decode_children-encoded :
        (rule start : FilterRule E) (name : Text)
        → rule.name ≡ some name
        → titles.gettext (titles.set_content (titles.markup_escape name)) ≡ name
        → nat_beq start.frozen 0 ≡ false
        → start.name ≡ none
        → All (IsKnown context.parts) rule.parts
        → (read : List (ℕ × FilterPart E)) × (decode_children titles addresses context
              (node_children (rule_xml_encode titles rule))
              start
            ≡ record start { name = some name; parts = start.parts ++ read })
          × (eq_parts read rule.parts ≡ true)
    unfolding decode_children decode_child rule_xml_encode encode_children
    decode_children-encoded rule start name named kept frozen fresh known =
        let (read, reads, same) =
          load_set-known rule.parts (record start { name = some name }) frozen known in
        (read, rw (named) (rw (fresh) (rw (kept) reads)), same)

    -- A rule that has a name and a source is written as XML and read into a new rule, in a context that
    -- knows the templates of its parts and has threading, where the name survives escaping and
    -- translation: reading succeeds, and the new rule is equal to the one that was written, of the same
    -- threading and the same parts.
    pub rule_xml_decode-rule_xml_encode :
        (rule : FilterRule E) (name source : Text)
        → rule.name ≡ some name
        → rule.source ≡ some source
        → titles.gettext (titles.set_content (titles.markup_escape name)) ≡ name
        → All (IsKnown context.parts) rule.parts
        → (out : FilterRule E) × (rule_xml_decode titles addresses context true
              (rule_xml_encode titles rule)
              rule_new
            ≡ some out)
          × (rule_eq out rule ≡ true)
    unfolding rule_xml_decode rule_eq
    rule_xml_decode-rule_xml_encode rule name source named sourced kept known =
        let finish : Option (FilterRule E) → Option (FilterRule E) = λ r. elim r [
          | none ↦ none
          | some read ↦ some (emit_changed (record read { frozen = read.frozen - 1 }))
        ] in
        let start : FilterRule E = record rule_new {
          frozen = 1;
          enabled = rule.enabled;
          grouping = rule.grouping;
          threading = rule.threading;
          source = some source;
        } in
        let (read, reads, same) =
          decode_children-encoded rule start name named kept refl refl known in
        let out : FilterRule E = record start { name = some name; parts = read; frozen = 0 } in
        (
          emit_changed out,
          ap finish (
              filter_rule_xml_decode-attributes rule (record rule_new { frozen = 1 }) source sourced
              ∙ ap some reads),
          emit_changed-fields (λ r. rule_eq r rule ≡ true) out
              λ n. ground (
                arith,
                bool_beq_refl rule.enabled,
                grouping_beq_refl rule.grouping,
                nat_beq_iff (threading_code rule.threading) (threading_code rule.threading),
                (option_beq_iff (some name) rule.name).1 (sym named),
                (option_beq_iff (some source) rule.source).1 (sym sourced),
                same,
              ),
        )
