-- ===== src/Filter/Reloading.antt =====
-- e-util/e-rule-context.c: the rules of a context that are written by e_rule_context_save and read by
-- e_rule_context_load.
use mathlib.Core.List.{append_assoc, append-nil}
use e_mail_factory.Base.{
  ℕ, ◌≡◌, refl, sym, ap, ◌∙◌, subst, Text, codes, text_eq, text_beq_iff, if◌then◌else◌, Bool, true,
  false, ◌&&◌, List, [], ◌∷◌, ◌++◌, length, All, none, some, arith, AreDistinct,
}
use e_mail_factory.Filter.{ElementClass, FilterPart, FilterRule, RuleContext}
use e_mail_factory.Filter.Rules.{rule_eq}
use e_mail_factory.Filter.Contexts.{add_rule, emit_unfrozen}
use e_mail_factory.Filter.Walks.{visit_rules-all, rules_of}
use e_mail_factory.Filter.Xml.{Xml, element, XmlList, nil, cons, node_name, Titles}
use e_mail_factory.Filter.Files.{ElementXml, rule_xml_encode}
use e_mail_factory.Filter.RoundTrip.{IsKnown, rule_xml_decode-rule_xml_encode}
use e_mail_factory.Filter.Documents.{
  encode_rules, encode_sets, rule_context_save, load_rule, load_rules, load_sets, load_user,
}

module _ {ℓ} {E : Type ℓ} where
  -- The rules that do not belong to the system.
  abbrev pub user_rules : List (ℕ × FilterRule E) → List (ℕ × FilterRule E)
  user_rules [] = []
  user_rules ((a, rule) ∷ rules) =
      let rest = user_rules rules in if rule.system then rest else (a, rule) ∷ rest

  rules_of-none : (rules : List (ℕ × FilterRule E)) → rules_of none rules ≡ rules
  rules_of-none [] = refl
  rules_of-none ((a, rule) ∷ rules) = rw (rules_of-none rules) refl

  add_rule-fields :
      (a : ℕ) (rule : FilterRule E) (context : RuleContext E)
      → ((add_rule a rule context).parts ≡ context.parts)
        × ((add_rule a rule context).rules ≡ context.rules ++ (a, rule) ∷ [])
  unfolding add_rule emit_unfrozen
  add_rule-fields a rule context = (ground arith, ground arith)

module _ {ℓ} {E : Type ℓ} ⦃c : ElementClass E⦄ ⦃x : ElementXml E⦄ (titles : Titles) where
  -- The rule has a name, which survives escaping and translation, and a source, and the templates of
  -- its parts are among these.
  abbrev pub IsSavable : List (ℕ × FilterPart E) → ℕ × FilterRule E → Type ℓ
  IsSavable templates rule =
      (name : Text) × (source : Text) × (rule.1.name ≡ some name)
      × (rule.1.source ≡ some source)
      × (titles.gettext (titles.set_content (titles.markup_escape name)) ≡ name)
      × All (IsKnown templates) rule.1.parts

  -- The rules are equal in pairs, in their order.
  abbrev pub eq_rules : List (ℕ × FilterRule E) → List (ℕ × FilterRule E) → Bool
  eq_rules [] [] = true
  eq_rules [] (_ ∷ _) = false
  eq_rules (_ ∷ _) [] = false
  eq_rules ((a, p) ∷ ps) ((b, q) ∷ qs) = rule_eq p q && eq_rules ps qs

  encode_all : List (ℕ × FilterRule E) → XmlList
  encode_all [] = nil
  encode_all ((a, rule) ∷ rules) = cons (rule_xml_encode titles rule) (encode_all rules)

  encode_rules-user_rules :
      (rules : List (ℕ × FilterRule E)) → encode_rules titles rules ≡ encode_all (user_rules rules)
  unfolding encode_rules encode_all
  encode_rules-user_rules [] = refl
  encode_rules-user_rules ((a, rule) ∷ rules) = ground (arith, encode_rules-user_rules rules)

  node_name-rule_xml_encode :
      (rule : FilterRule E) → node_name (rule_xml_encode titles rule) ≡ codes "rule"
  unfolding rule_xml_encode
  node_name-rule_xml_encode rule = refl

  -- The document of a context with one set.
  rule_context_save-single :
      (set : Text) (saved : RuleContext E)
      → AreDistinct saved.rules
      → rule_context_save titles (set ∷ []) saved
        ≡ some (
            element
              (codes "filteroptions")
              []
              []
              (cons (element set [] [] (encode_rules titles saved.rules)) nil))
  unfolding rule_context_save encode_sets
  rule_context_save-single set saved distinct =
      let visits =
        visit_rules-all saved.rules none distinct ∙ ap some (rules_of-none saved.rules) in
      rw (visits, rule_context_save, encode_sets) refl

  module _ (part_addresses : ℕ → ℕ → ℕ) (rule_addresses : ℕ → ℕ) where
    load_rule-encoded :
        (rule : ℕ × FilterRule E) (context : RuleContext E)
        → IsSavable context.parts rule
        → (read : FilterRule E) × (load_rule titles part_addresses rule_addresses true
              (rule_xml_encode titles rule.1)
              context
            ≡ some (add_rule (rule_addresses (length context.rules)) read context))
          × (rule_eq read rule.1 ≡ true)
    unfolding load_rule
    load_rule-encoded (a, rule) context (name, source, named, sourced, kept, known) =
        let (read, reads, same) =
          rule_xml_decode-rule_xml_encode titles (part_addresses (length context.rules)) context
            rule name source named sourced kept known in
        (read, rw (node_name-rule_xml_encode rule) (rw (reads) refl), same)

    load_rules-encoded :
        (templates : List (ℕ × FilterPart E)) (rules : List (ℕ × FilterRule E))
        (context : RuleContext E)
        → context.parts ≡ templates
        → All (IsSavable templates) rules
        → (loaded : RuleContext E) × (read : List (ℕ × FilterRule E)) × (load_rules titles
              part_addresses rule_addresses true
              (encode_all rules)
              context
            ≡ some loaded)
          × (loaded.rules ≡ context.rules ++ read)
          × (eq_rules read rules ≡ true)
    unfolding load_rules encode_all
    load_rules-encoded templates [] context same savable =
        (context, [], refl, sym (append-nil context.rules), refl)
    load_rules-encoded templates (rule ∷ rules) context same (here, savable) =
        let (own, loads, equal) =
          load_rule-encoded rule context
            (subst (λ (ps : List (ℕ × FilterPart E)). IsSavable ps rule) (sym same) here) in
        let address = rule_addresses (length context.rules) in
        let fields = add_rule-fields address own context in
        let (loaded, read, rest, lists, equals) =
          load_rules-encoded templates rules (add_rule address own context) (fields.0 ∙ same)
            savable in
        let first : ℕ × FilterRule E = (address, own) in
        (
          loaded,
          first ∷ read,
          rw (loads, load_rules, encode_all) rest,
          lists
              ∙ ap (λ (rs : List (ℕ × FilterRule E)). rs ++ read) (fields.1)
              ∙ append_assoc context.rules (first ∷ []) read,
          ground (arith, equal, equals),
        )

    load_sets-single :
        (set : Text) (rules : XmlList) (context loaded : RuleContext E)
        → load_rules titles part_addresses rule_addresses true rules context ≡ some loaded
        → load_user titles part_addresses rule_addresses true
            (set ∷ [])
            (some (element (codes "filteroptions") [] [] (cons (element set [] [] rules) nil)))
            context
          ≡ some loaded
    unfolding load_user load_sets
    load_sets-single set rules context loaded loads =
        rw ((text_beq_iff set set).1 refl) (rw (loads) refl)

    -- The rules of a context with one set, no rule twice in it, are written and read by a context that
    -- has the templates of their parts and threading: both succeed, and behind the rules that the
    -- reading context had stand rules equal to those that are not of the system, in their order. Each
    -- of these has to have a source and a name that escaping and translation keep.
    pub load_user-rule_context_save :
        (set : Text) (saved start : RuleContext E)
        → AreDistinct saved.rules
        → All (IsSavable start.parts) (user_rules saved.rules)
        → (document : Xml) × (loaded : RuleContext E) × (read : List (ℕ × FilterRule E))
          × (rule_context_save titles (set ∷ []) saved ≡ some document)
          × (load_user titles part_addresses rule_addresses true (set ∷ []) (some document) start
              ≡ some loaded)
          × (loaded.rules ≡ start.rules ++ read)
          × (eq_rules read (user_rules saved.rules) ≡ true)
    load_user-rule_context_save set saved start distinct savable =
        let (loaded, read, loads, lists, equals) =
          load_rules-encoded start.parts (user_rules saved.rules) start refl savable in
        let nodes = encode_rules titles saved.rules in
        let written =
          ap (λ (ns : XmlList). load_rules titles part_addresses rule_addresses true ns start)
            (encode_rules-user_rules saved.rules) in
        (
          element (codes "filteroptions") [] [] (cons (element set [] [] nodes) nil),
          loaded,
          read,
          rule_context_save-single set saved distinct,
          load_sets-single set nodes start loaded (written ∙ loads),
          lists,
          equals,
        )
