-- ===== src/Filter/Walks.antt =====
-- e-util/e-filter-rule.c and e-util/e-rule-context.c: the loops that ask for the next rule until
-- there is none, as e_rule_context_save and e_rule_context_revert have them.
use mathlib.Core.List.{append_assoc}
use e_mail_factory.Base.{
  ℕ, zero, suc, ◌<◌, ◌≡◌, refl, sym, ◌∙◌, inl, inr, Text, length, if◌then◌else◌, Bool-cases, List,
  [], ◌∷◌, ◌++◌, Option, none, some, arith, next_links, AreDistinct, after_link-middle,
}
use e_mail_factory.Filter.{FilterRule}
use e_mail_factory.Filter.Rules.{is_of_source, first_of_source, next_rule}

module _ {ℓ} {E : Type ℓ} where
  -- The loop, with the rules that it visits, on fuel.
  unfoldable pub visit_rules :
      ℕ → List (ℕ × FilterRule E) → Option ℕ → Option Text → Option (List (ℕ × FilterRule E))
  visit_rules zero rules last source = none
  visit_rules (suc fuel) rules last source = elim (next_rule rules last source) [
    | none ↦ some []
    | some p ↦ elim (visit_rules fuel rules (some p.0) source) [
      | none ↦ none
      | some ps ↦ some (p ∷ ps)
    ]
  ]

  -- The rules of the source, in the order of the list.
  abbrev pub rules_of : Option Text → List (ℕ × FilterRule E) → List (ℕ × FilterRule E)
  rules_of source [] = []
  rules_of source ((a, rule) ∷ rules) =
      if is_of_source source rule then (a, rule) ∷ rules_of source rules else rules_of source rules

  next_rule-middle :
      (rules : List (ℕ × FilterRule E)) (source : Option Text) (a : ℕ) (rule : FilterRule E)
      (before rest : List (ℕ × FilterRule E))
      → AreDistinct (before ++ (a, rule) ∷ rest)
      → rules ≡ before ++ (a, rule) ∷ rest
      → next_rule rules (some a) source ≡ first_of_source source rest
  unfolding next_rule next_links
  next_rule-middle rules source a rule before rest distinct split =
      rw split (rw (after_link-middle a rule before rest distinct) refl)

  visit_rules-rest :
      (fuel : ℕ) (rules : List (ℕ × FilterRule E)) (last : Option ℕ) (source : Option Text)
      (before rest : List (ℕ × FilterRule E))
      → AreDistinct (before ++ rest)
      → rules ≡ before ++ rest
      → next_rule rules last source ≡ first_of_source source rest
      → length rest < fuel
      → visit_rules fuel rules last source ≡ some (rules_of source rest)
  unfolding visit_rules first_of_source
  visit_rules-rest zero rules last source before rest distinct split next enough =
      absurd (omega arith)
  visit_rules-rest (suc fuel) rules last source before [] distinct split next enough =
      rw (next, visit_rules) refl
  visit_rules-rest (suc fuel) rules last source before ((a, rule) ∷ rest) distinct split next
        enough =
      let moved = append_assoc before ((a, rule) ∷ []) rest in
      let visit_after : (fuel : ℕ) (last : Option ℕ)
          → next_rule rules last source ≡ first_of_source source rest
          → length rest < fuel
          → visit_rules fuel rules last source ≡ some (rules_of source rest) =
        λ fuel last next enough.
          visit_rules-rest fuel rules last source (before ++ (a, rule) ∷ []) rest
            (rw moved distinct) (split ∙ sym moved) next enough in
      elim (Bool-cases (is_of_source source rule)) [
        | inl e ↦
            let now : next_rule rules last source ≡ some (a, rule) = next ∙ rw e refl in
            let then_on = next_rule-middle rules source a rule before rest distinct split in
            let others = visit_after fuel (some a) then_on (omega arith) in
            rw (now, visit_rules) (rw (others, visit_rules) (rw e refl))
        | inr e ↦ rw e (visit_after (suc fuel) last (next ∙ rw e refl) (omega arith))
      ]

  -- Asking for the next rule of a source until there is none visits exactly the rules of that source,
  -- each once, in the order of the list, where no rule stands twice in it; and the loop ends.
  pub visit_rules-all :
      (rules : List (ℕ × FilterRule E)) (source : Option Text)
      → AreDistinct rules
      → visit_rules (suc (length rules)) rules none source ≡ some (rules_of source rules)
  unfolding next_rule next_links
  visit_rules-all rules source distinct =
      visit_rules-rest (suc (length rules)) rules none source [] rules distinct refl refl
        (omega arith)
