-- ===== src/Filter/Editing.antt =====
-- e-util/e-filter-rule.c and e-util/e-rule-context.c: parts of a rule and rules of a context are
-- added, taken out and replaced.
use e_mail_factory.Base.{
  ℕ, ◌≡◌, refl, ap, ◌∙◌, inl, inr, nat_beq, nat_beq_iff, if◌then◌else◌, Bool-cases, List, [], ◌∷◌,
  ◌++◌, arith, g_list_remove, IsAbsent,
}
use e_mail_factory.Filter.{FilterPart, FilterRule, RuleContext, rule_added, rule_removed, changed}
use e_mail_factory.Filter.Rules.{emit_changed, add_part, remove_part, replace_link, replace_part}
use e_mail_factory.Filter.Contexts.{emit_unfrozen, add_rule, remove_rule}

g_list_remove-last {ℓ} :
    {A : Type ℓ} (a : ℕ) (x : A) (xs : List (ℕ × A))
    → IsAbsent a xs
    → g_list_remove a (xs ++ (a, x) ∷ []) ≡ xs
unfolding g_list_remove
g_list_remove-last a x [] absent = ground (arith, nat_beq_iff a a)
g_list_remove-last a x ((b, y) ∷ xs) absent =
    ground (arith, nat_beq_iff b a, absent.0, g_list_remove-last a x xs absent.1)

module _ {ℓ} {E : Type ℓ} where
  replace_link-middle :
      (a : ℕ) (part : FilterPart E) (new : ℕ × FilterPart E)
      (before after : List (ℕ × FilterPart E))
      → IsAbsent a before
      → replace_link a new (before ++ (a, part) ∷ after) ≡ before ++ new ∷ after
  unfolding replace_link
  replace_link-middle a part new [] after absent = ground (arith, nat_beq_iff a a)
  replace_link-middle a part new ((b, other) ∷ before) after absent =
      ground
        (arith, nat_beq_iff b a, absent.0, replace_link-middle a part new before after absent.1)

  replace_link-absent :
      (a : ℕ) (new : ℕ × FilterPart E) (parts : List (ℕ × FilterPart E))
      → IsAbsent a parts
      → replace_link a new parts ≡ parts ++ new ∷ []
  unfolding replace_link
  replace_link-absent a new [] absent = refl
  replace_link-absent a new ((b, other) ∷ parts) absent =
      ground (arith, nat_beq_iff b a, absent.0, replace_link-absent a new parts absent.1)

  emit_changed-parts : (rule : FilterRule E) → (emit_changed rule).parts ≡ rule.parts
  unfolding emit_changed
  emit_changed-parts rule = ground arith

  -- A part that was added and is removed again leaves the parts as they were; a part that replaces
  -- another stands at its place, and at the end if the other is not there.
  remove_part-add_part :
      (a : ℕ) (part : FilterPart E) (rule : FilterRule E) (new : ℕ × FilterPart E)
      (before after : List (ℕ × FilterPart E))
      → IsAbsent a rule.parts
      → IsAbsent a before
      → ((remove_part a (add_part a part rule)).parts ≡ rule.parts)
        × ((replace_part a new rule).parts ≡ rule.parts ++ new ∷ [])
        × ((replace_part a new (record rule { parts = before ++ (a, part) ∷ after })).parts
            ≡ before ++ new ∷ after)
  unfolding remove_part add_part replace_part
  remove_part-add_part a part rule new before after absent first = (
    emit_changed-parts _
        ∙ ap (g_list_remove a) (emit_changed-parts _)
        ∙ g_list_remove-last a part rule.parts absent,
    emit_changed-parts _ ∙ replace_link-absent a new rule.parts absent,
    emit_changed-parts _ ∙ replace_link-middle a part new before after first,
  )

  -- A rule that was added and is removed again leaves the rules as they were, and both are announced,
  -- each followed by a change, unless the context is frozen.
  remove_rule-add_rule :
      (a : ℕ) (rule : FilterRule E) (context : RuleContext E)
      → IsAbsent a context.rules
      → let after = remove_rule a (add_rule a rule context) in
        (after.rules ≡ context.rules)
        × (after.emitted ≡ (
            if nat_beq context.frozen 0
            then (context.emitted ++ rule_added a ∷ changed ∷ []) ++ rule_removed a ∷ changed ∷ []
            else context.emitted))
  unfolding remove_rule add_rule emit_unfrozen
  remove_rule-add_rule a rule context absent =
      let restored = g_list_remove-last a rule context.rules absent in
      elim (Bool-cases (nat_beq context.frozen 0)) [
        | inl e ↦ (ground (arith, e, restored), ground (arith, e))
        | inr e ↦ (ground (arith, e, restored), ground (arith, e))
      ]
