-- ===== src/Filter/Contexts.antt =====
-- e-util/e-rule-context.c: the parts and rules of a context, and the rank of a rule among those of
-- its source.
use e_mail_factory.Base.{
  ℕ, suc, Text, ℤ, pos, negsuc, int_beq, nat_beq, if◌then◌else◌, List, [], ◌∷◌, ◌++◌, Option, none,
  some, g_list_remove,
}
use e_mail_factory.Filter.{
  ElementClass, FilterPart, FilterRule, ContextSignal, rule_added, rule_removed, changed,
  RuleContext,
}
use e_mail_factory.Filter.Parts.{find_part, part_clone}
use e_mail_factory.Filter.Rules.{is_of_source}

module _ {ℓ} {E : Type ℓ} where
  -- g_signal_emit, unless the context is frozen
  unfoldable pub emit_unfrozen : List ContextSignal → RuleContext E → RuleContext E
  emit_unfrozen xs context =
      if nat_beq context.frozen 0
      then record context { emitted = context.emitted ++ xs }
      else context

  -- e_rule_context_add_part
  unfoldable pub context_add_part : ℕ → FilterPart E → RuleContext E → RuleContext E
  context_add_part a part context = record context { parts = context.parts ++ (a, part) ∷ [] }

  -- e_rule_context_add_rule
  unfoldable pub add_rule : ℕ → FilterRule E → RuleContext E → RuleContext E
  add_rule a rule context =
      emit_unfrozen (rule_added a ∷ changed ∷ [])
        (record context { rules = context.rules ++ (a, rule) ∷ [] })

  -- e_rule_context_remove_rule
  unfoldable pub remove_rule : ℕ → RuleContext E → RuleContext E
  remove_rule a context =
      emit_unfrozen (rule_removed a ∷ changed ∷ [])
        (record context { rules = g_list_remove a context.rules })

  -- How far one rule moves the rank `i` on.
  abbrev pub next_rank : Option Text → FilterRule E → ℕ → ℕ
  next_rank source rule i = if is_of_source source rule then suc i else i

  -- The loop of e_rule_context_get_rank_rule.
  unfoldable pub rank_from : ℕ → List (ℕ × FilterRule E) → ℕ → Option Text → ℤ
  rank_from i [] a source = negsuc 0
  rank_from i ((b, rule) ∷ rules) a source =
      if nat_beq b a then pos i else rank_from (next_rank source rule i) rules a source

  -- e_rule_context_get_rank_rule
  unfoldable pub get_rank_rule : List (ℕ × FilterRule E) → ℕ → Option Text → ℤ
  get_rank_rule rules a source = rank_from 0 rules a source

  unfoldable pub find_rank_from :
      ℕ → List (ℕ × FilterRule E) → ℤ → Option Text → Option (ℕ × FilterRule E)
  find_rank_from i [] rank source = none
  find_rank_from i ((b, rule) ∷ rules) rank source =
      if is_of_source source rule
      then if int_beq rank (pos i) then some (b, rule) else find_rank_from (suc i) rules rank source
      else find_rank_from i rules rank source

  -- e_rule_context_find_rank_rule
  unfoldable pub find_rank_rule :
      List (ℕ × FilterRule E) → ℤ → Option Text → Option (ℕ × FilterRule E)
  find_rank_rule rules rank source = find_rank_from 0 rules rank source

  -- The loop of e_rule_context_rank_rule: the rule goes before the link at which `i` is the rank,
  -- and to the end if there is none.
  unfoldable pub insert_at_rank :
      ℕ → List (ℕ × FilterRule E) → ℕ × FilterRule E → Option Text → ℤ → List (ℕ × FilterRule E)
  insert_at_rank i [] new source rank = new ∷ []
  insert_at_rank i ((b, rule) ∷ rules) new source rank =
      if int_beq (pos i) rank
      then new ∷ (b, rule) ∷ rules
      else (b, rule) ∷ insert_at_rank (next_rank source rule i) rules new source rank

  -- e_rule_context_rank_rule, for the rule at the given address
  unfoldable pub rank_rule : ℕ × FilterRule E → Option Text → ℤ → RuleContext E → RuleContext E
  rank_rule (a, rule) source rank context =
      if int_beq (get_rank_rule context.rules a source) rank
      then context
      else emit_unfrozen (changed ∷ []) (record context {
        rules = insert_at_rank 0 (g_list_remove a context.rules) (a, rule) source rank;
      })

module _ {ℓ} {E : Type ℓ} ⦃c : ElementClass E⦄ where
  -- e_rule_context_create_part, with e_rule_context_find_part
  unfoldable pub create_part : Text → RuleContext E → Option (FilterPart E)
  create_part name context = elim (find_part name context.parts) [
    | none ↦ none
    | some p ↦ some (part_clone p.1)
  ]
