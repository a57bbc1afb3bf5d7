-- ===== src/Filter/Ranks.antt =====
-- e-util/e-rule-context.c: e_rule_context_rank_rule, e_rule_context_get_rank_rule and
-- e_rule_context_find_rank_rule together.
use e_mail_factory.Base.{
  ℕ, suc, ◌+◌, ◌≤◌, ◌≡◌, refl, inl, inr, Text, pos, int_beq, int_beq_iff, nat_beq_iff, leb,
  if◌then◌else◌, true, Bool-cases, List, [], ◌∷◌, ◌++◌, Option, some, arith, g_list_remove,
  IsAbsent,
}
use e_mail_factory.Filter.{FilterRule, RuleContext}
use e_mail_factory.Filter.Rules.{is_of_source}
use e_mail_factory.Filter.Contexts.{
  emit_unfrozen, next_rank, rank_from, get_rank_rule, find_rank_from, find_rank_rule,
  insert_at_rank, rank_rule,
}

abbrev pub at_most : ℕ → ℕ → ℕ
at_most k n = if leb k n then k else n

module _ {ℓ} {E : Type ℓ} where
  -- The number of rules of the source.
  abbrev pub count : Option Text → List (ℕ × FilterRule E) → ℕ
  count source [] = 0
  count source ((a, rule) ∷ rules) = next_rank source rule (count source rules)

  rank_from-insert_at_rank :
      (i k a : ℕ) (rule : FilterRule E) (source : Option Text) (rules : List (ℕ × FilterRule E))
      → i ≤ k
      → IsAbsent a rules
      → rank_from i (insert_at_rank i rules (a, rule) source (pos k)) a source
        ≡ pos (at_most k (count source rules + i))
  unfolding rank_from insert_at_rank
  rank_from-insert_at_rank i k a rule source [] le absent = ground (arith, nat_beq_iff a a)
  rank_from-insert_at_rank i k a rule source ((b, other) ∷ rules) le absent =
      elim (Bool-cases (is_of_source source other)) [
        | inl e ↦
            let rest = rank_from-insert_at_rank (suc i) k a rule source rules in
            rw e (ground (arith, nat_beq_iff a a, nat_beq_iff b a, absent.0, absent.1, rest))
        | inr e ↦
            let rest = rank_from-insert_at_rank i k a rule source rules in
            rw e (ground (arith, nat_beq_iff a a, nat_beq_iff b a, absent.0, absent.1, rest))
      ]

  g_list_remove-insert_at_rank :
      (i k a : ℕ) (rule : FilterRule E) (source : Option Text) (rules : List (ℕ × FilterRule E))
      → IsAbsent a rules
      → g_list_remove a (insert_at_rank i rules (a, rule) source (pos k)) ≡ rules
  unfolding g_list_remove insert_at_rank
  g_list_remove-insert_at_rank i k a rule source [] absent = ground (arith, nat_beq_iff a a)
  g_list_remove-insert_at_rank i k a rule source ((b, other) ∷ rules) absent =
      let rest =
        g_list_remove-insert_at_rank (next_rank source other i) k a rule source rules absent.1 in
      ground (arith, nat_beq_iff a a, nat_beq_iff b a, absent.0, rest)

  rank_from_bounded :
      (i k a : ℕ) (source : Option Text) (rules : List (ℕ × FilterRule E))
      → rank_from i rules a source ≡ pos k
      → (i ≤ k) × (k ≤ count source (g_list_remove a rules) + i)
  unfolding rank_from g_list_remove
  rank_from_bounded i k a source [] h = ground arith
  rank_from_bounded i k a source ((b, other) ∷ rules) h =
      ground (arith, rank_from_bounded (next_rank source other i) k a source rules)

  rank_rule-list :
      (k a : ℕ) (rule : FilterRule E) (source : Option Text) (context : RuleContext E)
      → (rank_rule (a, rule) source (pos k) context).rules ≡ (
          if int_beq (get_rank_rule context.rules a source) (pos k)
          then context.rules
          else insert_at_rank 0 (g_list_remove a context.rules) (a, rule) source (pos k))
  unfolding rank_rule emit_unfrozen
  rank_rule-list k a rule source context = ground arith

  -- Ranking a rule that stands at most once in the list gives it the rank asked for, or the last one
  -- if there are too few rules of the source; the other rules keep their order.
  pub rank_rule-ranks :
      (k a : ℕ) (rule : FilterRule E) (source : Option Text) (context : RuleContext E)
      → let others = g_list_remove a context.rules in
        let ranked = (rank_rule (a, rule) source (pos k) context).rules in
        IsAbsent a others
        → (get_rank_rule ranked a source ≡ pos (at_most k (count source others)))
          × (g_list_remove a ranked ≡ others)
  unfolding get_rank_rule
  rank_rule-ranks k a rule source context absent =
      let others = g_list_remove a context.rules in
      rw (rank_rule-list k a rule source context)
        (elim (Bool-cases (int_beq (get_rank_rule context.rules a source) (pos k))) [
          | inl e ↦
              let same = (int_beq_iff (rank_from 0 context.rules a source) (pos k)).0 e in
              let bound = rank_from_bounded 0 k a source context.rules same in
              rw e (ground (arith, same, bound), refl)
          | inr e ↦
              let rank = rank_from-insert_at_rank 0 k a rule source others (omega arith) absent in
              rw e
                (ground (arith, rank), g_list_remove-insert_at_rank 0 k a rule source others absent)
        ])

  find_rank_from-rank_from :
      (i a : ℕ) (rule : FilterRule E) (source : Option Text)
      (before after : List (ℕ × FilterRule E))
      → is_of_source source rule ≡ true
      → IsAbsent a before
      → (k : ℕ) × (rank_from i (before ++ (a, rule) ∷ after) a source ≡ pos k)
        × (i ≤ k)
        × (find_rank_from i (before ++ (a, rule) ∷ after) (pos k) source ≡ some (a, rule))
  unfolding rank_from find_rank_from
  find_rank_from-rank_from i a rule source [] after of absent =
      (i, ground (arith, nat_beq_iff a a), omega arith, rw of (ground (arith, nat_beq_iff i i)))
  find_rank_from-rank_from i a rule source ((b, other) ∷ before) after of absent =
      let (k, rank, le, found) =
        find_rank_from-rank_from (next_rank source other i) a rule source before after of
          absent.1 in
      (
        k,
        ground (arith, nat_beq_iff b a, absent.0, rank),
        ground (arith, le),
        ground (arith, nat_beq_iff k i, le, found),
      )

  -- The rule at the rank of a rule is that rule, if it is of the source and stands once in the list.
  pub find_rank_rule-get_rank_rule :
      (a : ℕ) (rule : FilterRule E) (source : Option Text) (before after : List (ℕ × FilterRule E))
      → is_of_source source rule ≡ true
      → IsAbsent a before
      → let rules = before ++ (a, rule) ∷ after in
        find_rank_rule rules (get_rank_rule rules a source) source ≡ some (a, rule)
  unfolding find_rank_rule get_rank_rule
  find_rank_rule-get_rank_rule a rule source before after of absent =
      let (k, rank, le, found) = find_rank_from-rank_from 0 a rule source before after of absent in
      rw rank found
