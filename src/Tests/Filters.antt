-- ===== src/Tests/Filters.antt =====
-- e-util/e-rule-context.c, e-filter-rule.c, e-filter-part.c and e-filter-int.c at concrete rules and
-- parts, whose elements are integers.
use e_mail_factory.Base.{
  suc, ◌≡◌, refl, Text, codes, pos, negsuc, true, false, [], ◌∷◌, none, some, arith, g_list_remove,
  text_eq,
}
use e_mail_factory.Filter.{FilterPart, FilterRule, RuleContext, group_any, thread_all}
use e_mail_factory.Filter.Ints.{FilterInt, int_class}
use e_mail_factory.Filter.Parts.{find_element, expand_variable, expand_loop, expand_code}
use e_mail_factory.Filter.Rules.{rule_eq, rule_build_code, rule_validate, rule_copy}
use e_mail_factory.Filter.Contexts.{get_rank_rule, find_rank_rule, rank_rule}
use e_mail_factory.Filter.Ranks.{rank_rule-ranks, find_rank_rule-get_rank_rule}
use e_mail_factory.Filter.Walks.{visit_rules, visit_rules-all}
use e_mail_factory.Filter.Expansion.{literal, variable, expand_code-pieces, expand_code-returns}
use e_mail_factory.Filter.Copies.{rule_copy-same}

abbrev pub size : FilterInt
size = record {
  name = some (codes "size");
  type = none;
  val = negsuc 11;
  min = pos 0;
  max = pos 100;
}

abbrev pub size_part : FilterPart FilterInt
size_part = record {
  name = some (codes "size");
  title = none;
  code = some (codes "(> (get-size) ${size})");
  elements = size ∷ [];
}

abbrev pub rule_of : Text → FilterRule FilterInt
rule_of source = record {
  name = some (codes "big");
  source = some source;
  grouping = group_any;
  threading = thread_all;
  system = false;
  parts = (50, size_part) ∷ [];
  enabled = true;
  frozen = 0;
  changes = 0;
}

abbrev pub incoming : Text
incoming = codes "incoming"

abbrev pub context : RuleContext FilterInt
context = record {
  parts = (40, size_part) ∷ [];
  rules =
      (1, rule_of incoming)
      ∷ (2, rule_of (codes "outgoing"))
      ∷ (3, rule_of incoming)
      ∷ (4, rule_of incoming)
      ∷ [];
  frozen = 0;
  emitted = [];
}

-- The last of the incoming rules becomes the second.
rank_rule-ranks_example :
    let ranked = (rank_rule (4, rule_of incoming) (some incoming) (pos 1) context).rules in
    (get_rank_rule ranked 4 (some incoming) ≡ pos 1)
    × (g_list_remove 4 ranked
        ≡ (1, rule_of incoming) ∷ (2, rule_of (codes "outgoing")) ∷ (3, rule_of incoming) ∷ [])
unfolding g_list_remove
rank_rule-ranks_example =
    rank_rule-ranks 1 4 (rule_of incoming) (some incoming) context
      ((λ e. omega (arith, e)), ((λ e. omega (arith, e)), ((λ e. omega (arith, e)), tt)))

find_rank_rule-get_rank_rule_example :
    find_rank_rule context.rules (get_rank_rule context.rules 3 (some incoming)) (some incoming)
    ≡ some (3, rule_of incoming)
find_rank_rule-get_rank_rule_example =
    find_rank_rule-get_rank_rule 3 (rule_of incoming) (some incoming)
      ((1, rule_of incoming) ∷ (2, rule_of (codes "outgoing")) ∷ []) ((4, rule_of incoming) ∷ [])
      refl ((λ e. omega (arith, e)), ((λ e. omega (arith, e)), tt))

visit_rules-all_example :
    visit_rules 5 context.rules none (some incoming)
    ≡ some ((1, rule_of incoming) ∷ (3, rule_of incoming) ∷ (4, rule_of incoming) ∷ [])
visit_rules-all_example = visit_rules-all context.rules (some incoming) (
  ((λ e. omega (arith, e)), ((λ e. omega (arith, e)), ((λ e. omega (arith, e)), tt))),
  (
    ((λ e. omega (arith, e)), ((λ e. omega (arith, e)), tt)),
    (((λ e. omega (arith, e)), tt), (tt, tt)),
  ),
)

-- A variable that is negative, and one that the part does not have.
expand_code-pieces_example :
    expand_code (size ∷ []) (codes "(> ${size} ${x})") ≡ codes "(> (- 0 12) ${x})"
unfolding expand_variable find_element
expand_code-pieces_example =
    expand_code-pieces (size ∷ [])
      (literal (codes "(> ")
        ∷ variable (codes "size")
        ∷ literal (codes " ")
        ∷ variable (codes "x")
        ∷ literal (codes ")")
        ∷ [])
      (
        ((λ e. omega (arith, e)), ((λ e. omega (arith, e)), ((λ e. omega (arith, e)), tt))),
        (
          (
            (λ e. omega (arith, e)),
            ((λ e. omega (arith, e)), ((λ e. omega (arith, e)), ((λ e. omega (arith, e)), tt))),
          ),
          (
            ((λ e. omega (arith, e)), tt),
            (((λ e. omega (arith, e)), tt), (((λ e. omega (arith, e)), tt), tt)),
          ),
        ),
      )

expand_code-returns_example :
    expand_loop (size ∷ []) 5 (codes "${si") ≡ some (expand_code (size ∷ []) (codes "${si"))
expand_code-returns_example = expand_code-returns (size ∷ []) (codes "${si")

rule_copy-same_example :
    let copied = rule_copy suc (rule_of (codes "outgoing")) (rule_of incoming) in
    (rule_eq copied (rule_of incoming) ≡ true)
    × (rule_build_code copied ≡ rule_build_code (rule_of incoming))
    × (rule_validate copied ≡ rule_validate (rule_of incoming))
rule_copy-same_example = rule_copy-same suc (rule_of (codes "outgoing")) (rule_of incoming)
