-- ===== src/Tests/Editing.antt =====
-- e-util/e-rule-context.c, e-filter-rule.c and e-filter-part.c at concrete rules and parts: lists that
-- are searched and changed.
use e_mail_factory.Base.{
  suc, ◌≡◌, refl, codes, text_eq, pos, [], ◌∷◌, none, some, after_link, next_links,
}
use e_mail_factory.Filter.Ints.{FilterInt, int_class}
use e_mail_factory.Filter.Parts.{copy_values, find_part, next_part, part_clone}
use e_mail_factory.Filter.Rules.{
  set_name, set_source, emit_changed, find_rule, next_rule, first_of_source, rule_clone, rule_copy,
  clone_parts,
}
use e_mail_factory.Filter.Contexts.{context_add_part, create_part}
use e_mail_factory.Filter.Walks.{visit_rules}
use e_mail_factory.Filter.Values.{copy_values-map}
use e_mail_factory.Tests.Filters.{size, size_part, rule_of, incoming, context}

abbrev limit : FilterInt
limit = record size { name = some (codes "limit"); val = pos 7 }

copy_values-map_example :
    (copy_values
      (record size_part { elements = limit ∷ size ∷ [] })
      (record size_part { elements = size ∷ limit ∷ [] })).elements
    ≡ record limit { val = size.val } ∷ record size { val = pos 7 } ∷ []
copy_values-map_example =
    copy_values-map (record size_part { elements = limit ∷ size ∷ [] })
      (record size_part { elements = size ∷ limit ∷ [] }) ((limit, size) ∷ (size, limit) ∷ []) refl
      refl (refl, (refl, tt))

-- The first rule of the name and the source, and none under another name.
find_rule_test :
    (find_rule context.rules (codes "big") (some (codes "outgoing"))
      ≡ some (2, rule_of (codes "outgoing")))
    × (find_rule context.rules (codes "small") none ≡ none)
unfolding find_rule
find_rule_test = (refl, refl)

visit_rules_test :
    visit_rules 2 context.rules (some 3) (some incoming) ≡ some ((4, rule_of incoming) ∷ [])
unfolding visit_rules next_rule first_of_source next_links after_link
visit_rules_test = refl

next_part_test :
    (next_part context.parts none ≡ some (40, size_part))
    × (next_part context.parts (some 40) ≡ none)
unfolding next_part next_links after_link
next_part_test = (refl, refl)

create_part_test :
    (create_part (codes "size") context ≡ some (part_clone size_part))
    × (create_part (codes "date") context ≡ none)
    × (find_part (codes "size") (context_add_part 41 size_part context).parts
        ≡ some (40, size_part))
unfolding create_part find_part context_add_part
create_part_test = (refl, refl, refl)

-- A change is announced only if there is one.
set_name_test :
    ((set_name (some (codes "small")) (rule_of incoming)).changes ≡ 1)
    × ((set_name (some (codes "big")) (rule_of incoming)).changes ≡ 0)
    × ((set_source none (rule_of incoming)).changes ≡ 1)
unfolding set_name set_source emit_changed
set_name_test = (refl, refl, refl)

rule_clone_test : (rule_clone suc (rule_of incoming)).parts ≡ (1, size_part) ∷ []
unfolding rule_clone rule_copy clone_parts part_clone emit_changed
rule_clone_test = refl
