-- ===== src/Filter/Rules.antt =====
-- e-util/e-filter-rule.c: filter rules and lists of them. `addresses n` is the address of the n-th
-- part that a call allocates.
use e_mail_factory.Base.{
  ℕ, suc, ◌+◌, Text, codes, text_eq, nat_beq, option_beq, if◌then◌else◌, Bool, true, false, ◌&&◌,
  List, [], ◌∷◌, ◌++◌, Option, none, some, next_links, g_list_remove,
}
use e_mail_factory.Filter.{
  ElementClass, FilterPart, FilterRule, Grouping, group_all, group_any, Threading, thread_none,
  thread_all, thread_replies, thread_replies_parents, thread_single,
}
use e_mail_factory.Filter.Parts.{part_validate, part_eq, part_clone, build_code_list}

abbrev pub grouping_beq : Grouping → Grouping → Bool
grouping_beq group_all group_all = true
grouping_beq group_any group_any = true
grouping_beq _ _ = false

abbrev pub threading_code : Threading → ℕ
threading_code thread_none = 0
threading_code thread_all = 1
threading_code thread_replies = 2
threading_code thread_replies_parents = 3
threading_code thread_single = 4

abbrev pub threading_beq : Threading → Threading → Bool
threading_beq a b = nat_beq (threading_code a) (threading_code b)

abbrev pub bool_beq : Bool → Bool → Bool
bool_beq true b = b
bool_beq false true = false
bool_beq false false = true

abbrev pub is_empty : Option Text → Bool
is_empty none = true
is_empty (some []) = true
is_empty (some (_ ∷ _)) = false

abbrev pub open_threading : Threading → Text
open_threading thread_none = []
open_threading thread_all = codes " (match-threads \"all\" "
open_threading thread_replies = codes " (match-threads \"replies\" "
open_threading thread_replies_parents = codes " (match-threads \"replies_parents\" "
open_threading thread_single = codes " (match-threads \"single\" "

abbrev pub close_threading : Threading → Text
close_threading thread_none = []
close_threading _ = codes ")\n"

abbrev pub open_grouping : Grouping → Text
open_grouping group_all = codes " (and\n  "
open_grouping group_any = codes " (or\n  "

module _ {ℓ} {E : Type ℓ} where
  -- e_filter_rule_emit_changed
  unfoldable pub emit_changed : FilterRule E → FilterRule E
  emit_changed rule =
      if nat_beq rule.frozen 0 then record rule { changes = rule.changes + 1 } else rule

  -- e_filter_rule_set_name
  unfoldable pub set_name : Option Text → FilterRule E → FilterRule E
  set_name name rule =
      if option_beq rule.name name then rule else emit_changed (record rule { name = name })

  -- e_filter_rule_set_source
  unfoldable pub set_source : Option Text → FilterRule E → FilterRule E
  set_source source rule =
      if option_beq rule.source source then rule else emit_changed (record rule { source = source })

  -- e_filter_rule_add_part
  unfoldable pub add_part : ℕ → FilterPart E → FilterRule E → FilterRule E
  add_part a part rule = emit_changed (record rule { parts = rule.parts ++ (a, part) ∷ [] })

  -- e_filter_rule_remove_part
  unfoldable pub remove_part : ℕ → FilterRule E → FilterRule E
  remove_part a rule = emit_changed (record rule { parts = g_list_remove a rule.parts })

  -- The link of the old part gets the new one; without such a link it goes to the end.
  unfoldable pub replace_link :
      ℕ → ℕ × FilterPart E → List (ℕ × FilterPart E) → List (ℕ × FilterPart E)
  replace_link old new [] = new ∷ []
  replace_link old new ((a, part) ∷ parts) =
      if nat_beq a old then new ∷ parts else (a, part) ∷ replace_link old new parts

  -- e_filter_rule_replace_part
  unfoldable pub replace_part : ℕ → ℕ × FilterPart E → FilterRule E → FilterRule E
  replace_part old new rule = emit_changed (record rule { parts = replace_link old new rule.parts })

  abbrev pub is_of_source : Option Text → FilterRule E → Bool
  is_of_source none rule = true
  is_of_source (some source) rule = option_beq rule.source (some source)

  -- The second loop of e_filter_rule_next_list.
  unfoldable pub first_of_source : Option Text → List (ℕ × FilterRule E) → Option (ℕ × FilterRule E)
  first_of_source source [] = none
  first_of_source source ((a, rule) ∷ rules) =
      if is_of_source source rule then some (a, rule) else first_of_source source rules

  -- e_filter_rule_next_list
  unfoldable pub next_rule :
      List (ℕ × FilterRule E) → Option ℕ → Option Text → Option (ℕ × FilterRule E)
  next_rule rules last source = first_of_source source (next_links last rules)

  -- e_filter_rule_find_list, for rules that have a name
  unfoldable pub find_rule :
      List (ℕ × FilterRule E) → Text → Option Text → Option (ℕ × FilterRule E)
  find_rule [] name source = none
  find_rule ((a, rule) ∷ rules) name source =
      if option_beq rule.name (some name) && is_of_source source rule
      then some (a, rule)
      else find_rule rules name source

module _ {ℓ} {E : Type ℓ} ⦃c : ElementClass E⦄ where
  unfoldable pub validate_parts : List (ℕ × FilterPart E) → Bool
  validate_parts [] = true
  validate_parts ((a, part) ∷ parts) = part_validate part && validate_parts parts

  abbrev pub has_parts : List (ℕ × FilterPart E) → Bool
  has_parts [] = false
  has_parts (_ ∷ _) = true

  -- filter_rule_validate
  unfoldable pub rule_validate : FilterRule E → Bool
  rule_validate rule =
      if is_empty rule.name then false else has_parts rule.parts && validate_parts rule.parts

  unfoldable pub eq_parts : List (ℕ × FilterPart E) → List (ℕ × FilterPart E) → Bool
  eq_parts [] [] = true
  eq_parts [] (_ ∷ _) = false
  eq_parts (_ ∷ _) [] = false
  eq_parts ((a, p) ∷ ps) ((b, q) ∷ qs) = part_eq p q && eq_parts ps qs

  -- filter_rule_eq
  unfoldable pub rule_eq : FilterRule E → FilterRule E → Bool
  rule_eq a b =
      bool_beq a.enabled b.enabled
      && grouping_beq a.grouping b.grouping
      && threading_beq a.threading b.threading
      && option_beq a.name b.name
      && option_beq a.source b.source
      && eq_parts a.parts b.parts

  -- filter_rule_build_code
  unfoldable pub rule_build_code : FilterRule E → Text
  rule_build_code rule =
      open_threading rule.threading
      ++ open_grouping rule.grouping
      ++ build_code_list rule.parts
      ++ codes ")\n"
      ++ close_threading rule.threading

  -- The clones of the parts, the first at `addresses n`.
  unfoldable pub clone_parts : (ℕ → ℕ) → ℕ → List (ℕ × FilterPart E) → List (ℕ × FilterPart E)
  clone_parts addresses n [] = []
  clone_parts addresses n ((a, part) ∷ parts) =
      (addresses n, part_clone part) ∷ clone_parts addresses (suc n) parts

  -- e_filter_rule_copy with filter_rule_copy
  unfoldable pub rule_copy : (ℕ → ℕ) → FilterRule E → FilterRule E → FilterRule E
  rule_copy addresses dest src = emit_changed (record dest {
    enabled = src.enabled;
    name = src.name;
    source = src.source;
    grouping = src.grouping;
    threading = src.threading;
    parts = clone_parts addresses 0 src.parts;
  })

  -- e_filter_rule_init, on an object that g_object_new has cleared
  abbrev pub rule_new : FilterRule E
  rule_new = record {
    name = none;
    source = none;
    grouping = group_all;
    threading = thread_none;
    system = false;
    parts = [];
    enabled = true;
    frozen = 0;
    changes = 0;
  }

  -- e_filter_rule_clone
  unfoldable pub rule_clone : (ℕ → ℕ) → FilterRule E → FilterRule E
  rule_clone addresses rule = rule_copy addresses rule_new rule
