-- ===== src/Filter/Copies.antt =====
-- e-util/e-filter-part.c and e-util/e-filter-rule.c: a copy of a rule.
use mathlib.Core.Path.{fun_ext}
use e_mail_factory.Base.{
  ℕ, zero, suc, ◌≡◌, refl, sym, ◌∙◌, ap, Text, text_eq, option_beq, option_beq_iff, nat_beq,
  nat_beq_iff, ◌+◌, if◌then◌else◌, Bool, true, false, Bool-cases, Option-cases, length, List, [],
  ◌∷◌, map, Option, none, some, arith, inl, inr,
}
use e_mail_factory.Filter.{ElementClass, FilterPart, FilterRule, Grouping, group_all, group_any}
use e_mail_factory.Filter.Parts.{
  split_open, split_close, validate_elements, eq_elements, part_eq, part_clone, find_element,
  expand_variable, expand_loop, expand_code, or_empty, build_elements, expand_own_code,
  part_build_code, build_code_list,
}
use e_mail_factory.Filter.Expansion.{expand_loop-none, expand_loop-unclosed, expand_loop-variable}
use e_mail_factory.Filter.Rules.{
  emit_changed, grouping_beq, threading_code, bool_beq, eq_parts, rule_eq, rule_build_code,
  validate_parts, rule_validate, clone_parts, rule_copy, has_parts,
}

pub bool_beq_refl : (b : Bool) → bool_beq b b ≡ true
bool_beq_refl true = refl
bool_beq_refl false = refl

pub grouping_beq_refl : (g : Grouping) → grouping_beq g g ≡ true
grouping_beq_refl group_all = refl
grouping_beq_refl group_any = refl

module _ {ℓ} {E : Type ℓ} ⦃c : ElementClass E⦄ where
  validate_elements-map : (es : List E) → validate_elements (map c.clone es) ≡ validate_elements es
  unfolding validate_elements
  validate_elements-map [] = refl
  validate_elements-map (e ∷ es) = ground (arith, c.validate_clone e, validate_elements-map es)

  eq_elements-map : (es : List E) → eq_elements (map c.clone es) es ≡ true
  unfolding eq_elements
  eq_elements-map [] = refl
  eq_elements-map (e ∷ es) = ground (arith, c.eq_clone e, eq_elements-map es)

  expand_variable-cons :
      (e : E) (es : List E) (name : Text)
      → expand_variable (e ∷ es) name
        ≡ (if option_beq (c.name e) (some name) then c.format_sexp e else expand_variable es name)
  unfolding expand_variable find_element
  expand_variable-cons e es name = elim (Bool-cases (option_beq (c.name e) (some name))) [
    | inl h ↦ ground (arith, h)
    | inr h ↦ ground (arith, h)
  ]

  expand_variable-map :
      (es : List E) (name : Text) → expand_variable (map c.clone es) name ≡ expand_variable es name
  expand_variable-map [] name = refl
  expand_variable-map (e ∷ es) name =
      expand_variable-cons (c.clone e) (map c.clone es) name
      ∙ rw (c.name_clone e) (rw (c.format_sexp_clone e) (rw (expand_variable-map es name) refl))
      ∙ sym (expand_variable-cons e es name)

  expand_loop-map :
      (es : List E) (fuel : ℕ) (start : Text)
      → expand_loop (map c.clone es) fuel start ≡ expand_loop es fuel start
  unfolding expand_loop
  expand_loop-map es zero start = refl
  expand_loop-map es (suc fuel) start = elim (Option-cases (split_open start)) [
    | inl e ↦
        expand_loop-none (map c.clone es) fuel start e ∙ sym (expand_loop-none es fuel start e)
    | inr (p, e) ↦ elim (Option-cases (split_close p.1)) [
      | inl f ↦
          expand_loop-unclosed (map c.clone es) fuel start p e f
          ∙ sym (expand_loop-unclosed es fuel start p e f)
      | inr (q, f) ↦
          expand_loop-variable (map c.clone es) fuel start p q e f
          ∙ rw (expand_loop-map es fuel q.1) (rw (expand_variable-map es q.0) refl)
          ∙ sym (expand_loop-variable es fuel start p q e f)
    ]
  ]

  expand_code-map : (es : List E) → expand_code (map c.clone es) ≡ expand_code es
  unfolding expand_code
  expand_code-map es =
      fun_ext (λ source. ap or_empty (expand_loop-map es (suc (length source)) source))

  build_elements-map :
      (all es : List E) → build_elements (map c.clone all) (map c.clone es) ≡ build_elements all es
  unfolding build_elements
  build_elements-map all [] = refl
  build_elements-map all (e ∷ es) =
      rw (expand_code-map all)
        (rw (c.build_code_clone e (expand_code all)) (rw (build_elements-map all es) refl))

  part_eq-part_clone : (part : FilterPart E) → part_eq (part_clone part) part ≡ true
  unfolding part_eq part_clone
  part_eq-part_clone part = ground (
    arith,
    (option_beq_iff part.name part.name).1 refl,
    (option_beq_iff part.title part.title).1 refl,
    (option_beq_iff part.code part.code).1 refl,
    eq_elements-map part.elements,
  )

  expand_own_code-map :
      (es : List E) (code : Option Text)
      → expand_own_code (map c.clone es) code ≡ expand_own_code es code
  unfolding expand_own_code
  expand_own_code-map es none = refl
  expand_own_code-map es (some code) = rw (expand_code-map es) refl

  part_build_code-part_clone :
      (part : FilterPart E) → part_build_code (part_clone part) ≡ part_build_code part
  unfolding part_build_code part_clone
  part_build_code-part_clone part =
      rw (expand_own_code-map part.elements part.code)
        (rw (build_elements-map part.elements part.elements) refl)

  eq_parts-clone_parts :
      (addresses : ℕ → ℕ) (n : ℕ) (parts : List (ℕ × FilterPart E))
      → eq_parts (clone_parts addresses n parts) parts ≡ true
  unfolding eq_parts clone_parts
  eq_parts-clone_parts addresses n [] = refl
  eq_parts-clone_parts addresses n ((a, part) ∷ parts) =
      ground (arith, part_eq-part_clone part, eq_parts-clone_parts addresses (suc n) parts)

  build_code_list-clone_parts :
      (addresses : ℕ → ℕ) (n : ℕ) (parts : List (ℕ × FilterPart E))
      → build_code_list (clone_parts addresses n parts) ≡ build_code_list parts
  unfolding build_code_list clone_parts
  build_code_list-clone_parts addresses n [] = refl
  build_code_list-clone_parts addresses n ((a, part) ∷ parts) =
      rw (part_build_code-part_clone part)
        (rw (build_code_list-clone_parts addresses (suc n) parts) refl)

  validate_parts-clone_parts :
      (addresses : ℕ → ℕ) (n : ℕ) (parts : List (ℕ × FilterPart E))
      → (validate_parts (clone_parts addresses n parts) ≡ validate_parts parts)
        × (has_parts (clone_parts addresses n parts) ≡ has_parts parts)
  unfolding validate_parts clone_parts part_clone
  validate_parts-clone_parts addresses n [] = (refl, refl)
  validate_parts-clone_parts addresses n ((a, part) ∷ parts) = (
    rw (validate_elements-map part.elements)
        (rw ((validate_parts-clone_parts addresses (suc n) parts).0) refl),
    refl,
  )

  pub emit_changed-fields :
      (P : FilterRule E → Type 0) (rule : FilterRule E)
      → ((n : ℕ) → P (record rule { changes = n }))
      → P (emit_changed rule)
  unfolding emit_changed
  emit_changed-fields P rule all = elim (Bool-cases (nat_beq rule.frozen 0)) [
    | inl e ↦ rw e (all (rule.changes + 1))
    | inr e ↦ rw e (all rule.changes)
  ]

  -- A rule that was made a copy of another is equal to it, is valid exactly if it is, and has the same
  -- code, with the code of its parts, whatever it was before.
  pub rule_copy-same :
      (addresses : ℕ → ℕ) (dest src : FilterRule E)
      → let copied = rule_copy addresses dest src in
        (rule_eq copied src ≡ true)
        × (rule_build_code copied ≡ rule_build_code src)
        × (rule_validate copied ≡ rule_validate src)
  unfolding rule_copy rule_eq rule_build_code rule_validate
  rule_copy-same addresses dest src =
      let valid = validate_parts-clone_parts addresses 0 src.parts in
      emit_changed-fields
        (λ r.
          (rule_eq r src ≡ true)
          × (rule_build_code r ≡ rule_build_code src)
          × (rule_validate r ≡ rule_validate src))
        _
        λ n. (
          ground (
            arith,
            bool_beq_refl src.enabled,
            grouping_beq_refl src.grouping,
            nat_beq_iff (threading_code src.threading) (threading_code src.threading),
            (option_beq_iff src.name src.name).1 refl,
            (option_beq_iff src.source src.source).1 refl,
            eq_parts-clone_parts addresses 0 src.parts,
          ),
          rw (build_code_list-clone_parts addresses 0 src.parts) refl,
          rw (valid.0) (rw (valid.1) refl),
        )
