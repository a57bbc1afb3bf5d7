-- ===== src/Filter.antt =====
-- e-util/e-filter-element.h, e-util/e-filter-part.h, e-util/e-filter-rule.h and
-- e-util/e-rule-context.c: the data of filter rules, and the class that every kind of filter element
-- implements. An object in a GList stands beside its address. `out` is only ever appended to, so a
-- function that writes to it returns what it appends.
pub mod Parts
pub mod Rules
pub mod Contexts
pub mod Ranks
pub mod Walks
pub mod Copies
pub mod Expansion
pub mod Ints
pub mod Values
pub mod Editing
pub mod Xml
pub mod Files
pub mod Restoring
pub mod RoundTrip
pub mod Atoi
pub mod IntFiles
pub mod Documents
pub mod Reloading
pub mod Inputs
pub mod InputClones
use e_mail_factory.Base.{ℕ, Text, Bool, true, ◌≡◌, List, Option}

-- EFilterElementClass, with e_filter_element_eq as `eq` (the types are compared first), the test of
-- G_OBJECT_TYPE as `same_type`, and what is asked of clones. An input without a name or a type does
-- not keep to `eq_clone`; the elements of a rule are clones and have both. `build_code` is given the function
-- that expands code with the values of the part.
pub record ElementClass {ℓ} (E : Type ℓ) : Type ℓ where
  pub name : E → Option Text
  pub validate : E → Bool
  pub eq : E → E → Bool
  pub clone : E → E
  pub same_type : E → E → Bool
  pub copy_value : E → E → E
  pub format_sexp : E → Text
  pub build_code : E → (Text → Text) → Text
  pub name_clone : (e : E) → name (clone e) ≡ name e
  pub validate_clone : (e : E) → validate (clone e) ≡ validate e
  pub eq_clone : (e : E) → eq (clone e) e ≡ true
  pub format_sexp_clone : (e : E) → format_sexp (clone e) ≡ format_sexp e
  pub build_code_clone : (e : E) (f : Text → Text) → build_code (clone e) f ≡ build_code e f

-- struct _EFilterPart
pub record FilterPart {ℓ} (E : Type ℓ) : Type ℓ where
  pub name : Option Text
  pub title : Option Text
  pub code : Option Text
  pub elements : List E

-- enum _filter_grouping_t
pub data Grouping : Type 0 where
  group_all : Grouping
  group_any : Grouping

-- enum _filter_threading_t
pub data Threading : Type 0 where
  thread_none : Threading
  thread_all : Threading
  thread_replies : Threading
  thread_replies_parents : Threading
  thread_single : Threading

-- struct _EFilterRule with its private part; `changes` counts the emissions of its signal.
pub record FilterRule {ℓ} (E : Type ℓ) : Type ℓ where
  pub name : Option Text
  pub source : Option Text
  pub grouping : Grouping
  pub threading : Threading
  pub system : Bool
  pub parts : List (ℕ × FilterPart E)
  pub enabled : Bool
  pub frozen : ℕ
  pub changes : ℕ

-- The signals of ERuleContext, with their rule.
pub data ContextSignal : Type 0 where
  rule_added : ℕ → ContextSignal
  rule_removed : ℕ → ContextSignal
  changed : ContextSignal

-- struct _ERuleContext with its private part, as far as parts and rules go; `emitted` is the record
-- of its signals.
pub record RuleContext {ℓ} (E : Type ℓ) : Type ℓ where
  pub parts : List (ℕ × FilterPart E)
  pub rules : List (ℕ × FilterRule E)
  pub frozen : ℕ
  pub emitted : List ContextSignal
