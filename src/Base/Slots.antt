-- ===== src/Base/Slots.antt =====
-- A list of objects that are found by address, read as a table.
use Prim.Native.Nat.{ℕ}
use mathlib.Core.Path.{◌≡◌, refl}
use mathlib.Core.Logic.{inl, inr}
use mathlib.Core.List.{List, [], ◌∷◌}
use mathlib.Core.Option.{none, some}
use native.Mathlib.Omega.{arith}
use e_mail_factory.Base.Tests.{nat_beq, nat_beq_iff, if◌then◌else◌, Bool-cases}
use e_mail_factory.Base.Equality.{nat_eq}
use e_mail_factory.Base.Table.{lookup}
use e_mail_factory.Base.Objects.{g_list_remove, IsAbsent, AreDistinct}

module _ {ℓ} {A : Type ℓ} where
  pub lookup-IsAbsent : (a : ℕ) (xs : List (ℕ × A)) → IsAbsent a xs → lookup a xs ≡ none
  unfolding lookup
  lookup-IsAbsent a [] h = refl
  lookup-IsAbsent a ((b, x) ∷ xs) h = ground (arith, nat_beq_iff b a, h.0, lookup-IsAbsent a xs h.1)

  pub IsAbsent-lookup : (a : ℕ) (xs : List (ℕ × A)) → lookup a xs ≡ none → IsAbsent a xs
  unfolding lookup
  IsAbsent-lookup a [] h = tt
  IsAbsent-lookup a ((b, x) ∷ xs) h = elim (Bool-cases (nat_beq b a)) [
    | inl e ↦ let found : some x ≡ none = rw e at h in absurd (cc)
    | inr e ↦
        let left : lookup a xs ≡ none = rw e at h in
        ((λ same. ground (arith, nat_beq_iff b a)), IsAbsent-lookup a xs left)
  ]

  pub lookup-g_list_remove :
      (a b : ℕ) (xs : List (ℕ × A))
      → AreDistinct xs
      → lookup b (g_list_remove a xs) ≡ (if nat_beq a b then none else lookup b xs)
  unfolding lookup g_list_remove
  lookup-g_list_remove a b [] h = ground arith
  lookup-g_list_remove a b ((c, x) ∷ xs) h = ground (
    arith,
    nat_beq_iff a b,
    nat_beq_iff c a,
    nat_beq_iff c b,
    lookup-IsAbsent c xs h.0,
    lookup-g_list_remove a b xs h.1,
  )

  IsAbsent-g_list_remove :
      (a b : ℕ) (xs : List (ℕ × A)) → IsAbsent b xs → IsAbsent b (g_list_remove a xs)
  unfolding g_list_remove
  IsAbsent-g_list_remove a b [] h = tt
  IsAbsent-g_list_remove a b ((c, x) ∷ xs) h = elim (Bool-cases (nat_beq c a)) [
    | inl e ↦ rw e h.1
    | inr e ↦ rw e (h.0, IsAbsent-g_list_remove a b xs h.1)
  ]

  pub AreDistinct-g_list_remove :
      (a : ℕ) (xs : List (ℕ × A)) → AreDistinct xs → AreDistinct (g_list_remove a xs)
  unfolding g_list_remove
  AreDistinct-g_list_remove a [] h = tt
  AreDistinct-g_list_remove a ((c, x) ∷ xs) h = elim (Bool-cases (nat_beq c a)) [
    | inl e ↦ rw e h.1
    | inr e ↦ rw e (IsAbsent-g_list_remove a c xs h.0, AreDistinct-g_list_remove a xs h.1)
  ]
