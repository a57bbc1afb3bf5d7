-- ===== src/Base/Objects.antt =====
-- GList as it is used for objects: each stands beside its address, and is found by it.
use Prim.Native.Nat.{ℕ}
use mathlib.Core.Path.{◌≡◌}
use mathlib.Core.Logic.{◌≢◌}
use mathlib.Core.List.{List, [], ◌∷◌, ◌++◌}
use mathlib.Core.Option.{Option, none, some}
use native.Mathlib.Omega.{arith}
use e_mail_factory.Base.Tests.{nat_beq, nat_beq_iff, if◌then◌else◌}
use e_mail_factory.Base.Lists.{All}

module _ {ℓ} {A : Type ℓ} where
  -- g_list_find, and the links after the one found
  unfoldable pub after_link : ℕ → List (ℕ × A) → Option (List (ℕ × A))
  after_link a [] = none
  after_link a ((b, x) ∷ xs) = if nat_beq b a then some xs else after_link a xs

  -- g_list_remove: the first link that holds the object goes.
  unfoldable pub g_list_remove : ℕ → List (ℕ × A) → List (ℕ × A)
  g_list_remove a [] = []
  g_list_remove a ((b, x) ∷ xs) = if nat_beq b a then xs else (b, x) ∷ g_list_remove a xs

  abbrev pub or_list : List (ℕ × A) → Option (List (ℕ × A)) → List (ℕ × A)
  or_list xs none = xs
  or_list xs (some ys) = ys

  -- The links after the one that holds `last`; the whole list from NULL, or if it is not there.
  unfoldable pub next_links : Option ℕ → List (ℕ × A) → List (ℕ × A)
  next_links none xs = xs
  next_links (some a) xs = or_list xs (after_link a xs)

  abbrev pub first : List (ℕ × A) → Option (ℕ × A)
  first [] = none
  first (x ∷ xs) = some x

  -- No object of the list has the address.
  abbrev pub IsAbsent : ℕ → List (ℕ × A) → Type 0
  IsAbsent a xs = All (λ (x : ℕ × A). x.0 ≢ a) xs

  -- No address occurs twice.
  abbrev pub AreDistinct : List (ℕ × A) → Type 0
  AreDistinct [] = Unit
  AreDistinct ((a, x) ∷ xs) = IsAbsent a xs × AreDistinct xs

  IsAbsent-middle :
      (a b : ℕ) (x : A) (xs ys : List (ℕ × A)) → IsAbsent a (xs ++ (b, x) ∷ ys) → b ≢ a
  IsAbsent-middle a b x [] ys h = h.0
  IsAbsent-middle a b x (_ ∷ xs) ys h = IsAbsent-middle a b x xs ys h.1

  pub after_link-middle :
      (a : ℕ) (x : A) (xs ys : List (ℕ × A))
      → AreDistinct (xs ++ (a, x) ∷ ys)
      → after_link a (xs ++ (a, x) ∷ ys) ≡ some ys
  unfolding after_link
  after_link-middle a x [] ys h = ground (arith, nat_beq_iff a a)
  after_link-middle a x ((b, y) ∷ xs) ys h =
      ground
        (arith, nat_beq_iff b a, IsAbsent-middle b a x xs ys h.0, after_link-middle a x xs ys h.1)
