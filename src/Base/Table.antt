-- ===== src/Base/Table.antt =====
-- GHashTable as an association list, over keys with a decided equality.
use Prim.Native.Nat.{ℕ, ◌+◌}
use mathlib.Core.Path.{◌≡◌, refl}
use mathlib.Core.List.{List, [], ◌∷◌}
use mathlib.Core.Option.{Option, none, some}
use native.Mathlib.Omega.{arith}
use e_mail_factory.Base.Tests.{if◌then◌else◌}
use e_mail_factory.Base.Equality.{Eq, ◌==◌}

module _ {ℓ κ} {K : Type ℓ} ⦃e : Eq K⦄ {V : Type κ} where
  -- g_hash_table_lookup
  unfoldable pub lookup : K → List (K × V) → Option V
  lookup k [] = none
  lookup k ((j, v) ∷ m) = if j == k then some v else lookup k m

  -- g_hash_table_insert: a value under a present key is replaced.
  unfoldable pub insert : K → V → List (K × V) → List (K × V)
  insert k v [] = (k, v) ∷ []
  insert k v ((j, w) ∷ m) = if j == k then (j, v) ∷ m else (j, w) ∷ insert k v m

  -- g_hash_table_remove and g_hash_table_steal
  unfoldable pub remove : K → List (K × V) → List (K × V)
  remove k [] = []
  remove k ((j, w) ∷ m) = if j == k then remove k m else (j, w) ∷ remove k m

  pub lookup-insert :
      (new asked : K) (v : V) (table : List (K × V))
      → lookup asked (insert new v table) ≡ (if new == asked then some v else lookup asked table)
  unfolding lookup insert
  lookup-insert new asked v [] = refl
  lookup-insert new asked v ((first, w) ∷ rest) = ground (
    arith,
    e.beq_iff new asked,
    e.beq_iff first new,
    e.beq_iff first asked,
    lookup-insert new asked v rest,
  )

  pub lookup-insert_self : (k : K) (v : V) (m : List (K × V)) → lookup k (insert k v m) ≡ some v
  lookup-insert_self k v m = ground (arith, lookup-insert k k v m, e.beq_iff k k)

  pub lookup-remove :
      (k j : K) (m : List (K × V)) → lookup j (remove k m) ≡ (if k == j then none else lookup j m)
  unfolding lookup remove
  lookup-remove k j [] = ground arith
  lookup-remove k j ((i, w) ∷ m) =
      ground (arith, e.beq_iff k j, e.beq_iff i k, e.beq_iff i j, lookup-remove k j m)

  -- A number read off each entry, summed.
  unfoldable pub weight : (K → V → ℕ) → List (K × V) → ℕ
  weight f [] = 0
  weight f ((k, v) ∷ m) = f k v + weight f m

  -- Replacing the value under a present key changes its own share of the sum and no other.
  pub weight-insert :
      (f : K → V → ℕ) (k : K) (v w : V) (m : List (K × V))
      → lookup k m ≡ some v
      → weight f (insert k w m) + f k v ≡ weight f m + f k w
  unfolding lookup insert weight
  weight-insert f k v w [] h = cc
  weight-insert f k v w ((j, u) ∷ m) h = ground (arith, e.beq_iff j k, weight-insert f k v w m)
