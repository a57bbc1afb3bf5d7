-- ===== src/Filter/Values.antt =====
-- e-util/e-filter-part.c: e_filter_part_copy_values between parts of one kind.
use mathlib.Core.List.{reverse_aux, reverse-reverse}
use e_mail_factory.Base.{◌≡◌, refl, ap, ◌∙◌, true, List, [], ◌∷◌, map, reverse, some, All}
use e_mail_factory.Filter.{ElementClass, FilterPart}
use e_mail_factory.Filter.Parts.{copy_to_first, copy_backwards, copy_values}

map-reverse_aux {ℓ κ} :
    {A : Type ℓ} {B : Type κ} (f : A → B) (xs ys : List A)
    → map f (reverse_aux xs ys) ≡ reverse_aux (map f xs) (map f ys)
map-reverse_aux f [] ys = refl
map-reverse_aux f (x ∷ xs) ys = map-reverse_aux f xs (x ∷ ys)

module _ {ℓ} {E : Type ℓ} ⦃c : ElementClass E⦄ where
  abbrev pub HaveSameType : List (E × E) → Type 0
  HaveSameType ps = All (λ (p : E × E). c.same_type p.0 p.1 ≡ true) ps

  copy_backwards-map :
      (ps : List (E × E))
      → HaveSameType ps
      → copy_backwards (map (λ (p : E × E). p.1) ps) (map (λ (p : E × E). p.0) ps)
        ≡ map (λ (p : E × E). c.copy_value p.0 p.1) ps
  unfolding copy_backwards copy_to_first
  copy_backwards-map [] same = refl
  copy_backwards-map ((dst, src) ∷ ps) same =
      let first : copy_to_first src (dst ∷ map (λ (p : E × E). p.0) ps)
          ≡ some (c.copy_value dst src ∷ [], map (λ (p : E × E). p.0) ps) =
        rw (same.0, copy_to_first) refl in
      rw (first, copy_backwards) (rw (copy_backwards-map ps same.1) refl)

  HaveSameType-reverse_aux :
      (ps qs : List (E × E)) → HaveSameType ps → HaveSameType qs → HaveSameType (reverse_aux ps qs)
  HaveSameType-reverse_aux [] qs here there = there
  HaveSameType-reverse_aux (p ∷ ps) qs here there =
      HaveSameType-reverse_aux ps (p ∷ qs) here.1 (here.0, there)

  -- Between parts whose elements have the same types in the same order, each element gets the value of
  -- the element at its place.
  pub copy_values-map :
      (dst src : FilterPart E) (ps : List (E × E))
      → dst.elements ≡ map (λ (p : E × E). p.0) ps
      → src.elements ≡ map (λ (p : E × E). p.1) ps
      → HaveSameType ps
      → (copy_values dst src).elements ≡ map (λ (p : E × E). c.copy_value p.0 p.1) ps
  unfolding copy_values
  copy_values-map dst src ps dsts srcs same =
      let back = HaveSameType-reverse_aux ps [] same tt in
      ap (λ (es : List E). reverse (copy_backwards (reverse es) (reverse dst.elements))) srcs
      ∙ ap
          (λ (es : List E).
            reverse (copy_backwards (reverse (map (λ (p : E × E). p.1) ps)) (reverse es)))
          dsts
      ∙ rw (← map-reverse_aux (λ (p : E × E). p.1) ps []) (
          rw (← map-reverse_aux (λ (p : E × E). p.0) ps []) (
            rw (copy_backwards-map (reverse ps) back) (
              rw (← map-reverse_aux (λ (p : E × E). c.copy_value p.0 p.1) (reverse ps) [])
                (rw (reverse-reverse ps) refl))))
