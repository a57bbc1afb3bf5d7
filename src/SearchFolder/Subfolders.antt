-- ===== src/SearchFolder/Subfolders.antt =====
-- libemail-engine/em-vfolder-rule.c and libemail-engine/mail-vfolder.c: the sources that include their
-- subfolders, across mail_vfolder_rename_folder.
use e_mail_factory.Base.{
  ℕ, zero, suc, ◌≤◌, ◌≡◌, ◌⊎◌, refl, sym, ap, ◌∙◌, subst, inl, inr, Text, text_beq, nat_beq,
  nat_beq_iff, Bool, true, false, ◌&&◌, List, [], ◌∷◌, ◌++◌, Option, none, some, arith, Bool-cases,
  Option-cases, All, g_list_remove, AreDistinct, IsAbsent,
}
use e_mail_factory.SearchFolder.{VFolderRule}
use e_mail_factory.SearchFolder.Sources.{
  add_source, find_source, remove_address, has_address, remove_source, next_source,
  get_include_subfolders, rename_sources,
}
use e_mail_factory.SearchFolder.Renames.{
  AreDistinct-fresh, texts, others, copies, count_equal, rename_sources-renames,
}

-- A source of another text stands at the address.
abbrev pub IsOther : Text → ℕ → List (ℕ × Text) → Type 0
IsOther uri b [] = ⊥
IsOther uri b ((a, s) ∷ sources) = ((a ≡ b) × (text_beq s uri ≡ false)) ⊎ IsOther uri b sources

-- Every string has its own address, and all that include their subfolders are sources other than
-- the URI.
abbrev pub AreOthers : Text → VFolderRule → Type 0
AreOthers uri rule =
    AreDistinct rule.sources × All (λ b. IsOther uri b rule.sources) rule.include_subfolders

absent_other :
    (uri : Text) (b : ℕ) (sources : List (ℕ × Text))
    → IsAbsent b sources
    → IsOther uri b sources
    → ⊥
absent_other uri b [] absent other = other
absent_other uri b ((a, s) ∷ sources) absent (inl here) = absent.0 here.0
absent_other uri b ((a, s) ∷ sources) absent (inr other) = absent_other uri b sources absent.1 other

abbrev address_or : ℕ → Option (ℕ × Text) → ℕ
address_or n none = n
address_or n (some p) = p.0

-- The sources without the first, where that one is found and where it is not.
find_source_cases :
    (uri : Text) (a b : ℕ) (s t : Text) (sources : List (ℕ × Text))
    → find_source uri ((a, s) ∷ sources) ≡ some (b, t)
    → ((a ≡ b) × (text_beq s uri ≡ true)) ⊎ (find_source uri sources ≡ some (b, t))
unfolding find_source
find_source_cases uri a b s t sources found = elim (Bool-cases (text_beq s uri)) [
  | inl e ↦
      let here : ◌≡◌ {A = Option (ℕ × Text)} (some (a, s)) (some (b, t)) = rw e at found in
      inl (ap (address_or 0) here, e)
  | inr e ↦ inr (rw e at found)
]

absent_found :
    (uri : Text) (b : ℕ) (t : Text) (sources : List (ℕ × Text))
    → IsAbsent b sources
    → find_source uri sources ≡ some (b, t)
    → ⊥
unfolding find_source
absent_found uri b t [] absent found = cc
absent_found uri b t ((a, s) ∷ sources) absent found =
    elim (find_source_cases uri a b s t sources found) [
      | inl (here, _) ↦ absent.0 here
      | inr later ↦ absent_found uri b t sources absent.1 later
    ]

-- The source that is found under the URI is not one of the others.
found_other :
    (uri : Text) (b : ℕ) (t : Text) (sources : List (ℕ × Text))
    → AreDistinct sources
    → find_source uri sources ≡ some (b, t)
    → IsOther uri b sources
    → ⊥
found_other uri b t [] distinct found other = other
found_other uri b t ((a, s) ∷ sources) distinct found other =
    elim (find_source_cases uri a b s t sources found) [
      | inl (here, named) ↦ elim other [
        | inl (_, unnamed) ↦ absurd (let clash : true ≡ false = sym named ∙ unnamed in cc)
        | inr later ↦
            absent_other uri b sources (subst (λ (n : ℕ). IsAbsent n sources) here distinct.0) later
      ]
      | inr found_later ↦ elim other [
        | inl (here, _) ↦
            absent_found uri b t sources (subst (λ (n : ℕ). IsAbsent n sources) here distinct.0)
              found_later
        | inr later ↦ found_other uri b t sources distinct.1 found_later later
      ]
    ]

has_address-none :
    (b : ℕ) (bs : List ℕ) (P : ℕ → Type 0) → All P bs → (P b → ⊥) → has_address b bs ≡ false
unfolding has_address
has_address-none b [] P all refuted = refl
has_address-none b (c ∷ bs) P all refuted = elim (Bool-cases (nat_beq c b)) [
  | inl e ↦ absurd (refuted (subst P ((nat_beq_iff c b).0 e) all.0))
  | inr e ↦ rw e (has_address-none b bs P all.1 refuted)
]

get_include_subfolders-AreOthers :
    (uri : Text) (rule : VFolderRule) → AreOthers uri rule → get_include_subfolders uri rule ≡ false
unfolding get_include_subfolders
get_include_subfolders-AreOthers uri rule (distinct, apart) =
    elim (Option-cases (find_source uri rule.sources)) [
      | inl e ↦ rw (e, get_include_subfolders) refl
      | inr ((b, t), e) ↦
          rw (e, get_include_subfolders)
            (has_address-none b rule.include_subfolders (λ a. IsOther uri a rule.sources) apart
              (found_other uri b t rule.sources distinct e))
    ]

IsAbsent-g_list_remove :
    (a b : ℕ) (xs : List (ℕ × Text)) → IsAbsent b xs → IsAbsent b (g_list_remove a xs)
unfolding g_list_remove
IsAbsent-g_list_remove a b [] absent = tt
IsAbsent-g_list_remove a b ((d, s) ∷ xs) absent = elim (Bool-cases (nat_beq d a)) [
  | inl e ↦ rw e absent.1
  | inr e ↦ rw e (absent.0, IsAbsent-g_list_remove a b xs absent.1)
]

AreDistinct-g_list_remove :
    (a : ℕ) (xs : List (ℕ × Text)) → AreDistinct xs → AreDistinct (g_list_remove a xs)
unfolding g_list_remove
AreDistinct-g_list_remove a [] distinct = tt
AreDistinct-g_list_remove a ((d, s) ∷ xs) distinct = elim (Bool-cases (nat_beq d a)) [
  | inl e ↦ rw e distinct.1
  | inr e ↦
      rw e (IsAbsent-g_list_remove a d xs distinct.0, AreDistinct-g_list_remove a xs distinct.1)
]

IsOther-g_list_remove :
    (uri : Text) (a b : ℕ) (xs : List (ℕ × Text))
    → nat_beq b a ≡ false
    → IsOther uri b xs
    → IsOther uri b (g_list_remove a xs)
unfolding g_list_remove
IsOther-g_list_remove uri a b [] apart other = other
IsOther-g_list_remove uri a b ((d, s) ∷ xs) apart other = elim (Bool-cases (nat_beq d a)) [
  | inl e ↦ elim other [
    | inl (here, _) ↦
        absurd (let clash : true ≡ false = sym e ∙ ap (λ (n : ℕ). nat_beq n a) here ∙ apart in cc)
    | inr later ↦ rw e later
  ]
  | inr e ↦ elim other [
    | inl here ↦ rw e (inl here)
    | inr later ↦ rw e (inr (IsOther-g_list_remove uri a b xs apart later))
  ]
]

All-remove_address :
    (uri : Text) (a : ℕ) (xs : List (ℕ × Text)) (bs : List ℕ)
    → All (λ b. IsOther uri b xs) bs
    → All (λ b. IsOther uri b (g_list_remove a xs)) (remove_address a bs)
unfolding remove_address
All-remove_address uri a xs [] all = tt
All-remove_address uri a xs (b ∷ bs) all = elim (Bool-cases (nat_beq b a)) [
  | inl e ↦ rw e (All-remove_address uri a xs bs all.1)
  | inr e ↦ rw e (IsOther-g_list_remove uri a b xs e all.0, All-remove_address uri a xs bs all.1)
]

remove_source-AreOthers :
    (uri removed : Text) (rule : VFolderRule)
    → AreOthers uri rule
    → AreOthers uri (remove_source removed rule)
unfolding remove_source
remove_source-AreOthers uri removed rule (distinct, apart) =
    elim (Option-cases (find_source removed rule.sources)) [
      | inl e ↦ rw (e, remove_source) (distinct, apart)
      | inr (p, e) ↦
          rw (e, remove_source)
            (
              AreDistinct-g_list_remove p.0 rule.sources distinct,
              All-remove_address uri p.0 rule.sources rule.include_subfolders apart,
            )
    ]

IsOther-append :
    (uri : Text) (b : ℕ) (xs ys : List (ℕ × Text)) → IsOther uri b xs → IsOther uri b (xs ++ ys)
IsOther-append uri b [] ys other = absurd other
IsOther-append uri b ((a, s) ∷ xs) ys (inl here) = inl here
IsOther-append uri b ((a, s) ∷ xs) ys (inr later) = inr (IsOther-append uri b xs ys later)

All-append_source :
    (uri : Text) (xs ys : List (ℕ × Text)) (bs : List ℕ)
    → All (λ b. IsOther uri b xs) bs
    → All (λ b. IsOther uri b (xs ++ ys)) bs
All-append_source uri xs ys [] all = tt
All-append_source uri xs ys (b ∷ bs) all =
    (IsOther-append uri b xs ys all.0, All-append_source uri xs ys bs all.1)

abbrev rule_or : VFolderRule → Option VFolderRule → VFolderRule
rule_or rule none = rule
rule_or rule (some out) = out

module _ (uri_equal : Text → Text → Bool) (alloc : List (ℕ × Text) → ℕ)
    (fresh : (xs : List (ℕ × Text)) → IsAbsent (alloc xs) xs) where
  add_source-AreOthers :
      (old new : Text) (rule : VFolderRule)
      → AreOthers new rule
      → AreOthers new (add_source alloc new rule)
  unfolding add_source
  add_source-AreOthers old new rule (distinct, apart) = (
    AreDistinct-fresh uri_equal old (alloc rule.sources) new rule.sources distinct
        (fresh rule.sources),
    All-append_source new rule.sources _ rule.include_subfolders apart,
  )

  rename_sources-AreOthers :
      (fuel : ℕ) (old new : Text) (has_vf : Bool) (rule out : VFolderRule) (last : Option ℕ)
      → rename_sources uri_equal alloc fuel old new has_vf rule last ≡ some out
      → AreOthers new rule
      → AreOthers new out
  unfolding rename_sources
  rename_sources-AreOthers zero old new has_vf rule out last returns apart = absurd (cc)
  rename_sources-AreOthers (suc fuel) old new has_vf rule out last returns apart =
      elim (Option-cases (next_source rule.sources last)) [
        | inl e ↦
            let stopped : ◌≡◌ {A = Option VFolderRule} (some rule) (some out) =
              rw (e, rename_sources) at returns in
            subst (AreOthers new) (ap (rule_or rule) stopped) apart
        | inr (p, e) ↦ elim (Bool-cases (uri_equal old p.1 && has_vf)) [
          | inr d ↦
              rename_sources-AreOthers fuel old new has_vf rule out (some p.0)
                (rw (d, rename_sources) at (rw (e, rename_sources) at returns)) apart
          | inl d ↦
              rename_sources-AreOthers fuel old new has_vf _ out none
                (rw (d, rename_sources) at (rw (e, rename_sources) at returns))
                (add_source-AreOthers old new _ (remove_source-AreOthers new p.1 rule apart))
        ]
      ]

  -- Renaming a folder ends, in the rule of a search folder that is known and with any fuel above some
  -- number, and puts the new URI where sources were equal to the old one; but the new source does not
  -- include its subfolders, whether or not an old one did. Every string has its own address, all that
  -- included their subfolders were sources other than the new URI, and that is not equal to the old.
  pub get_include_subfolders-rename_sources :
      (old new : Text) (rule : VFolderRule) (unequal : uri_equal old new ≡ false)
      → AreOthers new rule
      → (fuel : ℕ) × (out : VFolderRule) × ((n : ℕ)
          → fuel ≤ n
          → rename_sources uri_equal alloc n old new true rule none ≡ some out)
        × (texts uri_equal old out.sources
            ≡ others uri_equal old rule.sources
              ++ copies uri_equal old alloc new fresh unequal
                  (count_equal uri_equal old rule.sources))
        × (get_include_subfolders new out ≡ false)
  get_include_subfolders-rename_sources old new rule unequal known =
      let (fuel, out, returns, sources) =
        rename_sources-renames uri_equal old alloc new fresh unequal rule known.0 in
      (
        fuel,
        out,
        returns,
        sources,
        get_include_subfolders-AreOthers new out (
            rename_sources-AreOthers fuel old new true rule out none (returns fuel (omega arith))
              known),
      )
