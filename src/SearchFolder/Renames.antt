-- ===== src/SearchFolder/Renames.antt =====
-- libemail-engine/mail-vfolder.c: the sources of a rule after mail_vfolder_rename_folder.
use mathlib.Core.List.{append_assoc, append-nil}
use e_mail_factory.Base.{
  ℕ, zero, suc, ◌+◌, ◌≤◌, ◌≡◌, ◌≢◌, refl, sym, ap, ◌∙◌, inl, inr, Text, text_beq, text_beq_iff,
  nat_beq_iff, if◌then◌else◌, Bool, true, false, List, [], ◌∷◌, ◌++◌, Option, none, some, arith,
  Bool-cases, All, All-append, All-middle, next_links, or_list, first, subst, at_suc, g_list_remove,
  AreDistinct, IsAbsent, after_link, after_link-middle,
}
use e_mail_factory.SearchFolder.{VFolderRule}
use e_mail_factory.SearchFolder.Sources.{
  add_source, find_source, remove_source, next_source, rename_sources,
}

module _ (uri_equal : Text → Text → Bool) (old_uri : Text) where
  -- The texts of the sources other than the old URI, and the number of those that are equal to it.
  abbrev pub others : List (ℕ × Text) → List Text
  others [] = []
  others ((a, s) ∷ sources) = if uri_equal old_uri s then others sources else s ∷ others sources

  abbrev pub count_equal : List (ℕ × Text) → ℕ
  count_equal [] = 0
  count_equal ((a, s) ∷ sources) =
      if uri_equal old_uri s then suc (count_equal sources) else count_equal sources

  pub others-append : (xs ys : List (ℕ × Text)) → others (xs ++ ys) ≡ others xs ++ others ys
  others-append [] ys = refl
  others-append ((a, s) ∷ xs) ys = ground (arith, others-append xs ys)

  pub count_equal-append :
      (xs ys : List (ℕ × Text)) → count_equal (xs ++ ys) ≡ count_equal xs + count_equal ys
  count_equal-append [] ys = omega arith
  count_equal-append ((a, s) ∷ xs) ys = ground (arith, count_equal-append xs ys)

  abbrev pub NoneEqual : List (ℕ × Text) → Type 0
  NoneEqual xs = All (λ (x : ℕ × Text). uri_equal old_uri x.1 ≡ false) xs

  pub find_source-middle :
      (a : ℕ) (s : Text) (before rest : List (ℕ × Text))
      → NoneEqual before
      → uri_equal old_uri s ≡ true
      → find_source s (before ++ (a, s) ∷ rest) ≡ some (a, s)
  unfolding find_source
  find_source-middle a s [] rest none_equal here = ground (arith, text_beq_iff s s)
  find_source-middle a s ((b, t) ∷ before) rest none_equal here = elim (Bool-cases (text_beq t s)) [
    | inl e ↦
        let same : false ≡ true =
          sym none_equal.0 ∙ ap (uri_equal old_uri) ((text_beq_iff t s).0 e) ∙ here in
        absurd (cc)
    | inr e ↦ rw e (find_source-middle a s before rest none_equal.1 here)
  ]

  pub g_list_remove-middle :
      (a : ℕ) (s : Text) (before rest : List (ℕ × Text))
      → AreDistinct (before ++ (a, s) ∷ rest)
      → (g_list_remove a (before ++ (a, s) ∷ rest) ≡ before ++ rest) × AreDistinct (before ++ rest)
  unfolding g_list_remove
  g_list_remove-middle a s [] rest distinct = (ground (arith, nat_beq_iff a a), distinct.1)
  g_list_remove-middle a s ((b, t) ∷ before) rest distinct =
      let (apart, absent) = All-middle (λ (x : ℕ × Text). x.0 ≢ b) before (a, s) rest distinct.0 in
      let (removed, left) = g_list_remove-middle a s before rest distinct.1 in
      (ground (arith, nat_beq_iff b a, apart, removed), (absent, left))

  pub AreDistinct-fresh :
      (a : ℕ) (s : Text) (xs : List (ℕ × Text))
      → AreDistinct xs
      → IsAbsent a xs
      → AreDistinct (xs ++ (a, s) ∷ [])
  AreDistinct-fresh a s [] distinct absent = (tt, tt)
  AreDistinct-fresh a s ((b, t) ∷ xs) distinct absent = (
    All-append (λ (x : ℕ × Text). x.0 ≢ b) xs ((a, s) ∷ []) distinct.0
        ((λ e. absent.0 (sym e)), tt),
    AreDistinct-fresh a s xs distinct.1 absent.1,
  )

  abbrev pub texts : List (ℕ × Text) → List Text
  texts [] = []
  texts ((a, s) ∷ sources) = s ∷ texts sources

  NoneEqual-others :
      (xs : List (ℕ × Text)) → NoneEqual xs → (others xs ≡ texts xs) × (count_equal xs ≡ 0)
  NoneEqual-others [] h = (refl, refl)
  NoneEqual-others ((a, s) ∷ xs) h =
      let (same, none_left) = NoneEqual-others xs h.1 in
      (rw (h.0) (rw same refl), rw (h.0) none_left)

  pub remove_source-sources :
      (rule : VFolderRule) (a : ℕ) (s : Text) (before rest : List (ℕ × Text))
      → rule.sources ≡ before ++ (a, s) ∷ rest
      → AreDistinct (before ++ (a, s) ∷ rest)
      → NoneEqual before
      → uri_equal old_uri s ≡ true
      → (remove_source s rule).sources ≡ before ++ rest
  unfolding remove_source
  remove_source-sources rule a s before rest split distinct none_equal here =
      let found : find_source s rule.sources ≡ some (a, s) =
        ap (find_source s) split ∙ find_source-middle a s before rest none_equal here in
      rw (found, remove_source)
        (ap (g_list_remove a) split ∙ (g_list_remove-middle a s before rest distinct).0)

  module _ (alloc : List (ℕ × Text) → ℕ) (new_uri : Text)
      (fresh : (xs : List (ℕ × Text)) → IsAbsent (alloc xs) xs)
      (other : uri_equal old_uri new_uri ≡ false) where
    abbrev pub copies : ℕ → List Text
    copies zero = []
    copies (suc n) = new_uri ∷ copies n

    abbrev renamed_rule : Text → VFolderRule → VFolderRule
    renamed_rule s rule = add_source alloc new_uri (remove_source s rule)

    -- The loop returns, with any fuel from some number on.
    abbrev pub Renames : VFolderRule → Option ℕ → Type 0
    Renames rule last =
        (fuel : ℕ) × (out : VFolderRule) × ((n : ℕ)
          → fuel ≤ n
          → rename_sources uri_equal alloc n old_uri new_uri true rule last ≡ some out)
        × (texts out.sources ≡ others rule.sources ++ copies (count_equal rule.sources))

    rename_sources-stop :
        (n : ℕ) (rule : VFolderRule) (last : Option ℕ)
        → next_source rule.sources last ≡ none
        → rename_sources uri_equal alloc (suc n) old_uri new_uri true rule last ≡ some rule
    unfolding rename_sources
    rename_sources-stop n rule last e = rw (e, rename_sources) refl

    rename_sources-skip :
        (n : ℕ) (rule : VFolderRule) (last : Option ℕ) (a : ℕ) (s : Text)
        → next_source rule.sources last ≡ some (a, s)
        → uri_equal old_uri s ≡ false
        → rename_sources uri_equal alloc (suc n) old_uri new_uri true rule last
          ≡ rename_sources uri_equal alloc n old_uri new_uri true rule (some a)
    unfolding rename_sources
    rename_sources-skip n rule last a s e f = rw (e, rename_sources) (rw (f, rename_sources) refl)

    rename_sources-take :
        (n : ℕ) (rule : VFolderRule) (last : Option ℕ) (a : ℕ) (s : Text)
        → next_source rule.sources last ≡ some (a, s)
        → uri_equal old_uri s ≡ true
        → rename_sources uri_equal alloc (suc n) old_uri new_uri true rule last
          ≡ rename_sources uri_equal alloc n old_uri new_uri true (renamed_rule s rule) none
    unfolding rename_sources
    rename_sources-take n rule last a s e f = rw (e, rename_sources) (rw (f, rename_sources) refl)

    renamed_rule-sources :
        (rule : VFolderRule) (a : ℕ) (s : Text) (before rest : List (ℕ × Text))
        → rule.sources ≡ before ++ (a, s) ∷ rest
        → AreDistinct (before ++ (a, s) ∷ rest)
        → NoneEqual before
        → uri_equal old_uri s ≡ true
        → (renamed_rule s rule).sources ≡ (before ++ rest) ++ (alloc (before ++ rest), new_uri) ∷ []
    unfolding add_source
    renamed_rule-sources rule a s before rest split distinct none_equal here =
        ap (λ (xs : List (ℕ × Text)). xs ++ (alloc xs, new_uri) ∷ [])
          (remove_source-sources rule a s before rest split distinct none_equal here)

    -- The sources after one replacement, as texts and counted.
    others-renamed_rule :
        (rule r : VFolderRule) (a b : ℕ) (s : Text) (before rest : List (ℕ × Text))
        → rule.sources ≡ before ++ (a, s) ∷ rest
        → r.sources ≡ (before ++ rest) ++ (b, new_uri) ∷ []
        → uri_equal old_uri s ≡ true
        → (others r.sources ≡ others rule.sources ++ new_uri ∷ [])
          × (suc (count_equal r.sources) ≡ count_equal rule.sources)
    others-renamed_rule rule r a b s before rest split moved e =
        let last : others ((b, new_uri) ∷ []) ≡ new_uri ∷ [] = rw other refl in
        let kept : others (before ++ (a, s) ∷ rest) ≡ others (before ++ rest) =
          others-append before ((a, s) ∷ rest) ∙ rw e refl ∙ sym (others-append before rest) in
        (
          ap others moved
              ∙ others-append (before ++ rest) ((b, new_uri) ∷ [])
              ∙ ap (◌++◌ (others (before ++ rest))) last
              ∙ ap (λ (xs : List Text). xs ++ new_uri ∷ []) (sym (ap others split ∙ kept)),
          ground (
            arith,
            ap count_equal moved,
            ap count_equal split,
            count_equal-append (before ++ rest) ((b, new_uri) ∷ []),
            count_equal-append before rest,
            count_equal-append before ((a, s) ∷ rest),
            e,
            other,
          ),
        )

    texts-unchanged :
        (xs : List (ℕ × Text)) → NoneEqual xs → texts xs ≡ others xs ++ copies (count_equal xs)
    texts-unchanged xs h =
        let (same, none_left) = NoneEqual-others xs h in
        sym (ap (λ (n : ℕ). others xs ++ copies n) none_left ∙ append-nil (others xs) ∙ same)

    -- One pass, given what a restart on a rule with one equal source less leads to.
    scan_sources :
        (rest before : List (ℕ × Text)) (rule : VFolderRule) (last : Option ℕ)
        → rule.sources ≡ before ++ rest
        → next_links last rule.sources ≡ rest
        → AreDistinct (before ++ rest)
        → NoneEqual before
        → ((r : VFolderRule)
            → AreDistinct r.sources
            → suc (count_equal r.sources) ≡ count_equal rule.sources
            → Renames r none)
        → Renames rule last
    unfolding next_source next_links
    scan_sources [] before rule last split next distinct none_equal restart =
        let stop : next_source rule.sources last ≡ none = ap first next in
        let whole = subst NoneEqual (sym (split ∙ append-nil before)) none_equal in
        (
          1,
          rule,
          (λ n le.
              at_suc
                (λ k. rename_sources uri_equal alloc k old_uri new_uri true rule last ≡ some rule) 0
                n le (λ m _. rename_sources-stop m rule last stop)),
          texts-unchanged rule.sources whole,
        )
    scan_sources ((a, s) ∷ rest) before rule last split next distinct none_equal restart =
        let now : next_source rule.sources last ≡ some (a, s) = ap first next in
        elim (Bool-cases (uri_equal old_uri s)) [
          | inl e ↦
              let r = renamed_rule s rule in
              let moved = renamed_rule-sources rule a s before rest split distinct none_equal e in
              let apart =
                AreDistinct-fresh (alloc (before ++ rest)) new_uri (before ++ rest)
                  (g_list_remove-middle a s before rest distinct).1 (fresh (before ++ rest)) in
              let (replaced, fewer) =
                others-renamed_rule rule r a (alloc (before ++ rest)) s before rest split moved e in
              let (fuel, out, returns, sources) =
                restart r (subst AreDistinct (sym moved) apart) fewer in
              (
                suc fuel,
                out,
                (λ n le.
                    at_suc
                      (λ k.
                        rename_sources uri_equal alloc k old_uri new_uri true rule last ≡ some out)
                      fuel n le
                      (λ m above. rename_sources-take m rule last a s now e ∙ returns m above)),
                sources
                    ∙ ap (λ (xs : List Text). xs ++ copies (count_equal r.sources)) replaced
                    ∙ append_assoc (others rule.sources) (new_uri ∷ [])
                        (copies (count_equal r.sources))
                    ∙ ap (λ (n : ℕ). others rule.sources ++ copies n) fewer,
              )
          | inr e ↦
              let regroup = sym (append_assoc before ((a, s) ∷ []) rest) in
              let onward : next_links (some a) rule.sources ≡ rest =
                ap (or_list rule.sources)
                  (ap (after_link a) split ∙ after_link-middle a s before rest distinct) in
              let (fuel, out, returns, sources) =
                scan_sources rest (before ++ (a, s) ∷ []) rule (some a) (split ∙ regroup) onward
                  (subst AreDistinct regroup distinct)
                  (All-append (λ (x : ℕ × Text). uri_equal old_uri x.1 ≡ false) before ((a, s) ∷ [])
                    none_equal (e, tt))
                  restart in
              (
                suc fuel,
                out,
                (λ n le.
                    at_suc
                      (λ k.
                        rename_sources uri_equal alloc k old_uri new_uri true rule last ≡ some out)
                      fuel n le
                      (λ m above. rename_sources-skip m rule last a s now e ∙ returns m above)),
                sources,
              )
        ]

    rename_sources-Renames :
        (k : ℕ) (rule : VFolderRule)
        → count_equal rule.sources ≡ k
        → AreDistinct rule.sources
        → Renames rule none
    unfolding next_links
    rename_sources-Renames zero rule count distinct =
        scan_sources rule.sources [] rule none refl refl distinct tt
          (λ r apart fewer. absurd (omega (arith, count, fewer)))
    rename_sources-Renames (suc k) rule count distinct =
        scan_sources rule.sources [] rule none refl refl distinct tt
          (λ r apart fewer. rename_sources-Renames k r (omega (arith, count, fewer)) apart)

    -- Renaming a folder ends, however much fuel above some number it has: in the rule of a search
    -- folder that is known, every source that is equal to the old URI is gone and the new URI stands
    -- at the end as often, while the other sources keep their order; given that the new URI is not
    -- equal to the old one and that every string has its own address.
    pub rename_sources-renames :
        (rule : VFolderRule)
        → AreDistinct rule.sources
        → (fuel : ℕ) × (out : VFolderRule) × ((n : ℕ)
            → fuel ≤ n
            → rename_sources uri_equal alloc n old_uri new_uri true rule none ≡ some out)
          × (texts out.sources ≡ others rule.sources ++ copies (count_equal rule.sources))
    rename_sources-renames rule distinct =
        rename_sources-Renames (count_equal rule.sources) rule refl distinct
