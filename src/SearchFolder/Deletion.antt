-- ===== src/SearchFolder/Deletion.antt =====
-- libemail-engine/mail-vfolder.c: the sources of a rule after mail_vfolder_delete_folder.
use mathlib.Core.List.{append_assoc, append-nil}
use e_mail_factory.Base.{
  ℕ, zero, suc, ◌+◌, ◌≤◌, ◌≡◌, refl, sym, ap, ◌∙◌, inl, inr, Text, if◌then◌else◌, Bool, true, false,
  List, [], ◌∷◌, ◌++◌, Option, none, some, arith, Bool-cases, All-append, next_links, or_list,
  first, subst, at_suc, AreDistinct, after_link, after_link-middle,
}
use e_mail_factory.SearchFolder.{VFolderRule}
use e_mail_factory.SearchFolder.Sources.{find_source, remove_source, next_source, delete_sources}
use e_mail_factory.SearchFolder.Renames.{
  count_equal, count_equal-append, NoneEqual, find_source-middle, g_list_remove-middle,
  remove_source-sources,
}

module _ (uri_equal : Text → Text → Bool) (uri : Text) where
  -- The sources other than the deleted URI, with their addresses.
  abbrev pub left_sources : List (ℕ × Text) → List (ℕ × Text)
  left_sources [] = []
  left_sources ((a, s) ∷ sources) =
      if uri_equal uri s then left_sources sources else (a, s) ∷ left_sources sources

  left_sources-append :
      (xs ys : List (ℕ × Text)) → left_sources (xs ++ ys) ≡ left_sources xs ++ left_sources ys
  left_sources-append [] ys = refl
  left_sources-append ((a, s) ∷ xs) ys = ground (arith, left_sources-append xs ys)

  NoneEqual-left_sources :
      (xs : List (ℕ × Text))
      → NoneEqual uri_equal uri xs
      → (left_sources xs ≡ xs) × (count_equal uri_equal uri xs ≡ 0)
  NoneEqual-left_sources [] h = (refl, refl)
  NoneEqual-left_sources ((a, s) ∷ xs) h =
      let (same, none_left) = NoneEqual-left_sources xs h.1 in
      (rw (h.0) (rw same refl), rw (h.0) none_left)

  -- The loop returns, with any fuel from some number on.
  abbrev Deletes : VFolderRule → Option ℕ → Type 0
  Deletes rule last =
      (fuel : ℕ) × (out : VFolderRule) × ((n : ℕ)
        → fuel ≤ n
        → delete_sources uri_equal n uri true rule last ≡ some out)
      × (out.sources ≡ left_sources rule.sources)
      × (out.changes ≡ rule.changes + count_equal uri_equal uri rule.sources)

  delete_sources-stop :
      (n : ℕ) (rule : VFolderRule) (last : Option ℕ)
      → next_source rule.sources last ≡ none
      → delete_sources uri_equal (suc n) uri true rule last ≡ some rule
  unfolding delete_sources
  delete_sources-stop n rule last e = rw (e, delete_sources) refl

  delete_sources-skip :
      (n : ℕ) (rule : VFolderRule) (last : Option ℕ) (a : ℕ) (s : Text)
      → next_source rule.sources last ≡ some (a, s)
      → uri_equal uri s ≡ false
      → delete_sources uri_equal (suc n) uri true rule last
        ≡ delete_sources uri_equal n uri true rule (some a)
  unfolding delete_sources
  delete_sources-skip n rule last a s e f = rw (e, delete_sources) (rw (f, delete_sources) refl)

  delete_sources-take :
      (n : ℕ) (rule : VFolderRule) (last : Option ℕ) (a : ℕ) (s : Text)
      → next_source rule.sources last ≡ some (a, s)
      → uri_equal uri s ≡ true
      → delete_sources uri_equal (suc n) uri true rule last
        ≡ delete_sources uri_equal n uri true (remove_source s rule) none
  unfolding delete_sources
  delete_sources-take n rule last a s e f = rw (e, delete_sources) (rw (f, delete_sources) refl)

  remove_source-changes :
      (rule : VFolderRule) (a : ℕ) (s : Text) (before rest : List (ℕ × Text))
      → rule.sources ≡ before ++ (a, s) ∷ rest
      → NoneEqual uri_equal uri before
      → uri_equal uri s ≡ true
      → (remove_source s rule).changes ≡ rule.changes + 1
  unfolding remove_source
  remove_source-changes rule a s before rest split none_equal here =
      let found : find_source s rule.sources ≡ some (a, s) =
        ap (find_source s) split
        ∙ find_source-middle uri_equal uri a s before rest none_equal here in
      rw (found, remove_source) refl

  -- What one removal leaves, of the sources and of their number.
  left_sources-remove :
      (xs ys before rest : List (ℕ × Text)) (a : ℕ) (s : Text)
      → xs ≡ before ++ (a, s) ∷ rest
      → ys ≡ before ++ rest
      → uri_equal uri s ≡ true
      → (left_sources ys ≡ left_sources xs)
        × (suc (count_equal uri_equal uri ys) ≡ count_equal uri_equal uri xs)
  left_sources-remove xs ys before rest a s split removed e = (
    ap left_sources removed
        ∙ left_sources-append before rest
        ∙ sym (ap left_sources split ∙ left_sources-append before ((a, s) ∷ rest) ∙ rw e refl),
    ground (
      arith,
      ap (count_equal uri_equal uri) removed,
      ap (count_equal uri_equal uri) split,
      count_equal-append uri_equal uri before rest,
      count_equal-append uri_equal uri before ((a, s) ∷ rest),
      e,
    ),
  )

  -- One pass, given what a restart on a rule with one equal source less leads to.
  scan_sources :
      (rest before : List (ℕ × Text)) (rule : VFolderRule) (last : Option ℕ)
      → rule.sources ≡ before ++ rest
      → next_links last rule.sources ≡ rest
      → AreDistinct (before ++ rest)
      → NoneEqual uri_equal uri before
      → ((r : VFolderRule)
          → AreDistinct r.sources
          → suc (count_equal uri_equal uri r.sources) ≡ count_equal uri_equal uri rule.sources
          → Deletes r none)
      → Deletes rule last
  unfolding next_source next_links
  scan_sources [] before rule last split next distinct none_equal restart =
      let stop : next_source rule.sources last ≡ none = ap first next in
      let whole = subst (NoneEqual uri_equal uri) (sym (split ∙ append-nil before)) none_equal in
      let (same, none_left) = NoneEqual-left_sources rule.sources whole in
      (
        1,
        rule,
        (λ n le.
            at_suc (λ k. delete_sources uri_equal k uri true rule last ≡ some rule) 0 n le
              (λ m _. delete_sources-stop m rule last stop)),
        sym same,
        omega (arith, none_left),
      )
  scan_sources ((a, s) ∷ rest) before rule last split next distinct none_equal restart =
      let now : next_source rule.sources last ≡ some (a, s) = ap first next in
      elim (Bool-cases (uri_equal uri s)) [
        | inl e ↦
            let r = remove_source s rule in
            let removed =
              remove_source-sources uri_equal uri rule a s before rest split distinct none_equal
                e in
            let apart = (g_list_remove-middle uri_equal uri a s before rest distinct).1 in
            let (same, fewer) =
              left_sources-remove rule.sources r.sources before rest a s split removed e in
            let once = remove_source-changes rule a s before rest split none_equal e in
            let (fuel, out, returns, sources, changes) =
              restart r (subst AreDistinct (sym removed) apart) fewer in
            (
              suc fuel,
              out,
              (λ n le.
                  at_suc (λ k. delete_sources uri_equal k uri true rule last ≡ some out) fuel n le
                    (λ m above. delete_sources-take m rule last a s now e ∙ returns m above)),
              sources ∙ same,
              omega (arith, changes, once, fewer),
            )
        | inr e ↦
            let regroup = sym (append_assoc before ((a, s) ∷ []) rest) in
            let onward : next_links (some a) rule.sources ≡ rest =
              ap (or_list rule.sources)
                (ap (after_link a) split ∙ after_link-middle a s before rest distinct) in
            let (fuel, out, returns, sources, changes) =
              scan_sources rest (before ++ (a, s) ∷ []) rule (some a) (split ∙ regroup) onward
                (subst AreDistinct regroup distinct)
                (All-append (λ (x : ℕ × Text). uri_equal uri x.1 ≡ false) before ((a, s) ∷ [])
                  none_equal (e, tt))
                restart in
            (
              suc fuel,
              out,
              (λ n le.
                  at_suc (λ k. delete_sources uri_equal k uri true rule last ≡ some out) fuel n le
                    (λ m above. delete_sources-skip m rule last a s now e ∙ returns m above)),
              sources,
              changes,
            )
      ]

  delete_sources-Deletes :
      (k : ℕ) (rule : VFolderRule)
      → count_equal uri_equal uri rule.sources ≡ k
      → AreDistinct rule.sources
      → Deletes rule none
  unfolding next_links
  delete_sources-Deletes zero rule count distinct =
      scan_sources rule.sources [] rule none refl refl distinct tt
        (λ r apart fewer. absurd (omega (arith, count, fewer)))
  delete_sources-Deletes (suc k) rule count distinct =
      scan_sources rule.sources [] rule none refl refl distinct tt
        (λ r apart fewer. delete_sources-Deletes k r (omega (arith, count, fewer)) apart)

  -- Deleting a folder ends, however much fuel above some number it has: in the rule of a search
  -- folder that is known, exactly the sources that are equal to the deleted URI are gone, the others
  -- keep their order and addresses, and the rule has changed once for each that is gone; given that
  -- every string has its own address.
  pub delete_sources-deletes :
      (rule : VFolderRule)
      → AreDistinct rule.sources
      → (fuel : ℕ) × (out : VFolderRule) × ((n : ℕ)
          → fuel ≤ n
          → delete_sources uri_equal n uri true rule none ≡ some out)
        × (out.sources ≡ left_sources rule.sources)
        × (out.changes ≡ rule.changes + count_equal uri_equal uri rule.sources)
  delete_sources-deletes rule distinct =
      delete_sources-Deletes (count_equal uri_equal uri rule.sources) rule refl distinct
