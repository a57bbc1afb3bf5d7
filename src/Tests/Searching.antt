-- ===== src/Tests/Searching.antt =====
-- libemail-engine/mail-vfolder.c at a rule with the sources `old`, `kept` and once more `old`, of
-- which the first includes its subfolders.
use e_mail_factory.Base.{
  ℕ, suc, ◌+◌, ◌≤◌, ◌≡◌, refl, Text, codes, text_beq, true, false, List, [], ◌∷◌, none, some, arith,
  IsAbsent, g_list_remove, inl, next_links, after_link,
}
use e_mail_factory.SearchFolder.{VFolderRule}
use e_mail_factory.SearchFolder.Sources.{
  find_source, has_address, remove_address, next_source, set_include_subfolders, delete_sources,
  remove_source, rename_sources, get_include_subfolders,
}
use e_mail_factory.SearchFolder.Deletion.{delete_sources-deletes}
use e_mail_factory.SearchFolder.Renames.{texts, rename_sources-renames}
use e_mail_factory.SearchFolder.Subfolders.{get_include_subfolders-rename_sources}

-- An address above all that are in use.
abbrev above : List (ℕ × Text) → ℕ
above [] = 0
above ((a, s) ∷ xs) = suc (a + above xs)

IsAbsent-above : (bound : ℕ) (xs : List (ℕ × Text)) → above xs ≤ bound → IsAbsent bound xs
IsAbsent-above bound [] le = tt
IsAbsent-above bound ((a, s) ∷ xs) le =
    ((λ e. omega (arith, e, le)), IsAbsent-above bound xs (omega arith))

abbrev rule : VFolderRule
rule = record {
  sources = (1, codes "old") ∷ (2, codes "kept") ∷ (3, codes "old") ∷ [];
  include_subfolders = 1 ∷ [];
  changes = 0;
}

rename_sources-renames_example :
    (fuel : ℕ) × (out : VFolderRule) × ((n : ℕ)
      → fuel ≤ n
      → rename_sources text_beq above n (codes "old") (codes "new") true rule none ≡ some out)
    × (texts text_beq (codes "old") out.sources ≡ codes "kept" ∷ codes "new" ∷ codes "new" ∷ [])
rename_sources-renames_example =
    rename_sources-renames text_beq (codes "old") above (codes "new")
      (λ xs. IsAbsent-above (above xs) xs (omega arith)) refl rule
      (
        ((λ e. omega (arith, e)), ((λ e. omega (arith, e)), tt)),
        (((λ e. omega (arith, e)), tt), (tt, tt)),
      )

delete_sources-deletes_example :
    (fuel : ℕ) × (out : VFolderRule) × ((n : ℕ)
      → fuel ≤ n
      → delete_sources text_beq n (codes "old") true rule none ≡ some out)
    × (out.sources ≡ (2, codes "kept") ∷ [])
    × (out.changes ≡ 2)
delete_sources-deletes_example = delete_sources-deletes text_beq (codes "old") rule (
  ((λ e. omega (arith, e)), ((λ e. omega (arith, e)), tt)),
  (((λ e. omega (arith, e)), tt), (tt, tt)),
)

get_include_subfolders-rename_sources_example :
    (fuel : ℕ) × (out : VFolderRule) × ((n : ℕ)
      → fuel ≤ n
      → rename_sources text_beq above n (codes "old") (codes "new") true rule none ≡ some out)
    × (texts text_beq (codes "old") out.sources ≡ codes "kept" ∷ codes "new" ∷ codes "new" ∷ [])
    × (get_include_subfolders (codes "new") out ≡ false)
get_include_subfolders-rename_sources_example =
    get_include_subfolders-rename_sources text_beq above
      (λ xs. IsAbsent-above (above xs) xs (omega arith)) (codes "old") (codes "new") rule refl
      (
        (
          ((λ e. omega (arith, e)), ((λ e. omega (arith, e)), tt)),
          (((λ e. omega (arith, e)), tt), (tt, tt)),
        ),
        (inl (refl, refl), tt),
      )

-- The old source includes its subfolders.
get_include_subfolders_test : get_include_subfolders (codes "old") rule ≡ true
unfolding get_include_subfolders find_source has_address
get_include_subfolders_test = refl

-- The flag is kept for the first source of the name.
set_include_subfolders_test :
    get_include_subfolders (codes "kept") (set_include_subfolders (codes "kept") true rule) ≡ true
unfolding get_include_subfolders set_include_subfolders find_source has_address remove_address
set_include_subfolders_test = refl

delete_sources_test :
    delete_sources text_beq 6 (codes "old") true rule none
    ≡ some (record rule { sources = (2, codes "kept") ∷ []; include_subfolders = []; changes = 2 })
unfolding delete_sources next_source next_links after_link remove_source find_source g_list_remove
    remove_address
delete_sources_test = refl
