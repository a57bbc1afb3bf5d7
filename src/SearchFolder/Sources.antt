-- ===== src/SearchFolder/Sources.antt =====
-- libemail-engine/em-vfolder-rule.c and libemail-engine/mail-vfolder.c: the sources of a rule, and the
-- loops over them when a folder is deleted or renamed. `alloc` is the address that g_strdup gives
-- while the given strings are in use; `uri_equal` is e_mail_folder_uri_equal; `has_vf` tells whether
-- vfolder_hash knows the rule.
use e_mail_factory.Base.{
  ℕ, zero, suc, ◌+◌, Text, text_beq, nat_beq, if◌then◌else◌, Bool, true, false, ◌&&◌, List, [], ◌∷◌,
  ◌++◌, Option, none, some, next_links, first, g_list_remove,
}
use e_mail_factory.SearchFolder.{VFolderRule}

-- em_vfolder_rule_add_source
unfoldable pub add_source : (List (ℕ × Text) → ℕ) → Text → VFolderRule → VFolderRule
add_source alloc uri rule = record rule {
  sources = rule.sources ++ (alloc rule.sources, uri) ∷ [];
  changes = rule.changes + 1;
}

-- em_vfolder_rule_find_source, with the address
unfoldable pub find_source : Text → List (ℕ × Text) → Option (ℕ × Text)
find_source uri [] = none
find_source uri ((a, s) ∷ sources) = if text_beq s uri then some (a, s) else find_source uri sources

-- g_hash_table_remove, for a table that is used as a set of addresses
unfoldable pub remove_address : ℕ → List ℕ → List ℕ
remove_address a [] = []
remove_address a (b ∷ bs) = if nat_beq b a then remove_address a bs else b ∷ remove_address a bs

unfoldable pub has_address : ℕ → List ℕ → Bool
has_address a [] = false
has_address a (b ∷ bs) = if nat_beq b a then true else has_address a bs

-- em_vfolder_rule_remove_source
unfoldable pub remove_source : Text → VFolderRule → VFolderRule
remove_source uri rule = elim (find_source uri rule.sources) [
  | none ↦ rule
  | some p ↦ record rule {
    sources = g_list_remove p.0 rule.sources;
    include_subfolders = remove_address p.0 rule.include_subfolders;
    changes = rule.changes + 1;
  }
]

-- em_vfolder_rule_next_source
unfoldable pub next_source : List (ℕ × Text) → Option ℕ → Option (ℕ × Text)
next_source sources last = first (next_links last sources)

-- em_vfolder_rule_source_get_include_subfolders
unfoldable pub get_include_subfolders : Text → VFolderRule → Bool
get_include_subfolders uri rule = elim (find_source uri rule.sources) [
  | none ↦ false
  | some p ↦ has_address p.0 rule.include_subfolders
]

-- em_vfolder_rule_source_set_include_subfolders
unfoldable pub set_include_subfolders : Text → Bool → VFolderRule → VFolderRule
set_include_subfolders uri include rule = elim (find_source uri rule.sources) [
  | none ↦ rule
  | some p ↦ record rule {
    include_subfolders =
        if include
        then p.0 ∷ remove_address p.0 rule.include_subfolders
        else remove_address p.0 rule.include_subfolders;
  }
]

module _ (uri_equal : Text → Text → Bool) where
  -- The inner loop of mail_vfolder_delete_folder, on fuel; `none` means that the fuel ran out.
  unfoldable pub delete_sources : ℕ → Text → Bool → VFolderRule → Option ℕ → Option VFolderRule
  delete_sources zero uri has_vf rule last = none
  delete_sources (suc fuel) uri has_vf rule last = elim (next_source rule.sources last) [
    | none ↦ some rule
    | some p ↦ elim (uri_equal uri p.1 && has_vf) [
      | false ↦ delete_sources fuel uri has_vf rule (some p.0)
      | true ↦ delete_sources fuel uri has_vf (remove_source p.1 rule) none
    ]
  ]

  -- The inner loop of mail_vfolder_rename_folder, likewise.
  unfoldable pub rename_sources :
      (List (ℕ × Text) → ℕ) → ℕ → Text → Text → Bool → VFolderRule → Option ℕ → Option VFolderRule
  rename_sources alloc zero old_uri new_uri has_vf rule last = none
  rename_sources alloc (suc fuel) old_uri new_uri has_vf rule last =
      elim (next_source rule.sources last) [
        | none ↦ some rule
        | some p ↦ elim (uri_equal old_uri p.1 && has_vf) [
          | false ↦ rename_sources alloc fuel old_uri new_uri has_vf rule (some p.0)
          | true ↦
              rename_sources alloc fuel old_uri new_uri has_vf
                (add_source alloc new_uri (remove_source p.1 rule)) none
        ]
      ]
