-- ===== src/FolderCache/Renaming.antt =====
-- libemail-engine/mail-folder-cache.c: the table of a store after the loop of
-- store_folder_renamed_cb.
use e_mail_factory.Base.{
  ◌≡◌, refl, ◌∙◌, ◌≢◌, inl, inr, Text, text_beq, text_beq_iff, List, [], ◌∷◌, ◌++◌, none, some,
  arith, lookup, remove, lookup-insert, lookup-remove, text_eq, Option-cases, if◌then◌else◌, length,
  drop, All,
}
use e_mail_factory.FolderCache.{Camel, StoreInfo, Cache}
use e_mail_factory.FolderCache.Rename.{
  Listed, old_full_name, renamed_entry, rename_folders, rename_all,
}
use e_mail_factory.FolderCache.Tables.{IsKeyed, insert-IsKeyed, remove-IsKeyed}

module _ (env : Camel) (oldbase newbase : Text) where
  -- One rename: the new name has the moved entry, the old name has none, the rest is as it was.
  pub rename_folders-lookup :
      (fi : Listed) (si : StoreInfo) (c : Cache) (name : Text)
      → IsKeyed si.folders
      → let old = old_full_name oldbase newbase fi.full_name in
        lookup name (rename_folders env oldbase newbase fi si c).0.folders ≡ (
          if text_beq fi.full_name name
          then some (renamed_entry fi (lookup old si.folders))
          else if text_beq old name
          then none
          else lookup name si.folders)
  unfolding rename_folders
  rename_folders-lookup fi si c name keyed =
      let old = old_full_name oldbase newbase fi.full_name in
      elim (Option-cases (lookup old si.folders)) [
        | inl e ↦
            rw (e, rename_folders)
              (ground (
                arith,
                lookup-insert fi.full_name name (renamed_entry fi none) si.folders,
                text_beq_iff old name,
              ))
        | inr (mfi, e) ↦
            rw (e, rename_folders)
              (ground (
                arith,
                lookup-insert fi.full_name name (renamed_entry fi (some mfi))
                    (remove mfi.full_name si.folders),
                lookup-remove mfi.full_name name si.folders,
                keyed old mfi e,
              ))
      ]

  pub rename_folders-IsKeyed :
      (fi : Listed) (si : StoreInfo) (c : Cache)
      → IsKeyed si.folders
      → IsKeyed (rename_folders env oldbase newbase fi si c).0.folders
  unfolding rename_folders
  rename_folders-IsKeyed fi si c keyed =
      elim (Option-cases (lookup (old_full_name oldbase newbase fi.full_name) si.folders)) [
        | inl e ↦ rw (e, rename_folders) (insert-IsKeyed fi.full_name _ _ refl keyed)
        | inr (mfi, e) ↦
            rw (e, rename_folders)
              (insert-IsKeyed fi.full_name _ _ refl (remove-IsKeyed mfi.full_name _ keyed))
      ]

  pub rename_all-IsKeyed :
      (fis : List Listed) (si : StoreInfo) (c : Cache)
      → IsKeyed si.folders
      → IsKeyed (rename_all env oldbase newbase fis si c).0.folders
  unfolding rename_all
  rename_all-IsKeyed [] si c keyed = keyed
  rename_all-IsKeyed (fi ∷ fis) si c keyed =
      rename_all-IsKeyed fis _ _ (rename_folders-IsKeyed fi si c keyed)

  -- A name that is neither an old nor a new name of the batch keeps its entry.
  abbrev pub Avoids : Text → Listed → Type 0
  Avoids name fi = (fi.full_name ≢ name) × (old_full_name oldbase newbase fi.full_name ≢ name)

  pub rename_all-lookup_other :
      (fis : List Listed) (si : StoreInfo) (c : Cache) (name : Text)
      → IsKeyed si.folders
      → All (Avoids name) fis
      → lookup name (rename_all env oldbase newbase fis si c).0.folders ≡ lookup name si.folders
  unfolding rename_all
  rename_all-lookup_other [] si c name keyed avoid = refl
  rename_all-lookup_other (fi ∷ fis) si c name keyed avoid =
      rename_all-lookup_other fis _ _ name (rename_folders-IsKeyed fi si c keyed) avoid.1
      ∙ rename_folders-lookup fi si c name keyed
      ∙ ground (
        arith,
        text_beq_iff fi.full_name name,
        text_beq_iff (old_full_name oldbase newbase fi.full_name) name,
        avoid.0,
      )

  -- The name begins with the new base.
  abbrev pub HasBase : Listed → Type 0
  HasBase fi = newbase ++ drop (length newbase) fi.full_name ≡ fi.full_name

  -- No name below the old base is one below the new base.
  abbrev pub NoClash : Type 0
  NoClash = (x y : Text) → oldbase ++ x ≢ newbase ++ y
