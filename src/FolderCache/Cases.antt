-- ===== src/FolderCache/Cases.antt =====
-- libemail-engine/mail-folder-cache.c: each callback, by cases on what it finds in the tables, as
-- rules about a predicate on caches.
use e_mail_factory.Base.{
  ℕ, ◌≡◌, Text, option_beq, Bool, true, false, none, some, lookup, insert, remove, text_eq, nat_eq,
  Option-cases, Bool-cases, inl, inr, ℤ, ◌++◌,
}
use e_mail_factory.FolderCache.{Camel, FolderTree, nil, node, FolderInfo, StoreInfo, Cache}
use e_mail_factory.FolderCache.Updates.{update_1folder, unset_folder_info, setup_folder}
use e_mail_factory.FolderCache.Callbacks.{
  NewMail, put_folder, note_folder, store_folder_subscribed_cb, store_folder_unsubscribed_cb,
  report_changes,
}
use e_mail_factory.FolderCache.Stores.{
  drop_request, scan_folders, update_folders, first_update, end_first_update, service_removed,
  unset_all, cancel_requests,
}
use e_mail_factory.FolderCache.Updates.{create_folders}
use e_mail_factory.FolderCache.Rename.{
  rename_sorted, sort_folders, get_folders, store_folder_renamed_cb,
}

module _ {ℓ} (P : Cache → Type ℓ) (env : Camel) where
  pub note_folder_cases :
      (f : ℕ) (c : Cache)
      → P c
      → ((si : StoreInfo) (mfi : FolderInfo)
          → lookup (env.parent_store f) c.stores ≡ some si
          → lookup (env.full_name f) si.folders ≡ some mfi
          → option_beq mfi.folder (some f) ≡ false
          → P (
              update_1folder env si.store
                (record mfi { folder = some f })
                0
                none
                none
                none
                none
                (put_folder
                  (env.parent_store f)
                  si
                  (env.full_name f)
                  (record mfi { folder = some f })
                  c)))
      → P (note_folder env f c)
  unfolding note_folder
  note_folder_cases f c same noted = elim (Option-cases (lookup (env.parent_store f) c.stores)) [
    | inl e ↦ rw (e, note_folder) same
    | inr (si, e) ↦ elim (Option-cases (lookup (env.full_name f) si.folders)) [
      | inl d ↦ rw (e, note_folder) (rw (d, note_folder) same)
      | inr (mfi, d) ↦ elim (Bool-cases (option_beq mfi.folder (some f))) [
        | inl b ↦ rw (e, note_folder) (rw (d, note_folder) (rw b same))
        | inr b ↦ rw (e, note_folder) (rw (d, note_folder) (rw b (noted si mfi e d b)))
      ]
    ]
  ]

  pub subscribed_cases :
      (s : ℕ) (info : FolderTree) (c : Cache)
      → P c
      → ((name : Text) (flags : ℕ) (unread : ℤ) (child : FolderTree) (si : StoreInfo)
          → lookup s c.stores ≡ some si
          → let r = setup_folder env name flags unread child si c in
            P (record (r.1) { stores = insert s r.0 r.1.stores }))
      → P (store_folder_subscribed_cb env s info c)
  unfolding store_folder_subscribed_cb
  subscribed_cases s nil c same found = same
  subscribed_cases s (node name flags unread child next) c same found =
      elim (Option-cases (lookup s c.stores)) [
        | inl e ↦ rw (e, store_folder_subscribed_cb) same
        | inr (si, e) ↦ rw (e, store_folder_subscribed_cb) (found name flags unread child si e)
      ]

  pub unsubscribed_cases :
      (s : ℕ) (name : Text) (c : Cache)
      → P c
      → ((si : StoreInfo) (mfi : FolderInfo)
          → lookup s c.stores ≡ some si
          → lookup name si.folders ≡ some mfi
          → let c' = unset_folder_info env si.store mfi true true c in
            P (record c' {
              stores = insert s (record si { folders = remove mfi.full_name si.folders }) c'.stores;
            }))
      → P (store_folder_unsubscribed_cb env s name c)
  unfolding store_folder_unsubscribed_cb
  unsubscribed_cases s name c same found = elim (Option-cases (lookup s c.stores)) [
    | inl e ↦ rw (e, store_folder_unsubscribed_cb) same
    | inr (si, e) ↦ elim (Option-cases (lookup name si.folders)) [
      | inl d ↦ rw (e, store_folder_unsubscribed_cb) (rw (d, store_folder_unsubscribed_cb) same)
      | inr (mfi, d) ↦
          rw (e, store_folder_unsubscribed_cb)
            (rw (d, store_folder_unsubscribed_cb) (found si mfi e d))
    ]
  ]

  pub report_changes_cases :
      (f : ℕ) (mail : NewMail) (c : Cache)
      → P c
      → ((si : StoreInfo) (mfi : FolderInfo)
          → P (update_1folder env si.store mfi mail.count mail.uid mail.sender mail.subject none c))
      → P (report_changes env f mail c)
  unfolding report_changes
  report_changes_cases f mail c same found =
      elim (Option-cases (lookup (env.parent_store f) c.stores)) [
        | inl e ↦ rw (e, report_changes) same
        | inr (si, e) ↦ elim (Option-cases (lookup (env.full_name f) si.folders)) [
          | inl d ↦ rw (e, report_changes) (rw (d, report_changes) same)
          | inr (mfi, d) ↦ elim (Bool-cases (option_beq mfi.folder (some f))) [
            | inl b ↦ rw (e, report_changes) (rw (d, report_changes) (rw b (found si mfi)))
            | inr b ↦ rw (e, report_changes) (rw (d, report_changes) (rw b same))
          ]
        ]
      ]

  pub renamed_cases :
      (s : ℕ) (old_name : Text) (info : FolderTree) (c : Cache)
      → P c
      → ((si : StoreInfo)
          → lookup s c.stores ≡ some si
          → let r = rename_sorted env old_name (sort_folders (get_folders info)) si c in
            P (record (r.1) { stores = insert s r.0 r.1.stores }))
      → P (store_folder_renamed_cb env s old_name info c)
  unfolding store_folder_renamed_cb
  renamed_cases s old_name info c same found = elim (Option-cases (lookup s c.stores)) [
    | inl e ↦ rw (e, store_folder_renamed_cb) same
    | inr (si, e) ↦ rw (e, store_folder_renamed_cb) (found si e)
  ]

  pub scan_folders_cases :
      (s ud : ℕ) (fi : FolderTree) (gone : Bool) (si : StoreInfo) (c : Cache)
      → P (record c { stores = insert s (drop_request ud si) c.stores })
      → (let r = create_folders env fi (drop_request ud si) c in
          P (record (r.1) { stores = insert s r.0 r.1.stores }))
      → P (scan_folders env s ud fi gone si c)
  unfolding scan_folders
  scan_folders_cases s ud fi true si c stopped scanned = stopped
  scan_folders_cases s ud fi false si c stopped scanned = scanned

  pub update_folders_cases :
      (s ud : ℕ) (fi : FolderTree) (gone : Bool) (c : Cache)
      → P c
      → ((si : StoreInfo) → lookup s c.stores ≡ some si → P (scan_folders env s ud fi gone si c))
      → ((si : StoreInfo)
          → lookup s c.stores ≡ some si
          → P (end_first_update s (first_update env si (scan_folders env s ud fi gone si c))))
      → P (update_folders env s ud fi gone c)
  unfolding update_folders
  update_folders_cases s ud fi gone c same later first = elim (Option-cases (lookup s c.stores)) [
    | inl e ↦ rw (e, update_folders) same
    | inr (si, e) ↦ elim (Bool-cases si.first_update) [
      | inl b ↦ rw (e, update_folders) (simp b (first si e))
      | inr b ↦ rw (e, update_folders) (simp b (later si e))
    ]
  ]

  pub end_first_update_cases :
      (s : ℕ) (c : Cache)
      → P c
      → ((si : StoreInfo)
          → lookup s c.stores ≡ some si
          → P (record c { stores = insert s (record si { first_update = false }) c.stores }))
      → P (end_first_update s c)
  unfolding end_first_update
  end_first_update_cases s c same found = elim (Option-cases (lookup s c.stores)) [
    | inl e ↦ rw (e, end_first_update) same
    | inr (si, e) ↦ rw (e, end_first_update) (found si e)
  ]

  pub service_removed_cases :
      (s : ℕ) (c : Cache)
      → P c
      → ((si : StoreInfo)
          → lookup s c.stores ≡ some si
          → let c' = unset_all env si.store si.folders (record c { stores = remove s c.stores }) in
            P (record c' { cancelled = c'.cancelled ++ cancel_requests si.folderinfo_updates }))
      → P (service_removed env s c)
  unfolding service_removed
  service_removed_cases s c same found = elim (Option-cases (lookup s c.stores)) [
    | inl e ↦ rw (e, service_removed) same
    | inr (si, e) ↦ rw (e, service_removed) (found si e)
  ]
