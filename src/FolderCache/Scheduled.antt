-- ===== src/FolderCache/Scheduled.antt =====
-- libemail-engine/mail-folder-cache.c: the pending updates and the scheduled flush, over whole
-- histories.
use e_mail_factory.Base.{
  ℕ, ◌<◌, ◌≡◌, refl, sym, ◌∙◌, not, ◌&&◌, ◌⊎◌, inl, inr, Text, Bool, true, false, List, [], ◌∷◌,
  Option, none, some, All, arith, lookup, text_eq, nat_eq, Option-cases, Bool-cases, ℤ, negsuc,
  int_beq, ltb, insert, if◌then◌else◌,
}
use e_mail_factory.FolderCache.{
  Camel, MessageInfo, FolderTree, nil, node, FolderInfo, FolderUpdate, StoreInfo, Cache, Signal,
}
use e_mail_factory.FolderCache.Updates.{
  flush_updates, count_unread, push_update, update_1folder, unset_folder_info, setup_folder,
  create_folders,
}
use e_mail_factory.FolderCache.Callbacks.{
  note_folder, store_folder_subscribed_cb, store_folder_created_cb, store_folder_unsubscribed_cb,
  store_folder_deleted_cb, folder_changed_cb, scan_changes,
}
use e_mail_factory.FolderCache.Stores.{
  note_store, store_go_online_cb, note_option, note_folders, first_update, scan_folders,
  update_folders, drop_request, unset_all, service_removed,
}
use e_mail_factory.FolderCache.Rename.{
  Listed, rename_folders, rename_all, rename_sorted, store_folder_renamed_cb, sort_folders,
  get_folders,
}
use e_mail_factory.FolderCache.Uris.{emit, handle_available, handle_unavailable, handle_deleted}
use e_mail_factory.FolderCache.Flush.{
  signals_of, emit_all, reset_folder, unref_folder, open_vee_folder, pop_update,
}
use e_mail_factory.FolderCache.Cases.{
  note_folder_cases, subscribed_cases, unsubscribed_cases, report_changes_cases, renamed_cases,
  scan_folders_cases, update_folders_cases, end_first_update_cases, service_removed_cases,
}
use e_mail_factory.FolderCache.Events.{
  Event, folder_opened, folder_created, folder_deleted, folder_renamed, folder_subscribed,
  folder_unsubscribed, changed, service_enabled, went_online, got_folders, service_disabled,
  store_noted, update_popped, vee_folder_opened, weak_pointer_reset, step, run,
}

abbrev pub IsScheduled : Cache → Type 0
IsScheduled c = (c.updates ≡ []) ⊎ (0 < c.update_id)

module _ (env : Camel) (live : 0 < env.source_id) where
  push_update-IsScheduled : (up : FolderUpdate) (c : Cache) → IsScheduled (push_update env up c)
  unfolding push_update flush_updates
  push_update-IsScheduled up c = ground arith

  update_1folder-IsScheduled :
      (s : ℕ) (mfi : FolderInfo) (new : ℕ) (uid sender subject : Option Text) (info : Option ℤ)
      (c : Cache)
      → IsScheduled c
      → IsScheduled (update_1folder env s mfi new uid sender subject info c)
  unfolding update_1folder
  update_1folder-IsScheduled s mfi new uid sender subject info c h =
      elim (Bool-cases (int_beq (count_unread env c mfi.folder info) (negsuc 0))) [
        | inl e ↦ rw e h
        | inr e ↦ rw e (push_update-IsScheduled _ c)
      ]

  unset_folder_info-IsScheduled :
      (s : ℕ) (mfi : FolderInfo) (delete unsub : Bool) (c : Cache)
      → IsScheduled c
      → IsScheduled (unset_folder_info env s mfi delete unsub c)
  unfolding unset_folder_info
  unset_folder_info-IsScheduled s mfi delete unsub c h =
      elim (Bool-cases (env.noselect mfi.flags)) [
        | inl e ↦ rw e h
        | inr e ↦ rw e (push_update-IsScheduled _ c)
      ]

  setup_folder-IsScheduled :
      (name : Text) (flags : ℕ) (unread : ℤ) (child : FolderTree) (si : StoreInfo) (c : Cache)
      → IsScheduled c
      → IsScheduled (setup_folder env name flags unread child si c).1
  unfolding setup_folder
  setup_folder-IsScheduled name flags unread child si c h =
      elim (Option-cases (lookup name si.folders)) [
        | inl e ↦ rw (e, setup_folder) (push_update-IsScheduled _ c)
        | inr (mfi, e) ↦
            rw (e, setup_folder)
              (update_1folder-IsScheduled si.store mfi 0 none none none (some unread) c h)
      ]

  create_folders-IsScheduled :
      (fi : FolderTree) (si : StoreInfo) (c : Cache)
      → IsScheduled c
      → IsScheduled (create_folders env fi si c).1
  unfolding create_folders
  create_folders-IsScheduled nil si c h = h
  create_folders-IsScheduled (node name flags unread child next) si c h =
      create_folders-IsScheduled next _ _ (
        create_folders-IsScheduled child _ _
          (setup_folder-IsScheduled name flags unread child si c h))

  note_folder-IsScheduled : (f : ℕ) (c : Cache) → IsScheduled c → IsScheduled (note_folder env f c)
  note_folder-IsScheduled f c h =
      note_folder_cases IsScheduled env f c h
        λ si mfi _ _ _. update_1folder-IsScheduled si.store _ 0 none none none none _ h

  note_option-IsScheduled :
      (o : Option ℕ) (c : Cache) → IsScheduled c → IsScheduled (note_option env o c)
  note_option-IsScheduled none c h = h
  note_option-IsScheduled (some f) c h = note_folder-IsScheduled f c h

  note_folders-IsScheduled :
      (fs : List ℕ) (c : Cache) → IsScheduled c → IsScheduled (note_folders env fs c)
  unfolding note_folders
  note_folders-IsScheduled [] c h = h
  note_folders-IsScheduled (f ∷ fs) c h =
      note_folders-IsScheduled fs _ (note_folder-IsScheduled f c h)

  subscribed-IsScheduled :
      (s : ℕ) (info : FolderTree) (c : Cache)
      → IsScheduled c
      → IsScheduled (store_folder_subscribed_cb env s info c)
  subscribed-IsScheduled s info c h =
      subscribed_cases IsScheduled env s info c h
        λ name flags unread child si _. setup_folder-IsScheduled name flags unread child si c h

  unsubscribed-IsScheduled :
      (s : ℕ) (name : Text) (c : Cache)
      → IsScheduled c
      → IsScheduled (store_folder_unsubscribed_cb env s name c)
  unsubscribed-IsScheduled s name c h =
      unsubscribed_cases IsScheduled env s name c h
        λ si mfi _ _. unset_folder_info-IsScheduled si.store mfi true true c h

  folder_changed_cb-IsScheduled :
      (f : ℕ) (added : List (Option MessageInfo)) (c : Cache)
      → IsScheduled c
      → IsScheduled (folder_changed_cb env f added c)
  unfolding folder_changed_cb
  folder_changed_cb-IsScheduled f added c h =
      let mail = scan_changes env f added c in
      report_changes_cases IsScheduled env f mail _ (kept (ltb 0 mail.count) mail.latest) λ si mfi.
        update_1folder-IsScheduled si.store mfi mail.count mail.uid mail.sender mail.subject none _
          (kept (ltb 0 mail.count) mail.latest)
    where
      kept :
          (b : Bool) (latest : ℤ)
          → IsScheduled (
              if b
              then record c { last_newmail_per_folder = insert f latest c.last_newmail_per_folder }
              else c)
      kept true latest = h
      kept false latest = h

  rename_all-IsScheduled :
      (oldbase newbase : Text) (fis : List Listed) (si : StoreInfo) (c : Cache)
      → IsScheduled c
      → IsScheduled (rename_all env oldbase newbase fis si c).1
  unfolding rename_all rename_folders
  rename_all-IsScheduled oldbase newbase [] si c h = h
  rename_all-IsScheduled oldbase newbase (fi ∷ fis) si c h =
      rename_all-IsScheduled oldbase newbase fis _ _ (push_update-IsScheduled _ _)

  rename_sorted-IsScheduled :
      (old_name : Text) (fis : List Listed) (si : StoreInfo) (c : Cache)
      → IsScheduled c
      → IsScheduled (rename_sorted env old_name fis si c).1
  rename_sorted-IsScheduled old_name [] si c h = h
  rename_sorted-IsScheduled old_name (top ∷ rest) si c h =
      rename_all-IsScheduled old_name top.full_name (top ∷ rest) si c h

  renamed-IsScheduled :
      (s : ℕ) (old_name : Text) (info : FolderTree) (c : Cache)
      → IsScheduled c
      → IsScheduled (store_folder_renamed_cb env s old_name info c)
  renamed-IsScheduled s old_name info c h =
      renamed_cases IsScheduled env s old_name info c h
        λ si _. rename_sorted-IsScheduled old_name (sort_folders (get_folders info)) si c h

  scan_folders-IsScheduled :
      (s ud : ℕ) (fi : FolderTree) (gone : Bool) (si : StoreInfo) (c : Cache)
      → IsScheduled c
      → IsScheduled (scan_folders env s ud fi gone si c)
  scan_folders-IsScheduled s ud fi gone si c h =
      scan_folders_cases IsScheduled env s ud fi gone si c h
        (create_folders-IsScheduled fi (drop_request ud si) c h)

  first_update-IsScheduled :
      (si : StoreInfo) (c : Cache) → IsScheduled c → IsScheduled (first_update env si c)
  unfolding first_update
  first_update-IsScheduled si c h = elim (Bool-cases (env.is_local_store si.store)) [
    | inl e ↦ rw e (note_folders-IsScheduled env.local_folders _ noted)
    | inr e ↦ rw e noted
  ]
    where
      noted : IsScheduled (note_option env si.vtrash (note_option env si.vjunk c))
      noted = note_option-IsScheduled si.vtrash _ (note_option-IsScheduled si.vjunk c h)

  update_folders-IsScheduled :
      (s ud : ℕ) (fi : FolderTree) (gone : Bool) (c : Cache)
      → IsScheduled c
      → IsScheduled (update_folders env s ud fi gone c)
  update_folders-IsScheduled s ud fi gone c h =
      update_folders_cases IsScheduled env s ud fi gone c h
        (λ si _. scan_folders-IsScheduled s ud fi gone si c h)
        λ si _.
          let noted =
            first_update-IsScheduled si _ (scan_folders-IsScheduled s ud fi gone si c h) in
          end_first_update_cases IsScheduled env s _ noted λ _ _. noted

  unset_all-IsScheduled :
      (s : ℕ) (m : List (Text × FolderInfo)) (c : Cache)
      → IsScheduled c
      → IsScheduled (unset_all env s m c)
  unfolding unset_all
  unset_all-IsScheduled s [] c h = h
  unset_all-IsScheduled s ((name, mfi) ∷ m) c h =
      unset_all-IsScheduled s m _ (unset_folder_info-IsScheduled s mfi false false c h)

  service_removed-IsScheduled :
      (s : ℕ) (c : Cache) → IsScheduled c → IsScheduled (service_removed env s c)
  service_removed-IsScheduled s c h =
      service_removed_cases IsScheduled env s c h
        λ si _. unset_all-IsScheduled si.store si.folders _ h

  -- The class handlers leave the queue and the flush alone.
  emit-IsScheduled : (x : Signal) (c : Cache) → IsScheduled c → IsScheduled (emit env x c)
  unfolding emit handle_available handle_unavailable handle_deleted
  emit-IsScheduled (Signal.folder_available s name) c h = ground (arith, h)
  emit-IsScheduled (Signal.folder_unavailable s name) c h = ground (arith, h)
  emit-IsScheduled (Signal.folder_deleted s name) c h = ground (arith, h)
  emit-IsScheduled (Signal.folder_renamed s old name) c h = h
  emit-IsScheduled (Signal.folder_unread_updated s name n) c h = h
  emit-IsScheduled (Signal.folder_changed s name n uid sender subject) c h = h

  emit_all-IsScheduled :
      (xs : List Signal) (c : Cache) → IsScheduled c → IsScheduled (emit_all env xs c)
  unfolding emit_all
  emit_all-IsScheduled [] c h = h
  emit_all-IsScheduled (x ∷ xs) c h =
      emit_all-IsScheduled xs (emit env x c) (emit-IsScheduled x c h)

  -- The loop ends with an empty queue; until then its flush counts as scheduled.
  pop_update-IsScheduled : (c : Cache) → IsScheduled c → IsScheduled (pop_update env c)
  unfolding pop_update
  pop_update-IsScheduled c h = popped c.updates refl
    where
      popped : (us : List FolderUpdate) → c.updates ≡ us → IsScheduled (pop_update env c)
      popped [] e = rw (e, pop_update) (inl e)
      popped (up ∷ rest) e =
          rw (e, pop_update)
            (emit_all-IsScheduled (signals_of up) (record c { updates = rest })
              (elim h [
                | inl none_left ↦ absurd (let no : up ∷ rest ≡ [] = sym e ∙ none_left in cc)
                | inr live ↦ inr live
              ]))

  reset_folder-IsScheduled :
      (s : ℕ) (name : Text) (c : Cache) → IsScheduled c → IsScheduled (reset_folder s name c)
  unfolding reset_folder
  reset_folder-IsScheduled s name c h = elim (Option-cases (lookup s c.stores)) [
    | inl e ↦ rw (e, reset_folder) h
    | inr (si, e) ↦ elim (Option-cases (lookup name si.folders)) [
      | inl d ↦ rw (e, reset_folder) (rw (d, reset_folder) h)
      | inr (mfi, d) ↦ rw (e, reset_folder) (rw (d, reset_folder) h)
    ]
  ]

  open_vee_folder-IsScheduled :
      (up : FolderUpdate) (c : Cache) → IsScheduled c → IsScheduled (open_vee_folder env up c)
  unfolding open_vee_folder unref_folder
  open_vee_folder-IsScheduled up c h =
      elim (Bool-cases (env.is_vee_store up.store && not up.is_remove)) [
        | inr e ↦ rw e h
        | inl e ↦ elim (Option-cases (env.get_folder up.store up.full_name)) [
          | inl d ↦ rw e (rw d h)
          | inr (f, d) ↦ elim (Bool-cases (env.is_held f)) [
            | inl b ↦ rw e (rw d (rw b (note_folder-IsScheduled f c h)))
            | inr b ↦
                rw e (rw d (rw b (reset_folder-IsScheduled _ _ _ (note_folder-IsScheduled f c h))))
          ]
        ]
      ]

  pub step-IsScheduled : (e : Event) (c : Cache) → IsScheduled c → IsScheduled (step env e c)
  unfolding step store_folder_created_cb store_folder_deleted_cb note_store store_go_online_cb
  step-IsScheduled (folder_opened f) c h = note_folder-IsScheduled f c h
  step-IsScheduled (folder_created s info) c h = elim (Bool-cases (env.is_subscribable s)) [
    | inl e ↦ rw e h
    | inr e ↦ rw e (subscribed-IsScheduled s info c h)
  ]
  step-IsScheduled (folder_deleted s name) c h = elim (Bool-cases (env.is_subscribable s)) [
    | inl e ↦ rw e h
    | inr e ↦ rw e (unsubscribed-IsScheduled s name c h)
  ]
  step-IsScheduled (folder_renamed s old info) c h = renamed-IsScheduled s old info c h
  step-IsScheduled (folder_subscribed s info) c h = subscribed-IsScheduled s info c h
  step-IsScheduled (folder_unsubscribed s name) c h = unsubscribed-IsScheduled s name c h
  step-IsScheduled (changed f added) c h = folder_changed_cb-IsScheduled f added c h
  step-IsScheduled (service_enabled s ud) c h = h
  step-IsScheduled (went_online s ud gone) c h = ground arith
  step-IsScheduled (got_folders s ud fi gone) c h = update_folders-IsScheduled s ud fi gone c h
  step-IsScheduled (service_disabled s) c h = service_removed-IsScheduled s c h
  step-IsScheduled (store_noted s ud cancellable) c h = h
  step-IsScheduled update_popped c h = pop_update-IsScheduled c h
  step-IsScheduled (vee_folder_opened up) c h = open_vee_folder-IsScheduled up c h
  step-IsScheduled (weak_pointer_reset s name) c h = reset_folder-IsScheduled s name c h

-- After any history of events, each round of flush_updates_idle_cb among them, a flush is scheduled whenever updates are pending, if it was so at
-- the start and g_idle_add_full returns source ids above 0, as it documents.
pub run-IsScheduled :
    (es : List (Camel × Event)) (c : Cache)
    → All (λ e. 0 < e.0.source_id) es
    → IsScheduled c
    → IsScheduled (run es c)
unfolding run
run-IsScheduled [] c live h = h
run-IsScheduled ((env, e) ∷ es) c live h =
    run-IsScheduled es (step env e c) live.1 (step-IsScheduled env live.0 e c h)
