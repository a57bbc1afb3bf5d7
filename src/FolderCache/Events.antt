-- ===== src/FolderCache/Events.antt =====
-- libemail-engine/mail-folder-cache.c: everything that happens to the cache, one event at a time. The
-- recursive mutex of the source makes each callback one step; flush_updates_idle_cb, which gives it up
-- while it emits and opens, is a step that pops an update or ends the loop, and a step that notes the
-- folder of an update. The weak pointer of an entry is reset at any time.
use e_mail_factory.Base.{ℕ, Text, Bool, List, [], ◌∷◌, Option, none}
use e_mail_factory.FolderCache.{Camel, MessageInfo, FolderTree, FolderUpdate, Cache}
use e_mail_factory.FolderCache.Callbacks.{
  note_folder, store_folder_subscribed_cb, store_folder_created_cb, store_folder_unsubscribed_cb,
  store_folder_deleted_cb, folder_changed_cb,
}
use e_mail_factory.FolderCache.Stores.{
  note_store, store_go_online_cb, update_folders, service_removed,
}
use e_mail_factory.FolderCache.Rename.{store_folder_renamed_cb}
use e_mail_factory.FolderCache.Flush.{pop_update, open_vee_folder, reset_folder}

pub data Event : Type 0 where
  folder_opened : ℕ → Event
  folder_created : ℕ → FolderTree → Event
  folder_deleted : ℕ → Text → Event
  folder_renamed : ℕ → Text → FolderTree → Event
  folder_subscribed : ℕ → FolderTree → Event
  folder_unsubscribed : ℕ → Text → Event
  changed : ℕ → List (Option MessageInfo) → Event
  service_enabled : ℕ → ℕ → Event
  went_online : ℕ → ℕ → Bool → Event
  got_folders : ℕ → ℕ → FolderTree → Bool → Event
  service_disabled : ℕ → Event
  store_noted : ℕ → ℕ → Option ℕ → Event
  update_popped : Event
  vee_folder_opened : FolderUpdate → Event
  weak_pointer_reset : ℕ → Text → Event

unfoldable pub step : Camel → Event → Cache → Cache
step env (folder_opened f) c = note_folder env f c
step env (folder_created s info) c = store_folder_created_cb env s info c
step env (folder_deleted s name) c = store_folder_deleted_cb env s name c
step env (folder_renamed s old info) c = store_folder_renamed_cb env s old info c
step env (folder_subscribed s info) c = store_folder_subscribed_cb env s info c
step env (folder_unsubscribed s name) c = store_folder_unsubscribed_cb env s name c
step env (changed f added) c = folder_changed_cb env f added c
step env (service_enabled s ud) c = (note_store env s ud none c).0
step env (went_online s ud gone) c = (store_go_online_cb env s ud gone c).0
step env (got_folders s ud fi gone) c = update_folders env s ud fi gone c
step env (service_disabled s) c = service_removed env s c
step env (store_noted s ud cancellable) c = (note_store env s ud cancellable c).0
step env update_popped c = pop_update env c
step env (vee_folder_opened up) c = open_vee_folder env up c
step env (weak_pointer_reset s name) c = reset_folder s name c

-- A history: each event with the answers that the environment gives during it.
unfoldable pub run : List (Camel × Event) → Cache → Cache
run [] c = c
run ((env, e) ∷ es) c = run es (step env e c)
