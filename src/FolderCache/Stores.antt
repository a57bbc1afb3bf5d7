-- ===== src/FolderCache/Stores.antt =====
-- libemail-engine/mail-folder-cache.c: stores come, are scanned, and go; and the lookups by URI.
use e_mail_factory.Base.{
  ℕ, Text, nat_beq, if◌then◌else◌, Bool, true, false, List, [], ◌∷◌, ◌++◌, Option, none, some,
  lookup, insert, remove, nat_eq, text_eq,
}
use e_mail_factory.FolderCache.{
  Camel, FolderTree, FolderInfo, StoreInfo, Cache, Request, store_go_online, store_get_folder_info,
}
use e_mail_factory.FolderCache.Updates.{unset_folder_info, create_folders}
use e_mail_factory.FolderCache.Callbacks.{note_folder}

-- store_info_new
unfoldable pub store_info_new : Camel → ℕ → StoreInfo
store_info_new env s = record {
  folders = [];
  store = s;
  first_update = true;
  vjunk = if env.has_vjunk s then env.junk_folder s else none;
  vtrash = if env.has_vtrash s then env.trash_folder s else none;
  folderinfo_updates = [];
}

-- The request that note_store starts for a store, if any.
unfoldable pub start_request : Camel → ℕ → ℕ → Option Request
start_request env s ud =
    if env.must_go_online s
    then some (store_go_online s ud)
    else if env.has_folder_hierarchy s
    then some (store_get_folder_info s ud)
    else none

abbrev pub or_new : Camel → ℕ → Option StoreInfo → StoreInfo
or_new env s none = store_info_new env s
or_new env s (some si) = si

-- mail_folder_cache_note_store, with the address of the new struct _update_data and its cancellable. The state comes
-- with the request that was started; connecting signals has no effect on it.
unfoldable pub note_store : Camel → ℕ → ℕ → Option ℕ → Cache → Cache × Option Request
note_store env s ud cancellable c =
    let si = or_new env s (lookup s c.stores) in
    (
      record c {
        stores =
            insert s
              (record si { folderinfo_updates = si.folderinfo_updates ++ (ud, cancellable) ∷ [] })
              c.stores;
      },
      start_request env s ud,
    )

-- g_queue_remove: the first entry that is equal goes.
unfoldable pub queue_remove : ℕ → List (ℕ × Option ℕ) → List (ℕ × Option ℕ)
queue_remove ud [] = []
queue_remove ud (u ∷ us) = if nat_beq u.0 ud then us else u ∷ queue_remove ud us

-- The last step of both completions: the request is off the store's list.
abbrev pub drop_request : ℕ → StoreInfo → StoreInfo
drop_request ud si = record si { folderinfo_updates = queue_remove ud si.folderinfo_updates }

-- store_go_online_cb; `is_cancelled` is g_cancellable_is_cancelled (ud->cancellable).
unfoldable pub store_go_online_cb : Camel → ℕ → ℕ → Bool → Cache → Cache × Option Request
store_go_online_cb env s ud is_cancelled c = elim (lookup s c.stores) [
  | none ↦ (c, none)
  | some si ↦
      if is_cancelled
      then (record c { stores = insert s (drop_request ud si) c.stores }, none)
      else (c, if env.has_folder_hierarchy s then some (store_get_folder_info s ud) else none)
]

abbrev pub note_option : Camel → Option ℕ → Cache → Cache
note_option env none c = c
note_option env (some f) c = note_folder env f c

unfoldable pub note_folders : Camel → List ℕ → Cache → Cache
note_folders env [] c = c
note_folders env (f ∷ fs) c = note_folders env fs (note_folder env f c)

-- mail_folder_cache_first_update
unfoldable pub first_update : Camel → StoreInfo → Cache → Cache
first_update env si c =
    let c' = note_option env si.vtrash (note_option env si.vjunk c) in
    if env.is_local_store si.store then note_folders env env.local_folders c' else c'

-- si->first_update = FALSE, for the StoreInfo that stands in the table.
unfoldable pub end_first_update : ℕ → Cache → Cache
end_first_update s c = elim (lookup s c.stores) [
  | none ↦ c
  | some si ↦ record c { stores = insert s (record si { first_update = false }) c.stores }
]

-- The part of update_folders under the lock, for a store that is still there.
unfoldable pub scan_folders : Camel → ℕ → ℕ → FolderTree → Bool → StoreInfo → Cache → Cache
scan_folders env s ud fi is_cancelled si c =
    if is_cancelled
    then record c { stores = insert s (drop_request ud si) c.stores }
    else let (si', c') = create_folders env fi (drop_request ud si) c in
      record c' { stores = insert s si' c'.stores }

-- update_folders; `nil` stands for a request that failed. The caller's `done` is not called here.
unfoldable pub update_folders : Camel → ℕ → ℕ → FolderTree → Bool → Cache → Cache
update_folders env s ud fi is_cancelled c = elim (lookup s c.stores) [
  | none ↦ c
  | some si ↦
      let c' = scan_folders env s ud fi is_cancelled si c in
      if si.first_update then end_first_update s (first_update env si c') else c'
]

-- g_hash_table_foreach (si->folders, unset_folder_info_hash, cache)
unfoldable pub unset_all : Camel → ℕ → List (Text × FolderInfo) → Cache → Cache
unset_all env s [] c = c
unset_all env s ((name, mfi) ∷ m) c = unset_all env s m (unset_folder_info env s mfi false false c)

-- The loop of store_info_free: g_cancellable_cancel does nothing for NULL.
unfoldable pub cancel_requests : List (ℕ × Option ℕ) → List ℕ
cancel_requests [] = []
cancel_requests ((ud, none) ∷ requests) = cancel_requests requests
cancel_requests ((ud, some cancellable) ∷ requests) = cancellable ∷ cancel_requests requests

-- mail_folder_cache_service_removed, with store_info_free
unfoldable pub service_removed : Camel → ℕ → Cache → Cache
service_removed env s c = elim (lookup s c.stores) [
  | none ↦ c
  | some si ↦
      let c' = unset_all env si.store si.folders (record c { stores = remove s c.stores }) in
      record c' { cancelled = c'.cancelled ++ cancel_requests si.folderinfo_updates }
]

-- storeinfo_find_folder_info over the table of stores: the URI's folder name, in the first store
-- that has an entry of that name.
unfoldable pub find_by_name : Text → List (ℕ × StoreInfo) → Option FolderInfo
find_by_name name [] = none
find_by_name name ((s, si) ∷ m) = elim (lookup name si.folders) [
  | some mfi ↦ some mfi
  | none ↦ find_by_name name m
]

unfoldable pub find_folder_info : Camel → Text → Cache → Option FolderInfo
find_folder_info env uri c = elim (env.uri_folder_name uri) [
  | none ↦ none
  | some name ↦ find_by_name name c.stores
]

-- mail_folder_cache_get_folder_from_uri: whether the URI is known, and the folder if it is open.
unfoldable pub get_folder_from_uri : Camel → Text → Cache → Bool × Option ℕ
get_folder_from_uri env uri c = elim (find_folder_info env uri c) [
  | none ↦ (false, none)
  | some mfi ↦ (true, mfi.folder)
]

-- mail_folder_cache_get_folder_info_flags, for the URI of the folder
unfoldable pub get_folder_info_flags : Camel → Text → Cache → Bool × ℕ
get_folder_info_flags env uri c = elim (find_folder_info env uri c) [
  | none ↦ (false, 0)
  | some mfi ↦ (true, mfi.flags)
]

-- mail_folder_cache_get_folder_has_children, for the URI of the folder: the result and `found`
unfoldable pub get_folder_has_children : Camel → Text → Cache → Bool × Bool
get_folder_has_children env uri c = elim (find_folder_info env uri c) [
  | none ↦ (false, false)
  | some mfi ↦ (mfi.has_children, true)
]
