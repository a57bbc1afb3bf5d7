-- ===== src/FolderCache/Updates.antt =====
-- libemail-engine/mail-folder-cache.c: the queue of pending updates, and the functions that fill
-- it. A function that changes a StoreInfo returns the new one beside the cache; its caller puts it
-- back into the table of stores.

use e_mail_factory.Base.{
  ℕ, Text, ℤ, pos, negsuc, ◌-ℤ◌, ltb, ltb_ℤ, int_beq, if◌then◌else◌, Bool, true, false, not, ◌&&◌,
  ◌||◌, [], ◌∷◌, ◌++◌, Option, none, some, lookup, insert, text_eq,
}
use e_mail_factory.FolderCache.{
  Camel, FolderTree, nil, node, FolderInfo, FolderUpdate, StoreInfo, Cache,
}

-- flush_updates
unfoldable pub flush_updates : Camel → Cache → Cache
flush_updates env c =
    if ltb 0 c.update_id
    then c
    else elim c.updates [ [] ↦ c | _ ∷ _ ↦ record c { update_id = env.source_id } ]

-- g_queue_push_tail (&cache->priv->updates, up); flush_updates (cache);
unfoldable pub push_update : Camel → FolderUpdate → Cache → Cache
push_update env up c = flush_updates env (record c { updates = c.updates ++ up ∷ [] })

-- g_malloc0 (sizeof (*up)), with the two fields that every caller sets.
abbrev pub blank_update : Text → ℕ → FolderUpdate
blank_update name s = record {
  is_remove = false;
  is_delete = false;
  is_add = false;
  is_unsub = false;
  new_mail = 0;
  full_name = name;
  oldfull = none;
  unread = pos 0;
  store = s;
  msg_uid = none;
  msg_sender = none;
  msg_subject = none;
}

abbrev pub is_special_case : Camel → Cache → ℕ → Bool
is_special_case env c f =
    (c.count_trash && env.is_vtrash_folder f)
    || (c.count_sent && env.folder_is_sent f)
    || env.folder_is_drafts f
    || env.folder_is_outbox f

-- `unread -= n`, made only if n > 0.
abbrev pub less_positive : ℤ → ℤ → ℤ
less_positive unread n = if ltb_ℤ (pos 0) n then unread -ℤ n else unread

-- The first half of update_1folder: the count to report, -1 where nothing is known. `info` is the
-- unread count of the CamelFolderInfo, if there is one.
unfoldable pub count_unread : Camel → Cache → Option ℕ → Option ℤ → ℤ
count_unread env c none info = negsuc 0
count_unread env c (some f) info =
    if is_special_case env c f
    then if env.folder_is_drafts f || env.folder_is_outbox f
      then less_positive (less_positive (env.message_count f) (env.deleted_message_count f))
          (pos (env.junk_count f))
      else env.message_count f
    else elim info [ some n ↦ n | none ↦ env.unread_message_count f ]

-- update_1folder
unfoldable pub update_1folder :
    Camel → ℕ → FolderInfo → ℕ → Option Text → Option Text → Option Text → Option ℤ → Cache → Cache
update_1folder env s mfi new uid sender subject info c =
    if int_beq (count_unread env c mfi.folder info) (negsuc 0)
    then c
    else push_update env
        (record (blank_update mfi.full_name s) {
          unread = count_unread env c mfi.folder info;
          new_mail = new;
          msg_uid = uid;
          msg_sender = sender;
          msg_subject = subject;
        })
        c

-- unset_folder_info; disconnecting the folder's signals has no effect on this state.
unfoldable pub unset_folder_info : Camel → ℕ → FolderInfo → Bool → Bool → Cache → Cache
unset_folder_info env s mfi delete unsub c =
    if env.noselect mfi.flags
    then c
    else push_update env
        (record (blank_update mfi.full_name s) {
          is_remove = true;
          is_delete = delete;
          is_unsub = unsub;
        })
        c

abbrev pub has_child : FolderTree → Bool
has_child nil = false
has_child (node _ _ _ _ _) = true

-- The entry that is made for a folder seen for the first time.
abbrev pub new_folder_info : Text → ℕ → FolderTree → FolderInfo
new_folder_info name flags child = record {
  full_name = name;
  flags = flags;
  has_children = has_child child;
  folder = none;
}

-- setup_folder, for the node with the given name, flags, unread count and first child.
unfoldable pub setup_folder :
    Camel → Text → ℕ → ℤ → FolderTree → StoreInfo → Cache → StoreInfo × Cache
setup_folder env name flags unread child si c = elim (lookup name si.folders) [
  | some mfi ↦ (si, update_1folder env si.store mfi 0 none none none (some unread) c)
  | none ↦ (
    record si { folders = insert name (new_folder_info name flags child) si.folders },
    push_update env
        (record (blank_update name si.store) { unread = unread; is_add = not (env.noselect flags) })
        c,
  )
]

-- create_folders
unfoldable pub create_folders : Camel → FolderTree → StoreInfo → Cache → StoreInfo × Cache
create_folders env nil si c = (si, c)
create_folders env (node name flags unread child next) si c =
    let (si', c') = setup_folder env name flags unread child si c in
    let (si'', c'') = create_folders env child si' c' in create_folders env next si'' c''
