-- ===== src/FolderCache.antt =====
-- libemail-engine/mail-folder-cache.c: the data that MailFolderCache keeps.
-- Stores, folders, idle sources and pending requests are addresses, so they are numbers; a folder
-- name or URI is the list of its bytes.
pub mod Updates
pub mod Uris
pub mod Callbacks
pub mod Stores
pub mod Rename
pub mod Flush
pub mod Events
pub mod Cases
pub mod Scheduled
pub mod Delivery
pub mod Endless
pub mod Trees
pub mod Tables
pub mod Renaming
pub mod NewMail
pub mod Announced
pub mod UriLists
pub mod Lookups
pub mod Removal
pub mod Counts
use e_mail_factory.Base.{ℕ, Text, ℤ, Bool, List, Option}

-- What the cache asks Camel, GLib and the account registry during one call. The answers are
-- arguments of the operations; `source_id` is what g_idle_add_full returns, and `is_held` tells whether
-- anything else holds a reference to a folder when the idle callback gives its own back.
pub record Camel : Type 0 where
  pub full_name : ℕ → Text
  pub parent_store : ℕ → ℕ
  pub folder_is_sent : ℕ → Bool
  pub folder_is_drafts : ℕ → Bool
  pub folder_is_outbox : ℕ → Bool
  pub is_vtrash_folder : ℕ → Bool
  pub message_count : ℕ → ℤ
  pub deleted_message_count : ℕ → ℤ
  pub junk_count : ℕ → ℕ
  pub unread_message_count : ℕ → ℤ
  pub is_vee_store : ℕ → Bool
  pub has_vjunk : ℕ → Bool
  pub has_vtrash : ℕ → Bool
  pub is_subscribable : ℕ → Bool
  pub has_folder_hierarchy : ℕ → Bool
  pub must_go_online : ℕ → Bool
  pub is_vee_folder : ℕ → Bool
  pub local_drafts : ℕ
  pub local_outbox : ℕ
  pub local_sent : ℕ
  pub is_local_store : ℕ → Bool
  pub local_folders : List ℕ
  pub is_remote : ℕ → Bool
  pub vjunk_name : Text
  pub vtrash_name : Text
  pub junk_folder : ℕ → Option ℕ
  pub trash_folder : ℕ → Option ℕ
  pub get_folder : ℕ → Text → Option ℕ
  pub is_held : ℕ → Bool
  pub uri_build : ℕ → Text → Text
  pub uri_equal : Text → Text → Bool
  pub uri_folder_name : Text → Option Text
  pub noselect : ℕ → Bool
  pub source_id : ℕ

-- CamelMessageInfo, as far as folder_changed_cb reads it. A date is a time_t that is not negative.
pub record MessageInfo : Type 0 where
  pub uid : Text
  pub sender : Text
  pub subject : Text
  pub seen : Bool
  pub junk : Bool
  pub is_deleted : Bool
  pub date_received : ℕ

-- CamelFolderInfo: a node with its first child and its next sibling.
pub data FolderTree : Type 0 where
  nil : FolderTree
  node : Text → ℕ → ℤ → FolderTree → FolderTree → FolderTree

-- struct _folder_info, without the link to its store: an entry stands in its store's table.
pub record FolderInfo : Type 0 where
  pub full_name : Text
  pub flags : ℕ
  pub has_children : Bool
  pub folder : Option ℕ

-- struct _folder_update
pub record FolderUpdate : Type 0 where
  pub is_remove : Bool
  pub is_delete : Bool
  pub is_add : Bool
  pub is_unsub : Bool
  pub new_mail : ℕ
  pub full_name : Text
  pub oldfull : Option Text
  pub unread : ℤ
  pub store : ℕ
  pub msg_uid : Option Text
  pub msg_sender : Option Text
  pub msg_subject : Option Text

-- struct _StoreInfo; a request is the address of its struct _update_data with its cancellable, which
-- may be NULL.
pub record StoreInfo : Type 0 where
  pub folders : List (Text × FolderInfo)
  pub store : ℕ
  pub first_update : Bool
  pub vjunk : Option ℕ
  pub vtrash : Option ℕ
  pub folderinfo_updates : List (ℕ × Option ℕ)

-- struct _MailFolderCachePrivate, and the table `last_newmail_per_folder` that folder_changed_cb
-- keeps in a static variable, with each time_t as it is stored. `update_id` is 0 while no flush is
-- scheduled. The cancellables that the cache cancelled are noted in `cancelled`. A key of a store's
-- table whose string was freed while it stands in the table is noted in `freed_keys`: what a later
-- lookup of it gives is not defined, so a model state says something of the program while there is
-- none.
pub record Cache : Type 0 where
  pub stores : List (ℕ × StoreInfo)
  pub updates : List FolderUpdate
  pub update_id : ℕ
  pub count_sent : Bool
  pub count_trash : Bool
  pub local_folder_uris : List Text
  pub remote_folder_uris : List Text
  pub last_newmail_per_folder : List (ℕ × ℤ)
  pub cancelled : List ℕ
  pub freed_keys : List (ℕ × Text)

-- The asynchronous calls that note_store starts: bring a store online, or ask for its folders.
-- Both carry the address of their struct _update_data.
pub data Request : Type 0 where
  store_go_online : ℕ → ℕ → Request
  store_get_folder_info : ℕ → ℕ → Request

-- The signals of the class, with their arguments.
pub data Signal : Type 0 where
  folder_available : ℕ → Text → Signal
  folder_unavailable : ℕ → Text → Signal
  folder_deleted : ℕ → Text → Signal
  folder_renamed : ℕ → Option Text → Text → Signal
  folder_unread_updated : ℕ → Text → ℤ → Signal
  folder_changed : ℕ → Text → ℕ → Option Text → Option Text → Option Text → Signal
