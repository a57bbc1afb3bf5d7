-- ===== src/FolderCache/Callbacks.antt =====
-- libemail-engine/mail-folder-cache.c: the callbacks on stores and folders, and the operations that
-- note and remove them.
use e_mail_factory.Base.{
  ℕ, ◌+◌, ◌-◌, ◌%◌, ◌^◌, Text, ℤ, pos, negsuc, ltb, ltb_ℤ, nat_beq, option_beq, if◌then◌else◌, Bool,
  true, not, ◌&&◌, List, [], ◌∷◌, Option, none, some, lookup, insert, remove, nat_eq, text_eq,
}
use e_mail_factory.FolderCache.{
  Camel, MessageInfo, FolderTree, nil, node, FolderInfo, StoreInfo, Cache,
}
use e_mail_factory.FolderCache.Updates.{update_1folder, unset_folder_info, setup_folder}

-- `mfi` put back under its name in the table of store `s`.
abbrev pub put_folder : ℕ → StoreInfo → Text → FolderInfo → Cache → Cache
put_folder s si name mfi c = record c {
  stores = insert s (record si { folders = insert name mfi si.folders }) c.stores;
}

-- mail_folder_cache_note_folder
unfoldable pub note_folder : Camel → ℕ → Cache → Cache
note_folder env f c =
    let s = env.parent_store f in
    let name = env.full_name f in
    elim (lookup s c.stores) [
      | none ↦ c
      | some si ↦ elim (lookup name si.folders) [
        | none ↦ c
        | some mfi ↦
            if option_beq mfi.folder (some f)
            then c
            else update_1folder env si.store (record mfi { folder = some f }) 0 none none none none
                (put_folder s si name (record mfi { folder = some f }) c)
      ]
    ]

-- store_folder_subscribed_cb; the signal's folder info is a node.
unfoldable pub store_folder_subscribed_cb : Camel → ℕ → FolderTree → Cache → Cache
store_folder_subscribed_cb env s nil c = c
store_folder_subscribed_cb env s (node name flags unread child next) c = elim (lookup s c.stores) [
  | none ↦ c
  | some si ↦
      let (si', c') = setup_folder env name flags unread child si c in
      record c' { stores = insert s si' c'.stores }
]

-- store_folder_created_cb
unfoldable pub store_folder_created_cb : Camel → ℕ → FolderTree → Cache → Cache
store_folder_created_cb env s info c =
    if env.is_subscribable s then c else store_folder_subscribed_cb env s info c

-- store_folder_unsubscribed_cb, for the folder info's name
unfoldable pub store_folder_unsubscribed_cb : Camel → ℕ → Text → Cache → Cache
store_folder_unsubscribed_cb env s name c = elim (lookup s c.stores) [
  | none ↦ c
  | some si ↦ elim (lookup name si.folders) [
    | none ↦ c
    | some mfi ↦
        let c' = unset_folder_info env si.store mfi true true c in
        record c' {
          stores = insert s (record si { folders = remove mfi.full_name si.folders }) c'.stores;
        }
  ]
]

-- store_folder_deleted_cb
unfoldable pub store_folder_deleted_cb : Camel → ℕ → Text → Cache → Cache
store_folder_deleted_cb env s name c =
    if env.is_subscribable s then c else store_folder_unsubscribed_cb env s name c

-- What the loop of folder_changed_cb accumulates: the count of new messages, the latest date, and
-- the fields of the message while it is the only one.
pub record NewMail : Type 0 where
  pub count : ℕ
  pub latest : ℤ
  pub uid : Option Text
  pub sender : Option Text
  pub subject : Option Text

-- Unread, not junk, not deleted, and later than the last new mail of the folder.
abbrev pub is_new : ℤ → MessageInfo → Bool
is_new latest_received info =
    not info.seen
    && not info.junk
    && not info.is_deleted
    && ltb_ℤ latest_received (pos info.date_received)

abbrev pub count_message : MessageInfo → NewMail → NewMail
count_message info acc = record {
  count = acc.count + 1;
  latest = if ltb_ℤ acc.latest (pos info.date_received) then pos info.date_received else acc.latest;
  uid = if nat_beq acc.count 0 then some info.uid else none;
  sender = if nat_beq acc.count 0 then some info.sender else none;
  subject = if nat_beq acc.count 0 then some info.subject else none;
}

abbrev pub scan_message : ℤ → Option MessageInfo → NewMail → NewMail
scan_message latest_received none acc = acc
scan_message latest_received (some info) acc =
    if is_new latest_received info then count_message info acc else acc

-- The loop over changes->uid_added; the list holds what camel_folder_get_message_info returns.
unfoldable pub scan_added : ℤ → List (Option MessageInfo) → NewMail → NewMail
scan_added latest_received [] acc = acc
scan_added latest_received (info ∷ infos) acc =
    scan_added latest_received infos (scan_message latest_received info acc)

abbrev pub no_mail : ℤ → NewMail
no_mail latest = record { count = 0; latest = latest; uid = none; sender = none; subject = none }

abbrev pub or_zero : Option ℤ → ℤ
or_zero none = pos 0
or_zero (some n) = n

-- GPOINTER_TO_INT, which keeps the low 32 bits with their sign
abbrev pub gint_of : ℤ → ℤ
gint_of (pos n) =
    if ltb (n % 2 ^ 32) (2 ^ 31) then pos (n % 2 ^ 32) else negsuc (2 ^ 32 - 1 - n % 2 ^ 32)
gint_of (negsuc n) =
    if ltb (n % 2 ^ 32) (2 ^ 31) then negsuc (n % 2 ^ 32) else pos (2 ^ 32 - 1 - n % 2 ^ 32)

-- New mail is counted in real folders other than the local Drafts, Outbox and Sent.
abbrev pub counts_new_mail : Camel → ℕ → Bool
counts_new_mail env f =
    not (env.is_vee_folder f)
    && not (nat_beq f env.local_drafts)
    && not (nat_beq f env.local_outbox)
    && not (nat_beq f env.local_sent)

unfoldable pub scan_changes : Camel → ℕ → List (Option MessageInfo) → Cache → NewMail
scan_changes env f added c =
    let latest = gint_of (or_zero (lookup f c.last_newmail_per_folder)) in
    if counts_new_mail env f then scan_added latest added (no_mail latest) else no_mail latest

-- The last part of folder_changed_cb: report to the entry that watches this folder.
unfoldable pub report_changes : Camel → ℕ → NewMail → Cache → Cache
report_changes env f mail c = elim (lookup (env.parent_store f) c.stores) [
  | none ↦ c
  | some si ↦ elim (lookup (env.full_name f) si.folders) [
    | none ↦ c
    | some mfi ↦
        if option_beq mfi.folder (some f)
        then update_1folder env si.store mfi mail.count mail.uid mail.sender mail.subject none c
        else c
  ]
]

-- folder_changed_cb; `added` is empty where there are no changes.
unfoldable pub folder_changed_cb : Camel → ℕ → List (Option MessageInfo) → Cache → Cache
folder_changed_cb env f added c =
    let mail = scan_changes env f added c in
    report_changes env f mail (
      if ltb 0 mail.count
      then record c { last_newmail_per_folder = insert f mail.latest c.last_newmail_per_folder }
      else c)
