-- ===== src/FolderUtils/Duplicates.antt =====
-- libemail-engine/e-mail-folder-utils.c: the search for duplicate messages.
use e_mail_factory.Base.{
  ℕ, Text, text_eq, nat_eq, option_beq, true, false, List, [], ◌∷◌, Option, none, some, lookup,
  insert, remove,
}
use e_mail_factory.FolderUtils.{Folder}

module _ (folder : Folder) where
  -- The digest of a message; NULL without a content, or if that cannot be decoded.
  unfoldable pub digest_of : ℕ → Option Text
  digest_of message = elim (folder.get_content message) [
    | none ↦ none
    | some content ↦ elim (folder.decode content) [
      | none ↦ none
      | some bytes ↦ some (folder.checksum bytes)
    ]
  ]

  -- The loop of emfu_get_messages_hash_sync
  unfoldable pub hash_messages :
      List Text → List (Text × Option Text) → Option (List (Text × Option Text))
  hash_messages [] table = some table
  hash_messages (uid ∷ uids) table = elim (folder.get_message uid) [
    | none ↦ none
    | some message ↦ hash_messages uids (insert uid (digest_of message) table)
  ]

  -- The loop of e_mail_folder_find_duplicate_messages_sync: what goes to the trash, given the digest
  -- that stands for each message id.
  unfoldable pub scan_duplicates : List (Text × Option Text) → List (ℕ × Text) → List Text
  scan_duplicates [] unique_ids = []
  scan_duplicates ((uid, value) ∷ entries) unique_ids = elim (folder.is_deleted uid) [
    | true ↦ uid ∷ scan_duplicates entries unique_ids
    | false ↦ elim value [
      | none ↦ uid ∷ scan_duplicates entries unique_ids
      | some digest ↦ elim (option_beq (lookup (folder.message_id uid) unique_ids) (some digest)) [
        | true ↦ scan_duplicates entries unique_ids
        | false ↦ uid ∷ scan_duplicates entries (insert (folder.message_id uid) digest unique_ids)
      ]
    ]
  ]

  -- The keys in the trash are taken out of the table.
  unfoldable pub remove_keys : List Text → List (Text × Option Text) → List (Text × Option Text)
  remove_keys [] table = table
  remove_keys (uid ∷ trash) table = remove_keys trash (remove uid table)

  -- e_mail_folder_find_duplicate_messages_sync
  unfoldable pub find_duplicate_messages : List Text → Option (List (Text × Option Text))
  find_duplicate_messages message_uids = elim (hash_messages message_uids []) [
    | none ↦ none
    | some table ↦ some (remove_keys (scan_duplicates (folder.iterate table) []) table)
  ]
