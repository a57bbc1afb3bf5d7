-- ===== src/Tests/Stores.antt =====
-- libemail-engine/mail-folder-cache.c: requests, sorting, the signals of an update and the order of
-- scanned mail, at the folders of Tests/Folders.antt.
use e_mail_factory.Base.{
  ℕ, ◌≡◌, refl, Text, codes, text_eq, nat_eq, pos, true, List, [], ◌∷◌, none, some, lookup, insert,
  remove,
}
use e_mail_factory.FolderCache.{
  store_get_folder_info, folder_renamed, folder_unread_updated, folder_changed,
}
use e_mail_factory.FolderCache.Updates.{blank_update}
use e_mail_factory.FolderCache.Callbacks.{scan_changes, scan_added}
use e_mail_factory.FolderCache.Stores.{start_request, queue_remove}
use e_mail_factory.FolderCache.Rename.{Listed, get_folders, sort_folders, insert_sorted, strcmp_le}
use e_mail_factory.FolderCache.Flush.{signals_of, moves}
use e_mail_factory.Tests.Folders.{camel, no_cache, tree, letter}

start_request_test : start_request camel 1 40 ≡ some (store_get_folder_info 1 40)
unfolding start_request
start_request_test = refl

queue_remove_test :
    queue_remove 4 ((3, none) ∷ (4, some 1) ∷ (5, none) ∷ (4, none) ∷ [])
    ≡ (3, none) ∷ (5, none) ∷ (4, none) ∷ []
unfolding queue_remove
queue_remove_test = refl

table_test :
    remove {V = ℕ} (codes "a") (insert (codes "b") 2 (insert (codes "a") 1 []))
    ≡ (codes "b", 2) ∷ []
unfolding insert remove
table_test = refl

abbrev names : List Listed → List Text
names [] = []
names (x ∷ xs) = x.full_name ∷ names xs

-- A folder comes before those below it.
sort_folders_test :
    names (sort_folders (get_folders tree)) ≡ codes "INBOX" ∷ codes "INBOX/a" ∷ codes "Lists" ∷ []
unfolding sort_folders insert_sorted strcmp_le get_folders
sort_folders_test = refl

signals_of_test :
    signals_of
      (record (blank_update (codes "Mail") 1) { oldfull = some (codes "INBOX"); is_add = true })
    ≡ folder_renamed 1 (some (codes "INBOX")) (codes "Mail")
      ∷ folder_unread_updated 1 (codes "Mail") (pos 0)
      ∷ folder_changed 1 (codes "Mail") 0 none none none
      ∷ []
unfolding signals_of moves
signals_of_test = refl

-- Folder 5 is a search folder, which announces no mail.
scan_changes_test :
    ((scan_changes camel 3 (some (letter (codes "1") 9) ∷ []) no_cache).count ≡ 1)
    × ((scan_changes camel 5 (some (letter (codes "1") 9) ∷ []) no_cache).count ≡ 0)
unfolding scan_changes scan_added lookup
scan_changes_test = (refl, refl)
