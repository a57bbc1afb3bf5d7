-- ===== src/FolderCache/Rename.antt =====
-- libemail-engine/mail-folder-cache.c: a folder and all below it get a new name. The files that keep
-- custom views under the old URI are outside this state.
use e_mail_factory.Base.{
  ℕ, Text, ℤ, pos, negsuc, int_beq, length, drop, ltb, nat_beq, if◌then◌else◌, Bool, true, false,
  not, ◌&&◌, ◌||◌, List, [], ◌∷◌, ◌++◌, Option, none, some, lookup, insert, remove, nat_eq, text_eq,
}
use e_mail_factory.FolderCache.{Camel, FolderTree, nil, node, FolderInfo, StoreInfo, Cache}
use e_mail_factory.FolderCache.Updates.{push_update, blank_update, new_folder_info, has_child}

-- A CamelFolderInfo in the array that get_folders fills, with its child link.
pub record Listed : Type 0 where
  pub full_name : Text
  pub flags : ℕ
  pub unread : ℤ
  pub child : FolderTree

-- get_folders
unfoldable pub get_folders : FolderTree → List Listed
get_folders nil = []
get_folders (node name flags unread child next) =
    record { full_name = name; flags = flags; unread = unread; child = child }
    ∷ (get_folders child ++ get_folders next)

-- strcmp (a, b) <= 0
unfoldable pub strcmp_le : Text → Text → Bool
strcmp_le [] t = true
strcmp_le (a ∷ s) [] = false
strcmp_le (a ∷ s) (b ∷ t) = ltb a b || (nat_beq a b && strcmp_le s t)

-- qsort by folder_cmp; qsort leaves the order of equal names open.
unfoldable pub insert_sorted : Listed → List Listed → List Listed
insert_sorted x [] = x ∷ []
insert_sorted x (y ∷ ys) =
    if strcmp_le x.full_name y.full_name then x ∷ y ∷ ys else y ∷ insert_sorted x ys

unfoldable pub sort_folders : List Listed → List Listed
sort_folders [] = []
sort_folders (x ∷ xs) = insert_sorted x (sort_folders xs)

-- g_strdup_printf ("%s%s", oldbase, fi->full_name + strlen (newbase)); every name in the array
-- begins with newbase, so the offset lies inside it.
unfoldable pub old_full_name : Text → Text → Text → Text
old_full_name oldbase newbase name = oldbase ++ drop (length newbase) name

-- The entry under the new name: the old one with its folder, or a new one.
abbrev pub renamed_entry : Listed → Option FolderInfo → FolderInfo
renamed_entry fi none = new_folder_info fi.full_name fi.flags fi.child
renamed_entry fi (some mfi) = record mfi {
  full_name = fi.full_name;
  flags = fi.flags;
  has_children = has_child fi.child;
}

-- g_hash_table_steal by the old entry's own name
abbrev pub steal_entry : Option FolderInfo → List (Text × FolderInfo) → List (Text × FolderInfo)
steal_entry none m = m
steal_entry (some mfi) m = remove mfi.full_name m

abbrev pub name_of : Option FolderInfo → Option Text
name_of none = none
name_of (some mfi) = some mfi.full_name

-- g_hash_table_insert keeps the key that is there, and frees the value that is there with its name,
-- which is that key.
abbrev pub overwritten : ℕ → Text → List (Text × FolderInfo) → List (ℕ × Text)
overwritten s name m = elim (lookup name m) [ none ↦ [] | some mfi ↦ (s, name) ∷ [] ]

-- rename_folders
unfoldable pub rename_folders : Camel → Text → Text → Listed → StoreInfo → Cache → StoreInfo × Cache
rename_folders env oldbase newbase fi si c =
    let found = lookup (old_full_name oldbase newbase fi.full_name) si.folders in
    (
      record si {
        folders = insert fi.full_name (renamed_entry fi found) (steal_entry found si.folders);
      },
      push_update env
          (record (blank_update fi.full_name si.store) {
            oldfull = name_of found;
            unread = if int_beq fi.unread (negsuc 0) then pos 0 else fi.unread;
            is_add = not (env.noselect fi.flags);
          })
          (record c {
            freed_keys =
                c.freed_keys ++ overwritten si.store fi.full_name (steal_entry found si.folders);
          }),
    )

-- The loop of store_folder_renamed_cb.
unfoldable pub rename_all :
    Camel → Text → Text → List Listed → StoreInfo → Cache → StoreInfo × Cache
rename_all env oldbase newbase [] si c = (si, c)
rename_all env oldbase newbase (fi ∷ fis) si c =
    let (si', c') = rename_folders env oldbase newbase fi si c in
    rename_all env oldbase newbase fis si' c'

abbrev pub rename_sorted : Camel → Text → List Listed → StoreInfo → Cache → StoreInfo × Cache
rename_sorted env old_name [] si c = (si, c)
rename_sorted env old_name (top ∷ rest) si c =
    rename_all env old_name top.full_name (top ∷ rest) si c

-- store_folder_renamed_cb
unfoldable pub store_folder_renamed_cb : Camel → ℕ → Text → FolderTree → Cache → Cache
store_folder_renamed_cb env s old_name info c = elim (lookup s c.stores) [
  | none ↦ c
  | some si ↦
      let (si', c') = rename_sorted env old_name (sort_folders (get_folders info)) si c in
      record c' { stores = insert s si' c'.stores }
]
