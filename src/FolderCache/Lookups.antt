-- ===== src/FolderCache/Lookups.antt =====
-- libemail-engine/mail-folder-cache.c: the lookups by URI.
use e_mail_factory.Base.{
  ℕ, ◌≡◌, refl, Text, true, List, [], ◌∷◌, ◌++◌, none, some, lookup, text_eq, All, arith,
}
use e_mail_factory.FolderCache.{Camel, FolderInfo, StoreInfo, Cache}
use e_mail_factory.FolderCache.Stores.{
  find_by_name, find_folder_info, get_folder_from_uri, get_folder_info_flags,
  get_folder_has_children,
}

find_by_name-append :
    (name : Text) (before after : List (ℕ × StoreInfo)) (s : ℕ) (si : StoreInfo) (mfi : FolderInfo)
    → All (λ (e : ℕ × StoreInfo). lookup name e.1.folders ≡ none) before
    → lookup name si.folders ≡ some mfi
    → find_by_name name (before ++ (s, si) ∷ after) ≡ some mfi
unfolding find_by_name
find_by_name-append name [] after s si mfi unknown found = rw (found, find_by_name) refl
find_by_name-append name ((r, sj) ∷ before) after s si mfi unknown found =
    rw (unknown.0, find_by_name) (find_by_name-append name before after s si mfi unknown.1 found)

-- All three lookups answer from the first store of the table that has an entry of the URI's folder
-- name, whichever store the URI is of. So where two stores have a folder of one name, the URI of
-- the second store's folder gets the open folder, the flags and the children of the first's.
pub get_folder_from_uri_first :
    (env : Camel) (uri name : Text) (c : Cache) (before after : List (ℕ × StoreInfo)) (s : ℕ)
    (si : StoreInfo) (mfi : FolderInfo)
    → env.uri_folder_name uri ≡ some name
    → c.stores ≡ before ++ (s, si) ∷ after
    → All (λ (e : ℕ × StoreInfo). lookup name e.1.folders ≡ none) before
    → lookup name si.folders ≡ some mfi
    → (get_folder_from_uri env uri c ≡ (true, mfi.folder))
      × (get_folder_info_flags env uri c ≡ (true, mfi.flags))
      × (get_folder_has_children env uri c ≡ (mfi.has_children, true))
unfolding get_folder_from_uri get_folder_info_flags get_folder_has_children find_folder_info
get_folder_from_uri_first env uri name c before after s si mfi parsed stores unknown found =
    let here = find_by_name-append name before after s si mfi unknown found in
    (ground (arith, here), ground (arith, here), ground (arith, here))
