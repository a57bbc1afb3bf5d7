-- ===== src/FolderCache/Trees.antt =====
-- libemail-engine/mail-folder-cache.c: the two walks over a CamelFolderInfo tree, create_folders
-- and get_folders, and the table of a store after a scan.
use e_mail_factory.Base.{
  ◌≡◌, refl, sym, ap, ◌∙◌, Text, text_beq, List, [], ◌∷◌, ◌++◌, Option, none, some, text_eq,
  if◌then◌else◌,
}
use e_mail_factory.FolderCache.{Camel, FolderTree, nil, node, FolderInfo, StoreInfo, Cache}
use e_mail_factory.FolderCache.Updates.{new_folder_info, setup_folder, create_folders}
use e_mail_factory.FolderCache.Rename.{Listed, get_folders}

-- setup_folder for each entry of the array that get_folders fills.
pub setup_all : Camel → List Listed → StoreInfo → Cache → StoreInfo × Cache
setup_all env [] si c = (si, c)
setup_all env (x ∷ xs) si c =
    let (si', c') = setup_folder env x.full_name x.flags x.unread x.child si c in
    setup_all env xs si' c'

setup_all-append :
    (env : Camel) (xs ys : List Listed) (si : StoreInfo) (c : Cache)
    → setup_all env (xs ++ ys) si c
      ≡ setup_all env ys (setup_all env xs si c).0 (setup_all env xs si c).1
unfolding setup_all
setup_all-append env [] ys si c = refl
setup_all-append env (x ∷ xs) ys si c = setup_all-append env xs ys _ _

-- A scan sets up exactly the folders of the flattened tree, in the order of the flattened tree.
pub create_folders-setup_all :
    (env : Camel) (fi : FolderTree) (si : StoreInfo) (c : Cache)
    → create_folders env fi si c ≡ setup_all env (get_folders fi) si c
unfolding create_folders get_folders setup_all
create_folders-setup_all env nil si c = refl
create_folders-setup_all env (node name flags unread child next) si c =
    let (si', c') = setup_folder env name flags unread child si c in
    create_folders-setup_all env next _ _
    ∙ ap (λ (r : StoreInfo × Cache). setup_all env (get_folders next) r.0 r.1)
        (create_folders-setup_all env child si' c')
    ∙ sym (setup_all-append env (get_folders child) (get_folders next) si' c')

-- The first node of the name, as the entry that is made for it.
abbrev pub first_named : Text → List Listed → Option FolderInfo
first_named name [] = none
first_named name (x ∷ xs) =
    if text_beq x.full_name name
    then some (new_folder_info x.full_name x.flags x.child)
    else first_named name xs

abbrev pub or_else {ℓ} : {A : Type ℓ} → Option A → Option A → Option A
or_else (some a) o = some a
or_else none o = o
