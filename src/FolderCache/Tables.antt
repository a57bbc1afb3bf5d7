-- ===== src/FolderCache/Tables.antt =====
-- libemail-engine/mail-folder-cache.c: what the pushing of an update has to do with the tables,
-- and the names under which entries stand.
use e_mail_factory.Base.{
  ℕ, ◌≡◌, refl, ◌∙◌, inl, inr, Text, text_beq_iff, Bool, List, [], Option, none, some, arith,
  lookup, insert, remove, lookup-insert, lookup-remove, text_eq, nat_eq, nat_beq, subst,
  Option-cases, Bool-cases, ℤ, negsuc, int_beq,
}
use e_mail_factory.FolderCache.{
  Camel, FolderTree, nil, node, FolderInfo, FolderUpdate, StoreInfo, Cache,
}
use e_mail_factory.FolderCache.Updates.{
  flush_updates, count_unread, push_update, update_1folder, unset_folder_info, setup_folder,
  create_folders,
}

pub push_update-stores :
    (env : Camel) (up : FolderUpdate) (c : Cache) → (push_update env up c).stores ≡ c.stores
unfolding push_update flush_updates
push_update-stores env up c = ground arith

pub update_1folder-stores :
    (env : Camel) (s : ℕ) (mfi : FolderInfo) (new : ℕ) (uid sender subject : Option Text)
    (info : Option ℤ) (c : Cache)
    → (update_1folder env s mfi new uid sender subject info c).stores ≡ c.stores
unfolding update_1folder
update_1folder-stores env s mfi new uid sender subject info c =
    elim (Bool-cases (int_beq (count_unread env c mfi.folder info) (negsuc 0))) [
      | inl e ↦ rw e refl
      | inr e ↦ rw e (push_update-stores env _ c)
    ]

pub unset_folder_info-stores :
    (env : Camel) (s : ℕ) (mfi : FolderInfo) (delete unsub : Bool) (c : Cache)
    → (unset_folder_info env s mfi delete unsub c).stores ≡ c.stores
unfolding unset_folder_info
unset_folder_info-stores env s mfi delete unsub c = elim (Bool-cases (env.noselect mfi.flags)) [
  | inl e ↦ rw e refl
  | inr e ↦ rw e (push_update-stores env _ c)
]

pub setup_folder-stores :
    (env : Camel) (name : Text) (flags : ℕ) (unread : ℤ) (child : FolderTree) (si : StoreInfo)
    (c : Cache)
    → (setup_folder env name flags unread child si c).1.stores ≡ c.stores
unfolding setup_folder
setup_folder-stores env name flags unread child si c =
    elim (Option-cases (lookup name si.folders)) [
      | inl e ↦ rw (e, setup_folder) (push_update-stores env _ c)
      | inr (mfi, e) ↦
          rw (e, setup_folder)
            (update_1folder-stores env si.store mfi 0 none none none (some unread) c)
    ]

pub create_folders-stores :
    (env : Camel) (fi : FolderTree) (si : StoreInfo) (c : Cache)
    → (create_folders env fi si c).1.stores ≡ c.stores
unfolding create_folders
create_folders-stores env nil si c = refl
create_folders-stores env (node name flags unread child next) si c =
    create_folders-stores env next _ _
    ∙ create_folders-stores env child _ _
    ∙ setup_folder-stores env name flags unread child si c

abbrev pub IsKeyed : List (Text × FolderInfo) → Type 0
IsKeyed m = (name : Text) (mfi : FolderInfo) → lookup name m ≡ some mfi → mfi.full_name ≡ name

pub insert-IsKeyed :
    (name : Text) (mfi : FolderInfo) (m : List (Text × FolderInfo))
    → mfi.full_name ≡ name
    → IsKeyed m
    → IsKeyed (insert name mfi m)
insert-IsKeyed name mfi m own keyed n x h =
    ground (arith, lookup-insert name n mfi m, text_beq_iff name n, keyed n x)

pub remove-IsKeyed :
    (name : Text) (m : List (Text × FolderInfo)) → IsKeyed m → IsKeyed (remove name m)
remove-IsKeyed name m keyed n x h = ground (arith, lookup-remove name n m, keyed n x)

pub empty-IsKeyed : IsKeyed []
unfolding lookup
empty-IsKeyed name mfi h = cc

-- Every table of the cache, looked up by its store.
abbrev pub AreKeyed : List (ℕ × StoreInfo) → Type 0
AreKeyed stores = (s : ℕ) (si : StoreInfo) → lookup s stores ≡ some si → IsKeyed si.folders

pub insert-AreKeyed :
    (s : ℕ) (si : StoreInfo) (stores : List (ℕ × StoreInfo))
    → IsKeyed si.folders
    → AreKeyed stores
    → AreKeyed (insert s si stores)
insert-AreKeyed s si stores own keyed r sj h = elim (Bool-cases (nat_beq s r)) [
  | inl e ↦
      let same : si ≡ sj = ground (arith, lookup-insert s r si stores) in
      subst (λ (x : StoreInfo). IsKeyed x.folders) same own
  | inr e ↦ keyed r sj (ground (arith, lookup-insert s r si stores))
]

pub remove-AreKeyed :
    (s : ℕ) (stores : List (ℕ × StoreInfo)) → AreKeyed stores → AreKeyed (remove s stores)
remove-AreKeyed s stores keyed r sj h = elim (Bool-cases (nat_beq s r)) [
  | inl e ↦ absurd (ground (arith, lookup-remove s r stores))
  | inr e ↦ keyed r sj (ground (arith, lookup-remove s r stores))
]

pub setup_folder-IsKeyed :
    (env : Camel) (name : Text) (flags : ℕ) (unread : ℤ) (child : FolderTree) (si : StoreInfo)
    (c : Cache)
    → IsKeyed si.folders
    → IsKeyed (setup_folder env name flags unread child si c).0.folders
unfolding setup_folder
setup_folder-IsKeyed env name flags unread child si c k =
    elim (Option-cases (lookup name si.folders)) [
      | inl e ↦ rw (e, setup_folder) (insert-IsKeyed name _ si.folders refl k)
      | inr (mfi, e) ↦ rw (e, setup_folder) k
    ]

pub create_folders-IsKeyed :
    (env : Camel) (fi : FolderTree) (si : StoreInfo) (c : Cache)
    → IsKeyed si.folders
    → IsKeyed (create_folders env fi si c).0.folders
unfolding create_folders
create_folders-IsKeyed env nil si c k = k
create_folders-IsKeyed env (node name flags unread child next) si c k =
    create_folders-IsKeyed env next _ _ (
      create_folders-IsKeyed env child _ _
        (setup_folder-IsKeyed env name flags unread child si c k))
