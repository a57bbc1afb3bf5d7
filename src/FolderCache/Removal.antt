-- ===== src/FolderCache/Removal.antt =====
-- libemail-engine/mail-folder-cache.c: mail_folder_cache_service_removed and the updates that it
-- queues.
use mathlib.Core.List.{append-nil, append_assoc}
use e_mail_factory.Base.{
  ℕ, ◌≡◌, refl, sym, ap, ◌∙◌, inl, inr, Text, true, false, List, [], ◌∷◌, ◌++◌, none, some, lookup,
  insert, lookup-insert_self, remove, lookup-remove, Option, nat_eq, nat_beq, arith, if◌then◌else◌,
  Bool-cases,
}
use e_mail_factory.FolderCache.{
  Camel, FolderInfo, FolderUpdate, StoreInfo, Cache, folder_unavailable,
}
use e_mail_factory.FolderCache.Updates.{flush_updates, push_update, blank_update, unset_folder_info}
use e_mail_factory.FolderCache.Stores.{
  or_new, note_store, unset_all, service_removed, cancel_requests,
}
use e_mail_factory.FolderCache.Tables.{push_update-stores}
use e_mail_factory.FolderCache.Flush.{moves}

-- The update that says that a folder is not available any more.
abbrev pub gone_update : ℕ → FolderInfo → FolderUpdate
gone_update s mfi = record (blank_update mfi.full_name s) { is_remove = true }

abbrev pub gone_updates : Camel → ℕ → List (Text × FolderInfo) → List FolderUpdate
gone_updates env s [] = []
gone_updates env s ((name, mfi) ∷ m) =
    if env.noselect mfi.flags
    then gone_updates env s m
    else gone_update s mfi ∷ gone_updates env s m

pub push_update-updates :
    (env : Camel) (up : FolderUpdate) (c : Cache)
    → (push_update env up c).updates ≡ c.updates ++ up ∷ []
unfolding push_update flush_updates
push_update-updates env up c = ground arith

push_update-cancelled :
    (env : Camel) (up : FolderUpdate) (c : Cache) → (push_update env up c).cancelled ≡ c.cancelled
unfolding push_update flush_updates
push_update-cancelled env up c = ground arith

-- What the removal of one entry adds and keeps.
abbrev Unsets : Camel → ℕ → List (Text × FolderInfo) → Cache → Cache → Type 0
Unsets env s m c c' =
    (c'.updates ≡ c.updates ++ gone_updates env s m)
    × (c'.stores ≡ c.stores)
    × (c'.cancelled ≡ c.cancelled)

unset_folder_info-Unsets :
    (env : Camel) (s : ℕ) (name : Text) (mfi : FolderInfo) (c : Cache)
    → Unsets env s ((name, mfi) ∷ []) c (unset_folder_info env s mfi false false c)
unfolding unset_folder_info
unset_folder_info-Unsets env s name mfi c = elim (Bool-cases (env.noselect mfi.flags)) [
  | inl e ↦ rw e (sym (append-nil c.updates), refl, refl)
  | inr e ↦
      rw e (push_update-updates env _ c, push_update-stores env _ c, push_update-cancelled env _ c)
]

gone_updates-cons :
    (env : Camel) (s : ℕ) (name : Text) (mfi : FolderInfo) (m : List (Text × FolderInfo))
    → gone_updates env s ((name, mfi) ∷ m)
      ≡ gone_updates env s ((name, mfi) ∷ []) ++ gone_updates env s m
gone_updates-cons env s name mfi m = elim (Bool-cases (env.noselect mfi.flags)) [
  | inl e ↦ rw e refl
  | inr e ↦ rw e refl
]

unset_all-Unsets :
    (env : Camel) (s : ℕ) (m : List (Text × FolderInfo)) (c : Cache)
    → Unsets env s m c (unset_all env s m c)
unfolding unset_all
unset_all-Unsets env s [] c = (sym (append-nil c.updates), refl, refl)
unset_all-Unsets env s ((name, mfi) ∷ m) c =
    let one = unset_folder_info-Unsets env s name mfi c in
    let rest = unset_all-Unsets env s m (unset_folder_info env s mfi false false c) in
    (
      rest.0
          ∙ ap (λ (us : List FolderUpdate). us ++ gone_updates env s m) one.0
          ∙ append_assoc c.updates _ _
          ∙ ap (◌++◌ c.updates) (sym (gone_updates-cons env s name mfi m)),
      rest.1 ∙ one.1,
      rest.2 ∙ one.2,
    )

service_removed-cancelled :
    (env : Camel) (s : ℕ) (si : StoreInfo) (c : Cache)
    → lookup s c.stores ≡ some si
    → (service_removed env s c).cancelled ≡ c.cancelled ++ cancel_requests si.folderinfo_updates
unfolding service_removed
service_removed-cancelled env s si c found =
    let r = unset_all-Unsets env si.store si.folders (record c { stores = remove s c.stores }) in
    rw (found, service_removed)
      (ap (λ (us : List ℕ). us ++ cancel_requests si.folderinfo_updates) r.2)

cancel_requests-append :
    (ud : ℕ) (requests : List (ℕ × Option ℕ))
    → cancel_requests (requests ++ (ud, none) ∷ []) ≡ cancel_requests requests
unfolding cancel_requests
cancel_requests-append ud [] = refl
cancel_requests-append ud ((a, none) ∷ requests) = cancel_requests-append ud requests
cancel_requests-append ud ((a, some cancellable) ∷ requests) =
    ap (◌∷◌ cancellable) (cancel_requests-append ud requests)

-- A request without a cancellable adds nothing to what a removal cancels.
service_removed_enabled :
    (env : Camel) (s ud : ℕ) (si : StoreInfo) (c : Cache)
    → lookup s c.stores ≡ some si
    → (service_removed env s (note_store env s ud none c).0).cancelled
      ≡ c.cancelled ++ cancel_requests si.folderinfo_updates
unfolding note_store
service_removed_enabled env s ud si c found =
    let noted : StoreInfo = record si {
      folderinfo_updates = si.folderinfo_updates ++ (ud, none) ∷ [];
    } in
    let c' : Cache = record c { stores = insert s noted c.stores } in
    let same =
      ap
        (λ (o : Option StoreInfo).
          (service_removed env s (record c {
            stores =
                insert s
                  (record (or_new env s o) {
                    folderinfo_updates = (or_new env s o).folderinfo_updates ++ (ud, none) ∷ [];
                  })
                  c.stores;
          })).cancelled)
        found in
    same
    ∙ service_removed-cancelled env s noted c' (lookup-insert_self s noted c.stores)
    ∙ ap (◌++◌ c.cancelled) (cancel_requests-append ud si.folderinfo_updates)

-- Removing a service forgets its store and no other, cancels the cancellable of each request that is
-- outstanding for it and has one (a request that mail_folder_cache_service_enabled made has none, and
-- adds nothing to what is cancelled), and queues behind the pending updates one update for each of its folders that can be
-- selected; such an update makes the folder unavailable and does not delete it.
pub service_removed-forgets :
    (env : Camel) (s : ℕ) (si : StoreInfo) (c : Cache)
    → lookup s c.stores ≡ some si
    → let c' = service_removed env s c in
      (c'.updates ≡ c.updates ++ gone_updates env si.store si.folders)
      × (c'.cancelled ≡ c.cancelled ++ cancel_requests si.folderinfo_updates)
      × ((ud : ℕ) → (service_removed env s (note_store env s ud none c).0).cancelled ≡ c'.cancelled)
      × ((r : ℕ) → lookup r c'.stores ≡ (if nat_beq s r then none else lookup r c.stores))
      × ((mfi : FolderInfo)
          → moves (gone_update si.store mfi) ≡ folder_unavailable si.store mfi.full_name ∷ [])
unfolding service_removed moves
service_removed-forgets env s si c found =
    let r = unset_all-Unsets env si.store si.folders (record c { stores = remove s c.stores }) in
    let kept : (service_removed env s c).cancelled
        ≡ c.cancelled ++ cancel_requests si.folderinfo_updates =
      service_removed-cancelled env s si c found in
    (
      rw (found, service_removed) r.0,
      kept,
      (λ ud. service_removed_enabled env s ud si c found ∙ sym kept),
      (λ t. rw (found, service_removed) (rw r.1 (lookup-remove s t c.stores))),
      λ mfi. refl,
    )
