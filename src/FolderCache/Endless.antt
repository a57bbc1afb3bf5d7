-- ===== src/FolderCache/Endless.antt =====
-- libemail-engine/mail-folder-cache.c: flush_updates_idle_cb on a search folder that nothing else holds.
use e_mail_factory.Base.{
  ℕ, zero, suc, ◌≡◌, refl, ap, ◌∙◌, Text, Bool, true, false, not, ◌&&◌, List, [], ◌∷◌, ◌++◌, none,
  some, lookup, insert, lookup-insert_self, text_eq, nat_eq, option_beq, int_beq, negsuc,
}
use e_mail_factory.FolderCache.{Camel, FolderInfo, FolderUpdate, StoreInfo, Cache}
use e_mail_factory.FolderCache.Updates.{count_unread, push_update, blank_update, update_1folder}
use e_mail_factory.FolderCache.Callbacks.{put_folder, note_folder}
use e_mail_factory.FolderCache.Tables.{push_update-stores}
use e_mail_factory.FolderCache.Removal.{push_update-updates}
use e_mail_factory.FolderCache.Delivery.{emit_all-SameTables}
use e_mail_factory.FolderCache.Flush.{
  signals_of, emit_all, reset_folder, unref_folder, open_vee_folder, deliver, flush_loop,
}

-- The entry of the name in the store's table, with no folder.
pub record IsUnwatched (s : ℕ) (name : Text) (c : Cache) : Type 0 where
  pub si : StoreInfo
  pub mfi : FolderInfo
  pub at_store : lookup s c.stores ≡ some si
  pub at_name : lookup name si.folders ≡ some mfi
  pub store : si.store ≡ s
  pub full_name : mfi.full_name ≡ name
  pub folder : mfi.folder ≡ none

-- The only pending update is about the folder of the name, and keeps it.
abbrev pub IsPending : ℕ → Text → List FolderUpdate → Type 0
IsPending s name us =
    (up : FolderUpdate) × (us ≡ up ∷ [])
    × (up.store ≡ s)
    × (up.full_name ≡ name)
    × (up.is_remove ≡ false)

put_folder-IsUnwatched :
    (s : ℕ) (name : Text) (si : StoreInfo) (mfi : FolderInfo) (c : Cache)
    → si.store ≡ s
    → mfi.full_name ≡ name
    → mfi.folder ≡ none
    → IsUnwatched s name (put_folder s si name mfi c)
put_folder-IsUnwatched s name si mfi c store full_name folder = record {
  si = record si { folders = insert name mfi si.folders };
  mfi = mfi;
  at_store = lookup-insert_self s _ c.stores;
  at_name = lookup-insert_self name mfi si.folders;
  store = store;
  full_name = full_name;
  folder = folder;
}

module _ (env : Camel) (f : ℕ) (vee : env.is_vee_store (env.parent_store f) ≡ true)
    (opened : env.get_folder (env.parent_store f) (env.full_name f) ≡ some f)
    (unheld : env.is_held f ≡ false)
    (counted : (c : Cache) → int_beq (count_unread env c (some f) none) (negsuc 0) ≡ false) where
  abbrev noted : StoreInfo → FolderInfo → Cache → Cache
  noted si mfi c =
      put_folder (env.parent_store f) si (env.full_name f) (record mfi { folder = some f }) c

  abbrev noted_update : StoreInfo → FolderInfo → Cache → FolderUpdate
  noted_update si mfi c = record (blank_update mfi.full_name si.store) {
    unread = count_unread env (noted si mfi c) (some f) none;
  }

  -- Noting the folder queues an update about it.
  note_folder_unwatched :
      (c : Cache) (u : IsUnwatched (env.parent_store f) (env.full_name f) c)
      → note_folder env f c ≡ push_update env (noted_update u.si u.mfi c) (noted u.si u.mfi c)
  unfolding note_folder update_1folder
  note_folder_unwatched c u =
      let fresh : option_beq u.mfi.folder (some f) ≡ false =
        ap (λ o. option_beq o (some f)) u.folder in
      rw (u.at_store, note_folder)
        (rw (u.at_name, note_folder) (rw (fresh) (rw (counted (noted u.si u.mfi c)) refl)))

  reset_folder-found :
      (c : Cache) (si : StoreInfo) (mfi : FolderInfo)
      → lookup (env.parent_store f) c.stores ≡ some si
      → lookup (env.full_name f) si.folders ≡ some mfi
      → reset_folder (env.parent_store f) (env.full_name f) c
        ≡ put_folder (env.parent_store f) si (env.full_name f) (record mfi { folder = none }) c
  unfolding reset_folder
  reset_folder-found c si mfi at_store at_name =
      rw (at_store, reset_folder) (rw (at_name, reset_folder) refl)

  -- Opening, noting and giving back leaves the entry as it was, and one more update.
  opened_again :
      (c : Cache) (u : IsUnwatched (env.parent_store f) (env.full_name f) c)
      → (c' : Cache) × (unref_folder env f (note_folder env f c) ≡ c')
        × IsUnwatched (env.parent_store f) (env.full_name f) c'
        × (c'.updates ≡ c.updates ++ noted_update u.si u.mfi c ∷ [])
  unfolding unref_folder
  opened_again c u =
      let up = noted_update u.si u.mfi c in
      let mfi : FolderInfo = record (u.mfi) { folder = some f } in
      let si : StoreInfo = record (u.si) { folders = insert (env.full_name f) mfi u.si.folders } in
      let pushed = push_update env up (noted u.si u.mfi c) in
      let here : lookup (env.parent_store f) pushed.stores ≡ some si =
        ap (lookup (env.parent_store f)) (push_update-stores env up (noted u.si u.mfi c))
        ∙ lookup-insert_self (env.parent_store f) si c.stores in
      (
        put_folder (env.parent_store f) si (env.full_name f) (record mfi { folder = none }) pushed,
        rw (unheld) (
            ap (reset_folder (env.parent_store f) (env.full_name f)) (note_folder_unwatched c u)
            ∙ reset_folder-found pushed si mfi here
                (lookup-insert_self (env.full_name f) mfi u.si.folders)),
        put_folder-IsUnwatched (env.parent_store f) (env.full_name f) si
            (record mfi { folder = none }) pushed u.store u.full_name refl,
        push_update-updates env up (noted u.si u.mfi c),
      )

  open_vee_folder-again :
      (up : FolderUpdate) (c : Cache)
      → up.store ≡ env.parent_store f
      → up.full_name ≡ env.full_name f
      → up.is_remove ≡ false
      → open_vee_folder env up c ≡ unref_folder env f (note_folder env f c)
  unfolding open_vee_folder
  open_vee_folder-again up c store full_name kept =
      let enters : env.is_vee_store up.store && not up.is_remove ≡ true =
        ap (λ (r : ℕ). env.is_vee_store r && not up.is_remove) store
        ∙ ap (λ (b : Bool). env.is_vee_store (env.parent_store f) && not b) kept
        ∙ ap (λ (b : Bool). b && true) vee in
      let opens : env.get_folder up.store up.full_name ≡ some f =
        ap (λ (r : ℕ). env.get_folder r up.full_name) store
        ∙ ap (env.get_folder (env.parent_store f)) full_name
        ∙ opened in
      rw (enters) (rw (opens) refl)

  -- One round puts everything back: the entry has no folder, and one update about it is pending.
  deliver-again :
      (up : FolderUpdate) (c : Cache)
      → up.store ≡ env.parent_store f
      → up.full_name ≡ env.full_name f
      → up.is_remove ≡ false
      → c.updates ≡ []
      → IsUnwatched (env.parent_store f) (env.full_name f) c
      → (c' : Cache) × (deliver env up c ≡ c')
        × IsUnwatched (env.parent_store f) (env.full_name f) c'
        × IsPending (env.parent_store f) (env.full_name f) c'.updates
  unfolding deliver
  deliver-again up c store full_name kept empty u =
      let emitted = emit_all env (signals_of up) c in
      let (updates, stores) = emit_all-SameTables env (signals_of up) c in
      let v : IsUnwatched (env.parent_store f) (env.full_name f) emitted = record {
        si = u.si;
        mfi = u.mfi;
        at_store = ap (lookup (env.parent_store f)) stores ∙ u.at_store;
        at_name = u.at_name;
        store = u.store;
        full_name = u.full_name;
        folder = u.folder;
      } in
      let (c', opens, w, queued) = opened_again emitted v in
      let next = noted_update u.si u.mfi emitted in
      (
        c',
        open_vee_folder-again up emitted store full_name kept ∙ opens,
        w,
        (
          next,
          queued ∙ ap (λ (us : List FolderUpdate). us ++ next ∷ []) (updates ∙ empty),
          u.store,
          u.full_name,
          refl,
        ),
      )

  -- The idle callback never returns, whatever fuel it gets, when the pending update is about a search
  -- folder that its entry does not watch and that nothing else holds: each round opens and notes the
  -- folder, which queues an update about it, and gives it back, which resets the entry. The folder is
  -- the one that its store opens under its name, and its count is known, not -1.
  pub flush_loop-never :
      (fuel : ℕ) (c : Cache) (delivered : List FolderUpdate)
      → IsUnwatched (env.parent_store f) (env.full_name f) c
      → IsPending (env.parent_store f) (env.full_name f) c.updates
      → flush_loop env fuel c delivered ≡ none
  unfolding flush_loop
  flush_loop-never zero c delivered u pending = refl
  flush_loop-never (suc fuel) c delivered u (up, only_one, store, full_name, kept) =
      let popped : Cache = record c { updates = [] } in
      let v : IsUnwatched (env.parent_store f) (env.full_name f) popped = record {
        si = u.si;
        mfi = u.mfi;
        at_store = u.at_store;
        at_name = u.at_name;
        store = u.store;
        full_name = u.full_name;
        folder = u.folder;
      } in
      let (c', delivers, w, pending) = deliver-again up popped store full_name kept refl v in
      rw (only_one, flush_loop)
        (ap (λ (d : Cache). flush_loop env fuel d (delivered ++ up ∷ [])) delivers
          ∙ flush_loop-never fuel c' (delivered ++ up ∷ []) w pending)
