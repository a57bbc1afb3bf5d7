-- ===== src/FolderCache/Flush.antt =====
-- libemail-engine/mail-folder-cache.c: the idle callback that turns pending updates into signals.
use e_mail_factory.Base.{
  ℕ, zero, suc, Text, if◌then◌else◌, Bool, true, false, not, ◌&&◌, List, [], ◌∷◌, ◌++◌, Option,
  none, some, lookup, nat_eq, text_eq,
}
use e_mail_factory.FolderCache.{
  Camel, FolderUpdate, Cache, Signal, folder_available, folder_unavailable, folder_deleted,
  folder_renamed, folder_unread_updated, folder_changed,
}
use e_mail_factory.FolderCache.Uris.{emit}
use e_mail_factory.FolderCache.Callbacks.{put_folder, note_folder}

abbrev pub list_if : Bool → Signal → List Signal
list_if b x = if b then x ∷ [] else []

abbrev pub is_none : Option Text → Bool
is_none none = true
is_none (some _) = false

-- The first signals of an update: folders that go, are renamed, or come.
unfoldable pub moves : FolderUpdate → List Signal
moves up =
    if up.is_remove
    then if up.is_delete
      then folder_deleted up.store up.full_name ∷ []
      else folder_unavailable up.store up.full_name ∷ []
    else list_if (not (is_none up.oldfull) && up.is_add)
        (folder_renamed up.store up.oldfull up.full_name)
      ++ list_if (is_none up.oldfull && up.is_add) (folder_available up.store up.full_name)

-- All signals of an update, in order. Every update has a store and a name.
unfoldable pub signals_of : FolderUpdate → List Signal
signals_of up =
    moves up
    ++ folder_unread_updated up.store up.full_name up.unread
      ∷ folder_changed up.store up.full_name up.new_mail up.msg_uid up.msg_sender up.msg_subject
      ∷ []

unfoldable pub emit_all : Camel → List Signal → Cache → Cache
emit_all env [] c = c
emit_all env (x ∷ xs) c = emit_all env xs (emit env x c)

-- The last reference to a folder goes: the weak pointer of its entry is reset.
unfoldable pub reset_folder : ℕ → Text → Cache → Cache
reset_folder s name c = elim (lookup s c.stores) [
  | none ↦ c
  | some si ↦ elim (lookup name si.folders) [
    | none ↦ c
    | some mfi ↦ put_folder s si name (record mfi { folder = none }) c
  ]
]

-- g_object_unref of a folder that was opened and noted
unfoldable pub unref_folder : Camel → ℕ → Cache → Cache
unref_folder env f c =
    if env.is_held f then c else reset_folder (env.parent_store f) (env.full_name f) c

-- The folders of a search-folder store are opened, noted and given back here.
unfoldable pub open_vee_folder : Camel → FolderUpdate → Cache → Cache
open_vee_folder env up c =
    if env.is_vee_store up.store && not up.is_remove
    then elim (env.get_folder up.store up.full_name) [
      | none ↦ c
      | some f ↦ unref_folder env f (note_folder env f c)
    ]
    else c

-- One round of the loop, for the update that was popped.
unfoldable pub deliver : Camel → FolderUpdate → Cache → Cache
deliver env up c = open_vee_folder env up (emit_all env (signals_of up) c)

-- The first part of a round: the next update is popped and its signals are emitted. Without one the
-- loop ends, and no flush is scheduled any more.
unfoldable pub pop_update : Camel → Cache → Cache
pop_update env c = elim c.updates [
  | [] ↦ record c { update_id = 0 }
  | up ∷ rest ↦ emit_all env (signals_of up) (record c { updates = rest })
]

-- flush_updates_idle_cb: the loop on fuel, with the updates that it has delivered; `none` means that
-- the fuel ran out.
unfoldable pub flush_loop :
    Camel → ℕ → Cache → List FolderUpdate → Option (Cache × List FolderUpdate)
flush_loop env zero c delivered = none
flush_loop env (suc fuel) c delivered = elim c.updates [
  | [] ↦ some (record c { update_id = 0 }, delivered)
  | up ∷ rest ↦
      flush_loop env fuel (deliver env up (record c { updates = rest })) (delivered ++ up ∷ [])
]
