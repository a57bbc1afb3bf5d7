-- ===== src/FolderCache/Delivery.antt =====
-- libemail-engine/mail-folder-cache.c: flush_updates_idle_cb from its first turn to its last.
use mathlib.Core.List.{append-nil, append_assoc}
use e_mail_factory.Base.{
  ℕ, zero, suc, ◌+◌, ◌≤◌, ◌<◌, ◌≡◌, refl, sym, ap, ◌∙◌, inl, inr, Text, false, List, [], ◌∷◌, ◌++◌,
  Option, none, some, length, length-append, arith, lookup, insert, weight, weight-insert, text_eq,
  nat_eq, true, Option-cases, Bool-cases, option_beq, if◌then◌else◌, ℤ, int_beq, negsuc, not, ◌&&◌,
}
use e_mail_factory.FolderCache.{
  Camel, FolderInfo, FolderUpdate, StoreInfo, Cache, Signal, folder_available, folder_unavailable,
  folder_deleted, folder_renamed, folder_unread_updated, folder_changed,
}
use e_mail_factory.FolderCache.Updates.{flush_updates, count_unread, push_update, update_1folder}
use e_mail_factory.FolderCache.Uris.{emit, handle_available, handle_unavailable, handle_deleted}
use e_mail_factory.FolderCache.Callbacks.{put_folder, note_folder}
use e_mail_factory.FolderCache.Cases.{note_folder_cases}
use e_mail_factory.FolderCache.Flush.{
  signals_of, emit_all, unref_folder, open_vee_folder, deliver, flush_loop,
}

-- An entry is settled when it watches the folder that its store opens under its name.
abbrev pub unsettled_entry : Camel → ℕ → Text → FolderInfo → ℕ
unsettled_entry env s name mfi = if option_beq mfi.folder (env.get_folder s name) then 0 else 1

unfoldable pub unsettled : Camel → Cache → ℕ
unsettled env c = weight (λ s si. weight (unsettled_entry env s) si.folders) c.stores

-- A store opens a folder of its own, under the name that it was asked for.
abbrev pub IsCoherent : Camel → Type 0
IsCoherent env =
    (s : ℕ) (name : Text) (f : ℕ)
    → env.get_folder s name ≡ some f
    → (env.parent_store f ≡ s) × (env.full_name f ≡ name)

-- Whatever a store opens is held by something else too, as mail-vfolder.c holds the search folders
-- that it makes in vfolder_hash.
abbrev pub AreHeld : Camel → Type 0
AreHeld env = (s : ℕ) (name : Text) (f : ℕ) → env.get_folder s name ≡ some f → env.is_held f ≡ true

-- At most one update is pushed, and the stores stay as they are.
abbrev Pushed : Cache → Cache → Type 0
Pushed c c' =
    (extra : List FolderUpdate) × (c'.updates ≡ c.updates ++ extra)
    × (length extra ≤ 1)
    × (c'.stores ≡ c.stores)

push_update-Pushed : (env : Camel) (up : FolderUpdate) (c : Cache) → Pushed c (push_update env up c)
unfolding push_update flush_updates
push_update-Pushed env up c = (up ∷ [], ground arith, omega arith, ground arith)

update_1folder-Pushed :
    (env : Camel) (s : ℕ) (mfi : FolderInfo) (new : ℕ) (uid sender subject : Option Text)
    (info : Option ℤ) (c : Cache)
    → Pushed c (update_1folder env s mfi new uid sender subject info c)
unfolding update_1folder
update_1folder-Pushed env s mfi new uid sender subject info c =
    elim (Bool-cases (int_beq (count_unread env c mfi.folder info) (negsuc 0))) [
      | inl e ↦ rw e ([], sym (append-nil c.updates), omega arith, refl)
      | inr e ↦ rw e (push_update-Pushed env _ c)
    ]

-- What one delivery adds to the queue, it takes off the entries that are not settled.
abbrev Settles : Camel → Cache → Cache → Type 0
Settles env c c' =
    (extra : List FolderUpdate) × (c'.updates ≡ c.updates ++ extra)
    × (length extra + unsettled env c' ≤ unsettled env c)

Settles-same : (env : Camel) (c : Cache) → Settles env c c
Settles-same env c = ([], sym (append-nil c.updates), omega arith)

unsettled_entry_new :
    (env : Camel) (s f : ℕ) (name : Text) (mfi : FolderInfo)
    → env.get_folder s name ≡ some f
    → option_beq mfi.folder (some f) ≡ false
    → unsettled_entry env s name mfi ≡ 1
unsettled_entry_new env s f name mfi opened new = rw opened (rw new)

unsettled_entry_noted :
    (env : Camel) (s f : ℕ) (name : Text) (mfi : FolderInfo)
    → env.get_folder s name ≡ some f
    → unsettled_entry env s name (record mfi { folder = some f }) ≡ 0
unsettled_entry_noted env s f name mfi opened = rw opened (ground arith)

-- Noting the folder that the entry's store opens settles the entry.
unsettled-put_folder :
    (env : Camel) (s f : ℕ) (si : StoreInfo) (name : Text) (mfi : FolderInfo) (c : Cache)
    → env.get_folder s name ≡ some f
    → lookup s c.stores ≡ some si
    → lookup name si.folders ≡ some mfi
    → option_beq mfi.folder (some f) ≡ false
    → unsettled env (put_folder s si name (record mfi { folder = some f }) c) + 1 ≡ unsettled env c
unfolding unsettled
unsettled-put_folder env s f si name mfi c opened found entry new =
    let mfi' : FolderInfo = record mfi { folder = some f } in
    let outer =
      weight-insert (λ r sj. weight (unsettled_entry env r) sj.folders) s si
        (record si { folders = insert name mfi' si.folders }) c.stores found in
    let inner = weight-insert (unsettled_entry env s) name mfi mfi' si.folders entry in
    omega (
      arith,
      outer,
      inner,
      unsettled_entry_new env s f name mfi opened new,
      unsettled_entry_noted env s f name mfi opened,
    )

unsettled-stores :
    (env : Camel) (c d : Cache) → c.stores ≡ d.stores → unsettled env c ≡ unsettled env d
unfolding unsettled
unsettled-stores env c d e = rw e

Pushed-Settles :
    (env : Camel) (c put d : Cache)
    → Pushed put d
    → put.updates ≡ c.updates
    → unsettled env put + 1 ≡ unsettled env c
    → Settles env c d
Pushed-Settles env c put d (extra, pushed, one, same) e fewer = (
  extra,
  pushed ∙ ap (λ (us : List FolderUpdate). us ++ extra) e,
  omega (arith, one, fewer, unsettled-stores env d put same),
)

note_folder-Settles :
    (env : Camel) (f : ℕ) (c : Cache)
    → env.get_folder (env.parent_store f) (env.full_name f) ≡ some f
    → Settles env c (note_folder env f c)
note_folder-Settles env f c opened =
    note_folder_cases (Settles env c) env f c (Settles-same env c) λ si mfi found entry new.
      Pushed-Settles env c
        (put_folder (env.parent_store f) si (env.full_name f) (record mfi { folder = some f }) c) _
        (update_1folder-Pushed env si.store _ 0 none none none none _) refl
        (unsettled-put_folder env (env.parent_store f) f si (env.full_name f) mfi c opened found
          entry new)

-- The class handlers touch the lists of URIs only.
abbrev pub SameTables : Cache → Cache → Type 0
SameTables c d = (d.updates ≡ c.updates) × (d.stores ≡ c.stores)

emit-SameTables : (env : Camel) (x : Signal) (c : Cache) → SameTables c (emit env x c)
unfolding emit handle_available handle_unavailable handle_deleted
emit-SameTables env (folder_available s name) c = ground arith
emit-SameTables env (folder_unavailable s name) c = ground arith
emit-SameTables env (folder_deleted s name) c = ground arith
emit-SameTables env (folder_renamed s old name) c = (refl, refl)
emit-SameTables env (folder_unread_updated s name n) c = (refl, refl)
emit-SameTables env (folder_changed s name n uid sender subject) c = (refl, refl)

pub emit_all-SameTables :
    (env : Camel) (xs : List Signal) (c : Cache) → SameTables c (emit_all env xs c)
unfolding emit_all
emit_all-SameTables env [] c = (refl, refl)
emit_all-SameTables env (x ∷ xs) c =
    let (u, v) = emit-SameTables env x c in
    let (u', v') = emit_all-SameTables env xs (emit env x c) in (u' ∙ u, v' ∙ v)

unref_folder-held :
    (env : Camel) (f : ℕ) (c : Cache) → env.is_held f ≡ true → unref_folder env f c ≡ c
unfolding unref_folder
unref_folder-held env f c held = rw held refl

open_vee_folder-Settles :
    (env : Camel) (up : FolderUpdate) (c : Cache)
    → IsCoherent env
    → AreHeld env
    → Settles env c (open_vee_folder env up c)
unfolding open_vee_folder
open_vee_folder-Settles env up c coherent held =
    elim (Bool-cases (env.is_vee_store up.store && not up.is_remove)) [
      | inr e ↦ rw e (Settles-same env c)
      | inl e ↦ elim (Option-cases (env.get_folder up.store up.full_name)) [
        | inl d ↦ rw e (rw d (Settles-same env c))
        | inr (f, d) ↦
            let (store, name) = coherent up.store up.full_name f d in
            rw e (
              rw d (
                rw (unref_folder-held env f (note_folder env f c) (held up.store up.full_name f d))
                  (note_folder-Settles env f c (rw (store, name) d))))
      ]
    ]

deliver-Settles :
    (env : Camel) (up : FolderUpdate) (c : Cache)
    → IsCoherent env
    → AreHeld env
    → Settles env c (deliver env up c)
unfolding deliver
deliver-Settles env up c coherent held =
    let emitted = emit_all env (signals_of up) c in
    let (same, stores) = emit_all-SameTables env (signals_of up) c in
    let (extra, pushed, fewer) = open_vee_folder-Settles env up emitted coherent held in
    (
      extra,
      pushed ∙ ap (λ (us : List FolderUpdate). us ++ extra) same,
      omega (arith, fewer, unsettled-stores env emitted c stores),
    )

-- What flush_loop returns: everything that was pending, then the updates that it added itself.
abbrev pub Delivers : Camel → ℕ → Cache → List FolderUpdate → Type 0
Delivers env fuel c delivered =
    (c' : Cache) × (extra : List FolderUpdate) × (flush_loop env fuel c delivered
      ≡ some (c', delivered ++ (c.updates ++ extra)))
    × (c'.updates ≡ [])
    × (c'.update_id ≡ 0)
    × (length extra ≤ unsettled env c)

regroup :
    (up : FolderUpdate) (delivered rest extra more us : List FolderUpdate)
    → us ≡ rest ++ extra
    → (delivered ++ up ∷ []) ++ (us ++ more) ≡ delivered ++ ((up ∷ rest) ++ (extra ++ more))
regroup up delivered rest extra more us e = rw e (simp append_assoc)

flush_loop-Delivers :
    (env : Camel) (fuel : ℕ) (c : Cache) (us delivered : List FolderUpdate)
    → IsCoherent env
    → AreHeld env
    → c.updates ≡ us
    → length us + unsettled env c < fuel
    → Delivers env fuel c delivered
unfolding flush_loop
flush_loop-Delivers env zero c us delivered coherent held e enough = absurd (omega arith)
flush_loop-Delivers env (suc fuel) c [] delivered coherent held e enough =
    (record c { update_id = 0 }, [], rw e (rw (append-nil delivered) refl), e, refl, omega arith)
flush_loop-Delivers env (suc fuel) c (up ∷ rest) delivered coherent held e enough =
    let c1 = deliver env up (record c { updates = rest }) in
    let (extra, pushed, fewer) =
      deliver-Settles env up (record c { updates = rest }) coherent held in
    let same = unsettled-stores env (record c { updates = rest }) c refl in
    let (c', more, looped, empty, idle, bound) =
      flush_loop-Delivers env fuel c1 (rest ++ extra) (delivered ++ up ∷ []) coherent held pushed
        (omega (arith, length-append rest extra, fewer, same)) in
    (
      c',
      extra ++ more,
      rw e (
          looped
          ∙ ap (λ (us : List FolderUpdate). some (c', us))
              (regroup up delivered rest extra more c1.updates pushed)),
      empty,
      idle,
      omega (arith, length-append extra more, bound, fewer, same),
    )

-- The idle callback returns: it delivers exactly the pending updates, in their order, followed by
-- the updates that it adds for search folders, which are no more than the entries still to be
-- settled; then the queue is empty and no flush is scheduled. Fuel above the number of both is
-- enough, given that each store opens its own folder under the name asked for, that something else
-- holds each folder that a store opens, and that no other thread queues updates meanwhile.
pub flush_loop-delivers :
    (env : Camel) (fuel : ℕ) (c : Cache)
    → IsCoherent env
    → AreHeld env
    → length c.updates + unsettled env c < fuel
    → (c' : Cache) × (extra : List FolderUpdate) × (flush_loop env fuel c []
        ≡ some (c', c.updates ++ extra))
      × (c'.updates ≡ [])
      × (c'.update_id ≡ 0)
      × (length extra ≤ unsettled env c)
flush_loop-delivers env fuel c coherent held enough =
    flush_loop-Delivers env fuel c c.updates [] coherent held refl enough
