-- ===== src/Tests/Folders.antt =====
-- libemail-engine/mail-folder-cache.c at concrete stores and folders: store 1 is an account with an
-- INBOX, folder 3; store 9 holds the search folders, among them `Unread`, folder 5; folder 7 is the
-- local Outbox.
use e_mail_factory.Base.{
  ℕ, ◌≡◌, ◌≤◌, refl, sym, ap, ◌∙◌, inl, Text, codes, text_beq, text_beq_iff, nat_beq, nat_beq_iff,
  int_beq, pos, negsuc, ◌^◌, ◌-◌, ◌⊎◌, All, Bool, true, false, ◌&&◌, ◌||◌, List, [], ◌∷◌, ◌++◌,
  Option, none, some, lookup, weight, length, text_eq, nat_eq, if◌then◌else◌, arith,
}
use e_mail_factory.FolderCache.{
  Camel, MessageInfo, FolderTree, nil, node, FolderInfo, FolderUpdate, StoreInfo, Cache, Signal,
  folder_available, folder_deleted,
}
use e_mail_factory.FolderCache.Updates.{blank_update, count_unread, update_1folder, create_folders}
use e_mail_factory.FolderCache.Uris.{has_folder_uri, is_disregarded, emit}
use e_mail_factory.FolderCache.Callbacks.{
  scan_added, no_mail, gint_of, scan_changes, folder_changed_cb,
}
use e_mail_factory.FolderCache.Stores.{
  note_store, cancel_requests, service_removed, get_folder_from_uri, get_folder_info_flags,
  get_folder_has_children,
}
use e_mail_factory.FolderCache.Rename.{Listed, get_folders}
use e_mail_factory.FolderCache.Flush.{flush_loop, moves}
use e_mail_factory.FolderCache.Events.{
  Event, folder_opened, service_enabled, got_folders, service_disabled, update_popped,
  weak_pointer_reset, run,
}
use e_mail_factory.FolderCache.Scheduled.{IsScheduled, run-IsScheduled}
use e_mail_factory.FolderCache.Delivery.{IsCoherent, unsettled, flush_loop-delivers}
use e_mail_factory.FolderCache.Endless.{IsUnwatched, flush_loop-never}
use e_mail_factory.FolderCache.Trees.{setup_all, create_folders-setup_all}
use e_mail_factory.FolderCache.NewMail.{Selects, IsNotAfter, IsDateOf, only, scan_added-reports}
use e_mail_factory.FolderCache.Announced.{folder_changed_cb_again}
use e_mail_factory.FolderCache.UriLists.{IsPartialEquivalence, emit_listed}
use e_mail_factory.FolderCache.Lookups.{get_folder_from_uri_first}
use e_mail_factory.FolderCache.Removal.{gone_update, gone_updates, service_removed-forgets}
use e_mail_factory.FolderCache.Counts.{update_1folder_drafts}

abbrev pub inbox : Text
inbox = codes "INBOX"

-- The stores are 1 and 9; a URI begins with its store.
abbrev is_valid : Text → Bool
is_valid [] = false
is_valid (s ∷ name) = nat_beq s 1 || nat_beq s 9

abbrev pub camel : Camel
camel = record {
  full_name = λ f. if nat_beq f 5 then codes "Unread" else inbox;
  parent_store = λ f. if nat_beq f 5 then 9 else 1;
  folder_is_sent = λ f. false;
  folder_is_drafts = λ f. false;
  folder_is_outbox = λ f. nat_beq f 7;
  is_vtrash_folder = λ f. false;
  message_count = λ f. pos 4;
  deleted_message_count = λ f. pos 2;
  junk_count = λ f. 3;
  unread_message_count = λ f. pos 1;
  is_vee_store = λ s. nat_beq s 9;
  has_vjunk = λ s. true;
  has_vtrash = λ s. false;
  is_subscribable = λ s. false;
  has_folder_hierarchy = λ s. true;
  must_go_online = λ s. false;
  is_vee_folder = λ f. nat_beq f 5;
  local_drafts = 6;
  local_outbox = 7;
  local_sent = 8;
  is_local_store = λ s. false;
  local_folders = [];
  is_remote = λ s. true;
  vjunk_name = codes "Junk";
  vtrash_name = codes "Trash";
  junk_folder = λ s. none;
  trash_folder = λ s. none;
  get_folder = λ s name. if nat_beq s 9 && text_beq name (codes "Unread") then some 5 else none;
  is_held = λ f. true;
  uri_build = λ s name. s ∷ name;
  uri_equal = λ u v. is_valid u && text_beq u v;
  uri_folder_name = λ uri. some inbox;
  noselect = λ flags. nat_beq flags 1;
  source_id = 17;
}

abbrev pub no_cache : Cache
no_cache = record {
  stores = [];
  updates = [];
  update_id = 0;
  count_sent = false;
  count_trash = false;
  local_folder_uris = [];
  remote_folder_uris = [];
  last_newmail_per_folder = [];
  cancelled = [];
  freed_keys = [];
}

-- INBOX with the child INBOX/a, and a folder that cannot be selected.
abbrev pub tree : FolderTree
tree =
    node inbox 0 (pos 2) (node (codes "INBOX/a") 0 (pos 0) nil nil)
      (node (codes "Lists") 1 (pos 0) nil nil)

abbrev history : List (Camel × Event)
history =
    (camel, service_enabled 1 40)
    ∷ (camel, got_folders 1 40 tree false)
    ∷ (camel, folder_opened 3)
    ∷ (camel, update_popped)
    ∷ (camel, weak_pointer_reset 1 inbox)
    ∷ (camel, update_popped)
    ∷ (camel, service_disabled 1)
    ∷ []

run-IsScheduled_example : IsScheduled (run history no_cache)
run-IsScheduled_example = run-IsScheduled history no_cache (omega arith) (inl refl)

abbrev info : Text → ℕ → Bool → Option ℕ → FolderInfo
info name flags child folder = record {
  full_name = name;
  flags = flags;
  has_children = child;
  folder = folder;
}

abbrev account : StoreInfo
account = record {
  folders =
      (inbox, info inbox 0 true (some 3)) ∷ (codes "Lists", info (codes "Lists") 1 false none) ∷ [];
  store = 1;
  first_update = false;
  vjunk = none;
  vtrash = none;
  folderinfo_updates = (40, none) ∷ (41, some 42) ∷ [];
}

abbrev searches : StoreInfo
searches = record account {
  folders =
      (codes "Unread", info (codes "Unread") 0 false none) ∷ (inbox, info inbox 5 false none) ∷ [];
  store = 9;
}

-- A search folder is pending, and its entry is not settled.
abbrev pending : Cache
pending = record no_cache {
  stores = (1, account) ∷ (9, searches) ∷ [];
  updates = record (blank_update (codes "Unread") 9) { is_add = true } ∷ [];
  update_id = 17;
}

camel-IsCoherent : IsCoherent camel
camel-IsCoherent s name f h = ground (arith, nat_beq_iff s 9, text_beq_iff name (codes "Unread"))

flush_loop-delivers_example :
    (c' : Cache) × (extra : List FolderUpdate) × (flush_loop camel 6 pending []
      ≡ some (c', pending.updates ++ extra))
    × (c'.updates ≡ [])
    × (c'.update_id ≡ 0)
    × (length extra ≤ unsettled camel pending)
unfolding unsettled weight
flush_loop-delivers_example =
    flush_loop-delivers camel 6 pending camel-IsCoherent (λ s name f h. refl) (omega arith)

-- The same, where nothing else holds the search folder.
abbrev careless : Camel
careless = record camel { is_held = λ f. false }

careless_counted : (c : Cache) → int_beq (count_unread careless c (some 5) none) (negsuc 0) ≡ false
unfolding count_unread
careless_counted c = ground arith

pending-IsUnwatched : IsUnwatched 9 (codes "Unread") pending
unfolding lookup
pending-IsUnwatched = record {
  si = searches;
  mfi = info (codes "Unread") 0 false none;
  at_store = refl;
  at_name = refl;
  store = refl;
  full_name = refl;
  folder = refl;
}

flush_loop-never_example : flush_loop careless 1000 pending [] ≡ none
flush_loop-never_example =
    flush_loop-never careless 5 refl refl refl careless_counted 1000 pending [] pending-IsUnwatched
      (_, refl, refl, refl, refl)

create_folders-setup_all_example :
    create_folders camel tree account no_cache ≡ setup_all camel (get_folders tree) account no_cache
create_folders-setup_all_example = create_folders-setup_all camel tree account no_cache

abbrev renamed : Listed
renamed = record { full_name = codes "Mail"; flags = 0; unread = pos 2; child = nil }

abbrev head : Text → ℕ
head [] = 0
head (a ∷ t) = a

abbrev pub letter : Text → ℕ → MessageInfo
letter uid date = record {
  uid = uid;
  sender = codes "ann";
  subject = codes "hi";
  seen = false;
  junk = false;
  is_deleted = false;
  date_received = date;
}

scan_added-reports_example :
    let infos = some (letter (codes "1") 9) ∷ none ∷ some (letter (codes "2") 12) ∷ [] in
    let mail = scan_added (pos 10) infos (no_mail (pos 10)) in
    (new : List MessageInfo) × Selects (pos 10) infos new
    × (mail.count ≡ length new)
    × (mail.uid ≡ only (λ x. x.uid) new)
    × (mail.sender ≡ only (λ x. x.sender) new)
    × (mail.subject ≡ only (λ x. x.subject) new)
    × IsNotAfter (pos 10) mail.latest
    × All (λ (x : MessageInfo). IsNotAfter (pos x.date_received) mail.latest) new
    × ((mail.latest ≡ pos 10) ⊎ IsDateOf mail.latest new)
scan_added-reports_example =
    scan_added-reports (pos 10)
      (some (letter (codes "1") 9) ∷ none ∷ some (letter (codes "2") 12) ∷ [])

-- The junk and the deleted message are not counted.
scan_added_test :
    (scan_added
      (pos 10)
      (some (record (letter (codes "1") 12) { junk = true })
        ∷ some (record (letter (codes "2") 12) { is_deleted = true })
        ∷ some (letter (codes "3") 11)
        ∷ [])
      (no_mail (pos 10)))
    ≡ record {
      count = 1;
      latest = pos 11;
      uid = some (codes "3");
      sender = some (codes "ann");
      subject = some (codes "hi");
    }
unfolding scan_added
scan_added_test = refl

folder_changed_cb_again_example :
    (scan_changes camel 3
      (some (letter (codes "2") 12) ∷ [])
      (folder_changed_cb camel 3 (some (letter (codes "2") 12) ∷ []) pending)).count
    ≡ 0
folder_changed_cb_again_example =
    folder_changed_cb_again camel 3 (some (letter (codes "2") 12) ∷ []) pending (omega arith, tt)

-- A date of January 2038 is read back as one before 1970.
gint_of_test : gint_of (pos (2 ^ 31)) ≡ negsuc (2 ^ 31 - 1)
gint_of_test = refl

camel-IsPartialEquivalence : IsPartialEquivalence camel.uri_equal
camel-IsPartialEquivalence = (
  (λ u v h. equal v u (sym (texts u v h)) (valid_right u v h)),
  λ u v w h k. equal u w (texts u v h ∙ texts v w k) (valid_left u v h),
)
  where
    texts : (u v : Text) → is_valid u && text_beq u v ≡ true → u ≡ v
    texts u v h = (text_beq_iff u v).0 (ground (arith, h))

    valid_left : (u v : Text) → is_valid u && text_beq u v ≡ true → is_valid u ≡ true
    valid_left u v h = ground (arith, h)

    valid_right : (u v : Text) → is_valid u && text_beq u v ≡ true → is_valid v ≡ true
    valid_right u v h = ap is_valid (sym (texts u v h)) ∙ valid_left u v h

    equal : (u v : Text) → u ≡ v → is_valid u ≡ true → is_valid u && text_beq u v ≡ true
    equal u v e valid = ground (arith, valid, (text_beq_iff u v).1 e)

emit_listed_example :
    let uri = 1 ∷ inbox in
    let came = emit camel (folder_available 1 inbox) no_cache in
    let gone = emit camel (folder_deleted 1 inbox) no_cache in
    (has_folder_uri camel uri came.local_folder_uris
        || has_folder_uri camel uri came.remote_folder_uris
      ≡ true)
    × (has_folder_uri camel uri gone.local_folder_uris ≡ false)
    × (has_folder_uri camel uri gone.remote_folder_uris ≡ false)
unfolding is_disregarded
emit_listed_example =
    emit_listed camel camel-IsPartialEquivalence 1 inbox no_cache refl refl (tt, tt)

-- A URI of the search store's INBOX gets the account's.
get_folder_from_uri_first_example :
    (get_folder_from_uri camel (9 ∷ inbox) pending ≡ (true, some 3))
    × (get_folder_info_flags camel (9 ∷ inbox) pending ≡ (true, 0))
    × (get_folder_has_children camel (9 ∷ inbox) pending ≡ (true, true))
unfolding lookup
get_folder_from_uri_first_example =
    get_folder_from_uri_first camel (9 ∷ inbox) inbox pending [] ((9, searches) ∷ []) 1 account
      (info inbox 0 true (some 3)) refl refl tt refl

service_removed-forgets_example :
    let c' = service_removed camel 1 pending in
    (c'.updates ≡ pending.updates ++ gone_updates camel 1 account.folders)
    × (c'.cancelled ≡ 42 ∷ [])
    × ((ud : ℕ)
        → (service_removed camel 1 (note_store camel 1 ud none pending).0).cancelled ≡ c'.cancelled)
    × ((r : ℕ) → lookup r c'.stores ≡ (if nat_beq 1 r then none else lookup r pending.stores))
    × ((mfi : FolderInfo)
        → moves (gone_update 1 mfi) ≡ Signal.folder_unavailable 1 mfi.full_name ∷ [])
unfolding lookup cancel_requests
service_removed-forgets_example = service_removed-forgets camel 1 account pending refl

-- Four messages in the Outbox, two deleted, three junk, one of them both: the update is lost.
update_1folder_drafts_example :
    update_1folder camel 1 (info inbox 0 false (some 7)) 0 none none none none no_cache ≡ no_cache
update_1folder_drafts_example =
    update_1folder_drafts camel 1 0 (info inbox 0 false (some 7)) none none none none no_cache 7 4 2
      refl refl refl refl
