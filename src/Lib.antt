-- ===== src/Lib.antt =====
-- The mail engine of e-mail-factory, a D-Bus service that gives Evolution's mail engine to other
-- programs: the parts of it that keep state of their own.
--
-- The program has three layers. e-util/ holds filter rules, dialogs and helpers; libemail-engine/
-- holds the engine: the session, the cache of folders, search folders, the queues of work between
-- threads, and the operations on mail; src/ exports sessions, stores and folders over D-Bus. All of
-- them stand on Camel, GLib, GTK and libxml, which are not part of the repository. What the code asks
-- of Camel and of the account registry is an argument of the model: the record `Camel` of FolderCache
-- for one call into the folder cache, the record `Answers` of SendQueue for one message that is sent,
-- the records `Registry` of SendReceive and `Settings` of AutoReceive for one request or signal, the
-- record `Folder` of FolderUtils for one search.
--
-- Which file models what:
--   Base and its children: Boolean tests, lists, texts as lists of bytes, signed integers, GHashTable
--     as an association list (Table) and GList of objects that are found by address (Objects, Slots).
--   FolderCache: libemail-engine/mail-folder-cache.c. Updates holds flush_updates, update_1folder,
--     unset_folder_info, setup_folder and create_folders; Uris the class handlers of the signals;
--     Callbacks the callbacks on folders and stores, folder_changed_cb among them; Stores
--     mail_folder_cache_note_store, update_folders, mail_folder_cache_service_removed and the lookups
--     by URI; Rename store_folder_renamed_cb; Flush flush_updates_idle_cb; Events all of them as steps
--     of a history. The state is struct _MailFolderCachePrivate with the table of stores, and each
--     function takes and returns it. The recursive mutex of the code makes one callback one step, and
--     flush_updates_idle_cb, which gives it up while it emits and opens, two steps for each update. A
--     table key whose string was freed is noted, and the model says nothing of the program from then
--     on.
--   Filter: e-util/e-filter-part.c in Parts, e-util/e-filter-rule.c in Rules, the lists of
--     e-util/e-rule-context.c in Contexts. An element is anything that fills the record ElementClass;
--     Ints fills it with e-util/e-filter-int.c. Files holds the xml_encode and xml_decode functions of
--     parts and rules, with the nodes of libxml as the data of Xml, and an element that can be
--     written is one that fills ElementXml, as IntFiles does. Documents holds rule_context_save and the
--     part of rule_context_load that reads the document of the user. Inputs holds e-util/e-filter-input.c
--     with filter_element_clone of e-util/e-filter-element.c.
--   SearchFolder: the sources of a rule, libemail-engine/em-vfolder-rule.c, and the loops over them in
--     libemail-engine/mail-vfolder.c when a folder is deleted or renamed, in Sources.
--   SendQueue: libemail-engine/mail-ops.c, mail_send_message in Messages and send_queue_exec in Queue.
--   MailMsg: libemail-engine/mail-mt.c, the queues and mail_msg_idle_cb in Loop as atomic steps that
--     threads interleave, mail_msg_new, mail_msg_ref, mail_msg_unref and mail_msg_cancel in Active.
--   SendReceive: src/mail-send-recv.c, the entries of what is sent and received. Starting holds
--     mail_send_receive with build_infra, mail_receive_service and mail_send; Finishing holds
--     receive_done and receive_update_got_folderinfo, and all of them as the steps of a history.
--   AutoReceive: src/mail-send-recv.c, the accounts that are received from by themselves, in Accounts.
--   FolderUtils: libemail-engine/e-mail-folder-utils.c, e_mail_folder_find_duplicate_messages_sync, in
--     Duplicates.
--   Helpers: e-util/e-misc-utils.c, e_bsearch in Search, the weekdays in Weekdays,
--     e_str_without_underscores in Mnemonics.
--   Tests: runs at concrete inputs.
--
-- How the parts interact: a worker of MailMsg runs send_queue_exec; the store that it talks to
-- emits the callbacks that are the events of FolderCache; the updates that these queue are delivered
-- by an idle callback of the main loop, as the replies of MailMsg are. Contexts keeps the rules that
-- search folders and outgoing filters are made of. AutoReceive decides when SendReceive is asked to
-- receive from an account; SendReceive starts the send_queue_exec that SendQueue models, and asks
-- FolderCache for the folders of a store.
--
-- Fuel: flush_loop of FolderCache.Flush, expand_loop of Filter.Parts, visit_rules of Filter.Walks,
-- finish_idle of MailMsg.Loop, the two loops of SearchFolder.Sources, the loops of Helpers.Search
-- and count_days of Helpers.Weekdays run on fuel, and give `none` when it runs out. They are run
-- with more turns than there are pending updates and entries that the delivery can still settle,
-- one more than the bytes of the code, one more than the rules, three more than the queued
-- messages, and one pass over the sources for each that is replaced or removed and one more, one
-- more than the elements, and seven. All other loops are structural.
--
-- Numbers: counts of messages are integers without a bound, since the code adds and subtracts
-- numbers of messages in one folder; dates are not negative, and the one that is kept for a folder
-- is read back as a gint; the sequence numbers of messages wrap around at 2 ^ 32, the seconds of an
-- interval are a guint stored in a gint, a gsize has 64 bits, and how often a send was asked for
-- again is counted without a bound. The order of equal names after qsort is one of those that qsort
-- allows. atoi is read for texts whose number is an int.
--
-- Not modelled: reference counts other than those of mail-mt.c (whether something else holds a
-- folder is asked of Camel), weak pointers other than the one that an entry of the folder cache has
-- to its folder, signal connections, the files of custom views, the keep-alive ping and
-- translations of what is shown, which leave no trace in the state that is modelled; the document
-- of the system with the templates of parts, and reverting to a document, the CamelVeeFolders that
-- mail-vfolder.c builds, the date elements (e-filter-datespec.c), the folders that filters open
-- while mail is received, and the D-Bus objects; widgets, passwords and alerts, which are calls of
-- GTK and libsecret; libegdbus/, which is generated.
pub mod AutoReceive
pub mod Base
pub mod Filter
pub mod FolderCache
pub mod FolderUtils
pub mod Helpers
pub mod MailMsg
pub mod SearchFolder
pub mod SendQueue
pub mod SendReceive
pub mod Tests
